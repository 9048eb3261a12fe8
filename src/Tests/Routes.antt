-- ===== src/Tests/Routes.antt =====
-- The routes of crates/bootycall-http, its files and its wallpapers at concrete inputs.
use booty_call.Prelude.{ℕ, ◌≡◌, ◌↔◌, refl, inl, true, Option, none, some, List, [], ◌∷◌}
use booty_call.Prelude.Bytes.{codes}
use booty_call.Core.Store.{new}
use booty_call.Core.Store.Bounds.{IsValid-new}
use booty_call.Extractor.Cache.{file, HostCache}
use booty_call.Http.{ok, Disk, serve_file_from_dir}
use booty_call.Http.Served.{IsServed, serve_file_from_dir-IsServed}
use booty_call.Http.Api.{api_health_handler}
use booty_call.Http.Api.Readiness.{AllReady, api_health_handler_iff}
use booty_call.Http.Wallpaper.{WallpaperQuery, selected_path}
use booty_call.Http.Wallpaper.Chosen.{IsSelected, selected_path-IsSelected}
use booty_call.Http.Routes.{Request, Env, poll, override, api_logs, serve_all}
use booty_call.Http.Routes.Clean.{IsClean, serve_all-IsClean}
use booty_call.Tests.Http.{other_mac, host, config, digest, headers, clock, payload, template}

-- A disk on which every path is a file, and every directory lists one picture.
abbrev disk : Disk
disk = record {
  system = record { canonicalize = λ path. some path; exists = λ path. true };
  is_file = λ path. true;
  opens = λ path. true;
  path_of = λ dir. dir ∷ [];
  read_dir = λ dir. some (some (codes "a.png") ∷ []);
}

served_example :
    IsServed disk
      (codes "static" ∷ [])
      (codes "../etc/passwd")
      (serve_file_from_dir disk (codes "static" ∷ []) (codes "../etc/passwd"))
served_example = serve_file_from_dir-IsServed disk (codes "static" ∷ []) (codes "../etc/passwd")

-- A generator that always chooses the first.
abbrev choose : List (List ℕ) → Option (List ℕ)
choose [] = none
choose (c ∷ cs) = some c

abbrev query : WallpaperQuery
query = record { width = some 800; height = some 600; hd_video = none }

wallpaper_example :
    IsSelected disk choose
      (codes "static" ∷ [])
      query
      (selected_path disk choose (codes "static" ∷ []) query)
wallpaper_example =
    selected_path-IsSelected disk choose (λ c cs. (c, refl, inl refl)) (codes "static" ∷ []) query

abbrev cache_of : List ℕ → HostCache
cache_of m = record {
  present = true;
  kernel = some (file (1 ∷ []));
  initrd = some (file []);
  metadata = none;
  legacy_metadata = none;
}

health_example :
    (((api_health_handler cache_of config).status ≡ ok) ↔ AllReady cache_of (host ∷ []))
    × (((api_health_handler cache_of config).healthy ≡ true) ↔ AllReady cache_of (host ∷ []))
    × ((api_health_handler cache_of config).hosts_total ≡ 1)
health_example = api_health_handler_iff cache_of config

abbrev env : Env
env = record {
  digest = digest;
  disk = disk;
  asset = λ path. none;
  boot_template = some template;
  menu_template = none;
  choose = choose;
  cache_of = cache_of;
}

abbrev requests : List Request
requests =
    record {
      route = override payload;
      headers = headers;
      client_ip = codes "10.0.0.9";
      clock = clock;
      config = config;
    }
    ∷ record {
      route = poll other_mac;
      headers = headers;
      client_ip = codes "10.0.0.9";
      clock = clock;
      config = config;
    }
    ∷ record {
      route = poll (codes "junk");
      headers = headers;
      client_ip = codes "10.0.0.9";
      clock = clock;
      config = config;
    }
    ∷ record {
      route = api_logs;
      headers = headers;
      client_ip = codes "10.0.0.9";
      clock = clock;
      config = config;
    }
    ∷ []

clean_example : IsClean (serve_all env requests new)
clean_example = serve_all-IsClean env requests new (record { valid = IsValid-new; macs = tt })
