-- ===== src/Http/Routes.antt =====
-- crates/bootycall-http/src/server.rs: the routes of `run_http_server`, and requests one after the other.
pub mod Clean
use booty_call.Prelude.{ℕ, Option, none, some, List, [], ◌∷◌}
use booty_call.Core.Config.{Config}
use booty_call.Core.Store.{LogEvent, StateStore}
use booty_call.Extractor.Cache.{HostCache}
use booty_call.Http.{
  Response, Disk, HeaderMap, start_handler, root_redirect, ui_handler, serve_static_file,
  serve_cache_file,
}
use booty_call.Http.Poll.{Template, PollRequest, Clock, poll_handler}
use booty_call.Http.Menu.{MenuContext, menu_handler}
use booty_call.Http.Wallpaper.{WallpaperQuery, wallpaper_handler}
use booty_call.Http.Api.{
  Result, StatusResponse, Health, OverrideRequest, api_status_handler, api_logs_handler,
  api_health_handler, api_override_handler,
}

-- A route with what its pattern and its body give to the handler.
pub data Route : Type 0 where
  root start menu api_status api_logs api_health : Route
  ui static_file cache : (path : List ℕ) → Route
  poll : (mac : List ℕ) → Route
  wallpaper : WallpaperQuery → Route
  override : OverrideRequest → Route

pub record Request : Type 0 where
  pub route : Route
  pub headers : HeaderMap
  pub client_ip : List ℕ
  pub clock : Clock
  pub config : Config

pub data Output : Type 0 where
  page : Response → Output
  status_json : Result StatusResponse → Output
  logs_json : Result (List LogEvent) → Output
  health_json : Health → Output
  override_json : Result Unit → Output

-- What the server uses of other crates and of the system: the templates as `get_template` returns them.
pub record Env : Type 0 where
  pub digest : List ℕ → List ℕ
  pub disk : Disk
  pub asset : List ℕ → Option (List ℕ)
  pub boot_template : Option Template
  pub menu_template : Option (MenuContext → Option (List ℕ))
  pub choose : List (List ℕ) → Option (List ℕ)
  pub cache_of : List ℕ → HostCache

pub record Outcome : Type 0 where
  pub output : Output
  pub store : StateStore

abbrev unchanged : StateStore → Output → Outcome
unchanged store output = record { output = output; store = store }

module _ (env : Env) where
  unfoldable pub dispatch : Route → Request → StateStore → Outcome
  dispatch root r store = unchanged store (page root_redirect)
  dispatch (ui path) r store = unchanged store (page (ui_handler env.asset path))
  dispatch (static_file path) r store =
      unchanged store (page (serve_static_file env.disk r.config path))
  dispatch (cache path) r store = unchanged store (page (serve_cache_file env.disk r.config path))
  dispatch start r store = unchanged store (page (start_handler r.headers))
  dispatch (poll mac) r store =
      let answer =
        poll_handler env.boot_template r.config
          (record { headers = r.headers; client_ip = r.client_ip; mac = mac }) r.clock store in
      record { output = page answer.response; store = answer.store }
  dispatch menu r store = unchanged store (page (menu_handler env.menu_template r.config r.headers))
  dispatch (wallpaper query) r store =
      unchanged store (page (wallpaper_handler env.disk env.choose r.config r.headers query))
  dispatch api_status r store =
      unchanged store (status_json (api_status_handler env.digest r.config r.headers store))
  dispatch api_logs r store =
      unchanged store (logs_json (api_logs_handler env.digest r.config r.headers store))
  dispatch api_health r store =
      unchanged store (health_json (api_health_handler env.cache_of r.config))
  dispatch (override payload) r store =
      let answer = api_override_handler env.digest r.config r.headers payload r.clock store in
      record { output = override_json answer.result; store = answer.store }

  -- The store after requests, each under the configuration of its moment.
  unfoldable pub serve_all : List Request → StateStore → StateStore
  serve_all [] store = store
  serve_all (r ∷ rs) store = serve_all rs (dispatch r.route r store).store
