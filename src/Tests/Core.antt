-- ===== src/Tests/Core.antt =====
-- crates/bootycall-core at concrete inputs.
use booty_call.Prelude.{
  map, ◌++◌, ℕ, ◌≡◌, refl, inl, Bool, true, false, none, some, List, [], ◌∷◌, arith,
}
use booty_call.Prelude.Bytes.{codes}
use booty_call.Core.Mac.{HwAddr, is_valid_mac, bytes_fit, byte_fits, is_lower_hex, normalize_mac}
use booty_call.Core.Mac.Canonical.{IsHwAddr}
use booty_call.Core.Store.{StateStore, new, booting, no_details, list_logs, max_logs}
use booty_call.Core.Store.Bounds.{
  IsValid, IsValid-new, Op, update, log, clean, apply_all, apply_all-IsValid,
}
use booty_call.Core.Store.Logs.{Entry, log_all, last, events, list_logs-log_all}
use booty_call.Core.Config.{
  ServerConfig, HostConfig, Config, Loaded, loaded, load, find_host, normalize_hosts,
}
use booty_call.Core.Config.Unique.{IsLoaded, load-IsLoaded, find_host-load}
use booty_call.Core.Config.Watch.{
  Event, event, modify, create, parsed_file, message, pause, closed, idle, reload, watch_config,
  any_targets, burst-watch_config,
}
use booty_call.Core.Path.{Components, FileSystem, safe_join}
use booty_call.Core.Path.Confined.{IsConfined, safe_join-IsConfined}

abbrev address : HwAddr
address = record { b0 = 82; b1 = 84; b2 = 0; b3 = 16; b4 = 171; b5 = 255 }

address-IsHwAddr : IsHwAddr address
address-IsHwAddr = record {
  b0 = omega arith;
  b1 = omega arith;
  b2 = omega arith;
  b3 = omega arith;
  b4 = omega arith;
  b5 = omega arith;
}

abbrev mac : List ℕ
mac = codes "52:54:00:10:ab:ff"

abbrev history : List (Op × ℕ)
history =
    (update (codes "52-54-00-10-AB-FF") booting no_details, 7)
    ∷ (log (codes "INFO") none (codes "hello"), 8)
    ∷ (clean 60, 9)
    ∷ []

apply_all_example : IsValid (apply_all history new)
apply_all_example = apply_all-IsValid history new IsValid-new

abbrev busy_store : StateStore
busy_store = apply_all history new

abbrev entries : List Entry
entries =
    record { level = codes "INFO"; mac = none; message = codes "one"; now = 1 }
    ∷ record { level = codes "ERROR"; mac = some mac; message = codes "two"; now = 2 }
    ∷ []

list_logs_example : list_logs (log_all entries new) ≡ last max_logs (events entries)
list_logs_example = list_logs-log_all entries

abbrev server : ServerConfig
server = record {
  http_bind = codes "0.0.0.0:8080";
  tftp_bind = codes "0.0.0.0:69";
  tftp_root = codes "tftp";
  proxy_dhcp_bind = codes "0.0.0.0:4011";
  cache_dir = codes "cache";
  static_dir = codes "static";
  default_bootloader_amd64 = codes "x64.efi";
  default_bootloader_arm64 = codes "arm.efi";
  default_bootloader_bios = codes "bios.kpxe";
  oled_enabled = true;
  oled_brightness = 255;
  api_token = none;
  max_artifact_bytes = some 1000;
}

abbrev host : List ℕ → HostConfig
host spelling = record {
  mac = spelling;
  name = codes "node";
  image_path = codes "node.iso";
  bootloader = none;
  kernel_path = none;
  initrd_path = none;
  cmdline = none;
}

abbrev pub parsed : Config
parsed = record { server = server; hosts = host (codes "52-54-00-10-AB-FF") ∷ [] }

abbrev pub config : Config
config = record { server = server; hosts = host mac ∷ [] }

-- A stand-in for the parser of addresses.
abbrev pub is_addr : List ℕ → Bool
is_addr s = elim s [ [] ↦ false | b ∷ bs ↦ true ]

load_example : IsLoaded is_addr (load is_addr parsed)
load_example = load-IsLoaded is_addr parsed

pub parsed-load : load is_addr parsed ≡ loaded config
unfolding load booty_call.Core.Config.validate booty_call.Core.Config.check_server
    booty_call.Text.Trim.trim booty_call.Text.Trim.skip booty_call.Text.Trim.white_front
    booty_call.Text.Trim.white_back booty_call.Core.Config.check_hosts normalize_hosts is_valid_mac
    normalize_mac bytes_fit byte_fits is_lower_hex booty_call.Core.Config.seen
parsed-load = refl

find_host_example : find_host (codes "52:54:00:10:AB:FF") config ≡ some (host mac)
unfolding normalize_mac booty_call.Text.Trim.trim booty_call.Text.Trim.skip
    booty_call.Text.Trim.white_front booty_call.Text.Trim.white_back
find_host_example =
    find_host-load is_addr parsed config (host mac) (codes "52:54:00:10:AB:FF") parsed-load
      (inl refl) refl

-- A file system in which every path exists, and leads to itself.
abbrev plain_files : FileSystem
plain_files = record { canonicalize = λ path. some path; exists = λ path. true }

abbrev root : Components
root = codes "srv" ∷ codes "tftp" ∷ []

abbrev target : Components
target = codes "srv" ∷ codes "tftp" ∷ codes "boot" ∷ codes "x64.efi" ∷ []

join_target : safe_join plain_files root (codes "boot/./x64.efi") ≡ some target
unfolding safe_join booty_call.Core.Path.is_safe booty_call.Core.Path.components
    booty_call.Core.Path.segments booty_call.Core.Path.of_segments booty_call.Core.Path.starts_with
    booty_call.Core.Path.normals
join_target = refl

safe_join_example : IsConfined plain_files root (codes "boot/./x64.efi") target
safe_join_example =
    safe_join-IsConfined plain_files root (codes "boot/./x64.efi") target join_target

abbrev change : Event
change = event modify (some (codes "bootycall.yaml") ∷ [])

abbrev noise : Event
noise = event create (some (codes "bootycall.yaml~") ∷ [])

burst_example :
    watch_config is_addr
      (some (codes "bootycall.yaml"))
      idle
      (map message (noise ∷ change ∷ []) ++ (pause (parsed_file parsed) ∷ closed ∷ []))
    ≡ reload is_addr
        (some (codes "bootycall.yaml"))
        (any_targets is_addr (some (codes "bootycall.yaml")) (noise ∷ change ∷ []))
        (parsed_file parsed)
      ++ watch_config is_addr (some (codes "bootycall.yaml")) idle (closed ∷ [])
burst_example =
    burst-watch_config is_addr (some (codes "bootycall.yaml")) noise (change ∷ [])
      (parsed_file parsed) (closed ∷ [])
