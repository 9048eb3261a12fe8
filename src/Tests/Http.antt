-- ===== src/Tests/Http.antt =====
-- crates/bootycall-http at concrete inputs.
use booty_call.Prelude.{
  ℕ, ◌≡◌, ◌≢◌, ◌⊎◌, refl, true, false, none, some, List, [], ◌∷◌, ◌++◌, arith, length, take,
  replicate, if◌then◌else◌, length-append, length-take,
}
use booty_call.Prelude.Bytes.{codes}
use booty_call.Core.Mac.{normalize_mac, is_valid_mac}
use booty_call.Core.Config.{ServerConfig, HostConfig, Config, find_host}
use booty_call.Core.Config.Unique.{Listed}
use booty_call.Core.Store.{new, get_host, full_for}
use booty_call.Http.{
  Response, ok, script_response, HeaderMap, host_header, Disk, serve_file_from_dir,
}
use booty_call.Http.Poll.{
  Context, Template, PollRequest, Clock, context_for, decide_poll_outcome, poll_handler,
}
use booty_call.Http.Poll.Decides.{IsDecided, decide_poll_outcome-IsDecided}
use booty_call.Http.Poll.Effects.{status_after, seen_by, get_host-poll_handler}
use booty_call.Http.Token.{constant_time_eq}
use booty_call.Http.Token.Guards.{shown, IsLetThrough, IsRefused, api-IsGuarded}
use booty_call.Http.Api.{success, OverrideRequest, api_override_handler}
use booty_call.Http.Api.Overrides.{override_then_poll}

abbrev pub mac : List ℕ
mac = codes "52:54:00:10:ab:ff"

abbrev pub other_mac : List ℕ
other_mac = codes "52:54:00:10:ab:00"

abbrev server : ServerConfig
server = record {
  http_bind = codes "0.0.0.0:8080";
  tftp_bind = codes "0.0.0.0:69";
  tftp_root = codes "tftp";
  proxy_dhcp_bind = codes "0.0.0.0:4011";
  cache_dir = codes "cache";
  static_dir = codes "static";
  default_bootloader_amd64 = codes "x64.efi";
  default_bootloader_arm64 = codes "arm.efi";
  default_bootloader_bios = codes "bios.kpxe";
  oled_enabled = true;
  oled_brightness = 255;
  api_token = some (codes "secret");
  max_artifact_bytes = some 1000;
}

abbrev pub host : HostConfig
host = record {
  mac = mac;
  name = codes "rescue";
  image_path = codes "rescue.iso";
  bootloader = none;
  kernel_path = none;
  initrd_path = none;
  cmdline = some (codes "quiet");
}

abbrev pub config : Config
config = record { server = server; hosts = host ∷ [] }

-- A stand-in for a digest of two bytes: the first byte and one of padding.
abbrev pub digest : List ℕ → List ℕ
digest s = take 2 (s ++ replicate 2 0)

digest-length : (s : List ℕ) → length (digest s) ≡ 2
digest-length s = omega (arith, length-take 2 (s ++ replicate 2 0), length-append s (replicate 2 0))

-- The headers of a client that shows the token.
abbrev pub headers : HeaderMap
headers name = some (codes "secret")

abbrev pub clock : Clock
clock = record { updated_at = 7; logged_at = 8 }

abbrev pub payload : OverrideRequest
payload = record { mac = codes "52-54-00-10-AB-00"; target = codes "rescue" }

guarded_example :
    ((digest (shown headers) ≡ digest (codes "secret"))
      × IsLetThrough digest config headers payload clock new)
    ⊎ ((digest (shown headers) ≢ digest (codes "secret"))
        × IsRefused digest config headers payload clock new)
guarded_example =
    api-IsGuarded digest config headers payload clock new 2 (codes "secret") refl digest-length

-- A template that renders the name of the host.
abbrev pub template : Template
template c = some c.name

decides_example :
    IsDecided template config new mac
      (codes "box:80")
      (decide_poll_outcome template config new mac (codes "box:80"))
decides_example = decide_poll_outcome-IsDecided template config new mac (codes "box:80")

abbrev request : PollRequest
request = record { headers = headers; client_ip = codes "10.0.0.9"; mac = other_mac }

effects_example : get_host mac (poll_handler (some template) config request clock new).store ≡ (
    if is_valid_mac (normalize_mac other_mac)
    then seen_by
        (status_after
          (decide_poll_outcome template config new (normalize_mac other_mac) (host_header headers)))
        mac
        request
        7
        new
    else get_host mac new)
effects_example = get_host-poll_handler template config request clock new mac

accepted : (api_override_handler digest config headers payload clock new).result ≡ success tt
unfolding api_override_handler booty_call.Http.Token.check_api_token constant_time_eq
    booty_call.Http.Token.diff_loop is_valid_mac normalize_mac booty_call.Text.Trim.trim
    booty_call.Text.Trim.skip booty_call.Text.Trim.white_front booty_call.Text.Trim.white_back
    booty_call.Core.Mac.bytes_fit booty_call.Core.Mac.byte_fits booty_call.Core.Mac.is_lower_hex
    booty_call.Http.Poll.find_name
accepted = refl

room : full_for (normalize_mac payload.mac) new ≡ false
unfolding get_host booty_call.Core.HostMap.lookup
room = refl

same_mac : normalize_mac request.mac ≡ normalize_mac payload.mac
unfolding normalize_mac booty_call.Text.Trim.trim booty_call.Text.Trim.skip
    booty_call.Text.Trim.white_front booty_call.Text.Trim.white_back
same_mac = refl

unconfigured : find_host (normalize_mac request.mac) config ≡ none
unfolding find_host booty_call.Core.Config.find_mac normalize_mac booty_call.Text.Trim.trim
    booty_call.Text.Trim.skip booty_call.Text.Trim.white_front booty_call.Text.Trim.white_back
unconfigured = refl

override_example :
    (h : HostConfig) × (script : List ℕ) × Listed h config.hosts
    × (h.name ≡ codes "rescue")
    × (template (context_for h (host_header headers) (some (normalize_mac other_mac)))
        ≡ some script)
    × ((poll_handler
          (some template)
          config
          request
          clock
          (api_override_handler digest config headers payload clock new).store).response
        ≡ script_response ok script)
override_example =
    override_then_poll digest template config headers payload clock new request clock accepted room
      same_mac unconfigured (λ c. (c.name, refl))
