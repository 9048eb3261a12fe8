-- ===== src/Http/Poll.antt =====
-- crates/bootycall-http/src/server.rs: `/poll/{mac}`, the decision and what it does to the store.
pub mod Decides
pub mod Effects
use booty_call.Prelude.{
  ℕ, Bool, true, false, not, Option, none, some, List, [], ◌∷◌, ◌++◌, if◌then◌else◌,
}
use booty_call.Prelude.Bytes.{codes, eq_bytes}
use booty_call.Core.Mac.{normalize_mac, is_valid_mac}
use booty_call.Core.Config.{HostConfig, Config, find_host}
use booty_call.Core.Store.{
  HostStatus, polling, booting, failed, Details, HostState, StateStore, update_host_status,
  log_event, get_host,
}
use booty_call.Http.{
  Response, ok, bad_request, internal_server_error, plain, script_response, HeaderMap, unwrap_or,
  host_header,
}

-- The variables of the boot template.
pub record Context : Type 0 where
  pub name : List ℕ
  pub server_ip_port : List ℕ
  pub mac : List ℕ
  pub cmdline : List ℕ
  pub target_of : Option (List ℕ)

-- `Template::render` of minijinja; `none` is an error.
abbrev pub Template : Type 0
Template = Context → Option (List ℕ)

pub data PollOutcome : Type 0 where
  boot : (script cache_mac : List ℕ) → PollOutcome
  render_failed : PollOutcome
  poll : PollOutcome

-- The context for a host; `target_of` is the MAC that was given this host as its target.
abbrev pub context_for : HostConfig → List ℕ → Option (List ℕ) → Context
context_for h host_hdr target_of = record {
  name = h.name;
  server_ip_port = host_hdr;
  mac = h.mac;
  cmdline = unwrap_or [] h.cmdline;
  target_of = target_of;
}

abbrev pub rendered_as : HostConfig → Option (List ℕ) → PollOutcome
rendered_as h none = render_failed
rendered_as h (some script) = boot script h.mac

-- `config.hosts.iter().find(|h| &h.name == target_name)`
unfoldable pub find_name : List ℕ → List HostConfig → Option HostConfig
find_name target [] = none
find_name target (h ∷ hs) = if eq_bytes h.name target then some h else find_name target hs

abbrev pub target_name : Option HostState → Option (List ℕ)
target_name none = none
target_name (some hs) = hs.assigned_target

abbrev pub find_target : Option (List ℕ) → List HostConfig → Option HostConfig
find_target none hosts = none
find_target (some target) hosts = find_name target hosts

unfoldable pub decide_poll_outcome : Template → Config → StateStore → List ℕ → List ℕ → PollOutcome
decide_poll_outcome boot_template config store mac_str host_hdr = elim (find_host mac_str config) [
  | some h ↦ rendered_as h (boot_template (context_for h host_hdr none))
  | none ↦ elim (find_target (target_name (get_host mac_str store)) config.hosts) [
    | some h ↦ rendered_as h (boot_template (context_for h host_hdr (some mac_str)))
    | none ↦ poll
  ]
]

-- An answer, and the store it leaves.
pub record Answered : Type 0 where
  pub response : Response
  pub store : StateStore

-- When the store was told of the host and of the event.
pub record Clock : Type 0 where
  pub updated_at : ℕ
  pub logged_at : ℕ

abbrev pub only_ip : List ℕ → Details
only_ip client_ip = record { name = none; target = none; ip = some client_ip; arch = none }

abbrev pub retry_script : List ℕ → List ℕ → List ℕ
retry_script host_hdr mac_str =
    codes
      "#!ipxe\nprompt --key 0x02 --timeout 4000 BootyCall: Press Ctrl-B for manual override... \\\n  && chain --autofree http://"
    ++ (host_hdr
        ++ (codes "/ipxemenu \\\n  || chain --autofree http://"
            ++ (host_hdr ++ (codes "/poll/" ++ (mac_str ++ codes "\n")))))

abbrev pub boot_message : List ℕ → List ℕ
boot_message cache_mac =
    codes "Serving boot execution script for target (mapped cache MAC: " ++ (cache_mac ++ codes ")")

-- The effects of each outcome.
unfoldable pub apply_outcome :
    PollOutcome → List ℕ → List ℕ → List ℕ → Clock → StateStore → Answered
apply_outcome (boot script cache_mac) mac_str host_hdr client_ip clock store = record {
  response = script_response ok script;
  store =
      log_event (codes "INFO") (some mac_str) (boot_message cache_mac) clock.logged_at
        (update_host_status mac_str booting (only_ip client_ip) clock.updated_at store);
}
apply_outcome render_failed mac_str host_hdr client_ip clock store = record {
  response =
      script_response internal_server_error
        (codes "#!ipxe\necho BootyCall: internal error rendering boot script\n");
  store =
      log_event (codes "ERROR") (some mac_str) (codes "Boot script render failed") clock.logged_at
        (update_host_status mac_str failed (only_ip client_ip) clock.updated_at store);
}
apply_outcome poll mac_str host_hdr client_ip clock store = record {
  response = script_response ok (retry_script host_hdr mac_str);
  store = update_host_status mac_str polling (only_ip client_ip) clock.updated_at store;
}

-- A request to `/poll/{mac}`.
pub record PollRequest : Type 0 where
  pub headers : HeaderMap
  pub client_ip : List ℕ
  pub mac : List ℕ

-- `boot_template` is what `get_template("boot")` returns, which is `none` on an error.
unfoldable pub poll_handler : Option Template → Config → PollRequest → Clock → StateStore → Answered
poll_handler boot_template config r clock store =
    let host_hdr = host_header r.headers in
    let mac_str = normalize_mac r.mac in
    if not (is_valid_mac mac_str)
    then record { response = plain bad_request (codes "Invalid MAC address\n"); store = store }
    else elim boot_template [
      | none ↦ record {
        response = plain internal_server_error (codes "Internal server error\n");
        store = store;
      }
      | some t ↦
          apply_outcome (decide_poll_outcome t config store mac_str host_hdr) mac_str host_hdr
            r.client_ip clock store
    ]
