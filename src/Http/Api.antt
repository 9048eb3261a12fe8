-- ===== src/Http/Api.antt =====
-- crates/bootycall-http/src/server.rs: the endpoints under `/api`.
-- A JSON body is the value that it encodes.
pub mod Overrides
pub mod Readiness
use booty_call.Prelude.{
  ℕ, Bool, true, false, not, Option, none, some, List, [], ◌∷◌, ◌++◌, if◌then◌else◌, length,
}
use booty_call.Prelude.Bytes.{codes}
use booty_call.Core.HostMap.{is_some}
use booty_call.Core.Mac.{normalize_mac, is_valid_mac}
use booty_call.Core.Config.{HostConfig, Config}
use booty_call.Core.Store.{
  polling, Details, HostState, LogEvent, StateStore, update_host_status, log_event, list_hosts,
  list_logs,
}
use booty_call.Extractor.Cache.{HostCache, host_cache_ready}
use booty_call.Http.{StatusCode, ok, bad_request, unauthorized, service_unavailable, HeaderMap}
use booty_call.Http.Poll.{Clock, find_name}
use booty_call.Http.Token.{check_api_token}

-- `Result<A, StatusCode>`
pub data Result (A : Type 0) : Type 0 where
  success : A → Result A
  err : StatusCode → Result A

pub record StatusResponse : Type 0 where
  pub hosts : List HostState
  pub configs : List HostConfig

pub record Health : Type 0 where
  pub status : StatusCode
  pub healthy : Bool
  pub hosts_total : ℕ
  pub hosts_not_ready : List (List ℕ)

pub record OverrideRequest : Type 0 where
  pub mac : List ℕ
  pub target : List ℕ

-- An answer of the override endpoint, and the store it leaves. `{"status": "ok"}` is `tt`.
pub record Overridden : Type 0 where
  pub result : Result Unit
  pub store : StateStore

-- The names of the hosts that are not ready, by the directory of each MAC.
unfoldable pub not_ready : (List ℕ → HostCache) → List HostConfig → List (List ℕ)
not_ready cache_of [] = []
not_ready cache_of (h ∷ hs) =
    let rest = not_ready cache_of hs in
    if host_cache_ready (cache_of h.mac) then rest else h.name ∷ rest

abbrev pub is_empty : List (List ℕ) → Bool
is_empty [] = true
is_empty (n ∷ ns) = false

-- `/api/health`
unfoldable pub api_health_handler : (List ℕ → HostCache) → Config → Health
api_health_handler cache_of config =
    let names = not_ready cache_of config.hosts in
    record {
      status = if is_empty names then ok else service_unavailable;
      healthy = is_empty names;
      hosts_total = length config.hosts;
      hosts_not_ready = names;
    }

abbrev pub only_target : List ℕ → Details
only_target target = record { name = none; target = some target; ip = none; arch = none }

abbrev pub override_message : List ℕ → List ℕ
override_message target = codes "Assigned manual override target: " ++ target

-- A target that exists is assigned.
abbrev pub assign : List ℕ → List ℕ → Clock → StateStore → StateStore
assign mac_str target clock store =
    log_event (codes "INFO") (some mac_str) (override_message target) clock.logged_at
      (update_host_status mac_str polling (only_target target) clock.updated_at store)

module _ (digest : List ℕ → List ℕ) where
  abbrev pub guarded : {A : Type 0} → Config → HeaderMap → A → Result A
  guarded config headers a =
      if check_api_token digest config headers then success a else err unauthorized

  -- `/api/status`
  unfoldable pub api_status_handler : Config → HeaderMap → StateStore → Result StatusResponse
  api_status_handler config headers store =
      guarded config headers (record { hosts = list_hosts store; configs = config.hosts })

  -- `/api/logs`
  unfoldable pub api_logs_handler : Config → HeaderMap → StateStore → Result (List LogEvent)
  api_logs_handler config headers store = guarded config headers (list_logs store)

  -- `/api/override`
  unfoldable pub api_override_handler :
      Config → HeaderMap → OverrideRequest → Clock → StateStore → Overridden
  api_override_handler config headers payload clock store =
      let mac_str = normalize_mac payload.mac in
      if not (check_api_token digest config headers)
      then record { result = err unauthorized; store = store }
      else if not (is_valid_mac mac_str)
      then record { result = err bad_request; store = store }
      else if not (is_some (find_name payload.target config.hosts))
      then record { result = err bad_request; store = store }
      else record { result = success tt; store = assign mac_str payload.target clock store }
