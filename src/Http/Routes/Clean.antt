-- ===== src/Http/Routes/Clean.antt =====
-- crates/bootycall-http/src/server.rs: what requests can do to the store.
use booty_call.Prelude.{
  ℕ, ◌≡◌, inl, inr, not, ◌&&◌, true, Option, List, [], ◌∷◌, length, leb, All, Bool-cases,
  Option-cases,
}
use booty_call.Prelude.Bytes.{eq_bytes}
use booty_call.Core.HostMap.{HostMap, is_some, lookup, upsert}
use booty_call.Core.Mac.{normalize_mac, is_valid_mac}
use booty_call.Core.Mac.Canonical.{normalize_mac-valid}
use booty_call.Core.Config.{Config}
use booty_call.Core.Store.{
  HostStatus, Details, HostState, StateStore, update_host_status, log_event, max_tracked_hosts,
  merge,
}
use booty_call.Core.Store.Bounds.{IsValid, update, log, apply, apply-IsValid}
use booty_call.Http.Poll.{
  Template, PollOutcome, boot, render_failed, PollRequest, Clock, apply_outcome, poll_handler,
}
use booty_call.Http.Api.{OverrideRequest, api_override_handler}
use booty_call.Http.Token.{check_api_token}
use booty_call.Http.Poll.{find_name}
use booty_call.Http.Routes.{
  Route, root, start, menu, api_status, api_logs, api_health, ui, static_file, cache, poll,
  wallpaper, override, Request, Env, dispatch, serve_all,
}

-- The store is within its bounds, and knows no host but under a valid MAC address.
pub record IsClean (s : StateStore) : Type 0 where
  pub valid : IsValid s
  pub macs : All (λ e. is_valid_mac e.0 ≡ true) s.hosts

upsert-macs :
    (k : List ℕ) (f : Option HostState → HostState) (m : HostMap HostState)
    → is_valid_mac k ≡ true
    → All (λ e. is_valid_mac e.0 ≡ true) m
    → All (λ e. is_valid_mac e.0 ≡ true) (upsert k f m)
unfolding upsert
upsert-macs k f [] v h = (v, tt)
upsert-macs k f ((j, x) ∷ m) v h = elim (Bool-cases (eq_bytes j k)) [
  | inl same ↦ rw same h
  | inr other ↦ rw other (h.0, upsert-macs k f m v h.1)
]

update-macs :
    (k : List ℕ) (status : HostStatus) (d : Details) (now : ℕ) (s : StateStore)
    → is_valid_mac k ≡ true
    → All (λ e. is_valid_mac e.0 ≡ true) s.hosts
    → All (λ e. is_valid_mac e.0 ≡ true) (update_host_status k status d now s).hosts
unfolding update_host_status
update-macs k status d now s v h =
    let normal = normalize_mac-valid k v in
    elim (Bool-cases (
      not (is_some (lookup (normalize_mac k) s.hosts)) && leb max_tracked_hosts (length s.hosts))) [
        | inl full ↦ rw full h
        | inr room ↦ rw room (
            upsert-macs (normalize_mac k) (merge (normalize_mac k) status d now) s.hosts
              (rw normal v) h)
      ]

update-IsClean :
    (k : List ℕ) (status : HostStatus) (d : Details) (now : ℕ) (s : StateStore)
    → is_valid_mac k ≡ true
    → IsClean s
    → IsClean (update_host_status k status d now s)
unfolding apply
update-IsClean k status d now s v c = record {
  valid = apply-IsValid (update k status d) now s c.valid;
  macs = update-macs k status d now s v c.macs;
}

log-IsClean :
    (level : List ℕ) (mac : Option (List ℕ)) (message : List ℕ) (now : ℕ) (s : StateStore)
    → IsClean s
    → IsClean (log_event level mac message now s)
unfolding apply log_event
log-IsClean level mac message now s c = record {
  valid = apply-IsValid (log level mac message) now s c.valid;
  macs = c.macs;
}

apply_outcome-IsClean :
    (o : PollOutcome) (k host_hdr client_ip : List ℕ) (clock : Clock) (s : StateStore)
    → is_valid_mac k ≡ true
    → IsClean s
    → IsClean (apply_outcome o k host_hdr client_ip clock s).store
unfolding apply_outcome
apply_outcome-IsClean (boot script m) k host_hdr client_ip clock s v c =
    log-IsClean _ _ _ _ _ (update-IsClean k _ _ _ s v c)
apply_outcome-IsClean render_failed k host_hdr client_ip clock s v c =
    log-IsClean _ _ _ _ _ (update-IsClean k _ _ _ s v c)
apply_outcome-IsClean PollOutcome.poll k host_hdr client_ip clock s v c =
    update-IsClean k _ _ _ s v c

poll_handler-IsClean :
    (t : Option Template) (config : Config) (r : PollRequest) (clock : Clock) (s : StateStore)
    → IsClean s
    → IsClean (poll_handler t config r clock s).store
unfolding poll_handler
poll_handler-IsClean t config r clock s c = elim (Bool-cases (is_valid_mac (normalize_mac r.mac))) [
  | inr bad ↦ rw bad c
  | inl v ↦ elim (Option-cases t) [
    | inl e ↦ rw (v, e, poll_handler) c
    | inr (template, e) ↦ rw (v, e, poll_handler) (apply_outcome-IsClean _ _ _ _ _ s v c)
  ]
]

api_override_handler-IsClean :
    (digest : List ℕ → List ℕ) (r : Request) (payload : OverrideRequest) (s : StateStore)
    → IsClean s
    → IsClean (api_override_handler digest r.config r.headers payload r.clock s).store
unfolding api_override_handler
api_override_handler-IsClean digest r payload s c =
    elim (Bool-cases (check_api_token digest r.config r.headers)) [
      | inr refused ↦ rw refused c
      | inl passed ↦ elim (Bool-cases (is_valid_mac (normalize_mac payload.mac))) [
        | inr bad ↦ rw (passed, bad) c
        | inl v ↦ elim (Bool-cases (is_some (find_name payload.target r.config.hosts))) [
          | inr unknown ↦ rw (passed, v, unknown) c
          | inl known ↦ rw (passed, v, known) (log-IsClean _ _ _ _ _ (update-IsClean _ _ _ _ s v c))
        ]
      ]
    ]

module _ (env : Env) where
  dispatch-IsClean :
      (route : Route) (r : Request) (s : StateStore)
      → IsClean s
      → IsClean (dispatch env route r s).store
  unfolding dispatch
  dispatch-IsClean root r s c = c
  dispatch-IsClean start r s c = c
  dispatch-IsClean menu r s c = c
  dispatch-IsClean api_status r s c = c
  dispatch-IsClean api_logs r s c = c
  dispatch-IsClean api_health r s c = c
  dispatch-IsClean (ui path) r s c = c
  dispatch-IsClean (static_file path) r s c = c
  dispatch-IsClean (cache path) r s c = c
  dispatch-IsClean (poll mac) r s c = poll_handler-IsClean env.boot_template r.config _ r.clock s c
  dispatch-IsClean (wallpaper query) r s c = c
  dispatch-IsClean (override payload) r s c = api_override_handler-IsClean env.digest r payload s c

  -- Whatever requests the HTTP server answers, under whatever configurations, a store that was within its
  -- bounds and knew only valid MAC addresses stays so: no request brings another key in.
  pub serve_all-IsClean :
      (rs : List Request) (s : StateStore) → IsClean s → IsClean (serve_all env rs s)
  unfolding serve_all
  serve_all-IsClean [] s c = c
  serve_all-IsClean (r ∷ rs) s c = serve_all-IsClean rs _ (dispatch-IsClean r.route r s c)
