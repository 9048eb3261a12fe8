-- ===== src/Http/Poll/Effects.antt =====
-- crates/bootycall-http/src/server.rs: what a request to `/poll/{mac}` leaves for the readers of the store.
use booty_call.Prelude.{
  ℕ, ◌≡◌, inl, inr, refl, true, Option, none, some, List, Bool-cases, if◌then◌else◌,
}
use booty_call.Prelude.Bytes.{eq_bytes}
use booty_call.Core.Mac.{normalize_mac, is_valid_mac}
use booty_call.Core.Mac.Canonical.{normalize_mac-valid}
use booty_call.Core.Config.{Config}
use booty_call.Core.Store.{
  HostStatus, polling, booting, failed, HostState, StateStore, full_for, merge, get_host,
  update_host_status, log_event,
}
use booty_call.Core.Store.Updates.{get_host-update_normal}
use booty_call.Http.{host_header}
use booty_call.Http.Poll.{
  Template, PollOutcome, boot, render_failed, poll, PollRequest, Clock, only_ip, apply_outcome,
  decide_poll_outcome, poll_handler,
}

abbrev pub status_after : PollOutcome → HostStatus
status_after (boot script cache_mac) = booting
status_after render_failed = failed
status_after poll = polling

-- What a reader finds under `other` when the MAC was updated to a status with the address of the client.
abbrev pub seen_by : HostStatus → List ℕ → PollRequest → ℕ → StateStore → Option HostState
seen_by status other r now store =
    if eq_bytes (normalize_mac r.mac) (normalize_mac other)
    then (if full_for (normalize_mac r.mac) store
        then none
        else some (
            merge (normalize_mac r.mac) status (only_ip r.client_ip) now
              (get_host (normalize_mac r.mac) store)))
    else get_host other store

module _ (t : Template) (config : Config) (r : PollRequest) (clock : Clock) (store : StateStore)
    (other : List ℕ) where
  abbrev outcome : PollOutcome
  outcome = decide_poll_outcome t config store (normalize_mac r.mac) (host_header r.headers)

  updated :
      (status : HostStatus)
      → is_valid_mac (normalize_mac r.mac) ≡ true
      → get_host other (
          update_host_status
            (normalize_mac r.mac)
            status
            (only_ip r.client_ip)
            clock.updated_at
            store)
        ≡ seen_by status other r clock.updated_at store
  updated status v =
      get_host-update_normal (normalize_mac r.mac) other status (only_ip r.client_ip)
        clock.updated_at store (normalize_mac-valid (normalize_mac r.mac) v)

  get_host-apply_outcome :
      (o : PollOutcome)
      → is_valid_mac (normalize_mac r.mac) ≡ true
      → get_host other
          (apply_outcome o
            (normalize_mac r.mac)
            (host_header r.headers)
            r.client_ip
            clock
            store).store
        ≡ seen_by (status_after o) other r clock.updated_at store
  unfolding get_host log_event apply_outcome
  get_host-apply_outcome (boot script cache_mac) v = updated booting v
  get_host-apply_outcome render_failed v = updated failed v
  get_host-apply_outcome poll v = updated polling v

  -- A poll with a MAC that is not valid leaves the store as it was. One with a valid MAC leaves for every
  -- reader, under every spelling of that MAC, a host with the status that the decision gives and the
  -- address of the client, unless a full store does not know the MAC; every other host is as it was.
  pub get_host-poll_handler : get_host other (poll_handler (some t) config r clock store).store ≡ (
      if is_valid_mac (normalize_mac r.mac)
      then seen_by (status_after outcome) other r clock.updated_at store
      else get_host other store)
  unfolding poll_handler
  get_host-poll_handler = elim (Bool-cases (is_valid_mac (normalize_mac r.mac))) [
    | inl v ↦ rw v (get_host-apply_outcome outcome v)
    | inr e ↦ rw e refl
  ]
