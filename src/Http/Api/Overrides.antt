-- ===== src/Http/Api/Overrides.antt =====
-- crates/bootycall-http/src/server.rs: an override, and the poll that follows it.
use booty_call.Prelude.{
  ℕ, ◌≡◌, inl, inr, refl, ap, ◌∙◌, true, false, none, some, List, arith, Bool-cases, Option-cases,
}
use booty_call.Prelude.Bytes.{eq_bytes_self}
use booty_call.Core.Mac.{normalize_mac, is_valid_mac}
use booty_call.Core.Mac.Canonical.{normalize_mac-valid}
use booty_call.Core.Config.{HostConfig, Config, find_host}
use booty_call.Core.Config.Unique.{Listed}
use booty_call.Core.Store.{polling, StateStore, full_for, merge, get_host, log_event}
use booty_call.Core.Store.Updates.{get_host-update_normal}
use booty_call.Http.{HeaderMap, host_header, ok, script_response}
use booty_call.Http.Poll.{
  Template, Context, PollRequest, Clock, find_name, find_target, target_name, context_for,
  rendered_as, apply_outcome, decide_poll_outcome, poll_handler,
}
use booty_call.Http.Poll.Decides.{find_name-some}
use booty_call.Http.Token.{check_api_token}
use booty_call.Http.Api.{success, OverrideRequest, only_target, assign, api_override_handler}

-- A MAC in normal form has the target of an override under every spelling of it, while there is room.
target_name-assign :
    (k other target : List ℕ) (clock : Clock) (store : StateStore)
    → normalize_mac k ≡ k
    → normalize_mac other ≡ k
    → full_for k store ≡ false
    → target_name (get_host other (assign k target clock store)) ≡ some target
unfolding get_host log_event merge
target_name-assign k other target clock store normal same room =
    ap target_name
      (get_host-update_normal k other polling (only_target target) clock.updated_at store normal)
    ∙ rw (same, eq_bytes_self k, room) refl

module _ (digest : List ℕ → List ℕ) (config : Config) (headers : HeaderMap)
    (payload : OverrideRequest) (clock : Clock) (store : StateStore) where
  -- What a successful override has done.
  pub override-assigns :
      (api_override_handler digest config headers payload clock store).result ≡ success tt
      → (is_valid_mac (normalize_mac payload.mac) ≡ true)
        × (check_api_token digest config headers ≡ true)
        × ((h : HostConfig) × (find_name payload.target config.hosts ≡ some h))
        × ((api_override_handler digest config headers payload clock store).store
            ≡ assign (normalize_mac payload.mac) payload.target clock store)
  unfolding api_override_handler
  override-assigns e = elim (Bool-cases (check_api_token digest config headers)) [
    | inr c ↦ absurd (ground (arith, c, e))
    | inl c ↦ elim (Bool-cases (is_valid_mac (normalize_mac payload.mac))) [
      | inr v ↦ absurd (ground (arith, c, v, e))
      | inl v ↦ elim (Option-cases (find_name payload.target config.hosts)) [
        | inl f ↦ absurd (ground (arith, c, v, f, e))
        | inr (h, f) ↦ (v, c, (h, f), rw (c, v, f) refl)
      ]
    ]
  ]

-- The poll of a host that was assigned a configured target and is not configured itself.
decide_poll_outcome-assigned :
    (t : Template) (config : Config) (store : StateStore) (mac_str host_hdr target : List ℕ)
    (h : HostConfig)
    → find_host mac_str config ≡ none
    → target_name (get_host mac_str store) ≡ some target
    → find_name target config.hosts ≡ some h
    → decide_poll_outcome t config store mac_str host_hdr
      ≡ rendered_as h (t (context_for h host_hdr (some mac_str)))
unfolding decide_poll_outcome
decide_poll_outcome-assigned t config store mac_str host_hdr target h e n f =
    let found : find_target (target_name (get_host mac_str store)) config.hosts ≡ some h = rw n f in
    rw (e, found, decide_poll_outcome) refl

module _ (digest : List ℕ → List ℕ) (t : Template) (config : Config) (headers : HeaderMap)
    (payload : OverrideRequest) (clock : Clock) (store : StateStore) (r : PollRequest)
    (later : Clock) where
  abbrev assigned_store : StateStore
  assigned_store = (api_override_handler digest config headers payload clock store).store

  -- Once an override was accepted for a MAC that no host is configured for, in a store with room for it, the
  -- next poll of that MAC, in whatever spelling, is answered with the script that the template
  -- gives for a configured host of the assigned name, if the template renders.
  pub override_then_poll :
      (api_override_handler digest config headers payload clock store).result ≡ success tt
      → full_for (normalize_mac payload.mac) store ≡ false
      → normalize_mac r.mac ≡ normalize_mac payload.mac
      → find_host (normalize_mac r.mac) config ≡ none
      → ((c : Context) → (script : List ℕ) × (t c ≡ some script))
      → (h : HostConfig) × (script : List ℕ) × Listed h config.hosts
        × (h.name ≡ payload.target)
        × (t (context_for h (host_header r.headers) (some (normalize_mac r.mac))) ≡ some script)
        × ((poll_handler (some t) config r later assigned_store).response
            ≡ script_response ok script)
  unfolding poll_handler apply_outcome
  override_then_poll accepted room same fresh renders =
      let (v, c, (h, f), done) =
        override-assigns digest config headers payload clock store accepted in
      let k = normalize_mac r.mac in
      let kv : is_valid_mac k ≡ true = rw same v in
      let kk = normalize_mac-valid k kv in
      let assigned : target_name (get_host k assigned_store) ≡ some payload.target = rw done (
        target_name-assign (normalize_mac payload.mac) k payload.target clock store
          (normalize_mac-valid _ v) (kk ∙ same) room) in
      let (script, s) = renders (context_for h (host_header r.headers) (some k)) in
      let (l, n) = find_name-some payload.target config.hosts h f in
      let decided =
        decide_poll_outcome-assigned t config assigned_store k (host_header r.headers)
          payload.target h fresh assigned f in
      (h, script, l, n, s, rw (kv, decided, s) refl)
