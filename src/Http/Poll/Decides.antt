-- ===== src/Http/Poll/Decides.antt =====
-- crates/bootycall-http/src/server.rs: what a decision of `/poll/{mac}` says.
use booty_call.Prelude.{
  ℕ, ◌≡◌, ◌≢◌, sym, ◌∙◌, false, true, All, inl, inr, refl, Option, none, some, List, [], ◌∷◌, arith,
  Bool-cases, Option-cases,
}
use booty_call.Prelude.Bytes.{eq_bytes, eq_bytes_iff}
use booty_call.Core.Config.{HostConfig, Config, find_mac, find_host}
use booty_call.Core.Mac.{normalize_mac}
use booty_call.Core.Config.Unique.{Listed}
use booty_call.Core.Store.{StateStore, get_host}
use booty_call.Http.Poll.{
  Template, PollOutcome, boot, render_failed, poll, context_for, rendered_as, find_name,
  target_name, find_target, decide_poll_outcome,
}

-- The name is found with a host that stands in the list and has it.
pub find_name-some :
    (target : List ℕ) (hosts : List HostConfig) (h : HostConfig)
    → find_name target hosts ≡ some h
    → Listed h hosts × (h.name ≡ target)
unfolding find_name
find_name-some target [] h e = cc
find_name-some target (g ∷ gs) h e = elim (Bool-cases (eq_bytes g.name target)) [
  | inl same ↦
      let found : g ≡ h = cc in (inl found, rw (← found) ((eq_bytes_iff g.name target).0 same))
  | inr other ↦
      let rest : find_name target gs ≡ some h = ground (arith, other, e) in
      let (l, n) = find_name-some target gs h rest in (inr l, n)
]

-- No host of the list has a name that is sought and not found.
find_name-none :
    (target : List ℕ) (hosts : List HostConfig)
    → find_name target hosts ≡ none
    → All (λ h. h.name ≢ target) hosts
unfolding find_name
find_name-none target [] e = tt
find_name-none target (g ∷ gs) e = elim (Bool-cases (eq_bytes g.name target)) [
  | inl same ↦ absurd (ground (arith, same, e))
  | inr other ↦
      let rest : find_name target gs ≡ none = ground (arith, other, e) in
      (
        λ q. (let f : false ≡ true = sym other ∙ (eq_bytes_iff g.name target).1 q in cc),
        find_name-none target gs rest,
      )
]

find_mac-some :
    (mac : List ℕ) (hosts : List HostConfig) (h : HostConfig)
    → find_mac mac hosts ≡ some h
    → Listed h hosts × (h.mac ≡ mac)
unfolding find_mac
find_mac-some mac [] h e = cc
find_mac-some mac (g ∷ gs) h e = elim (Bool-cases (eq_bytes g.mac mac)) [
  | inl same ↦ let found : g ≡ h = cc in (inl found, rw (← found) ((eq_bytes_iff g.mac mac).0 same))
  | inr other ↦
      let rest : find_mac mac gs ≡ some h = ground (arith, other, e) in
      let (l, n) = find_mac-some mac gs h rest in (inr l, n)
]

find_mac-none :
    (mac : List ℕ) (hosts : List HostConfig)
    → find_mac mac hosts ≡ none
    → All (λ h. h.mac ≢ mac) hosts
unfolding find_mac
find_mac-none mac [] e = tt
find_mac-none mac (g ∷ gs) e = elim (Bool-cases (eq_bytes g.mac mac)) [
  | inl same ↦ absurd (ground (arith, same, e))
  | inr other ↦
      let rest : find_mac mac gs ≡ none = ground (arith, other, e) in
      (
        λ q. (let f : false ≡ true = sym other ∙ (eq_bytes_iff g.mac mac).1 q in cc),
        find_mac-none mac gs rest,
      )
]

-- No host is configured for the MAC, in whatever spelling.
abbrev pub IsUnknown : Config → List ℕ → Type 0
IsUnknown config mac_str = All (λ h. h.mac ≢ normalize_mac mac_str) config.hosts

-- No host has the name that was assigned, if one was.
abbrev pub IsUnnamed : List HostConfig → Option (List ℕ) → Type 0
IsUnnamed hosts none = Unit
IsUnnamed hosts (some target) = All (λ h. h.name ≢ target) hosts

-- The host that a request is to boot: the one configured for its MAC, or the one whose name was assigned
-- to it, with the MAC as what it stands in for.
abbrev pub IsChosen : Config → StateStore → List ℕ → HostConfig → Option (List ℕ) → Type 0
IsChosen config store mac_str h none =
    (find_host mac_str config ≡ some h) × Listed h config.hosts × (h.mac ≡ normalize_mac mac_str)
IsChosen config store mac_str h (some m) =
    (m ≡ mac_str)
    × IsUnknown config mac_str
    × (target_name (get_host mac_str store) ≡ some h.name)
    × Listed h config.hosts

abbrev pub IsDecided : Template → Config → StateStore → List ℕ → List ℕ → PollOutcome → Type 0
IsDecided t config store mac_str host_hdr (boot script cache_mac) =
    (h : HostConfig) × (target_of : Option (List ℕ)) × IsChosen config store mac_str h target_of
    × (t (context_for h host_hdr target_of) ≡ some script)
    × (cache_mac ≡ h.mac)
IsDecided t config store mac_str host_hdr render_failed =
    (h : HostConfig) × (target_of : Option (List ℕ)) × IsChosen config store mac_str h target_of
    × (t (context_for h host_hdr target_of) ≡ none)
IsDecided t config store mac_str host_hdr poll =
    IsUnknown config mac_str × IsUnnamed config.hosts (target_name (get_host mac_str store))

module _ (t : Template) (config : Config) (store : StateStore) (mac_str host_hdr : List ℕ) where
  rendered-IsDecided :
      (h : HostConfig) (target_of : Option (List ℕ))
      → IsChosen config store mac_str h target_of
      → IsDecided t config store mac_str host_hdr
          (rendered_as h (t (context_for h host_hdr target_of)))
  rendered-IsDecided h target_of chosen =
      elim (Option-cases (t (context_for h host_hdr target_of))) [
        | inl e ↦ rw e (h, target_of, chosen, e)
        | inr (script, e) ↦ rw e (h, target_of, chosen, e, refl)
      ]

  find_target-some :
      (name : Option (List ℕ)) (h : HostConfig)
      → find_target name config.hosts ≡ some h
      → (name ≡ some h.name) × Listed h config.hosts
  find_target-some none h e = cc
  find_target-some (some n) h e =
      let (l, same) = find_name-some n config.hosts h e in (rw same refl, l)

  find_target-none :
      (name : Option (List ℕ)) → find_target name config.hosts ≡ none → IsUnnamed config.hosts name
  find_target-none none e = tt
  find_target-none (some n) e = find_name-none n config.hosts e

  by_find_host :
      (h : HostConfig) → find_host mac_str config ≡ some h → IsChosen config store mac_str h none
  unfolding find_host
  by_find_host h e =
      let (l, same) = find_mac-some (normalize_mac mac_str) config.hosts h e in (e, l, same)

  not_by_find_host : find_host mac_str config ≡ none → IsUnknown config mac_str
  unfolding find_host
  not_by_find_host e = find_mac-none (normalize_mac mac_str) config.hosts e

  -- A poll boots exactly the host that is configured for its MAC or, when none is, a configured host
  -- whose name was assigned to the MAC: the script is the template's for that host, and names its
  -- cache. It fails only when the template does. It goes on polling only when no host is configured
  -- for the MAC and none has the name that was assigned, if one was.
  pub decide_poll_outcome-IsDecided :
      IsDecided t config store mac_str host_hdr
        (decide_poll_outcome t config store mac_str host_hdr)
  unfolding decide_poll_outcome
  decide_poll_outcome-IsDecided = elim (Option-cases (find_host mac_str config)) [
    | inr (h, e) ↦ rw (e, IsDecided) (rendered-IsDecided h none (by_find_host h e))
    | inl e ↦
        elim (Option-cases (find_target (target_name (get_host mac_str store)) config.hosts)) [
          | inl f ↦ rw (e, f, IsDecided) (not_by_find_host e, find_target-none _ f)
          | inr (h, f) ↦
              let (named, l) = find_target-some _ h f in
              rw (e, f, IsDecided)
                (rendered-IsDecided h (some mac_str) (refl, not_by_find_host e, named, l))
        ]
  ]
