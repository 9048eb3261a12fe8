-- ===== src/Core/Store/Updates.antt =====
-- What a reader of the store sees after an update or a sweep.
use booty_call.Prelude.{
  ℕ, ◌+◌, ◌≤◌, ◌≡◌, true, none, some, List, arith, if◌then◌else◌, Bool-cases, inl, inr, ◌∙◌, false,
}
use mathlib.Core.Path.{subst}
use booty_call.Prelude.Bytes.{eq_bytes, eq_bytes_iff, eq_bytes_self}
use booty_call.Core.HostMap.{keep_if, lookup, lookup-upsert, lookup-retain, any_value_of_lookup}
use booty_call.Core.Mac.{normalize_mac}
use booty_call.Core.Store.{
  StateStore, HostStatus, Details, full_for, merge, not_stale, recent, update_host_status, get_host,
  has_recent_activity, clean_stale_hosts,
}
use booty_call.Core.Store.Bounds.{IsValid}

-- After an update, a reader finds the merged entry under every spelling of the updated MAC, unless the
-- store was full and did not know the MAC, and what it found before under any other.
pub get_host-update_host_status :
    (mac other : List ℕ) (status : HostStatus) (d : Details) (now : ℕ) (s : StateStore)
    → get_host other (update_host_status mac status d now s) ≡ (
        if eq_bytes (normalize_mac mac) (normalize_mac other)
        then (if full_for mac s
            then none
            else some (merge (normalize_mac mac) status d now (get_host mac s)))
        else get_host other s)
unfolding get_host update_host_status
get_host-update_host_status mac other status d now s =
    let k = normalize_mac mac in
    let j = normalize_mac other in
    elim (Bool-cases (full_for mac s)) [
      | inl full ↦ rw full (ground (arith, full, eq_bytes_iff k j))
      | inr room ↦ rw room (lookup-upsert k j (merge k status d now) s.hosts)
    ]

-- The same for a MAC in normal form.
pub get_host-update_normal :
    (k other : List ℕ) (status : HostStatus) (d : Details) (now : ℕ) (s : StateStore)
    → normalize_mac k ≡ k
    → get_host other (update_host_status k status d now s) ≡ (
        if eq_bytes k (normalize_mac other)
        then (if full_for k s then none else some (merge k status d now (get_host k s)))
        else get_host other s)
get_host-update_normal k other status d now s normal =
    subst
      (λ j. get_host other (update_host_status k status d now s) ≡ (
        if eq_bytes j (normalize_mac other)
        then (if full_for k s then none else some (merge j status d now (get_host k s)))
        else get_host other s))
      normal (get_host-update_host_status k other status d now s)

-- A sweep of a valid store removes exactly the hosts that are stale.
pub get_host-clean_stale_hosts :
    (max_idle_secs now : ℕ) (mac : List ℕ) (s : StateStore)
    → IsValid s
    → get_host mac (clean_stale_hosts max_idle_secs now s)
      ≡ keep_if (not_stale now max_idle_secs) (get_host mac s)
unfolding get_host clean_stale_hosts
get_host-clean_stale_hosts max_idle_secs now mac s v =
    lookup-retain (not_stale now max_idle_secs) (normalize_mac mac) s.hosts v.distinct

stored :
    (mac : List ℕ) (status : HostStatus) (d : Details) (now : ℕ) (s : StateStore)
    → full_for mac s ≡ false
    → lookup (normalize_mac mac) (update_host_status mac status d now s).hosts
      ≡ some (merge (normalize_mac mac) status d now (get_host mac s))
stored mac status d now s room =
    unfold get_host in
    get_host-update_host_status mac mac status d now s
    ∙ rw (eq_bytes_self (normalize_mac mac), room)

-- From the update of a host on, for `max_age`, the store reports recent activity, unless it had no room.
pub update-has_recent_activity :
    (mac : List ℕ) (status : HostStatus) (d : Details) (now later max_age : ℕ) (s : StateStore)
    → full_for mac s ≡ false
    → now ≤ later
    → later ≤ now + max_age
    → has_recent_activity later max_age (update_host_status mac status d now s) ≡ true
unfolding has_recent_activity merge
update-has_recent_activity mac status d now later max_age s room le within =
    any_value_of_lookup (recent later max_age) (normalize_mac mac) _
      (stored mac status d now s room) (ground arith)
