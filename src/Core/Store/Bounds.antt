-- ===== src/Core/Store/Bounds.antt =====
-- What every operation of the store keeps.
use booty_call.Prelude.{ℕ, ◌≤◌, Option, List, [], ◌∷◌, arith, length, Bool-cases, inl, inr}
use booty_call.Core.HostMap.{
  Distinct, length-upsert, upsert-Distinct, length-retain-le, retain-Distinct,
}
use booty_call.Core.Mac.{normalize_mac}
use booty_call.Core.Store.{
  StateStore, HostStatus, Details, LogEvent, new, max_tracked_hosts, max_logs, merge, not_stale,
  update_host_status, log_event, evict, full_for, get_host, clean_stale_hosts,
}

pub record IsValid (s : StateStore) : Type 0 where
  pub hosts_bounded : length s.hosts ≤ max_tracked_hosts
  pub logs_bounded : length s.logs ≤ max_logs
  pub distinct : Distinct s.hosts

pub IsValid-new : IsValid new
IsValid-new = record { hosts_bounded = omega arith; logs_bounded = omega arith; distinct = tt }

pub length-evict-le : (es : List LogEvent) → length (evict es) ≤ max_logs
unfolding evict
length-evict-le [] = omega arith
length-evict-le (e ∷ es) = ground (arith, length-evict-le es)

update_keeps :
    (mac : List ℕ) (status : HostStatus) (d : Details) (now : ℕ) (s : StateStore)
    → IsValid s
    → IsValid (update_host_status mac status d now s)
unfolding update_host_status get_host
update_keeps mac status d now s v = elim (Bool-cases (full_for mac s)) [
  | inl full ↦ rw full v
  | inr room ↦ rw room (record {
    hosts_bounded = ground (
      arith,
      room,
      length-upsert (normalize_mac mac) (merge (normalize_mac mac) status d now) s.hosts,
    );
    logs_bounded = v.logs_bounded;
    distinct =
        upsert-Distinct (normalize_mac mac) (merge (normalize_mac mac) status d now) s.hosts
          v.distinct;
  })
]

-- The requests that the servers make of the store.
pub data Op : Type 0 where
  update : List ℕ → HostStatus → Details → Op
  log : List ℕ → Option (List ℕ) → List ℕ → Op
  clean : ℕ → Op

unfoldable pub apply : Op → ℕ → StateStore → StateStore
apply (update mac status d) now s = update_host_status mac status d now s
apply (log level mac message) now s = log_event level mac message now s
apply (clean max_idle_secs) now s = clean_stale_hosts max_idle_secs now s

-- Requests in order, each with what the clock reads.
unfoldable pub apply_all : List (Op × ℕ) → StateStore → StateStore
apply_all [] s = s
apply_all ((op, now) ∷ ops) s = apply_all ops (apply op now s)

pub apply-IsValid : (op : Op) (now : ℕ) (s : StateStore) → IsValid s → IsValid (apply op now s)
unfolding apply
apply-IsValid (update mac status d) now s v = update_keeps mac status d now s v
apply-IsValid (log level mac message) now s v =
    unfold log_event in
    record {
      hosts_bounded = v.hosts_bounded;
      logs_bounded = length-evict-le _;
      distinct = v.distinct;
    }
apply-IsValid (clean max_idle_secs) now s v =
    unfold clean_stale_hosts in
    record {
      hosts_bounded =
          omega (arith, v.hosts_bounded, length-retain-le (not_stale now max_idle_secs) s.hosts);
      logs_bounded = v.logs_bounded;
      distinct = retain-Distinct (not_stale now max_idle_secs) s.hosts v.distinct;
    }

-- Whatever is asked of a valid store, in whatever order and at whatever times, at most 4096 hosts are
-- tracked, under keys that are all different, and at most 200 log events are kept.
pub apply_all-IsValid :
    (ops : List (Op × ℕ)) (s : StateStore) → IsValid s → IsValid (apply_all ops s)
unfolding apply_all
apply_all-IsValid [] s v = v
apply_all-IsValid ((op, now) ∷ ops) s v =
    apply_all-IsValid ops (apply op now s) (apply-IsValid op now s v)
