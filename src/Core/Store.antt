-- ===== src/Core/Store.antt =====
-- crates/bootycall-core/src/state.rs: the hosts seen and the last log events.
-- A time is a number of nanoseconds; every operation that reads the clock takes what it reads.
pub mod Bounds
pub mod Updates
pub mod Logs
use booty_call.Prelude.{
  ℕ, ◌+◌, ◌-◌, ◌*◌, ◌/◌, Bool, true, false, not, ◌&&◌, Option, none, some, List, [], ◌∷◌, ◌++◌, ltb,
  leb, if◌then◌else◌, length,
}
use booty_call.Core.Mac.{normalize_mac}
use booty_call.Core.HostMap.{HostMap, is_some, lookup, upsert, retain, any_value}

abbrev pub max_tracked_hosts : ℕ
max_tracked_hosts = 4096

abbrev pub max_logs : ℕ
max_logs = 200

pub data HostStatus : Type 0 where
  polling booting completed failed : HostStatus

pub record HostState : Type 0 where
  pub mac : List ℕ
  pub name : Option (List ℕ)
  pub status : HostStatus
  pub assigned_target : Option (List ℕ)
  pub last_seen : ℕ
  pub client_ip : Option (List ℕ)
  pub architecture : Option (List ℕ)

pub record LogEvent : Type 0 where
  pub timestamp : ℕ
  pub level : List ℕ
  pub mac : Option (List ℕ)
  pub message : List ℕ

pub record StateStore : Type 0 where
  pub hosts : HostMap HostState
  pub logs : List LogEvent

abbrev pub new : StateStore
new = record { hosts = []; logs = [] }

-- The four optional arguments of `update_host_status`.
pub record Details : Type 0 where
  pub name : Option (List ℕ)
  pub target : Option (List ℕ)
  pub ip : Option (List ℕ)
  pub arch : Option (List ℕ)

abbrev pub no_details : Details
no_details = record { name = none; target = none; ip = none; arch = none }

-- `if new.is_some() { old = new; }`
abbrev pub prefer {ℓ} : {A : Type ℓ} → Option A → Option A → Option A
prefer none old = old
prefer (some a) old = some a

-- The entry that `or_insert_with` makes.
abbrev fresh_entry : List ℕ → HostStatus → ℕ → HostState
fresh_entry mac status now = record {
  mac = mac;
  name = none;
  status = status;
  assigned_target = none;
  last_seen = now;
  client_ip = none;
  architecture = none;
}

abbrev or_fresh : List ℕ → HostStatus → ℕ → Option HostState → HostState
or_fresh mac status now none = fresh_entry mac status now
or_fresh mac status now (some old) = old

-- What the update leaves in the entry of `mac`.
unfoldable pub merge : List ℕ → HostStatus → Details → ℕ → Option HostState → HostState
merge mac status d now old =
    let e = or_fresh mac status now old in
    record e {
      status = status;
      last_seen = now;
      name = prefer d.name e.name;
      assigned_target = prefer d.target e.assigned_target;
      client_ip = prefer d.ip e.client_ip;
      architecture = prefer d.arch e.architecture;
    }

-- A new MAC at the ceiling is dropped.
unfoldable pub update_host_status : List ℕ → HostStatus → Details → ℕ → StateStore → StateStore
update_host_status mac status d now s =
    let normalized = normalize_mac mac in
    if not (is_some (lookup normalized s.hosts)) && leb max_tracked_hosts (length s.hosts)
    then s
    else record s { hosts = upsert normalized (merge normalized status d now) s.hosts }

unfoldable pub get_host : List ℕ → StateStore → Option HostState
get_host mac s = lookup (normalize_mac mac) s.hosts

-- The store has no room for a MAC that it does not know.
abbrev pub full_for : List ℕ → StateStore → Bool
full_for mac s = not (is_some (get_host mac s)) && leb max_tracked_hosts (length s.hosts)

abbrev pub values : HostMap HostState → List HostState
values [] = []
values ((k, h) ∷ m) = h ∷ values m

unfoldable pub list_hosts : StateStore → List HostState
list_hosts s = values s.hosts

-- `now.duration_since(last_seen)` fails where `last_seen` is later than `now`.
abbrev pub recent : ℕ → ℕ → HostState → Bool
recent now max_age h = if leb h.last_seen now then leb (now - h.last_seen) max_age else false

unfoldable pub has_recent_activity : ℕ → ℕ → StateStore → Bool
has_recent_activity now max_age s = any_value (recent now max_age) s.hosts

-- `while logs.len() > MAX_LOGS { logs.pop_front(); }`
unfoldable pub evict : List LogEvent → List LogEvent
evict [] = []
evict (e ∷ es) = if ltb max_logs (length (e ∷ es)) then evict es else e ∷ es

abbrev pub normalize_option : Option (List ℕ) → Option (List ℕ)
normalize_option none = none
normalize_option (some mac) = some (normalize_mac mac)

unfoldable pub log_event : List ℕ → Option (List ℕ) → List ℕ → ℕ → StateStore → StateStore
log_event level mac message now s = record s {
  logs = evict (
      s.logs
      ++ (record { timestamp = now; level = level; mac = normalize_option mac; message = message }
          ∷ []));
}

abbrev pub list_logs : StateStore → List LogEvent
list_logs s = s.logs

abbrev pub nanos : ℕ
nanos = 1_000_000_000

-- Not stale: seen less than `max_idle_secs` whole seconds ago, or later than `now`.
abbrev pub not_stale : ℕ → ℕ → HostState → Bool
not_stale now max_idle_secs h =
    if leb h.last_seen now then ltb ((now - h.last_seen) / nanos) max_idle_secs else true

unfoldable pub clean_stale_hosts : ℕ → ℕ → StateStore → StateStore
clean_stale_hosts max_idle_secs now s = record s {
  hosts = retain (not_stale now max_idle_secs) s.hosts;
}
