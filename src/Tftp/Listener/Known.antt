-- ===== src/Tftp/Listener/Known.antt =====
-- crates/bootycall-tftp/src/server.rs: the TFTP server and the host that the DHCP server recorded.
use booty_call.Prelude.{
  ℕ, ◌≡◌, refl, ap, ◌∙◌, inl, inr, true, false, ◌&&◌, Option, none, some, List, [], ◌∷◌, arith,
  Bool-cases,
}
use booty_call.Prelude.Bytes.{eq_bytes, eq_bytes_iff, eq_bytes_self}
use booty_call.Core.HostMap.{HostMap, lookup}
use booty_call.Core.Mac.{normalize_mac}
use booty_call.Core.Net.{to_string}
use booty_call.Core.Path.{Components}
use booty_call.Core.Store.{
  StateStore, HostState, polling, booting, no_details, full_for, merge, get_host, list_hosts,
  values, log_event,
}
use booty_call.Core.Store.Updates.{get_host-update_host_status}
use booty_call.Dhcp.Pxe.{Message}
use booty_call.Dhcp.Handler.{Env, Packet, client_ip_of, details_for, record_client}
use booty_call.Dhcp.Handler.Served.{get_host-record_client}
use booty_call.Tftp.Wire.{Bytes}
use booty_call.Tftp.Request.{RrqRequest}
use booty_call.Tftp.Listener.{
  Arrival, Server, replied, Files, has_ip, find_client, accept, spawn, mark_booting, busy_error,
}

-- A host of that address is found, though perhaps another than one looks for.
abbrev pub FindsIp : Bytes → List HostState → Type 0
FindsIp ip hs = (g : HostState) × (find_client ip hs ≡ some g) × (g.client_ip ≡ some ip)

find_client_here :
    (ip : Bytes) (h : HostState) (hs : List HostState) → h.client_ip ≡ some ip → FindsIp ip (h ∷ hs)
unfolding find_client
find_client_here ip h hs e = (h, rw (e, eq_bytes_self ip) refl, e)

has_ip_sound : (ip : Bytes) (o : Option Bytes) → has_ip ip o ≡ true → o ≡ some ip
has_ip_sound ip none h = cc
has_ip_sound ip (some j) h = ap some ((eq_bytes_iff j ip).0 h)

find_client_later :
    (ip : Bytes) (h : HostState) (hs : List HostState) → FindsIp ip hs → FindsIp ip (h ∷ hs)
unfolding find_client
find_client_later ip h hs (g, e, same) = elim (Bool-cases (has_ip ip h.client_ip)) [
  | inl here ↦ (h, rw here refl, has_ip_sound ip h.client_ip here)
  | inr there ↦ (g, rw there e, same)
]

find_client-values :
    (ip k : Bytes) (m : HostMap HostState) (h : HostState)
    → lookup k m ≡ some h
    → h.client_ip ≡ some ip
    → FindsIp ip (values m)
unfolding lookup
find_client-values ip k [] h e q = cc
find_client-values ip k ((j, v) ∷ m) h e q = elim (Bool-cases (eq_bytes j k)) [
  | inl same ↦
      let here : v ≡ h = ground (arith, same, e) in
      find_client_here ip v (values m) (ap (λ x. x.client_ip) here ∙ q)
  | inr other ↦
      find_client_later ip v (values m) (find_client-values ip k m h (ground (arith, other, e)) q)
]

-- A PXE client that the DHCP server has served is known to the TFTP server by its address, unless a full
-- store did not know its MAC: some host with that address is found.
pub find_client-record_client :
    (env : Env) (p : Packet) (m : Message) (mac : List ℕ) (s : StateStore)
    → full_for mac s ≡ false
    → FindsIp (to_string (client_ip_of m p.src_addr)) (list_hosts (record_client env p m mac s))
unfolding list_hosts get_host merge
find_client-record_client env p m mac s room =
    find_client-values _ (normalize_mac mac) (record_client env p m mac s).hosts
      (merge (normalize_mac mac) polling (details_for env p m mac) p.seen_at (get_host mac s))
      recorded refl
  where
    recorded :
        get_host mac (record_client env p m mac s)
        ≡ some
            (merge (normalize_mac mac) polling (details_for env p m mac) p.seen_at (get_host mac s))
    recorded =
        get_host-record_client env p m mac mac s ∙ rw (eq_bytes_self (normalize_mac mac), room) refl

marked :
    (mac message : Bytes) (seen_at logged_at : ℕ) (s : StateStore)
    → full_for mac s ≡ false
    → get_host mac (mark_booting (some mac) message seen_at logged_at s)
      ≡ some (merge (normalize_mac mac) booting no_details seen_at (get_host mac s))
unfolding mark_booting log_event get_host
marked mac message seen_at logged_at s room =
    get_host-update_host_status mac mac booting no_details seen_at s
    ∙ rw (eq_bytes_self (normalize_mac mac), room) refl

-- A known host that is refused for lack of a permit stays recorded as booting: the mark comes before the
-- permit is asked for, and the refusal does not take it back.
pub accept_busy :
    (files : Files) (a : Arrival) (request : RrqRequest) (mac : Bytes) (file_path : Components)
    (s : Server)
    → s.slots ≡ 0
    → (a.bound && a.connected) ≡ true
    → full_for mac s.store ≡ false
    → ((accept files a request (some mac) file_path s).action ≡ replied busy_error)
      × ((h : HostState) × (get_host mac
              (accept files a request (some mac) file_path s).server.store
            ≡ some h)
          × (h.status ≡ booting))
unfolding accept spawn merge
accept_busy files a request mac file_path s busy up room =
    rw (up, busy) (refl, (_, marked mac _ a.seen_at a.logged_at s.store room, refl))
