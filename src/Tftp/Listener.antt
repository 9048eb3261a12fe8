-- ===== src/Tftp/Listener.antt =====
-- crates/bootycall-tftp/src/server.rs: `run_tftp_server_with_limit`, from a received packet to the spawned
-- transfer, with the semaphore that bounds the transfers.
pub mod Slots
pub mod Answers
pub mod Known
use booty_call.Prelude.{
  ℕ, zero, suc, ◌+◌, ◌-◌, Bool, true, false, not, ◌&&◌, ◌||◌, Option, none, some, List, [], ◌∷◌,
  ◌++◌, ◌==◌, if◌then◌else◌, take,
}
use booty_call.Prelude.Bytes.{codes, eq_bytes}
use booty_call.Core.Config.{Config, HostConfig, find_host}
use booty_call.Core.Net.{SocketAddr, ip_to_string}
use booty_call.Core.Path.{Components, FileSystem, safe_join}
use booty_call.Core.Store.{
  StateStore, HostState, HostStatus, booting, no_details, list_hosts, update_host_status, log_event,
}
use booty_call.Tftp.Wire.{Bytes, op_rrq, op_wrq, opcode, make_error_packet}
use booty_call.Tftp.Request.{RrqRequest, parse_rrq}

-- What one round of the loop sees: the packet, the configuration of that moment, whether a socket for the
-- transfer can be bound and connected, and what the clock says to the store.
pub record Arrival : Type 0 where
  pub bytes : Bytes
  pub src_addr : SocketAddr
  pub config : Config
  pub bound : Bool
  pub connected : Bool
  pub seen_at : ℕ
  pub logged_at : ℕ

-- The arguments of a spawned `handle_tftp_transfer`.
pub record Transfer : Type 0 where
  pub src_addr : SocketAddr
  pub file_path : Components
  pub request : RrqRequest
  pub mac : Option Bytes

pub data Action : Type 0 where
  dropped : Action
  replied : Bytes → Action
  started : Transfer → Action

-- The store, the free permits of the semaphore and the transfers that hold one.
pub record Server : Type 0 where
  pub store : StateStore
  pub slots : ℕ
  pub running : List Transfer

pub record Heard : Type 0 where
  pub server : Server
  pub action : Action

abbrev pub has_ip : Bytes → Option Bytes → Bool
has_ip ip none = false
has_ip ip (some client_ip) = eq_bytes client_ip ip

-- `state_hosts.iter().find(|h| h.client_ip.as_deref() == Some(&client_ip_str))`
unfoldable pub find_client : Bytes → List HostState → Option HostState
find_client ip [] = none
find_client ip (h ∷ hs) = if has_ip ip h.client_ip then some h else find_client ip hs

abbrev pub is_default_request : Bytes → Config → Bool
is_default_request filename c =
    eq_bytes filename c.server.default_bootloader_amd64
    || eq_bytes filename c.server.default_bootloader_arm64

abbrev redirect : Bytes → Config → Option HostConfig → Bytes
redirect filename c none = filename
redirect filename c (some h) = elim h.bootloader [
  | none ↦ filename
  | some custom_bootloader ↦ if is_default_request filename c then custom_bootloader else filename
]

-- The file to serve to a host.
unfoldable pub final_filename : Bytes → Config → Option HostState → Bytes
final_filename filename c none = filename
final_filename filename c (some hs) = redirect filename c (find_host hs.mac c)

abbrev pub mac_of : Option HostState → Option Bytes
mac_of none = none
mac_of (some hs) = some hs.mac

abbrev starting : Bytes → Bytes → Bytes
starting filename shown =
    codes "Starting TFTP bootloader transfer: "
    ++ (filename ++ (codes " (mapped to " ++ (shown ++ codes ")")))

unfoldable pub mark_booting : Option Bytes → Bytes → ℕ → ℕ → StateStore → StateStore
mark_booting none message seen_at logged_at s = s
mark_booting (some mac) message seen_at logged_at s =
    log_event (codes "INFO") (some mac) message logged_at
      (update_host_status mac booting no_details seen_at s)

abbrev pub wrq_error : Bytes
wrq_error = make_error_packet 4 (codes "Illegal TFTP operation (WRQ not supported)")

abbrev pub illegal_error : Bytes
illegal_error = make_error_packet 4 (codes "Illegal TFTP operation")

abbrev pub traversal_error : Bytes
traversal_error = make_error_packet 2 (codes "Access violation (path traversal)")

abbrev pub busy_error : Bytes
busy_error = make_error_packet 0 (codes "Server busy")

abbrev pub quiet : Server → Heard
quiet s = record { server = s; action = dropped }

-- The file system, the path that a configured directory stands for, and how a path is shown.
pub record Files : Type 0 where
  pub system : FileSystem
  pub path_of : Bytes → Components
  pub display : Components → Bytes

module _ (files : Files) where
  -- A permit is taken for the transfer, or the client is told that there is none.
  unfoldable pub spawn : Transfer → Server → Heard
  spawn t s = elim s.slots [
    | zero ↦ record { server = s; action = replied busy_error }
    | suc left ↦ record {
      server = record s { slots = left; running = t ∷ s.running };
      action = started t;
    }
  ]

  -- The path has been resolved.
  unfoldable pub accept : Arrival → RrqRequest → Option Bytes → Components → Server → Heard
  accept a request mac file_path s =
      let shown = starting request.filename (files.display file_path) in
      let marked = record s { store = mark_booting mac shown a.seen_at a.logged_at s.store } in
      if a.bound && a.connected
      then spawn
          (record { src_addr = a.src_addr; file_path = file_path; request = request; mac = mac })
          marked
      else quiet marked

  -- An error packet reaches the client only from a socket that could be bound and connected.
  abbrev pub refuse : Arrival → Server → Heard
  refuse a s =
      if a.bound && a.connected
      then record { server = s; action = replied traversal_error }
      else quiet s

  abbrev pub client_of : Arrival → Server → Option HostState
  client_of a s = find_client (ip_to_string a.src_addr) (list_hosts s.store)

  abbrev pub resolved : Arrival → RrqRequest → Server → Option Components
  resolved a request s =
      safe_join files.system (files.path_of a.config.server.tftp_root)
        (final_filename request.filename a.config (client_of a s))

  unfoldable pub serve_request : Arrival → RrqRequest → Server → Heard
  serve_request a request s = elim (resolved a request s) [
    | none ↦ refuse a s
    | some file_path ↦ accept a request (mac_of (client_of a s)) file_path s
  ]

  abbrev pub on_rrq : Arrival → Server → Heard
  on_rrq a s = elim (parse_rrq (take 1500 a.bytes)) [
    | none ↦ quiet s
    | some request ↦ serve_request a request s
  ]

  -- One round of the loop. The receive buffer holds 1500 bytes; a packet of fewer than 2 has no opcode.
  unfoldable pub listen : Arrival → Server → Heard
  listen a s = elim (opcode (take 1500 a.bytes)) [
    | none ↦ on_rrq a s
    | some op ↦ if op == op_rrq then on_rrq a s else record {
      server = s;
      action = replied (if op == op_wrq then wrq_error else illegal_error);
    }
  ]
