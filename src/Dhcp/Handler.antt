-- ===== src/Dhcp/Handler.antt =====
-- crates/bootycall-dhcp/src/server.rs: `run_dhcp_server`, from a received packet to the reply.
pub mod Expected
pub mod Served
pub mod Answers
pub mod Bootfile
use booty_call.Prelude.{
  ℕ, Bool, true, false, Option, none, some, List, [], ◌∷◌, ◌++◌, ◌==◌, if◌then◌else◌, take,
}
use booty_call.Prelude.Bytes.{codes}
use booty_call.Core.Mac.{HwAddr, format_mac}
use booty_call.Core.Config.{ServerConfig, HostConfig, Config, find_host}
use booty_call.Core.Net.{Ipv4Addr, unspecified, is_unspecified, to_string, SocketAddr, v4, v6, port}
use booty_call.Core.Store.{StateStore, HostStatus, polling, Details, update_host_status, log_event}
use booty_call.Dhcp.Pxe.{
  MessageType, discover, offer, request, inform, ack, Flags, Message, pxe, is_pxe_client,
}
use booty_call.Dhcp.Route.{choose_reply_dest, resolve_local_ip}

abbrev pub arch_bios_x86 : ℕ
arch_bios_x86 = 0

abbrev pub arch_arm64 : ℕ
arch_arm64 = 11

unfoldable pub select_default_bootloader : ServerConfig → Option ℕ → List ℕ
select_default_bootloader server none = server.default_bootloader_amd64
select_default_bootloader server (some a) =
    if a == arch_arm64
    then server.default_bootloader_arm64
    else if a == arch_bios_x86
    then server.default_bootloader_bios
    else server.default_bootloader_amd64

-- The first six bytes of `chaddr`, if it has as many.
abbrev pub hw_addr : List ℕ → Option HwAddr
hw_addr (b0 ∷ b1 ∷ b2 ∷ b3 ∷ b4 ∷ b5 ∷ rest) =
    some (record { b0 = b0; b1 = b1; b2 = b2; b3 = b3; b4 = b4; b5 = b5 })
hw_addr short = none

-- The type of the reply; other messages are ignored.
abbrev pub response_type : Option MessageType → Option MessageType
response_type (some discover) = some offer
response_type (some request) = some ack
response_type (some inform) = some ack
response_type other = none

-- `ciaddr`, else the source address.
abbrev pub client_ip_of : Message → SocketAddr → Ipv4Addr
client_ip_of m (v4 ip p) = if is_unspecified m.ciaddr then ip else m.ciaddr
client_ip_of m (v6 ip p) = if is_unspecified m.ciaddr then unspecified else m.ciaddr

-- `host_config.and_then(|h| h.bootloader.clone())`
abbrev pub override_of : Option HostConfig → Option (List ℕ)
override_of none = none
override_of (some h) = h.bootloader

abbrev pub or_default : Option (List ℕ) → List ℕ → List ℕ
or_default none default = default
or_default (some path) default = path

abbrev pub bootloader_for : Config → List ℕ → Option ℕ → List ℕ
bootloader_for c mac arch =
    or_default (override_of (find_host mac c)) (select_default_bootloader c.server arch)

abbrev pub name_of : Option HostConfig → Option (List ℕ)
name_of none = none
name_of (some h) = some h.name

-- The reply, with the options that are inserted.
pub record Reply : Type 0 where
  pub xid : ℕ
  pub ciaddr : Ipv4Addr
  pub yiaddr : Ipv4Addr
  pub siaddr : Ipv4Addr
  pub giaddr : Ipv4Addr
  pub chaddr : List ℕ
  pub flags : Flags
  pub message_type : MessageType
  pub server_identifier : Ipv4Addr
  pub class_identifier : List ℕ
  pub tftp_server_name : List ℕ
  pub bootfile_name : List ℕ
  pub client_identifier : Option (List ℕ)

unfoldable pub make_reply : Message → MessageType → Ipv4Addr → List ℕ → Reply
make_reply m kind our_ip bootloader = record {
  xid = m.xid;
  ciaddr = m.ciaddr;
  yiaddr = unspecified;
  siaddr = our_ip;
  giaddr = m.giaddr;
  chaddr = m.chaddr;
  flags = m.flags;
  message_type = kind;
  server_identifier = our_ip;
  class_identifier = pxe;
  tftp_server_name = to_string our_ip;
  bootfile_name = bootloader;
  client_identifier = m.client_identifier;
}

-- A datagram that is sent.
pub record Datagram : Type 0 where
  pub bytes : List ℕ
  pub dest : SocketAddr

pub record Handled : Type 0 where
  pub store : StateStore
  pub sent : Option Datagram

-- A received packet, with the configuration of that moment and what the clock says to the store.
pub record Packet : Type 0 where
  pub bytes : List ℕ
  pub src_addr : SocketAddr
  pub config : Config
  pub seen_at : ℕ
  pub logged_at : ℕ

abbrev pub ignored : StateStore → Handled
ignored s = record { store = s; sent = none }

-- `dhcproto` decodes, encodes and names the architectures `X64` and `BC`; the operating system gives the
-- routes and the address that the socket is bound to.
pub record Env : Type 0 where
  pub decode : List ℕ → Option Message
  pub encode : Reply → Option (List ℕ)
  pub arch_x64 : ℕ
  pub arch_bc : ℕ
  pub route : Ipv4Addr → Option SocketAddr
  pub local_addr : Option SocketAddr

module _ (env : Env) where
  abbrev pub arch_str : Option ℕ → List ℕ
  arch_str none = codes "unknown"
  arch_str (some a) =
      if a == env.arch_x64
      then codes "x86_64"
      else if a == env.arch_bc
      then codes "BC (x86_64)"
      else if a == arch_arm64
      then codes "aarch64"
      else if a == arch_bios_x86
      then codes "x86 (BIOS)"
      else codes "other"

  abbrev local_port : ℕ
  local_port = elim env.local_addr [ none ↦ 0 | some a ↦ port a ]

  abbrev pub dest_for : Message → SocketAddr → SocketAddr
  dest_for m src_addr = choose_reply_dest local_port src_addr m.giaddr m.ciaddr m.flags.broadcast

  abbrev pub our_ip_for : Message → Ipv4Addr
  our_ip_for m = resolve_local_ip env.route m.ciaddr m.giaddr env.local_addr

  -- A reply that cannot be encoded is dropped.
  abbrev pub send_reply : Option (List ℕ) → SocketAddr → Option Datagram
  send_reply none dest = none
  send_reply (some bytes) dest = some (record { bytes = bytes; dest = dest })

  abbrev pub details_for : Packet → Message → List ℕ → Details
  details_for p m mac = record {
    name = name_of (find_host mac p.config);
    target = none;
    ip = some (to_string (client_ip_of m p.src_addr));
    arch = some (arch_str m.architecture);
  }

  abbrev serving : List ℕ → Ipv4Addr → List ℕ → List ℕ
  serving bootloader our_ip arch =
      codes "Serving PXE redirection (Bootloader: "
      ++ (bootloader ++ (codes ", Next-Server: " ++ (to_string our_ip ++ (codes ") for " ++ arch))))

  -- What serving a client leaves in the store.
  unfoldable pub record_client : Packet → Message → List ℕ → StateStore → StateStore
  record_client p m mac s =
      log_event (codes "INFO") (some mac)
        (serving (bootloader_for p.config mac m.architecture) (our_ip_for m)
          (arch_str m.architecture))
        p.logged_at (update_host_status mac polling (details_for p m mac) p.seen_at s)

  -- The reply to a client.
  unfoldable pub reply_to : Packet → Message → MessageType → List ℕ → Reply
  reply_to p m kind mac =
      make_reply m kind (our_ip_for m) (bootloader_for p.config mac m.architecture)

  abbrev pub serve : Packet → Message → MessageType → List ℕ → StateStore → Handled
  serve p m kind mac s = record {
    store = record_client p m mac s;
    sent = send_reply (env.encode (reply_to p m kind mac)) (dest_for m p.src_addr);
  }

  unfoldable pub handle_message : Packet → Message → StateStore → Handled
  handle_message p m s = elim (hw_addr m.chaddr) [
    | none ↦ ignored s
    | some addr ↦
        if is_pxe_client m
        then elim (response_type m.msg_type) [
          | none ↦ ignored s
          | some kind ↦ serve p m kind (format_mac addr) s
        ]
        else ignored s
  ]

  -- The receive buffer holds 1500 bytes.
  unfoldable pub handle_packet : Packet → StateStore → Handled
  handle_packet p s = elim (env.decode (take 1500 p.bytes)) [
    | none ↦ ignored s
    | some m ↦ handle_message p m s
  ]

  -- The loop over the packets received, with the datagrams sent.
  unfoldable pub run_dhcp_server : List Packet → StateStore → StateStore × List Datagram
  run_dhcp_server [] s = (s, [])
  run_dhcp_server (p ∷ ps) s =
      let h = handle_packet p s in
      let rest = run_dhcp_server ps h.store in
      (rest.0, (elim h.sent [ none ↦ rest.1 | some d ↦ d ∷ rest.1 ]))
