-- ===== src/Dhcp/Handler/Served.antt =====
-- crates/bootycall-dhcp/src/server.rs: what a client that is answered gets, and leaves in the store.
use booty_call.Prelude.{
  ℕ, ◌≡◌, ◌⊎◌, refl, inl, inr, Option, none, some, List, take, ◌==◌, Bool-cases, Option-cases,
  if◌then◌else◌, arith,
}
use booty_call.Prelude.Bytes.{codes, eq_bytes}
use booty_call.Core.Mac.{HwAddr, format_mac, normalize_mac}
use booty_call.Core.Config.{ServerConfig, HostConfig, find_host}
use booty_call.Core.Net.{Ipv4Addr, unspecified, is_unspecified, to_string, SocketAddr, v4, v6}
use booty_call.Core.Store.{StateStore, Details, polling, full_for, log_event, merge, get_host}
use booty_call.Core.Store.Updates.{get_host-update_host_status}
use booty_call.Dhcp.Pxe.{MessageType, Message}
use booty_call.Dhcp.Handler.{
  Env, Packet, Reply, Datagram, Handled, hw_addr, details_for, record_client, serve,
  select_default_bootloader, arch_arm64, arch_bios_x86, override_of, or_default, client_ip_of,
  name_of, arch_str, make_reply, reply_to, send_reply, our_ip_for, dest_for,
}
use booty_call.Dhcp.Handler.Expected.{
  IsPxe, Answers, IsForeign, IsDefault, IsBootfile, IsNameOf, IsClientIp,
}

module _ (env : Env) (p : Packet) where
  pub record IsReply (m : Message) (kind : MessageType) (mac : List ℕ) (reply : Reply)
      : Type 0 where
    pub same_xid : reply.xid ≡ m.xid
    pub same_chaddr : reply.chaddr ≡ m.chaddr
    pub same_flags : reply.flags ≡ m.flags
    pub named : reply.message_type ≡ kind
    pub no_lease : reply.yiaddr ≡ unspecified
    pub pxe_class : reply.class_identifier ≡ codes "PXEClient"
    pub next_server : reply.siaddr ≡ our_ip_for env m
    pub server_name : reply.tftp_server_name ≡ to_string reply.siaddr
    pub bootfile : IsBootfile p.config (find_host mac p.config) m.architecture reply.bootfile_name

  -- The reply is sent to its destination if it can be encoded.
  abbrev pub IsSent : Reply → SocketAddr → Option Datagram → Type 0
  IsSent reply dest none = env.encode reply ≡ none
  IsSent reply dest (some d) = (env.encode reply ≡ some d.bytes) × (d.dest ≡ dest)

  -- What is recorded of a client: its configured name, its address and its architecture, and no target.
  pub record IsDescribed (m : Message) (mac : List ℕ) (d : Details) : Type 0 where
    pub host_name : IsNameOf (find_host mac p.config) d.name
    pub no_target : d.target ≡ none
    pub address : (ip : Ipv4Addr) × (d.ip ≡ some (to_string ip)) × IsClientIp m p.src_addr ip
    pub architecture : d.arch ≡ some (arch_str env m.architecture)

  -- What every reader of the store finds: under every spelling of the client's MAC a host that polls, with the
  -- details that were recorded, unless a full store does not know the MAC; every other host is as it was.
  abbrev pub IsRecorded : Details → List ℕ → StateStore → StateStore → Type 0
  IsRecorded details mac before after =
      (other : List ℕ)
      → get_host other after ≡ (
          if eq_bytes (normalize_mac mac) (normalize_mac other)
          then (if full_for mac before
              then none
              else some (merge (normalize_mac mac) polling details p.seen_at (get_host mac before)))
          else get_host other before)

  -- A client that was answered.
  pub record IsServed (before : StateStore) (m : Message) (addr : HwAddr) (reply : Reply)
      (after : Handled) : Type 0 where
    pub decoded : env.decode (take 1500 p.bytes) ≡ some m
    pub hardware : hw_addr m.chaddr ≡ some addr
    pub vendor : IsPxe m
    pub typed : Answers m.msg_type reply.message_type
    pub replied : IsReply m reply.message_type (format_mac addr) reply
    pub sent : IsSent reply (dest_for env m p.src_addr) after.sent
    pub details : Details
    pub described : IsDescribed m (format_mac addr) details
    pub recorded : IsRecorded details (format_mac addr) before after.store

  -- A packet that nothing is done about: it does not decode, or its message gets no answer.
  abbrev pub IsIgnorable : Type 0
  IsIgnorable =
      (env.decode (take 1500 p.bytes) ≡ none)
      ⊎ ((m : Message) × (env.decode (take 1500 p.bytes) ≡ some m) × IsForeign m)

  select-IsDefault :
      (server : ServerConfig) (arch : Option ℕ)
      → IsDefault server arch (select_default_bootloader server arch)
  unfolding select_default_bootloader
  select-IsDefault server none = inr (inr (λ e. cc, λ e. cc, refl))
  select-IsDefault server (some a) = elim (Bool-cases (a == arch_arm64)) [
    | inl arm ↦ rw arm (inl (ground arith, refl))
    | inr f ↦ elim (Bool-cases (a == arch_bios_x86)) [
      | inl bios ↦ rw (f, bios) (inr (inl (ground arith, refl)))
      | inr g ↦ rw (f, g) (inr (inr (λ e. ground (arith, e), λ e. ground (arith, e), refl)))
    ]
  ]

  bootloader-IsBootfile :
      (o : Option HostConfig) (arch : Option ℕ)
      → IsBootfile p.config o arch
          (or_default (override_of o) (select_default_bootloader p.config.server arch))
  bootloader-IsBootfile none arch = select-IsDefault p.config.server arch
  bootloader-IsBootfile (some h) arch = elim (Option-cases h.bootloader) [
    | inl e ↦ rw e (inr (refl, select-IsDefault p.config.server arch))
    | inr (path, e) ↦ rw e (inl refl)
  ]

  reply_to-IsReply :
      (m : Message) (kind : MessageType) (mac : List ℕ)
      → IsReply m kind mac (reply_to env p m kind mac)
  unfolding reply_to make_reply
  reply_to-IsReply m kind mac = record {
    same_xid = refl;
    same_chaddr = refl;
    same_flags = refl;
    named = refl;
    no_lease = refl;
    pxe_class = refl;
    next_server = refl;
    server_name = refl;
    bootfile = bootloader-IsBootfile (find_host mac p.config) m.architecture;
  }

  client_ip_of-IsClientIp :
      (m : Message) (src_addr : SocketAddr) → IsClientIp m src_addr (client_ip_of m src_addr)
  client_ip_of-IsClientIp m (v4 source p) = elim (Bool-cases (is_unspecified m.ciaddr)) [
    | inl e ↦ rw e (inr (refl, refl))
    | inr e ↦ rw e (inl (refl, refl))
  ]
  client_ip_of-IsClientIp m (v6 source p) = elim (Bool-cases (is_unspecified m.ciaddr)) [
    | inl e ↦ rw e (inr (refl, refl))
    | inr e ↦ rw e (inl (refl, refl))
  ]

  name_of-IsNameOf : (o : Option HostConfig) → IsNameOf o (name_of o)
  name_of-IsNameOf none = refl
  name_of-IsNameOf (some h) = refl

  details_for-IsDescribed :
      (m : Message) (mac : List ℕ) → IsDescribed m mac (details_for env p m mac)
  details_for-IsDescribed m mac = record {
    host_name = name_of-IsNameOf (find_host mac p.config);
    no_target = refl;
    address = (client_ip_of m p.src_addr, refl, client_ip_of-IsClientIp m p.src_addr);
    architecture = refl;
  }

  send_reply-IsSent :
      (reply : Reply) (dest : SocketAddr) (bytes : Option (List ℕ))
      → env.encode reply ≡ bytes
      → IsSent reply dest (send_reply env bytes dest)
  send_reply-IsSent reply dest none e = e
  send_reply-IsSent reply dest (some bytes) e = (e, refl)

  pub get_host-record_client :
      (m : Message) (mac other : List ℕ) (s : StateStore)
      → get_host other (record_client env p m mac s) ≡ (
          if eq_bytes (normalize_mac mac) (normalize_mac other)
          then (if full_for mac s
              then none
              else some (
                  merge
                    (normalize_mac mac)
                    polling
                    (details_for env p m mac)
                    p.seen_at
                    (get_host mac s)))
          else get_host other s)
  unfolding record_client get_host log_event
  get_host-record_client m mac other s =
      get_host-update_host_status mac other polling (details_for env p m mac) p.seen_at s

  pub serve-IsServed :
      (s : StateStore) (m : Message) (kind : MessageType) (addr : HwAddr)
      → env.decode (take 1500 p.bytes) ≡ some m
      → hw_addr m.chaddr ≡ some addr
      → IsPxe m
      → Answers m.msg_type kind
      → IsServed s m addr
          (reply_to env p m kind (format_mac addr))
          (serve env p m kind (format_mac addr) s)
  unfolding reply_to make_reply
  serve-IsServed s m kind addr decoded hardware vendor typed = record {
    decoded = decoded;
    hardware = hardware;
    vendor = vendor;
    typed = typed;
    replied = reply_to-IsReply m kind (format_mac addr);
    sent = send_reply-IsSent _ (dest_for env m p.src_addr) _ refl;
    details = details_for env p m (format_mac addr);
    described = details_for-IsDescribed m (format_mac addr);
    recorded = λ other. get_host-record_client m (format_mac addr) other s;
  }
