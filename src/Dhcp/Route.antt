-- ===== src/Dhcp/Route.antt =====
-- crates/bootycall-dhcp/src/server.rs: where a reply goes, and which address of ours it names.
use booty_call.Prelude.{
  ℕ, ◌≡◌, refl, inl, inr, Bool, false, not, ◌&&◌, Option, none, some, ◌==◌, if◌then◌else◌,
  Bool-cases, arith,
}
use booty_call.Core.Net.{
  Ipv4Addr, broadcast, is_unspecified, SocketAddr, v4, v6, port, ip_is_unspecified,
}

abbrev pub dhcp_server_port : ℕ
dhcp_server_port = 67

abbrev pub dhcp_client_port : ℕ
dhcp_client_port = 68

abbrev pub pxe_proxy_port : ℕ
pxe_proxy_port = 4011

abbrev pub client_port : SocketAddr → ℕ
client_port src_addr = if port src_addr == pxe_proxy_port then pxe_proxy_port else dhcp_client_port

unfoldable pub choose_reply_dest : ℕ → SocketAddr → Ipv4Addr → Ipv4Addr → Bool → SocketAddr
choose_reply_dest local_port src_addr giaddr ciaddr broadcast_flag =
    if broadcast_flag && is_unspecified giaddr
    then v4 broadcast (client_port src_addr)
    else if not (local_port == dhcp_server_port)
    then src_addr
    else if not (is_unspecified giaddr)
    then v4 giaddr dhcp_server_port
    else if not (is_unspecified ciaddr)
    then v4 ciaddr dhcp_client_port
    else if not (ip_is_unspecified src_addr)
    then src_addr
    else v4 broadcast (client_port src_addr)

-- `route` is the local address that the operating system gives a socket connected to a target.
module _ (route : Ipv4Addr → Option SocketAddr) where
  abbrev only_v4 : Option SocketAddr → Option Ipv4Addr
  only_v4 none = none
  only_v4 (some (v4 ip p)) = some ip
  only_v4 (some (v6 ip p)) = none

  abbrev pub get_local_ip_for_target : Ipv4Addr → Option Ipv4Addr
  get_local_ip_for_target target = only_v4 (route target)

  abbrev or_localhost : Option Ipv4Addr → Ipv4Addr
  or_localhost none = record { a = 127; b = 0; c = 0; d = 1 }
  or_localhost (some ip) = ip

  unfoldable pub get_default_local_ip : Ipv4Addr
  get_default_local_ip =
      or_localhost (get_local_ip_for_target (record { a = 8; b = 8; c = 8; d = 8 }))

  abbrev or_next : Option Ipv4Addr → Ipv4Addr → Ipv4Addr
  or_next none next = next
  or_next (some ip) next = ip

  -- The route to an address that is not `0.0.0.0`.
  abbrev route_to : Ipv4Addr → Option Ipv4Addr
  route_to ip = if not (is_unspecified ip) then get_local_ip_for_target ip else none

  -- The address that the socket is bound to, when it is one of IPv4 other than `0.0.0.0`.
  abbrev bound_ip : Option SocketAddr → Option Ipv4Addr
  bound_ip none = none
  bound_ip (some (v4 ip p)) = if not (is_unspecified ip) then some ip else none
  bound_ip (some (v6 ip p)) = none

  unfoldable pub resolve_local_ip : Ipv4Addr → Ipv4Addr → Option SocketAddr → Ipv4Addr
  resolve_local_ip ciaddr giaddr local_addr =
      or_next (route_to ciaddr)
        (or_next (route_to giaddr) (or_next (bound_ip local_addr) get_default_local_ip))

-- On the standard port no reply is sent to `0.0.0.0`, whatever the client wrote in its message.
pub choose_reply_dest-specified :
    (src_addr : SocketAddr) (giaddr ciaddr : Ipv4Addr) (broadcast_flag : Bool)
    → ip_is_unspecified (choose_reply_dest dhcp_server_port src_addr giaddr ciaddr broadcast_flag)
      ≡ false
unfolding choose_reply_dest
choose_reply_dest-specified src_addr giaddr ciaddr broadcast_flag =
    elim (Bool-cases (broadcast_flag && is_unspecified giaddr)) [
      | inl b ↦ rw b (unfold is_unspecified in refl)
      | inr b ↦ rw b (elim (Bool-cases (is_unspecified giaddr)) [
        | inr g ↦ rw g g
        | inl g ↦ rw g (elim (Bool-cases (is_unspecified ciaddr)) [
          | inr c ↦ rw c c
          | inl c ↦ rw c (elim (Bool-cases (ip_is_unspecified src_addr)) [
            | inr s ↦ rw s s
            | inl s ↦ rw s (unfold is_unspecified in refl)
          ])
        ])
      ])
    ]

-- A relayed request is answered through its relay: to the relay's address on the standard port, and
-- to where the request came from on any other port. The broadcast flag does not change that.
pub choose_reply_dest-relayed :
    (local_port : ℕ) (src_addr : SocketAddr) (giaddr ciaddr : Ipv4Addr) (broadcast_flag : Bool)
    → is_unspecified giaddr ≡ false
    → choose_reply_dest local_port src_addr giaddr ciaddr broadcast_flag
      ≡ (if local_port == dhcp_server_port then v4 giaddr dhcp_server_port else src_addr)
unfolding choose_reply_dest
choose_reply_dest-relayed local_port src_addr giaddr ciaddr broadcast_flag relayed =
    ground (arith, relayed)

-- An address, if there is one, is not `0.0.0.0`.
abbrev pub IsSpecified : Option Ipv4Addr → Type 0
IsSpecified none = Unit
IsSpecified (some ip) = is_unspecified ip ≡ false

module _ (route : Ipv4Addr → Option SocketAddr)
    (routed : (target ip : Ipv4Addr) (p : ℕ)
      → route target ≡ some (v4 ip p)
      → is_unspecified ip ≡ false) where
  routed_to : (target : Ipv4Addr) → IsSpecified (get_local_ip_for_target route target)
  routed_to target = by_route (route target) refl
    where
      by_route : (o : Option SocketAddr) → route target ≡ o → IsSpecified (only_v4 route o)
      by_route none e = tt
      by_route (some (v4 ip p)) e = routed target ip p e
      by_route (some (v6 ip p)) e = tt

  or_next-specified :
      (o : Option Ipv4Addr) (next : Ipv4Addr)
      → IsSpecified o
      → is_unspecified next ≡ false
      → is_unspecified (or_next route o next) ≡ false
  or_next-specified none next h k = k
  or_next-specified (some ip) next h k = h

  route_to-IsSpecified : (ip : Ipv4Addr) → IsSpecified (route_to route ip)
  route_to-IsSpecified ip = elim (Bool-cases (is_unspecified ip)) [
    | inl e ↦ rw e tt
    | inr e ↦ rw e (routed_to ip)
  ]

  bound_ip-IsSpecified : (o : Option SocketAddr) → IsSpecified (bound_ip route o)
  bound_ip-IsSpecified none = tt
  bound_ip-IsSpecified (some (v4 ip p)) = elim (Bool-cases (is_unspecified ip)) [
    | inl e ↦ rw e tt
    | inr e ↦ rw e e
  ]
  bound_ip-IsSpecified (some (v6 ip p)) = tt

  default-specified : is_unspecified (get_default_local_ip route) ≡ false
  unfolding get_default_local_ip
  default-specified = by_route _ (routed_to (record { a = 8; b = 8; c = 8; d = 8 }))
    where
      by_route :
          (o : Option Ipv4Addr) → IsSpecified o → is_unspecified (or_localhost route o) ≡ false
      by_route none h = unfold is_unspecified in refl
      by_route (some ip) h = h

  -- If every route of the system has an address other than `0.0.0.0`, then so has every reply: it never
  -- names `0.0.0.0` as the server to boot from.
  pub resolve_local_ip-specified :
      (ciaddr giaddr : Ipv4Addr) (local_addr : Option SocketAddr)
      → is_unspecified (resolve_local_ip route ciaddr giaddr local_addr) ≡ false
  unfolding resolve_local_ip
  resolve_local_ip-specified ciaddr giaddr local_addr =
      or_next-specified (route_to route ciaddr) _ (route_to-IsSpecified ciaddr) (
        or_next-specified (route_to route giaddr) _ (route_to-IsSpecified giaddr) (
          or_next-specified (bound_ip route local_addr) _ (bound_ip-IsSpecified local_addr)
            default-specified))
