-- ===== src/Dhcp/Handler/Expected.antt =====
-- crates/bootycall-dhcp/src/server.rs: what a client asks for, and what it is to be told.
use booty_call.Prelude.{ℕ, ◌<◌, ◌≡◌, ◌≢◌, ◌⊎◌, true, false, Option, none, some, List, length}
use booty_call.Core.Config.{ServerConfig, HostConfig, Config}
use booty_call.Core.Net.{Ipv4Addr, unspecified, is_unspecified, SocketAddr, v4, v6}
use booty_call.Dhcp.Pxe.{MessageType, discover, offer, request, inform, ack, Message, pxe, Contains}

-- The client says `PXEClient` in its vendor class.
abbrev pub IsPxe : Message → Type 0
IsPxe m = (bytes : List ℕ) × (m.class_identifier ≡ some bytes) × Contains pxe bytes

-- An offer answers a discover, an acknowledgement a request or an inform.
abbrev pub Answers : Option MessageType → MessageType → Type 0
Answers t kind =
    ((t ≡ some discover) × (kind ≡ offer))
    ⊎ (((t ≡ some request) ⊎ (t ≡ some inform)) × (kind ≡ ack))

-- A message that gets no answer: it has no six-byte hardware address, does not come from a PXE client, or is
-- neither a discover nor a request nor an inform.
abbrev pub IsForeign : Message → Type 0
IsForeign m =
    (length m.chaddr < 6)
    ⊎ (¬ (IsPxe m))
    ⊎ ((m.msg_type ≢ some discover) × (m.msg_type ≢ some request) × (m.msg_type ≢ some inform))

-- The default bootloader of an architecture: 11 is 64-bit ARM, and 0 the BIOS.
abbrev pub IsDefault : ServerConfig → Option ℕ → List ℕ → Type 0
IsDefault server arch path =
    ((arch ≡ some 11) × (path ≡ server.default_bootloader_arm64))
    ⊎ ((arch ≡ some 0) × (path ≡ server.default_bootloader_bios))
    ⊎ ((arch ≢ some 11) × (arch ≢ some 0) × (path ≡ server.default_bootloader_amd64))

-- The bootloader of the host that is configured for the MAC, or else the default one.
abbrev pub IsBootfile : Config → Option HostConfig → Option ℕ → List ℕ → Type 0
IsBootfile c none arch path = IsDefault c.server arch path
IsBootfile c (some h) arch path =
    (h.bootloader ≡ some path) ⊎ ((h.bootloader ≡ none) × IsDefault c.server arch path)

-- The address of a packet; one that comes over version 6 has none.
abbrev pub IsSource : SocketAddr → Ipv4Addr → Type 0
IsSource (v4 source p) ip = ip ≡ source
IsSource (v6 source p) ip = ip ≡ unspecified

-- The name of the host that is configured, if one is.
abbrev pub IsNameOf : Option HostConfig → Option (List ℕ) → Type 0
IsNameOf none name = name ≡ none
IsNameOf (some h) name = name ≡ some h.name

-- The address that a client says it has, or else the one that its packet came from.
abbrev pub IsClientIp : Message → SocketAddr → Ipv4Addr → Type 0
IsClientIp m src_addr ip =
    ((is_unspecified m.ciaddr ≡ false) × (ip ≡ m.ciaddr))
    ⊎ ((is_unspecified m.ciaddr ≡ true) × IsSource src_addr ip)
