-- ===== src/Core/Net.antt =====
-- Addresses, as crates/bootycall-dhcp and crates/bootycall-tftp use them of `std::net`.
use booty_call.Prelude.{ℕ, Bool, ◌&&◌, List, ◌∷◌, ◌++◌, ◌==◌}
use booty_call.Text.Decimal.{decimal}

pub record Ipv4Addr : Type 0 where
  pub a : ℕ
  pub b : ℕ
  pub c : ℕ
  pub d : ℕ

abbrev pub unspecified : Ipv4Addr
unspecified = record { a = 0; b = 0; c = 0; d = 0 }

abbrev pub broadcast : Ipv4Addr
broadcast = record { a = 255; b = 255; c = 255; d = 255 }

unfoldable pub is_unspecified : Ipv4Addr → Bool
is_unspecified ip = ip.a == 0 && (ip.b == 0 && (ip.c == 0 && ip.d == 0))

abbrev dot : ℕ
dot = 46

-- `Ipv4Addr::to_string`
unfoldable pub to_string : Ipv4Addr → List ℕ
to_string ip =
    decimal ip.a ++ (dot ∷ (decimal ip.b ++ (dot ∷ (decimal ip.c ++ (dot ∷ decimal ip.d)))))

-- What the code reads of an IPv6 address.
pub record Ipv6Addr : Type 0 where
  pub text : List ℕ
  pub unspecified : Bool

pub data SocketAddr : Type 0 where
  v4 : Ipv4Addr → ℕ → SocketAddr
  v6 : Ipv6Addr → ℕ → SocketAddr

abbrev pub port : SocketAddr → ℕ
port (v4 ip p) = p
port (v6 ip p) = p

abbrev pub ip_is_unspecified : SocketAddr → Bool
ip_is_unspecified (v4 ip p) = is_unspecified ip
ip_is_unspecified (v6 ip p) = ip.unspecified

-- `src_addr.ip().to_string()`
abbrev pub ip_to_string : SocketAddr → List ℕ
ip_to_string (v4 ip p) = to_string ip
ip_to_string (v6 ip p) = ip.text
