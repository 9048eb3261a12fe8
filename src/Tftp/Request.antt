-- ===== src/Tftp/Request.antt =====
-- crates/bootycall-tftp/src/server.rs: `RrqRequest` and `parse_rrq`.
pub mod RoundTrip
use booty_call.Prelude.{
  ℕ, zero, suc, ◌-◌, ◌^◌, Bool, true, false, ◌&&◌, Option, none, some, List, [], ◌∷◌, ltb, ◌==◌,
  if◌then◌else◌, length, drop,
}
use booty_call.Prelude.Bytes.{codes, eq_bytes, lower}
use booty_call.Text.Utf8.{from_utf8}
use booty_call.Text.Decimal.{parse_uint}
use booty_call.Tftp.Wire.{Bytes, op_rrq, is_op, opcode, split_nul}

pub record RrqRequest : Type 0 where
  pub filename : Bytes
  pub mode : Bytes
  pub blksize : Option ℕ
  pub timeout : Option ℕ
  pub tsize_requested : Bool
  pub windowsize : Option ℕ

-- `usize::MAX` (a 64-bit target), `u64::MAX` and `u16::MAX`
abbrev pub max_u64 : ℕ
max_u64 = 2 ^ 64 - 1

abbrev pub max_u16 : ℕ
max_u16 = 2 ^ 16 - 1

-- U+212A, the Kelvin sign, whose lower case is `k`.
abbrev kelvin : Bytes → Bool
kelvin (a ∷ b ∷ c ∷ rest) = a == 0xe2 && b == 0x84 && c == 0xaa
kelvin s = false

unfoldable pub lower_from : ℕ → Bytes → Bytes
lower_from k [] = []
lower_from zero (a ∷ rest) =
    let k = kelvin (a ∷ rest) in
    (if k then b'k' else lower a) ∷ lower_from (if k then 2 else 0) rest
lower_from (suc k) (a ∷ rest) = lower_from k rest

-- `str::to_lowercase`, as far as a comparison with an ASCII word can tell: the lower case of any
-- other character than these is not ASCII, and the character itself stands for it.
unfoldable pub to_lowercase : Bytes → Bytes
unfolding lower_from
to_lowercase s = lower_from 0 s

-- A number that does not parse leaves what an earlier option set.
abbrev pub or_keep : Option ℕ → Option ℕ → Option ℕ
or_keep none old = old
or_keep (some n) old = some n

-- The `match key.as_str()`.
unfoldable pub set_option : Bytes → Bytes → RrqRequest → RrqRequest
unfolding parse_uint
set_option key val r =
    if eq_bytes key (codes "blksize")
    then record r { blksize = or_keep (parse_uint max_u64 val) r.blksize }
    else if eq_bytes key (codes "timeout")
    then record r { timeout = or_keep (parse_uint max_u64 val) r.timeout }
    else if eq_bytes key (codes "tsize")
    then record r { tsize_requested = true }
    else if eq_bytes key (codes "windowsize")
    then record r { windowsize = or_keep (parse_uint max_u16 val) r.windowsize }
    else r

infixl 5 ◌>>=◌
abbrev pub ◌>>=◌ {ℓ κ} : {A : Type ℓ} {B : Type κ} → Option A → (A → Option B) → Option B
none >>= f = none
some a >>= f = f a

-- The loop over the parts from index 2 on, two at a time.
unfoldable pub option_loop : List Bytes → RrqRequest → Option RrqRequest
option_loop (k ∷ v ∷ rest) r = do
  key ← from_utf8 k
  val ← from_utf8 v
  option_loop rest (set_option (to_lowercase key) val r)
option_loop parts r = some r

abbrev pub bare : Bytes → Bytes → RrqRequest
bare filename mode = record {
  filename = filename;
  mode = mode;
  blksize = none;
  timeout = none;
  tsize_requested = false;
  windowsize = none;
}

unfoldable pub request_of : List Bytes → Option RrqRequest
request_of (f ∷ m ∷ rest) = do
  filename ← from_utf8 f
  mode ← from_utf8 m
  option_loop rest (bare filename mode)
request_of parts = none

unfoldable pub parse_rrq : Bytes → Option RrqRequest
parse_rrq packet =
    if ltb (length packet) 4
    then none
    else if is_op op_rrq packet
    then request_of (split_nul [] (drop 2 packet))
    else none
