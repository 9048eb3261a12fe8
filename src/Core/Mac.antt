-- ===== src/Core/Mac.antt =====
-- crates/bootycall-core/src/mac.rs
pub mod Canonical
use booty_call.Prelude.{
  ℕ, zero, suc, ◌+◌, ◌-◌, ◌/◌, ◌%◌, Bool, true, false, not, ◌&&◌, ◌||◌, List, [], ◌∷◌, map, leb,
  ltb, ◌==◌, if◌then◌else◌, length,
}
use booty_call.Prelude.Bytes.{to_ascii_lowercase}
use booty_call.Text.Trim.{trim}

-- `trim`, then `to_ascii_lowercase`, then `replace('-', ":")`.
unfoldable pub normalize_mac : List ℕ → List ℕ
normalize_mac mac = map (λ c. if c == b'-' then b':' else c) (to_ascii_lowercase (trim mac))

-- One digit of `{:02x}`.
unfoldable pub hex_digit : ℕ → ℕ
hex_digit n = if ltb n 10 then b'0' + n else b'a' + (n - 10)

-- A `[u8; 6]`.
pub record HwAddr : Type 0 where
  pub b0 : ℕ
  pub b1 : ℕ
  pub b2 : ℕ
  pub b3 : ℕ
  pub b4 : ℕ
  pub b5 : ℕ

abbrev pair : ℕ → List ℕ → List ℕ
pair b rest = hex_digit (b / 16) ∷ hex_digit (b % 16) ∷ rest

unfoldable pub format_mac : HwAddr → List ℕ
format_mac a = pair a.b0 (
    b':' ∷ pair a.b1 (b':' ∷ pair a.b2 (b':' ∷ pair a.b3 (b':' ∷ pair a.b4 (b':' ∷ pair a.b5 [])))))

-- `is_ascii_hexdigit` and not `is_ascii_uppercase`.
unfoldable pub is_lower_hex : ℕ → Bool
is_lower_hex c =
    ((leb b'0' c && leb c b'9') || (leb b'a' c && leb c b'f') || (leb b'A' c && leb c b'F'))
    && not (leb b'A' c && leb c b'Z')

-- The test on the byte at position `i`.
unfoldable pub byte_fits : ℕ → ℕ → Bool
byte_fits i c = if i % 3 == 2 then c == b':' else is_lower_hex c

-- The loop over `bytes().enumerate()`, from position `i` on.
unfoldable pub bytes_fit : ℕ → List ℕ → Bool
bytes_fit i [] = true
bytes_fit i (c ∷ s) = if byte_fits i c then bytes_fit (i + 1) s else false

unfoldable pub is_valid_mac : List ℕ → Bool
is_valid_mac mac = if length mac == 17 then bytes_fit 0 mac else false
