-- ===== src/Core/Mac/Canonical.antt =====
-- The canonical spelling of a MAC address: what is formatted is valid, and nothing else is.
use mathlib.Core.List.{map-map}
use booty_call.Prelude.{
  ℕ, ◌+◌, ◌-◌, ◌*◌, ◌/◌, ◌%◌, ◌≤◌, ◌<◌, ◌≡◌, refl, ap, ◌∙◌, true, List, [], ◌∷◌, map, leb, ◌==◌,
  if◌then◌else◌, arith,
}
use booty_call.Prelude.Bytes.{lower}
use booty_call.Text.Trim.{trim, trim_none, white_front, white_back}
use booty_call.Core.Mac.{
  normalize_mac, hex_digit, HwAddr, format_mac, is_lower_hex, byte_fits, bytes_fit, is_valid_mac,
}

pub record IsHwAddr (a : HwAddr) : Type 0 where
  pub b0 : a.b0 < 256
  pub b1 : a.b1 < 256
  pub b2 : a.b2 < 256
  pub b3 : a.b3 < 256
  pub b4 : a.b4 < 256
  pub b5 : a.b5 < 256

hex_digit-is_lower_hex : (n : ℕ) → n < 16 → is_lower_hex (hex_digit n) ≡ true
unfolding hex_digit is_lower_hex
hex_digit-is_lower_hex n h = ground arith

-- The value of a lower-case hexadecimal digit.
hex_value : ℕ → ℕ
hex_value c = if leb c b'9' then c - b'0' else c - b'a' + 10

hex_value_lem : (c : ℕ) → is_lower_hex c ≡ true → (hex_value c < 16) × (hex_digit (hex_value c) ≡ c)
unfolding hex_value is_lower_hex hex_digit
hex_value_lem c h = ground arith

-- Two hexadecimal digits as a byte.
hex_pair : ℕ → ℕ → ℕ
hex_pair c d = hex_value c * 16 + hex_value d

hex_pair_lem :
    (c d : ℕ)
    → is_lower_hex c ≡ true
    → is_lower_hex d ≡ true
    → (hex_pair c d < 256)
      × (hex_digit (hex_pair c d / 16) ≡ c)
      × (hex_digit (hex_pair c d % 16) ≡ d)
unfolding hex_pair
hex_pair_lem c d hc hd =
    let (lc, ec) = hex_value_lem c hc in
    let (ld, ed) = hex_value_lem d hd in
    let ic : (hex_value c * 16 + hex_value d) / 16 ≡ hex_value c = omega arith in
    let id : (hex_value c * 16 + hex_value d) % 16 ≡ hex_value d = omega arith in
    (omega arith, ap hex_digit ic ∙ ec, ap hex_digit id ∙ ed)

digits :
    (b : ℕ)
    → b < 256
    → (is_lower_hex (hex_digit (b / 16)) ≡ true) × (is_lower_hex (hex_digit (b % 16)) ≡ true)
digits b h =
    (hex_digit-is_lower_hex (b / 16) (omega arith), hex_digit-is_lower_hex (b % 16) (omega arith))

-- A formatted hardware address is a valid MAC address.
pub format_mac-is_valid : (a : HwAddr) → IsHwAddr a → is_valid_mac (format_mac a) ≡ true
unfolding format_mac is_valid_mac bytes_fit byte_fits
format_mac-is_valid a h = ground (
  arith,
  digits a.b0 h.b0,
  digits a.b1 h.b1,
  digits a.b2 h.b2,
  digits a.b3 h.b3,
  digits a.b4 h.b4,
  digits a.b5 h.b5,
)

-- A valid MAC address is the format of a hardware address.
pub is_valid_mac_inv :
    (mac : List ℕ) → is_valid_mac mac ≡ true → (a : HwAddr) × IsHwAddr a × (format_mac a ≡ mac)
unfolding format_mac is_valid_mac bytes_fit byte_fits
is_valid_mac_inv
      (c0 ∷ d0 ∷ s0 ∷ c1 ∷ d1 ∷ s1 ∷ c2 ∷ d2 ∷ s2 ∷ c3 ∷ d3 ∷ s3 ∷ c4 ∷ d4 ∷ s4 ∷ c5 ∷ d5 ∷ []) h =
    (
      record {
        b0 = hex_pair c0 d0;
        b1 = hex_pair c1 d1;
        b2 = hex_pair c2 d2;
        b3 = hex_pair c3 d3;
        b4 = hex_pair c4 d4;
        b5 = hex_pair c5 d5;
      },
      ground (
        arith,
        hex_pair_lem c0 d0,
        hex_pair_lem c1 d1,
        hex_pair_lem c2 d2,
        hex_pair_lem c3 d3,
        hex_pair_lem c4 d4,
        hex_pair_lem c5 d5,
      ),
      ground (
        arith,
        hex_pair_lem c0 d0,
        hex_pair_lem c1 d1,
        hex_pair_lem c2 d2,
        hex_pair_lem c3 d3,
        hex_pair_lem c4 d4,
        hex_pair_lem c5 d5,
      ),
    )
is_valid_mac_inv mac h = absurd (ground arith)

plain : ℕ → ℕ
plain c = let l = lower c in if l == b'-' then b':' else l

plain_lem : (i c : ℕ) → byte_fits i c ≡ true → plain c ≡ c
unfolding plain byte_fits is_lower_hex
plain_lem i c h = ground arith

plain_all : (i : ℕ) (s : List ℕ) → bytes_fit i s ≡ true → map plain s ≡ s
unfolding bytes_fit
plain_all i [] h = refl
plain_all i (c ∷ s) h = ground (arith, plain_lem i c, plain_all (i + 1) s)

normalize_mac_of_trim : (mac : List ℕ) → trim mac ≡ mac → normalize_mac mac ≡ map plain mac
unfolding normalize_mac plain
normalize_mac_of_trim mac h = rw (h, map-map)

hex_digit_range : (n : ℕ) → n < 16 → (48 ≤ hex_digit n) × (hex_digit n ≤ 102)
unfolding hex_digit
hex_digit_range n h = ground arith

trim-format_mac : (a : HwAddr) → IsHwAddr a → trim (format_mac a) ≡ format_mac a
unfolding format_mac white_front white_back
trim-format_mac a h =
    trim_none (format_mac a)
      (ground (arith, hex_digit_range (a.b0 / 16), hex_digit_range (a.b0 % 16)))
      (ground (arith, hex_digit_range (a.b5 / 16), hex_digit_range (a.b5 % 16)))

-- A valid MAC address is already in normal form.
pub normalize_mac-valid : (mac : List ℕ) → is_valid_mac mac ≡ true → normalize_mac mac ≡ mac
unfolding is_valid_mac
normalize_mac-valid mac h =
    let (a, ha, e) = is_valid_mac_inv mac h in
    normalize_mac_of_trim mac (rw (← e) (trim-format_mac a ha)) ∙ plain_all 0 mac (ground arith)
