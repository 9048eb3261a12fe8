-- ===== src/Text/Trim.antt =====
-- `str::trim`: the Unicode white space at both ends is dropped. On UTF-8 the encodings of the
-- white-space characters can be looked for byte by byte.
use mathlib.Core.List.{reverse-reverse}
use booty_call.Prelude.{
  ℕ, ◌≡◌, refl, zero, suc, Bool, ◌&&◌, ◌||◌, List, [], ◌∷◌, reverse, leb, ◌==◌, if◌then◌else◌,
}

pub white1 : ℕ → Bool
white1 a = (leb 9 a && leb a 13) || a == 32

pub white2 : ℕ → ℕ → Bool
white2 a b = a == 0xc2 && (b == 0x85 || b == 0xa0)

pub white3 : ℕ → ℕ → ℕ → Bool
white3 a b c =
    (a == 0xe1 && b == 0x9a && c == 0x80)
    || (a == 0xe2 && b == 0x80 && (leb 0x80 c && leb c 0x8a || c == 0xa8 || c == 0xa9 || c == 0xaf))
    || (a == 0xe2 && b == 0x81 && c == 0x9f)
    || (a == 0xe3 && b == 0x80 && c == 0x80)

-- How many bytes of white space a text begins with: 0, or the length of one character.
unfoldable pub white_front : List ℕ → ℕ
unfolding white1 white2 white3
white_front [] = 0
white_front (a ∷ []) = if white1 a then 1 else 0
white_front (a ∷ b ∷ []) = if white1 a then 1 else if white2 a b then 2 else 0
white_front (a ∷ b ∷ c ∷ s) =
    if white1 a then 1 else if white2 a b then 2 else if white3 a b c then 3 else 0

-- The same at the end of a text, which is given reversed.
unfoldable pub white_back : List ℕ → ℕ
unfolding white1 white2 white3
white_back [] = 0
white_back (a ∷ []) = if white1 a then 1 else 0
white_back (a ∷ b ∷ []) = if white1 a then 1 else if white2 b a then 2 else 0
white_back (a ∷ b ∷ c ∷ s) =
    if white1 a then 1 else if white2 b a then 2 else if white3 c b a then 3 else 0

-- Drop `k` bytes, then one character after another as long as `white` finds one.
unfoldable pub skip : (List ℕ → ℕ) → ℕ → List ℕ → List ℕ
skip white k [] = []
skip white zero (x ∷ xs) = elim (white (x ∷ xs)) [ zero ↦ x ∷ xs | suc k ↦ skip white k xs ]
skip white (suc k) (x ∷ xs) = skip white k xs

unfoldable pub trim : List ℕ → List ℕ
trim s = reverse (skip white_back 0 (reverse (skip white_front 0 s)))

skip_none : (white : List ℕ → ℕ) (s : List ℕ) → white s ≡ 0 → skip white 0 s ≡ s
unfolding skip
skip_none white [] h = refl
skip_none white (x ∷ xs) h = rw (h, skip)

-- A text with no white space at either end is its own trim.
pub trim_none : (s : List ℕ) → white_front s ≡ 0 → white_back (reverse s) ≡ 0 → trim s ≡ s
trim_none s front back =
    unfold trim in
    rw (skip_none white_front s front, skip_none white_back (reverse s) back, reverse-reverse)
