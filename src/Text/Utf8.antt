-- ===== src/Text/Utf8.antt =====
-- `String::from_utf8` and `String::from_utf8_lossy`: a decoder that walks the bytes.
use booty_call.Prelude.{
  ℕ, ◌-◌, ◌<◌, All, ◌≡◌, refl, Bool, true, false, ◌&&◌, Option, none, some, List, [], ◌∷◌, ◌++◌,
  arith, leb, ltb, ◌==◌, if◌then◌else◌, Option-cases, inl, inr, ap, sym, ◌∙◌,
}
use mathlib.Core.List.{append-nil, append_assoc}

-- `left` continuation bytes are outstanding, the next of them in `lo..=hi`; `pending` holds the
-- bytes of the unfinished character.
pub record Decoder : Type 0 where
  pub left : ℕ
  pub lo : ℕ
  pub hi : ℕ
  pub pending : List ℕ

abbrev pub idle : Decoder
idle = record { left = 0; lo = 0x80; hi = 0xbf; pending = [] }

abbrev wait : ℕ → ℕ → ℕ → ℕ → Option (Decoder × List ℕ)
wait n lo hi b = some (record { left = n; lo = lo; hi = hi; pending = b ∷ [] }, [])

-- A leading byte, by the table of well-formed UTF-8.
lead : ℕ → Option (Decoder × List ℕ)
lead b =
    if ltb b 0x80
    then some (idle, b ∷ [])
    else if ltb b 0xc2
    then none
    else if ltb b 0xe0
    then wait 1 0x80 0xbf b
    else if b == 0xe0
    then wait 2 0xa0 0xbf b
    else if b == 0xed
    then wait 2 0x80 0x9f b
    else if ltb b 0xf0
    then wait 2 0x80 0xbf b
    else if b == 0xf0
    then wait 3 0x90 0xbf b
    else if ltb b 0xf4
    then wait 3 0x80 0xbf b
    else if b == 0xf4
    then wait 3 0x80 0x8f b
    else none

continue : Decoder → ℕ → Option (Decoder × List ℕ)
continue d b =
    if leb d.lo b && leb b d.hi
    then if d.left == 1
      then some (idle, d.pending ++ (b ∷ []))
      else some
          (record { left = d.left - 1; lo = 0x80; hi = 0xbf; pending = d.pending ++ (b ∷ []) }, [])
    else none

-- One byte: the next decoder and the character it completes, or `none` where the byte is wrong.
pub accept : Decoder → ℕ → Option (Decoder × List ℕ)
unfolding lead continue
accept d b = if d.left == 0 then lead b else continue d b

unfoldable pub valid_from : Decoder → List ℕ → Bool
valid_from d [] = d.left == 0
valid_from d (b ∷ bs) = elim (accept d b) [ none ↦ false | some (d', out) ↦ valid_from d' bs ]

unfoldable pub is_utf8 : List ℕ → Bool
unfolding valid_from accept
is_utf8 s = valid_from idle s

-- `String::from_utf8(bytes).ok()`
unfoldable pub from_utf8 : List ℕ → Option (List ℕ)
unfolding is_utf8
from_utf8 s = if is_utf8 s then some s else none

-- U+FFFD
abbrev pub replacement : List ℕ
replacement = 0xef ∷ 0xbf ∷ 0xbd ∷ []

-- The byte that broke off a character is read again as the first of the next one.
pub recover : Decoder → ℕ → Decoder × List ℕ
recover d b = if d.left == 0 then (idle, replacement) else elim (accept idle b) [
  | none ↦ (idle, replacement ++ replacement)
  | some (d', out) ↦ (d', replacement ++ out)
]

unfoldable pub lossy_from : Decoder → List ℕ → List ℕ
unfolding recover
lossy_from d [] = if d.left == 0 then [] else replacement
lossy_from d (b ∷ bs) = elim (accept d b) [
  | none ↦ (recover d b).1 ++ lossy_from (recover d b).0 bs
  | some (d', out) ↦ out ++ lossy_from d' bs
]

unfoldable pub from_utf8_lossy : List ℕ → List ℕ
unfolding lossy_from accept
from_utf8_lossy s = lossy_from idle s

-- Between characters nothing is pending.
abbrev Fresh : Decoder → Type 0
Fresh d = d.left ≡ 0 → d.pending ≡ []

accept_keeps :
    (d : Decoder) (b : ℕ) {d' : Decoder} {out : List ℕ}
    → Fresh d
    → accept d b ≡ some (d', out)
    → (out ++ d'.pending ≡ d.pending ++ (b ∷ [])) × Fresh d'
unfolding accept
accept_keeps d b fresh h = ground (arith, fresh, append-nil (d.pending ++ (b ∷ [])))

lossy_from_lem :
    (d : Decoder) (s : List ℕ) → Fresh d → valid_from d s ≡ true → lossy_from d s ≡ d.pending ++ s
unfolding valid_from lossy_from
lossy_from_lem d [] fresh h = ground (arith, fresh, append-nil d.pending)
lossy_from_lem d (b ∷ bs) fresh h = elim (Option-cases (accept d b)) [
  | inl e ↦ absurd (refused e)
  | inr ((d', out), e) ↦
      let (kept, fresh') = accept_keeps d b fresh e in
      rw (e, lossy_from)
        (ap (λ t. out ++ t) (lossy_from_lem d' bs fresh' (ground (arith, e)))
          ∙ sym (append_assoc out d'.pending bs)
          ∙ ap (λ t. t ++ bs) kept
          ∙ append_assoc d.pending (b ∷ []) bs)
]
  where
    refused : accept d b ≡ none → ⊥
    refused e = ground (arith, e)

pub from_utf8_lossy_lem : (s : List ℕ) → is_utf8 s ≡ true → from_utf8_lossy s ≡ s
unfolding is_utf8 from_utf8_lossy
from_utf8_lossy_lem s h = lossy_from_lem idle s (λ e. refl) h

valid_from_ascii : (s : List ℕ) → All (λ b. b < 128) s → valid_from idle s ≡ true
unfolding valid_from accept
valid_from_ascii [] h = refl
valid_from_ascii (b ∷ bs) h = ground (arith, h.0, valid_from_ascii bs h.1)

-- ASCII bytes are UTF-8.
pub is_utf8_of_ascii : (s : List ℕ) → All (λ b. b < 128) s → is_utf8 s ≡ true
unfolding is_utf8
is_utf8_of_ascii s h = valid_from_ascii s h
