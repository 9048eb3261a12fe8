-- ===== src/Text/Decimal.antt =====
-- `to_string` and `str::parse` for unsigned integers.
use native.Mathlib.Nat.{pow-suc}
use booty_call.Prelude.{
  ℕ, zero, suc, ◌+◌, ◌-◌, ◌*◌, ◌/◌, ◌%◌, ◌^◌, ◌≤◌, ◌<◌, ◌≡◌, refl, ◌≢◌, All, Bool-cases, inl, inr,
  ◌&&◌, Option, none, some, List, [], ◌∷◌, arith, leb, ltb, ◌==◌, if◌then◌else◌,
}

-- The digits of `n` before `out`; one unit of fuel for a digit.
unfoldable pub print_from : ℕ → ℕ → List ℕ → List ℕ
print_from zero n out = out
print_from (suc f) n out =
    let more = print_from f (n / 10) ((b'0' + n % 10) ∷ out) in
    if ltb n 10 then (b'0' + n % 10) ∷ out else more

-- A 64-bit number has at most 20 digits.
unfoldable pub decimal : ℕ → List ℕ
decimal n = print_from 20 n []

-- The rest of the digits behind the number `n`; `none` past `top` or at a byte that is no digit.
scan : ℕ → List ℕ → ℕ → Option ℕ
scan top [] n = some n
scan top (c ∷ s) n =
    let n' = n * 10 + (c - b'0') in
    let rest = scan top s n' in
    if leb b'0' c && leb c b'9' then (if ltb top n' then none else rest) else none

some_digits : ℕ → List ℕ → Option ℕ
unfolding scan
some_digits top [] = none
some_digits top (c ∷ s) = scan top (c ∷ s) 0

-- `s.parse::<uN>().ok()` with `top` the largest value; one leading `+` is accepted.
unfoldable pub parse_uint : ℕ → List ℕ → Option ℕ
unfolding some_digits
parse_uint top [] = none
parse_uint top (c ∷ s) = if c == b'+' then some_digits top s else some_digits top (c ∷ s)

pow_suc : (f : ℕ) → 10 ^ suc f ≡ 10 * 10 ^ f
pow_suc f = omega (arith, pow-suc 10 f)

scan-print_from :
    (f n top : ℕ) (out : List ℕ)
    → n < 10 ^ f
    → n ≤ top
    → scan top (print_from f n out) 0 ≡ scan top out n
unfolding scan print_from
scan-print_from zero n top out h fits = ground arith
scan-print_from (suc f) n top out h fits =
    ground (arith, pow_suc f, scan-print_from f (n / 10) top ((b'0' + n % 10) ∷ out))

print_from-ne-nil : (f n : ℕ) (out : List ℕ) → out ≢ [] → print_from f n out ≢ []
unfolding print_from
print_from-ne-nil zero n out h = h
print_from-ne-nil (suc f) n out h =
    ground (arith, print_from-ne-nil f (n / 10) ((b'0' + n % 10) ∷ out))

parse_of_scan :
    (s : List ℕ) (top n : ℕ) → s ≢ [] → scan top s 0 ≡ some n → parse_uint top s ≡ some n
unfolding parse_uint scan
parse_of_scan [] top n h e = absurd (h refl)
parse_of_scan (c ∷ s) top n h e = ground arith

nonempty : (n : ℕ) → decimal n ≢ []
unfolding decimal print_from
nonempty n = ground (arith, print_from-ne-nil 19 (n / 10) ((b'0' + n % 10) ∷ []) (λ e. cc))

-- `to_string` then `parse` gives the number back, at every width that holds it.
pub parse_uint-decimal : (n top : ℕ) → n ≤ top → n < 10 ^ 20 → parse_uint top (decimal n) ≡ some n
unfolding decimal scan
parse_uint-decimal n top fits h =
    parse_of_scan (decimal n) top n (nonempty n) (scan-print_from 20 n top [] h fits)

abbrev pub IsDigit : ℕ → Type 0
IsDigit c = (b'0' ≤ c) × (c ≤ b'9')

print_from-digits : (f n : ℕ) (out : List ℕ) → All IsDigit out → All IsDigit (print_from f n out)
unfolding print_from
print_from-digits zero n out h = h
print_from-digits (suc f) n out h = elim (Bool-cases (ltb n 10)) [
  | inl low ↦ rw low ((omega arith, omega arith), h)
  | inr high ↦
      rw high (print_from-digits f (n / 10) ((b'0' + n % 10) ∷ out) ((omega arith, omega arith), h))
]

pub decimal-digits : (n : ℕ) → All IsDigit (decimal n)
unfolding decimal
decimal-digits n = print_from-digits 20 n [] tt
