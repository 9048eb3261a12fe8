-- ===== src/Http/Token/Digests.antt =====
-- crates/bootycall-http/src/server.rs: `constant_time_eq` compares the digests, whatever their bytes.
use Prim.Native.Nat.{bit_or, bit_xor, digits, differ, bit_or-bitwise, bit_xor-bitwise}
use booty_call.Prelude.{
  ℕ, zero, suc, ◌/◌, ◌%◌, ◌≤◌, ◌≡◌, ◌↔◌, refl, ap, ◌∙◌, true, List, [], ◌∷◌, ==_iff, length, max,
  arith,
}
use booty_call.Http.Token.{diff_loop, constant_time_eq}

abbrev or_digits : ℕ → ℕ → ℕ → ℕ
or_digits n a b = digits (λ b. b) max n a b

abbrev xor_digits : ℕ → ℕ → ℕ → ℕ
xor_digits n a b = digits (λ b. b) differ n a b

or_digits_zero : (n a b : ℕ) → a ≤ n → or_digits n a b ≡ 0 → (a ≡ 0) × (b ≡ 0)
or_digits_zero zero a b h e = (omega arith, e)
or_digits_zero (suc n) zero b h e = (refl, e)
or_digits_zero (suc n) (suc a) b h e =
    let (p, q) = or_digits_zero n (suc a / 2) (b / 2) (omega arith) (omega arith) in
    (omega arith, omega arith)

differ_self : (x : ℕ) → differ x x ≡ 0
differ_self zero = refl
differ_self (suc x) = differ_self x

differ_zero : (x y : ℕ) → differ x y ≡ 0 → x ≡ y
differ_zero zero y e = omega arith
differ_zero (suc x) zero e = e
differ_zero (suc x) (suc y) e = ap suc (differ_zero x y e)

xor_digits_self : (n a : ℕ) → a ≤ n → xor_digits n a a ≡ 0
xor_digits_self zero a h = omega arith
xor_digits_self (suc n) zero h = refl
xor_digits_self (suc n) (suc a) h =
    omega (arith, xor_digits_self n (suc a / 2) (omega arith), differ_self (suc a % 2))

xor_digits_zero : (n a b : ℕ) → a ≤ n → xor_digits n a b ≡ 0 → a ≡ b
xor_digits_zero zero a b h e = omega arith
xor_digits_zero (suc n) zero b h e = omega arith
xor_digits_zero (suc n) (suc a) b h e =
    let halves = xor_digits_zero n (suc a / 2) (b / 2) (omega arith) (omega arith) in
    let last = differ_zero (suc a % 2) (b % 2) (omega arith) in omega arith

bit_or_zero : (a b : ℕ) → (bit_or a b ≡ 0) ↔ ((a ≡ 0) × (b ≡ 0))
bit_or_zero a b = (
  λ e. or_digits_zero a a b (omega arith) (omega (arith, bit_or-bitwise a b)),
  λ h. rw (h.0, h.1) (bit_or-bitwise 0 0),
)

bit_xor_zero : (a b : ℕ) → (bit_xor a b ≡ 0) ↔ (a ≡ b)
bit_xor_zero a b = (
  λ e. xor_digits_zero a a b (omega arith) (omega (arith, bit_xor-bitwise a b)),
  λ e. rw e (omega (arith, bit_xor-bitwise b b, xor_digits_self b b)),
)

head_or_zero : List ℕ → ℕ
head_or_zero [] = 0
head_or_zero (x ∷ xs) = x

tail_of : List ℕ → List ℕ
tail_of [] = []
tail_of (x ∷ xs) = xs

diff_loop_zero :
    (d : ℕ) (xs ys : List ℕ)
    → length xs ≡ length ys
    → (diff_loop d xs ys ≡ 0) ↔ ((d ≡ 0) × (xs ≡ ys))
unfolding diff_loop head_or_zero tail_of
diff_loop_zero d [] [] h = (λ e. (e, refl), λ e. e.0)
diff_loop_zero d [] (y ∷ ys) h = absurd (omega arith)
diff_loop_zero d (x ∷ xs) [] h = absurd (omega arith)
diff_loop_zero d (x ∷ xs) (y ∷ ys) h =
    let rest = diff_loop_zero (bit_or d (bit_xor x y)) xs ys (omega arith) in
    let fwd = bit_or_zero d (bit_xor x y) in
    let same = bit_xor_zero x y in
    (
      λ e.
          let (o, tail) = rest.0 e in
          let (z, p) = fwd.0 o in (z, ap (λ a. a ∷ xs) (same.0 p) ∙ ap (λ t. y ∷ t) tail),
      λ e. rest.1 (fwd.1 (e.0, same.1 (ap head_or_zero e.1)), ap tail_of e.1),
    )

module _ (digest : List ℕ → List ℕ) where
  -- Two tokens compare equal exactly when their digests are the same bytes, if all digests have one length.
  pub constant_time_eq_iff :
      (len : ℕ) (a b : List ℕ)
      → length (digest a) ≡ len
      → length (digest b) ≡ len
      → (constant_time_eq digest a b ≡ true) ↔ (digest a ≡ digest b)
  unfolding constant_time_eq
  constant_time_eq_iff len a b ha hb =
      let zero_iff = diff_loop_zero 0 (digest a) (digest b) (omega arith) in
      let test = ==_iff (diff_loop 0 (digest a) (digest b)) 0 in
      (λ e. (zero_iff.0 (test.0 e)).1, λ e. test.1 (zero_iff.1 (refl, e)))
