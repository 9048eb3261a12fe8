-- ===== src/Oled/Draw/Steps.antt =====
-- crates/bootycall-oled/src/renderer.rs: the arithmetic of a step of `draw_line`.
use booty_call.Prelude.{
  ℕ, zero, suc, ◌+◌, ◌-◌, ◌*◌, ◌^◌, ◌≤◌, ◌<◌, ◌≡◌, inl, inr, ap, true, false, ◌&&◌, ltb, leb, ◌==◌,
  if◌then◌else◌, arith, Bool-cases,
}
use booty_call.Prelude.Ints.{
  ℤ, pos, ◌⊖◌, ◌+ℤ◌, neg, abs, lez, eqz, wrap, wrap-pos, wrap-negsuc, wrap-difference,
}
use booty_call.Oled.Draw.{step_towards, as_isize, apart}

-- The comparisons and sums of the loop, on an error that is a difference.
pub double_ge : (a b e : ℕ) → lez (neg (pos e)) ((a ⊖ b) +ℤ (a ⊖ b)) ≡ leb (b + b) (a + a + e)
double_ge a b zero = ground arith
double_ge a b (suc e) = ground arith

pub double_le : (a b d : ℕ) → lez ((a ⊖ b) +ℤ (a ⊖ b)) (pos d) ≡ leb (a + a) (b + b + d)
double_le a b d = ground arith

pub minus : (a b e : ℕ) → (a ⊖ b) +ℤ neg (pos e) ≡ a ⊖ (b + e)
minus a b zero = ground arith
minus a b (suc e) = ground arith

pub plus : (a b d : ℕ) → (a ⊖ b) +ℤ pos d ≡ (a + d) ⊖ b
plus a b d = ground arith

-- The distance of two coordinates, and the coordinate after some steps from one to the other.
abbrev pub dist : ℕ → ℕ → ℕ
dist from to = (to - from) + (from - to)

abbrev pub walk : ℕ → ℕ → ℕ → ℤ
walk from to i = if ltb from to then pos (from + i) else pos (from - i)

minus-pos : (from to : ℕ) → pos to +ℤ neg (pos from) ≡ to ⊖ from
minus-pos zero to = ground arith
minus-pos (suc from) to = ground arith

abs-dist : (from to : ℕ) → abs (to ⊖ from) ≡ pos (dist from to)
abs-dist from to = ground arith

-- The coordinates are below 2^61, and the distances are then what they are without wrapping.
pub apart-dist :
    (from to : ℕ)
    → from < 2 ^ 61
    → to < 2 ^ 61
    → apart (as_isize from) (as_isize to) ≡ pos (dist from to)
apart-dist from to hf ht =
    rw
      (
        wrap-pos from (omega arith),
        wrap-pos to (omega arith),
        minus-pos from to,
        wrap-difference to from (omega arith) (omega arith),
        abs-dist from to,
      )
      (wrap-pos (dist from to) (omega arith))

pub wrap-neg : (n : ℕ) → n < 2 ^ 63 → wrap (neg (pos n)) ≡ neg (pos n)
wrap-neg zero h = wrap-pos zero h
wrap-neg (suc n) h = wrap-negsuc n (omega arith)

-- A coordinate on the way is below 2^61, or the steps end before it is not.
pub wrap-walk :
    (from to i : ℕ)
    → from < 2 ^ 61
    → to < 2 ^ 61
    → i ≤ dist from to
    → wrap (walk from to i) ≡ walk from to i
wrap-walk from to i hf ht h = elim (Bool-cases (ltb from to)) [
  | inl up ↦ rw up (wrap-pos (from + i) (omega arith))
  | inr down ↦ rw down (wrap-pos (from - i) (omega arith))
]

pub double : (a b : ℕ) → (a ⊖ b) +ℤ (a ⊖ b) ≡ (a + a) ⊖ (b + b)
double a b = ground arith

pub walk_zero : (from to : ℕ) → pos from ≡ walk from to 0
walk_zero from to = ground arith

pub walk_step :
    (from to i : ℕ)
    → i < dist from to
    → walk from to i +ℤ step_towards (pos from) (pos to) ≡ walk from to (i + 1)
walk_step from to i h = ground arith

pub walk_end :
    (from to i : ℕ) → i ≤ dist from to → eqz (walk from to i) (pos to) ≡ (i == dist from to)
walk_end from to i h = ground arith

pub some_step :
    (a b d e : ℕ) → leb (b + b) (a + a + e) ≡ false → leb (a + a) (b + b + d) ≡ false → ⊥
some_step a b d e h k = ground arith

pub start_err : (d e : ℕ) → pos d +ℤ neg (pos e) ≡ (0 * d + d) ⊖ (0 * e + e)
start_err d zero = ground arith
start_err d (suc e) = ground arith

mul_bound : (j d e : ℕ) → j < e → j * d + d ≤ d * e
mul_bound j d zero h = absurd (omega arith)
mul_bound zero d (suc e) h = omega arith
mul_bound (suc j) d (suc e) h = omega (arith, mul_bound j d e (omega arith))

-- The loop never steps past the end: at the end of one axis it steps along the other.
pub not_past_x :
    (i j d e : ℕ)
    → i ≤ d
    → j ≤ e
    → (i == d) && (j == e) ≡ false
    → leb ((i * e + e) + (i * e + e)) ((j * d + d) + (j * d + d) + e) ≡ true
    → i < d
not_past_x i j d e hi hj away h = elim (Bool-cases (i == d)) [
  | inr other ↦ ground arith
  | inl same ↦
      let at : i ≡ d = ground arith in
      let below : j < e = ground arith in
      let bound = mul_bound j d e below in
      let moved : i * e ≡ d * e = ap (λ k. k * e) at in
      absurd (ground (arith, bound, moved, h, below))
]

pub not_past_y :
    (i j d e : ℕ)
    → i ≤ d
    → j ≤ e
    → (i == d) && (j == e) ≡ false
    → leb ((j * d + d) + (j * d + d)) ((i * e + e) + (i * e + e) + d) ≡ true
    → j < e
not_past_y i j d e hi hj away h = elim (Bool-cases (j == e)) [
  | inr other ↦ ground arith
  | inl same ↦
      let at : j ≡ e = ground arith in
      let below : i < d = ground arith in
      let bound = mul_bound i e d below in
      let moved : j * d ≡ e * d = ap (λ k. k * d) at in
      absurd (ground (arith, bound, moved, h, below))
]

pub leb_le : (a b : ℕ) → leb a b ≡ true → a ≤ b
leb_le a b h = ground arith
