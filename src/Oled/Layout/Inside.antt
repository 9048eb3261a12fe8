-- ===== src/Oled/Layout/Inside.antt =====
-- crates/bootycall-oled/src/lib.rs: the screensaver stays inside its box, and text on the panel.
use booty_call.Prelude.{
  ℕ, zero, suc, ◌+◌, ◌≤◌, ◌<◌, ◌≡◌, refl, ap, ◌∙◌, true, false, List, arith, Bool-cases, inl, inr,
}
use booty_call.Prelude.Bytes.{codes, eq_bytes}
use booty_call.Prelude.Ints.{ℤ, pos, negsuc, ◌+ℤ◌, neg, abs, lez}
use booty_call.Oled.Framebuffer.{width, height}
use booty_call.Oled.Layout.{
  visible_y_start, visible_height, text_edge_margin, align_x, align_y, BounceBox, reflect, Bounce,
  step_bounce,
}

-- The box is not empty.
pub record IsBox (b : BounceBox) : Type 0 where
  pub wide : lez b.min_x b.max_x ≡ true
  pub high : lez b.min_y b.max_y ≡ true

pub record IsInside (b : BounceBox) (s : Bounce) : Type 0 where
  pub left : lez b.min_x s.x ≡ true
  pub right : lez s.x b.max_x ≡ true
  pub top : lez b.min_y s.y ≡ true
  pub bottom : lez s.y b.max_y ≡ true

lez_self : (z : ℤ) → lez z z ≡ true
lez_self (pos n) = ground arith
lez_self (negsuc n) = ground arith

lez_total : (y z : ℤ) → lez y z ≡ false → lez z y ≡ true
lez_total (pos m) (pos n) h = ground arith
lez_total (pos m) (negsuc n) h = refl
lez_total (negsuc m) (pos n) h = cc
lez_total (negsuc m) (negsuc n) h = ground arith

reflect-inside :
    (at step low high : ℤ)
    → lez low high ≡ true
    → (lez low (reflect at step low high).at ≡ true)
      × (lez (reflect at step low high).at high ≡ true)
unfolding reflect
reflect-inside at step low high h = elim (Bool-cases (lez high at)) [
  | inl over ↦ rw over (h, lez_self high)
  | inr under ↦ elim (Bool-cases (lez at low)) [
    | inl below ↦ rw (under, below) (lez_self low, h)
    | inr above ↦ rw (under, above) (lez_total at low above, lez_total high at under)
  ]
]

abs-neg : (k : ℕ) → abs (neg (pos k)) ≡ pos k
abs-neg zero = refl
abs-neg (suc k) = ap pos (omega arith)

abs-abs : (z : ℤ) → (k : ℕ) × (abs z ≡ pos k)
abs-abs (pos n) = (n, refl)
abs-abs (negsuc n) = (n + 1, refl)

-- A reflection keeps the speed.
reflect-speed : (at step low high : ℤ) → abs (reflect at step low high).step ≡ abs step
unfolding reflect
reflect-speed at step low high =
    let (k, e) = abs-abs step in
    elim (Bool-cases (lez high at)) [
      | inl over ↦ rw over (rw e (abs-neg k))
      | inr under ↦ elim (Bool-cases (lez at low)) [
        | inl below ↦ rw (under, below) (rw e refl)
        | inr above ↦ rw (under, above) refl
      ]
    ]

-- Frames of the screensaver.
unfoldable pub bounce : ℕ → BounceBox → Bounce → Bounce
bounce zero b s = s
bounce (suc n) b s = bounce n b (step_bounce b s)

abbrev pub IsBouncing : BounceBox → Bounce → Bounce → Type 0
IsBouncing b start s = IsInside b s × (abs s.dx ≡ abs start.dx) × (abs s.dy ≡ abs start.dy)

step_bounce-IsBouncing : (b : BounceBox) (s : Bounce) → IsBox b → IsBouncing b s (step_bounce b s)
unfolding step_bounce
step_bounce-IsBouncing b s h =
    let (l, r) = reflect-inside (s.x +ℤ s.dx) s.dx b.min_x b.max_x h.wide in
    let (t, u) = reflect-inside (s.y +ℤ s.dy) s.dy b.min_y b.max_y h.high in
    (
      record { left = l; right = r; top = t; bottom = u },
      reflect-speed (s.x +ℤ s.dx) s.dx b.min_x b.max_x,
      reflect-speed (s.y +ℤ s.dy) s.dy b.min_y b.max_y,
    )

-- From its first frame on, wherever it starts and however fast it moves, the screensaver is inside its box in
-- every frame, and neither of its two speeds changes but in sign.
pub bounce-IsBouncing :
    (n : ℕ) (b : BounceBox) (s : Bounce) → IsBox b → IsBouncing b s (bounce (suc n) b s)
unfolding bounce
bounce-IsBouncing zero b s h = step_bounce-IsBouncing b s h
bounce-IsBouncing (suc n) b s h =
    let (here, sx, sy) = step_bounce-IsBouncing b s h in
    let (inside, ex, ey) = bounce-IsBouncing n b (step_bounce b s) h in (inside, ex ∙ sx, ey ∙ sy)

-- A text that leaves room for the margin lies on the panel, whatever the horizontal alignment.
pub align_x_fits :
    (horiz : List ℕ) (text_w : ℕ)
    → text_w + text_edge_margin ≤ width
    → align_x horiz text_w + text_w ≤ width
unfolding align_x
align_x_fits horiz text_w h = elim (Bool-cases (eq_bytes horiz (codes "center"))) [
  | inl c ↦ rw c (ground arith)
  | inr c ↦ elim (Bool-cases (eq_bytes horiz (codes "right"))) [
    | inl r ↦ rw (c, r) (ground arith)
    | inr r ↦ rw (c, r) (omega arith)
  ]
]

-- A text that is wider than that but narrower than the panel is placed far off the panel by right alignment.
pub align_x_wraps :
    (text_w : ℕ)
    → width < text_w + text_edge_margin
    → text_w < width
    → width < align_x (codes "right") text_w
unfolding align_x
align_x_wraps text_w h k = ground arith

-- A text that is not taller than the visible window lies in it, whatever the vertical alignment.
pub align_y_fits :
    (vert : List ℕ) (text_h : ℕ)
    → text_h ≤ visible_height
    → (visible_y_start ≤ align_y vert text_h) × (align_y vert text_h + text_h ≤ height)
unfolding align_y
align_y_fits vert text_h h = elim (Bool-cases (eq_bytes vert (codes "top"))) [
  | inl t ↦ rw t (ground arith)
  | inr t ↦ elim (Bool-cases (eq_bytes vert (codes "bottom"))) [
    | inl b ↦ rw (t, b) (ground arith)
    | inr b ↦ rw (t, b) (ground arith)
  ]
]
