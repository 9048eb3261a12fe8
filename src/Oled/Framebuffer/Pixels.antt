-- ===== src/Oled/Framebuffer/Pixels.antt =====
-- crates/bootycall-oled/src/framebuffer.rs: what drawing does to the back buffer.
use booty_call.Prelude.{
  ℕ, zero, suc, ◌+◌, ◌*◌, ◌<◌, ◌≡◌, refl, ◌∙◌, Bool, true, ◌&&◌, Option, some, List, [], ◌∷◌, ltb,
  ◌==◌, if◌then◌else◌, length, length-set, length-replicate, get_elem?, set, replicate, All, arith,
  Bool-cases, inl, inr,
}
use booty_call.Prelude.Bytes.{IsByte}
use booty_call.Oled.Framebuffer.{
  width, height, Framebuffer, build_lut, with_brightness, set_brightness, clear, set_pixel,
}

-- The buffer has one grey level for each pixel, and the table is the one of the brightness.
pub record IsSound (fb : Framebuffer) : Type 0 where
  pub size : length fb.buffer ≡ width * height
  pub levels : All IsByte fb.buffer
  pub table : fb.lut ≡ build_lut fb.brightness

set-All {ℓ} :
    {A : Type ℓ} (P : A → Type 0) (xs : List A) (i : ℕ) (v : A)
    → P v
    → All P xs
    → All P (set xs i v)
set-All P [] i v p h = tt
set-All P (x ∷ xs) zero v p h = (p, h.1)
set-All P (x ∷ xs) (suc i) v p h = (h.0, set-All P xs i v p h.1)

replicate-All {ℓ} : {A : Type ℓ} (P : A → Type 0) (n : ℕ) (a : A) → P a → All P (replicate n a)
replicate-All P zero a p = tt
replicate-All P (suc n) a p = (p, replicate-All P n a p)

pub black : All IsByte (replicate (width * height) 0)
black = replicate-All IsByte (width * height) 0 (omega arith)

-- The drawing operations that the display is built of.
pub data Op : Type 0 where
  dim : (brightness : ℕ) → Op
  wipe : Op
  plot : (x y color : ℕ) → Op

-- A colour is a byte.
abbrev pub IsOp : Op → Type 0
IsOp (dim b) = Unit
IsOp wipe = Unit
IsOp (plot x y color) = color < 256

unfoldable pub apply : Op → Framebuffer → Framebuffer
apply (dim b) fb = set_brightness b fb
apply wipe fb = clear fb
apply (plot x y color) fb = set_pixel x y color fb

unfoldable pub apply_all : List Op → Framebuffer → Framebuffer
apply_all [] fb = fb
apply_all (op ∷ ops) fb = apply_all ops (apply op fb)

pub with_brightness-IsSound : (opens : Bool) (b : ℕ) → IsSound (with_brightness opens b)
unfolding with_brightness
with_brightness-IsSound opens b = record {
  size = length-replicate {A = ℕ} (width * height) 0;
  levels = black;
  table = refl;
}

pub set_brightness-IsSound : (b : ℕ) (fb : Framebuffer) → IsSound fb → IsSound (set_brightness b fb)
unfolding set_brightness
set_brightness-IsSound b fb s = elim (Bool-cases (b == fb.brightness)) [
  | inl same ↦ simp same s
  | inr other ↦ simp other (record { size = s.size; levels = s.levels; table = refl })
]

pub set_pixel-IsSound :
    (x y color : ℕ) (fb : Framebuffer) → color < 256 → IsSound fb → IsSound (set_pixel x y color fb)
unfolding set_pixel
set_pixel-IsSound x y color fb c s = elim (Bool-cases (ltb x width && ltb y height)) [
  | inl inside ↦ rw inside (record {
    size = length-set fb.buffer (y * width + x) color ∙ s.size;
    levels = set-All IsByte fb.buffer (y * width + x) color c s.levels;
    table = s.table;
  })
  | inr outside ↦ rw outside s
]

apply-IsSound : (op : Op) (fb : Framebuffer) → IsOp op → IsSound fb → IsSound (apply op fb)
unfolding apply clear
apply-IsSound (dim b) fb c s = set_brightness-IsSound b fb s
apply-IsSound wipe fb c s = record {
  size = length-replicate {A = ℕ} (width * height) 0;
  levels = black;
  table = s.table;
}
apply-IsSound (plot x y color) fb c s = set_pixel-IsSound x y color fb c s

apply_all-IsSound :
    (ops : List Op) (fb : Framebuffer) → All IsOp ops → IsSound fb → IsSound (apply_all ops fb)
unfolding apply_all
apply_all-IsSound [] fb c s = s
apply_all-IsSound (op ∷ ops) fb c s = apply_all-IsSound ops _ c.1 (apply-IsSound op fb c.0 s)

-- However it is drawn on and dimmed, anywhere on or off the panel, a frame buffer keeps one byte for each of
-- its 160 × 60 pixels, and the colour table of its current brightness.
pub draws-IsSound :
    (opens : Bool) (b : ℕ) (ops : List Op)
    → All IsOp ops
    → IsSound (apply_all ops (with_brightness opens b))
draws-IsSound opens b ops c = apply_all-IsSound ops _ c (with_brightness-IsSound opens b)

abbrev pub pixel : ℕ → ℕ → Framebuffer → Option ℕ
pixel x y fb = get_elem? fb.buffer (y * width + x)

get_elem?-set {ℓ} :
    {A : Type ℓ} (xs : List A) (i j : ℕ) (v : A)
    → i < length xs
    → get_elem? (set xs i v) j ≡ (if i == j then some v else get_elem? xs j)
get_elem?-set [] i j v h = absurd (omega arith)
get_elem?-set (x ∷ xs) zero zero v h = ground arith
get_elem?-set (x ∷ xs) zero (suc j) v h = ground arith
get_elem?-set (x ∷ xs) (suc i) zero v h = ground arith
get_elem?-set (x ∷ xs) (suc i) (suc j) v h = get_elem?-set xs i j v (omega arith) ∙ ground arith

-- Setting a pixel of the panel changes that pixel and no other of the panel.
pub pixel-set_pixel :
    (x y color x' y' : ℕ) (fb : Framebuffer)
    → IsSound fb
    → x < width
    → y < height
    → x' < width
    → y' < height
    → pixel x' y' (set_pixel x y color fb)
      ≡ (if (x == x') && (y == y') then some color else pixel x' y' fb)
unfolding set_pixel
pixel-set_pixel x y color x' y' fb s hx hy hx' hy' =
    let inside : (ltb x width && ltb y height) ≡ true = ground arith in
    let there : y * width + x < length fb.buffer = omega (arith, s.size) in
    let same : (y * width + x == y' * width + x') ≡ ((x == x') && (y == y')) = ground arith in
    rw inside (get_elem?-set fb.buffer (y * width + x) (y' * width + x') color there ∙ rw same refl)
