-- ===== src/Oled/Layout.antt =====
-- crates/bootycall-oled/src/lib.rs: brightness, placement and the bounce of the screensaver.
pub mod Inside
use booty_call.Prelude.{
  ℕ, ◌+◌, ◌-◌, ◌*◌, ◌/◌, ◌%◌, ◌^◌, Bool, true, false, List, [], ◌∷◌, ltb, leb, if◌then◌else◌,
}
use booty_call.Prelude.Bytes.{codes, eq_bytes}
use booty_call.Prelude.Ints.{ℤ, pos, negsuc, ◌+ℤ◌, neg, abs, lez}
use booty_call.Oled.Framebuffer.{width}

pub data DisplayMode : Type 0 where
  screensaver metrics : DisplayMode

abbrev pub screensaver_brightness_percent : ℕ
screensaver_brightness_percent = 40

-- The product of two bytes below 256 and 101 fits in 16 bits.
unfoldable pub mode_brightness : ℕ → DisplayMode → ℕ
mode_brightness base metrics = base
mode_brightness base screensaver = base * screensaver_brightness_percent / 100 % 256

abbrev pub visible_y_start : ℕ
visible_y_start = 28

abbrev pub visible_height : ℕ
visible_height = 32

abbrev pub text_edge_margin : ℕ
text_edge_margin = 5

-- Subtraction of `usize` as a release build does it: modulo 2 ^ 64.
abbrev pub wrapping_sub : ℕ → ℕ → ℕ
wrapping_sub a b = (a + 2 ^ 64 - b) % 2 ^ 64

unfoldable pub align_x : List ℕ → ℕ → ℕ
align_x horiz text_w =
    if eq_bytes horiz (codes "center")
    then if ltb text_w width then (width - text_w) / 2 else 0
    else if eq_bytes horiz (codes "right")
    then if ltb text_w width then wrapping_sub (width - text_w) text_edge_margin else 0
    else text_edge_margin

unfoldable pub align_y : List ℕ → ℕ → ℕ
align_y vert text_h =
    if eq_bytes vert (codes "top")
    then visible_y_start
    else if eq_bytes vert (codes "bottom")
    then if ltb text_h visible_height
      then visible_y_start + visible_height - text_h
      else visible_y_start
    else if ltb text_h visible_height
    then visible_y_start + (visible_height - text_h) / 2
    else visible_y_start

pub record BounceBox : Type 0 where
  pub min_x : ℤ
  pub max_x : ℤ
  pub min_y : ℤ
  pub max_y : ℤ

-- A coordinate and its direction.
pub record Moved : Type 0 where
  pub at : ℤ
  pub step : ℤ

-- The reflection of one coordinate that has moved.
unfoldable pub reflect : ℤ → ℤ → ℤ → ℤ → Moved
reflect at step low high =
    if lez high at
    then record { at = high; step = neg (abs step) }
    else if lez at low
    then record { at = low; step = abs step }
    else record { at = at; step = step }

pub record Bounce : Type 0 where
  pub x : ℤ
  pub y : ℤ
  pub dx : ℤ
  pub dy : ℤ

unfoldable pub step_bounce : BounceBox → Bounce → Bounce
step_bounce b s =
    let h = reflect (s.x +ℤ s.dx) s.dx b.min_x b.max_x in
    let v = reflect (s.y +ℤ s.dy) s.dy b.min_y b.max_y in
    record { x = h.at; y = v.at; dx = h.step; dy = v.step }
