-- ===== src/Oled/Sample.antt =====
-- crates/bootycall-oled/src/lib.rs: `oled_test`, which shows one text.
-- `layout` is what the crate ab_glyph makes of a text in the bold or regular font, at a scale and a point, and
-- `measure` the width that it tells.
use booty_call.Prelude.{ℕ, Bool, List, [], ◌∷◌, ◌==◌, ltb, if◌then◌else◌}
use booty_call.Prelude.Bytes.{codes}
use booty_call.Oled.Framebuffer.{with_brightness, clear, Written, flush}
use booty_call.Oled.Layout.{align_x, align_y}
use booty_call.Oled.Draw.{Covered, blend}

abbrev pub onto : ℕ → List (List ℕ) → List (List ℕ)
onto b [] = (b ∷ []) ∷ []
onto b (part ∷ parts) = (b ∷ part) ∷ parts

-- `split('-')`
abbrev pub split_dash : List ℕ → List (List ℕ)
split_dash [] = [] ∷ []
split_dash (b ∷ bs) = let rest = split_dash bs in if b == b'-' then [] ∷ rest else onto b rest

-- The horizontal and the vertical part.
unfoldable pub alignment_parts : List (List ℕ) → List ℕ × List ℕ
alignment_parts [] = (codes "left", codes "middle")
alignment_parts (horiz ∷ []) = (horiz, codes "middle")
alignment_parts (horiz ∷ vert ∷ parts) = (horiz, vert)

abbrev pub bold_threshold : ℕ
bold_threshold = 13

abbrev pub full_brightness : ℕ
full_brightness = 255

module _ (layout : List ℕ → Bool → ℕ → ℕ → ℕ → List Covered) (measure : List ℕ → Bool → ℕ → ℕ) where
  -- `opens_first` and `opens` say whether the device opens when the frame buffer is made and when it is
  -- flushed, `writes` whether it takes the frame.
  unfoldable pub oled_test : Bool → Bool → Bool → ℕ → List ℕ → List ℕ → Written
  oled_test opens_first opens writes size alignment text =
      let (horiz, vert) = alignment_parts (split_dash alignment) in
      let use_large_font = ltb bold_threshold size in
      let x = align_x horiz (measure text use_large_font size) in
      let y = align_y vert size in
      flush opens writes (
        blend (layout text use_large_font size x y)
          (clear (with_brightness opens_first full_brightness)))
