-- ===== src/Oled/Page.antt =====
-- crates/bootycall-oled/src/lib.rs and renderer.rs: texts, the metrics page, and the test of a text.
-- `layout` is what the crate ab_glyph makes of a text in the large or small font at a point, and `measure` the width
-- that it tells.
use booty_call.Prelude.{
  ℕ, ◌+◌, ◌-◌, ◌/◌, ◌<◌, Bool, true, false, Option, none, some, List, ltb, if◌then◌else◌, All,
  arith,
}
use booty_call.Prelude.Bytes.{IsByte}
use booty_call.Oled.Framebuffer.{width, Framebuffer, set_pixel}
use booty_call.Oled.Layout.{visible_y_start}
use booty_call.Oled.Draw.{Covered, blend, draw_bitmap, draw_line}
use booty_call.Oled.Draw.Sound.{
  AreCovered, KeptIfDrawn, blend-keeps, draw_bitmap-keeps, line_loop-keeps,
}
use booty_call.Oled.Panel.Screens.{IsLit, set_pixel-IsLit}

abbrev pub metrics_margin_x : ℕ
metrics_margin_x = 12

abbrev pub metrics_text_x : ℕ
metrics_text_x = 32

abbrev pub metrics_label_dy : ℕ
metrics_label_dy = 2

abbrev pub metrics_separator_dy : ℕ
metrics_separator_dy = 15

abbrev pub metrics_value_dy : ℕ
metrics_value_dy = 16

abbrev pub metrics_separator_brightness : ℕ
metrics_separator_brightness = 128

-- The line that was drawn; `draw_line_ends` has it drawn in so many rounds.
abbrev pub or_undrawn : Framebuffer → Option Framebuffer → Framebuffer
or_undrawn fb none = fb
or_undrawn fb (some drawn) = drawn

-- The pixels of an icon are bytes.
abbrev pub AreIcons : Option (List ℕ) → Type 0
AreIcons none = Unit
AreIcons (some icon) = All IsByte icon

module _ (layout : List ℕ → Bool → ℕ → ℕ → List Covered) (measure : List ℕ → Bool → ℕ) where
  unfoldable pub draw_text : ℕ → ℕ → List ℕ → Bool → Framebuffer → Framebuffer
  draw_text x y text use_large_font fb = blend (layout text use_large_font x y) fb

  abbrev pub separator : Framebuffer → Framebuffer
  separator fb = or_undrawn fb (
      draw_line (width + 1) metrics_margin_x (visible_y_start + metrics_separator_dy)
        (width - metrics_margin_x) (visible_y_start + metrics_separator_dy)
        metrics_separator_brightness fb)

  abbrev pub draw_icon : Option (List ℕ) → ℕ → Framebuffer → Framebuffer
  draw_icon none icon_dy fb = fb
  draw_icon (some icon_bytes) icon_dy fb =
      separator (draw_bitmap metrics_margin_x (visible_y_start + icon_dy) icon_bytes 16 16 fb)

  abbrev pub value_x : ℕ → ℕ
  value_x text_w = if ltb text_w width then (width - text_w) / 2 else 0

  unfoldable pub draw_metrics_page :
      List ℕ → List ℕ → Option (List ℕ) → ℕ → Framebuffer → Framebuffer
  draw_metrics_page label value icon icon_dy fb =
      draw_text (value_x (measure value true)) (visible_y_start + metrics_value_dy) value true (
        draw_text metrics_text_x (visible_y_start + metrics_label_dy) label false
          (draw_icon icon icon_dy fb))

  module _ (covered : (text : List ℕ) (large : Bool) (x y : ℕ) → AreCovered (layout text large x y))
      (b : ℕ) where
    abbrev plots :
        (x y color : ℕ) (fb : Framebuffer)
        → color < 256
        → IsLit b fb
        → IsLit b (set_pixel x y color fb)
    plots x y color fb c h = set_pixel-IsLit b x y color fb c h

    abbrev levels : (fb : Framebuffer) → IsLit b fb → All IsByte fb.buffer
    levels fb h = h.0.levels

    pub draw_text-IsLit :
        (x y : ℕ) (text : List ℕ) (large : Bool) (fb : Framebuffer)
        → IsLit b fb
        → IsLit b (draw_text x y text large fb)
    unfolding draw_text
    draw_text-IsLit x y text large fb h =
        blend-keeps (IsLit b) levels plots (layout text large x y) fb (covered text large x y) h

    or_undrawn-IsLit :
        (fb : Framebuffer) (drawn : Option Framebuffer)
        → IsLit b fb
        → KeptIfDrawn (IsLit b) levels plots drawn
        → IsLit b (or_undrawn fb drawn)
    or_undrawn-IsLit fb none h k = h
    or_undrawn-IsLit fb (some drawn) h k = k

    draw_icon-IsLit :
        (icon : Option (List ℕ)) (icon_dy : ℕ) (fb : Framebuffer)
        → AreIcons icon
        → IsLit b fb
        → IsLit b (draw_icon icon icon_dy fb)
    unfolding draw_line
    draw_icon-IsLit none icon_dy fb i h = h
    draw_icon-IsLit (some icon) icon_dy fb i h =
        let mapped =
          draw_bitmap-keeps (IsLit b) levels plots metrics_margin_x (visible_y_start + icon_dy) icon
            16 16 fb i h in
        or_undrawn-IsLit _ _ mapped (
          line_loop-keeps (IsLit b) levels plots _ _ metrics_separator_brightness _ _ (omega arith)
            mapped)

    -- A page sets only pixels, whatever its texts and its icon are.
    pub draw_metrics_page-IsLit :
        (label value : List ℕ) (icon : Option (List ℕ)) (icon_dy : ℕ) (fb : Framebuffer)
        → AreIcons icon
        → IsLit b fb
        → IsLit b (draw_metrics_page label value icon icon_dy fb)
    unfolding draw_metrics_page
    draw_metrics_page-IsLit label value icon icon_dy fb i h =
        draw_text-IsLit _ _ value true _
          (draw_text-IsLit _ _ label false _ (draw_icon-IsLit icon icon_dy fb i h))
