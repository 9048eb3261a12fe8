-- ===== src/Tests/Display.antt =====
-- crates/bootycall-oled at concrete inputs.
use booty_call.Prelude.{
  ℕ, ◌*◌, ◌≡◌, refl, Bool, true, false, some, List, [], ◌∷◌, ◌==◌, reverse, length, drop,
  if◌then◌else◌, arith,
}
use booty_call.Prelude.Ints.{pos, negsuc}
use booty_call.Oled.Framebuffer.{Framebuffer, with_brightness, build_lut, pack_buffer, flush}
use booty_call.Oled.Framebuffer.Pixels.{with_brightness-IsSound}
use booty_call.Oled.Framebuffer.Packed.{bytes_of, pack_buffer-build_lut}
use booty_call.Oled.Framebuffer.Device.{IsFlushed, flush-IsFlushed}
use booty_call.Oled.Layout.{metrics, Bounce}
use booty_call.Prelude.Bytes.{codes}
use booty_call.Oled.Draw.{Covered, draw_line}
use booty_call.Oled.Draw.Sound.{AreCovered}
use booty_call.Oled.Page.{draw_text, draw_metrics_page, draw_text-IsLit, draw_metrics_page-IsLit}
use booty_call.Oled.Draw.Ends.{draw_line_ends}
use booty_call.Oled.Panel.{Round, Screen}
use booty_call.Oled.Panel.Screens.{IsScreen, after, after-IsScreen}
use booty_call.Oled.Panel.Truthful.{panel_log, news, answers, OnlyFirstGone, panel_log-IsTruthful}
use booty_call.Oled.Png.{be32, adler32, zlib_store}
use booty_call.Oled.Png.Inflate.{inflate_stored, inflate-zlib_store}

abbrev panel : Framebuffer
panel = with_brightness false 200

line_example : (drawn : Framebuffer) × (draw_line 200 12 43 148 40 128 panel ≡ some drawn)
line_example =
    draw_line_ends 12 43 148 40 (omega arith) (omega arith) (omega arith) (omega arith) 200 128
      panel (omega arith)

pack_example :
    pack_buffer (0 ∷ 128 ∷ 255 ∷ []) (build_lut 200) 0
    ≡ bytes_of 200 (if 0 == 0 then reverse (0 ∷ 128 ∷ 255 ∷ []) else 0 ∷ 128 ∷ 255 ∷ [])
pack_example =
    pack_buffer-build_lut (0 ∷ 128 ∷ 255 ∷ []) 200 0 (omega arith, (omega arith, (omega arith, tt)))

flush_example :
    IsFlushed true false panel (flush true false panel).result (flush true false panel).fb
flush_example = flush-IsFlushed true false panel

abbrev moving : Bounce
moving = record { x = pos 3; y = pos 28; dx = negsuc 4; dy = pos 1 }

abbrev frames : List (Bool × Bool)
frames = (false, true) ∷ (false, true) ∷ (true, true) ∷ (true, false) ∷ []

panel_example :
    (panel_log frames true panel ≡ news true (answers panel.file frames))
    × OnlyFirstGone (panel_log frames true panel)
panel_example = panel_log-IsTruthful frames true panel

zlib_example :
    inflate_stored (length {A = ℕ} (1 ∷ 2 ∷ 3 ∷ [])) (drop 2 (zlib_store (1 ∷ 2 ∷ 3 ∷ [])))
    ≡ some (1 ∷ 2 ∷ 3 ∷ [], be32 (adler32 (1 ∷ 2 ∷ 3 ∷ [])))
zlib_example = inflate-zlib_store 1 (2 ∷ 3 ∷ [])

abbrev round : ℕ → Bool → Round
round now active = record {
  now = now;
  mode_at = now;
  page_at = now;
  ssh = false;
  active_pxe = active;
  detect_granted = true;
  enable_granted = false;
  reads_inactive = true;
  opens = true;
  writes = false;
  shutdown = false;
}

abbrev first_screen : Screen
first_screen = record {
  detect_line = record { request = false; last_attempt = 0 };
  enable_line = record { request = false; last_attempt = 0 };
  fb = panel;
  fb_available = true;
  last_activity = 0;
  current_mode = metrics;
  page_index = 0;
  last_page_flip = 0;
  bounce = record { x = pos 0; y = pos 28; dx = pos 1; dy = pos 1 };
  last_ssh_check = 0;
  active_ssh = false;
}

first_screen-IsScreen : IsScreen 200 first_screen
unfolding booty_call.Oled.Layout.mode_brightness with_brightness
first_screen-IsScreen = record {
  lit = (with_brightness-IsSound false 200, refl);
  page = omega arith;
}

-- A stand-in for the fonts, of one pixel for each text.
abbrev layout : List ℕ → Bool → ℕ → ℕ → List Covered
layout text large x y = record { px = pos x; py = pos y; alpha = 200 } ∷ []

layout-covered : (text : List ℕ) (large : Bool) (x y : ℕ) → AreCovered (layout text large x y)
layout-covered text large x y = (omega arith, tt)

abbrev measure : List ℕ → Bool → ℕ
measure text large = length text * 8

abbrev title : ℕ → ℕ → Framebuffer → Framebuffer
title x y = draw_text layout measure x y (codes "TARS") false

abbrev page : ℕ → Framebuffer → Framebuffer
page n = draw_metrics_page layout measure (codes "KERNEL") (codes "6.1") (some (200 ∷ [])) 0

after_example : IsScreen 200 (
    after 32 title page
      (λ b x y fb h. draw_text-IsLit layout measure layout-covered b x y (codes "TARS") false fb h)
      (λ b n fb h.
        draw_metrics_page-IsLit layout measure layout-covered b
          (codes "KERNEL")
          (codes "6.1")
          (some (200 ∷ []))
          0
          fb
          (omega arith, tt)
          h)
      200
      (round 1_000_000_000 true ∷ round 200_000_000_000 false ∷ [])
      first_screen)
after_example =
    after-IsScreen 32 title page
      (λ b x y fb h. draw_text-IsLit layout measure layout-covered b x y (codes "TARS") false fb h)
      (λ b n fb h.
        draw_metrics_page-IsLit layout measure layout-covered b (codes "KERNEL") (codes "6.1")
          (some (200 ∷ [])) 0 fb (omega arith, tt) h)
      200 (round 1_000_000_000 true ∷ round 200_000_000_000 false ∷ []) first_screen
      first_screen-IsScreen
