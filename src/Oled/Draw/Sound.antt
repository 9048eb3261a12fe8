-- ===== src/Oled/Draw/Sound.antt =====
-- crates/bootycall-oled/src/renderer.rs: nothing that is drawn breaks the back buffer.
use booty_call.Prelude.{
  ℕ, zero, suc, ◌+◌, ◌*◌, ◌<◌, ◌≡◌, refl, Bool, true, false, Option, none, some, List, [], ◌∷◌, ltb,
  All, get_elem?, arith, Bool-cases, inl, inr,
}
use booty_call.Prelude.Bytes.{IsByte}
use booty_call.Oled.Framebuffer.{width, height, Framebuffer, set_pixel, at_level}
use booty_call.Oled.Draw.{
  for_from, draw_rect, bitmap_pixel, draw_bitmap, Covered, on_panel, blend_in, blend, dot,
  draw_rows, letters, draw_letters, draw_braille, Pen, Line, plot_in, advance_pen, at_end,
  line_loop,
}

All-get_elem? : (xs : List ℕ) (i v : ℕ) → All IsByte xs → get_elem? xs i ≡ some v → v < 256
All-get_elem? [] i v h e = cc
All-get_elem? (x ∷ xs) zero v h e = let same : x ≡ v = cc in omega (arith, h.0)
All-get_elem? (x ∷ xs) (suc i) v h e = All-get_elem? xs i v h.1 e

-- The coverage is a byte.
abbrev pub AreCovered : List Covered → Type 0
AreCovered = All (λ c. c.alpha < 256)

at_level-byte : (xs : List ℕ) (i : ℕ) → All IsByte xs → at_level (get_elem? xs i) < 256
at_level-byte [] i h = omega arith
at_level-byte (x ∷ xs) zero h = h.0
at_level-byte (x ∷ xs) (suc i) h = at_level-byte xs i h.1

-- What every pixel that is set keeps, given that it keeps the levels of the buffer bytes.
module _ (P : Framebuffer → Type 0) (bytes : (fb : Framebuffer) → P fb → All IsByte fb.buffer)
    (plots : (x y color : ℕ) (fb : Framebuffer)
      → color < 256
      → P fb
      → P (set_pixel x y color fb)) where
  for_from-keeps :
      (n from : ℕ) (body : ℕ → Framebuffer → Framebuffer) (fb : Framebuffer)
      → ((i : ℕ) (g : Framebuffer) → P g → P (body i g))
      → P fb
      → P (for_from n from body fb)
  for_from-keeps zero from body fb keeps s = s
  for_from-keeps (suc n) from body fb keeps s =
      for_from-keeps n (from + 1) body (body from fb) keeps (keeps from fb s)

  pub draw_rect-keeps :
      (x y w h color : ℕ) (fb : Framebuffer) → color < 256 → P fb → P (draw_rect x y w h color fb)
  unfolding draw_rect
  draw_rect-keeps x y w h color fb c s =
      for_from-keeps h 0 _ fb
        (λ dy g k. for_from-keeps w 0 _ g (λ dx g' k'. plots (x + dx) (y + dy) color g' c k') k) s

  bitmap_pixel-keeps :
      (x y : ℕ) (p : Option ℕ) (fb : Framebuffer)
      → ((v : ℕ) → p ≡ some v → v < 256)
      → P fb
      → P (bitmap_pixel x y p fb)
  bitmap_pixel-keeps x y none fb small s = s
  bitmap_pixel-keeps x y (some v) fb small s = elim (Bool-cases (ltb 64 v)) [
    | inl bright ↦ rw bright (plots x y v fb (small v refl) s)
    | inr dim ↦ rw dim s
  ]

  pub draw_bitmap-keeps :
      (x y : ℕ) (bmp : List ℕ) (w h : ℕ) (fb : Framebuffer)
      → All IsByte bmp
      → P fb
      → P (draw_bitmap x y bmp w h fb)
  unfolding draw_bitmap
  draw_bitmap-keeps x y bmp w h fb b s =
      for_from-keeps h 0 _ fb
        (λ dy g k.
          for_from-keeps w 0 _ g
            (λ dx g' k'.
              bitmap_pixel-keeps (x + dx) (y + dy) _ g'
                (λ v e. All-get_elem? bmp (dy * w + dx) v b e) k')
            k)
        s

  blend_in-keeps :
      (x y : Option ℕ) (alpha : ℕ) (fb : Framebuffer)
      → alpha < 256
      → P fb
      → P (blend_in x y alpha fb)
  blend_in-keeps none y alpha fb a s = s
  blend_in-keeps (some x) none alpha fb a s = s
  blend_in-keeps (some x) (some y) alpha fb a s = elim (Bool-cases (ltb 0 alpha)) [
    | inr e ↦ rw e s
    | inl e ↦
        let old = at_level-byte fb.buffer (y * width + x) (bytes fb s) in
        rw e (plots x y _ fb (omega (arith, old, a)) s)
  ]

  pub blend-keeps : (cs : List Covered) (fb : Framebuffer) → AreCovered cs → P fb → P (blend cs fb)
  unfolding blend
  blend-keeps [] fb a s = s
  blend-keeps (c ∷ cs) fb a s =
      blend-keeps cs _ a.1
        (blend_in-keeps (on_panel c.px width) (on_panel c.py height) c.alpha fb a.0 s)

  dot-keeps : (b : Bool) (x y : ℕ) (fb : Framebuffer) → P fb → P (dot b x y fb)
  dot-keeps false x y fb s = s
  dot-keeps true x y fb s = draw_rect-keeps x y 2 2 255 fb (omega arith) s

  draw_rows-keeps :
      (x y col row : ℕ) (rows : List (Bool × Bool)) (fb : Framebuffer)
      → P fb
      → P (draw_rows x y col row rows fb)
  draw_rows-keeps x y col row [] fb s = s
  draw_rows-keeps x y col row ((left, right) ∷ rows) fb s =
      draw_rows-keeps x (y + row) col row rows _
        (dot-keeps right (x + col) y _ (dot-keeps left x y fb s))

  draw_letters-keeps :
      (x y col row char : ℕ) (ls : List (List (Bool × Bool))) (fb : Framebuffer)
      → P fb
      → P (draw_letters x y col row char ls fb)
  draw_letters-keeps x y col row char [] fb s = s
  draw_letters-keeps x y col row char (l ∷ ls) fb s =
      draw_letters-keeps (x + char) y col row char ls _ (draw_rows-keeps x y col row l fb s)

  pub draw_braille-keeps :
      (x y col row char : ℕ) (fb : Framebuffer) → P fb → P (draw_braille x y col row char fb)
  unfolding draw_braille
  draw_braille-keeps x y col row char fb s = draw_letters-keeps x y col row char letters fb s

  plot_in-keeps :
      (x y : Option ℕ) (color : ℕ) (fb : Framebuffer)
      → color < 256
      → P fb
      → P (plot_in x y color fb)
  plot_in-keeps none y color fb c s = s
  plot_in-keeps (some x) none color fb c s = s
  plot_in-keeps (some x) (some y) color fb c s = plots x y color fb c s

  abbrev pub KeptIfDrawn : Option Framebuffer → Type 0
  KeptIfDrawn none = Unit
  KeptIfDrawn (some fb) = P fb

  pub line_loop-keeps :
      (fuel : ℕ) (l : Line) (color : ℕ) (p : Pen) (fb : Framebuffer)
      → color < 256
      → P fb
      → KeptIfDrawn (line_loop fuel l color p fb)
  unfolding line_loop
  line_loop-keeps zero l color p fb c s = tt
  line_loop-keeps (suc fuel) l color p fb c s =
      let s' = plot_in-keeps (on_panel p.x width) (on_panel p.y height) color fb c s in
      elim (Bool-cases (at_end l p)) [
        | inl there ↦ rw (there, KeptIfDrawn) s'
        | inr away ↦ rw (away, KeptIfDrawn) (line_loop-keeps fuel l color (advance_pen l p) _ c s')
      ]
