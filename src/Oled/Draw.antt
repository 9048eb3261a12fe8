-- ===== src/Oled/Draw.antt =====
-- crates/bootycall-oled/src/renderer.rs: drawing on the back buffer.
-- The crate ab_glyph lays a text out: it yields the pixels that its outlines cover, in order, with
-- their coverage as a byte. It also measures texts.
pub mod Sound
pub mod Steps
pub mod Ends
use booty_call.Prelude.{
  ℕ, zero, suc, ◌+◌, ◌*◌, Bool, true, false, not, ◌&&◌, Option, none, some, List, [], ◌∷◌, ltb, leb,
  max, if◌then◌else◌, get_elem?,
}
use booty_call.Prelude.Ints.{ℤ, pos, negsuc, ◌+ℤ◌, neg, abs, lez, eqz, wrap}
use booty_call.Oled.Framebuffer.{width, height, Framebuffer, set_pixel, at_level}

-- `for i in from..from + n`
abbrev pub for_from : ℕ → ℕ → (ℕ → Framebuffer → Framebuffer) → Framebuffer → Framebuffer
for_from zero from body fb = fb
for_from (suc n) from body fb = for_from n (from + 1) body (body from fb)

unfoldable pub draw_rect : ℕ → ℕ → ℕ → ℕ → ℕ → Framebuffer → Framebuffer
draw_rect x y w h color =
    for_from h 0 (λ dy. for_from w 0 (λ dx. set_pixel (x + dx) (y + dy) color))

abbrev pub bitmap_pixel : ℕ → ℕ → Option ℕ → Framebuffer → Framebuffer
bitmap_pixel x y none fb = fb
bitmap_pixel x y (some pixel) fb = if ltb 64 pixel then set_pixel x y pixel fb else fb

unfoldable pub draw_bitmap : ℕ → ℕ → List ℕ → ℕ → ℕ → Framebuffer → Framebuffer
draw_bitmap x y bmp w h =
    for_from h 0
      (λ dy. for_from w 0 (λ dx. bitmap_pixel (x + dx) (y + dy) (get_elem? bmp (dy * w + dx))))

-- The numbers along a line are `isize`, and every sum wraps.
-- The point, the error, and what stays the same along a line.
pub record Pen : Type 0 where
  pub x : ℤ
  pub y : ℤ
  pub err : ℤ

pub record Line : Type 0 where
  pub end_x : ℤ
  pub end_y : ℤ
  pub dx : ℤ
  pub dy : ℤ
  pub sx : ℤ
  pub sy : ℤ

abbrev pub on_panel : ℤ → ℕ → Option ℕ
on_panel (pos n) bound = if ltb n bound then some n else none
on_panel (negsuc n) bound = none

abbrev pub plot_in : Option ℕ → Option ℕ → ℕ → Framebuffer → Framebuffer
plot_in (some x) (some y) color fb = set_pixel x y color fb
plot_in (some x) none color fb = fb
plot_in none y color fb = fb

-- A pixel is set where the point lies on the panel.
abbrev pub plot_at : ℤ → ℤ → ℕ → Framebuffer → Framebuffer
plot_at x y color fb = plot_in (on_panel x width) (on_panel y height) color fb

-- One round of the loop moves along one axis or both.
unfoldable pub advance_x : Line → ℤ → Pen → Pen
advance_x l e2 p =
    if lez l.dy e2 then record p { err = wrap (p.err +ℤ l.dy); x = wrap (p.x +ℤ l.sx) } else p

unfoldable pub advance_y : Line → ℤ → Pen → Pen
advance_y l e2 p =
    if lez e2 l.dx then record p { err = wrap (p.err +ℤ l.dx); y = wrap (p.y +ℤ l.sy) } else p

abbrev pub advance_pen : Line → Pen → Pen
advance_pen l p = let e2 = wrap (p.err +ℤ p.err) in advance_y l e2 (advance_x l e2 p)

abbrev pub at_end : Line → Pen → Bool
at_end l p = eqz p.x l.end_x && eqz p.y l.end_y

-- The loop, for at most so many rounds; `none` when they do not suffice.
unfoldable pub line_loop : ℕ → Line → ℕ → Pen → Framebuffer → Option Framebuffer
line_loop zero l color p fb = none
line_loop (suc fuel) l color p fb =
    let fb' = plot_at p.x p.y color fb in
    let more = line_loop fuel l color (advance_pen l p) fb' in if at_end l p then some fb' else more

-- `x0 as isize`
abbrev pub as_isize : ℕ → ℤ
as_isize n = wrap (pos n)

abbrev pub step_towards : ℤ → ℤ → ℤ
step_towards from to = if not (lez to from) then pos 1 else negsuc 0

-- `(to - from).abs()`
abbrev pub apart : ℤ → ℤ → ℤ
apart from to = wrap (abs (wrap (to +ℤ neg from)))

abbrev pub line_of : ℕ → ℕ → ℕ → ℕ → Line
line_of x0 y0 x1 y1 = record {
  end_x = as_isize x1;
  end_y = as_isize y1;
  dx = apart (as_isize x0) (as_isize x1);
  dy = wrap (neg (apart (as_isize y0) (as_isize y1)));
  sx = step_towards (as_isize x0) (as_isize x1);
  sy = step_towards (as_isize y0) (as_isize y1);
}

abbrev pub start_at : ℤ → ℤ → ℤ → Pen
start_at x y err = record { x = x; y = y; err = err }

unfoldable pub draw_line : ℕ → ℕ → ℕ → ℕ → ℕ → ℕ → Framebuffer → Option Framebuffer
draw_line fuel x0 y0 x1 y1 color fb =
    let l = line_of x0 y0 x1 y1 in
    line_loop fuel l color (start_at (as_isize x0) (as_isize y0) (wrap (l.dx +ℤ l.dy))) fb

-- A pixel that a glyph covers.
pub record Covered : Type 0 where
  pub px : ℤ
  pub py : ℤ
  pub alpha : ℕ

abbrev pub blend_in : Option ℕ → Option ℕ → ℕ → Framebuffer → Framebuffer
blend_in (some x) (some y) alpha fb =
    if ltb 0 alpha
    then set_pixel x y (max (at_level (get_elem? fb.buffer (y * width + x))) alpha) fb
    else fb
blend_in (some x) none alpha fb = fb
blend_in none y alpha fb = fb

-- The callback that blends the coverage into the buffer.
unfoldable pub blend : List Covered → Framebuffer → Framebuffer
blend [] fb = fb
blend (c ∷ cs) fb = blend cs (blend_in (on_panel c.px width) (on_panel c.py height) c.alpha fb)

-- The dots of the letters T, A, R and S, by column and row.
abbrev pub letters : List (List (Bool × Bool))
letters =
    ((false, true) ∷ (true, true) ∷ (true, false) ∷ [])
    ∷ ((true, false) ∷ (false, false) ∷ (false, false) ∷ [])
    ∷ ((true, false) ∷ (true, true) ∷ (true, false) ∷ [])
    ∷ ((false, true) ∷ (true, false) ∷ (true, false) ∷ [])
    ∷ []

abbrev pub dot : Bool → ℕ → ℕ → Framebuffer → Framebuffer
dot false x y fb = fb
dot true x y fb = draw_rect x y 2 2 255 fb

abbrev pub draw_rows : ℕ → ℕ → ℕ → ℕ → List (Bool × Bool) → Framebuffer → Framebuffer
draw_rows char_x dot_y col_dist row_dist [] fb = fb
draw_rows char_x dot_y col_dist row_dist ((left, right) ∷ rows) fb =
    draw_rows char_x (dot_y + row_dist) col_dist row_dist rows
      (dot right (char_x + col_dist) dot_y (dot left char_x dot_y fb))

abbrev pub draw_letters : ℕ → ℕ → ℕ → ℕ → ℕ → List (List (Bool × Bool)) → Framebuffer → Framebuffer
draw_letters char_x y_start col_dist row_dist char_dist [] fb = fb
draw_letters char_x y_start col_dist row_dist char_dist (rows ∷ more) fb =
    draw_letters (char_x + char_dist) y_start col_dist row_dist char_dist more
      (draw_rows char_x y_start col_dist row_dist rows fb)

unfoldable pub draw_braille : ℕ → ℕ → ℕ → ℕ → ℕ → Framebuffer → Framebuffer
draw_braille x_start y_start col_dist row_dist char_dist fb =
    draw_letters x_start y_start col_dist row_dist char_dist letters fb
