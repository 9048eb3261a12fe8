-- ===== src/Oled/Draw/Ends.antt =====
-- crates/bootycall-oled/src/renderer.rs: the loop of `draw_line` ends.
use booty_call.Prelude.{
  ℕ, zero, suc, ◌+◌, ◌*◌, ◌^◌, ◌≤◌, ◌<◌, ◌≡◌, inl, inr, refl, sym, ap, ◌∙◌, true, false, ◌&&◌, some,
  leb, ◌==◌, arith, Bool-cases,
}
use booty_call.Prelude.Ints.{pos, ◌⊖◌, ◌+ℤ◌, neg, lez, wrap, wrap-pos, wrap-difference}
use booty_call.Oled.Framebuffer.{Framebuffer}
use booty_call.Oled.Draw.{
  Pen, Line, plot_at, advance_x, advance_y, advance_pen, at_end, line_loop, as_isize, step_towards,
  start_at, line_of, draw_line,
}
use booty_call.Oled.Draw.Steps.{
  dist, walk, leb_le, double, apart-dist, wrap-neg, wrap-walk, double_ge, double_le, minus, plus,
  walk_zero, walk_step, walk_end, some_step, start_err, not_past_x, not_past_y,
}

-- The coordinates are below 2^61, so that twice the error fits an `isize` along the whole line.
module _ (x0 y0 x1 y1 : ℕ) (x0_small : x0 < 2 ^ 61) (y0_small : y0 < 2 ^ 61)
    (x1_small : x1 < 2 ^ 61) (y1_small : y1 < 2 ^ 61) where
  abbrev line : Line
  line = line_of x0 y0 x1 y1

  abbrev width_of : ℕ
  width_of = dist x0 x1

  abbrev height_of : ℕ
  height_of = dist y0 y1

  abbrev gain : ℕ → ℕ
  gain j = j * width_of + width_of

  abbrev loss : ℕ → ℕ
  loss i = i * height_of + height_of

  -- The pen after `i` steps along one axis and `j` along the other.
  record IsAt (i j : ℕ) (p : Pen) : Type 0 where
    x : p.x ≡ walk x0 x1 i
    y : p.y ≡ walk y0 y1 j
    err : p.err ≡ gain j ⊖ loss i
    inside_x : i ≤ width_of
    inside_y : j ≤ height_of
    low : loss i ≤ gain j + 2 * height_of
    high : gain j ≤ loss i + 2 * width_of

  dx_is : line.dx ≡ pos width_of
  dx_is = apart-dist x0 x1 x0_small x1_small

  dy_is : line.dy ≡ neg (pos height_of)
  dy_is =
      ap (λ z. wrap (neg z)) (apart-dist y0 y1 y0_small y1_small)
      ∙ wrap-neg height_of (omega (arith, y0_small, y1_small))

  sx_is : line.sx ≡ step_towards (pos x0) (pos x1)
  sx_is = rw (wrap-pos x0 (omega (arith, x0_small)), wrap-pos x1 (omega (arith, x1_small))) refl

  sy_is : line.sy ≡ step_towards (pos y0) (pos y1)
  sy_is = rw (wrap-pos y0 (omega (arith, y0_small)), wrap-pos y1 (omega (arith, y1_small))) refl

  end_x_is : line.end_x ≡ pos x1
  end_x_is = wrap-pos x1 (omega (arith, x1_small))

  end_y_is : line.end_y ≡ pos y1
  end_y_is = wrap-pos y1 (omega (arith, y1_small))

  -- The error, and twice the error, do not wrap.
  err_fits : (a b : ℕ) → b ≤ a + 2 * height_of → a ≤ b + 2 * width_of → wrap (a ⊖ b) ≡ a ⊖ b
  err_fits a b low high =
      wrap-difference a b (omega (arith, x0_small, x1_small, high))
        (omega (arith, y0_small, y1_small, low))

  e2_is :
      (i j : ℕ) (p : Pen)
      → IsAt i j p
      → wrap (p.err +ℤ p.err) ≡ (gain j ⊖ loss i) +ℤ (gain j ⊖ loss i)
  e2_is i j p h =
      ap (λ z. wrap (z +ℤ z)) h.err
      ∙ ap wrap (double (gain j) (loss i))
      ∙ wrap-difference (gain j + gain j) (loss i + loss i)
          (omega (arith, x0_small, x1_small, h.high)) (omega (arith, y0_small, y1_small, h.low))
      ∙ sym (double (gain j) (loss i))

  at_end_iff :
      (i j : ℕ) (p : Pen) → IsAt i j p → at_end line p ≡ ((i == width_of) && (j == height_of))
  at_end_iff i j p h =
      rw (h.x, h.y, end_x_is, end_y_is)
        (rw (walk_end x0 x1 i h.inside_x, walk_end y0 y1 j h.inside_y) refl)

  x_moved :
      (i j : ℕ) (p : Pen)
      → IsAt i j p
      → i < width_of
      → loss i + loss i ≤ gain j + gain j + height_of
      → IsAt (i + 1) j (record p { err = wrap (p.err +ℤ line.dy); x = wrap (p.x +ℤ line.sx) })
  x_moved i j p h room test =
      let still_low : loss (i + 1) ≤ gain j + 2 * height_of = omega (arith, test) in
      let still_high : gain j ≤ loss (i + 1) + 2 * width_of = omega (arith, h.high) in
      record {
        x =
            ap (λ z. wrap (z +ℤ line.sx)) h.x
            ∙ ap (λ z. wrap (walk x0 x1 i +ℤ z)) sx_is
            ∙ ap wrap (walk_step x0 x1 i room)
            ∙ wrap-walk x0 x1 (i + 1) x0_small x1_small (omega (arith, room));
        y = h.y;
        err =
            ap (λ z. wrap (z +ℤ line.dy)) h.err
            ∙ ap (λ z. wrap ((gain j ⊖ loss i) +ℤ z)) dy_is
            ∙ ap wrap (minus (gain j) (loss i) height_of)
            ∙ ap (λ n. wrap (gain j ⊖ n)) (omega arith)
            ∙ err_fits (gain j) (loss (i + 1)) still_low still_high;
        inside_x = omega arith;
        inside_y = h.inside_y;
        low = still_low;
        high = still_high;
      }

  y_moved :
      (i j : ℕ) (p : Pen)
      → IsAt i j p
      → j < height_of
      → gain j + gain j ≤ loss i + loss i + width_of
      → IsAt i (j + 1) (record p { err = wrap (p.err +ℤ line.dx); y = wrap (p.y +ℤ line.sy) })
  y_moved i j p h room test =
      let still_low : loss i ≤ gain (j + 1) + 2 * height_of = omega (arith, h.low) in
      let still_high : gain (j + 1) ≤ loss i + 2 * width_of = omega (arith, test) in
      record {
        x = h.x;
        y =
            ap (λ z. wrap (z +ℤ line.sy)) h.y
            ∙ ap (λ z. wrap (walk y0 y1 j +ℤ z)) sy_is
            ∙ ap wrap (walk_step y0 y1 j room)
            ∙ wrap-walk y0 y1 (j + 1) y0_small y1_small (omega (arith, room));
        err =
            ap (λ z. wrap (z +ℤ line.dx)) h.err
            ∙ ap (λ z. wrap ((gain j ⊖ loss i) +ℤ z)) dx_is
            ∙ ap wrap (plus (gain j) (loss i) width_of)
            ∙ ap (λ n. wrap (n ⊖ loss i)) (omega arith)
            ∙ err_fits (gain (j + 1)) (loss i) still_low still_high;
        inside_x = h.inside_x;
        inside_y = omega arith;
        low = still_low;
        high = still_high;
      }

  -- One round moves at least once, and never past the end.
  abbrev Moves : ℕ → ℕ → Pen → Type 0
  Moves i j p = (i' : ℕ) × (j' : ℕ) × IsAt i' j' p × (i + j < i' + j')

  pen_step :
      (i j : ℕ) (p : Pen) → IsAt i j p → at_end line p ≡ false → Moves i j (advance_pen line p)
  unfolding advance_x advance_y
  pen_step i j p h away =
      let e2 = wrap (p.err +ℤ p.err) in
      let far = sym (at_end_iff i j p h) ∙ away in
      let x_test : lez line.dy e2 ≡ leb (loss i + loss i) (gain j + gain j + height_of) =
        rw (dy_is, e2_is i j p h) (double_ge (gain j) (loss i) height_of) in
      let y_test : lez e2 line.dx ≡ leb (gain j + gain j) (loss i + loss i + width_of) =
        rw (dx_is, e2_is i j p h) (double_le (gain j) (loss i) width_of) in
      let room_x : lez line.dy e2 ≡ true → i < width_of =
        λ tx. not_past_x i j width_of height_of h.inside_x h.inside_y far (sym x_test ∙ tx) in
      let room_y : lez e2 line.dx ≡ true → j < height_of =
        λ ty. not_past_y i j width_of height_of h.inside_x h.inside_y far (sym y_test ∙ ty) in
      let below : lez line.dy e2 ≡ true → loss i + loss i ≤ gain j + gain j + height_of =
        λ tx. leb_le _ _ (sym x_test ∙ tx) in
      let above : lez e2 line.dx ≡ true → gain j + gain j ≤ loss i + loss i + width_of =
        λ ty. leb_le _ _ (sym y_test ∙ ty) in
      elim (Bool-cases (lez line.dy e2)) [
        | inl tx ↦ elim (Bool-cases (lez e2 line.dx)) [
          | inl ty ↦
              simp (tx, ty)
                (
                  i + 1,
                  j + 1,
                  y_moved (i + 1) j _ (x_moved i j p h (room_x tx) (below tx)) (room_y ty)
                      (omega (arith, above ty)),
                  omega arith,
                )
          | inr ty ↦ simp (tx, ty) (i + 1, j, x_moved i j p h (room_x tx) (below tx), omega arith)
        ]
        | inr tx ↦ elim (Bool-cases (lez e2 line.dx)) [
          | inl ty ↦ simp (tx, ty) (i, j + 1, y_moved i j p h (room_y ty) (above ty), omega arith)
          | inr ty ↦
              absurd
                (some_step (gain j) (loss i) width_of height_of (sym x_test ∙ tx) (sym y_test ∙ ty))
        ]
      ]

  loop_ends :
      (fuel i j color : ℕ) (p : Pen) (fb : Framebuffer)
      → IsAt i j p
      → width_of + height_of < fuel + i + j
      → (drawn : Framebuffer) × (line_loop fuel line color p fb ≡ some drawn)
  unfolding line_loop
  loop_ends zero i j color p fb h enough = absurd (omega (arith, h.inside_x, h.inside_y, enough))
  loop_ends (suc fuel) i j color p fb h enough = elim (Bool-cases (at_end line p)) [
    | inl there ↦ (plot_at p.x p.y color fb, rw there refl)
    | inr away ↦
        let (i', j', h', more) = pen_step i j p h away in
        let (drawn, e) =
          loop_ends fuel i' j' color (advance_pen line p) (plot_at p.x p.y color fb) h'
            (omega (arith, enough, more)) in
        (drawn, rw away e)
  ]

  start : IsAt 0 0 (start_at (as_isize x0) (as_isize y0) (wrap (line.dx +ℤ line.dy)))
  start = record {
    x = wrap-pos x0 (omega (arith, x0_small)) ∙ walk_zero x0 x1;
    y = wrap-pos y0 (omega (arith, y0_small)) ∙ walk_zero y0 y1;
    err =
        rw (dx_is, dy_is) (ap wrap (start_err width_of height_of))
        ∙ err_fits (gain 0) (loss 0) (omega arith) (omega arith);
    low = omega arith;
    high = omega arith;
    inside_x = omega arith;
    inside_y = omega arith;
  }

  -- The loop of a line ends if the coordinates are below 2^61, so that no sum wraps: after one round for each
  -- step of the distances along the two axes, and one, it has reached the end point exactly.
  pub draw_line_ends :
      (fuel color : ℕ) (fb : Framebuffer)
      → dist x0 x1 + dist y0 y1 < fuel
      → (drawn : Framebuffer) × (draw_line fuel x0 y0 x1 y1 color fb ≡ some drawn)
  unfolding draw_line
  draw_line_ends fuel color fb enough = loop_ends fuel 0 0 color _ fb start (omega (arith, enough))
