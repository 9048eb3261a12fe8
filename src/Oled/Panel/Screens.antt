-- ===== src/Oled/Panel/Screens.antt =====
-- crates/bootycall-oled/src/lib.rs: what holds of the screen after every round of the render loop.
use mathlib.Core.Path.{subst}
use booty_call.Prelude.{
  ℕ, ◌-◌, ◌<◌, ◌≡◌, refl, sym, ◌∙◌, Bool, true, false, ◌&&◌, ◌||◌, ◌==◌, List, [], ◌∷◌, ltb, leb,
  length-replicate, ◌*◌, arith, Bool-cases, inl, inr,
}
use booty_call.Oled.Framebuffer.{
  width, height, Framebuffer, set_pixel, set_brightness, clear, write_held, opened, ensure_open,
  write_packed,
}
use booty_call.Oled.Framebuffer.Pixels.{IsSound, black, set_brightness-IsSound, set_pixel-IsSound}
use booty_call.Oled.Layout.{DisplayMode, screensaver, metrics, mode_brightness}
use booty_call.Oled.Draw.Sound.{draw_braille-keeps}
use booty_call.Oled.Panel.{
  Round, Screen, seconds, screensaver_timeout, page_duration, page_count, poll_lines, check_ssh,
  choose_mode, dim, flip_page, draw_screensaver, draw_page, draw_mode, compose, present,
  render_round,
}

-- The buffer is sound and its table is the one of this brightness.
abbrev pub IsLit : ℕ → Framebuffer → Type 0
IsLit b fb = IsSound fb × (fb.brightness ≡ b)

set_brightness-IsLit : (b : ℕ) (fb : Framebuffer) → IsSound fb → IsLit b (set_brightness b fb)
unfolding set_brightness
set_brightness-IsLit b fb s = (
  set_brightness-IsSound b fb s,
  elim (Bool-cases (b == fb.brightness)) [
    | inl same ↦ simp same (ground arith)
    | inr other ↦ simp other refl
  ],
)

set_pixel-brightness :
    (x y color : ℕ) (fb : Framebuffer) → (set_pixel x y color fb).brightness ≡ fb.brightness
unfolding set_pixel
set_pixel-brightness x y color fb = elim (Bool-cases (ltb x width && ltb y height)) [
  | inl inside ↦ rw inside refl
  | inr outside ↦ rw outside refl
]

pub set_pixel-IsLit :
    (b x y color : ℕ) (fb : Framebuffer)
    → color < 256
    → IsLit b fb
    → IsLit b (set_pixel x y color fb)
set_pixel-IsLit b x y color fb c h =
    (set_pixel-IsSound x y color fb c h.0, set_pixel-brightness x y color fb ∙ h.1)

clear-IsLit : (b : ℕ) (fb : Framebuffer) → IsLit b fb → IsLit b (clear fb)
unfolding clear
clear-IsLit b fb h = (
  record { size = length-replicate {A = ℕ} (width * height) 0; levels = black; table = h.0.table },
  h.1,
)

-- The screen between two rounds.
pub record IsScreen (brightness : ℕ) (s : Screen) : Type 0 where
  pub lit : IsLit (mode_brightness brightness s.current_mode) s.fb
  pub page : s.page_index < page_count

-- A flag of the frame buffer that is no part of what is shown.
file-IsLit :
    (b : ℕ) (file : Bool) (fb : Framebuffer) → IsLit b fb → IsLit b (record fb { file = file })
file-IsLit b file fb h = (record { size = h.0.size; levels = h.0.levels; table = h.0.table }, h.1)

opened-IsLit :
    (b : ℕ) (file opens : Bool) (fb : Framebuffer) → IsLit b fb → IsLit b (opened file opens fb)
opened-IsLit b true opens fb h = h
opened-IsLit b false opens fb h = file-IsLit b opens fb h

write_held-IsLit :
    (b : ℕ) (file writes : Bool) (fb : Framebuffer)
    → IsLit b fb
    → IsLit b (write_held file writes fb).fb
write_held-IsLit b false writes fb h = h
write_held-IsLit b true true fb h = h
write_held-IsLit b true false fb h = file-IsLit b false fb h

present-IsLit :
    (b : ℕ) (opens writes available : Bool) (fb : Framebuffer)
    → IsLit b fb
    → IsLit b (present opens writes available fb).fb
unfolding present ensure_open write_packed
present-IsLit b opens writes available fb h =
    write_held-IsLit b _ writes _ (opened-IsLit b fb.file opens fb h)

-- The choice of the mode leaves the buffer and the page alone.
abbrev Same : Screen → Screen → Type 0
Same s t = (t.fb ≡ s.fb) × (t.page_index ≡ s.page_index)

check_ssh-Same : (r : Round) (s : Screen) → Same s (check_ssh r s)
unfolding check_ssh
check_ssh-Same r s = elim (Bool-cases (leb (seconds 5) (r.now - s.last_ssh_check))) [
  | inl due ↦ simp due (refl, refl)
  | inr early ↦ simp early (refl, refl)
]

choose_mode-Same : (r : Round) (s : Screen) → Same s (choose_mode r s)
unfolding choose_mode
choose_mode-Same r s = elim (Bool-cases (s.active_ssh || r.active_pxe)) [
  | inl active ↦ simp active (refl, refl)
  | inr quiet ↦ elim (Bool-cases (ltb screensaver_timeout (r.mode_at - s.last_activity))) [
    | inl idle ↦ simp (quiet, idle) (refl, refl)
    | inr recent ↦ simp (quiet, recent) (refl, refl)
  ]
]

prepared : ℕ → Round → Screen → Screen
prepared brightness r s = dim brightness (choose_mode r (check_ssh r (poll_lines r s)))

prepared-IsScreen :
    (brightness : ℕ) (r : Round) (s : Screen)
    → IsScreen brightness s
    → IsScreen brightness (prepared brightness r s)
unfolding prepared dim poll_lines
prepared-IsScreen brightness r s h =
    let (fb1, page1) = check_ssh-Same r (poll_lines r s) in
    let (fb2, page2) = choose_mode-Same r (check_ssh r (poll_lines r s)) in
    record {
      lit = set_brightness-IsLit _ _ (subst IsSound (sym (fb2 ∙ fb1)) h.lit.0);
      page = subst (λ n. n < page_count) (sym (page2 ∙ page1)) h.page;
    }

flip_page-IsScreen :
    (brightness : ℕ) (r : Round) (s : Screen)
    → IsScreen brightness s
    → IsScreen brightness (flip_page r s)
unfolding flip_page
flip_page-IsScreen brightness r s h =
    elim (Bool-cases (ltb page_duration (r.page_at - s.last_page_flip))) [
      | inl due ↦ simp due (record { lit = h.lit; page = omega arith })
      | inr early ↦ simp early h
    ]

module _ (width_tars : ℕ) (title : ℕ → ℕ → Framebuffer → Framebuffer)
    (page : ℕ → Framebuffer → Framebuffer)
    (title_lit : (b x y : ℕ) (fb : Framebuffer) → IsLit b fb → IsLit b (title x y fb))
    (page_lit : (b n : ℕ) (fb : Framebuffer) → IsLit b fb → IsLit b (page n fb)) where
  draw_screensaver-IsScreen :
      (brightness : ℕ) (s : Screen)
      → IsScreen brightness s
      → IsScreen brightness (draw_screensaver width_tars title page s)
  unfolding draw_screensaver
  draw_screensaver-IsScreen brightness s h =
      let b = mode_brightness brightness s.current_mode in
      record {
        lit =
            draw_braille-keeps (IsLit b) (λ fb k. k.0.levels)
              (λ x y color fb c k. set_pixel-IsLit b x y color fb c k) _ _ 3 3 8 _
              (title_lit b _ _ _ (clear-IsLit b s.fb h.lit));
        page = h.page;
      }

  draw_page-IsScreen :
      (brightness : ℕ) (s : Screen)
      → IsScreen brightness s
      → IsScreen brightness (draw_page width_tars title page s)
  unfolding draw_page
  draw_page-IsScreen brightness s h =
      let b = mode_brightness brightness s.current_mode in
      record { lit = page_lit b _ _ (clear-IsLit b s.fb h.lit); page = h.page }

  draw_mode-IsScreen :
      (brightness : ℕ) (mode : DisplayMode) (r : Round) (s : Screen)
      → IsScreen brightness s
      → IsScreen brightness (draw_mode width_tars title page mode r s)
  unfolding draw_mode
  draw_mode-IsScreen brightness screensaver r s h = draw_screensaver-IsScreen brightness s h
  draw_mode-IsScreen brightness metrics r s h =
      draw_page-IsScreen brightness _ (flip_page-IsScreen brightness r s h)

  render_round-IsScreen :
      (brightness : ℕ) (r : Round) (s : Screen)
      → IsScreen brightness s
      → IsScreen brightness (render_round width_tars title page brightness r s).screen
  unfolding render_round compose prepared
  render_round-IsScreen brightness r s h =
      let t = prepared brightness r s in
      let drawn =
        draw_mode-IsScreen brightness t.current_mode r t (prepared-IsScreen brightness r s h) in
      record {
        lit = present-IsLit _ _ _ _ _ (
          record {
            size = drawn.lit.0.size;
            levels = drawn.lit.0.levels;
            table = drawn.lit.0.table;
          },
          drawn.lit.1,
        );
        page = drawn.page;
      }

  -- The screen after some rounds.
  unfoldable pub after : ℕ → List Round → Screen → Screen
  after brightness [] s = s
  after brightness (r ∷ rs) s =
      after brightness rs (render_round width_tars title page brightness r s).screen

  -- After any rounds, whatever the clock, the hosts, the lines and the device do: the back buffer has a byte for
  -- each pixel, its colour table is that of the brightness of the mode in which it is, and the page is
  -- one of the eight. For this the drawing of titles and pages must only set pixels.
  pub after-IsScreen :
      (brightness : ℕ) (rs : List Round) (s : Screen)
      → IsScreen brightness s
      → IsScreen brightness (after brightness rs s)
  unfolding after
  after-IsScreen brightness [] s h = h
  after-IsScreen brightness (r ∷ rs) s h =
      after-IsScreen brightness rs _ (render_round-IsScreen brightness r s h)
