-- ===== src/Oled/Panel.antt =====
-- crates/bootycall-oled/src/lib.rs: the optional lines, the panel, and the render loop.
-- A time is a number of nanoseconds, and every reading of the clock is given. Texts and icons are drawn by
-- `page` and `title`, which stand for draw_metrics_page on the value of a page and for draw_text on
-- "TARS", since the crate ab_glyph lays the text out and sysinfo yields the values.
pub mod Truthful
pub mod Screens
use booty_call.Prelude.{
  ℕ, ◌+◌, ◌-◌, ◌*◌, ◌%◌, Bool, true, false, not, ◌&&◌, ◌||◌, Option, none, some, List, [], ◌∷◌, ltb,
  leb, if◌then◌else◌,
}
use booty_call.Prelude.Ints.{ℤ, pos, negsuc, ◌⊖◌}
use booty_call.Oled.Framebuffer.{
  width, height, Framebuffer, with_brightness, set_brightness, clear, WriteResult, shown, no_device,
  write_failed, ensure_open, write_packed, flush,
}
use booty_call.Oled.Layout.{
  DisplayMode, screensaver, metrics, mode_brightness, visible_y_start, BounceBox, Bounce,
  step_bounce,
}
use booty_call.Oled.Draw.{draw_braille}

abbrev pub seconds : ℕ → ℕ
seconds n = n * 1_000_000_000

abbrev pub optional_hw_retry_interval : ℕ
optional_hw_retry_interval = seconds 60

unfoldable pub optional_hw_retry_due : ℕ → Bool
optional_hw_retry_due since_last_attempt = leb optional_hw_retry_interval since_last_attempt

-- `request` says whether the line is held.
pub record OptionalGpioLine : Type 0 where
  pub request : Bool
  pub last_attempt : ℕ

-- `acquires` says whether a request would be granted; `duration_since` stops at 0.
unfoldable pub poll_line : Bool → ℕ → OptionalGpioLine → OptionalGpioLine
poll_line acquires now l =
    if not l.request && optional_hw_retry_due (now - l.last_attempt)
    then record { request = acquires; last_attempt = now }
    else l

-- What the panel logs.
pub data PanelLog : Type 0 where
  returned gone write_error : PanelLog

-- The latch of `PanelSink` after a frame, and what is logged.
pub record Latched : Type 0 where
  pub fb_available : Bool
  pub logged : Option PanelLog

unfoldable pub latch : Bool → WriteResult → Latched
latch fb_available (shown packed) =
    if not fb_available
    then record { fb_available = true; logged = some returned }
    else record { fb_available = true; logged = none }
latch fb_available no_device =
    if fb_available
    then record { fb_available = false; logged = some gone }
    else record { fb_available = false; logged = none }
latch fb_available write_failed = record { fb_available = false; logged = some write_error }

pub record Presented : Type 0 where
  pub fb : Framebuffer
  pub fb_available : Bool
  pub result : WriteResult
  pub logged : Option PanelLog

unfoldable pub present : Bool → Bool → Bool → Framebuffer → Presented
present opens writes fb_available fb =
    let w = write_packed writes (ensure_open opens fb) in
    let l = latch fb_available w.result in
    record { fb = w.fb; fb_available = l.fb_available; result = w.result; logged = l.logged }

abbrev pub screensaver_timeout : ℕ
screensaver_timeout = seconds 120

abbrev pub page_duration : ℕ
page_duration = seconds 3

abbrev pub page_count : ℕ
page_count = 8

abbrev pub screensaver_block_height : ℕ
screensaver_block_height = 21

-- What a round of the loop finds: the clock at its start and at the two later readings, whether an SSH
-- session is open and a host was active, whether the lines can be had, what the detect line reads, whether the
-- device opens and takes the frame, and whether the loop is to end.
pub record Round : Type 0 where
  pub now : ℕ
  pub mode_at : ℕ
  pub page_at : ℕ
  pub ssh : Bool
  pub active_pxe : Bool
  pub detect_granted : Bool
  pub enable_granted : Bool
  pub reads_inactive : Bool
  pub opens : Bool
  pub writes : Bool
  pub shutdown : Bool

pub record Screen : Type 0 where
  pub detect_line : OptionalGpioLine
  pub enable_line : OptionalGpioLine
  pub fb : Framebuffer
  pub fb_available : Bool
  pub last_activity : ℕ
  pub current_mode : DisplayMode
  pub page_index : ℕ
  pub last_page_flip : ℕ
  pub bounce : Bounce
  pub last_ssh_check : ℕ
  pub active_ssh : Bool

unfoldable pub poll_lines : Round → Screen → Screen
poll_lines r s = record s {
  detect_line = poll_line r.detect_granted r.now s.detect_line;
  enable_line = poll_line r.enable_granted r.now s.enable_line;
}

unfoldable pub check_ssh : Round → Screen → Screen
check_ssh r s =
    if leb (seconds 5) (r.now - s.last_ssh_check)
    then record s { active_ssh = r.ssh; last_ssh_check = r.now }
    else s

unfoldable pub choose_mode : Round → Screen → Screen
choose_mode r s =
    if s.active_ssh || r.active_pxe
    then record s { last_activity = r.now; current_mode = metrics }
    else if ltb screensaver_timeout (r.mode_at - s.last_activity)
    then record s { current_mode = screensaver }
    else s

unfoldable pub dim : ℕ → Screen → Screen
dim brightness s = record s { fb = set_brightness (mode_brightness brightness s.current_mode) s.fb }

unfoldable pub flip_page : Round → Screen → Screen
flip_page r s =
    if ltb page_duration (r.page_at - s.last_page_flip)
    then record s { page_index = (s.page_index + 1) % page_count; last_page_flip = r.now }
    else s

-- `z.max(0) as usize`
abbrev pub at_least : ℕ → ℤ → ℕ
at_least low (pos n) = if leb low n then n else low
at_least low (negsuc n) = low

-- `width_tars` is what the font measures for "TARS".
abbrev pub bounds : ℕ → BounceBox
bounds width_tars = record {
  min_x = pos 0;
  max_x = width ⊖ width_tars;
  min_y = pos visible_y_start;
  max_y = pos (height - screensaver_block_height);
}

module _ (width_tars : ℕ) (title : ℕ → ℕ → Framebuffer → Framebuffer)
    (page : ℕ → Framebuffer → Framebuffer) where
  unfoldable pub draw_screensaver : Screen → Screen
  draw_screensaver s =
      let b = step_bounce (bounds width_tars) s.bounce in
      let draw_x = at_least 0 b.x in
      let draw_y = at_least visible_y_start b.y in
      record s {
        bounce = b;
        fb = draw_braille (draw_x + 3) (draw_y + 13) 3 3 8 (title draw_x draw_y (clear s.fb));
      }

  unfoldable pub draw_page : Screen → Screen
  draw_page s = record s { fb = page (s.page_index % page_count) (clear s.fb) }

  -- The page flips only in the metrics mode.
  unfoldable pub draw_mode : DisplayMode → Round → Screen → Screen
  draw_mode screensaver r s = draw_screensaver s
  draw_mode metrics r s = draw_page (flip_page r s)

  abbrev pub rotate : Round → Screen → Screen
  rotate r s = record s {
    fb = record s.fb { rotation = if s.detect_line.request && r.reads_inactive then 0 else 180 };
  }

  -- A round up to the frame.
  unfoldable pub compose : ℕ → Round → Screen → Screen
  compose brightness r s =
      let t = dim brightness (choose_mode r (check_ssh r (poll_lines r s))) in
      rotate r (draw_mode t.current_mode r t)

  pub record Shown : Type 0 where
    pub screen : Screen
    pub result : WriteResult
    pub logged : Option PanelLog

  unfoldable pub render_round : ℕ → Round → Screen → Shown
  render_round brightness r s =
      let t = compose brightness r s in
      let p = present r.opens r.writes t.fb_available t.fb in
      record {
        screen = record t { fb = p.fb; fb_available = p.fb_available };
        result = p.result;
        logged = p.logged;
      }

  -- The end of the loop: the screen is blanked, as far as the device takes it.
  unfoldable pub blank : Round → Screen → Screen
  blank r s = record s { fb = (flush r.opens r.writes (clear s.fb)).fb }

  -- The rounds until one is told to end; `none` when the loop still runs after the last.
  unfoldable pub render_loop : ℕ → List Round → Screen → Option Screen
  render_loop brightness [] s = none
  render_loop brightness (r ∷ rs) s =
      let t = (render_round brightness r s).screen in
      let more = render_loop brightness rs t in if r.shutdown then some (blank r t) else more
