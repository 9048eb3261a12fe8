-- ===== src/Led/Boot.antt =====
-- crates/bootycall-led/src/lib.rs: the LEDs outside the manager, while the suite starts and stops, and under test.
use booty_call.Prelude.{
  ℕ, zero, suc, ◌≡◌, refl, Bool, true, false, not, Option, none, some, List, [], ◌∷◌, if◌then◌else◌,
}
use booty_call.Prelude.Bytes.{codes, eq_bytes}

-- The `brightness` files of the two LEDs.
pub record Leds : Type 0 where
  pub blue : Option ℕ
  pub white : Option ℕ

-- The two paths.
pub data LedPath : Type 0 where
  blue_path white_path : LedPath

-- `set_led`: a write that fails leaves the file as it is.
unfoldable pub set_led : Bool → LedPath → ℕ → Leds → Leds
set_led false path value leds = leds
set_led true blue_path value leds = record leds { blue = some value }
set_led true white_path value leds = record leds { white = some value }

-- Whether two writes in a row succeed.
pub record Writes : Type 0 where
  pub first : Bool
  pub second : Bool

unfoldable pub activate_blue_led : Writes → Leds → Leds
activate_blue_led w leds = set_led w.second white_path 0 (set_led w.first blue_path 255 leds)

unfoldable pub activate_white_led : Writes → Leds → Leds
activate_white_led w leds = set_led w.second blue_path 0 (set_led w.first white_path 255 leds)

-- A turn of the blinking.
abbrev pub blink : Bool → Writes → Leds → Leds
blink state w leds =
    set_led w.second blue_path 0 (set_led w.first white_path (if state then 255 else 0) leds)

-- The turns before the message to stop, and the two writes after it.
unfoldable pub run_boot_blink : List Writes → Writes → Bool → Leds → Leds
run_boot_blink [] last state leds = activate_blue_led last leds
run_boot_blink (w ∷ ws) last state leds = run_boot_blink ws last (not state) (blink state w leds)

abbrev pub led_test_blink_cycles : ℕ
led_test_blink_cycles = 10

-- What is lit, and the path beside it; `none` is an unknown colour.
abbrev pub paths_of : List ℕ → Option (Option LedPath × LedPath)
paths_of color =
    if eq_bytes color (codes "blue")
    then some (some blue_path, white_path)
    else if eq_bytes color (codes "white")
    then some (some white_path, blue_path)
    else if eq_bytes color (codes "off")
    then some (none, white_path)
    else none

-- The cycles of a test, where every write has the same outcome.
abbrev pub blink_cycles : ℕ → Bool → LedPath → LedPath → Leds → Leds
blink_cycles zero ok on off_path leds = leds
blink_cycles (suc n) ok on off_path leds =
    blink_cycles n ok on off_path
      (set_led ok off_path 0 (set_led ok on 0 (set_led ok off_path 0 (set_led ok on 255 leds))))

abbrev pub test_paths : Bool → Bool → Option LedPath × LedPath → Leds → Leds
test_paths ok blinking (none, off_path) leds = set_led ok white_path 0 (set_led ok blue_path 0 leds)
test_paths ok blinking (some on, off_path) leds =
    if blinking
    then blink_cycles led_test_blink_cycles ok on off_path leds
    else set_led ok off_path 0 (set_led ok on 255 leds)

-- `none` is the error for an unknown colour.
unfoldable pub led_test : Bool → List ℕ → Bool → Leds → Option Leds
led_test ok color blinking leds = elim (paths_of color) [
  | none ↦ none
  | some paths ↦ some (test_paths ok blinking paths leds)
]

-- However long the start took and whatever was lit, if the last two writes succeed the blue LED alone is on when
-- the suite is ready.
pub run_boot_blink-ready :
    (ws : List Writes) (state : Bool) (leds : Leds)
    → run_boot_blink ws (record { first = true; second = true }) state leds
      ≡ record { blue = some 255; white = some 0 }
unfolding run_boot_blink activate_blue_led set_led
run_boot_blink-ready [] state leds = refl
run_boot_blink-ready (w ∷ ws) state leds = run_boot_blink-ready ws (not state) (blink state w leds)
