-- ===== src/Led.antt =====
-- crates/bootycall-led/src/lib.rs: the LED manager.
pub mod Truthful
pub mod Boot
use booty_call.Prelude.{
  ℕ, ◌+◌, Bool, true, false, not, Option, none, some, List, [], ◌∷◌, ◌==◌, if◌then◌else◌,
}

-- The `brightness` file of an LED, and the value that the cache believes it holds.
pub record Led : Type 0 where
  pub brightness : Option ℕ
  pub last_value : Option ℕ

abbrev pub is_cached : ℕ → Option ℕ → Bool
is_cached value none = false
is_cached value (some last) = value == last

-- A write that succeeds; the file of an LED takes any value of 8 bits.
abbrev pub wrote : ℕ → Led → Led
wrote value led = record { brightness = some value; last_value = some value }

-- `set_led_cached_with`, by whether the write, if there is one, succeeds. A failed write leaves the file
-- as it is.
unfoldable pub set_led_cached_with : ℕ → Bool → Led → Led
set_led_cached_with value ok led =
    if is_cached value led.last_value then led else if ok then wrote value led else led

pub record Manager : Type 0 where
  pub blue : Led
  pub white : Led
  pub state : Bool

-- The start of `run_led_manager`, whatever the files hold.
abbrev pub started : Option ℕ → Option ℕ → Manager
started blue white = record {
  blue = record { brightness = blue; last_value = none };
  white = record { brightness = white; last_value = none };
  state = false;
}

abbrev pub lights : ℕ → ℕ → Bool → Bool → Manager → Manager
lights blue white blue_ok white_ok m = record m {
  blue = set_led_cached_with blue blue_ok m.blue;
  white = set_led_cached_with white white_ok m.white;
}

-- One turn of the loop after its sleep, by whether there is recent activity.
unfoldable pub tick : Bool → Bool → Bool → Manager → Manager
tick active blue_ok white_ok m =
    if active
    then record (lights (if m.state then 255 else 0) 0 blue_ok white_ok m) { state = not m.state }
    else record (lights 255 0 blue_ok white_ok m) { state = true }

-- What a turn sees: the activity, and whether the writes succeed.
pub record Turn : Type 0 where
  pub active : Bool
  pub blue_ok : Bool
  pub white_ok : Bool

unfoldable pub run_turns : List Turn → Manager → Manager
run_turns [] m = m
run_turns (t ∷ ts) m = run_turns ts (tick t.active t.blue_ok t.white_ok m)

-- The loop, and the solid white of a clean shutdown.
unfoldable pub run_led_manager : List Turn → Bool → Bool → Manager → Manager
run_led_manager ts blue_ok white_ok m = lights 0 255 blue_ok white_ok (run_turns ts m)
