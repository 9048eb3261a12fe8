-- ===== src/Led/Truthful.antt =====
-- crates/bootycall-led/src/lib.rs: what the cache says is what the LEDs show.
use booty_call.Prelude.{
  ℕ, ◌≡◌, refl, inl, inr, Bool, true, false, Option, none, some, List, [], ◌∷◌, arith, Bool-cases,
  if◌then◌else◌,
}
use booty_call.Led.{
  Led, is_cached, wrote, set_led_cached_with, Manager, started, tick, Turn, run_turns,
  run_led_manager,
}

-- What the cache believes, if anything, is what the file holds.
abbrev pub Believes : Option ℕ → Option ℕ → Type 0
Believes none shown = Unit
Believes (some value) shown = shown ≡ some value

abbrev pub IsTrue : Led → Type 0
IsTrue led = Believes led.last_value led.brightness

abbrev pub IsTruthful : Manager → Type 0
IsTruthful m = IsTrue m.blue × IsTrue m.white

set_led-IsTrue :
    (value : ℕ) (ok : Bool) (led : Led) → IsTrue led → IsTrue (set_led_cached_with value ok led)
unfolding set_led_cached_with
set_led-IsTrue value ok led h = elim (Bool-cases (is_cached value led.last_value)) [
  | inl same ↦ rw same h
  | inr other ↦ rw other (by_ok ok)
]
  where
    by_ok : (b : Bool) → IsTrue (if b then wrote value led else led)
    by_ok true = refl
    by_ok false = h

tick-IsTruthful :
    (active blue_ok white_ok : Bool) (m : Manager)
    → IsTruthful m
    → IsTruthful (tick active blue_ok white_ok m)
unfolding tick
tick-IsTruthful true blue_ok white_ok m h =
    (set_led-IsTrue _ blue_ok m.blue h.0, set_led-IsTrue 0 white_ok m.white h.1)
tick-IsTruthful false blue_ok white_ok m h =
    (set_led-IsTrue 255 blue_ok m.blue h.0, set_led-IsTrue 0 white_ok m.white h.1)

run_turns-IsTruthful : (ts : List Turn) (m : Manager) → IsTruthful m → IsTruthful (run_turns ts m)
unfolding run_turns
run_turns-IsTruthful [] m h = h
run_turns-IsTruthful (t ∷ ts) m h =
    run_turns-IsTruthful ts _ (tick-IsTruthful t.active t.blue_ok t.white_ok m h)

shows :
    (value : ℕ) (led : Led)
    → IsTrue led
    → (set_led_cached_with value true led).brightness ≡ some value
unfolding set_led_cached_with
shows value led h = elim (Bool-cases (is_cached value led.last_value)) [
  | inl same ↦ rw same (by_last led.last_value h same)
  | inr other ↦ rw other refl
]
  where
    by_last :
        (o : Option ℕ)
        → Believes o led.brightness
        → is_cached value o ≡ true
        → led.brightness ≡ some value
    by_last none b e = cc
    by_last (some last) b e = ground (arith, b, e)

-- However the writes to the LEDs failed before, if the two of the shutdown succeed the white LED is on and
-- the blue one off: no failed write makes the cache skip a write that is needed.
pub run_led_manager-shutdown :
    (ts : List Turn) (blue white : Option ℕ)
    → ((run_led_manager ts true true (started blue white)).blue.brightness ≡ some 0)
      × ((run_led_manager ts true true (started blue white)).white.brightness ≡ some 255)
unfolding run_led_manager
run_led_manager-shutdown ts blue white =
    let m = run_turns ts (started blue white) in
    let h = run_turns-IsTruthful ts (started blue white) (tt, tt) in
    (shows 0 m.blue h.0, shows 255 m.white h.1)
