-- ===== src/Tests/Suite.antt =====
-- The suite at concrete inputs.
use booty_call.Prelude.{◌≡◌, ◌↔◌, refl, Bool, true, false, none, some, List, [], ◌∷◌}
use booty_call.Prelude.Bytes.{codes}
use booty_call.Core.Config.{Config, loaded}
use booty_call.Core.Config.Unique.{IsLoaded}
use booty_call.Core.Config.Watch.{
  event, modify, Wait, message, pause, closed, parsed_file, unreadable, idle, watch_config,
}
use booty_call.Led.Boot.{Leds, Writes}
use booty_call.Suite.{
  ConfigFile, run_check_config, Ended, http, sigterm, join_failed, outcome, Run, run_suite,
  shared_config,
}
use booty_call.Suite.Ends.{
  white_only, IsSignal, run_suite_ends, run_suite_iff, shared_config-IsLoaded,
}
use booty_call.Tests.Core.{parsed, config, is_addr, parsed-load}

abbrev file : ConfigFile
file = record { exists = true; parsed = some parsed }

abbrev half : Writes
half = record { first = true; second = false }

abbrev run : Ended → Run
run ended = record {
  file = file;
  watches = true;
  registers = true;
  blinks = half ∷ half ∷ [];
  last_blink = half;
  early_turns = [];
  turns = record { active = true; blue_ok = false; white_ok = true } ∷ [];
  ended = ended;
  blue_ok = true;
  white_ok = true;
}

abbrev dark : Leds
dark = record { blue = none; white = some 0 }

file-run_check_config : run_check_config is_addr file ≡ none
unfolding run_check_config
file-run_check_config = rw parsed-load refl

ends_example :
    run_suite is_addr (run (http join_failed)) dark
    ≡ record { result = outcome (http join_failed); leds = white_only }
ends_example =
    run_suite_ends is_addr (run (http join_failed)) dark file-run_check_config refl refl refl refl
      refl

success_example : ((run_suite is_addr (run sigterm) dark).result ≡ none) ↔ (
    (run_check_config is_addr file ≡ none) × ((true ≡ true) × ((true ≡ true) × IsSignal sigterm)))
success_example = run_suite_iff is_addr (run sigterm) dark

abbrev syncs : Config → Bool
syncs c = true

abbrev waits : List Wait
waits =
    message (event modify (some (codes "bootycall.yaml") ∷ []))
    ∷ pause unreadable
    ∷ message (event modify [])
    ∷ pause (parsed_file parsed)
    ∷ closed
    ∷ []

shared_example :
    IsLoaded is_addr (loaded (shared_config syncs config (watch_config is_addr none idle waits)))
shared_example = shared_config-IsLoaded is_addr none syncs parsed config waits parsed-load
