-- ===== src/Tests/Devices.antt =====
-- Partition slices and LEDs at concrete inputs.
use booty_call.Prelude.{◌≡◌, true, false, none, some, List, [], ◌∷◌, All, arith}
use booty_call.Extractor.Slice.{negsuc, from_end, new_slice, Op, seeks, reads, writes}
use booty_call.Extractor.Slice.Inside.{accesses, IsInside, accesses-IsInside}
use booty_call.Extractor.Copy.{Chunk, chunk}
use booty_call.Led.{Turn, started, run_led_manager}
use booty_call.Led.Truthful.{run_led_manager-shutdown}

abbrev ops : List Op
ops = reads 512 (some 512) ∷ seeks (from_end (negsuc 9)) ∷ writes 100 (some 10) ∷ reads 5 none ∷ []

slice_example : All (IsInside 2048 4096) (accesses ops (new_slice 2048 4096))
slice_example = accesses-IsInside ops 2048 4096 (omega arith)

abbrev turns : List Turn
turns =
    record { active = false; blue_ok = true; white_ok = false }
    ∷ record { active = true; blue_ok = false; white_ok = true }
    ∷ []

shutdown_example :
    ((run_led_manager turns true true (started none (some 7))).blue.brightness ≡ some 0)
    × ((run_led_manager turns true true (started none (some 7))).white.brightness ≡ some 255)
shutdown_example = run_led_manager-shutdown turns none (some 7)

abbrev chunks : List Chunk
chunks = chunk (1 ∷ 2 ∷ []) true ∷ chunk (3 ∷ []) true ∷ []
