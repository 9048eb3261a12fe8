-- ===== src/Suite.antt =====
-- crates/bootycall-rs/src/main.rs: the commands, the start of the suite, and its end.
-- clap parses the command line, and tokio runs the tasks. What the tasks of the servers, of the LED manager and of the panel
-- do is in their own modules.
pub mod Ends
use booty_call.Prelude.{
  ℕ, Bool, true, false, not, ◌&&◌, ◌||◌, Option, none, some, List, [], ◌∷◌, leb, length,
  if◌then◌else◌,
}
use booty_call.Prelude.Bytes.{codes, eq_bytes}
use booty_call.Core.Config.{Config, Loaded, rejected, loaded, load}
use booty_call.Core.Store.{StateStore, clean_stale_hosts}
use booty_call.Led.{Led, Manager, started, Turn, run_turns, run_led_manager}
use booty_call.Led.Boot.{Leds, Writes, blink, activate_blue_led, led_test}
use booty_call.Extractor.Sync.{SyncSummary, total, all_failed, partial_failure}

-- The errors that `main` returns.
pub data MainError : Type 0 where
  size_out_of_range : (size : ℕ) → MainError
  invalid_alignment : (alignment : List ℕ) → MainError
  oled_test_failed led_test_failed : MainError
  config_not_found config_invalid load_failed watcher_failed sigterm_failed : MainError
  exited_unexpectedly fatal_error join_error : (name : List ℕ) → MainError
  cleaner_exited : MainError

pub data Commands : Type 0 where
  oled_test_command : (size : ℕ) (alignment text : List ℕ) → Commands
  led_test_command : (color : List ℕ) (blinking : Bool) → Commands
  check_config : Commands

abbrev pub valid_aligns : List (List ℕ)
valid_aligns =
    codes "left"
    ∷ codes "center"
    ∷ codes "right"
    ∷ codes "left-top"
    ∷ codes "left-bottom"
    ∷ codes "center-top"
    ∷ codes "center-bottom"
    ∷ codes "right-top"
    ∷ codes "right-bottom"
    ∷ []

abbrev pub any_is : List ℕ → List (List ℕ) → Bool
any_is text [] = false
any_is text (t ∷ ts) = eq_bytes t text || any_is text ts

-- Whether a preview may run: `none` lets it through.
unfoldable pub refuse_preview : ℕ → List ℕ → Option MainError
refuse_preview size alignment =
    if not (leb 6 size && leb size 40)
    then some (size_out_of_range size)
    else if not (any_is alignment valid_aligns)
    then some (invalid_alignment alignment)
    else none

-- The file of the configuration: whether it exists, and what was read of it, which is `none` when it cannot be read
-- or parsed.
pub record ConfigFile : Type 0 where
  pub exists : Bool
  pub parsed : Option Config

module _ (is_addr : List ℕ → Bool) where
  abbrev pub load_file : Option Config → Option Config
  load_file none = none
  load_file (some parsed) = elim (load is_addr parsed) [
    | rejected e ↦ none
    | loaded config ↦ some config
  ]

  -- `CheckConfig`; `Ok(())` is `none`.
  unfoldable pub run_check_config : ConfigFile → Option MainError
  run_check_config f =
      if not f.exists
      then some config_not_found
      else elim (load_file f.parsed) [ none ↦ some config_invalid | some config ↦ none ]

  -- The test of the panel runs only when its arguments pass; `preview` says whether `oled_test` succeeds, and the writes
  -- to the LEDs all succeed or all fail. With the result come the LEDs.
  unfoldable pub run_command :
      (ℕ → List ℕ → List ℕ → Bool) → Bool → ConfigFile → Commands → Leds → Option MainError × Leds
  run_command preview ok f (oled_test_command size alignment text) leds =
      elim (refuse_preview size alignment) [
        | some e ↦ (some e, leds)
        | none ↦ (if preview size alignment text then none else some oled_test_failed, leds)
      ]
  run_command preview ok f (led_test_command color blinking) leds =
      elim (led_test ok color blinking leds) [
        | none ↦ (some led_test_failed, leds)
        | some leds' ↦ (none, leds')
      ]
  run_command preview ok f check_config leds = (run_check_config f, leds)

-- What a spawned server ends with: `Ok(())`, its error, or a panic or cancellation of its task.
pub data JoinResult : Type 0 where
  finished failed_with join_failed : JoinResult

unfoldable pub join_result_to_error : List ℕ → JoinResult → MainError
join_result_to_error name finished = exited_unexpectedly name
join_result_to_error name failed_with = fatal_error name
join_result_to_error name join_failed = join_error name

-- The branch of `select!` that is taken.
pub data Ended : Type 0 where
  sigint sigterm cleaner : Ended
  dhcp tftp http : JoinResult → Ended

unfoldable pub outcome : Ended → Option MainError
outcome sigint = none
outcome sigterm = none
outcome (dhcp r) = some (join_result_to_error (codes "Proxy DHCP") r)
outcome (tftp r) = some (join_result_to_error (codes "TFTP") r)
outcome (http r) = some (join_result_to_error (codes "HTTP") r)
outcome cleaner = some cleaner_exited

-- A run of the suite: what it finds when it starts, the turns of the blinking for as long as it goes on, and its last
-- writes; the turns of the LED manager before those writes, since the two tasks run side by side, and
-- after them; how the suite ends, and whether the last writes to the LEDs succeed.
pub record Run : Type 0 where
  pub file : ConfigFile
  pub watches : Bool
  pub registers : Bool
  pub blinks : List Writes
  pub last_blink : Writes
  pub early_turns : List Turn
  pub turns : List Turn
  pub ended : Ended
  pub blue_ok : Bool
  pub white_ok : Bool

pub record Exit : Type 0 where
  pub result : Option MainError
  pub leds : Leds

abbrev pub leds_of : Manager → Leds
leds_of m = record { blue = m.blue.brightness; white = m.white.brightness }

-- The task of the blinking is dropped when `main` returns early.
unfoldable pub blinking : List Writes → Bool → Leds → Leds
blinking [] state leds = leds
blinking (w ∷ ws) state leds = blinking ws (not state) (blink state w leds)

abbrev pub early : MainError → Run → Leds → Exit
early e r leds = record { result = some e; leds = blinking r.blinks false leds }

-- The manager reads no file when it starts.
abbrev pub manager_after : Leds → Manager
manager_after leds = started leds.blue leds.white

-- The last writes of the blinking, under the manager, whose cache does not see them.
abbrev pub under_manager : Writes → Manager → Manager
under_manager w m =
    let lit = activate_blue_led w (leds_of m) in
    record {
      blue = record m.blue { brightness = lit.blue };
      white = record m.white { brightness = lit.white };
      state = m.state;
    }

-- The manager's turns until the last writes of the blinking, and these.
abbrev pub taken_over : Run → Leds → Manager
taken_over r leds = under_manager r.last_blink (run_turns r.early_turns (manager_after leds))

-- The blinking has been told to stop, and the LED manager been started. The manager is dropped when the handler of
-- SIGTERM cannot be registered, and stopped by `graceful_shutdown` on every branch of `select!`.
unfoldable pub serve_until : Run → Leds → Exit
serve_until r leds =
    if not r.registers
    then record {
      result = some sigterm_failed;
      leds = leds_of (run_turns r.turns (taken_over r leds));
    }
    else record {
      result = outcome r.ended;
      leds = leds_of (run_led_manager r.turns r.blue_ok r.white_ok (taken_over r leds));
    }

module _ (is_addr : List ℕ → Bool) where
  -- `main` without a command. A cache that could not be filled does not stop it.
  unfoldable pub run_suite : Run → Leds → Exit
  run_suite r leds =
      if not r.file.exists
      then early config_not_found r leds
      else elim (load_file is_addr r.file.parsed) [
        | none ↦ early load_failed r leds
        | some config ↦
            if not r.watches
            then early watcher_failed r leds
            else serve_until r (blinking r.blinks false leds)
      ]

-- What `on_reload` leaves for every configuration that the watcher hands over. `syncs` says whether the
-- synchronisation of the cache comes back; if it panics, `*guard = new_config` is not reached.
unfoldable pub shared_config : (Config → Bool) → Config → List Config → Config
shared_config syncs config [] = config
shared_config syncs config (new_config ∷ more) =
    shared_config syncs (if syncs new_config then new_config else config) more

abbrev pub stale_host_ttl_secs : ℕ
stale_host_ttl_secs = 300

-- The task that cleans the store, by the times of its sweeps.
unfoldable pub sweep : List ℕ → StateStore → StateStore
sweep [] store = store
sweep (now ∷ times) store = sweep times (clean_stale_hosts stale_host_ttl_secs now store)

-- What the log says of the sweep over the cache.
pub data SyncReport : Type 0 where
  all_hosts_failed all_hosts_ok : (total : ℕ) → SyncReport
  some_hosts_failed : (failed total : ℕ) → SyncReport

module _ (Failure : Type 0) where
  unfoldable pub log_sync_summary : SyncSummary Failure → SyncReport
  log_sync_summary summary =
      if all_failed Failure summary
      then all_hosts_failed (total Failure summary)
      else if partial_failure Failure summary
      then some_hosts_failed (length summary.failed) (total Failure summary)
      else all_hosts_ok (total Failure summary)
