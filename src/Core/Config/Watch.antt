-- ===== src/Core/Config/Watch.antt =====
-- crates/bootycall-core/src/config.rs: `watch_config`, the loop that reloads the configuration.
-- The crate notify watches the directory; its events come as a list, with the pauses between them.
use booty_call.Prelude.{
  ℕ, ◌≡◌, refl, ap, ◌∙◌, Bool, true, false, ◌||◌, Option, none, some, List, [], ◌∷◌, ◌++◌, map,
  if◌then◌else◌, All,
}
use booty_call.Prelude.Bytes.{eq_bytes}
use booty_call.Core.Config.{Config, Loaded, rejected, loaded, load}
use booty_call.Core.Config.Unique.{IsLoaded, load-IsLoaded}

-- `EventKind`, as far as it is told apart.
pub data EventKind : Type 0 where
  modify create other_kind : EventKind

-- A message of the watcher: an error, or an event with the file names of its paths.
pub data Event : Type 0 where
  watch_error : Event
  event : EventKind → List (Option (List ℕ)) → Event

abbrev pub is_change : EventKind → Bool
is_change modify = true
is_change create = true
is_change other_kind = false

abbrev pub has_name : List ℕ → Option (List ℕ) → Bool
has_name name none = false
has_name name (some f) = eq_bytes f name

abbrev pub any_path : List ℕ → List (Option (List ℕ)) → Bool
any_path name [] = false
any_path name (p ∷ ps) = has_name name p || any_path name ps

abbrev pub mentions : Option (List ℕ) → List (Option (List ℕ)) → Bool
mentions none paths = true
mentions (some name) paths = any_path name paths

unfoldable pub event_targets_config : Option (List ℕ) → Event → Bool
event_targets_config watch_name watch_error = false
event_targets_config watch_name (event kind paths) =
    if is_change kind then mentions watch_name paths else false

-- What `Config::load` finds in the file: it cannot be read or parsed, the parser panics, or a configuration.
pub data Reading : Type 0 where
  unreadable panicked : Reading
  parsed_file : Config → Reading

-- What the thread waits for: a message, 200 ms without one, and the end of the channel. With a pause comes what
-- the file holds then.
pub data Wait : Type 0 where
  message : Event → Wait
  pause : Reading → Wait
  closed : Wait

-- Waiting for a first event, or for the others of its burst.
pub data Phase : Type 0 where
  idle : Phase
  draining : (dirty : Bool) → Phase

module _ (is_addr : List ℕ → Bool) (watch_name : Option (List ℕ)) where
  -- A configuration that was rejected is not handed over.
  abbrev pub hand_over : Loaded → List Config
  hand_over (rejected e) = []
  hand_over (loaded config) = config ∷ []

  abbrev pub reload : Bool → Reading → List Config
  reload false r = []
  reload true unreadable = []
  reload true panicked = []
  reload true (parsed_file config) = hand_over (load is_addr config)

  -- The configurations that `on_reload` gets. Its panics are caught, and change nothing here.
  unfoldable pub watch_config : Phase → List Wait → List Config
  watch_config phase [] = []
  watch_config idle (message e ∷ ws) =
      watch_config (draining (event_targets_config watch_name e)) ws
  watch_config idle (pause r ∷ ws) = watch_config idle ws
  watch_config idle (closed ∷ ws) = []
  watch_config (draining dirty) (message e ∷ ws) =
      watch_config (draining (if event_targets_config watch_name e then true else dirty)) ws
  watch_config (draining dirty) (pause r ∷ ws) = reload dirty r ++ watch_config idle ws
  watch_config (draining dirty) (closed ∷ ws) = []

  abbrev AreLoaded : List Config → Type 0
  AreLoaded = All (λ c. IsLoaded is_addr (loaded c))

  AreLoaded-append : (xs ys : List Config) → AreLoaded xs → AreLoaded ys → AreLoaded (xs ++ ys)
  AreLoaded-append [] ys h k = k
  AreLoaded-append (x ∷ xs) ys h k = (h.0, AreLoaded-append xs ys h.1 k)

  hand_over-AreLoaded : (l : Loaded) → IsLoaded is_addr l → AreLoaded (hand_over l)
  hand_over-AreLoaded (rejected e) h = tt
  hand_over-AreLoaded (loaded c) h = (h, tt)

  reload-AreLoaded : (dirty : Bool) (r : Reading) → AreLoaded (reload dirty r)
  reload-AreLoaded false r = tt
  reload-AreLoaded true unreadable = tt
  reload-AreLoaded true panicked = tt
  reload-AreLoaded true (parsed_file config) = hand_over-AreLoaded _ (load-IsLoaded is_addr config)

  -- Whatever happens to the file, every configuration that the watcher hands over has passed the checks of
  -- `load`; what cannot be read or does not pass them is never handed over.
  pub watch_config-AreLoaded :
      (phase : Phase) (ws : List Wait)
      → All (λ c. IsLoaded is_addr (loaded c)) (watch_config phase ws)
  unfolding watch_config
  watch_config-AreLoaded idle [] = tt
  watch_config-AreLoaded (draining dirty) [] = tt
  watch_config-AreLoaded idle (message e ∷ ws) = watch_config-AreLoaded _ ws
  watch_config-AreLoaded idle (pause r ∷ ws) = watch_config-AreLoaded idle ws
  watch_config-AreLoaded idle (closed ∷ ws) = tt
  watch_config-AreLoaded (draining dirty) (message e ∷ ws) = watch_config-AreLoaded _ ws
  watch_config-AreLoaded (draining dirty) (pause r ∷ ws) =
      AreLoaded-append (reload dirty r) _ (reload-AreLoaded dirty r)
        (watch_config-AreLoaded idle ws)
  watch_config-AreLoaded (draining dirty) (closed ∷ ws) = tt

  abbrev pub any_targets : List Event → Bool
  any_targets [] = false
  any_targets (e ∷ es) = event_targets_config watch_name e || any_targets es

  draining_burst :
      (es : List Event) (dirty : Bool) (r : Reading) (ws : List Wait)
      → watch_config (draining dirty) (map message es ++ (pause r ∷ ws))
        ≡ reload (dirty || any_targets es) r ++ watch_config idle ws
  unfolding watch_config
  draining_burst [] true r ws = refl
  draining_burst [] false r ws = refl
  draining_burst (e ∷ es) dirty r ws =
      draining_burst es _ r ws
      ∙ ap (λ d. reload d r ++ watch_config idle ws)
          (collect dirty (event_targets_config watch_name e) (any_targets es))
    where
      collect : (d t more : Bool) → ((if t then true else d) || more) ≡ (d || (t || more))
      collect true true more = refl
      collect true false more = refl
      collect false true more = refl
      collect false false more = refl

  -- A burst of events, of any length, makes exactly one reload once there is a pause, and only if one of the events
  -- is a change that mentions the file; then the watcher waits again.
  pub burst-watch_config :
      (e : Event) (es : List Event) (r : Reading) (ws : List Wait)
      → watch_config idle (map message (e ∷ es) ++ (pause r ∷ ws))
        ≡ reload (any_targets (e ∷ es)) r ++ watch_config idle ws
  unfolding watch_config
  burst-watch_config e es r ws = draining_burst es (event_targets_config watch_name e) r ws
