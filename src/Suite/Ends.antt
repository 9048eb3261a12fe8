-- ===== src/Suite/Ends.antt =====
-- crates/bootycall-rs/src/main.rs: how a run of the suite ends, and which configuration its servers share.
use booty_call.Prelude.{
  ℕ, ◌≡◌, refl, sym, ap, if◌then◌else◌, Option-cases, ◌∙◌, inl, inr, ◌⊎◌, ◌↔◌, Bool, true,
  Bool-cases, Option, none, some, List, [], ◌∷◌, All,
}
use mathlib.Core.Path.{subst}
use booty_call.Core.Config.{Config, loaded, load}
use booty_call.Core.Config.Unique.{IsLoaded, load-IsLoaded}
use booty_call.Core.Config.Watch.{Wait, idle, watch_config, watch_config-AreLoaded}
use booty_call.Led.{run_turns}
use booty_call.Led.Boot.{Leds, activate_blue_led}
use booty_call.Led.Truthful.{run_led_manager-shutdown}
use booty_call.Suite.{
  MainError, ConfigFile, config_not_found, config_invalid, load_file, run_check_config, Ended,
  sigint, sigterm, cleaner, dhcp, tftp, http, outcome, Run, manager_after, under_manager,
  taken_over, serve_until, run_suite, shared_config,
}

-- The white LED alone is on.
abbrev pub white_only : Leds
white_only = record { blue = some 0; white = some 255 }

-- A signal ended the suite.
abbrev pub IsSignal : Ended → Type 0
IsSignal e = (e ≡ sigint) ⊎ (e ≡ sigterm)

-- The last writes of the blinking come before the first turn of the manager, which has nothing cached then.
taken_over-started :
    (r : Run) (leds : Leds)
    → r.early_turns ≡ []
    → (lit : Leds) × (taken_over r leds ≡ manager_after lit)
unfolding run_turns
taken_over-started r leds none_early = (
  activate_blue_led r.last_blink leds,
  ap (λ ts. under_manager r.last_blink (run_turns ts (manager_after leds))) none_early,
)

serve_until_ends :
    (r : Run) (leds : Leds)
    → r.early_turns ≡ []
    → r.registers ≡ true
    → r.blue_ok ≡ true
    → r.white_ok ≡ true
    → serve_until r leds ≡ record { result = outcome r.ended; leds = white_only }
unfolding serve_until
serve_until_ends r leds none_early h b w =
    let (lit, managed) = taken_over-started r leds none_early in
    let (blue, white) = run_led_manager-shutdown r.turns lit.blue lit.white in
    rw (h, b, w, managed, blue, white) refl

checked_file :
    (is_addr : List ℕ → Bool) (f : ConfigFile)
    → run_check_config is_addr f ≡ none
    → (f.exists ≡ true) × ((config : Config) × (load_file is_addr f.parsed ≡ some config))
unfolding run_check_config
checked_file is_addr f checked = elim (Bool-cases f.exists) [
  | inl exists ↦ elim (Option-cases (load_file is_addr f.parsed)) [
    | inl none_loaded ↦
        let e : some config_invalid ≡ none = sym (rw (exists, none_loaded) refl) ∙ checked in cc
    | inr l ↦ (exists, l)
  ]
  | inr missing ↦ let e : some config_not_found ≡ none = sym (rw missing refl) ∙ checked in cc
]

-- A configuration that `check-config` accepts starts the suite: if the file can be watched and SIGTERM be
-- handled, then whatever the blinking and the LED manager did before, the suite returns what the end of its
-- tasks says, and with the last two writes the white LED alone is on. For this the blinking must have stopped
-- before the first turn of the manager, which comes after a sleep.
pub run_suite_ends :
    (is_addr : List ℕ → Bool) (r : Run) (leds : Leds)
    → run_check_config is_addr r.file ≡ none
    → r.watches ≡ true
    → r.registers ≡ true
    → r.early_turns ≡ []
    → r.blue_ok ≡ true
    → r.white_ok ≡ true
    → run_suite is_addr r leds ≡ record { result = outcome r.ended; leds = white_only }
unfolding run_check_config run_suite
run_suite_ends is_addr r leds checked watches registers none_early b w =
    let (exists, (config, l)) = checked_file is_addr r.file checked in
    rw (exists, l, watches)
      (serve_until_ends (record r { watches = true }) _ none_early registers b w)

-- The suite returns success for a signal only.
outcome_iff : (e : Ended) → (outcome e ≡ none) ↔ IsSignal e
unfolding outcome
outcome_iff sigint = (λ h. inl refl, λ h. refl)
outcome_iff sigterm = (λ h. inr refl, λ h. refl)
outcome_iff cleaner = (λ h. cc, λ h. elim h [ inl a ↦ cc | inr a ↦ cc ])
outcome_iff (dhcp r) = (λ h. cc, λ h. elim h [ inl a ↦ cc | inr a ↦ cc ])
outcome_iff (tftp r) = (λ h. cc, λ h. elim h [ inl a ↦ cc | inr a ↦ cc ])
outcome_iff (http r) = (λ h. cc, λ h. elim h [ inl a ↦ cc | inr a ↦ cc ])

serve_until_iff :
    (r : Run) (leds : Leds)
    → ((serve_until r leds).result ≡ none) ↔ ((r.registers ≡ true) × IsSignal r.ended)
unfolding serve_until
serve_until_iff r leds = elim (Bool-cases r.registers) [
  | inl on ↦ rw on (λ h. (refl, (outcome_iff r.ended).0 h), λ h. (outcome_iff r.ended).1 h.1)
  | inr off ↦ rw off (λ h. cc, λ h. cc)
]

-- The suite ends with success exactly if `check-config` accepts its configuration, the file can be watched and
-- SIGTERM be handled, and a signal ended it: the end of a server or of the cleaner is an error.
pub run_suite_iff :
    (is_addr : List ℕ → Bool) (r : Run) (leds : Leds)
    → ((run_suite is_addr r leds).result ≡ none) ↔ (
        (run_check_config is_addr r.file ≡ none)
        × ((r.watches ≡ true) × ((r.registers ≡ true) × IsSignal r.ended)))
unfolding run_suite run_check_config
run_suite_iff is_addr r leds = elim (Bool-cases r.file.exists) [
  | inr missing ↦ rw missing (λ h. cc, λ h. (let e = h.0 in cc))
  | inl exists ↦ elim (Option-cases (load_file is_addr r.file.parsed)) [
    | inl none_loaded ↦ rw (exists, none_loaded) (λ h. cc, λ h. (let e = h.0 in cc))
    | inr (config, l) ↦ elim (Bool-cases r.watches) [
      | inr off ↦ rw (exists, l, off) (λ h. cc, λ h. (let e = h.1.0 in cc))
      | inl on ↦ rw (exists, l, on) (by_serving (serve_until_iff (record r { watches = true }) _))
    ]
  ]
]
  where
    by_serving :
        {A : Type 0} {B : Type 0}
        → A ↔ B
        → A ↔ ((Path (Option MainError) none none) × ((true ≡ true) × B))
    by_serving h = (λ a. (refl, (refl, h.0 a)), λ b. h.1 b.1.1)

shared_config-keeps :
    (P : Config → Type 0) (syncs : Config → Bool) (config : Config) (more : List Config)
    → P config
    → All P more
    → P (shared_config syncs config more)
unfolding shared_config
shared_config-keeps P syncs config [] h k = h
shared_config-keeps P syncs config (new_config ∷ more) h k =
    shared_config-keeps P syncs (if syncs new_config then new_config else config) more
      (elim (Bool-cases (syncs new_config)) [ inl e ↦ rw e k.0 | inr e ↦ rw e h ]) k.1

-- The configuration that the servers share has passed the checks of `load` at every time: it is the one that
-- the suite started with or one that the watcher handed over, whatever happens to the file.
pub shared_config-IsLoaded :
    (is_addr : List ℕ → Bool) (watch_name : Option (List ℕ)) (syncs : Config → Bool)
    (parsed config : Config) (ws : List Wait)
    → load is_addr parsed ≡ loaded config
    → IsLoaded is_addr
        (loaded (shared_config syncs config (watch_config is_addr watch_name idle ws)))
shared_config-IsLoaded is_addr watch_name syncs parsed config ws h =
    shared_config-keeps (λ c. IsLoaded is_addr (loaded c)) syncs config _
      (subst (IsLoaded is_addr) h (load-IsLoaded is_addr parsed))
      (watch_config-AreLoaded is_addr watch_name idle ws)
