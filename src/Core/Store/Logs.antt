-- ===== src/Core/Store/Logs.antt =====
-- The log ring against the list of all events ever logged.
use booty_call.Prelude.{
  ℕ, suc, ◌-◌, ◌≡◌, refl, ap, ◌∙◌, Option, List, [], ◌∷◌, ◌++◌, arith, ltb, length, length-append,
  drop, drop-append, drop-drop, length-drop, sym, Bool-cases, inl, inr,
}
use mathlib.Core.List.{append-nil, append_assoc}
use booty_call.Core.Store.{
  StateStore, LogEvent, max_logs, normalize_option, log_event, evict, list_logs, new,
}

-- One call of `log_event`.
pub record Entry : Type 0 where
  pub level : List ℕ
  pub mac : Option (List ℕ)
  pub message : List ℕ
  pub now : ℕ

abbrev pub event : Entry → LogEvent
event e = record {
  timestamp = e.now;
  level = e.level;
  mac = normalize_option e.mac;
  message = e.message;
}

abbrev pub events : List Entry → List LogEvent
events [] = []
events (e ∷ es) = event e ∷ events es

unfoldable pub log_all : List Entry → StateStore → StateStore
log_all [] s = s
log_all (e ∷ es) s = log_all es (log_event e.level e.mac e.message e.now s)

-- The last `n` elements.
abbrev pub last {ℓ} : {A : Type ℓ} → ℕ → List A → List A
last n xs = drop (length xs - n) xs

pub evict-last : (es : List LogEvent) → evict es ≡ last max_logs es
unfolding evict
evict-last [] = refl
evict-last (e ∷ es) = elim (Bool-cases (ltb max_logs (suc (length es)))) [
  | inl over ↦
      let n : suc (length es) - max_logs ≡ suc (length es - max_logs) = ground (arith, over) in
      rw (over, n) (evict-last es)
  | inr fits ↦ let n : suc (length es) - max_logs ≡ 0 = ground (arith, fits) in rw (fits, n)
]

last-append : (n : ℕ) (xs ys : List LogEvent) → last n (last n xs ++ ys) ≡ last n (xs ++ ys)
last-append n xs ys = rw (← drop-append (length xs - n) xs ys (omega arith)) (
    drop-drop _ (length xs - n) (length (xs ++ ys) - n) (xs ++ ys)
      (omega (arith, length-append xs ys, length-drop (length xs - n) (xs ++ ys))))

logs-log_all :
    (es : List Entry) (past : List LogEvent) (s : StateStore)
    → s.logs ≡ last max_logs past
    → (log_all es s).logs ≡ last max_logs (past ++ events es)
unfolding log_all log_event
logs-log_all [] past s h = h ∙ ap (λ t. last max_logs t) (sym (append-nil past))
logs-log_all (e ∷ es) past s h =
    logs-log_all es (past ++ (event e ∷ [])) _ step
    ∙ ap (λ t. last max_logs t) (append_assoc past (event e ∷ []) (events es))
  where
    step : evict (s.logs ++ (event e ∷ [])) ≡ last max_logs (past ++ (event e ∷ []))
    step = rw (h, evict-last) (last-append max_logs past (event e ∷ []))

-- However many events are logged, a fresh store lists exactly the last 200 of them, oldest first.
pub list_logs-log_all : (es : List Entry) → list_logs (log_all es new) ≡ last max_logs (events es)
list_logs-log_all es = logs-log_all es [] new refl
