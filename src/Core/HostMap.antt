-- ===== src/Core/HostMap.antt =====
-- The `HashMap` of crates/bootycall-core/src/state.rs: byte-string keys, each of them once.
-- The order in which a `HashMap` yields its entries is unspecified; nothing below depends on it.
use booty_call.Prelude.{
  ℕ, ◌+◌, ◌≤◌, ◌≡◌, refl, Bool, true, false, Option, none, some, List, [], ◌∷◌, arith,
  if◌then◌else◌, length, Bool-cases, inl, inr,
}
use booty_call.Prelude.Bytes.{eq_bytes, eq_bytes_iff}

abbrev pub HostMap {ℓ} : Type ℓ → Type ℓ
HostMap V = List (List ℕ × V)

abbrev pub is_some {ℓ} : {A : Type ℓ} → Option A → Bool
is_some none = false
is_some (some a) = true

-- An option that is kept only if its value passes the test.
abbrev pub keep_if {ℓ} : {A : Type ℓ} → (A → Bool) → Option A → Option A
keep_if p none = none
keep_if p (some a) = if p a then some a else none

module _ {ℓ} {V : Type ℓ} where
  unfoldable pub lookup : List ℕ → HostMap V → Option V
  lookup k [] = none
  lookup k ((j, v) ∷ m) = if eq_bytes j k then some v else lookup k m

  -- `entry(k).or_insert_with(…)` and the change of the entry that follows it.
  unfoldable pub upsert : List ℕ → (Option V → V) → HostMap V → HostMap V
  upsert k f [] = (k, f none) ∷ []
  upsert k f ((j, v) ∷ m) = if eq_bytes j k then (j, f (some v)) ∷ m else (j, v) ∷ upsert k f m

  -- `retain`
  unfoldable pub retain : (V → Bool) → HostMap V → HostMap V
  retain p [] = []
  retain p ((j, v) ∷ m) = let rest = retain p m in if p v then (j, v) ∷ rest else rest

  -- `values().any(…)`
  unfoldable pub any_value : (V → Bool) → HostMap V → Bool
  any_value p [] = false
  any_value p ((j, v) ∷ m) = if p v then true else any_value p m

  -- Every key stands once.
  abbrev pub Distinct : HostMap V → Type ℓ
  Distinct [] = Unit
  Distinct ((j, v) ∷ m) = (lookup j m ≡ none) × Distinct m

module _ {ℓ} {V : Type ℓ} where
  pub lookup-upsert :
      (k j : List ℕ) (f : Option V → V) (m : HostMap V)
      → lookup j (upsert k f m) ≡ (if eq_bytes k j then some (f (lookup k m)) else lookup j m)
  unfolding lookup upsert
  lookup-upsert k j f [] = refl
  lookup-upsert k j f ((i, v) ∷ m) =
      ground (arith, eq_bytes_iff k j, eq_bytes_iff i k, eq_bytes_iff i j, lookup-upsert k j f m)

  pub length-upsert :
      (k : List ℕ) (f : Option V → V) (m : HostMap V)
      → length (upsert k f m) ≡ (if is_some (lookup k m) then length m else length m + 1)
  unfolding lookup upsert
  length-upsert k f [] = refl
  length-upsert k f ((i, v) ∷ m) = ground (arith, length-upsert k f m)

  upsert-fresh :
      (i k : List ℕ) (f : Option V → V) (m : HostMap V)
      → lookup i m ≡ none
      → eq_bytes i k ≡ false
      → lookup i (upsert k f m) ≡ none
  upsert-fresh i k f m h e = rw lookup-upsert (ground (arith, eq_bytes_iff i k, eq_bytes_iff k i))

  pub upsert-Distinct :
      (k : List ℕ) (f : Option V → V) (m : HostMap V) → Distinct m → Distinct (upsert k f m)
  unfolding upsert lookup
  upsert-Distinct k f [] h = (refl, tt)
  upsert-Distinct k f ((i, v) ∷ m) h = elim (Bool-cases (eq_bytes i k)) [
    | inl same ↦ rw same h
    | inr other ↦ rw other (upsert-fresh i k f m h.0 other, upsert-Distinct k f m h.1)
  ]

  pub length-retain-le : (p : V → Bool) (m : HostMap V) → length (retain p m) ≤ length m
  unfolding retain
  length-retain-le p [] = omega arith
  length-retain-le p ((i, v) ∷ m) = ground (arith, length-retain-le p m)

  pub lookup-retain :
      (p : V → Bool) (j : List ℕ) (m : HostMap V)
      → Distinct m
      → lookup j (retain p m) ≡ keep_if p (lookup j m)
  unfolding lookup retain
  lookup-retain p j [] h = refl
  lookup-retain p j ((i, v) ∷ m) h = ground (arith, eq_bytes_iff i j, lookup-retain p j m h.1, h.0)

  pub retain-Distinct : (p : V → Bool) (m : HostMap V) → Distinct m → Distinct (retain p m)
  unfolding retain
  retain-Distinct p [] h = tt
  retain-Distinct p ((i, v) ∷ m) h = elim (Bool-cases (p v)) [
    | inl kept ↦ rw kept (rw (lookup-retain p i m h.1, h.0), retain-Distinct p m h.1)
    | inr dropped ↦ rw dropped (retain-Distinct p m h.1)
  ]

  pub any_value_of_lookup :
      (p : V → Bool) (j : List ℕ) (m : HostMap V) {v : V}
      → lookup j m ≡ some v
      → p v ≡ true
      → any_value p m ≡ true
  unfolding lookup any_value
  any_value_of_lookup p j [] h t = cc
  any_value_of_lookup p j ((i, w) ∷ m) {v} h t = ground (arith, any_value_of_lookup p j m {v = v})
