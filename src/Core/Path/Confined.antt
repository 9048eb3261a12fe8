-- ===== src/Core/Path/Confined.antt =====
-- crates/bootycall-core/src/path.rs: what `safe_join` returns does not lead out of the root.
use booty_call.Prelude.{
  ℕ, ◌≡◌, ◌⊎◌, refl, ap, ◌∙◌, inl, inr, true, Option, none, some, List, [], ◌∷◌, ◌++◌, arith,
  Bool-cases, Option-cases,
}
use mathlib.Core.Path.{subst}
use booty_call.Prelude.Bytes.{eq_bytes, eq_bytes_iff}
use booty_call.Core.Path.{
  Components, slashed, components, is_safe, join, starts_with, ancestors, FileSystem, find_existing,
  under, missing, safe_join,
}

-- The path lies under the base.
abbrev pub Under : Components → Components → Type 0
Under base path = (tail : Components) × (path ≡ base ++ tail)

starts_with_sound : (path base : Components) → starts_with path base ≡ true → Under base path
unfolding starts_with
starts_with_sound path [] h = (path, refl)
starts_with_sound [] (b ∷ base) h = cc
starts_with_sound (p ∷ path) (b ∷ base) h = elim (Bool-cases (eq_bytes p b)) [
  | inl same ↦
      let (tail, e) = starts_with_sound path base (ground (arith, same, h)) in
      (tail, ap (λ x. x ∷ path) ((eq_bytes_iff p b).0 same) ∙ ap (λ t. b ∷ t) e)
  | inr other ↦ absurd (ground (arith, other, h))
]

-- What is returned for a request: a canonical path under the canonical root, or the candidate itself when
-- it does not exist and its nearest existing ancestor leads under the canonical root.
abbrev pub IsConfined : FileSystem → Components → List ℕ → Components → Type 0
IsConfined fs root requested path =
    (canonical_root : Components) × (fs.canonicalize root ≡ some canonical_root)
    × (is_safe (components (slashed requested)) ≡ true)
    × (((fs.canonicalize (join root (components (slashed requested))) ≡ some path)
          × Under canonical_root path)
        ⊎ ((fs.canonicalize path ≡ none)
            × (path ≡ join root (components (slashed requested)))
            × ((ancestor : Components) × (led : Components) × (find_existing fs (ancestors path)
                  ≡ some ancestor)
                × (fs.canonicalize ancestor ≡ some led)
                × Under canonical_root led)))

abbrev IsJoined : FileSystem → Components → List ℕ → Option Components → Type 0
IsJoined fs root requested none = Unit
IsJoined fs root requested (some path) = IsConfined fs root requested path

module _ (fs : FileSystem) (root : Components) (requested : List ℕ) where
  abbrev candidate : Components
  candidate = join root (components (slashed requested))

  existing :
      (canonical_root led : Components)
      → fs.canonicalize root ≡ some canonical_root
      → is_safe (components (slashed requested)) ≡ true
      → fs.canonicalize candidate ≡ some led
      → IsJoined fs root requested (under fs canonical_root led led)
  existing canonical_root led r safe e = elim (Bool-cases (starts_with led canonical_root)) [
    | inr outside ↦ rw outside tt
    | inl inside ↦
        rw inside (canonical_root, r, safe, inl (e, starts_with_sound led canonical_root inside))
  ]

  absent :
      (canonical_root : Components)
      → fs.canonicalize root ≡ some canonical_root
      → is_safe (components (slashed requested)) ≡ true
      → fs.canonicalize candidate ≡ none
      → IsJoined fs root requested (missing fs canonical_root candidate)
  absent canonical_root r safe e = elim (Option-cases (find_existing fs (ancestors candidate))) [
    | inl f ↦ rw (f, IsJoined) tt
    | inr (ancestor, f) ↦ elim (Option-cases (fs.canonicalize ancestor)) [
      | inl c ↦ rw (f, c, IsJoined) tt
      | inr (led, c) ↦ elim (Bool-cases (starts_with led canonical_root)) [
        | inr outside ↦ rw (f, c, outside, IsJoined) tt
        | inl inside ↦
            rw (f, c, inside, IsJoined)
              (
                canonical_root,
                r,
                safe,
                inr (e, refl, (ancestor, led, f, c, starts_with_sound led canonical_root inside)),
              )
      ]
    ]
  ]

  safe_join-IsJoined : IsJoined fs root requested (safe_join fs root requested)
  unfolding safe_join
  safe_join-IsJoined = elim (Bool-cases (is_safe (components (slashed requested)))) [
    | inr unsafe ↦ rw (unsafe, IsJoined) tt
    | inl safe ↦ elim (Option-cases (fs.canonicalize root)) [
      | inl r ↦ rw (safe, r, IsJoined) tt
      | inr (canonical_root, r) ↦ elim (Option-cases (fs.canonicalize candidate)) [
        | inl e ↦ rw (safe, r, e, IsJoined) (absent canonical_root r safe e)
        | inr (led, e) ↦ rw (safe, r, e, IsJoined) (existing canonical_root led r safe e)
      ]
    ]
  ]

  -- No path is ever returned that leads out of the root, as far as the file system's answers tell. Only a
  -- request without `..` and not absolute gets a path. If its target exists, the answer is where
  -- that leads, which lies under where the root leads. If not, the answer is the target itself, and its
  -- nearest existing ancestor leads under where the root leads.
  pub safe_join-IsConfined :
      (path : Components)
      → safe_join fs root requested ≡ some path
      → IsConfined fs root requested path
  safe_join-IsConfined path h = subst (IsJoined fs root requested) h safe_join-IsJoined
