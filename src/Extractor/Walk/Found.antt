-- ===== src/Extractor/Walk/Found.antt =====
-- crates/bootycall-extractor/src/iso.rs and disk.rs: what the search finds, and what it misses.
use booty_call.Prelude.{
  ℕ, zero, suc, ◌≡◌, ◌⊎◌, inl, inr, refl, Bool, true, false, List, [], ◌∷◌, arith, Bool-cases,
}
use booty_call.Extractor.Walk.{
  max_dir_depth, is_dots, Entry, file_entry, dir_entry, other_entry, unreadable, Walked, found,
  nothing, broken, scan, find_file_recursive_bounded, find_file_recursive,
}

module _ (Dir File : Type 0) (contents : Dir → List (Entry Dir File)) where
  -- The file is this entry, or lies below it, where `below` says what lies below a directory.
  abbrev pub AtEntry : (Dir → Type 0) → List ℕ → File → Entry Dir File → Type 0
  AtEntry below name f (file_entry n g) = (n ≡ name) × (g ≡ f)
  AtEntry below name f (dir_entry n d) = (is_dots n ≡ false) × below d
  AtEntry below name f other_entry = ⊥
  AtEntry below name f unreadable = ⊥

  abbrev pub Among : (Dir → Type 0) → List ℕ → File → List (Entry Dir File) → Type 0
  Among below name f [] = ⊥
  Among below name f (e ∷ es) = AtEntry below name f e ⊎ Among below name f es

  -- The image holds the file under this name, in the directory or at most `left - 1` directories further
  -- down, never through `.` or `..`.
  abbrev pub Holds : ℕ → Dir → List ℕ → File → Type 0
  Holds zero dir name f = ⊥
  Holds (suc left) dir name f = Among (λ d. Holds left d name f) name f (contents dir)

  Walked-cases :
      (w : Walked Dir File)
      → ((n : List ℕ) × (f : File) × (w ≡ found n f)) ⊎ ((w ≡ nothing) ⊎ (w ≡ broken))
  Walked-cases (found n f) = inl (n, f, refl)
  Walked-cases nothing = inr (inl refl)
  Walked-cases broken = inr (inr refl)

  module _ (filter : List ℕ → Bool) where
    abbrev walk : ℕ → Dir → Walked Dir File
    walk = find_file_recursive_bounded Dir File contents filter

    scan-found :
        (left : ℕ) (name : List ℕ) (f : File) (es : List (Entry Dir File))
        → ((d : Dir) → walk left d ≡ found name f → (filter name ≡ true) × Holds left d name f)
        → scan Dir File contents filter (walk left) es ≡ found name f
        → (filter name ≡ true) × Among (λ d. Holds left d name f) name f es
    unfolding scan
    scan-found left name f [] ih h = cc
    scan-found left name f (file_entry n g ∷ es) ih h = elim (Bool-cases (filter n)) [
      | inl fits ↦
          let same : n ≡ name = cc in let this : g ≡ f = cc in (rw (← same) fits, inl (same, this))
      | inr other ↦
          let (fits, below) = scan-found left name f es ih (ground (arith, other, h)) in
          (fits, inr below)
    ]
    scan-found left name f (dir_entry n d ∷ es) ih h = elim (Bool-cases (is_dots n)) [
      | inl dots ↦
          let (fits, below) = scan-found left name f es ih (ground (arith, dots, h)) in
          (fits, inr below)
      | inr plain ↦ elim (Walked-cases (walk left d)) [
        | inl (m, g, e) ↦ let (fits, below) = ih d cc in (fits, inl (plain, below))
        | inr (inl e) ↦ let (fits, below) = scan-found left name f es ih cc in (fits, inr below)
        | inr (inr e) ↦ cc
      ]
    ]
    scan-found left name f (other_entry ∷ es) ih h =
        let (fits, below) = scan-found left name f es ih h in (fits, inr below)
    scan-found left name f (unreadable ∷ es) ih h = cc

    walk-found :
        (left : ℕ) (dir : Dir) (name : List ℕ) (f : File)
        → walk left dir ≡ found name f
        → (filter name ≡ true) × Holds left dir name f
    unfolding find_file_recursive_bounded
    walk-found zero dir name f h = cc
    walk-found (suc left) dir name f h =
        scan-found left name f (contents dir) (λ d e. walk-found left d name f e) h

    scan-nothing :
        (left : ℕ) (name : List ℕ) (f : File) (es : List (Entry Dir File))
        → ((d : Dir) → walk left d ≡ nothing → Holds left d name f → filter name ≡ false)
        → scan Dir File contents filter (walk left) es ≡ nothing
        → Among (λ d. Holds left d name f) name f es
        → filter name ≡ false
    unfolding scan
    scan-nothing left name f [] ih h here = absurd here
    scan-nothing left name f (file_entry n g ∷ es) ih h here = elim (Bool-cases (filter n)) [
      | inl fits ↦ absurd (ground (arith, fits, h))
      | inr other ↦ elim here [
        | inl (same, this) ↦ rw (← same) other
        | inr below ↦ scan-nothing left name f es ih (ground (arith, other, h)) below
      ]
    ]
    scan-nothing left name f (dir_entry n d ∷ es) ih h here = elim (Bool-cases (is_dots n)) [
      | inl dots ↦ elim here [
        | inl (plain, below) ↦ absurd (ground (arith, dots, plain))
        | inr below ↦ scan-nothing left name f es ih (ground (arith, dots, h)) below
      ]
      | inr plain ↦ elim (Walked-cases (walk left d)) [
        | inl (m, g, e) ↦ absurd (ground (arith, plain, e, h))
        | inr (inr e) ↦ absurd (ground (arith, plain, e, h))
        | inr (inl e) ↦ elim here [
          | inl (p, below) ↦ ih d e below
          | inr below ↦ scan-nothing left name f es ih (cc) below
        ]
      ]
    ]
    scan-nothing left name f (other_entry ∷ es) ih h (inl here) = absurd here
    scan-nothing left name f (other_entry ∷ es) ih h (inr below) =
        scan-nothing left name f es ih h below
    scan-nothing left name f (unreadable ∷ es) ih h here = cc

    walk-nothing :
        (left : ℕ) (dir : Dir) (name : List ℕ) (f : File)
        → walk left dir ≡ nothing
        → Holds left dir name f
        → filter name ≡ false
    unfolding find_file_recursive_bounded
    walk-nothing zero dir name f h below = absurd below
    walk-nothing (suc left) dir name f h below =
        scan-nothing left name f (contents dir) (λ d e b. walk-nothing left d name f e b) h below

    -- What the search returns is a file of the image whose name passes, at most 63 directories below the
    -- one it starts from, and not reached through `.` or `..`, however the image nests or repeats
    -- its directories.
    pub find_file_recursive-found :
        (dir : Dir) (name : List ℕ) (f : File)
        → find_file_recursive Dir File contents filter dir ≡ found name f
        → (filter name ≡ true) × Holds max_dir_depth dir name f
    unfolding find_file_recursive
    find_file_recursive-found dir name f h = walk-found max_dir_depth dir name f h

    -- The search comes back with nothing only if no file that it could reach, at most 63 directories down,
    -- has a name that passes.
    pub find_file_recursive-nothing :
        (dir : Dir) (name : List ℕ) (f : File)
        → find_file_recursive Dir File contents filter dir ≡ nothing
        → Holds max_dir_depth dir name f
        → filter name ≡ false
    unfolding find_file_recursive
    find_file_recursive-nothing dir name f h below = walk-nothing max_dir_depth dir name f h below
