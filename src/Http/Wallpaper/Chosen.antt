-- ===== src/Http/Wallpaper/Chosen.antt =====
-- crates/bootycall-http/src/server.rs: which wallpaper a client is sent to.
use booty_call.Prelude.{
  ℕ, zero, suc, ◌≤◌, ◌≡◌, ◌⊎◌, inl, inr, refl, true, false, Option, none, some, List, [], ◌∷◌, ◌++◌,
  length, All, arith, Bool-cases, Option-cases,
}
use mathlib.Core.Path.{subst}
use booty_call.Prelude.Bytes.{codes}
use booty_call.Text.Utf8.{from_utf8_lossy}
use booty_call.Core.Path.{Components, safe_join}
use booty_call.Http.{Disk}
use booty_call.Http.Wallpaper.{
  max_wallpaper_candidates, is_image, collect_loop, listed, collect_wallpaper_candidates,
  WallpaperQuery, target_width, target_height, res_dir_name, prefixed, pick, in_res_dir,
  selected_path,
}

-- The entry stands in the listing.
abbrev pub Entry : Option (List ℕ) → List (Option (List ℕ)) → Type 0
Entry e [] = ⊥
Entry e (x ∷ xs) = (x ≡ e) ⊎ Entry e xs

-- A name that the directory lists, and that ends like an image.
abbrev pub IsListedImage : List (Option (List ℕ)) → List ℕ → Type 0
IsListedImage entries name =
    (is_image name ≡ true)
    × ((raw : List ℕ) × (from_utf8_lossy raw ≡ name) × Entry (some raw) entries)

later :
    (e : Option (List ℕ)) (entries : List (Option (List ℕ))) (names : List (List ℕ))
    → All (IsListedImage entries) names
    → All (IsListedImage (e ∷ entries)) names
later e entries [] h = tt
later e entries (n ∷ ns) h =
    let (image, (raw, same, here)) = h.0 in ((image, (raw, same, inr here)), later e entries ns h.1)

collect_loop-images :
    (room : ℕ) (entries : List (Option (List ℕ)))
    → (length (collect_loop room entries) ≤ room)
      × All (IsListedImage entries) (collect_loop room entries)
unfolding collect_loop
collect_loop-images zero entries = (omega arith, tt)
collect_loop-images (suc room) [] = (omega arith, tt)
collect_loop-images (suc room) (none ∷ entries) = (omega arith, tt)
collect_loop-images (suc room) (some raw ∷ entries) =
    elim (Bool-cases (is_image (from_utf8_lossy raw))) [
      | inl image ↦
          let (short, all) = collect_loop-images room entries in
          rw image
            (omega (arith, short), ((image, (raw, refl, inl refl)), later (some raw) entries _ all))
      | inr other ↦
          let (short, all) = collect_loop-images (suc room) entries in
          rw other (short, later (some raw) entries _ all)
    ]

-- At most 1024 candidates are collected from a directory, and each of them is the name of an entry that the
-- directory lists and ends in `.png`, `.jpg` or `.jpeg`.
pub collect_wallpaper_candidates-images :
    (disk : Disk) (dir : Components)
    → (length (collect_wallpaper_candidates disk dir) ≤ max_wallpaper_candidates)
      × All (IsListedImage (listed (disk.read_dir dir))) (collect_wallpaper_candidates disk dir)
unfolding collect_wallpaper_candidates
collect_wallpaper_candidates-images disk dir =
    collect_loop-images max_wallpaper_candidates (listed (disk.read_dir dir))

-- The names that can be read of a directory: the listing ends at an entry that cannot be.
abbrev pub readable : List (Option (List ℕ)) → List (List ℕ)
readable [] = []
readable (none ∷ entries) = []
readable (some raw ∷ entries) = raw ∷ readable entries

-- No name that can be read of the directory ends like an image.
abbrev pub HasNoImage : List (Option (List ℕ)) → Type 0
HasNoImage entries = All (λ raw. is_image (from_utf8_lossy raw) ≡ false) (readable entries)

collect_loop-nil :
    (room : ℕ) (entries : List (Option (List ℕ)))
    → collect_loop (suc room) entries ≡ []
    → HasNoImage entries
unfolding collect_loop
collect_loop-nil room [] e = tt
collect_loop-nil room (none ∷ entries) e = tt
collect_loop-nil room (some raw ∷ entries) e = elim (Bool-cases (is_image (from_utf8_lossy raw))) [
  | inl image ↦ absurd (ground (arith, image, e))
  | inr other ↦
      let rest : collect_loop (suc room) entries ≡ [] = ground (arith, other, e) in
      (other, collect_loop-nil room entries rest)
]

-- A directory that yields no candidate has no image.
candidates-nil :
    (disk : Disk) (dir : Components)
    → collect_wallpaper_candidates disk dir ≡ []
    → HasNoImage (listed (disk.read_dir dir))
unfolding collect_wallpaper_candidates
candidates-nil disk dir e = collect_loop-nil 1023 (listed (disk.read_dir dir)) e

List-cases :
    (xs : List (List ℕ)) → (xs ≡ []) ⊎ ((c : List ℕ) × (cs : List (List ℕ)) × (xs ≡ c ∷ cs))
List-cases [] = inl refl
List-cases (c ∷ cs) = inr (c, cs, refl)

-- The name stands in the list.
abbrev pub In : List ℕ → List (List ℕ) → Type 0
In n [] = ⊥
In n (x ∷ xs) = (x ≡ n) ⊎ In n xs

All-In : (P : List ℕ → Type 0) (n : List ℕ) (names : List (List ℕ)) → All P names → In n names → P n
All-In P n [] h i = absurd i
All-In P n (x ∷ xs) h (inl e) = subst P e h.0
All-In P n (x ∷ xs) h (inr i) = All-In P n xs h.1 i

module _ (disk : Disk) (choose : List (List ℕ) → Option (List ℕ)) where
  -- There is no image for the resolution: none was asked for, its directory is not below the root, or has no image.
  abbrev pub HasNoneFor : Components → WallpaperQuery → Type 0
  HasNoneFor root q =
      (target_width q ≡ none)
      ⊎ (target_height q ≡ none)
      ⊎ ((w : ℕ) × (h : ℕ) × (target_width q ≡ some w)
          × (target_height q ≡ some h)
          × (safe_join disk.system root (res_dir_name w h) ≡ none))
      ⊎ ((w : ℕ) × (h : ℕ) × (dir : Components) × (target_width q ≡ some w)
          × (target_height q ≡ some h)
          × (safe_join disk.system root (res_dir_name w h) ≡ some dir)
          × HasNoImage (listed (disk.read_dir dir)))

  -- The path below `wallpapers` and the directory it stands for: the one of the resolution, or the main one.
  abbrev pub IsPlace : Components → WallpaperQuery → List ℕ → Components → Type 0
  IsPlace root q prefix dir =
      ((prefix ≡ codes "wallpapers/") × (dir ≡ root) × HasNoneFor root q)
      ⊎ ((w : ℕ) × (h : ℕ) × (target_width q ≡ some w)
          × (target_height q ≡ some h)
          × (prefix ≡ codes "wallpapers/" ++ (res_dir_name w h ++ codes "/"))
          × (safe_join disk.system root (res_dir_name w h) ≡ some dir))

  abbrev pub IsSelected : Components → WallpaperQuery → Option (List ℕ) → Type 0
  IsSelected root q none = HasNoneFor root q × HasNoImage (listed (disk.read_dir root))
  IsSelected root q (some path) =
      (prefix : List ℕ) × (dir : Components) × (name : List ℕ) × (path ≡ prefix ++ name)
      × IsPlace root q prefix dir
      × IsListedImage (listed (disk.read_dir dir)) name

  module _
      (chooses : (c : List ℕ) (cs : List (List ℕ))
        → (n : List ℕ) × (choose (c ∷ cs) ≡ some n) × In n (c ∷ cs)) where
    picked :
        (dir : Components)
        → (HasNoImage (listed (disk.read_dir dir)) × (pick disk choose dir ≡ none))
          ⊎ ((name : List ℕ) × (pick disk choose dir ≡ some name)
              × IsListedImage (listed (disk.read_dir dir)) name)
    picked dir = elim (List-cases (collect_wallpaper_candidates disk dir)) [
      | inl e ↦ inl (candidates-nil disk dir e, rw (e, pick) refl)
      | inr (c, cs, e) ↦
          let (n, chosen, here) = chooses c cs in
          let all =
            subst (All (IsListedImage (listed (disk.read_dir dir)))) e
              (collect_wallpaper_candidates-images disk dir).1 in
          inr (n, rw (e, pick) chosen, All-In _ n (c ∷ cs) all here)
    ]

    main_wallpaper :
        (root : Components) (q : WallpaperQuery)
        → HasNoneFor root q
        → IsSelected root q (prefixed (codes "wallpapers/") (pick disk choose root))
    main_wallpaper root q no_other = elim (picked root) [
      | inl (e, p) ↦ rw (p, IsSelected) (no_other, e)
      | inr (name, p, l) ↦
          rw (p, IsSelected) (codes "wallpapers/", root, name, refl, inl (refl, refl, no_other), l)
    ]

    -- By what the directory of the resolution gave.
    abbrev falls_back : Components → Option (List ℕ) → Option (List ℕ)
    falls_back root o = elim o [
      | some path ↦ some path
      | none ↦ prefixed (codes "wallpapers/") (pick disk choose root)
    ]

    by_resolution :
        (root : Components) (q : WallpaperQuery) (tw th : Option ℕ)
        → target_width q ≡ tw
        → target_height q ≡ th
        → IsSelected root q (falls_back root (in_res_dir disk choose root tw th))
    by_resolution root q none th ew eh = main_wallpaper root q (inl ew)
    by_resolution root q (some w) none ew eh = main_wallpaper root q (inr (inl eh))
    by_resolution root q (some w) (some h) ew eh =
        elim (Option-cases (safe_join disk.system root (res_dir_name w h))) [
          | inl j ↦ rw (j, IsSelected) (main_wallpaper root q (inr (inr (inl (w, h, ew, eh, j)))))
          | inr (dir, j) ↦ elim (picked dir) [
            | inl (e, p) ↦
                rw (j, p, IsSelected)
                  (main_wallpaper root q (inr (inr (inr (w, h, dir, ew, eh, j, e)))))
            | inr (name, p, l) ↦
                rw (j, p, IsSelected) (_, dir, name, refl, inr (w, h, ew, eh, refl, j), l)
          ]
        ]

    -- Whatever the random choice among candidates, a client is sent to an image that is listed in the directory of
    -- the resolution it asked for; to one in the main directory only if it asked for none, or its directory is
    -- not there or has no image that can be read; and to none only if the main one has none either.
    pub selected_path-IsSelected :
        (root : Components) (q : WallpaperQuery)
        → IsSelected root q (selected_path disk choose root q)
    unfolding selected_path
    selected_path-IsSelected root q =
        by_resolution root q (target_width q) (target_height q) refl refl
