-- ===== src/Core/Path.antt =====
-- crates/bootycall-core/src/path.rs: `safe_join`, over a file system that is given.
-- A path is the list of its normal components below the root directory, or below the working directory.
pub mod Confined
use booty_call.Prelude.{
  ℕ, Bool, true, false, ◌&&◌, Option, none, some, List, [], ◌∷◌, ◌++◌, ◌==◌, if◌then◌else◌, map,
  reverse,
}
use booty_call.Prelude.Bytes.{eq_bytes}

abbrev pub Components : Type 0
Components = List (List ℕ)

-- `std::path::Component`; there is no `Prefix` on Unix.
pub data Component : Type 0 where
  root_dir : Component
  parent_dir : Component
  cur_dir : Component
  normal : List ℕ → Component

-- `requested.replace('\\', "/")`
abbrev pub slashed : List ℕ → List ℕ
slashed s = map (λ b. if b == b'\\' then b'/' else b) s

-- The segments between slashes.
unfoldable pub segments : List ℕ → List ℕ → List (List ℕ)
segments piece [] = reverse piece ∷ []
segments piece (b ∷ bs) =
    let rest = segments [] bs in
    let more = segments (b ∷ piece) bs in if b == b'/' then reverse piece ∷ rest else more

abbrev dot : List ℕ
dot = b'.' ∷ []

abbrev dot_dot : List ℕ
dot_dot = b'.' ∷ b'.' ∷ []

-- `Path::components` leaves out empty segments, and `.` where it does not stand first.
abbrev pub of_segment : List ℕ → List Component → List Component
of_segment [] more = more
of_segment (b ∷ bs) more =
    if eq_bytes (b ∷ bs) dot
    then more
    else if eq_bytes (b ∷ bs) dot_dot
    then parent_dir ∷ more
    else normal (b ∷ bs) ∷ more

unfoldable pub of_segments : List (List ℕ) → List Component
of_segments [] = []
of_segments (s ∷ ss) = of_segment s (of_segments ss)

-- The first segment of a relative path.
abbrev of_first : List ℕ → List Component → List Component
of_first s more = if eq_bytes s dot then cur_dir ∷ more else of_segment s more

abbrev relative : List (List ℕ) → List Component
relative [] = []
relative (s ∷ ss) = of_first s (of_segments ss)

unfoldable pub components : List ℕ → List Component
components [] = []
components (b ∷ bs) =
    if b == b'/' then root_dir ∷ of_segments (segments [] bs) else relative (segments [] (b ∷ bs))

-- The loop that rejects what leaves the root.
unfoldable pub is_safe : List Component → Bool
is_safe [] = true
is_safe (parent_dir ∷ cs) = false
is_safe (root_dir ∷ cs) = false
is_safe (cur_dir ∷ cs) = is_safe cs
is_safe (normal s ∷ cs) = is_safe cs

-- What `join` of a relative path adds to the components of the root.
unfoldable pub normals : List Component → Components
normals [] = []
normals (normal s ∷ cs) = s ∷ normals cs
normals (other ∷ cs) = normals cs

abbrev pub join : Components → List Component → Components
join root requested = root ++ normals requested

unfoldable pub starts_with : Components → Components → Bool
starts_with path [] = true
starts_with [] (b ∷ base) = false
starts_with (p ∷ path) (b ∷ base) = eq_bytes p b && starts_with path base

-- `ancestors`: the path itself, then each parent, up to the root.
abbrev parents : List ℕ → List Components → List Components
parents s [] = []
parents s (p ∷ ps) = (s ∷ p) ∷ parents s ps

unfoldable pub ancestors : Components → List Components
ancestors [] = [] ∷ []
ancestors (s ∷ path) = parents s (ancestors path) ++ ([] ∷ [])

-- The file system: where a path leads, if it exists, and whether it exists.
pub record FileSystem : Type 0 where
  pub canonicalize : Components → Option Components
  pub exists : Components → Bool

module _ (fs : FileSystem) where
  -- `find(|a| a.exists())`
  unfoldable pub find_existing : List Components → Option Components
  find_existing [] = none
  find_existing (p ∷ ps) = if fs.exists p then some p else find_existing ps

  -- A path that leads outside the root is refused.
  abbrev pub under : Components → Components → Components → Option Components
  under canonical_root led answer = if starts_with led canonical_root then some answer else none

  -- The candidate does not exist.
  abbrev pub missing : Components → Components → Option Components
  missing canonical_root candidate = elim (find_existing (ancestors candidate)) [
    | none ↦ none
    | some existing_ancestor ↦ elim (fs.canonicalize existing_ancestor) [
      | none ↦ none
      | some canonical_ancestor ↦ under canonical_root canonical_ancestor candidate
    ]
  ]

  abbrev pub confine : Components → Components → Option Components
  confine canonical_root candidate = elim (fs.canonicalize candidate) [
    | some canonical_candidate ↦ under canonical_root canonical_candidate canonical_candidate
    | none ↦ missing canonical_root candidate
  ]

  unfoldable pub safe_join : Components → List ℕ → Option Components
  safe_join root requested =
      let requested_path = components (slashed requested) in
      if is_safe requested_path
      then elim (fs.canonicalize root) [
        | none ↦ none
        | some canonical_root ↦ confine canonical_root (join root requested_path)
      ]
      else none
