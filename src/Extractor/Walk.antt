-- ===== src/Extractor/Walk.antt =====
-- crates/bootycall-extractor/src/iso.rs and disk.rs: the search for a file through the directories of an image.
-- A directory of the image is what its reader lists for it: an image may well list a directory above itself.
pub mod Found
use booty_call.Prelude.{ℕ, zero, suc, Bool, true, false, ◌||◌, List, [], ◌∷◌, leb, if◌then◌else◌}
use booty_call.Prelude.Bytes.{codes, eq_bytes}

abbrev pub max_dir_depth : ℕ
max_dir_depth = 64

unfoldable pub depth_exceeded : ℕ → Bool
depth_exceeded depth = leb max_dir_depth depth

-- `name == "." || name == ".."`
abbrev pub is_dots : List ℕ → Bool
is_dots name = eq_bytes name (codes ".") || eq_bytes name (codes "..")

module _ (Dir File : Type 0) where
  -- An entry of a directory; on a FAT image it may be neither a file nor a directory.
  pub data Entry : Type 0 where
    file_entry : (name : List ℕ) → File → Entry
    dir_entry : (name : List ℕ) → Dir → Entry
    other_entry unreadable : Entry

  -- `Ok(Some(file))` with the name that passed, `Ok(None)`, and an error of the reader.
  pub data Walked : Type 0 where
    found : (name : List ℕ) → File → Walked
    nothing broken : Walked

  -- A result that ends the search, or else the rest of it.
  abbrev pub or_rest : Walked → Walked → Walked
  or_rest (found name f) rest = found name f
  or_rest broken rest = broken
  or_rest nothing rest = rest

  module _ (contents : Dir → List Entry) (filter : List ℕ → Bool) where
    -- The loop over the entries of a directory; `descend` searches a directory below.
    unfoldable pub scan : (Dir → Walked) → List Entry → Walked
    scan descend [] = nothing
    scan descend (file_entry name f ∷ es) =
        let rest = scan descend es in if filter name then found name f else rest
    scan descend (dir_entry name d ∷ es) =
        let rest = scan descend es in if is_dots name then rest else or_rest (descend d) rest
    scan descend (other_entry ∷ es) = scan descend es
    scan descend (unreadable ∷ es) = broken

    -- The search with `left` levels to go: `left` is `MAX_DIR_DEPTH - depth`, and at 0 `depth_exceeded` holds.
    unfoldable pub find_file_recursive_bounded : ℕ → Dir → Walked
    find_file_recursive_bounded zero dir = nothing
    find_file_recursive_bounded (suc left) dir =
        scan (find_file_recursive_bounded left) (contents dir)

    unfoldable pub find_file_recursive : Dir → Walked
    find_file_recursive = find_file_recursive_bounded max_dir_depth
