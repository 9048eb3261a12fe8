-- ===== src/Extractor/Iso.antt =====
-- crates/bootycall-extractor/src/iso.rs: `extract_from_iso`. The crate iso9660 reads the image.
pub mod Written
use booty_call.Prelude.{ℕ, Bool, true, false, Option, none, some, List, [], ◌∷◌}
use booty_call.Core.Config.{HostConfig}
use booty_call.Extractor.Copy.{Chunk}
use booty_call.Extractor.Sync.{is_kernel_name, is_initrd_name}
use booty_call.Extractor.Walk.{Entry, Walked, found, nothing, broken, find_file_recursive}
use booty_call.Extractor.Cache.{
  Node, ExtractorError, io, iso, kernel_not_found, initrd_not_found, Extraction,
}
use booty_call.Extractor.Artifact.{Stored, Target, store_artifact}

module _ (Dir File : Type 0) where
  -- What `ISO9660::open` finds at a path.
  pub data Opened : Type 0 where
    open_failed absent opened_dir : Opened
    opened_file : File → Opened

  pub record Iso9660 : Type 0 where
    pub root : Dir
    pub contents : Dir → List (Entry Dir File)
    pub open_path : List ℕ → Opened
    pub read : File → List Chunk

  -- Whether the image opens, and what the crate makes of it.
  pub data IsoImage : Type 0 where
    file_failed not_iso : IsoImage
    mounted : Iso9660 → IsoImage

  pub data Resolved : Type 0 where
    resolved : File → Resolved
    unresolved : ExtractorError → Resolved

  abbrev pub of_open : ExtractorError → Opened → Resolved
  of_open missing open_failed = unresolved iso
  of_open missing absent = unresolved missing
  of_open missing opened_dir = unresolved missing
  of_open missing (opened_file f) = resolved f

  abbrev pub of_walk : ExtractorError → Walked Dir File → Resolved
  of_walk missing (found name f) = resolved f
  of_walk missing nothing = unresolved missing
  of_walk missing broken = unresolved iso

  -- An override is opened; without one the directories are searched.
  unfoldable pub resolve : Iso9660 → (List ℕ → Bool) → ExtractorError → Option (List ℕ) → Resolved
  resolve image filter missing (some path) = of_open missing (image.open_path path)
  resolve image filter missing none =
      of_walk missing (find_file_recursive Dir File image.contents filter image.root)

  abbrev pub stop : Option Node → Option Node → ExtractorError → Extraction
  stop kernel initrd e = record { kernel = kernel; initrd = initrd; error = some e }

  abbrev pub then_initrd : Iso9660 → Target → Stored → File → Option Node → Extraction
  then_initrd image target kernel initrd_file initrd = elim kernel.error [
    | some e ↦ stop kernel.node initrd e
    | none ↦
        let stored =
          store_artifact target.max_bytes target.creates_initrd initrd (image.read initrd_file) in
        record { kernel = kernel.node; initrd = stored.node; error = stored.error }
  ]

  -- Both files have been resolved.
  abbrev pub extract_files :
      Iso9660 → Target → File → Resolved → Option Node → Option Node → Extraction
  extract_files image target kernel_file (unresolved e) kernel initrd = stop kernel initrd e
  extract_files image target kernel_file (resolved initrd_file) kernel initrd =
      then_initrd image target
        (store_artifact target.max_bytes target.creates_kernel kernel (image.read kernel_file))
        initrd_file initrd

  abbrev pub extract_resolved :
      Iso9660 → Target → HostConfig → Resolved → Option Node → Option Node → Extraction
  extract_resolved image target host (unresolved e) kernel initrd = stop kernel initrd e
  extract_resolved image target host (resolved kernel_file) kernel initrd =
      extract_files image target kernel_file
        (resolve image is_initrd_name initrd_not_found host.initrd_path) kernel initrd

  -- Over what is there under the names of the two artifacts.
  unfoldable pub extract_from_iso :
      IsoImage → Target → HostConfig → Option Node → Option Node → Extraction
  extract_from_iso file_failed target host kernel initrd = stop kernel initrd io
  extract_from_iso not_iso target host kernel initrd = stop kernel initrd iso
  extract_from_iso (mounted image) target host kernel initrd =
      extract_resolved image target host
        (resolve image is_kernel_name kernel_not_found host.kernel_path) kernel initrd
