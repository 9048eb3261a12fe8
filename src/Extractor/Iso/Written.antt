-- ===== src/Extractor/Iso/Written.antt =====
-- crates/bootycall-extractor/src/iso.rs: what an extraction that succeeded has written.
use booty_call.Prelude.{◌≡◌, inl, inr, refl, Option, List, Option-cases}
use mathlib.Core.Path.{subst}
use booty_call.Core.Config.{HostConfig}
use booty_call.Extractor.Copy.{Chunk}
use booty_call.Extractor.Sync.{is_kernel_name, is_initrd_name}
use booty_call.Extractor.Cache.{Node, kernel_not_found, initrd_not_found}
use booty_call.Extractor.Artifact.{
  Stored, Target, IsStored, HoldsAll, store_artifact-IsStored, LeavesBoth,
}
use booty_call.Extractor.Iso
use booty_call.Extractor.Written.{ByOutcome, IsExtracted, ByOutcome-ByError, second}

module _ (Dir File : Type 0) (image : Iso.Iso9660 Dir File) (target : Target)
    (host : HostConfig) where
  -- The files that the overrides name or the search finds.
  abbrev pub IsoChosen : List Chunk → List Chunk → Type 0
  IsoChosen ks is =
      (kernel_file : File) × (initrd_file : File) × (Iso.resolve Dir File image is_kernel_name
          kernel_not_found host.kernel_path
        ≡ Iso.resolved kernel_file)
      × (Iso.resolve Dir File image is_initrd_name initrd_not_found host.initrd_path
          ≡ Iso.resolved initrd_file)
      × (ks ≡ image.read kernel_file)
      × (is ≡ image.read initrd_file)

  iso_second :
      (s : Stored) (kernel_file initrd_file : File) (initrd : Option Node)
      → IsStored (image.read kernel_file) s
      → IsoChosen (image.read kernel_file) (image.read initrd_file)
      → IsExtracted IsoChosen (Iso.then_initrd Dir File image target s initrd_file initrd)
  iso_second s kernel_file initrd_file initrd h c = elim (Option-cases s.error) [
    | inr (e, f) ↦ rw (f, IsExtracted, ByOutcome) tt
    | inl f ↦
        let k = subst (λ o. HoldsAll (image.read kernel_file) o s.node) f h in
        rw (f, IsExtracted)
          (second IsoChosen _ _ s.node _ c k (store_artifact-IsStored _ _ initrd _))
  ]

  iso_files :
      (kernel_file : File) (r : Iso.Resolved Dir File) (kernel initrd : Option Node)
      → Iso.resolve Dir File image is_kernel_name kernel_not_found host.kernel_path
        ≡ Iso.resolved kernel_file
      → Iso.resolve Dir File image is_initrd_name initrd_not_found host.initrd_path ≡ r
      → IsExtracted IsoChosen (Iso.extract_files Dir File image target kernel_file r kernel initrd)
  iso_files kernel_file (Iso.unresolved e) kernel initrd k i = tt
  iso_files kernel_file (Iso.resolved initrd_file) kernel initrd k i =
      iso_second _ kernel_file initrd_file initrd (store_artifact-IsStored _ _ kernel _)
        (kernel_file, initrd_file, k, i, refl, refl)

  iso_resolved :
      (r : Iso.Resolved Dir File) (kernel initrd : Option Node)
      → Iso.resolve Dir File image is_kernel_name kernel_not_found host.kernel_path ≡ r
      → IsExtracted IsoChosen (Iso.extract_resolved Dir File image target host r kernel initrd)
  iso_resolved (Iso.unresolved e) kernel initrd k = tt
  iso_resolved (Iso.resolved kernel_file) kernel initrd k =
      iso_files kernel_file _ kernel initrd k refl

  -- An extraction from an ISO image that succeeds has written both artifacts whole: the bytes of the file that the
  -- override of each names, or that the search for it finds.
  pub extract_from_iso-IsExtracted :
      (kernel initrd : Option Node)
      → IsExtracted IsoChosen
          (Iso.extract_from_iso Dir File (Iso.mounted image) target host kernel initrd)
  unfolding Iso.extract_from_iso
  extract_from_iso-IsExtracted kernel initrd = iso_resolved _ kernel initrd refl

-- Whatever the image, an extraction from it as an ISO leaves both files, or fails.
pub extract_from_iso-LeavesBoth :
    (Dir File : Type 0) (image : Iso.IsoImage Dir File) (target : Target) (host : HostConfig)
    (kernel initrd : Option Node)
    → LeavesBoth (Iso.extract_from_iso Dir File image target host kernel initrd)
unfolding Iso.extract_from_iso
extract_from_iso-LeavesBoth Dir File Iso.file_failed target host kernel initrd = tt
extract_from_iso-LeavesBoth Dir File Iso.not_iso target host kernel initrd = tt
extract_from_iso-LeavesBoth Dir File (Iso.mounted image) target host kernel initrd =
    ByOutcome-ByError _ _ _ _
      (extract_from_iso-IsExtracted Dir File image target host kernel initrd)
