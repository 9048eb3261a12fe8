-- ===== src/Extractor/Disk/Written.antt =====
-- crates/bootycall-extractor/src/disk.rs: what an extraction that succeeded has written.
use booty_call.Prelude.{
  ◌≡◌, ◌⊎◌, inl, inr, refl, Bool, true, false, Option, none, some, List, [], ◌∷◌, Option-cases,
}
use mathlib.Core.Path.{subst}
use booty_call.Core.Config.{HostConfig}
use booty_call.Extractor.Copy.{Chunk, content}
use booty_call.Extractor.Sync.{is_kernel_name, is_initrd_name}
use booty_call.Extractor.Slice.{PartitionSlice}
use booty_call.Extractor.Cache.{Node, file, ExtractorError, Extraction}
use booty_call.Extractor.Artifact.{
  Stored, Target, IsStored, HoldsAll, store_artifact-IsStored, LeavesBoth,
}
use booty_call.Extractor.Disk
use booty_call.Extractor.Written.{ByOutcome, IsExtracted, ByOutcome-ByError, second}

module _ (Dir File : Type 0) (image : Disk.DiskImage Dir File) (target : Target)
    (host : HostConfig) where
  -- The slice of a partition that is in use and has bounds.
  abbrev pub SliceOf : PartitionSlice → List Disk.Partition → Type 0
  SliceOf slice [] = ⊥
  SliceOf slice (p ∷ ps) = (Disk.slice_of Dir File p ≡ some slice) ⊎ SliceOf slice ps

  -- The files that the overrides name or the search finds, on the file system of one partition.
  abbrev pub DiskChosen : List Disk.Partition → List Chunk → List Chunk → Type 0
  DiskChosen ps ks is =
      (slice : PartitionSlice) × (fs : Disk.FileSystem Dir File) × (kernel_file : File)
      × (initrd_file : File) × SliceOf slice ps
      × (image.mount slice ≡ some fs)
      × (Disk.want Dir File fs is_kernel_name host.kernel_path ≡ Disk.wanted kernel_file)
      × (Disk.want Dir File fs is_initrd_name host.initrd_path ≡ Disk.wanted initrd_file)
      × (ks ≡ fs.read kernel_file)
      × (is ≡ fs.read initrd_file)

  module _ (ps : List Disk.Partition) (slice : PartitionSlice) (fs : Disk.FileSystem Dir File)
      (here : SliceOf slice ps) (m : image.mount slice ≡ some fs) where
    disk_initrd :
        (w : Disk.Wanted Dir File) (kernel_file : File) (kernel initrd : Option Node)
        → Disk.want Dir File fs is_kernel_name host.kernel_path ≡ Disk.wanted kernel_file
        → Disk.want Dir File fs is_initrd_name host.initrd_path ≡ w
        → kernel ≡ some (file (content (fs.read kernel_file)))
        → IsExtracted (DiskChosen ps) (Disk.initrd_from Dir File fs target kernel initrd w)
    disk_initrd Disk.not_there kernel_file kernel initrd k i e = tt
    disk_initrd Disk.walk_failed kernel_file kernel initrd k i e = tt
    disk_initrd (Disk.wanted initrd_file) kernel_file kernel initrd k i e =
        second (DiskChosen ps) (fs.read kernel_file) (fs.read initrd_file) kernel _
          (slice, fs, kernel_file, initrd_file, here, m, k, i, refl, refl) e
          (store_artifact-IsStored _ _ initrd _)

    disk_after :
        (s : Stored) (kernel_file : File) (initrd : Option Node)
        → Disk.want Dir File fs is_kernel_name host.kernel_path ≡ Disk.wanted kernel_file
        → IsStored (fs.read kernel_file) s
        → IsExtracted (DiskChosen ps) (Disk.after_kernel Dir File fs target host s initrd)
    disk_after s kernel_file initrd k h = elim (Option-cases s.error) [
      | inr (e, f) ↦ rw (f, IsExtracted, ByOutcome) tt
      | inl f ↦
          rw (f, IsExtracted)
            (disk_initrd _ kernel_file s.node initrd k refl
              (subst (λ o. HoldsAll (fs.read kernel_file) o s.node) f h))
    ]

    disk_kernel :
        (w : Disk.Wanted Dir File) (kernel initrd : Option Node) (rest : Extraction)
        → Disk.want Dir File fs is_kernel_name host.kernel_path ≡ w
        → IsExtracted (DiskChosen ps) rest
        → IsExtracted
            (DiskChosen ps)
            (Disk.kernel_from Dir File fs target host kernel initrd rest w)
    disk_kernel Disk.not_there kernel initrd rest k r = r
    disk_kernel Disk.walk_failed kernel initrd rest k r = tt
    disk_kernel (Disk.wanted kernel_file) kernel initrd rest k r =
        disk_after _ kernel_file initrd k (store_artifact-IsStored _ _ kernel _)

  later_partition :
      (p : Disk.Partition) (ps : List Disk.Partition) (a : Extraction)
      → IsExtracted (DiskChosen ps) a
      → IsExtracted (DiskChosen (p ∷ ps)) a
  later_partition p ps a h = by_rest a.error a.kernel a.initrd h
    where
      by_rest :
          (e : Option ExtractorError) (k i : Option Node)
          → ByOutcome (DiskChosen ps) e k i
          → ByOutcome (DiskChosen (p ∷ ps)) e k i
      by_rest (some e) k i h' = tt
      by_rest none k i (ks, is, (slice, fs, kf, f, s, m, a, b, c, d), k', i') =
          (ks, is, (slice, fs, kf, f, inr s, m, a, b, c, d), k', i')

  disk_mounted :
      (p : Disk.Partition) (ps : List Disk.Partition) (slice : PartitionSlice)
      (fs : Option (Disk.FileSystem Dir File)) (kernel initrd : Option Node) (rest : Extraction)
      → Disk.slice_of Dir File p ≡ some slice
      → image.mount slice ≡ fs
      → IsExtracted (DiskChosen (p ∷ ps)) rest
      → IsExtracted
          (DiskChosen (p ∷ ps))
          (Disk.from_mounted Dir File target host kernel initrd rest fs)
  disk_mounted p ps slice none kernel initrd rest s m r = r
  disk_mounted p ps slice (some fs) kernel initrd rest s m r =
      disk_kernel (p ∷ ps) slice fs (inl s) m _ kernel initrd rest refl r

  disk_reopened :
      (p : Disk.Partition) (ps : List Disk.Partition) (slice : PartitionSlice) (reopened : Bool)
      (kernel initrd : Option Node) (rest : Extraction)
      → Disk.slice_of Dir File p ≡ some slice
      → IsExtracted (DiskChosen (p ∷ ps)) rest
      → IsExtracted
          (DiskChosen (p ∷ ps))
          (Disk.if_reopened Dir File image target host kernel initrd rest slice reopened)
  disk_reopened p ps slice true kernel initrd rest s r =
      disk_mounted p ps slice (image.mount slice) kernel initrd rest s refl r
  disk_reopened p ps slice false kernel initrd rest s r = tt

  disk_slice :
      (p : Disk.Partition) (ps : List Disk.Partition) (slice : Option PartitionSlice)
      (kernel initrd : Option Node) (rest : Extraction)
      → Disk.slice_of Dir File p ≡ slice
      → IsExtracted (DiskChosen (p ∷ ps)) rest
      → IsExtracted
          (DiskChosen (p ∷ ps))
          (Disk.from_slice Dir File image target host kernel initrd rest p slice)
  disk_slice p ps none kernel initrd rest s r = r
  disk_slice p ps (some slice) kernel initrd rest s r =
      disk_reopened p ps slice (image.reopens p) kernel initrd rest s r

  try_partitions-IsExtracted :
      (ps : List Disk.Partition) (kernel initrd : Option Node)
      → IsExtracted
          (DiskChosen ps)
          (Disk.try_partitions Dir File image target host kernel initrd ps)
  unfolding Disk.try_partitions
  try_partitions-IsExtracted [] kernel initrd = tt
  try_partitions-IsExtracted (p ∷ ps) kernel initrd =
      disk_slice p ps (Disk.slice_of Dir File p) kernel initrd _ refl
        (later_partition p ps _ (try_partitions-IsExtracted ps kernel initrd))

  abbrev pub partitions_of : Option (List Disk.Partition) → List Disk.Partition
  partitions_of none = []
  partitions_of (some ps) = ps

  with_partitions-IsExtracted :
      (found_ps : Option (List Disk.Partition)) (kernel initrd : Option Node)
      → IsExtracted
          (DiskChosen (partitions_of found_ps))
          (Disk.with_partitions Dir File image target host kernel initrd found_ps)
  with_partitions-IsExtracted none kernel initrd = tt
  with_partitions-IsExtracted (some ps) kernel initrd = try_partitions-IsExtracted ps kernel initrd

  -- An extraction from a partitioned disk that succeeds has written both artifacts whole, from files of one and the
  -- same partition: one in use, with bounds and a FAT file system. On it they are the files that the overrides
  -- name, or that the search finds.
  pub extract_from_disk-IsExtracted :
      (kernel initrd : Option Node)
      → IsExtracted
          (DiskChosen (partitions_of image.partitions))
          (Disk.extract_from_disk Dir File image target host kernel initrd)
  unfolding Disk.extract_from_disk
  extract_from_disk-IsExtracted kernel initrd =
      with_partitions-IsExtracted image.partitions kernel initrd

  -- Whatever the disk, an extraction from it leaves both files, or fails.
  pub extract_from_disk-LeavesBoth :
      (kernel initrd : Option Node)
      → LeavesBoth (Disk.extract_from_disk Dir File image target host kernel initrd)
  extract_from_disk-LeavesBoth kernel initrd =
      ByOutcome-ByError _ _ _ _ (extract_from_disk-IsExtracted kernel initrd)
