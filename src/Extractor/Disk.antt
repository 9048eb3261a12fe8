-- ===== src/Extractor/Disk.antt =====
-- crates/bootycall-extractor/src/disk.rs: `extract_from_disk`. The crates gpt and fatfs read the image.
pub mod Written
use booty_call.Prelude.{ℕ, Bool, true, false, not, Option, none, some, List, [], ◌∷◌, if◌then◌else◌}
use booty_call.Core.Config.{HostConfig}
use booty_call.Extractor.Copy.{Chunk}
use booty_call.Extractor.Sync.{is_kernel_name, is_initrd_name}
use booty_call.Extractor.Walk.{Entry, Walked, found, nothing, broken, find_file_recursive}
use booty_call.Extractor.Slice.{PartitionSlice, new_slice}
use booty_call.Extractor.Cache.{
  Node, ExtractorError, io, disk, kernel_not_found, initrd_not_found, Extraction,
}
use booty_call.Extractor.Artifact.{Stored, Target, store_artifact}

-- A partition: its bounds are `none` where the crate cannot compute them.
pub record Partition : Type 0 where
  pub is_used : Bool
  pub bytes_start : Option ℕ
  pub bytes_len : Option ℕ

module _ (Dir File : Type 0) where
  pub record FileSystem : Type 0 where
    pub root_dir : Dir
    pub iter : Dir → List (Entry Dir File)
    pub open_file : List ℕ → Option File
    pub read : File → List Chunk

  -- The partitions, unless the table cannot be read; whether the image can be opened again for a partition;
  -- and the FAT file system on a slice of it, if there is one.
  pub record DiskImage : Type 0 where
    pub partitions : Option (List Partition)
    pub reopens : Partition → Bool
    pub mount : PartitionSlice → Option FileSystem

  -- A file to copy, none, or an error of the walker.
  pub data Wanted : Type 0 where
    wanted : File → Wanted
    not_there walk_failed : Wanted

  abbrev pub of_open : Option File → Wanted
  of_open none = not_there
  of_open (some f) = wanted f

  abbrev pub of_walk : Walked Dir File → Wanted
  of_walk (found name f) = wanted f
  of_walk nothing = not_there
  of_walk broken = walk_failed

  unfoldable pub want : FileSystem → (List ℕ → Bool) → Option (List ℕ) → Wanted
  want fs filter (some path) = of_open (fs.open_file path)
  want fs filter none = of_walk (find_file_recursive Dir File fs.iter filter fs.root_dir)

  -- The kernel was extracted from this partition, so its initrd is to come from it as well.
  abbrev pub initrd_from : FileSystem → Target → Option Node → Option Node → Wanted → Extraction
  initrd_from fs target kernel initrd not_there = record {
    kernel = kernel;
    initrd = initrd;
    error = some initrd_not_found;
  }
  initrd_from fs target kernel initrd walk_failed = record {
    kernel = kernel;
    initrd = initrd;
    error = some io;
  }
  initrd_from fs target kernel initrd (wanted f) =
      let stored = store_artifact target.max_bytes target.creates_initrd initrd (fs.read f) in
      record { kernel = kernel; initrd = stored.node; error = stored.error }

  abbrev pub after_kernel : FileSystem → Target → HostConfig → Stored → Option Node → Extraction
  after_kernel fs target host kernel initrd = elim kernel.error [
    | some e ↦ record { kernel = kernel.node; initrd = initrd; error = some e }
    | none ↦ initrd_from fs target kernel.node initrd (want fs is_initrd_name host.initrd_path)
  ]

  -- A partition without the kernel passes the search on to the `rest`.
  abbrev pub kernel_from :
      FileSystem
      → Target
      → HostConfig
      → Option Node
      → Option Node
      → Extraction
      → Wanted
      → Extraction
  kernel_from fs target host kernel initrd rest not_there = rest
  kernel_from fs target host kernel initrd rest walk_failed = record {
    kernel = kernel;
    initrd = initrd;
    error = some io;
  }
  kernel_from fs target host kernel initrd rest (wanted f) =
      after_kernel fs target host
        (store_artifact target.max_bytes target.creates_kernel kernel (fs.read f)) initrd

  abbrev pub from_mounted :
      Target → HostConfig → Option Node → Option Node → Extraction → Option FileSystem → Extraction
  from_mounted target host kernel initrd rest none = rest
  from_mounted target host kernel initrd rest (some fs) =
      kernel_from fs target host kernel initrd rest (want fs is_kernel_name host.kernel_path)

  -- The slice of a partition that is in use and has bounds.
  abbrev pub slice_of : Partition → Option PartitionSlice
  slice_of p =
      if p.is_used
      then elim p.bytes_start [
        | none ↦ none
        | some start ↦ elim p.bytes_len [ none ↦ none | some len ↦ some (new_slice start len) ]
      ]
      else none

  abbrev pub if_reopened :
      DiskImage
      → Target
      → HostConfig
      → Option Node
      → Option Node
      → Extraction
      → PartitionSlice
      → Bool
      → Extraction
  if_reopened image target host kernel initrd rest slice true =
      from_mounted target host kernel initrd rest (image.mount slice)
  if_reopened image target host kernel initrd rest slice false = record {
    kernel = kernel;
    initrd = initrd;
    error = some io;
  }

  abbrev pub from_slice :
      DiskImage
      → Target
      → HostConfig
      → Option Node
      → Option Node
      → Extraction
      → Partition
      → Option PartitionSlice
      → Extraction
  from_slice image target host kernel initrd rest p none = rest
  from_slice image target host kernel initrd rest p (some slice) =
      if_reopened image target host kernel initrd rest slice (image.reopens p)

  unfoldable pub try_partitions :
      DiskImage → Target → HostConfig → Option Node → Option Node → List Partition → Extraction
  try_partitions image target host kernel initrd [] = record {
    kernel = kernel;
    initrd = initrd;
    error = some kernel_not_found;
  }
  try_partitions image target host kernel initrd (p ∷ ps) =
      from_slice image target host kernel initrd (try_partitions image target host kernel initrd ps)
        p (slice_of p)

  abbrev pub with_partitions :
      DiskImage
      → Target
      → HostConfig
      → Option Node
      → Option Node
      → Option (List Partition)
      → Extraction
  with_partitions image target host kernel initrd none = record {
    kernel = kernel;
    initrd = initrd;
    error = some disk;
  }
  with_partitions image target host kernel initrd (some partitions) =
      try_partitions image target host kernel initrd partitions

  unfoldable pub extract_from_disk :
      DiskImage → Target → HostConfig → Option Node → Option Node → Extraction
  extract_from_disk image target host kernel initrd =
      with_partitions image target host kernel initrd image.partitions
