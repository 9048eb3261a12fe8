-- ===== src/Tests/Images.antt =====
-- crates/bootycall-extractor at concrete inputs.
use booty_call.Prelude.{
  ℕ, zero, suc, ◌≡◌, refl, ap, sym, arith, Bool-cases, if◌then◌else◌, inl, inr, Bool, true, false,
  Option, none, some, List, [], ◌∷◌,
}
use booty_call.Prelude.Bytes.{codes}
use booty_call.Core.Config.{HostConfig}
use booty_call.Extractor.Copy.{chunk}
use booty_call.Extractor.Sync.{is_kernel_name}
use booty_call.Extractor.Walk.{
  Entry, file_entry, dir_entry, found, nothing, find_file_recursive, max_dir_depth,
}
use booty_call.Extractor.Walk.Found.{Holds, find_file_recursive-found}
use booty_call.Extractor.Cache.{
  Node, file, HostCache, CacheMetadata, metadata_for, matches, stat_ok, Env, sync_host_cache,
  drop_legacy,
}
use booty_call.Extractor.Cache.Reuse.{matches_iff, IsCurrent, sync_host_cache-reuses}
use booty_call.Extractor.Images.{
  System, env_of, AreWhole, ChosenOnImage, sync_image-settles, sync_image-AreWhole,
}
use booty_call.Extractor.Artifact.{Target}
use booty_call.Extractor.Written.{IsExtracted}
use booty_call.Extractor.Iso.{Iso9660, absent, IsoImage, mounted, extract_from_iso}
use booty_call.Extractor.Disk.{FileSystem, DiskImage, extract_from_disk}
use booty_call.Extractor.Disk.Written.{DiskChosen, partitions_of, extract_from_disk-IsExtracted}

-- An image whose root lists itself, a directory with a kernel, and an initrd.
abbrev contents : ℕ → List (Entry ℕ ℕ)
contents zero =
    dir_entry (codes "loop") 0 ∷ dir_entry (codes "boot") 1 ∷ file_entry (codes "initrd.img") 8 ∷ []
contents (suc d) = file_entry (codes "vmlinuz") 7 ∷ []

abbrev boot_contents : ℕ → List (Entry ℕ ℕ)
boot_contents zero = dir_entry (codes "..") 0 ∷ dir_entry (codes "boot") 1 ∷ []
boot_contents (suc d) = file_entry (codes "VMLINUZ") 7 ∷ []

walked : find_file_recursive ℕ ℕ boot_contents is_kernel_name 0 ≡ found (codes "VMLINUZ") 7
unfolding find_file_recursive booty_call.Extractor.Walk.find_file_recursive_bounded
    booty_call.Extractor.Walk.scan is_kernel_name
walked = refl

found_example :
    (is_kernel_name (codes "VMLINUZ") ≡ true)
    × Holds ℕ ℕ boot_contents max_dir_depth 0 (codes "VMLINUZ") 7
found_example =
    find_file_recursive-found ℕ ℕ boot_contents is_kernel_name 0 (codes "VMLINUZ") 7 walked

-- A name that nothing in the image has.
abbrev no_name : List ℕ → Bool
no_name name = false

walked_empty : find_file_recursive ℕ ℕ boot_contents no_name 0 ≡ nothing
unfolding find_file_recursive booty_call.Extractor.Walk.find_file_recursive_bounded
    booty_call.Extractor.Walk.scan
walked_empty = refl

abbrev image : Iso9660 ℕ ℕ
image = record {
  root = 0;
  contents = contents;
  open_path = λ path. absent;
  read = λ f. chunk (f ∷ []) true ∷ [];
}

abbrev target : Target
target = record { max_bytes = some 100; creates_kernel = true; creates_initrd = true }

abbrev host : HostConfig
host = record {
  mac = codes "52:54:00:10:ab:ff";
  name = codes "rescue";
  image_path = codes "rescue.iso";
  bootloader = none;
  kernel_path = none;
  initrd_path = none;
  cmdline = none;
}

abbrev fat : FileSystem ℕ ℕ
fat = record {
  root_dir = 0;
  iter = contents;
  open_file = λ path. none;
  read = λ f. chunk (f ∷ []) true ∷ [];
}

abbrev disk_image : DiskImage ℕ ℕ
disk_image = record {
  partitions = some (record { is_used = true; bytes_start = some 512; bytes_len = some 4096 } ∷ []);
  reopens = λ p. true;
  mount = λ slice. some fat;
}

disk_example :
    IsExtracted
      (DiskChosen ℕ ℕ disk_image target host
        (partitions_of ℕ ℕ disk_image target host disk_image.partitions))
      (extract_from_disk ℕ ℕ disk_image target host none none)
disk_example = extract_from_disk-IsExtracted ℕ ℕ disk_image target host none none

abbrev known : CacheMetadata
known = metadata_for host 5 9

-- A stand-in for JSON that can write one value.
abbrev to_json : CacheMetadata → Option (List ℕ)
to_json m = if matches m host 5 9 then some (5 ∷ []) else none

json : (m : CacheMetadata) (c : List ℕ) → to_json m ≡ some c → some known ≡ some m
json m c e = elim (Bool-cases (matches m host 5 9)) [
  | inl same ↦ ap some (sym ((matches_iff m host 5 9).0 same))
  | inr other ↦ absurd (ground (arith, other, e))
]

abbrev system : System ℕ ℕ ℕ ℕ
system = record {
  stat = λ path. stat_ok (some 5) 9;
  iso_image = λ path. mounted image;
  disk_image = λ path. disk_image;
  target = target;
  removes = true;
  creates_dir = true;
  writes = true;
  torn = none;
  to_json = to_json;
  from_json = λ c. some known;
}

abbrev env : Env
env = env_of ℕ ℕ ℕ ℕ system

abbrev no_cache : HostCache
no_cache = record {
  present = false;
  kernel = none;
  initrd = none;
  metadata = none;
  legacy_metadata = none;
}

first_sync : (sync_host_cache env host no_cache).error ≡ none
unfolding sync_host_cache booty_call.Extractor.Cache.sync_measured
    booty_call.Extractor.Cache.cache_valid booty_call.Extractor.Cache.refresh
    booty_call.Extractor.Cache.finish_sync booty_call.Extractor.Cache.extract extract_from_iso
    booty_call.Extractor.Iso.resolve find_file_recursive
    booty_call.Extractor.Walk.find_file_recursive_bounded booty_call.Extractor.Walk.scan
    booty_call.Extractor.Sync.is_initrd_name booty_call.Extractor.Sync.contains
    booty_call.Extractor.Artifact.store_artifact booty_call.Extractor.Copy.copy_capped
    booty_call.Extractor.Copy.copy_loop is_kernel_name matches
first_sync = refl

settles_example :
    ((sync_host_cache env host (sync_host_cache env host no_cache).cache).error ≡ none)
    × ((sync_host_cache env host (sync_host_cache env host no_cache).cache).extracted ≡ false)
    × ((sync_host_cache env host (sync_host_cache env host no_cache).cache).cache
        ≡ drop_legacy env (sync_host_cache env host no_cache).cache)
settles_example = sync_image-settles ℕ ℕ ℕ ℕ system host json no_cache first_sync

newly_extracted : (sync_host_cache env host no_cache).extracted ≡ true
unfolding sync_host_cache booty_call.Extractor.Cache.sync_measured
    booty_call.Extractor.Cache.cache_valid booty_call.Extractor.Cache.refresh
    booty_call.Extractor.Cache.finish_sync booty_call.Extractor.Cache.extract extract_from_iso
    booty_call.Extractor.Iso.resolve find_file_recursive
    booty_call.Extractor.Walk.find_file_recursive_bounded booty_call.Extractor.Walk.scan
    booty_call.Extractor.Sync.is_initrd_name booty_call.Extractor.Sync.contains
    booty_call.Extractor.Artifact.store_artifact booty_call.Extractor.Copy.copy_capped
    booty_call.Extractor.Copy.copy_loop is_kernel_name matches
newly_extracted = refl

whole_example :
    AreWhole
      (ChosenOnImage ℕ ℕ ℕ ℕ system host)
      (sync_host_cache env host no_cache).cache.kernel
      (sync_host_cache env host no_cache).cache.initrd
whole_example = sync_image-AreWhole ℕ ℕ ℕ ℕ system host no_cache first_sync newly_extracted

abbrev full_cache : HostCache
full_cache = record {
  present = true;
  kernel = some (file (7 ∷ []));
  initrd = some (file (8 ∷ []));
  metadata = some (file (5 ∷ []));
  legacy_metadata = none;
}

reused : (sync_host_cache env host full_cache).error ≡ none
unfolding sync_host_cache booty_call.Extractor.Cache.sync_measured
    booty_call.Extractor.Cache.cache_valid matches
reused = refl

not_extracted : (sync_host_cache env host full_cache).extracted ≡ false
unfolding sync_host_cache booty_call.Extractor.Cache.sync_measured
    booty_call.Extractor.Cache.cache_valid matches
not_extracted = refl

reuses_example :
    (mtime : ℕ) × (size : ℕ) × (env.stat host.image_path ≡ stat_ok (some mtime) size)
    × IsCurrent env host mtime size full_cache
    × ((sync_host_cache env host full_cache).cache ≡ drop_legacy env full_cache)
reuses_example = sync_host_cache-reuses env host full_cache reused not_extracted
