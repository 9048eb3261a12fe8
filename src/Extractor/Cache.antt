-- ===== src/Extractor/Cache.antt =====
-- crates/bootycall-extractor/src/lib.rs: the cache of one host, when it is valid, and its synchronisation.
pub mod Reuse
pub mod Settled
use booty_call.Prelude.{
  ℕ, Bool, true, false, not, ◌&&◌, Option, none, some, List, [], ◌∷◌, ◌++◌, ◌==◌, ltb, length,
  if◌then◌else◌,
}
use booty_call.Prelude.Bytes.{eq_bytes}
use booty_call.Core.HostMap.{is_some}
use booty_call.Core.Config.{HostConfig}

pub data Node : Type 0 where
  file : (content : List ℕ) → Node
  directory : Node

-- The directory of a host below the cache directory: whether it is there, and what has these names in it.
pub record HostCache : Type 0 where
  pub present : Bool
  pub kernel : Option Node
  pub initrd : Option Node
  pub metadata : Option Node
  pub legacy_metadata : Option Node

-- `fs::metadata(path).map(|m| m.is_file() && m.len() > 0).unwrap_or(false)`
abbrev pub nonempty : Option Node → Bool
nonempty none = false
nonempty (some directory) = false
nonempty (some (file content)) = ltb 0 (length content)

unfoldable pub host_cache_ready : HostCache → Bool
host_cache_ready cache = nonempty cache.kernel && nonempty cache.initrd

pub record CacheMetadata : Type 0 where
  pub image_path : List ℕ
  pub mtime_secs : ℕ
  pub size : ℕ
  pub kernel_override : Option (List ℕ)
  pub initrd_override : Option (List ℕ)

abbrev pub eq_option : Option (List ℕ) → Option (List ℕ) → Bool
eq_option none none = true
eq_option none (some t) = false
eq_option (some s) none = false
eq_option (some s) (some t) = eq_bytes s t

-- The test on what the metadata file says.
unfoldable pub matches : CacheMetadata → HostConfig → ℕ → ℕ → Bool
matches meta host current_mtime current_size =
    eq_bytes meta.image_path host.image_path
    && (meta.mtime_secs == current_mtime
        && (meta.size == current_size
            && (eq_option meta.kernel_override host.kernel_path
                && eq_option meta.initrd_override host.initrd_path)))

pub data ExtractorError : Type 0 where
  io iso disk kernel_not_found initrd_not_found : ExtractorError
  image_not_found : (path : List ℕ) → ExtractorError
  artifact_too_large : (limit : ℕ) → ExtractorError

-- `fs::metadata` of the image: the time is `none` when it cannot be read or lies before 1970.
pub data Stat : Type 0 where
  stat_not_found stat_failed : Stat
  stat_ok : (mtime : Option ℕ) (size : ℕ) → Stat

-- What an attempt to extract left of the two files, and its error, if any.
pub record Extraction : Type 0 where
  pub kernel : Option Node
  pub initrd : Option Node
  pub error : Option ExtractorError

-- What the system answers while one host is synchronised: the attempts depend on the files they find.
-- A write of the metadata that fails leaves what `torn` says.
pub record Env : Type 0 where
  pub stat : List ℕ → Stat
  pub removes : Bool
  pub creates_dir : Bool
  pub from_iso : HostConfig → Option Node → Option Node → Extraction
  pub from_disk : HostConfig → Option Node → Option Node → Extraction
  pub writes : Bool
  pub torn : Option Node
  pub to_json : CacheMetadata → Option (List ℕ)
  pub from_json : List ℕ → Option CacheMetadata

-- A result, and the directory it leaves. `Ok(())` is `none`.
pub record Synced : Type 0 where
  pub error : Option ExtractorError
  pub cache : HostCache
  pub extracted : Bool

-- `let _ = fs::remove_file(path)`: a directory is not removed.
abbrev pub remove_file : Bool → Option Node → Option Node
remove_file removes none = none
remove_file removes (some directory) = some directory
remove_file removes (some (file content)) = if removes then none else some (file content)

abbrev pub metadata_for : HostConfig → ℕ → ℕ → CacheMetadata
metadata_for host mtime size = record {
  image_path = host.image_path;
  mtime_secs = mtime;
  size = size;
  kernel_override = host.kernel_path;
  initrd_override = host.initrd_path;
}

module _ (env : Env) where
  -- `CacheMetadata::read_from_file`
  abbrev pub read_from_file : Option Node → Option CacheMetadata
  read_from_file none = none
  read_from_file (some directory) = none
  read_from_file (some (file content)) = env.from_json content

  abbrev pub matches_read : Option CacheMetadata → HostConfig → ℕ → ℕ → Bool
  matches_read none host mtime size = false
  matches_read (some meta) host mtime size = matches meta host mtime size

  unfoldable pub cache_valid : HostCache → HostConfig → ℕ → ℕ → Bool
  cache_valid cache host mtime size =
      is_some cache.metadata
      && (is_some cache.kernel
          && (is_some cache.initrd && matches_read (read_from_file cache.metadata) host mtime size))

  -- `CacheMetadata::write_to_file`: an error of the encoder touches nothing.
  abbrev pub write_to_file : Option (List ℕ) → HostCache → Synced
  write_to_file none cache = record { error = some io; cache = cache; extracted = true }
  write_to_file (some content) cache =
      if env.writes
      then record {
        error = none;
        cache = record cache { metadata = some (file content) };
        extracted = true;
      }
      else record {
        error = some io;
        cache = record cache { metadata = env.torn };
        extracted = true;
      }

  -- The end of `sync_host_cache`, after the attempts.
  unfoldable pub finish_sync : HostConfig → ℕ → ℕ → Extraction → HostCache → Synced
  finish_sync host mtime size attempt cache = elim attempt.error [
    | none ↦
        write_to_file (env.to_json (metadata_for host mtime size))
          (record cache { kernel = attempt.kernel; initrd = attempt.initrd })
    | some e ↦ record {
      error = some e;
      cache = record cache {
        kernel = remove_file env.removes attempt.kernel;
        initrd = remove_file env.removes attempt.initrd;
        metadata = remove_file env.removes cache.metadata;
      };
      extracted = true;
    }
  ]

  -- As an ISO image first; if that failed, as a partitioned disk, over what the first attempt left.
  unfoldable pub extract : HostConfig → HostCache → Extraction
  extract host cache =
      let first = env.from_iso host cache.kernel cache.initrd in
      elim first.error [ none ↦ first | some e ↦ env.from_disk host first.kernel first.initrd ]

  abbrev pub drop_legacy : HostCache → HostCache
  drop_legacy cache = record cache {
    legacy_metadata = remove_file env.removes cache.legacy_metadata;
  }

  abbrev pub extract_into : HostConfig → ℕ → ℕ → HostCache → Synced
  extract_into host mtime size cache = finish_sync host mtime size (extract host cache) cache

  -- `if !host_cache_dir.exists() { fs::create_dir_all(&host_cache_dir)?; }`
  unfoldable pub refresh : HostConfig → ℕ → ℕ → HostCache → Synced
  refresh host mtime size cache =
      if cache.present
      then extract_into host mtime size cache
      else if env.creates_dir
      then extract_into host mtime size (record cache { present = true })
      else record { error = some io; cache = cache; extracted = false }

  abbrev pub failed_with : ExtractorError → HostCache → Synced
  failed_with e cache = record { error = some e; cache = cache; extracted = false }

  -- The image has been measured.
  unfoldable pub sync_measured : HostConfig → ℕ → ℕ → HostCache → Synced
  sync_measured host mtime size cache =
      if cache_valid cache host mtime size
      then record { error = none; cache = drop_legacy cache; extracted = false }
      else refresh host mtime size (drop_legacy cache)

  abbrev pub sync_stat : HostConfig → HostCache → Stat → Synced
  sync_stat host cache stat_not_found = failed_with (image_not_found host.image_path) cache
  sync_stat host cache stat_failed = failed_with io cache
  sync_stat host cache (stat_ok none size) = failed_with io cache
  sync_stat host cache (stat_ok (some mtime) size) = sync_measured host mtime size cache

  unfoldable pub sync_host_cache : HostConfig → HostCache → Synced
  sync_host_cache host cache = sync_stat host cache (env.stat host.image_path)
