-- ===== src/Extractor/Images.antt =====
-- crates/bootycall-extractor/src: the synchronisation of a host with both readers of images.
use booty_call.Prelude.{
  ℕ, ◌≡◌, refl, Bool, true, false, Option, none, some, List, Bool-cases, Option-cases, inl, inr,
  ◌⊎◌,
}
use booty_call.Core.Config.{HostConfig}
use booty_call.Extractor.Copy.{Chunk, content}
use booty_call.Extractor.Cache.{
  Node, file, ExtractorError, HostCache, CacheMetadata, Stat, stat_not_found, stat_failed, stat_ok,
  Extraction, Env, cache_valid, write_to_file, finish_sync, extract, drop_legacy, refresh,
  sync_measured, sync_stat, sync_host_cache,
}
use booty_call.Extractor.Cache.Settled.{sync_host_cache-settles}
use booty_call.Extractor.Artifact.{Target}
use booty_call.Extractor.Written.{ByOutcome}
use booty_call.Extractor.Iso.{Iso9660, IsoImage, file_failed, not_iso, mounted, extract_from_iso}
use booty_call.Extractor.Iso.Written.{
  IsoChosen, extract_from_iso-IsExtracted, extract_from_iso-LeavesBoth,
}
use booty_call.Extractor.Disk.{DiskImage, extract_from_disk}
use booty_call.Extractor.Disk.Written.{
  DiskChosen, partitions_of, extract_from_disk-IsExtracted, extract_from_disk-LeavesBoth,
}

-- An attempt that succeeded left what `Q` says.
abbrev pub Yields : (Option Node → Option Node → Type 0) → Extraction → Type 0
Yields Q a = (a.error ≡ none) → Q a.kernel a.initrd

module _ (Q : Option Node → Option Node → Type 0) (env : Env) (host : HostConfig)
    (iso-Yields : (k i : Option Node) → Yields Q (env.from_iso host k i))
    (disk-Yields : (k i : Option Node) → Yields Q (env.from_disk host k i)) where
  extract-Yields : (cache : HostCache) → Yields Q (extract env host cache)
  unfolding extract
  extract-Yields cache =
      let first = env.from_iso host cache.kernel cache.initrd in
      elim (Option-cases first.error) [
        | inl e ↦ rw (e, extract) (λ ok. iso-Yields cache.kernel cache.initrd e)
        | inr (f, e) ↦ rw (e, extract) (disk-Yields first.kernel first.initrd)
      ]

  write_to_file-Yields :
      (out : Option (List ℕ)) (cache : HostCache)
      → Q cache.kernel cache.initrd
      → Q (write_to_file env out cache).cache.kernel (write_to_file env out cache).cache.initrd
  write_to_file-Yields none cache q = q
  write_to_file-Yields (some content) cache q = elim (Bool-cases env.writes) [
    | inl w ↦ rw w q
    | inr w ↦ rw w q
  ]

  finish_sync-Yields :
      (mtime size : ℕ) (attempt : Extraction) (cache : HostCache)
      → Yields Q attempt
      → (finish_sync env host mtime size attempt cache).error ≡ none
      → Q
          (finish_sync env host mtime size attempt cache).cache.kernel
          (finish_sync env host mtime size attempt cache).cache.initrd
  unfolding finish_sync
  finish_sync-Yields mtime size attempt cache q = elim (Option-cases attempt.error) [
    | inl e ↦ rw (e, finish_sync) (λ ok. write_to_file-Yields _ _ (q e))
    | inr (f, e) ↦ rw (e, finish_sync) (λ ok. cc)
  ]

  refresh-Yields :
      (mtime size : ℕ) (cache : HostCache)
      → (refresh env host mtime size cache).error ≡ none
      → Q
          (refresh env host mtime size cache).cache.kernel
          (refresh env host mtime size cache).cache.initrd
  unfolding refresh
  refresh-Yields mtime size cache = elim (Bool-cases cache.present) [
    | inl e ↦ rw e (finish_sync-Yields mtime size _ _ (extract-Yields _))
    | inr e ↦ elim (Bool-cases env.creates_dir) [
      | inl c ↦ simp (e, c) (finish_sync-Yields mtime size _ _ (extract-Yields _))
      | inr c ↦ simp (e, c) (λ ok. cc)
    ]
  ]

  sync_measured-Yields :
      (mtime size : ℕ) (cache : HostCache)
      → (sync_measured env host mtime size cache).error ≡ none
      → (sync_measured env host mtime size cache).extracted ≡ true
      → Q
          (sync_measured env host mtime size cache).cache.kernel
          (sync_measured env host mtime size cache).cache.initrd
  unfolding sync_measured
  sync_measured-Yields mtime size cache =
      elim (Bool-cases (cache_valid env cache host mtime size)) [
        | inl v ↦ rw v (λ ok new. cc)
        | inr stale ↦ rw stale (λ ok new. refresh-Yields mtime size (drop_legacy env cache) ok)
      ]

  sync_stat-Yields :
      (cache : HostCache) (found : Stat)
      → (sync_stat env host cache found).error ≡ none
      → (sync_stat env host cache found).extracted ≡ true
      → Q
          (sync_stat env host cache found).cache.kernel
          (sync_stat env host cache found).cache.initrd
  sync_stat-Yields cache stat_not_found ok new = cc
  sync_stat-Yields cache stat_failed ok new = cc
  sync_stat-Yields cache (stat_ok none size) ok new = cc
  sync_stat-Yields cache (stat_ok (some mtime) size) ok new =
      sync_measured-Yields mtime size cache ok new

-- The kernel and the initrd are whole, as the readers of the chosen files give them.
abbrev pub AreWhole : (List Chunk → List Chunk → Type 0) → Option Node → Option Node → Type 0
AreWhole chosen kernel initrd =
    (ks : List Chunk) × (is : List Chunk) × chosen ks is
    × (kernel ≡ some (file (content ks)))
    × (initrd ≡ some (file (content is)))

whole :
    (chosen more : List Chunk → List Chunk → Type 0) (e : Option ExtractorError)
    (kernel initrd : Option Node)
    → ((ks is : List Chunk) → chosen ks is → more ks is)
    → ByOutcome chosen e kernel initrd
    → e ≡ none
    → AreWhole more kernel initrd
whole chosen more none kernel initrd into (ks, is, c, k, i) ok = (ks, is, into ks is c, k, i)
whole chosen more (some f) kernel initrd into h ok = cc

module _ (Dir File FatDir FatFile : Type 0) where
  -- The images, by path, and what the system and the crate serde_json answer.
  pub record System : Type 0 where
    pub stat : List ℕ → Stat
    pub iso_image : List ℕ → IsoImage Dir File
    pub disk_image : List ℕ → DiskImage FatDir FatFile
    pub target : Target
    pub removes : Bool
    pub creates_dir : Bool
    pub writes : Bool
    pub torn : Option Node
    pub to_json : CacheMetadata → Option (List ℕ)
    pub from_json : List ℕ → Option CacheMetadata

  abbrev pub env_of : System → Env
  env_of s = record {
    stat = s.stat;
    removes = s.removes;
    creates_dir = s.creates_dir;
    from_iso = λ h k i. extract_from_iso Dir File (s.iso_image h.image_path) s.target h k i;
    from_disk =
        λ h k i. extract_from_disk FatDir FatFile (s.disk_image h.image_path) s.target h k i;
    writes = s.writes;
    torn = s.torn;
    to_json = s.to_json;
    from_json = s.from_json;
  }

  module _ (s : System) (host : HostConfig) where
    -- With both readers of images, a synchronisation that succeeded, whether it extracted or not, is done: the
    -- next one for the same host and the same image succeeds without extracting, and leaves both files and the
    -- metadata alone. For this the metadata must read back as they were written.
    pub sync_image-settles :
        ((m : CacheMetadata) (c : List ℕ) → s.to_json m ≡ some c → s.from_json c ≡ some m)
        → (cache : HostCache) → (sync_host_cache (env_of s) host cache).error ≡ none
        → ((sync_host_cache (env_of s) host (sync_host_cache (env_of s) host cache).cache).error
            ≡ none)
          × ((sync_host_cache
                (env_of s)
                host
                (sync_host_cache (env_of s) host cache).cache).extracted
              ≡ false)
          × ((sync_host_cache (env_of s) host (sync_host_cache (env_of s) host cache).cache).cache
              ≡ drop_legacy (env_of s) (sync_host_cache (env_of s) host cache).cache)
    sync_image-settles json =
        sync_host_cache-settles (env_of s) host json
          (λ h k i. extract_from_iso-LeavesBoth Dir File (s.iso_image h.image_path) s.target h k i)
          (λ h k i.
            extract_from_disk-LeavesBoth FatDir FatFile (s.disk_image h.image_path) s.target h k i)

    -- The files that were chosen on the ISO image.
    abbrev pub ChosenOnIso : List Chunk → List Chunk → Type 0
    ChosenOnIso ks is =
        (image : Iso9660 Dir File) × (s.iso_image host.image_path ≡ mounted image)
        × IsoChosen Dir File image s.target host ks is

    -- The files that were chosen on a partition of the disk.
    abbrev pub ChosenOnDisk : List Chunk → List Chunk → Type 0
    ChosenOnDisk =
        let image = s.disk_image host.image_path in
        DiskChosen FatDir FatFile image s.target host
          (partitions_of FatDir FatFile image s.target host image.partitions)

    abbrev pub ChosenOnImage : List Chunk → List Chunk → Type 0
    ChosenOnImage ks is = ChosenOnIso ks is ⊎ ChosenOnDisk ks is

    iso-Yields :
        (image : IsoImage Dir File) (kernel initrd : Option Node)
        → s.iso_image host.image_path ≡ image
        → Yields
            (AreWhole ChosenOnImage)
            (extract_from_iso Dir File image s.target host kernel initrd)
    unfolding extract_from_iso
    iso-Yields file_failed kernel initrd e = λ ok. cc
    iso-Yields not_iso kernel initrd e = λ ok. cc
    iso-Yields (mounted image) kernel initrd e =
        whole (IsoChosen Dir File image s.target host) ChosenOnImage _ _ _
          (λ ks is c. inl (image, e, c))
          (extract_from_iso-IsExtracted Dir File image s.target host kernel initrd)

    disk-Yields :
        (kernel initrd : Option Node)
        → Yields (AreWhole ChosenOnImage) (
            extract_from_disk FatDir FatFile
              (s.disk_image host.image_path)
              s.target
              host
              kernel
              initrd)
    disk-Yields kernel initrd =
        whole ChosenOnDisk ChosenOnImage _ _ _ (λ ks is c. inr c)
          (extract_from_disk-IsExtracted FatDir FatFile (s.disk_image host.image_path) s.target host
            kernel initrd)

    -- A synchronisation that extracted and succeeded leaves both artifacts whole in the cache, whatever was there
    -- before: the bytes of the files that were chosen on the ISO image, or of those that were chosen on one
    -- partition of the disk.
    pub sync_image-AreWhole :
        (cache : HostCache)
        → (sync_host_cache (env_of s) host cache).error ≡ none
        → (sync_host_cache (env_of s) host cache).extracted ≡ true
        → AreWhole ChosenOnImage
            (sync_host_cache (env_of s) host cache).cache.kernel
            (sync_host_cache (env_of s) host cache).cache.initrd
    unfolding sync_host_cache
    sync_image-AreWhole cache ok new =
        sync_stat-Yields (AreWhole ChosenOnImage) (env_of s) host
          (λ k i. iso-Yields (s.iso_image host.image_path) k i refl) disk-Yields cache
          (s.stat host.image_path) ok new
