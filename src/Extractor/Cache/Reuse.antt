-- ===== src/Extractor/Cache/Reuse.antt =====
-- crates/bootycall-extractor/src/lib.rs: when a cache is used again, and what a synchronisation leaves.
use booty_call.Prelude.{
  ℕ, ◌≡◌, ◌↔◌, inl, inr, refl, ap, Bool, true, false, ◌&&◌, Option, none, some, List, ==_iff, arith,
  Bool-cases, Option-cases,
}
use booty_call.Prelude.Bytes.{eq_bytes_iff}
use booty_call.Core.HostMap.{is_some}
use booty_call.Core.Config.{HostConfig}
use booty_call.Extractor.Cache.{
  Node, HostCache, CacheMetadata, eq_option, matches, Stat, stat_not_found, stat_failed, stat_ok,
  Extraction, Env, metadata_for, read_from_file, matches_read, cache_valid, write_to_file,
  finish_sync, drop_legacy, refresh, sync_measured, sync_stat, sync_host_cache,
}

and_true : (a b : Bool) → (a && b) ≡ true → (a ≡ true) × (b ≡ true)
and_true true b h = (refl, h)
and_true false b h = cc

eq_option_iff : (a b : Option (List ℕ)) → (eq_option a b ≡ true) ↔ (a ≡ b)
eq_option_iff none none = (λ e. refl, λ e. refl)
eq_option_iff none (some t) = (λ e. cc, λ e. cc)
eq_option_iff (some s) none = (λ e. cc, λ e. cc)
eq_option_iff (some s) (some t) = ground (arith, eq_bytes_iff s t)

-- The metadata match a host and its image exactly when they are the metadata that an extraction for it
-- writes.
pub matches_iff :
    (meta : CacheMetadata) (host : HostConfig) (mtime size : ℕ)
    → (matches meta host mtime size ≡ true) ↔ (meta ≡ metadata_for host mtime size)
unfolding matches
matches_iff meta host mtime size = ground (
  arith,
  eq_bytes_iff meta.image_path host.image_path,
  ==_iff meta.mtime_secs mtime,
  ==_iff meta.size size,
  eq_option_iff meta.kernel_override host.kernel_path,
  eq_option_iff meta.initrd_override host.initrd_path,
)

abbrev unwrap : CacheMetadata → Option CacheMetadata → CacheMetadata
unwrap fallback none = fallback
unwrap fallback (some m) = m

module _ (env : Env) (host : HostConfig) where
  -- A cache that is valid holds both files, and the metadata of the host and its image.
  abbrev pub IsCurrent : ℕ → ℕ → HostCache → Type 0
  IsCurrent mtime size cache =
      (is_some cache.kernel ≡ true)
      × (is_some cache.initrd ≡ true)
      × (read_from_file env cache.metadata ≡ some (metadata_for host mtime size))

  matches_read_iff :
      (read : Option CacheMetadata) (mtime size : ℕ)
      → (matches_read env read host mtime size ≡ true)
        ↔ (read ≡ some (metadata_for host mtime size))
  matches_read_iff none mtime size = (λ e. cc, λ e. cc)
  matches_read_iff (some meta) mtime size =
      let m = matches_iff meta host mtime size in
      (λ e. ap some (m.0 e), λ e. m.1 (ap (unwrap meta) e))

  read-some :
      (node : Option Node) (meta : CacheMetadata)
      → read_from_file env node ≡ some meta
      → is_some node ≡ true
  read-some none meta e = cc
  read-some (some n) meta e = refl

  pub cache_valid_iff :
      (cache : HostCache) (mtime size : ℕ)
      → (cache_valid env cache host mtime size ≡ true) ↔ IsCurrent mtime size cache
  unfolding cache_valid
  cache_valid_iff cache mtime size =
      let m = matches_read_iff (read_from_file env cache.metadata) mtime size in
      (
        λ e.
            let (a, rest) = and_true _ _ e in
            let (b, rest2) = and_true _ _ rest in let (c, d) = and_true _ _ rest2 in (b, c, m.0 d),
        λ h. rw (read-some cache.metadata _ h.2, h.0, h.1, m.1 h.2) refl,
      )

  write_to_file-extracted :
      (json : Option (List ℕ)) (cache : HostCache) → (write_to_file env json cache).extracted ≡ true
  write_to_file-extracted none cache = refl
  write_to_file-extracted (some content) cache = elim (Bool-cases env.writes) [
    | inl e ↦ rw e refl
    | inr e ↦ rw e refl
  ]

  finish_sync-extracted :
      (mtime size : ℕ) (attempt : Extraction) (cache : HostCache)
      → (finish_sync env host mtime size attempt cache).extracted ≡ true
  unfolding finish_sync
  finish_sync-extracted mtime size attempt cache = elim (Option-cases attempt.error) [
    | inl e ↦ rw e (write_to_file-extracted _ _)
    | inr (f, e) ↦ rw e refl
  ]

  refresh-extracted :
      (mtime size : ℕ) (cache : HostCache)
      → (refresh env host mtime size cache).error ≡ none
      → (refresh env host mtime size cache).extracted ≡ true
  unfolding refresh
  refresh-extracted mtime size cache = elim (Bool-cases cache.present) [
    | inl e ↦ rw e (λ ok. finish_sync-extracted mtime size _ _)
    | inr e ↦ elim (Bool-cases env.creates_dir) [
      | inl c ↦ simp (e, c) (λ ok. finish_sync-extracted mtime size _ _)
      | inr c ↦ simp (e, c) (λ ok. cc)
    ]
  ]

  sync_measured-reuses :
      (mtime size : ℕ) (cache : HostCache)
      → (sync_measured env host mtime size cache).error ≡ none
      → (sync_measured env host mtime size cache).extracted ≡ false
      → IsCurrent mtime size cache
        × ((sync_measured env host mtime size cache).cache ≡ drop_legacy env cache)
  unfolding sync_measured
  sync_measured-reuses mtime size cache =
      elim (Bool-cases (cache_valid env cache host mtime size)) [
        | inl v ↦ rw v (λ ok idle. ((cache_valid_iff cache mtime size).0 v, refl))
        | inr stale ↦
            rw stale (λ ok idle. absurd (ground (arith, idle, refresh-extracted mtime size _ ok)))
      ]

  sync_stat-reuses :
      (cache : HostCache) (found : Stat)
      → (sync_stat env host cache found).error ≡ none
      → (sync_stat env host cache found).extracted ≡ false
      → (mtime : ℕ) × (size : ℕ) × (found ≡ stat_ok (some mtime) size)
        × IsCurrent mtime size cache
        × ((sync_stat env host cache found).cache ≡ drop_legacy env cache)
  sync_stat-reuses cache stat_not_found ok idle = cc
  sync_stat-reuses cache stat_failed ok idle = cc
  sync_stat-reuses cache (stat_ok none size) ok idle = cc
  sync_stat-reuses cache (stat_ok (some mtime) size) ok idle =
      let (current, same) = sync_measured-reuses mtime size cache ok idle in
      (mtime, size, refl, current, same)

  -- A synchronisation that succeeds without extracting anything has found the image, both files, and the
  -- metadata of exactly this image path, time, size and pair of overrides; it changes nothing but
  -- the metadata of the old format.
  pub sync_host_cache-reuses :
      (cache : HostCache)
      → (sync_host_cache env host cache).error ≡ none
      → (sync_host_cache env host cache).extracted ≡ false
      → (mtime : ℕ) × (size : ℕ) × (env.stat host.image_path ≡ stat_ok (some mtime) size)
        × IsCurrent mtime size cache
        × ((sync_host_cache env host cache).cache ≡ drop_legacy env cache)
  unfolding sync_host_cache
  sync_host_cache-reuses cache ok idle = sync_stat-reuses cache (env.stat host.image_path) ok idle
