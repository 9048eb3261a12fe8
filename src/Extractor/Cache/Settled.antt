-- ===== src/Extractor/Cache/Settled.antt =====
-- crates/bootycall-extractor/src/lib.rs: a synchronisation that succeeded leaves nothing for the next one to do, and
-- one that failed leaves nothing to serve.
use booty_call.Prelude.{
  ℕ, ◌≡◌, refl, true, false, Option, none, some, List, Bool-cases, Option-cases, inl, inr,
}
use mathlib.Core.Path.{subst}
use booty_call.Core.HostMap.{is_some}
use booty_call.Core.Config.{HostConfig}
use booty_call.Extractor.Cache.{
  Node, HostCache, CacheMetadata, Stat, stat_not_found, stat_failed, stat_ok, Extraction, Env,
  metadata_for, cache_valid, write_to_file, finish_sync, extract, drop_legacy, refresh,
  sync_measured, sync_stat, sync_host_cache,
}
use booty_call.Extractor.Cache.Reuse.{IsCurrent, cache_valid_iff}
use booty_call.Extractor.Artifact.{LeavesBoth, ByError}

module _ (env : Env) (host : HostConfig)
    (json : (m : CacheMetadata) (c : List ℕ) → env.to_json m ≡ some c → env.from_json c ≡ some m)
    (iso_leaves : (h : HostConfig) (k i : Option Node) → LeavesBoth (env.from_iso h k i))
    (disk_leaves : (h : HostConfig) (k i : Option Node) → LeavesBoth (env.from_disk h k i)) where
  extract-LeavesBoth : (cache : HostCache) → LeavesBoth (extract env host cache)
  unfolding extract
  extract-LeavesBoth cache =
      let first = env.from_iso host cache.kernel cache.initrd in
      elim (Option-cases first.error) [
        | inl e ↦ rw (e, extract) (iso_leaves host cache.kernel cache.initrd)
        | inr (f, e) ↦ rw (e, extract) (disk_leaves host first.kernel first.initrd)
      ]

  write_to_file-IsCurrent :
      (mtime size : ℕ) (out : Option (List ℕ)) (cache : HostCache)
      → env.to_json (metadata_for host mtime size) ≡ out
      → is_some cache.kernel ≡ true
      → is_some cache.initrd ≡ true
      → (write_to_file env out cache).error ≡ none
      → IsCurrent env host mtime size (write_to_file env out cache).cache
  write_to_file-IsCurrent mtime size none cache e k i = λ ok. cc
  write_to_file-IsCurrent mtime size (some content) cache e k i = elim (Bool-cases env.writes) [
    | inl w ↦ simp w (λ ok. (k, i, json (metadata_for host mtime size) content e))
    | inr w ↦ simp w (λ ok. cc)
  ]

  finish_sync-IsCurrent :
      (mtime size : ℕ) (attempt : Extraction) (cache : HostCache)
      → LeavesBoth attempt
      → (finish_sync env host mtime size attempt cache).error ≡ none
      → IsCurrent env host mtime size (finish_sync env host mtime size attempt cache).cache
  unfolding finish_sync
  finish_sync-IsCurrent mtime size attempt cache leaves = elim (Option-cases attempt.error) [
    | inl e ↦
        let (k, i) = subst (λ o. ByError o attempt.kernel attempt.initrd) e leaves in
        rw (e, finish_sync) (write_to_file-IsCurrent mtime size _ _ refl k i)
    | inr (f, e) ↦ rw (e, finish_sync) (λ ok. cc)
  ]

  refresh-IsCurrent :
      (mtime size : ℕ) (cache : HostCache)
      → (refresh env host mtime size cache).error ≡ none
      → IsCurrent env host mtime size (refresh env host mtime size cache).cache
  unfolding refresh
  refresh-IsCurrent mtime size cache = elim (Bool-cases cache.present) [
    | inl e ↦ rw e (finish_sync-IsCurrent mtime size _ _ (extract-LeavesBoth _))
    | inr e ↦ elim (Bool-cases env.creates_dir) [
      | inl c ↦ simp (e, c) (finish_sync-IsCurrent mtime size _ _ (extract-LeavesBoth _))
      | inr c ↦ simp (e, c) (λ ok. cc)
    ]
  ]

  sync_measured-IsCurrent :
      (mtime size : ℕ) (cache : HostCache)
      → (sync_measured env host mtime size cache).error ≡ none
      → IsCurrent env host mtime size (sync_measured env host mtime size cache).cache
  unfolding sync_measured
  sync_measured-IsCurrent mtime size cache =
      elim (Bool-cases (cache_valid env cache host mtime size)) [
        | inl v ↦ rw v (λ ok. (cache_valid_iff env host cache mtime size).0 v)
        | inr stale ↦ rw stale (refresh-IsCurrent mtime size (drop_legacy env cache))
      ]

  -- With a current cache nothing is done.
  idle :
      (mtime size : ℕ) (cache : HostCache)
      → IsCurrent env host mtime size cache
      → ((sync_measured env host mtime size cache).error ≡ none)
        × ((sync_measured env host mtime size cache).extracted ≡ false)
        × ((sync_measured env host mtime size cache).cache ≡ drop_legacy env cache)
  unfolding sync_measured
  idle mtime size cache current =
      let v = (cache_valid_iff env host cache mtime size).1 current in rw v (refl, refl, refl)

  -- What the second of two synchronisations finds and does.
  abbrev pub IsSettled : HostCache → Stat → Type 0
  IsSettled cache found =
      ((sync_stat env host (sync_stat env host cache found).cache found).error ≡ none)
      × ((sync_stat env host (sync_stat env host cache found).cache found).extracted ≡ false)
      × ((sync_stat env host (sync_stat env host cache found).cache found).cache
          ≡ drop_legacy env (sync_stat env host cache found).cache)

  settled :
      (cache : HostCache) (found : Stat)
      → (sync_stat env host cache found).error ≡ none
      → IsSettled cache found
  settled cache stat_not_found ok = cc
  settled cache stat_failed ok = cc
  settled cache (stat_ok none size) ok = cc
  settled cache (stat_ok (some mtime) size) ok =
      idle mtime size _ (sync_measured-IsCurrent mtime size cache ok)

  -- A synchronisation that succeeded, whether it extracted or not, is done: the next one for the same host and the
  -- same image succeeds without extracting, and leaves both files and the metadata alone. For this
  -- the metadata must read back as they were written, and a successful extraction must have
  -- left both files.
  pub sync_host_cache-settles :
      (cache : HostCache)
      → (sync_host_cache env host cache).error ≡ none
      → ((sync_host_cache env host (sync_host_cache env host cache).cache).error ≡ none)
        × ((sync_host_cache env host (sync_host_cache env host cache).cache).extracted ≡ false)
        × ((sync_host_cache env host (sync_host_cache env host cache).cache).cache
            ≡ drop_legacy env (sync_host_cache env host cache).cache)
  unfolding sync_host_cache
  sync_host_cache-settles cache ok = settled cache (env.stat host.image_path) ok
