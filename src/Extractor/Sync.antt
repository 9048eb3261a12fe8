-- ===== src/Extractor/Sync.antt =====
-- crates/bootycall-extractor/src/lib.rs: the names that the walkers look for, and the sweep over all hosts.
use booty_call.Prelude.{
  ℕ, ◌+◌, ◌≡◌, Bool, ◌&&◌, ◌||◌, Option, none, some, List, [], ◌∷◌, ◌++◌, ◌==◌, ltb, length,
  length-append, take, arith,
}
use booty_call.Prelude.Bytes.{codes, eq_bytes, to_ascii_lowercase}
use booty_call.Core.Config.{HostConfig}

unfoldable pub is_kernel_name : List ℕ → Bool
is_kernel_name name =
    let lower = to_ascii_lowercase name in
    eq_bytes lower (codes "vmlinuz")
    || (eq_bytes lower (codes "bzimage")
        || (eq_bytes lower (codes "kernel") || eq_bytes lower (codes "image")))

-- `str::contains`
unfoldable pub contains : List ℕ → List ℕ → Bool
contains [] text = eq_bytes [] text
contains (b ∷ bs) text = eq_bytes (take (length text) (b ∷ bs)) text || contains bs text

unfoldable pub is_initrd_name : List ℕ → Bool
is_initrd_name name =
    let lower = to_ascii_lowercase name in
    contains lower (codes "initrd") || contains lower (codes "initramfs")

module _ (Failure : Type 0) where
  pub record SyncSummary : Type 0 where
    pub succeeded : ℕ
    pub failed : List (List ℕ × Failure)

  abbrev pub no_hosts : SyncSummary
  no_hosts = record { succeeded = 0; failed = [] }

  abbrev pub total : SyncSummary → ℕ
  total s = s.succeeded + length s.failed

  abbrev pub all_failed : SyncSummary → Bool
  all_failed s = s.succeeded == 0 && ltb 0 (length s.failed)

  abbrev pub partial_failure : SyncSummary → Bool
  partial_failure s = ltb 0 s.succeeded && ltb 0 (length s.failed)

  -- `Ok(())` is `none`.
  abbrev count_host : HostConfig → Option Failure → SyncSummary → SyncSummary
  count_host h none s = record s { succeeded = s.succeeded + 1 }
  count_host h (some e) s = record s { failed = s.failed ++ ((h.name, e) ∷ []) }

  -- The sweep of `sync_all_hosts_cache`, by what `sync_host_cache` returns for each host.
  unfoldable pub sync_hosts :
      (HostConfig → Option Failure) → List HostConfig → SyncSummary → SyncSummary
  sync_hosts sync_host_cache [] s = s
  sync_hosts sync_host_cache (h ∷ hs) s =
      sync_hosts sync_host_cache hs (count_host h (sync_host_cache h) s)

  total-count_host :
      (h : HostConfig) (o : Option Failure) (s : SyncSummary)
      → total (count_host h o s) ≡ total s + 1
  total-count_host h none s = omega arith
  total-count_host h (some e) s = omega (arith, length-append s.failed ((h.name, e) ∷ []))

  -- A sweep counts every host once, whichever of them fail.
  pub total-sync_hosts :
      (sync_host_cache : HostConfig → Option Failure) (hs : List HostConfig) (s : SyncSummary)
      → total (sync_hosts sync_host_cache hs s) ≡ total s + length hs
  unfolding sync_hosts
  total-sync_hosts sync_host_cache [] s = omega arith
  total-sync_hosts sync_host_cache (h ∷ hs) s = omega (
    arith,
    total-sync_hosts sync_host_cache hs (count_host h (sync_host_cache h) s),
    total-count_host h (sync_host_cache h) s,
  )
