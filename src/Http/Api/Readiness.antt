-- ===== src/Http/Api/Readiness.antt =====
-- crates/bootycall-http/src/server.rs: what `/api/health` says.
use booty_call.Prelude.{
  ℕ, ◌≡◌, ◌↔◌, refl, sym, ◌∙◌, true, false, Option, none, some, List, [], ◌∷◌, length, All, arith,
  Bool-cases, inl, inr,
}
use booty_call.Core.Config.{HostConfig, Config}
use booty_call.Extractor.Cache.{Node, file, directory, HostCache, nonempty, host_cache_ready}
use booty_call.Http.{ok}
use booty_call.Http.Api.{not_ready, is_empty, api_health_handler}

-- The name stands for a file that is not empty.
abbrev pub IsNonempty : Option Node → Type 0
IsNonempty node = (b : ℕ) × (bs : List ℕ) × (node ≡ some (file (b ∷ bs)))

abbrev pub IsReady : HostCache → Type 0
IsReady cache = IsNonempty cache.kernel × IsNonempty cache.initrd

-- The directory of every host has a kernel and an initrd that are not empty.
abbrev pub AllReady : (List ℕ → HostCache) → List HostConfig → Type 0
AllReady cache_of hosts = All (λ h. IsReady (cache_of h.mac)) hosts

nonempty_iff : (node : Option Node) → (nonempty node ≡ true) ↔ IsNonempty node
nonempty_iff none = (λ e. cc, λ h. (let e = h.2 in cc))
nonempty_iff (some directory) = (λ e. cc, λ h. (let e = h.2 in cc))
nonempty_iff (some (file [])) = (λ e. absurd (ground (arith, e)), λ h. (let e = h.2 in cc))
nonempty_iff (some (file (b ∷ bs))) = (λ e. (b, bs, refl), λ h. ground arith)

host_cache_ready_iff : (cache : HostCache) → (host_cache_ready cache ≡ true) ↔ IsReady cache
unfolding host_cache_ready
host_cache_ready_iff cache =
    let kernel = nonempty_iff cache.kernel in
    let initrd = nonempty_iff cache.initrd in
    elim (Bool-cases (nonempty cache.kernel)) [
      | inl k ↦ rw k (λ e. (kernel.0 k, initrd.0 e), λ h. initrd.1 h.1)
      | inr k ↦ rw k (λ e. cc, λ h. (let e : false ≡ true = sym k ∙ kernel.1 h.0 in cc))
    ]

not_ready_iff :
    (cache_of : List ℕ → HostCache) (hosts : List HostConfig)
    → (is_empty (not_ready cache_of hosts) ≡ true) ↔ AllReady cache_of hosts
unfolding not_ready
not_ready_iff cache_of [] = (λ e. tt, λ h. refl)
not_ready_iff cache_of (h ∷ hs) =
    let rest = not_ready_iff cache_of hs in
    let this = host_cache_ready_iff (cache_of h.mac) in
    elim (Bool-cases (host_cache_ready (cache_of h.mac))) [
      | inl ready ↦ rw ready (λ e. (this.0 ready, rest.0 e), λ all. rest.1 all.1)
      | inr other ↦ rw other (
        λ e. absurd (ground (arith, e)),
        λ all. (let e : false ≡ true = sym other ∙ this.1 all.0 in cc),
      )
    ]

-- The probe answers 200, and says healthy, exactly when every configured host has a kernel and an initrd that
-- are not empty files; it always counts all configured hosts.
pub api_health_handler_iff :
    (cache_of : List ℕ → HostCache) (config : Config)
    → (((api_health_handler cache_of config).status ≡ ok) ↔ AllReady cache_of config.hosts)
      × (((api_health_handler cache_of config).healthy ≡ true) ↔ AllReady cache_of config.hosts)
      × ((api_health_handler cache_of config).hosts_total ≡ length config.hosts)
unfolding api_health_handler
api_health_handler_iff cache_of config =
    let empty = not_ready_iff cache_of config.hosts in
    elim (Bool-cases (is_empty (not_ready cache_of config.hosts))) [
      | inl e ↦ rw e (((λ h. empty.0 e), (λ h. refl)), ((λ h. empty.0 e), (λ h. refl)), refl)
      | inr e ↦ rw e (
        ((λ h. absurd (cc)), (λ all. absurd (ground (arith, e, empty.1 all)))),
        ((λ h. absurd (cc)), (λ all. absurd (ground (arith, e, empty.1 all)))),
        refl,
      )
    ]
