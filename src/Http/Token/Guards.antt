-- ===== src/Http/Token/Guards.antt =====
-- crates/bootycall-http/src/server.rs: which requests the token lets through.
use booty_call.Prelude.{
  ℕ, ◌≡◌, ◌≢◌, ◌⊎◌, inl, inr, refl, ◌∙◌, true, false, none, some, List, [], length, Bool-cases,
  arith,
}
use booty_call.Prelude.Bytes.{codes}
use booty_call.Core.Config.{Config}
use booty_call.Core.Store.{StateStore, list_hosts, list_logs}
use booty_call.Http.{HeaderMap, unwrap_or, unauthorized}
use booty_call.Http.Poll.{Clock}
use booty_call.Http.Token.{constant_time_eq, check_api_token}
use booty_call.Http.Token.Digests.{constant_time_eq_iff}
use booty_call.Http.Api.{
  err, success, OverrideRequest, api_status_handler, api_logs_handler, api_override_handler,
}

-- The token that the request shows, which is empty without the header.
abbrev pub shown : HeaderMap → List ℕ
shown headers = unwrap_or [] (headers (codes "X-API-Token"))

-- Every endpoint that the token guards has refused, and the store is as it was.
abbrev pub IsRefused :
    (List ℕ → List ℕ) → Config → HeaderMap → OverrideRequest → Clock → StateStore → Type 0
IsRefused digest config headers payload clock store =
    (api_status_handler digest config headers store ≡ err unauthorized)
    × (api_logs_handler digest config headers store ≡ err unauthorized)
    × (api_override_handler digest config headers payload clock store
        ≡ record { result = err unauthorized; store = store })

-- Every endpoint that the token guards does what it does without a token.
abbrev pub IsLetThrough :
    (List ℕ → List ℕ) → Config → HeaderMap → OverrideRequest → Clock → StateStore → Type 0
IsLetThrough digest config headers payload clock store =
    (api_status_handler digest config headers store
      ≡ success (record { hosts = list_hosts store; configs = config.hosts }))
    × (api_logs_handler digest config headers store ≡ success (list_logs store))
    × (api_override_handler digest config headers payload clock store
        ≡ api_override_handler digest
            (record config { server = record config.server { api_token = none } }) headers payload
            clock store)

module _ (digest : List ℕ → List ℕ) (config : Config) (headers : HeaderMap)
    (payload : OverrideRequest) (clock : Clock) (store : StateStore) where
  refused :
      check_api_token digest config headers ≡ false
      → IsRefused digest config headers payload clock store
  unfolding api_status_handler api_logs_handler api_override_handler
  refused e = (rw e refl, rw e refl, rw e refl)

  let_through :
      check_api_token digest config headers ≡ true
      → IsLetThrough digest config headers payload clock store
  unfolding api_status_handler api_logs_handler api_override_handler check_api_token
  let_through e = (rw e refl, rw e refl, rw e refl)

  check_api_token-some :
      (expected : List ℕ)
      → config.server.api_token ≡ some expected
      → check_api_token digest config headers ≡ constant_time_eq digest (shown headers) expected
  unfolding check_api_token
  check_api_token-some expected t = rw t refl

  -- With a token configured, and digests of one length: a request whose token has the digest of the
  -- configured one gets from the status, log and override endpoints what they answer without a
  -- token; a request that shows any other digest, or no token with that digest, is
  -- refused by all three, and the store stays as it was.
  pub api-IsGuarded :
      (len : ℕ) (expected : List ℕ)
      → config.server.api_token ≡ some expected
      → ((s : List ℕ) → length (digest s) ≡ len)
      → ((digest (shown headers) ≡ digest expected)
          × IsLetThrough digest config headers payload clock store)
        ⊎ ((digest (shown headers) ≢ digest expected)
            × IsRefused digest config headers payload clock store)
  api-IsGuarded len expected t all =
      let eq = constant_time_eq_iff digest len (shown headers) expected (all _) (all _) in
      let check = check_api_token-some expected t in
      elim (Bool-cases (constant_time_eq digest (shown headers) expected)) [
        | inl e ↦ inl (eq.0 e, let_through (check ∙ e))
        | inr e ↦ inr (λ same. ground (arith, e, eq.1 same), refused (check ∙ e))
      ]
