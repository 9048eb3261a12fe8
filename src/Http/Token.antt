-- ===== src/Http/Token.antt =====
-- crates/bootycall-http/src/server.rs: the token of the interface, and its comparison in constant time.
pub mod Digests
pub mod Guards
use Prim.Native.Nat.{bit_or, bit_xor}
use booty_call.Prelude.{ℕ, Bool, true, Option, none, some, List, [], ◌∷◌, ◌==◌}
use booty_call.Prelude.Bytes.{codes}
use booty_call.Core.Config.{Config}
use booty_call.Http.{HeaderMap, unwrap_or}

-- `for (x, y) in ha.iter().zip(hb.iter()) { diff |= x ^ y; }`
unfoldable pub diff_loop : ℕ → List ℕ → List ℕ → ℕ
diff_loop diff [] hb = diff
diff_loop diff (x ∷ ha) [] = diff
diff_loop diff (x ∷ ha) (y ∷ hb) = diff_loop (bit_or diff (bit_xor x y)) ha hb

-- `digest` is `Sha256::digest` of the crate sha2.
module _ (digest : List ℕ → List ℕ) where
  unfoldable pub constant_time_eq : List ℕ → List ℕ → Bool
  constant_time_eq a b = diff_loop 0 (digest a) (digest b) == 0

  -- Whether the request may pass: `Ok(())` is `true`, `Err(UNAUTHORIZED)` is `false`.
  unfoldable pub check_api_token : Config → HeaderMap → Bool
  check_api_token config headers = elim config.server.api_token [
    | none ↦ true
    | some expected ↦ constant_time_eq (unwrap_or [] (headers (codes "X-API-Token"))) expected
  ]
