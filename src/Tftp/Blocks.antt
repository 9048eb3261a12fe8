-- ===== src/Tftp/Blocks.antt =====
-- The `BTreeMap<u64, Vec<u8>>` of the blocks in flight.
use booty_call.Prelude.{
  ℕ, ◌≡◌, refl, Option, none, some, List, [], ◌∷◌, arith, leb, ◌==◌, if◌then◌else◌,
}
use booty_call.Tftp.Wire.{Bytes}

abbrev pub Blocks : Type 0
Blocks = List (ℕ × Bytes)

unfoldable pub get : ℕ → Blocks → Option Bytes
get k [] = none
get k ((j, d) ∷ m) = if j == k then some d else get k m

unfoldable pub insert : ℕ → Bytes → Blocks → Blocks
insert k d [] = (k, d) ∷ []
insert k d ((j, c) ∷ m) = if j == k then (k, d) ∷ m else (j, c) ∷ insert k d m

-- `retain(|&k, _| k >= base)`
unfoldable pub retain_from : ℕ → Blocks → Blocks
retain_from base [] = []
retain_from base ((j, c) ∷ m) =
    let rest = retain_from base m in if leb base j then (j, c) ∷ rest else rest

pub get-empty : (k : ℕ) → get k [] ≡ none
unfolding get
get-empty k = refl

pub get-insert :
    (k j : ℕ) (d : Bytes) (m : Blocks) → get j (insert k d m) ≡ (if k == j then some d else get j m)
unfolding get insert
get-insert k j d [] = refl
get-insert k j d ((i, c) ∷ m) = ground (arith, get-insert k j d m)

pub get-retain_from :
    (base k : ℕ) (m : Blocks) → get k (retain_from base m) ≡ (if leb base k then get k m else none)
unfolding get retain_from
get-retain_from base k [] = ground arith
get-retain_from base k ((i, c) ∷ m) = ground (arith, get-retain_from base k m)
