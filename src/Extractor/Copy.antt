-- ===== src/Extractor/Copy.antt =====
-- crates/bootycall-extractor/src/lib.rs: `copy_capped`, which writes an artifact of at most a given size.
use booty_call.Prelude.{
  ℕ, ◌+◌, ◌≤◌, ◌<◌, ◌≡◌, refl, sym, inl, inr, Bool, true, false, Option, none, some, List, [], ◌∷◌,
  ◌++◌, ltb, if◌then◌else◌, length, length-append, arith, Bool-cases,
}
use mathlib.Core.Path.{subst}
use mathlib.Core.List.{append-nil, append_assoc}

-- How a round of the loop turns out: what is read, with no bytes at the end, and whether it can be
-- written. After the rounds given the reader is at its end.
pub data Chunk : Type 0 where
  chunk : List ℕ → Bool → Chunk
  read_fault : Chunk

-- What is on the disk in the end.
pub data Copied : Type 0 where
  copied : List ℕ → Copied
  too_large : List ℕ → Copied
  io_failed : List ℕ → Copied

-- `written` bytes have been counted so far, and `out` is on the disk.
unfoldable pub copy_loop : ℕ → ℕ → List ℕ → List Chunk → Copied
copy_loop limit written out [] = copied out
copy_loop limit written out (read_fault ∷ rs) = io_failed out
copy_loop limit written out (chunk [] ok ∷ rs) = copied out
copy_loop limit written out (chunk (b ∷ bs) ok ∷ rs) =
    let n = written + length (b ∷ bs) in
    let rest = copy_loop limit n (out ++ (b ∷ bs)) rs in
    if ltb limit n then too_large out else if ok then rest else io_failed out

-- `std::io::copy`
unfoldable pub copy_all : List ℕ → List Chunk → Copied
copy_all out [] = copied out
copy_all out (read_fault ∷ rs) = io_failed out
copy_all out (chunk [] ok ∷ rs) = copied out
copy_all out (chunk (b ∷ bs) ok ∷ rs) =
    let rest = copy_all (out ++ (b ∷ bs)) rs in if ok then rest else io_failed out

unfoldable pub copy_capped : Option ℕ → List Chunk → Copied
copy_capped none rs = copy_all [] rs
copy_capped (some limit) rs = copy_loop limit 0 [] rs

-- What the reader holds up to its end.
abbrev pub content : List Chunk → List ℕ
content [] = []
content (read_fault ∷ rs) = []
content (chunk [] ok ∷ rs) = []
content (chunk (b ∷ bs) ok ∷ rs) = (b ∷ bs) ++ content rs

-- What a copy under a limit may leave, of `all` the reader holds.
abbrev pub IsCapped : ℕ → List ℕ → Copied → Type 0
IsCapped limit all (copied out) = (length out ≤ limit) × (out ≡ all)
IsCapped limit all (too_large out) = (length out ≤ limit) × (limit < length all)
IsCapped limit all (io_failed out) = length out ≤ limit

copy_loop-IsCapped :
    (limit written : ℕ) (out : List ℕ) (rs : List Chunk)
    → written ≡ length out
    → length out ≤ limit
    → IsCapped limit (out ++ content rs) (copy_loop limit written out rs)
unfolding copy_loop
copy_loop-IsCapped limit written out [] e fits = (fits, sym (append-nil out))
copy_loop-IsCapped limit written out (read_fault ∷ rs) e fits = fits
copy_loop-IsCapped limit written out (chunk [] ok ∷ rs) e fits = (fits, sym (append-nil out))
copy_loop-IsCapped limit written out (chunk (b ∷ bs) ok ∷ rs) e fits =
    let grown = length-append out (b ∷ bs) in
    let all = length-append out ((b ∷ bs) ++ content rs) in
    let more = length-append (b ∷ bs) (content rs) in
    elim (Bool-cases (ltb limit (written + length (b ∷ bs)))) [
      | inl over ↦ rw over (fits, ground (arith, over, e, all, more))
      | inr under ↦ rw under (
          by_ok ok (
            copy_loop-IsCapped limit (written + length (b ∷ bs)) (out ++ (b ∷ bs)) rs
              (omega (arith, e, grown)) (ground (arith, under, e, grown))))
    ]
  where
    by_ok :
        (o : Bool)
        → IsCapped limit
            ((out ++ (b ∷ bs)) ++ content rs)
            (copy_loop limit (written + length (b ∷ bs)) (out ++ (b ∷ bs)) rs)
        → IsCapped limit (out ++ ((b ∷ bs) ++ content rs)) (
            if o
            then copy_loop limit (written + length (b ∷ bs)) (out ++ (b ∷ bs)) rs
            else io_failed out)
    by_ok true ih =
        subst
          (λ t. IsCapped limit t (copy_loop limit (written + length (b ∷ bs)) (out ++ (b ∷ bs)) rs))
          (append_assoc out (b ∷ bs) (content rs)) ih
    by_ok false ih = fits

-- Under a limit no copy ever leaves more bytes on the disk than that. It succeeds only with all that the
-- reader holds, and calls an artifact too large only if it is.
pub copy_capped-IsCapped :
    (limit : ℕ) (rs : List Chunk) → IsCapped limit (content rs) (copy_capped (some limit) rs)
unfolding copy_capped
copy_capped-IsCapped limit rs = copy_loop-IsCapped limit 0 [] rs refl (omega arith)
