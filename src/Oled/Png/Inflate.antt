-- ===== src/Oled/Png/Inflate.antt =====
-- crates/bootycall-oled/src/png.rs: what a reader of the format makes of the stored blocks.
use booty_call.Prelude.{
  ℕ, zero, suc, ◌+◌, ◌-◌, ◌*◌, ◌/◌, ◌%◌, ◌≤◌, ◌≡◌, refl, ap, ◌∙◌, Bool, true, false, Option, none,
  some, List, [], ◌∷◌, ◌++◌, ◌==◌, if◌then◌else◌, length, take, drop, length-take, length-drop,
  take-length-append, drop-length-append, take-append-drop, arith,
}
use mathlib.Core.List.{append_assoc, append-nil}
use booty_call.Oled.Png.{be32, le16, final_flag, max_stored, stored_blocks, adler32, zlib_store}

-- The bytes of one block before those of the next.
abbrev before : List ℕ → Option (List ℕ × List ℕ) → Option (List ℕ × List ℕ)
before body none = none
before body (some (bytes, rest)) = some (body ++ bytes, rest)

abbrev stored_body : Bool → ℕ → List ℕ → Option (List ℕ × List ℕ) → Option (List ℕ × List ℕ)
stored_body true len s more = some (take len s, drop len s)
stored_body false len s more = before (take len s) more

-- A reader of stored blocks, as RFC 1951 describes them: the flag of the last block, the length, its complement, and
-- so many bytes. It yields the data, and what follows the last block.
unfoldable pub inflate_stored : ℕ → List ℕ → Option (List ℕ × List ℕ)
inflate_stored zero s = none
inflate_stored (suc fuel) (flag ∷ l0 ∷ l1 ∷ n0 ∷ n1 ∷ s) =
    let len = l0 + l1 * 256 in
    let more = inflate_stored fuel (drop len s) in
    if (n0 + n1 * 256) == (65_535 - len) then stored_body (flag == 1) len s more else none
inflate_stored (suc fuel) short = none

le16-read : (n : ℕ) → n ≤ 65_535 → n % 256 + n / 256 % 256 * 256 ≡ n
le16-read n h = omega arith

complement :
    (n : ℕ)
    → n ≤ 65_535
    → (((65_535 - n) % 256 + (65_535 - n) / 256 % 256 * 256) == (65_535 - n)) ≡ true
complement n h = ground arith

-- A block is read back whole.
one_block :
    (fuel flag : ℕ) (c more tail : List ℕ)
    → length c ≤ 65_535
    → inflate_stored
        (suc fuel)
        ((flag ∷ le16 (length c) (le16 (65_535 - length c) (c ++ more))) ++ tail)
      ≡ (if flag == 1
          then some (c, more ++ tail)
          else before c (inflate_stored fuel (more ++ tail)))
unfolding inflate_stored
one_block fuel flag c more tail h =
    rw (le16-read (length c) h, complement (length c) h)
      (rw (append_assoc c more tail) (by_flag (flag == 1)))
  where
    by_flag :
        (f : Bool)
        → stored_body f
            (length c)
            (c ++ (more ++ tail))
            (inflate_stored fuel (drop (length c) (c ++ (more ++ tail))))
          ≡ (if f then some (c, more ++ tail) else before c (inflate_stored fuel (more ++ tail)))
    by_flag true =
        rw (take-length-append c (more ++ tail), drop-length-append c (more ++ tail)) refl
    by_flag false =
        rw (take-length-append c (more ++ tail), drop-length-append c (more ++ tail)) refl

stored_blocks-nil : (fuel : ℕ) → stored_blocks fuel [] ≡ []
unfolding stored_blocks
stored_blocks-nil zero = refl
stored_blocks-nil (suc fuel) = refl

-- The rest of the bytes after a block decides whether it is the last.
by_rest :
    (fuel : ℕ) (c r tail : List ℕ)
    → length c ≤ 65_535
    → ((x : ℕ) (xs : List ℕ)
        → r ≡ x ∷ xs
        → inflate_stored fuel (stored_blocks fuel (x ∷ xs) ++ tail) ≡ some (x ∷ xs, tail))
    → inflate_stored (suc fuel) (
        (final_flag r ∷ le16 (length c) (le16 (65_535 - length c) (c ++ stored_blocks fuel r)))
        ++ tail)
      ≡ some (c ++ r, tail)
by_rest fuel c [] tail h ih =
    one_block fuel 1 c (stored_blocks fuel []) tail h
    ∙ rw (stored_blocks-nil fuel, append-nil c) refl
by_rest fuel c (x ∷ xs) tail h ih =
    one_block fuel 0 c (stored_blocks fuel (x ∷ xs)) tail h ∙ rw (ih x xs refl) refl

inflate-stored_blocks :
    (fuel b : ℕ) (bytes tail : List ℕ)
    → length (b ∷ bytes) ≤ fuel
    → inflate_stored fuel (stored_blocks fuel (b ∷ bytes) ++ tail) ≡ some (b ∷ bytes, tail)
unfolding stored_blocks
inflate-stored_blocks zero b bytes tail h = absurd (omega arith)
inflate-stored_blocks (suc fuel) b bytes tail h =
    let whole = b ∷ bytes in
    let short : length (take max_stored whole) ≤ 65_535 =
      omega (arith, length-take max_stored whole) in
    by_rest fuel (take max_stored whole) (drop max_stored whole) tail short (λ x xs e.
      inflate-stored_blocks fuel x xs tail
        (omega (arith, h, length-drop max_stored whole, ap length e)))
    ∙ rw (take-append-drop max_stored whole) refl

-- A reader of stored blocks gets back exactly the bytes that were stored, however many blocks they take, and finds
-- their checksum right behind the last block. There must be at least one byte.
pub inflate-zlib_store :
    (b : ℕ) (bytes : List ℕ)
    → inflate_stored (length (b ∷ bytes)) (drop 2 (zlib_store (b ∷ bytes)))
      ≡ some (b ∷ bytes, be32 (adler32 (b ∷ bytes)))
unfolding zlib_store
inflate-zlib_store b bytes =
    inflate-stored_blocks (length (b ∷ bytes)) b bytes (be32 (adler32 (b ∷ bytes))) (omega arith)
