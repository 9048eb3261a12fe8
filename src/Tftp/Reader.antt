-- ===== src/Tftp/Reader.antt =====
-- crates/bootycall-tftp/src/server.rs: `read_fill`, over a file that may give short reads.
pub mod Full
use booty_call.Prelude.{
  ℕ, zero, suc, ◌-◌, min, Bool, true, false, Option, none, some, List, [], ◌∷◌, ◌++◌, length, take,
  drop,
}
use booty_call.Tftp.Wire.{Bytes}

-- How the next `read` turns out: at most `n + 1` bytes, or an I/O error.
pub data Grant : Type 0 where
  upto : ℕ → Grant
  fault : Grant

-- The bytes not read yet, and how the reads to come turn out; without a grant a read is full.
pub record File : Type 0 where
  pub rest : Bytes
  pub grants : List Grant

pub data Read : Type 0 where
  bytes : Bytes → File → Read
  failed : File → Read

-- A read of `n` bytes, or of what is left.
abbrev read_some : ℕ → Bytes → List Grant → Read
read_some n rest gs =
    let k = min n (length rest) in bytes (take k rest) (record { rest = drop k rest; grants = gs })

abbrev pub read_from : ℕ → Bytes → List Grant → Read
read_from want rest [] = read_some want rest []
read_from want rest (upto n ∷ gs) = read_some (min want (suc n)) rest gs
read_from want rest (fault ∷ gs) = failed (record { rest = rest; grants = gs })

-- `AsyncReadExt::read` into a buffer of `want` bytes: 0 bytes only at the end of the file.
unfoldable pub read : ℕ → File → Read
read want f = read_from want f.rest f.grants

pub data Fill : Type 0 where
  filled : Bytes → Bool → File → Fill
  broken : File → Fill
  stuck : Fill

-- `want` bytes of the buffer are still free, and `acc` is in it. `stuck` is no Rust value: the fuel
-- ran out.
unfoldable pub fill_loop : ℕ → ℕ → Bytes → File → Fill
fill_loop fuel zero acc f = filled acc false f
fill_loop zero (suc w) acc f = stuck
fill_loop (suc fuel) (suc w) acc f = elim (read (suc w) f) [
  | failed f' ↦ broken f'
  | bytes [] f' ↦ filled acc true f'
  | bytes (b ∷ bs) f' ↦ fill_loop fuel (suc w - length (b ∷ bs)) (acc ++ (b ∷ bs)) f'
]

-- Each round that goes on reads a byte at least, so `size` rounds are enough.
unfoldable pub read_fill : ℕ → File → Fill
read_fill size f = fill_loop size size [] f
