-- ===== src/Extractor/Slice.antt =====
-- crates/bootycall-extractor/src/disk.rs: `PartitionSlice`, a window on a disk image.
pub mod Inside
pub use booty_call.Prelude.Ints.{ℤ, pos, negsuc}
use booty_call.Prelude.{
  ℕ, suc, ◌+◌, ◌-◌, ◌%◌, ◌^◌, min, Bool, true, false, Option, none, some, List, [], ◌∷◌, leb,
  if◌then◌else◌, length, take,
}

-- An offset is of type `i64`.
pub data SeekFrom : Type 0 where
  from_start : ℕ → SeekFrom
  from_end : ℤ → SeekFrom
  from_current : ℤ → SeekFrom

pub record PartitionSlice : Type 0 where
  pub start : ℕ
  pub len : ℕ
  pub at : ℕ

abbrev pub new_slice : ℕ → ℕ → PartitionSlice
new_slice start len = record { start = start; len = len; at = 0 }

abbrev pub max_i64 : ℕ
max_i64 = 2 ^ 63 - 1

-- `i64::try_from`
abbrev pub try_from : ℕ → Option ℕ
try_from n = if leb n max_i64 then some n else none

-- `checked_add` to a base that is not negative, and the test for a position before the start.
abbrev pub shift : ℕ → ℤ → Option ℕ
shift base (pos n) = try_from (base + n)
shift base (negsuc n) = if leb (suc n) base then some (base - suc n) else none

abbrev pub shift_from : Option ℕ → ℤ → Option ℕ
shift_from none offset = none
shift_from (some base) offset = shift base offset

-- The new position, if there is one.
unfoldable pub seek_to : SeekFrom → PartitionSlice → Option ℕ
seek_to (from_start offset) s = try_from offset
seek_to (from_end offset) s = shift_from (try_from s.len) offset
seek_to (from_current offset) s = shift_from (try_from s.at) offset

-- A seek that fails leaves the position as it is.
unfoldable pub seek : SeekFrom → PartitionSlice → PartitionSlice
seek target s = elim (seek_to target s) [ none ↦ s | some new_pos ↦ record s { at = new_pos } ]

-- An access to the disk image: where it starts and how many bytes it may touch.
pub record Access : Type 0 where
  pub offset : ℕ
  pub count : ℕ

-- The slice after an operation, the access it made, and what it returned; `none` is an error.
pub record Accessed : Type 0 where
  pub slice : PartitionSlice
  pub made : List Access
  pub returned : Option ℕ

-- The common part of `read` and `write`, for a buffer of `want` bytes of which the disk serves as many as
-- `served` says if it does not fail. At the end of the partition there is no access, and `at_end` is
-- returned.
unfoldable pub transfer : Option ℕ → ℕ → Option ℕ → PartitionSlice → Accessed
transfer at_end want served s =
    if leb s.len s.at then record { slice = s; made = []; returned = at_end } else record {
      slice = (elim served [ none ↦ s | some done ↦ record s { at = (s.at + done) % 2 ^ 64 } ]);
      made = record { offset = (s.start + s.at) % 2 ^ 64; count = min want (s.len - s.at) } ∷ [];
      returned = served;
    }

-- `Read::read`: 0 bytes at the end.
unfoldable pub read : ℕ → Option ℕ → PartitionSlice → Accessed
read want served s = transfer (some 0) want served s

-- `Write::write`: an error at the end.
unfoldable pub write : ℕ → Option ℕ → PartitionSlice → Accessed
write want served s = transfer none want served s

pub data Op : Type 0 where
  seeks : SeekFrom → Op
  reads : (want : ℕ) (served : Option ℕ) → Op
  writes : (want : ℕ) (served : Option ℕ) → Op

unfoldable pub perform : Op → PartitionSlice → Accessed
perform (seeks target) s = record { slice = seek target s; made = []; returned = seek_to target s }
perform (reads want served) s = read want served s
perform (writes want served) s = write want served s
