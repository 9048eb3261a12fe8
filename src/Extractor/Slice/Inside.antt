-- ===== src/Extractor/Slice/Inside.antt =====
-- crates/bootycall-extractor/src/disk.rs: a slice never touches the disk outside its partition.
use booty_call.Prelude.{
  ℕ, ◌+◌, ◌%◌, ◌^◌, ◌≤◌, ◌≡◌, ◌∙◌, refl, inl, inr, Option, none, some, List, [], ◌∷◌, ◌++◌, All,
  leb, arith, Bool-cases, Option-cases,
}
use booty_call.Extractor.Slice.{
  PartitionSlice, new_slice, seek_to, seek, SeekFrom, Access, transfer, Op, seeks, reads, writes,
  perform, read, write,
}

-- The accesses of a sequence of operations.
unfoldable pub accesses : List Op → PartitionSlice → List Access
accesses [] s = []
accesses (op ∷ ops) s = (perform op s).made ++ accesses ops (perform op s).slice

-- The access lies in the partition of `len` bytes from `start` on.
abbrev pub IsInside : ℕ → ℕ → Access → Type 0
IsInside start len a = (start ≤ a.offset) × (a.offset + a.count ≤ start + len)

All-append :
    (start len : ℕ) (xs ys : List Access)
    → All (IsInside start len) xs
    → All (IsInside start len) ys
    → All (IsInside start len) (xs ++ ys)
All-append start len [] ys h k = k
All-append start len (x ∷ xs) ys h k = (h.0, All-append start len xs ys h.1 k)

abbrev SamePlace : PartitionSlice → PartitionSlice → Type 0
SamePlace s t = (t.start ≡ s.start) × (t.len ≡ s.len)

seek-SamePlace : (target : SeekFrom) (s : PartitionSlice) → SamePlace s (seek target s)
unfolding seek
seek-SamePlace target s = elim (Option-cases (seek_to target s)) [
  | inl e ↦ rw (e, seek) (refl, refl)
  | inr (p, e) ↦ rw (e, seek) (refl, refl)
]

transfer-SamePlace :
    (at_end : Option ℕ) (want : ℕ) (served : Option ℕ) (s : PartitionSlice)
    → SamePlace s (transfer at_end want served s).slice
unfolding transfer
transfer-SamePlace at_end want served s = elim (Bool-cases (leb s.len s.at)) [
  | inl over ↦ rw over (refl, refl)
  | inr left ↦ rw left (by_served served)
]
  where
    by_served :
        (o : Option ℕ)
        → SamePlace s (elim o [ none ↦ s | some done ↦ record s { at = (s.at + done) % 2 ^ 64 } ])
    by_served none = (refl, refl)
    by_served (some done) = (refl, refl)

perform-SamePlace : (op : Op) (s : PartitionSlice) → SamePlace s (perform op s).slice
unfolding perform read write
perform-SamePlace (seeks target) s = seek-SamePlace target s
perform-SamePlace (reads want served) s = transfer-SamePlace (some 0) want served s
perform-SamePlace (writes want served) s = transfer-SamePlace none want served s

transfer-IsInside :
    (at_end : Option ℕ) (want : ℕ) (served : Option ℕ) (s : PartitionSlice)
    → s.start + s.len ≤ 2 ^ 64
    → All (IsInside s.start s.len) (transfer at_end want served s).made
unfolding transfer
transfer-IsInside at_end want served s fits = elim (Bool-cases (leb s.len s.at)) [
  | inl over ↦ rw over tt
  | inr left ↦ rw left ((ground (arith, left), ground (arith, left)), tt)
]

perform-IsInside :
    (op : Op) (s : PartitionSlice)
    → s.start + s.len ≤ 2 ^ 64
    → All (IsInside s.start s.len) (perform op s).made
unfolding perform read write
perform-IsInside (seeks target) s fits = tt
perform-IsInside (reads want served) s fits = transfer-IsInside (some 0) want served s fits
perform-IsInside (writes want served) s fits = transfer-IsInside none want served s fits

accesses-IsInside_of :
    (ops : List Op) (start len : ℕ) (s : PartitionSlice)
    → s.start ≡ start
    → s.len ≡ len
    → start + len ≤ 2 ^ 64
    → All (IsInside start len) (accesses ops s)
unfolding accesses
accesses-IsInside_of [] start len s a b fits = tt
accesses-IsInside_of (op ∷ ops) start len s a b fits =
    let same = perform-SamePlace op s in
    All-append start len (perform op s).made _
      (subst2 start len s a b (perform-IsInside op s (omega (arith, a, b, fits))))
      (accesses-IsInside_of ops start len (perform op s).slice (same.0 ∙ a) (same.1 ∙ b) fits)
  where
    subst2 :
        (start len : ℕ) (s : PartitionSlice)
        → s.start ≡ start
        → s.len ≡ len
        → All (IsInside s.start s.len) (perform op s).made
        → All (IsInside start len) (perform op s).made
    subst2 start len s a b h = rw (← a, ← b) h

-- Whatever is read, written and sought, on a partition that ends within 64 bits, a slice touches no byte
-- of the disk outside it.
pub accesses-IsInside :
    (ops : List Op) (start len : ℕ)
    → start + len ≤ 2 ^ 64
    → All (IsInside start len) (accesses ops (new_slice start len))
accesses-IsInside ops start len fits =
    accesses-IsInside_of ops start len (new_slice start len) refl refl fits
