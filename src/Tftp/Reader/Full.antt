-- ===== src/Tftp/Reader/Full.antt =====
-- `read_fill` returns a full buffer or the end of the file, however short the reads are.
use booty_call.Prelude.{
  ℕ, zero, suc, ◌-◌, ◌≤◌, ◌≡◌, refl, ap, ◌∙◌, min, true, List, [], ◌∷◌, ◌++◌, arith, length, take,
  drop, ltb, length-take, length-drop, take-take-drop, drop-drop, sym,
}
use mathlib.Core.List.{append-nil, append_assoc}
use booty_call.Tftp.Wire.{Bytes}
use booty_call.Tftp.Reader.{
  Grant, upto, fault, File, Read, bytes, failed, read, read_from, Fill, filled, broken, stuck,
  fill_loop, read_fill,
}

-- Some read is going to fail.
abbrev pub Faulty : List Grant → Type 0
Faulty [] = ⊥
Faulty (upto n ∷ gs) = Faulty gs
Faulty (fault ∷ gs) = Unit

-- What a fill of `want` bytes behind `acc` may return.
abbrev pub IsFill : ℕ → Bytes → File → Fill → Type 0
IsFill want acc f (filled d eof f') =
    (d ≡ acc ++ take want f.rest)
    × (f'.rest ≡ drop want f.rest)
    × (eof ≡ ltb (length f.rest) want)
    × (Faulty f'.grants → Faulty f.grants)
IsFill want acc f (broken f') = Faulty f.grants
IsFill want acc f stuck = ⊥

-- What one read of `want` bytes returns.
abbrev IsRead : ℕ → Bytes → List Grant → Read → Type 0
IsRead want rest gs (failed f') = Faulty gs
IsRead want rest gs (bytes d f') =
    (n : ℕ) × (n ≤ want)
    × (n ≤ length rest)
    × (n ≡ 0 → length rest ≡ 0)
    × (d ≡ take n rest)
    × (f'.rest ≡ drop n rest)
    × (Faulty f'.grants → Faulty gs)

read_from-IsRead :
    (w : ℕ) (rest : Bytes) (gs : List Grant) → IsRead (suc w) rest gs (read_from (suc w) rest gs)
read_from-IsRead w rest [] =
    (min (suc w) (length rest), omega arith, omega arith, (λ e. omega arith), refl, refl, (λ h. h))
read_from-IsRead w rest (upto n ∷ gs) = (
  min (min (suc w) (suc n)) (length rest),
  omega arith,
  omega arith,
  (λ e. omega arith),
  refl,
  refl,
  (λ h. h),
)
read_from-IsRead w rest (fault ∷ gs) = tt

-- What a fill of the bytes behind a first read returns is what a fill of all of them returns.
extend :
    (want n : ℕ) (acc chunk : Bytes) (f f' : File) (r : Fill)
    → n ≤ want
    → n ≤ length f.rest
    → chunk ≡ take n f.rest
    → f'.rest ≡ drop n f.rest
    → (Faulty f'.grants → Faulty f.grants)
    → IsFill (want - n) (acc ++ chunk) f' r
    → IsFill want acc f r
extend want n acc chunk f f' (filled d eof g) hw hl hc hr hf (hd, hg, he, hq) = (
  hd
      ∙ append_assoc acc chunk _
      ∙ ap (λ t. acc ++ t) (rw (hc, hr) (take-take-drop n (want - n) want f.rest (omega arith))),
  hg ∙ rw hr (drop-drop (want - n) n want f.rest (omega arith)),
  he ∙ rw hr (ground (arith, length-drop n f.rest)),
  (λ q. hf (hq q)),
)
extend want n acc chunk f f' (broken g) hw hl hc hr hf h = hf h
extend want n acc chunk f f' stuck hw hl hc hr hf h = h

empty_rest :
    (w : ℕ) (rest : Bytes)
    → length rest ≡ 0
    → (take (suc w) rest ≡ []) × (drop (suc w) rest ≡ []) × (rest ≡ [])
empty_rest w [] h = (refl, refl, refl)
empty_rest w (x ∷ xs) h = absurd (omega arith)

-- One round of the loop, given what the read returned.
after_read : ℕ → ℕ → Bytes → Read → Fill
after_read fuel w acc (failed f') = broken f'
after_read fuel w acc (bytes [] f') = filled acc true f'
after_read fuel w acc (bytes (b ∷ bs) f') =
    fill_loop fuel (suc w - length (b ∷ bs)) (acc ++ (b ∷ bs)) f'

module _ (fuel w : ℕ) (acc : Bytes) (f : File)
    (ih : (want : ℕ) (acc : Bytes) (f : File)
      → want ≤ fuel
      → IsFill want acc f (fill_loop fuel want acc f)) where
  after_read-IsFill :
      (r : Read)
      → w ≤ fuel
      → IsRead (suc w) f.rest f.grants r
      → IsFill (suc w) acc f (after_read fuel w acc r)
  unfolding after_read
  after_read-IsFill (failed f') hw h = h
  after_read-IsFill (bytes [] f') hw (n, _, fits, zero_only, hd, hr, hf) =
      let none_read : n ≡ 0 = omega (arith, ap length hd, length-take n f.rest) in
      let (ht, hdrop, nil) = empty_rest w f.rest (zero_only none_read) in
      (rw (ht, append-nil), hr ∙ rw (none_read, hdrop) nil, ground (arith, zero_only none_read), hf)
  after_read-IsFill (bytes (b ∷ bs) f') hw (n, short, fits, _, hd, hr, hf) =
      let count : length (b ∷ bs) ≡ n = omega (arith, ap length hd, length-take n f.rest) in
      extend (suc w) (length (b ∷ bs)) acc (b ∷ bs) f f' _ (omega (arith, count))
        (omega (arith, count)) (hd ∙ ap (λ k. take k f.rest) (sym count))
        (hr ∙ ap (λ k. drop k f.rest) (sym count)) hf
        (ih (suc w - length (b ∷ bs)) (acc ++ (b ∷ bs)) f' (omega (arith, count)))

fill_loop_step :
    (fuel w : ℕ) (acc : Bytes) (f : File) (r : Read)
    → read (suc w) f ≡ r
    → fill_loop (suc fuel) (suc w) acc f ≡ after_read fuel w acc r
unfolding fill_loop after_read
fill_loop_step fuel w acc f (failed f') e = rw (e, fill_loop)
fill_loop_step fuel w acc f (bytes [] f') e = rw (e, fill_loop)
fill_loop_step fuel w acc f (bytes (b ∷ bs) f') e = rw (e, fill_loop)

fill_loop-IsFill :
    (fuel want : ℕ) (acc : Bytes) (f : File)
    → want ≤ fuel
    → IsFill want acc f (fill_loop fuel want acc f)
fill_loop-IsFill fuel zero acc f h =
    unfold fill_loop in (sym (append-nil acc), refl, ground arith, λ q. q)
fill_loop-IsFill zero (suc w) acc f h = absurd (omega arith)
fill_loop-IsFill (suc fuel) (suc w) acc f h = rw (fill_loop_step fuel w acc f _ refl) (
    after_read-IsFill fuel w acc f (λ want a g le. fill_loop-IsFill fuel want a g le)
      (read (suc w) f) (omega arith) (unfold read in read_from-IsRead w f.rest f.grants))

-- The same with what the induction needs.
pub read_fill-IsFill : (size : ℕ) (f : File) → IsFill size [] f (read_fill size f)
unfolding read_fill
read_fill-IsFill size f = fill_loop-IsFill size size [] f (omega arith)

-- What filling a buffer of `size` bytes from a file may return.
abbrev pub IsFilled : ℕ → File → Fill → Type 0
IsFilled size f (filled d eof f') =
    (d ≡ take size f.rest) × (f'.rest ≡ drop size f.rest) × (eof ≡ ltb (length f.rest) size)
IsFilled size f (broken f') = Faulty f.grants
IsFilled size f stuck = ⊥

IsFilled-of : (size : ℕ) (f : File) (o : Fill) → IsFill size [] f o → IsFilled size f o
IsFilled-of size f (filled d eof f') h = (h.0, h.1, h.2)
IsFilled-of size f (broken f') h = h
IsFilled-of size f stuck h = h

-- `read_fill` never loops for ever. What it returns are the next `size` bytes of the file, or all that
-- is left if that is less, and it reports the end of the file exactly if it is less; it fails only
-- if a read fails. How the reads split the bytes makes no difference.
pub read_fill-IsFilled : (size : ℕ) (f : File) → IsFilled size f (read_fill size f)
read_fill-IsFilled size f = IsFilled-of size f (read_fill size f) (read_fill-IsFill size f)
