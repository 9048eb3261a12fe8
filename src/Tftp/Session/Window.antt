-- ===== src/Tftp/Session/Window.antt =====
-- The invariant of the sliding window.
pub mod Reading
pub mod Filling
use booty_call.Prelude.{
  ℕ, zero, suc, ◌+◌, ◌-◌, ◌*◌, ◌≤◌, ◌<◌, ◌≡◌, ◌≢◌, ◌⊎◌, inl, inr, refl, sym, ap, ◌∙◌, Bool, true,
  false, not, ◌&&◌, ◌||◌, Option, none, some, List, [], ◌∷◌, ◌++◌, arith, All, length, length-take,
  length-drop, take, drop, drop-drop, ltb, leb, ◌==◌, ==_iff, if◌then◌else◌, Bool-cases,
  Option-cases,
}
use mathlib.Core.Path.{subst}
use mathlib.Core.List.{append_assoc}
use native.Mathlib.Decide.{dec_lt}
use native.Mathlib.Nat.{suc-mul}
use booty_call.Tftp.Wire.{Bytes, make_data_packet}
use booty_call.Tftp.Reader.{File, Fill, filled, broken, stuck, read_fill}
use booty_call.Tftp.Reader.Full.{IsFill, read_fill-IsFill}
use booty_call.Tftp.Blocks.{get, insert, get-insert}
use booty_call.Tftp.Session.{
  Plan, Session, Socket, send, wire_of, Round, go, done, End, whole_file, io_error, read_error,
  fail_with, transmit, send_next, past_last, fill_rounds, fill_window, with_block, all_acked, fails,
}

-- The packet stands in the list.
abbrev pub Sends : Bytes → List Bytes → Type 0
Sends x [] = ⊥
Sends x (y ∷ ys) = (y ≡ x) ⊎ Sends x ys

Sends-append_left : (x : Bytes) (xs ys : List Bytes) → Sends x xs → Sends x (xs ++ ys)
Sends-append_left x [] ys h = absurd h
Sends-append_left x (y ∷ xs) ys (inl e) = inl e
Sends-append_left x (y ∷ xs) ys (inr h) = inr (Sends-append_left x xs ys h)

Sends-append_last : (x : Bytes) (xs : List Bytes) → Sends x (xs ++ (x ∷ []))
Sends-append_last x [] = inl refl
Sends-append_last x (y ∷ xs) = inr (Sends-append_last x xs)

pub mul_mono : (a b c : ℕ) → a ≤ b → a * c ≤ b * c
mul_mono a b c h = grind arith

pub suc_times : (a b : ℕ) → suc a * b ≡ b + a * b
suc_times a b = omega (arith, suc-mul a b)

-- `before` is what the socket had sent before the DATA phase, `content` the whole file.
module _ (p : Plan) (content : Bytes) (before : List Bytes) where
  -- Block `k` of the file, counted from 1.
  abbrev pub block : ℕ → Bytes
  block k = take p.blksize (drop ((k - 1) * p.blksize) content)

  abbrev pub data_packet : ℕ → Bytes
  data_packet k = make_data_packet (wire_of k) (block k)

  -- The file has a block `k`; the last one is short, and may be empty.
  abbrev pub HasBlock : ℕ → Type 0
  HasBlock k = (1 ≤ k) × ((k - 1) * p.blksize ≤ length content)

  abbrev pub IsData : Bytes → Type 0
  IsData pkt = (k : ℕ) × HasBlock k × (pkt ≡ data_packet k)

  -- Nothing but DATA packets of this file has been sent.
  abbrev pub IsSound : List Bytes → Type 0
  IsSound sent = (log : List Bytes) × (sent ≡ before ++ log) × All IsData log

  -- The blocks before `u` have been sent.
  pub record IsSent (u : ℕ) (sent : List Bytes) : Type 0 where
    pub log : List Bytes
    pub log_eq : sent ≡ before ++ log
    pub sound : All IsData log
    pub delivered : (k : ℕ) → 1 ≤ k → k < u → Sends (data_packet k) log

  -- What is known of the end of the file once the blocks before `r` have been read.
  abbrev pub IsLast : ℕ → Option ℕ → Type 0
  IsLast r none = (r - 1) * p.blksize ≤ length content
  IsLast r (some lb) =
      (r ≡ lb + 1) × ((lb - 1) * p.blksize ≤ length content) × (length content < lb * p.blksize)

  -- The blocks before `r` have been read; those from `base` on are in the buffer.
  pub record IsShape (r : ℕ) (s : Session) : Type 0 where
    pub base_pos : 1 ≤ s.base
    pub base_next : s.base ≤ s.next_to_send
    pub next_read : s.next_to_send ≤ r
    pub read_window : r ≤ s.base + p.window
    pub rest : s.file.rest ≡ drop ((r - 1) * p.blksize) content
    pub in_buffer : (k : ℕ) → s.base ≤ k → k < r → get k s.buffered ≡ some (block k)
    pub unread : (k : ℕ) → r ≤ k → get k s.buffered ≡ none
    pub last : IsLast r s.last_block
    pub unfinished : all_acked s ≡ false

  -- The invariant at the head of the loop.
  pub record IsWindow (s : Session) : Type 0 where
    pub r : ℕ
    pub shape : IsShape r s
    pub sent : IsSent r s.socket.sent

  -- A step keeps the invariant, or ends the transfer before the file is acknowledged, with nothing but
  -- DATA packets sent.
  abbrev pub IsKept : Round → Type 0
  IsKept (go s) = IsWindow s
  IsKept (done end s) = (end ≢ whole_file) × IsSound s.socket.sent

  pub All-snoc :
      (xs : List Bytes) (x : Bytes) → All IsData xs → IsData x → All IsData (xs ++ (x ∷ []))
  All-snoc [] x h hx = (hx, tt)
  All-snoc (y ∷ xs) x h hx = (h.0, All-snoc xs x h.1 hx)

  pub IsSound-of_sent : (u : ℕ) (sent : List Bytes) → IsSent u sent → IsSound sent
  IsSound-of_sent u sent h = (h.log, h.log_eq, h.sound)

  -- Sending block `k` when all before `r` but `k` have been sent.
  pub IsSent-more :
      (u r k : ℕ) (sent : List Bytes)
      → IsSent u sent
      → HasBlock k
      → ((j : ℕ) → j < r → (j < u) ⊎ (k ≡ j))
      → IsSent r (sent ++ (data_packet k ∷ []))
  IsSent-more u r k sent h hk cover = record {
    log = h.log ++ (data_packet k ∷ []);
    log_eq = ap (λ t. t ++ (data_packet k ∷ [])) h.log_eq ∙ append_assoc before h.log _;
    sound = All-snoc h.log (data_packet k) h.sound (k, hk, refl);
    delivered = λ j hj lt. elim (cover j lt) [
      | inl old ↦ Sends-append_left (data_packet j) h.log _ (h.delivered j hj old)
      | inr e ↦
          subst (λ i. Sends (data_packet i) (h.log ++ (data_packet k ∷ []))) e
            (Sends-append_last (data_packet k) h.log)
    ];
  }

  pub has_block : (r k : ℕ) (last : Option ℕ) → IsLast r last → 1 ≤ k → k < r → HasBlock k
  has_block r k none h pos lt =
      (pos, omega (arith, h, mul_mono (k - 1) (r - 1) p.blksize (omega arith)))
  has_block r k (some lb) h pos lt =
      (pos, omega (arith, h.1, mul_mono (k - 1) (lb - 1) p.blksize (omega (arith, h.0))))
