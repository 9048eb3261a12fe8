-- ===== src/Tftp/Session/Window/Reading.antt =====
-- A step of the window: a block is read from the file and sent.
use booty_call.Prelude.{
  ℕ, zero, suc, ◌+◌, ◌-◌, ◌*◌, ◌≤◌, ◌<◌, ◌≡◌, ◌⊎◌, inl, inr, refl, sym, ap, ◌∙◌, Bool, false, ◌||◌,
  Option, none, some, List, [], arith, length, length-take, length-drop, take, drop, drop-drop, ltb,
  ◌==◌, ==_iff, if◌then◌else◌, Bool-cases,
}
use mathlib.Core.Path.{subst}
use booty_call.Tftp.Wire.{Bytes}
use booty_call.Tftp.Reader.{File, Fill, filled, broken, stuck}
use booty_call.Tftp.Reader.Full.{IsFill}
use booty_call.Tftp.Blocks.{get, get-insert}
use booty_call.Tftp.Session.{
  Plan, Session, send, Round, done, read_error, fail_with, transmit, past_last, with_block, fails,
}
use booty_call.Tftp.Session.Window.{
  IsKept, IsLast, IsSent, IsShape, block, has_block, IsSent-more, IsSound-of_sent, suc_times,
}

-- `before` is what the socket had sent before the DATA phase, `content` the whole file.
module _ (p : Plan) (content : Bytes) (before : List Bytes) where
  pub transmit-IsKept :
      (u r : ℕ) (payload : Bytes) (now : ℕ) (s : Session)
      → IsShape p content before r s
      → s.next_to_send < r
      → payload ≡ block p content before s.next_to_send
      → IsSent p content before u s.socket.sent
      → ((j : ℕ) → j < r → (j < u) ⊎ (s.next_to_send ≡ j))
      → IsKept p content before (transmit p payload now s)
  unfolding transmit send fail_with
  transmit-IsKept u r payload now s shape lt e sent cover =
      elim (Bool-cases (fails s.socket.faults)) [
        | inl down ↦ rw down ((λ e. cc), IsSound-of_sent p content before u _ sent)
        | inr up ↦
            rw (up, e)
              (record {
                r = r;
                shape = record {
                  base_pos = shape.base_pos;
                  base_next = omega (arith, shape.base_next);
                  next_read = omega (arith, lt);
                  read_window = shape.read_window;
                  rest = shape.rest;
                  in_buffer = shape.in_buffer;
                  unread = shape.unread;
                  last = shape.last;
                  unfinished = shape.unfinished;
                };
                sent =
                    IsSent-more p content before u r s.next_to_send s.socket.sent sent
                      (has_block p content before r s.next_to_send s.last_block shape.last
                        (omega (arith, shape.base_pos, shape.base_next)) lt)
                      cover;
              })
      ]

  -- `send_next` given what the buffer and the file yield.
  unfoldable pub after_get : ℕ → Session → Option Bytes → Fill → Round
  after_get now s o f = elim o [
    | some payload ↦ transmit p payload now s
    | none ↦ elim f [
      | filled payload hit_eof file ↦
          transmit p payload now (with_block p.blksize payload hit_eof file s)
      | broken file ↦ done read_error (record s { file = file })
      | stuck ↦ done read_error s
    ]
  ]

  pub payload_eq :
      (s : Session) (r : ℕ) (payload : Bytes)
      → IsShape p content before r s
      → s.next_to_send ≡ r
      → payload ≡ take p.blksize s.file.rest
      → payload ≡ block p content before s.next_to_send
  payload_eq s r payload shape here hd = hd ∙ rw (shape.rest, here)

  pub buffered_block :
      (r k : ℕ) (payload : Bytes) (s : Session)
      → IsShape p content before r s
      → s.base ≤ k
      → k < r + 1
      → payload ≡ block p content before s.next_to_send
      → s.next_to_send ≡ r
      → (if s.next_to_send == k then some payload else get k s.buffered)
        ≡ some (block p content before k)
  buffered_block r k payload s shape low high e here = elim (Bool-cases (s.next_to_send == k)) [
    | inl same ↦
        rw same
          (ap some (e ∙ ap (λ j. block p content before j) ((==_iff s.next_to_send k).0 same)))
    | inr other ↦ rw other (shape.in_buffer k low (ground (arith, other)))
  ]

  -- A window that has not passed the end of the file has not seen it, at the first unread block p content before.
  pub none_last :
      (r next : ℕ) (last : Option ℕ)
      → IsLast p content before r last
      → next ≡ r
      → (elim last [ none ↦ false | some lb ↦ ltb lb next ]) ≡ false
      → last ≡ none
  none_last r next none h e more = refl
  none_last r next (some lb) h e more = absurd (ground (arith, h.0))

  pub next_offset : (r : ℕ) → 1 ≤ r → p.blksize + (r - 1) * p.blksize ≡ (r + 1 - 1) * p.blksize
  next_offset zero h = absurd (omega arith)
  next_offset (suc r) h =
      let e : suc r - 1 ≡ r = omega arith in
      let e' : suc r + 1 - 1 ≡ suc r = omega arith in rw (e, e') (sym (suc_times r p.blksize))

  pub next_end : (r : ℕ) → 1 ≤ r → r * p.blksize ≡ p.blksize + (r - 1) * p.blksize
  next_end zero h = absurd (omega arith)
  next_end (suc r) h = let e : suc r - 1 ≡ r = omega arith in rw e (suc_times r p.blksize)

  -- Where the file ends, by the length of the block p content before that was read.
  pub read_last :
      (r next : ℕ) (payload : Bytes) (hit_eof : Bool) (rest : Bytes)
      → 1 ≤ r
      → next ≡ r
      → (r - 1) * p.blksize ≤ length content
      → rest ≡ drop ((r - 1) * p.blksize) content
      → payload ≡ take p.blksize rest
      → hit_eof ≡ ltb (length rest) p.blksize
      → IsLast p content before
          (r + 1)
          (if hit_eof || ltb (length payload) p.blksize then some next else none)
  read_last r next payload hit_eof rest pos here seen hr hd he =
      let left = ap length hr ∙ length-drop ((r - 1) * p.blksize) content in
      let got = ap length hd ∙ length-take p.blksize rest in
      elim (Bool-cases (ltb (length rest) p.blksize)) [
        | inl over ↦
            rw (he, over)
              (
                omega (arith, here),
                rw here seen,
                rw here (ground (arith, over, left, next_end r pos)),
              )
        | inr full ↦
            let full' : ltb (length payload) p.blksize ≡ false = ground (arith, full, got) in
            rw (he, full, full') (ground (arith, full, left, next_offset r pos))
      ]

  -- Block `r` has been read from the file.
  pub read-IsShape :
      (r : ℕ) (payload : Bytes) (hit_eof : Bool) (file : File) (s : Session)
      → IsShape p content before r s
      → s.next_to_send ≡ r
      → s.next_to_send < s.base + p.window
      → past_last p s ≡ false
      → IsFill p.blksize [] s.file (filled payload hit_eof file)
      → IsShape p content before (r + 1) (with_block p.blksize payload hit_eof file s)
  read-IsShape r payload hit_eof file s shape here room more (hd, hr, he, _) =
      let pos : 1 ≤ r = omega (arith, here, shape.base_pos, shape.base_next) in
      let fresh = none_last r s.next_to_send s.last_block shape.last here more in
      record {
        base_pos = shape.base_pos;
        base_next = shape.base_next;
        next_read = omega (arith, here);
        read_window = omega (arith, here, room);
        rest = hr ∙ rw shape.rest (drop-drop p.blksize _ _ content (next_offset r pos));
        in_buffer = λ k low high. rw get-insert (
            buffered_block r k payload s shape low high (payload_eq s r payload shape here hd)
              here);
        unread = λ k high. rw get-insert (ground (arith, here, shape.unread k (omega arith)));
        last = rw fresh (
            read_last r s.next_to_send payload hit_eof s.file.rest pos here
              (subst (IsLast p content before r) fresh shape.last) shape.rest hd he);
        unfinished = rw fresh (ground (arith, shape.base_next));
      }
