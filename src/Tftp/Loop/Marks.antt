-- ===== src/Tftp/Loop/Marks.antt =====
-- What the loop does to the state store.
use booty_call.Prelude.{
  ℕ, ◌+◌, ◌-◌, ◌≡◌, inl, inr, refl, ◌||◌, List, [], ◌∷◌, ltb, leb, Bool-cases, Option-cases,
}
use mathlib.Core.Path.{subst}
use booty_call.Core.Store.{StateStore}
use booty_call.Tftp.Wire.{Bytes, parse_ack_packet, is_error_packet}
use booty_call.Tftp.Session.{
  Plan, Session, Event, Recv, packet, recv_fault, timeout, Round, go, done, End, whole_file,
  client_error, timed_out, io_error, read_error, fail_with, fill_window, max_retries, all_acked,
  mark_completed,
}
use booty_call.Tftp.Session.Frame.{IsMarked, IsSame, fill_window-IsSame}
use booty_call.Tftp.Loop.{
  find_ack, acked, advance, on_packet, on_recv, receive, round, finish, run, ack_buf, last_or_zero,
}
use booty_call.Tftp.Loop.Steps.{after_fill, round_lem, after_round, run_lem}

module _ (p : Plan) where
  -- A step leaves the store as it is while the loop goes on.
  abbrev IsStored : StateStore → Round → Type 0
  IsStored before (go s) = s.store ≡ before
  IsStored before (done end s) = IsMarked p end before s.store

  advance-IsStored : (abs : ℕ) (s : Session) → IsStored s.store (advance abs s)
  unfolding advance
  advance-IsStored abs s = elim (Bool-cases (all_acked (acked abs s))) [
    | inl finished ↦ rw finished refl
    | inr open_end ↦ rw open_end (elim (Bool-cases (ltb (abs + 1) s.next_to_send)) [
      | inl partial ↦ rw partial refl
      | inr exact ↦ rw exact refl
    ])
  ]

  on_packet-IsStored :
      (rec : Bytes) (now : ℕ) (s : Session) → IsStored s.store (on_packet p rec now s)
  unfolding on_packet fail_with
  on_packet-IsStored rec now s = elim (Bool-cases (is_error_packet rec)) [
    | inl e ↦ rw (e, on_packet) (now, refl)
    | inr e ↦ elim (Option-cases (parse_ack_packet rec)) [
      | inl a ↦ rw (e, a, on_packet) refl
      | inr (w, a) ↦ elim (Option-cases (find_ack (s.next_to_send - s.base) s.base w)) [
        | inl f ↦ rw (e, a, f, on_packet) refl
        | inr (abs, f) ↦ rw (e, a, f, on_packet) (advance-IsStored abs s)
      ]
    ]
  ]

  receive-IsStored : (e : Event) (s : Session) → IsStored s.store (receive p e s)
  unfolding receive on_recv fail_with
  receive-IsStored e s = elim (Bool-cases (leb max_retries s.retries || leb p.deadline e.polled)) [
    | inl over ↦ rw over (e.stamped, refl)
    | inr left ↦ rw left (by_recv e.recv)
  ]
    where
      by_recv : (r : Recv) → IsStored s.store (on_recv p r e.stamped s)
      by_recv (packet datagram) = on_packet-IsStored (ack_buf datagram) e.stamped s
      by_recv recv_fault = (e.stamped, refl)
      by_recv timeout = refl

  round-IsStored : (e : Event) (s : Session) → IsStored s.store (round p e s)
  unfolding after_fill
  round-IsStored e s =
      rw round_lem (by_fill (fill_window p e.stamped s) (fill_window-IsSame p e.stamped s))
    where
      by_fill : (r : Round) → IsSame p s r → IsStored s.store (after_fill p e r)
      by_fill (go t) h = subst (λ b. IsStored b (receive p e t)) h.2 (receive-IsStored e t)
      by_fill (done end t) h = h

  -- What a whole transfer does to the state store: nothing as long as it runs, nothing on a read error; a
  -- complete one marks the host as completed, and every other end marks it as failed, with the reason of that end.
  abbrev pub IsAccounted : StateStore → Round → Type 0
  IsAccounted before (go s) = s.store ≡ before
  IsAccounted before (done whole_file s) =
      (now : ℕ) × (s.store ≡ mark_completed p.mac (last_or_zero p s.last_block) now before)
  IsAccounted before (done end s) = IsMarked p end before s.store

  finish-IsAccounted :
      (end : End) (now : ℕ) (before : StateStore) (s : Session)
      → IsMarked p end before s.store
      → IsAccounted before (done end (finish p end now s))
  unfolding finish
  finish-IsAccounted whole_file now before s h = (now, rw h)
  finish-IsAccounted client_error now before s h = h
  finish-IsAccounted timed_out now before s h = h
  finish-IsAccounted io_error now before s h = h
  finish-IsAccounted read_error now before s h = h

  -- However a transfer goes, the state store says so: it is untouched while the transfer runs, the host is
  -- marked as completed after a complete one, and as failed after a client error, a timeout or an
  -- I/O error on the socket. Only an error in reading the file leaves the store untouched.
  pub run-IsAccounted : (es : List Event) (s : Session) → IsAccounted s.store (run p es s)
  unfolding after_round
  run-IsAccounted [] s = unfold run in refl
  run-IsAccounted (e ∷ es) s =
      rw run_lem (by_round (round p e s) (round-IsStored e s) (λ t. run-IsAccounted es t))
    where
      by_round :
          (r : Round)
          → IsStored s.store r
          → ((t : Session) → IsAccounted t.store (run p es t))
          → IsAccounted s.store (after_round p e es r)
      by_round (go t) h ih = subst (λ b. IsAccounted b (run p es t)) h (ih t)
      by_round (done end t) h ih = finish-IsAccounted end e.stamped s.store t h
