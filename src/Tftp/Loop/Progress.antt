-- ===== src/Tftp/Loop/Progress.antt =====
-- The loop ends: every round moves the window or spends a retry.
use booty_call.Prelude.{
  ℕ, ◌+◌, ◌-◌, ◌*◌, ◌/◌, ◌≤◌, ◌<◌, ◌≡◌, inl, inr, refl, false, ◌||◌, Option, none, some, List, [],
  ◌∷◌, arith, length, ltb, leb, Bool-cases, Option-cases,
}
use native.Mathlib.Nat.{le-div_iff_mul-le}
use booty_call.Core.Store.{StateStore}
use booty_call.Tftp.Wire.{Bytes, parse_ack_packet, is_error_packet}
use booty_call.Tftp.Reader.{File}
use booty_call.Tftp.Session.{
  Plan, Session, Socket, Event, Recv, packet, recv_fault, timeout, Round, go, done, End,
  open_session, fail_with, max_retries, all_acked,
}
use booty_call.Tftp.Session.Window.{IsWindow, IsLast}
use booty_call.Tftp.Session.Frame.{IsSame, fill_window-IsSame}
use booty_call.Tftp.Loop.{
  find_ack, acked, advance, on_packet, on_recv, receive, round, run, ack_buf,
}
use booty_call.Tftp.Loop.Acks.{find_ack_sound}
use booty_call.Tftp.Loop.Window.{IsStep}
use booty_call.Tftp.Loop.Delivery.{run-IsStep, open-IsWindow}
use booty_call.Tftp.Loop.Steps.{after_fill, round_lem, after_round, run_lem}

-- Five rounds for every block that the window has moved past, and one for every retry spent.
abbrev pub spent : Session → ℕ
spent s = 5 * s.base + s.retries

abbrev IsProgress : Session → Round → Type 0
IsProgress s (go s') = (spent s + 1 ≤ spent s') × (s'.retries ≤ 5)
IsProgress s (done end s') = Unit

module _ (p : Plan) where
  advance-IsProgress :
      (abs : ℕ) (s : Session) → s.base ≤ abs → s.retries ≤ 4 → IsProgress s (advance abs s)
  unfolding advance
  advance-IsProgress abs s low few = elim (Bool-cases (all_acked (acked abs s))) [
    | inl finished ↦ rw finished tt
    | inr open_end ↦ rw open_end (elim (Bool-cases (ltb (abs + 1) s.next_to_send)) [
      | inl partial ↦ rw partial (omega arith, omega arith)
      | inr exact ↦ rw exact (omega arith, omega arith)
    ])
  ]

  on_packet-IsProgress :
      (rec : Bytes) (now : ℕ) (s : Session) → s.retries ≤ 4 → IsProgress s (on_packet p rec now s)
  unfolding on_packet fail_with
  on_packet-IsProgress rec now s few = elim (Bool-cases (is_error_packet rec)) [
    | inl e ↦ rw (e, on_packet) tt
    | inr e ↦ elim (Option-cases (parse_ack_packet rec)) [
      | inl a ↦ rw (e, a, on_packet) (omega arith, omega arith)
      | inr (w, a) ↦ elim (Option-cases (find_ack (s.next_to_send - s.base) s.base w)) [
        | inl f ↦ rw (e, a, f, on_packet) (omega arith, omega arith)
        | inr (abs, f) ↦
            rw (e, a, f, on_packet)
              (advance-IsProgress abs s (find_ack_sound (s.next_to_send - s.base) s.base w f).0 few)
      ]
    ]
  ]

  receive-IsProgress : (e : Event) (s : Session) → IsProgress s (receive p e s)
  unfolding receive on_recv fail_with
  receive-IsProgress e s =
      elim (Bool-cases (leb max_retries s.retries || leb p.deadline e.polled)) [
        | inl over ↦ rw over tt
        | inr left ↦ rw left (by_recv e.recv (ground (arith, left)))
      ]
    where
      by_recv : (r : Recv) → s.retries ≤ 4 → IsProgress s (on_recv p r e.stamped s)
      by_recv (packet datagram) few = on_packet-IsProgress (ack_buf datagram) e.stamped s few
      by_recv recv_fault few = tt
      by_recv timeout few = (omega arith, omega arith)

  after_fill-IsProgress :
      (e : Event) (s : Session) (r : Round) → IsSame p s r → IsProgress s (after_fill p e r)
  unfolding after_fill
  after_fill-IsProgress e s (go t) h = moved (receive p e t) (receive-IsProgress e t)
    where
      moved : (r : Round) → IsProgress t r → IsProgress s r
      moved (go u) k = (omega (arith, h, k), k.1)
      moved (done end u) k = tt
  after_fill-IsProgress e s (done end t) h = tt

  round-IsProgress : (e : Event) (s : Session) → IsProgress s (round p e s)
  round-IsProgress e s =
      rw round_lem (after_fill-IsProgress e s _ (fill_window-IsSame p e.stamped s))

  -- Where the loop still runs after the given rounds.
  abbrev IsPending : List Event → Session → Round → Type 0
  IsPending es s (go s') = (spent s + length es ≤ spent s') × (s'.retries ≤ 5)
  IsPending es s (done end s') = Unit

  run-IsPending : (es : List Event) (s : Session) → s.retries ≤ 5 → IsPending es s (run p es s)
  unfolding after_round
  run-IsPending [] s few = unfold run in (omega arith, few)
  run-IsPending (e ∷ es) s few =
      rw run_lem (by_round (round p e s) (round-IsProgress e s) (λ t few'. run-IsPending es t few'))
    where
      by_round :
          (r : Round)
          → IsProgress s r
          → ((t : Session) → t.retries ≤ 5 → IsPending es t (run p es t))
          → IsPending (e ∷ es) s (after_round p e es r)
      by_round (go t) h ih = still (run p es t) (ih t h.1)
        where
          still : (u : Round) → IsPending es t u → IsPending (e ∷ es) s u
          still (go u) k = (omega (arith, h, k), k.1)
          still (done end u) k = tt
      by_round (done end t) h ih = tt

  -- The base stays within the file while the loop runs.
  base_in_file :
      (content : Bytes) (before : List Bytes) (s : Session)
      → 0 < p.blksize
      → IsWindow p content before s
      → s.base ≤ length content / p.blksize + 1
  base_in_file content before s pos h = by_last s.last_block h.shape.last (h.shape.unfinished)
    where
      by_last :
          (last : Option ℕ)
          → IsLast p content before h.r last
          → (elim last [ none ↦ false | some lb ↦ ltb lb s.base ]) ≡ false
          → s.base ≤ length content / p.blksize + 1
      by_last none hl open_end = omega (
        arith,
        (le-div_iff_mul-le {k = p.blksize} {x = h.r - 1} {y = length content} pos).1 hl,
        h.shape.base_next,
        h.shape.next_read,
      )
      by_last (some lb) hl open_end =
          let inside : s.base ≤ lb = ground (arith, open_end) in
          omega (
            arith,
            (le-div_iff_mul-le {k = p.blksize} {x = lb - 1} {y = length content} pos).1 hl.1,
            inside,
          )

-- A transfer never runs for ever: after five rounds for every block of the file, whatever the client
-- sends or does not send in them, it has ended.
pub run_ends :
    (p : Plan) (es : List Event) (file : File) (socket : Socket) (store : StateStore)
    → 0 < p.blksize
    → 5 * (length file.rest / p.blksize + 1) < length es
    → (end : End) × (s : Session) × (run p es (open_session file socket store) ≡ done end s)
run_ends p es file socket store pos long =
    by_run (run p es start) refl (run-IsPending p es start (omega arith)) (
      run-IsStep p file.rest socket.sent es start
        (open-IsWindow p file.rest socket.sent file socket store refl refl))
  where
    start : Session
    start = open_session file socket store

    by_run :
        (r : Round)
        → run p es start ≡ r
        → IsPending p es start r
        → IsStep p file.rest socket.sent r
        → (end : End) × (s : Session) × (run p es start ≡ done end s)
    by_run (go s) e h w =
        absurd (omega (arith, h, long, base_in_file p file.rest socket.sent s pos w))
    by_run (done end s) e h w = (end, s, e)
