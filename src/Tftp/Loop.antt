-- ===== src/Tftp/Loop.antt =====
-- crates/bootycall-tftp/src/server.rs: the wait for ACKs in the DATA phase, and the loop as a whole.
pub mod Acks
pub mod Steps
pub mod Progress
pub mod Window
pub mod Delivery
pub mod Marks
use booty_call.Prelude.{
  ℕ, zero, suc, ◌+◌, ◌-◌, Bool, true, false, ◌||◌, Option, none, some, List, [], ◌∷◌, ltb, leb,
  ◌==◌, if◌then◌else◌, take,
}
use booty_call.Prelude.Bytes.{codes}
use booty_call.Tftp.Wire.{Bytes, parse_ack_packet, is_error_packet}
use booty_call.Tftp.Blocks.{retain_from}
use booty_call.Tftp.Session.{
  Plan, Session, Event, Recv, packet, recv_fault, timeout, End, whole_file, client_error, timed_out,
  io_error, Round, go, done, wire_of, max_retries, fail_with, fill_window, mark_completed,
  all_acked,
}

-- `(abs..abs + rounds).find(|&abs| wire_of(abs) == acked_wire)`
unfoldable pub find_ack : ℕ → ℕ → ℕ → Option ℕ
find_ack zero abs acked_wire = none
find_ack (suc rounds) abs acked_wire =
    let rest = find_ack rounds (abs + 1) acked_wire in
    if wire_of abs == acked_wire then some abs else rest

-- A cumulative ACK of block `abs`.
abbrev pub acked : ℕ → Session → Session
acked abs s = record s { base = abs + 1; buffered = retain_from (abs + 1) s.buffered; retries = 0 }

-- An ACK for an earlier block than the last one sent rolls back.
unfoldable pub advance : ℕ → Session → Round
advance abs s =
    let s' = acked abs s in
    if all_acked s'
    then done whole_file s'
    else go (if ltb (abs + 1) s.next_to_send then record s' { next_to_send = s'.base } else s')

-- A packet that moves nothing counts against the retry budget.
abbrev pub retry : Session → Round
retry s = go (record s { retries = s.retries + 1 })

-- `ack_buf` holds 1024 bytes, and a longer datagram is cut.
abbrev pub ack_buf : Bytes → Bytes
ack_buf datagram = take 1024 datagram

module _ (p : Plan) where
  unfoldable pub on_packet : Bytes → ℕ → Session → Round
  on_packet rec now s =
      if is_error_packet rec
      then fail_with p client_error (codes "client aborted during data transfer") now s
      else elim (parse_ack_packet rec) [
        | none ↦ retry s
        | some acked_wire ↦ elim (find_ack (s.next_to_send - s.base) s.base acked_wire) [
          | none ↦ retry s
          | some abs ↦ advance abs s
        ]
      ]

  unfoldable pub on_recv : Recv → ℕ → Session → Round
  on_recv (packet datagram) now s = on_packet (ack_buf datagram) now s
  on_recv recv_fault now s = fail_with p io_error (codes "I/O error during data transfer") now s
  on_recv timeout now s = go (record s { retries = s.retries + 1; next_to_send = s.base })

  -- The retry budget and the deadline, then the wait.
  unfoldable pub receive : Event → Session → Round
  receive e s =
      if leb max_retries s.retries || leb p.deadline e.polled
      then fail_with p timed_out (codes "timed out waiting for data ACK") e.stamped s
      else on_recv e.recv e.stamped s

  -- One round of the loop.
  unfoldable pub round : Event → Session → Round
  round e s = elim (fill_window p e.stamped s) [ go s' ↦ receive e s' | done end s' ↦ done end s' ]

  abbrev pub last_or_zero : Option ℕ → ℕ
  last_or_zero none = 0
  last_or_zero (some lb) = lb

  -- Once the whole file is acknowledged the host is marked as completed.
  unfoldable pub finish : End → ℕ → Session → Session
  finish whole_file now s = record s {
    store = mark_completed p.mac (last_or_zero s.last_block) now s.store;
  }
  finish end now s = s

  -- The loop over the rounds to come; `go` means that it still runs after them.
  unfoldable pub run : List Event → Session → Round
  run [] s = go s
  run (e ∷ es) s = elim (round e s) [
    | go s' ↦ run es s'
    | done end s' ↦ done end (finish end e.stamped s')
  ]
