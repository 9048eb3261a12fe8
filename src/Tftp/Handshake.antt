-- ===== src/Tftp/Handshake.antt =====
-- crates/bootycall-tftp/src/server.rs: `send_and_await_ack`.
pub mod Bounds
use booty_call.Prelude.{
  ℕ, zero, suc, ◌%◌, Bool, true, false, Option, none, some, List, [], ◌∷◌, leb, ◌==◌, if◌then◌else◌,
}
use booty_call.Tftp.Wire.{Bytes, parse_ack_packet, is_error_packet}
use booty_call.Tftp.Session.{Socket, send, Event, Recv, packet, recv_fault, timeout, max_retries}
use booty_call.Tftp.Loop.{ack_buf}

-- `std::io::Result<AckOutcome>`; `waiting` means that it still waits when the given events are over.
pub data AckOutcome : Type 0 where
  acked : AckOutcome
  client_error : AckOutcome
  gave_up : AckOutcome
  io_error : AckOutcome
  waiting : AckOutcome

-- The outcome, the socket, and the events that are left.
pub record Awaited : Type 0 where
  pub outcome : AckOutcome
  pub socket : Socket
  pub events : List Event

-- What a received datagram means while the ACK of `expected` is awaited.
pub data Answer : Type 0 where
  right aborted wrong : Answer

unfoldable pub answer : ℕ → Bytes → Answer
answer expected rec = if is_error_packet rec then aborted else elim (parse_ack_packet rec) [
  | none ↦ wrong
  | some block ↦ if block == expected then right else wrong
]

-- One round of the loop: it returns, or it counts a retry.
pub data Attempt : Type 0 where
  stops : AckOutcome → Socket → Attempt
  goes_on : Socket → Attempt

abbrev pub on_answer : Answer → Socket → Attempt
on_answer right k = stops acked k
on_answer aborted k = stops client_error k
on_answer wrong k = goes_on k

abbrev pub on_reply : ℕ → Recv → Socket → Attempt
on_reply expected (packet datagram) k = on_answer (answer expected (ack_buf datagram)) k
on_reply expected recv_fault k = stops io_error k
on_reply expected timeout k = goes_on k

module _ (pkt : Bytes) (expected deadline : ℕ) where
  unfoldable pub attempt : Event → Socket → Attempt
  attempt e k =
      if leb deadline e.polled
      then stops gave_up k
      else if (send pkt k).0
      then on_reply expected e.recv (send pkt k).1
      else stops io_error (send pkt k).1

  -- `left` retries are left of `max_retries`.
  unfoldable pub await_ack : ℕ → List Event → Socket → Awaited
  await_ack zero es k = record { outcome = gave_up; socket = k; events = es }
  await_ack (suc left) [] k = record { outcome = waiting; socket = k; events = [] }
  await_ack (suc left) (e ∷ es) k = elim (attempt e k) [
    | stops outcome k' ↦ record { outcome = outcome; socket = k'; events = es }
    | goes_on k' ↦ await_ack left es k'
  ]

  unfoldable pub send_and_await_ack : List Event → Socket → Awaited
  send_and_await_ack es k = await_ack max_retries es k
