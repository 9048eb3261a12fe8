-- ===== src/Tftp/Session.antt =====
-- crates/bootycall-tftp/src/server.rs: the DATA phase of `handle_tftp_transfer`, a sliding window with
-- go-back-N.
pub mod Window
pub mod Frame
use booty_call.Prelude.{
  ℕ, zero, suc, ◌+◌, ◌-◌, ◌%◌, Bool, true, false, not, ◌&&◌, ◌||◌, Option, none, some, List, [],
  ◌∷◌, ◌++◌, ltb, leb, ◌==◌, if◌then◌else◌, length, take,
}
use booty_call.Prelude.Bytes.{codes}
use booty_call.Text.Decimal.{decimal}
use booty_call.Core.Store.{StateStore, completed, failed, no_details, update_host_status, log_event}
use booty_call.Tftp.Wire.{Bytes, make_data_packet, parse_ack_packet, is_error_packet}
use booty_call.Tftp.Reader.{File, filled, broken, stuck, read_fill}
use booty_call.Tftp.Blocks.{Blocks, get, insert, retain_from}

abbrev pub max_retries : ℕ
max_retries = 5

-- TFTP block numbers are 16 bits wide and wrap from 65535 to 0.
abbrev pub wire_of : ℕ → ℕ
wire_of abs = abs % 65_536

-- The client's socket: what was sent, in order, and whether the sends to come fail.
pub record Socket : Type 0 where
  pub sent : List Bytes
  pub faults : List Bool

abbrev fails : List Bool → Bool
fails [] = false
fails (b ∷ bs) = b

abbrev later : List Bool → List Bool
later [] = []
later (b ∷ bs) = bs

-- `socket.send`, and whether it succeeded.
unfoldable pub send : Bytes → Socket → Bool × Socket
send pkt k =
    if fails k.faults
    then (false, record k { faults = later k.faults })
    else (true, record { sent = k.sent ++ (pkt ∷ []); faults = later k.faults })

-- What a transfer has fixed by the time it sends DATA: the negotiated block size and window, the
-- deadline, and the host it is for.
pub record Plan : Type 0 where
  pub blksize : ℕ
  pub window : ℕ
  pub deadline : ℕ
  pub mac : Option Bytes

pub record Session : Type 0 where
  pub file : File
  pub buffered : Blocks
  pub base : ℕ
  pub next_to_send : ℕ
  pub last_block : Option ℕ
  pub retries : ℕ
  pub socket : Socket
  pub store : StateStore

-- The state at the head of the loop.
abbrev pub open_session : File → Socket → StateStore → Session
open_session file socket store = record {
  file = file;
  buffered = [];
  base = 1;
  next_to_send = 1;
  last_block = none;
  retries = 0;
  socket = socket;
  store = store;
}

-- What `socket.recv` under the timeout returns.
pub data Recv : Type 0 where
  packet : Bytes → Recv
  recv_fault : Recv
  timeout : Recv

-- One round's view of the world: the clock at the deadline check, what is received, and the clock that
-- the state store reads.
pub record Event : Type 0 where
  pub polled : ℕ
  pub recv : Recv
  pub stamped : ℕ

-- The file is acknowledged as a whole.
abbrev pub all_acked : Session → Bool
all_acked s = elim s.last_block [ none ↦ false | some lb ↦ ltb lb s.base ]

-- How a transfer ends.
pub data End : Type 0 where
  whole_file : End
  client_error : End
  timed_out : End
  io_error : End
  read_error : End

-- `mark_tftp_failed`
unfoldable pub mark_tftp_failed : Option Bytes → Bytes → ℕ → StateStore → StateStore
mark_tftp_failed none reason now store = store
mark_tftp_failed (some mac) reason now store =
    log_event (codes "ERROR") (some mac) (codes "TFTP transfer failed: " ++ reason) now
      (update_host_status mac failed no_details now store)

-- What is done after the loop.
unfoldable pub mark_completed : Option Bytes → ℕ → ℕ → StateStore → StateStore
mark_completed none total_blocks now store = store
mark_completed (some mac) total_blocks now store =
    log_event (codes "INFO") (some mac)
      (codes "TFTP transfer completed: " ++ (decimal total_blocks ++ codes " blocks sent")) now
      (update_host_status mac completed no_details now store)

-- A step either leaves the loop running or ends the transfer.
pub data Round : Type 0 where
  go : Session → Round
  done : End → Session → Round

-- A block that was read is buffered; one that is short, or at the end of the file, is the last.
abbrev with_block : ℕ → Bytes → Bool → File → Session → Session
with_block blksize payload hit_eof file s = record s {
  file = file;
  last_block =
      if hit_eof || ltb (length payload) blksize then some s.next_to_send else s.last_block;
  buffered = insert s.next_to_send payload s.buffered;
}

module _ (p : Plan) where
  -- The end of a transfer with the host marked as failed.
  unfoldable pub fail_with : End → Bytes → ℕ → Session → Round
  fail_with end reason now s =
      done end (record s { store = mark_tftp_failed p.mac reason now s.store })

  -- `send_data_or_fail!(next_to_send, &data); next_to_send += 1;`
  unfoldable pub transmit : Bytes → ℕ → Session → Round
  transmit payload now s =
      let (sent, socket) = send (make_data_packet (wire_of s.next_to_send) payload) s.socket in
      if sent
      then go (record s { socket = socket; next_to_send = s.next_to_send + 1 })
      else fail_with io_error (codes "I/O error during data transfer") now
          (record s { socket = socket })

  -- The body of the filling loop: the block from the buffer, or the next one from the file. A read error
  -- leaves by `?`, with no mark on the host.
  unfoldable pub send_next : ℕ → Session → Round
  send_next now s = elim (get s.next_to_send s.buffered) [
    | some payload ↦ transmit payload now s
    | none ↦ elim (read_fill p.blksize s.file) [
      | filled payload hit_eof file ↦
          transmit payload now (with_block p.blksize payload hit_eof file s)
      | broken file ↦ done read_error (record s { file = file })
      | stuck ↦ done read_error s
    ]
  ]

  -- `next_to_send` is past the terminating block.
  abbrev pub past_last : Session → Bool
  past_last s = elim s.last_block [ none ↦ false | some lb ↦ ltb lb s.next_to_send ]

  -- `while next_to_send < base + window`, for at most `rounds` rounds.
  unfoldable pub fill_rounds : ℕ → ℕ → Session → Round
  fill_rounds zero now s = go s
  fill_rounds (suc rounds) now s =
      elim (ltb s.next_to_send (s.base + p.window) && not (past_last s)) [
        | false ↦ go s
        | true ↦ elim (send_next now s) [
          | go s' ↦ fill_rounds rounds now s'
          | done end s' ↦ done end s'
        ]
      ]

  -- A round of the loop advances `next_to_send`, so this many are enough.
  unfoldable pub fill_window : ℕ → Session → Round
  fill_window now s = fill_rounds (s.base + p.window - s.next_to_send) now s
