-- ===== src/Tftp/Transfer.antt =====
-- crates/bootycall-tftp/src/server.rs: `handle_tftp_transfer` as a whole.
pub mod Outcomes
pub mod Ends
pub mod Reports
use booty_call.Prelude.{
  ℕ, ◌+◌, ◌*◌, Bool, true, false, not, Option, none, some, List, [], ◌∷◌, if◌then◌else◌,
}
use booty_call.Prelude.Bytes.{codes, eq_ignore_ascii_case}
use booty_call.Core.Store.{StateStore}
use booty_call.Tftp.Wire.{Bytes, Pair, make_error_packet, make_oack_packet}
use booty_call.Tftp.Request.{RrqRequest}
use booty_call.Tftp.Negotiate.{Negotiated, negotiate}
use booty_call.Tftp.Reader.{File}
use booty_call.Tftp.Session.{
  Plan, Session, Socket, send, Event, Round, go, done, End, open_session, mark_tftp_failed,
}
use booty_call.Tftp.Loop.{run}
use booty_call.Tftp.Handshake.{
  AckOutcome, acked, client_error, gave_up, io_error, waiting, Awaited, send_and_await_ack,
}

-- What `tokio::fs::File::open` returns, with the error kinds that are told apart.
pub data Opened : Type 0 where
  opened : File → Opened
  not_found : Opened
  permission_denied : Opened
  open_failed : Opened

-- What the environment of one transfer holds: the file, its size by `metadata` if that succeeds, the
-- clock at the start and the clock of the store during the handshake, and what is received.
pub record World : Type 0 where
  pub file : Opened
  pub size : Option ℕ
  pub started : ℕ
  pub stamped : ℕ
  pub events : List Event

-- How a transfer ends before its DATA phase.
pub data Early : Type 0 where
  wrong_mode : Early
  not_opened : Early
  no_metadata : Early
  oack_refused : Early
  oack_timed_out : Early
  oack_io_error : Early
  oack_waiting : Early

pub data Outcome : Type 0 where
  early : Early → Socket → StateStore → Outcome
  transferred : Round → Outcome

-- 120 seconds, in nanoseconds.
abbrev pub transfer_deadline : ℕ
transfer_deadline = 120 * 1_000_000_000

abbrev pub open_error : Opened → ℕ × Bytes
open_error not_found = (1, codes "File not found")
open_error permission_denied = (2, codes "Access violation")
open_error file = (0, codes "File open failed")

-- `let _ = socket.send(&err_pkt).await;`
abbrev pub send_error : ℕ → Bytes → Socket → Socket
send_error code msg k = (send (make_error_packet code msg) k).1

abbrev pub illegal_mode : Bytes
illegal_mode = codes "Illegal TFTP operation (only octet mode supported)"

module _ (mac : Option Bytes) where
  abbrev pub plan : Negotiated → ℕ → Plan
  plan n started = record {
    blksize = n.blksize;
    window = n.windowsize;
    deadline = started + transfer_deadline;
    mac = mac;
  }

  -- The DATA phase.
  unfoldable pub send_file : Negotiated → ℕ → File → List Event → Socket → StateStore → Outcome
  send_file n started file events k store =
      transferred (run (plan n started) events (open_session file k store))

  abbrev pub handshake_failed : Early → Bytes → ℕ → Awaited → StateStore → Outcome
  handshake_failed why reason now a store =
      early why a.socket (mark_tftp_failed mac reason now store)

  -- The `match` on what the OACK negotiation returned.
  unfoldable pub after_oack : Negotiated → World → File → Awaited → StateStore → Outcome
  after_oack n w file a store = elim a.outcome [
    | acked ↦ send_file n w.started file a.events a.socket store
    | client_error ↦
        handshake_failed oack_refused (codes "client aborted during OACK negotiation") w.stamped a
          store
    | gave_up ↦
        handshake_failed oack_timed_out (codes "OACK negotiation timed out") w.stamped a store
    | io_error ↦
        handshake_failed oack_io_error (codes "I/O error during OACK negotiation") w.stamped a store
    | waiting ↦ early oack_waiting a.socket store
  ]

  abbrev pub is_empty : List Pair → Bool
  is_empty [] = true
  is_empty (o ∷ os) = false

  -- From the negotiation on; without options there is no OACK.
  unfoldable pub serve_file : RrqRequest → World → File → ℕ → Socket → StateStore → Outcome
  serve_file request w file file_size k store =
      let n = negotiate request file_size in
      if is_empty n.options
      then send_file n w.started file w.events k store
      else after_oack n w file
          (send_and_await_ack (make_oack_packet n.options) 0 (w.started + transfer_deadline)
            w.events k)
          store

  abbrev pub serve_opened : RrqRequest → World → File → Option ℕ → Socket → StateStore → Outcome
  serve_opened request w file none k store = early no_metadata k store
  serve_opened request w file (some file_size) k store = serve_file request w file file_size k store

  abbrev pub serve_open : RrqRequest → World → Opened → Socket → StateStore → Outcome
  serve_open request w (opened file) k store = serve_opened request w file w.size k store
  serve_open request w error k store =
      early not_opened (send_error (open_error error).0 (open_error error).1 k) store

  unfoldable pub handle_tftp_transfer : RrqRequest → World → Socket → StateStore → Outcome
  handle_tftp_transfer request w k store =
      if not (eq_ignore_ascii_case request.mode (codes "octet"))
      then early wrong_mode (send_error 4 illegal_mode k) store
      else serve_open request w w.file k store
