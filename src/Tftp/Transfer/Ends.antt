-- ===== src/Tftp/Transfer/Ends.antt =====
-- crates/bootycall-tftp/src/server.rs: `handle_tftp_transfer` does not run for ever.
use booty_call.Prelude.{
  ℕ, ◌+◌, ◌*◌, ◌/◌, ◌<◌, ◌≡◌, refl, inl, inr, Option, some, List, length, arith, Bool-cases,
}
use booty_call.Prelude.Bytes.{codes, eq_ignore_ascii_case}
use booty_call.Core.Store.{StateStore}
use booty_call.Tftp.Wire.{Bytes, make_oack_packet}
use booty_call.Tftp.Request.{RrqRequest}
use booty_call.Tftp.Negotiate.{Negotiated, negotiate}
use booty_call.Tftp.Negotiate.Bounds.{negotiate_bounds}
use booty_call.Tftp.Reader.{File}
use booty_call.Tftp.Session.{Socket, Event, go, done}
use booty_call.Tftp.Loop.Progress.{run_ends}
use booty_call.Tftp.Handshake.{AckOutcome, acked, client_error, gave_up, io_error, waiting, Awaited}
use booty_call.Tftp.Handshake.Bounds.{IsAwaited, send_and_await_ack-IsAwaited}
use booty_call.Tftp.Transfer.{
  opened, World, oack_waiting, Outcome, early, transferred, plan, send_file, after_oack, serve_file,
  handle_tftp_transfer, is_empty, transfer_deadline,
}

-- The transfer is neither in its handshake nor in its DATA phase any more.
abbrev pub IsEnded : Outcome → Type 0
IsEnded (early oack_waiting k store) = ⊥
IsEnded (early why k store) = Unit
IsEnded (transferred (go s)) = ⊥
IsEnded (transferred (done end s)) = Unit

-- The events that the DATA phase of a file may take.
abbrev pub rounds_for : Negotiated → File → ℕ
rounds_for n file = 5 * (length file.rest / n.blksize + 1)

module _ (mac : Option Bytes) where
  send_file-IsEnded :
      (n : Negotiated) (started : ℕ) (file : File) (es : List Event) (k : Socket)
      (store : StateStore)
      → 0 < n.blksize
      → rounds_for n file < length es
      → IsEnded (send_file mac n started file es k store)
  unfolding send_file
  send_file-IsEnded n started file es k store pos long =
      let (end, s, e) = run_ends (plan mac n started) es file k store pos long in rw e tt

  after_oack-IsEnded :
      (n : Negotiated) (w : World) (file : File) (a : Awaited) (k : Socket) (store : StateStore)
      {expected : ℕ}
      → 0 < n.blksize
      → rounds_for n file + 5 < length w.events
      → IsAwaited (make_oack_packet n.options) expected 5 w.events k a
      → IsEnded (after_oack mac n w file a store)
  unfolding after_oack
  after_oack-IsEnded n w file a k store pos long h = ByOutcome a.outcome refl
    where
      ByOutcome :
          (o : AckOutcome)
          → a.outcome ≡ o
          → IsEnded (after_oack mac n w file (record a { outcome = o }) store)
      ByOutcome acked e =
          send_file-IsEnded n w.started file a.events a.socket store pos
            (omega (arith, long, h.consumed))
      ByOutcome client_error e = tt
      ByOutcome gave_up e = tt
      ByOutcome io_error e = tt
      ByOutcome waiting e = absurd (omega (arith, long, h.ended e))

  serve_file-IsEnded :
      (request : RrqRequest) (w : World) (file : File) (size : ℕ) (k : Socket) (store : StateStore)
      → rounds_for (negotiate request size) file + 5 < length w.events
      → IsEnded (serve_file mac request w file size k store)
  unfolding serve_file
  serve_file-IsEnded request w file size k store long =
      let n = negotiate request size in
      let pos : 0 < n.blksize = omega (arith, (negotiate_bounds request size).0) in
      elim (Bool-cases (is_empty mac n.options)) [
        | inl plain ↦
            rw plain (send_file-IsEnded n w.started file w.events k store pos (omega (arith, long)))
        | inr asked ↦ rw asked (
            after_oack-IsEnded n w file _ k store pos long (
              send_and_await_ack-IsAwaited (make_oack_packet n.options) 0
                (w.started + transfer_deadline) w.events k))
      ]

  -- A transfer ends whatever the client does: once it has seen five events for every block of the file,
  -- five for the block after it and five for the handshake, it waits for nothing more.
  pub transfer_ends :
      (request : RrqRequest) (w : World) (file : File) (size : ℕ) (k : Socket) (store : StateStore)
      → w.file ≡ opened file
      → w.size ≡ some size
      → rounds_for (negotiate request size) file + 5 < length w.events
      → IsEnded (handle_tftp_transfer mac request w k store)
  unfolding handle_tftp_transfer
  transfer_ends request w file size k store e f long =
      elim (Bool-cases (eq_ignore_ascii_case request.mode (codes "octet"))) [
        | inr other ↦ rw other tt
        | inl octet ↦ simp (octet, e, f) (serve_file-IsEnded request w file size k store long)
      ]
