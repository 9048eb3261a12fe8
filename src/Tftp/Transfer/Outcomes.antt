-- ===== src/Tftp/Transfer/Outcomes.antt =====
-- Whole transfers: what is sent, and that they end.
use booty_call.Prelude.{
  ℕ, ◌+◌, ◌≤◌, ◌≡◌, refl, sym, inl, inr, true, Option, none, some, List, ◌++◌, arith, replicate,
  Bool-cases,
}
use mathlib.Core.List.{append-nil}
use mathlib.Core.Path.{subst}
use booty_call.Prelude.Bytes.{codes, eq_ignore_ascii_case}
use booty_call.Core.Store.{StateStore}
use booty_call.Tftp.Wire.{Bytes, make_oack_packet}
use booty_call.Tftp.Request.{RrqRequest}
use booty_call.Tftp.Negotiate.{Negotiated, negotiate}
use booty_call.Tftp.Reader.{File}
use booty_call.Tftp.Session.{Session, Socket, Event, Round, go, done, End, open_session}
use booty_call.Tftp.Session.Window.{IsSound}
use booty_call.Tftp.Loop.{run}
use booty_call.Tftp.Loop.Delivery.{Completes, run_delivers}
use booty_call.Tftp.Handshake.{AckOutcome, acked, client_error, gave_up, io_error, waiting, Awaited}
use booty_call.Tftp.Handshake.Bounds.{IsAwaited, send_and_await_ack-IsAwaited}
use booty_call.Tftp.Transfer.{
  Opened, opened, not_found, permission_denied, open_failed, World, Outcome, early, transferred,
  plan, send_file, after_oack, serve_file, serve_opened, serve_open, handle_tftp_transfer, is_empty,
  transfer_deadline,
}

-- What a transfer that reached the DATA phase has sent: first at most five OACK packets, then nothing
-- but DATA packets of the file.
pub record IsServed (mac : Option Bytes) (file : File) (n : Negotiated) (started : ℕ) (k : Socket)
    (end : End) (s : Session) : Type 0 where
  pub oacks : ℕ
  pub few : oacks ≤ 5
  pub sound :
      IsSound
        (plan mac n started)
        file.rest
        (k.sent ++ replicate oacks (make_oack_packet n.options))
        s.socket.sent
  pub whole :
      Completes
        (plan mac n started)
        file.rest
        (k.sent ++ replicate oacks (make_oack_packet n.options))
        end
        s

module _ (mac : Option Bytes) where
  -- An outcome that has reached the end of its DATA phase is served as it should be.
  abbrev Served : File → Negotiated → ℕ → Socket → Outcome → Type 0
  Served file n started k (early why k' store) = Unit
  Served file n started k (transferred (go s)) = Unit
  Served file n started k (transferred (done end s)) = IsServed mac file n started k end s

  send_file-Served :
      (n : Negotiated) (started : ℕ) (file : File) (es : List Event) (k k' : Socket)
      (store : StateStore) (c : ℕ)
      → c ≤ 5
      → k'.sent ≡ k.sent ++ replicate c (make_oack_packet n.options)
      → Served file n started k (send_file mac n started file es k' store)
  unfolding send_file
  send_file-Served n started file es k k' store c few same = by_run _ refl
    where
      by_run :
          (r : Round)
          → run (plan mac n started) es (open_session file k' store) ≡ r
          → Served file n started k (transferred r)
      by_run (go s) e = tt
      by_run (done end s) e =
          let (snd, whole) = run_delivers (plan mac n started) es file k' store e in
          record {
            oacks = c;
            few = few;
            sound = subst (λ b. IsSound (plan mac n started) file.rest b s.socket.sent) same snd;
            whole = subst (λ b. Completes (plan mac n started) file.rest b end s) same whole;
          }

  after_oack-Served :
      (n : Negotiated) (w : World) (file : File) (a : Awaited) (k : Socket) (store : StateStore)
      {expected : ℕ}
      → IsAwaited (make_oack_packet n.options) expected 5 w.events k a
      → Served file n w.started k (after_oack mac n w file a store)
  unfolding after_oack
  after_oack-Served n w file a k store h = ByOutcome a.outcome
    where
      ByOutcome :
          (o : AckOutcome)
          → Served file n w.started k (after_oack mac n w file (record a { outcome = o }) store)
      ByOutcome acked =
          send_file-Served n w.started file a.events k a.socket store h.copies h.bounded h.sent
      ByOutcome client_error = tt
      ByOutcome gave_up = tt
      ByOutcome io_error = tt
      ByOutcome waiting = tt

  serve_file-Served :
      (request : RrqRequest) (w : World) (file : File) (size : ℕ) (k : Socket) (store : StateStore)
      → Served file
          (negotiate request size)
          w.started
          k
          (serve_file mac request w file size k store)
  unfolding serve_file
  serve_file-Served request w file size k store =
      let n = negotiate request size in
      elim (Bool-cases (is_empty mac n.options)) [
        | inl plain ↦ rw plain (
            send_file-Served n w.started file w.events k k store 0 (omega arith)
              (sym (append-nil k.sent)))
        | inr asked ↦ rw asked (
            after_oack-Served n w file _ k store (
              send_and_await_ack-IsAwaited (make_oack_packet n.options) 0
                (w.started + transfer_deadline) w.events k))
      ]

  -- The same of a whole transfer, for which the mode, the file and its size come from the request and
  -- the environment.
  abbrev pub IsAnswered : RrqRequest → World → Socket → Outcome → Type 0
  IsAnswered request w k (early why k' store) = Unit
  IsAnswered request w k (transferred (go s)) = Unit
  IsAnswered request w k (transferred (done end s)) =
      (file : File) × (size : ℕ) × (w.file ≡ opened file)
      × (w.size ≡ some size)
      × (eq_ignore_ascii_case request.mode (codes "octet") ≡ true)
      × IsServed mac file (negotiate request size) w.started k end s

  IsAnswered-of :
      (request : RrqRequest) (w : World) (k : Socket) (file : File) (size : ℕ) (o : Outcome)
      → w.file ≡ opened file
      → w.size ≡ some size
      → eq_ignore_ascii_case request.mode (codes "octet") ≡ true
      → Served file (negotiate request size) w.started k o
      → IsAnswered request w k o
  IsAnswered-of request w k file size (early why k' store) e f g h = tt
  IsAnswered-of request w k file size (transferred (go s)) e f g h = tt
  IsAnswered-of request w k file size (transferred (done end s)) e f g h = (file, size, e, f, g, h)

  -- A transfer that reaches the end of its DATA phase had mode octet, an open file and a known size. It
  -- has sent at most five OACK packets with the options negotiated, then nothing but DATA packets that
  -- each carry the block of the file with their number, and all the blocks when it reports success.
  pub handle_tftp_transfer-IsAnswered :
      (request : RrqRequest) (w : World) (k : Socket) (store : StateStore)
      → IsAnswered request w k (handle_tftp_transfer mac request w k store)
  unfolding handle_tftp_transfer
  handle_tftp_transfer-IsAnswered request w k store =
      elim (Bool-cases (eq_ignore_ascii_case request.mode (codes "octet"))) [
        | inr other ↦ rw other tt
        | inl octet ↦ rw octet (by_file w.file octet refl)
      ]
    where
      by_size :
          (file : File) (size : Option ℕ)
          → eq_ignore_ascii_case request.mode (codes "octet") ≡ true
          → w.file ≡ opened file
          → w.size ≡ size
          → IsAnswered request w k (serve_opened mac request w file size k store)
      by_size file none octet e f = tt
      by_size file (some size) octet e f =
          IsAnswered-of request w k file size (serve_file mac request w file size k store) e f octet
            (serve_file-Served request w file size k store)

      by_file :
          (o : Opened)
          → eq_ignore_ascii_case request.mode (codes "octet") ≡ true
          → w.file ≡ o
          → IsAnswered request w k (serve_open mac request w o k store)
      by_file (opened file) octet e = by_size file w.size octet e refl
      by_file not_found octet e = tt
      by_file permission_denied octet e = tt
      by_file open_failed octet e = tt
