-- ===== src/Tftp/Loop/Delivery.antt =====
-- The loop sends nothing but the blocks of the file, and ends as complete only when all of them were
-- sent and acknowledged.
use booty_call.Prelude.{
  ℕ, ◌-◌, ◌*◌, ◌≡◌, inl, inr, refl, sym, ap, ◌∙◌, ◌||◌, List, [], ◌∷◌, arith, drop, leb, Bool-cases,
  Option-cases,
}
use mathlib.Core.List.{append-nil}
use mathlib.Core.Path.{subst}
use booty_call.Core.Store.{StateStore}
use booty_call.Tftp.Wire.{Bytes, parse_ack_packet, is_error_packet}
use booty_call.Tftp.Reader.{File}
use booty_call.Tftp.Blocks.{get-empty}
use booty_call.Tftp.Session.{
  Plan, Session, Socket, Event, Recv, packet, recv_fault, timeout, Round, go, done, End, whole_file,
  client_error, timed_out, io_error, read_error, open_session, max_retries,
}
use booty_call.Tftp.Session.Window.{IsWindow, IsSound, IsKept}
use booty_call.Tftp.Session.Window.Filling.{fill_window-IsKept}
use booty_call.Tftp.Loop.{find_ack, on_packet, on_recv, receive, round, finish, run, ack_buf}
use booty_call.Tftp.Loop.Steps.{after_fill, round_lem, after_round, run_lem}
use booty_call.Tftp.Loop.Acks.{find_ack_sound}
use booty_call.Tftp.Loop.Window.{
  kept-IsStep, fail-IsStep, retry-IsWindow, rewind-IsWindow, advance-IsStep, IsWhole, IsStep,
}

module _ (p : Plan) (content : Bytes) (before : List Bytes) where
  on_packet-IsStep :
      (rec : Bytes) (now : ℕ) (s : Session)
      → IsWindow p content before s
      → IsStep p content before (on_packet p rec now s)
  unfolding on_packet
  on_packet-IsStep rec now s h = elim (Bool-cases (is_error_packet rec)) [
    | inl e ↦ rw (e, on_packet) (fail-IsStep p content before client_error _ now s (λ q. cc) h)
    | inr e ↦ elim (Option-cases (parse_ack_packet rec)) [
      | inl a ↦ rw (e, a, on_packet) (retry-IsWindow p content before s h)
      | inr (w, a) ↦ elim (Option-cases (find_ack (s.next_to_send - s.base) s.base w)) [
        | inl f ↦ rw (e, a, f, on_packet) (retry-IsWindow p content before s h)
        | inr (abs, f) ↦
            let (low, high, _) = find_ack_sound (s.next_to_send - s.base) s.base w f in
            rw (e, a, f, on_packet)
              (advance-IsStep p content before abs s h low (omega (arith, high, h.shape.base_next)))
      ]
    ]
  ]

  receive-IsStep :
      (e : Event) (s : Session)
      → IsWindow p content before s
      → IsStep p content before (receive p e s)
  unfolding receive on_recv
  receive-IsStep e s h = elim (Bool-cases (leb max_retries s.retries || leb p.deadline e.polled)) [
    | inl spent ↦ rw spent (fail-IsStep p content before timed_out _ e.stamped s (λ q. cc) h)
    | inr left ↦ rw left (on_recv-IsStep e.recv)
  ]
    where
      on_recv-IsStep : (r : Recv) → IsStep p content before (on_recv p r e.stamped s)
      on_recv-IsStep (packet datagram) = on_packet-IsStep (ack_buf datagram) e.stamped s h
      on_recv-IsStep recv_fault = fail-IsStep p content before io_error _ e.stamped s (λ q. cc) h
      on_recv-IsStep timeout =
          rewind-IsWindow p content before _ (retry-IsWindow p content before s h)

  after_fill-IsStep :
      (e : Event) (r : Round)
      → IsKept p content before r
      → IsStep p content before (after_fill p e r)
  unfolding after_fill
  after_fill-IsStep e (go s) h = receive-IsStep e s h
  after_fill-IsStep e (done end s) h = kept-IsStep p content before (done end s) h

  round-IsStep :
      (e : Event) (s : Session)
      → IsWindow p content before s
      → IsStep p content before (round p e s)
  round-IsStep e s h =
      rw round_lem (after_fill-IsStep e _ (fill_window-IsKept p content before e.stamped s h))

  finish-IsStep :
      (end : End) (now : ℕ) (s : Session)
      → IsStep p content before (done end s)
      → IsStep p content before (done end (finish p end now s))
  unfolding finish
  finish-IsStep whole_file now s h = (h.0, λ e. still (h.1 e))
    where
      still : IsWhole p content before s → IsWhole p content before (finish p whole_file now s)
      still w = record {
        lb = w.lb;
        last = w.last;
        base = w.base;
        starts = w.starts;
        ends = w.ends;
        sent = w.sent;
      }
  finish-IsStep client_error now s h = h
  finish-IsStep timed_out now s h = h
  finish-IsStep io_error now s h = h
  finish-IsStep read_error now s h = h

  after_round-IsStep :
      (e : Event) (es : List Event) (r : Round)
      → IsStep p content before r
      → ((s : Session) → IsWindow p content before s → IsStep p content before (run p es s))
      → IsStep p content before (after_round p e es r)
  unfolding after_round
  after_round-IsStep e es (go s) h ih = ih s h
  after_round-IsStep e es (done end s) h ih = finish-IsStep end e.stamped s h

  pub run-IsStep :
      (es : List Event) (s : Session)
      → IsWindow p content before s
      → IsStep p content before (run p es s)
  run-IsStep [] s h = unfold run in h
  run-IsStep (e ∷ es) s h =
      rw run_lem (after_round-IsStep e es _ (round-IsStep e s h) (λ s' h'. run-IsStep es s' h'))

  pub open-IsWindow :
      (file : File) (socket : Socket) (store : StateStore)
      → file.rest ≡ content
      → socket.sent ≡ before
      → IsWindow p content before (open_session file socket store)
  open-IsWindow file socket store hf hs = record {
    r = 1;
    shape = record {
      base_pos = omega arith;
      base_next = omega arith;
      next_read = omega arith;
      read_window = omega arith;
      rest = let z : (1 - 1) * p.blksize ≡ 0 = omega arith in hf ∙ ap (λ n. drop n content) (sym z);
      in_buffer = λ k low high. absurd (omega arith);
      unread = λ k high. get-empty k;
      last = omega arith;
      unfinished = refl;
    };
    sent = record {
      log = [];
      log_eq = hs ∙ sym (append-nil before);
      sound = tt;
      delivered = λ k pos lt. absurd (omega arith);
    };
  }

-- What it takes to end as complete.
abbrev pub Completes : Plan → Bytes → List Bytes → End → Session → Type 0
Completes p content before whole_file s = IsWhole p content before s
Completes p content before client_error s = Unit
Completes p content before timed_out s = Unit
Completes p content before io_error s = Unit
Completes p content before read_error s = Unit

Completes-of :
    (p : Plan) (content : Bytes) (before : List Bytes) (end : End) (s : Session)
    → (end ≡ whole_file → IsWhole p content before s)
    → Completes p content before end s
Completes-of p content before whole_file s h = h refl
Completes-of p content before client_error s h = tt
Completes-of p content before timed_out s h = tt
Completes-of p content before io_error s h = tt
Completes-of p content before read_error s h = tt

-- Whatever is received, and however the transfer ends, every packet that it sends is the DATA packet of
-- a block that the file has, with that block's bytes under the block's number modulo 65536. It
-- counts as complete only once every block up to the short last one has been sent, and all of them
-- are acknowledged.
pub run_delivers :
    (p : Plan) (es : List Event) (file : File) (socket : Socket) (store : StateStore) {end : End}
    {s : Session}
    → run p es (open_session file socket store) ≡ done end s
    → IsSound p file.rest socket.sent s.socket.sent × Completes p file.rest socket.sent end s
run_delivers p es file socket store {end} {s} h =
    let (snd, whole) = subst (IsStep p file.rest socket.sent) h (
      run-IsStep p file.rest socket.sent es _
        (open-IsWindow p file.rest socket.sent file socket store refl refl)) in
    (snd, Completes-of p file.rest socket.sent end s whole)
