-- ===== src/Tftp/Listener/Slots.antt =====
-- crates/bootycall-tftp/src/server.rs: the semaphore bounds the transfers that run at once.
use booty_call.Prelude.{
  ℕ, zero, suc, ◌+◌, ◌≤◌, ◌≡◌, refl, ap, ◌∙◌, inl, inr, ◌&&◌, Option, List, [], ◌∷◌, ◌++◌, ◌==◌,
  length, length-append, arith, Bool-cases, Option-cases, take,
}
use booty_call.Core.Path.{Components}
use booty_call.Core.Store.{StateStore, new}
use booty_call.Tftp.Wire.{Bytes, op_rrq, opcode}
use booty_call.Tftp.Request.{RrqRequest, parse_rrq}
use booty_call.Tftp.Listener.{
  Arrival, Transfer, Server, Files, spawn, accept, on_rrq, serve_request, resolved, listen,
}

abbrev pub start : ℕ → Server
start max_concurrent_transfers = record {
  store = new;
  slots = max_concurrent_transfers;
  running = [];
}

-- What can happen: a packet arrives, the store is changed by a transfer or by another service, or a
-- transfer is over and its permit is dropped.
pub data Step (files : Files) : Server → Server → Type 0 where
  arrives : (a : Arrival) (s : Server) → Step files s (listen files a s).server
  stores : (store : StateStore) (s : Server) → Step files s (record s { store = store })
  finishes :
      (before after : List Transfer) (t : Transfer) (s : Server)
      → s.running ≡ before ++ (t ∷ after)
      → Step files s (record s { slots = s.slots + 1; running = before ++ after })

pub data Reached (files : Files) (limit : ℕ) : Server → Type 0 where
  begins : Reached files limit (start limit)
  follows : (s s' : Server) → Reached files limit s → Step files s s' → Reached files limit s'

module _ (files : Files) where
  abbrev permits : Server → ℕ
  permits s = s.slots + length s.running

  spawn-permits : (t : Transfer) (s : Server) → permits (spawn files t s).server ≡ permits s
  unfolding spawn
  spawn-permits t s = by_slots s.slots
    where
      by_slots :
          (slots : ℕ)
          → permits (spawn files t (record s { slots = slots })).server ≡ slots + length s.running
      by_slots zero = refl
      by_slots (suc left) = omega arith

  accept-permits :
      (a : Arrival) (request : RrqRequest) (mac : Option Bytes) (file_path : Components)
      (s : Server)
      → permits (accept files a request mac file_path s).server ≡ permits s
  unfolding accept
  accept-permits a request mac file_path s = elim (Bool-cases (a.bound && a.connected)) [
    | inl up ↦ rw up (spawn-permits _ _)
    | inr down ↦ rw down refl
  ]

  serve_request-permits :
      (a : Arrival) (request : RrqRequest) (s : Server)
      → permits (serve_request files a request s).server ≡ permits s
  unfolding serve_request
  serve_request-permits a request s = elim (Option-cases (resolved files a request s)) [
    | inr (file_path, e) ↦ rw (e, serve_request) (accept-permits a request _ file_path s)
    | inl e ↦ elim (Bool-cases (a.bound && a.connected)) [
      | inl up ↦ rw (e, up, serve_request) refl
      | inr down ↦ rw (e, down, serve_request) refl
    ]
  ]

  on_rrq-permits : (a : Arrival) (s : Server) → permits (on_rrq files a s).server ≡ permits s
  on_rrq-permits a s = elim (Option-cases (parse_rrq (take 1500 a.bytes))) [
    | inl e ↦ rw (e, on_rrq) refl
    | inr (request, e) ↦ rw (e, on_rrq) (serve_request-permits a request s)
  ]

  listen-permits : (a : Arrival) (s : Server) → permits (listen files a s).server ≡ permits s
  unfolding listen
  listen-permits a s = elim (Option-cases (opcode (take 1500 a.bytes))) [
    | inl none_read ↦ rw (none_read, listen) (on_rrq-permits a s)
    | inr (op, e) ↦ elim (Bool-cases (op == op_rrq)) [
      | inl rrq ↦ rw (e, rrq, listen) (on_rrq-permits a s)
      | inr other ↦ rw (e, other, listen) refl
    ]
  ]

  Step-permits : {s s' : Server} → Step files s s' → permits s' ≡ permits s
  Step-permits (arrives a s) = listen-permits a s
  Step-permits (stores store s) = refl
  Step-permits (finishes before after t s e) =
      omega (arith, length-append before after, length-append before (t ∷ after), ap length e)

  Reached-permits : {limit : ℕ} {s : Server} → Reached files limit s → permits s ≡ limit
  Reached-permits begins = omega arith
  Reached-permits (follows s s' r step) = Step-permits step ∙ Reached-permits r

-- However packets arrive and transfers end, at most `max_concurrent_transfers` transfers run at once, and
-- every permit is either free or held by one of them.
pub Reached-bounded :
    (files : Files) (max_concurrent_transfers : ℕ) (s : Server)
    → Reached files max_concurrent_transfers s
    → (length s.running ≤ max_concurrent_transfers)
      × (s.slots + length s.running ≡ max_concurrent_transfers)
Reached-bounded files limit s r = let e = Reached-permits files r in (omega (arith, e), e)
