-- ===== src/Tftp/Listener/Answers.antt =====
-- crates/bootycall-tftp/src/server.rs: which packets start a transfer, and for whom.
use booty_call.Prelude.{
  ℕ, zero, suc, ◌≡◌, ◌≢◌, ◌⊎◌, refl, sym, inl, inr, ◌&&◌, some, ◌==◌, take, Bool-cases,
  Option-cases,
}
use booty_call.Core.Path.{Components}
use booty_call.Core.Path.Confined.{IsConfined, safe_join-IsConfined}
use booty_call.Tftp.Wire.{op_rrq, op_wrq, opcode}
use booty_call.Tftp.Request.{RrqRequest, parse_rrq}
use booty_call.Tftp.Listener.{
  Arrival, Transfer, Action, dropped, replied, started, Server, Files, final_filename, mac_of,
  spawn, accept, serve_request, on_rrq, resolved, client_of, listen, wrq_error, illegal_error,
  traversal_error, busy_error,
}

-- What a round may do. Only a packet that is a read request starts a transfer, and only of a path below
-- the root. Every other round starts none.
pub record IsStarted (files : Files) (a : Arrival) (s : Server) (t : Transfer) : Type 0 where
  pub parsed : parse_rrq (take 1500 a.bytes) ≡ some t.request
  pub confined :
      IsConfined files.system
        (files.path_of a.config.server.tftp_root)
        (final_filename t.request.filename a.config (client_of files a s))
        t.file_path
  pub host : t.mac ≡ mac_of (client_of files a s)
  pub peer : t.src_addr ≡ a.src_addr
  pub free : s.slots ≢ 0

module _ (files : Files) where
  abbrev pub IsHeard : Arrival → Server → Action → Type 0
  IsHeard a s dropped = Unit
  IsHeard a s (replied pkt) =
      (pkt ≡ wrq_error)
      ⊎ ((pkt ≡ illegal_error) ⊎ ((pkt ≡ traversal_error) ⊎ ((pkt ≡ busy_error) × (s.slots ≡ 0))))
  IsHeard a s (started t) = IsStarted files a s t

  spawn-IsHeard :
      (a : Arrival) (s u : Server) (t : Transfer)
      → u.slots ≡ s.slots
      → (s.slots ≢ 0 → IsStarted files a s t)
      → IsHeard a s (spawn files t u).action
  unfolding spawn
  spawn-IsHeard a s u t same h = by_slots u.slots same
    where
      by_slots :
          (slots : ℕ)
          → slots ≡ s.slots
          → IsHeard a s (spawn files t (record u { slots = slots })).action
      by_slots zero e = inr (inr (inr (refl, sym e)))
      by_slots (suc left) e = h (λ z. cc (e, z))

  accept-IsHeard :
      (a : Arrival) (request : RrqRequest) (file_path : Components) (s : Server)
      → parse_rrq (take 1500 a.bytes) ≡ some request
      → resolved files a request s ≡ some file_path
      → IsHeard a s (accept files a request (mac_of (client_of files a s)) file_path s).action
  unfolding accept
  accept-IsHeard a request file_path s parsed path = elim (Bool-cases (a.bound && a.connected)) [
    | inr down ↦ rw down tt
    | inl up ↦ rw up (
        spawn-IsHeard a s _ _ refl (λ free. record {
          parsed = parsed;
          confined = safe_join-IsConfined files.system _ _ file_path path;
          host = refl;
          peer = refl;
          free = free;
        }))
  ]

  serve_request-IsHeard :
      (a : Arrival) (request : RrqRequest) (s : Server)
      → parse_rrq (take 1500 a.bytes) ≡ some request
      → IsHeard a s (serve_request files a request s).action
  unfolding serve_request
  serve_request-IsHeard a request s parsed = elim (Option-cases (resolved files a request s)) [
    | inr (file_path, e) ↦ rw (e, serve_request) (accept-IsHeard a request file_path s parsed e)
    | inl e ↦ elim (Bool-cases (a.bound && a.connected)) [
      | inl up ↦ rw (e, up, serve_request) (inr (inr (inl refl)))
      | inr down ↦ rw (e, down, serve_request) tt
    ]
  ]

  on_rrq-IsHeard : (a : Arrival) (s : Server) → IsHeard a s (on_rrq files a s).action
  on_rrq-IsHeard a s = elim (Option-cases (parse_rrq (take 1500 a.bytes))) [
    | inl e ↦ rw (e, on_rrq) tt
    | inr (request, e) ↦ rw (e, on_rrq) (serve_request-IsHeard a request s e)
  ]

  -- A round starts a transfer only for a read request, with a permit free, for a path that does not lead
  -- out of the TFTP root, and for the host that the store knows under the client's address. What
  -- it replies otherwise is one of four errors; "Server busy" only when no permit is free.
  pub listen-IsHeard : (a : Arrival) (s : Server) → IsHeard a s (listen files a s).action
  unfolding listen
  listen-IsHeard a s = elim (Option-cases (opcode (take 1500 a.bytes))) [
    | inl e ↦ rw (e, listen) (on_rrq-IsHeard a s)
    | inr (op, e) ↦ elim (Bool-cases (op == op_rrq)) [
      | inl rrq ↦ rw (e, rrq, listen) (on_rrq-IsHeard a s)
      | inr other ↦ elim (Bool-cases (op == op_wrq)) [
        | inl wrq ↦ rw (e, other, wrq, listen) (inl refl)
        | inr neither ↦ rw (e, other, neither, listen) (inr (inl refl))
      ]
    ]
  ]
