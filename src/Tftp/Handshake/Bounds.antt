-- ===== src/Tftp/Handshake/Bounds.antt =====
-- The handshake is bounded, whatever arrives.
use booty_call.Prelude.{
  ℕ, zero, suc, ◌+◌, ◌≤◌, ◌≡◌, ◌≢◌, ◌⊎◌, inl, inr, refl, sym, ap, ◌∙◌, true, false, List, [], ◌∷◌,
  ◌++◌, arith, leb, length, replicate, Bool-cases,
}
use mathlib.Core.List.{append-nil, append_assoc}
use booty_call.Tftp.Wire.{Bytes}
use booty_call.Tftp.Session.{Socket, send, Event, Recv, packet, recv_fault, timeout, max_retries}
use booty_call.Tftp.Loop.{ack_buf}
use booty_call.Tftp.Handshake.{
  AckOutcome, acked, client_error, gave_up, io_error, waiting, Awaited, Attempt, stops, goes_on,
  attempt, on_answer, on_reply, Answer, right, aborted, wrong, answer, await_ack,
  send_and_await_ack,
}

-- Some event brings the awaited ACK.
abbrev pub Answered : ℕ → List Event → Type 0
Answered expected [] = ⊥
Answered expected (e ∷ es) =
    ((datagram : Bytes) × (e.recv ≡ packet datagram) × (answer expected (ack_buf datagram) ≡ right))
    ⊎ Answered expected es

-- Nothing but copies of `pkt` was sent, at most `n` of them; it reports `acked` only if the ACK came,
-- and waits on only if the events ran out first.
pub record IsAwaited (pkt : Bytes) (expected n : ℕ) (es : List Event) (k : Socket) (a : Awaited)
    : Type 0 where
  pub copies : ℕ
  pub sent : a.socket.sent ≡ k.sent ++ replicate copies pkt
  pub bounded : copies ≤ n
  pub answered : a.outcome ≡ acked → Answered expected es
  pub ended : a.outcome ≡ waiting → length es + 1 ≤ n
  pub consumed : length es ≤ length a.events + n

module _ (pkt : Bytes) (expected deadline : ℕ) where
  send_cases :
      (k : Socket)
      → (((send pkt k).0 ≡ false) × ((send pkt k).1.sent ≡ k.sent))
        ⊎ (((send pkt k).0 ≡ true) × ((send pkt k).1.sent ≡ k.sent ++ (pkt ∷ [])))
  unfolding send
  send_cases k = ground arith

  -- Ends before anything is sent.
  unsent :
      (n : ℕ) (es rest : List Event) (k k' : Socket) (o : AckOutcome)
      → k'.sent ≡ k.sent
      → o ≢ acked
      → (o ≡ waiting → length es + 1 ≤ n)
      → length es ≤ length rest + n
      → IsAwaited pkt expected n es k (record { outcome = o; socket = k'; events = rest })
  unsent n es rest k k' o same not_acked w used = record {
    copies = 0;
    sent = same ∙ sym (append-nil k.sent);
    bounded = omega arith;
    answered = λ e. absurd (not_acked e);
    ended = w;
    consumed = used;
  }

  -- Ends after one copy.
  sent_once :
      (n : ℕ) (e : Event) (es : List Event) (k k' : Socket) (o : AckOutcome)
      → k'.sent ≡ k.sent ++ (pkt ∷ [])
      → (o ≡ acked → Answered expected (e ∷ es))
      → o ≢ waiting
      → IsAwaited pkt expected (suc n) (e ∷ es) k (record { outcome = o; socket = k'; events = es })
  sent_once n e es k k' o same yes_acked w = record {
    copies = 1;
    sent = same;
    bounded = omega arith;
    answered = yes_acked;
    ended = λ q. absurd (w q);
    consumed = omega arith;
  }

  -- Goes on after one copy.
  sent_again :
      (n : ℕ) (e : Event) (es : List Event) (k k' : Socket) (a : Awaited)
      → k'.sent ≡ k.sent ++ (pkt ∷ [])
      → IsAwaited pkt expected n es k' a
      → IsAwaited pkt expected (suc n) (e ∷ es) k a
  sent_again n e es k k' a same h = record {
    copies = suc h.copies;
    sent =
        h.sent
        ∙ ap (λ t. t ++ replicate h.copies pkt) same
        ∙ append_assoc k.sent (pkt ∷ []) (replicate h.copies pkt);
    bounded = omega (arith, h.bounded);
    answered = λ q. inr (h.answered q);
    ended = λ q. omega (arith, h.ended q);
    consumed = omega (arith, h.consumed);
  }

  -- What one round may do.
  abbrev IsAttempt : Event → Socket → Attempt → Type 0
  IsAttempt e k (goes_on k') = k'.sent ≡ k.sent ++ (pkt ∷ [])
  IsAttempt e k (stops o k') =
      (o ≢ waiting)
      × (((k'.sent ≡ k.sent) × (o ≢ acked))
          ⊎ ((k'.sent ≡ k.sent ++ (pkt ∷ [])) × (o ≡ acked → Answered expected (e ∷ []))))

  on_answer-IsAttempt :
      (e : Event) (k k' : Socket) (datagram : Bytes) (r : Answer)
      → e.recv ≡ packet datagram
      → answer expected (ack_buf datagram) ≡ r
      → k'.sent ≡ k.sent ++ (pkt ∷ [])
      → IsAttempt e k (on_answer r k')
  on_answer-IsAttempt e k k' datagram right er ea same =
      ((λ q. cc), inr (same, λ q. inl (datagram, er, ea)))
  on_answer-IsAttempt e k k' datagram aborted er ea same = ((λ q. cc), inr (same, λ q. cc))
  on_answer-IsAttempt e k k' datagram wrong er ea same = same

  on_reply-IsAttempt :
      (e : Event) (k k' : Socket) (r : Recv)
      → e.recv ≡ r
      → k'.sent ≡ k.sent ++ (pkt ∷ [])
      → IsAttempt e k (on_reply expected r k')
  on_reply-IsAttempt e k k' (packet datagram) er same =
      on_answer-IsAttempt e k k' datagram _ er refl same
  on_reply-IsAttempt e k k' recv_fault er same = ((λ q. cc), inr (same, λ q. cc))
  on_reply-IsAttempt e k k' timeout er same = same

  attempt-IsAttempt : (e : Event) (k : Socket) → IsAttempt e k (attempt pkt expected deadline e k)
  unfolding attempt
  attempt-IsAttempt e k = elim (Bool-cases (leb deadline e.polled)) [
    | inl late ↦ rw late ((λ q. cc), inl (refl, λ q. cc))
    | inr early ↦ rw early (elim (send_cases k) [
      | inl (b, same) ↦ rw b ((λ q. cc), inl (same, λ q. cc))
      | inr (b, same) ↦ rw b (on_reply-IsAttempt e k (send pkt k).1 e.recv refl same)
    ])
  ]

  Answered-first :
      (e : Event) (es : List Event) → Answered expected (e ∷ []) → Answered expected (e ∷ es)
  Answered-first e es (inl h) = inl h
  Answered-first e es (inr h) = absurd h

  await_ack-IsAwaited :
      (left : ℕ) (es : List Event) (k : Socket)
      → IsAwaited pkt expected left es k (await_ack pkt expected deadline left es k)
  unfolding await_ack
  await_ack-IsAwaited zero es k =
      unsent zero es es k k gave_up refl (λ e. cc) (λ e. cc) (omega arith)
  await_ack-IsAwaited (suc left) [] k =
      unsent (suc left) [] [] k k waiting refl (λ e. cc) (λ e. omega arith) (omega arith)
  await_ack-IsAwaited (suc left) (e ∷ es) k =
      by_attempt _ (attempt-IsAttempt e k) (λ k'. await_ack-IsAwaited left es k')
    where
      by_attempt :
          (r : Attempt)
          → IsAttempt e k r
          → ((k' : Socket)
              → IsAwaited pkt expected left es k' (await_ack pkt expected deadline left es k'))
          → IsAwaited pkt expected (suc left) (e ∷ es) k (elim r [
            | stops outcome k' ↦ record { outcome = outcome; socket = k'; events = es }
            | goes_on k' ↦ await_ack pkt expected deadline left es k'
          ])
      by_attempt (stops o k') (nw, inl (same, na)) ih =
          unsent (suc left) (e ∷ es) es k k' o same na (λ q. absurd (nw q)) (omega arith)
      by_attempt (stops o k') (nw, inr (same, ya)) ih =
          sent_once left e es k k' o same (λ q. Answered-first e es (ya q)) nw
      by_attempt (goes_on k') same ih = sent_again left e es k k' _ same (ih k')

-- The handshake sends nothing but the given packet, five times at most, whatever arrives. It reports an
-- ACK only if a packet with the expected block came, and it is over after five receives.
pub send_and_await_ack-IsAwaited :
    (pkt : Bytes) (expected deadline : ℕ) (es : List Event) (k : Socket)
    → IsAwaited pkt expected 5 es k (send_and_await_ack pkt expected deadline es k)
unfolding send_and_await_ack
send_and_await_ack-IsAwaited pkt expected deadline es k =
    await_ack-IsAwaited pkt expected deadline max_retries es k

-- What an outcome tells of the events: `acked` that the ACK came, `waiting` that fewer than `n` came.
abbrev pub Concludes : ℕ → ℕ → List Event → AckOutcome → Type 0
Concludes expected n es acked = Answered expected es
Concludes expected n es waiting = length es + 1 ≤ n
Concludes expected n es client_error = Unit
Concludes expected n es gave_up = Unit
Concludes expected n es io_error = Unit

Concludes-of :
    (expected n : ℕ) (es : List Event) (o : AckOutcome)
    → (o ≡ acked → Answered expected es)
    → (o ≡ waiting → length es + 1 ≤ n)
    → Concludes expected n es o
Concludes-of expected n es acked a w = a refl
Concludes-of expected n es waiting a w = w refl
Concludes-of expected n es client_error a w = tt
Concludes-of expected n es gave_up a w = tt
Concludes-of expected n es io_error a w = tt

-- Whatever arrives, the handshake sends nothing but its packet, at most five times; it reports `acked`
-- only if the awaited ACK came, and still waits only while fewer than five events came.
pub send_and_await_ack_bounded :
    (pkt : Bytes) (expected deadline : ℕ) (es : List Event) (k : Socket)
    → ((copies : ℕ) × (copies ≤ 5)
        × ((send_and_await_ack pkt expected deadline es k).socket.sent
            ≡ k.sent ++ replicate copies pkt))
      × Concludes expected 5 es (send_and_await_ack pkt expected deadline es k).outcome
send_and_await_ack_bounded pkt expected deadline es k =
    let h = send_and_await_ack-IsAwaited pkt expected deadline es k in
    ((h.copies, h.bounded, h.sent), Concludes-of expected 5 es _ h.answered h.ended)
