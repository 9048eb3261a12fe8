-- ===== src/Tftp/Session/Window/Filling.antt =====
-- Filling the window keeps its invariant.
use booty_call.Prelude.{
  ℕ, zero, suc, ◌+◌, ◌<◌, ◌≡◌, inl, inr, refl, true, false, not, ◌&&◌, Option, none, some, List, [],
  arith, ltb, Bool-cases,
}
use native.Mathlib.Decide.{dec_lt}
use booty_call.Tftp.Wire.{Bytes}
use booty_call.Tftp.Reader.{Fill, filled, broken, stuck, read_fill}
use booty_call.Tftp.Reader.Full.{IsFill, read_fill-IsFill}
use booty_call.Tftp.Blocks.{get}
use booty_call.Tftp.Session.{
  Plan, Session, Round, go, done, send_next, past_last, fill_rounds, fill_window, with_block,
}
use booty_call.Tftp.Session.Window.{IsKept, IsShape, IsWindow, IsSound-of_sent}
use booty_call.Tftp.Session.Window.Reading.{transmit-IsKept, after_get, payload_eq, read-IsShape}

-- `before` is what the socket had sent before the DATA phase, `content` the whole file.
module _ (p : Plan) (content : Bytes) (before : List Bytes) where
  past_read :
      (r : ℕ) (s : Session)
      → IsShape p content before r s
      → get s.next_to_send s.buffered ≡ none
      → s.next_to_send ≡ r
  past_read r s shape e = elim (dec_lt s.next_to_send r) [
    | yes lt ↦ cc (e, shape.in_buffer s.next_to_send shape.base_next lt)
    | no ge ↦ omega (arith, ge, shape.next_read)
  ]

  before_read :
      (r : ℕ) (s : Session) {payload : Bytes}
      → IsShape p content before r s
      → get s.next_to_send s.buffered ≡ some payload
      → s.next_to_send < r
  before_read r s shape e = elim (dec_lt s.next_to_send r) [
    | yes lt ↦ lt
    | no ge ↦ cc (e, shape.unread s.next_to_send (omega (arith, ge)))
  ]

  after_get-IsKept :
      (now : ℕ) (s : Session)
      → IsWindow p content before s
      → s.next_to_send < s.base + p.window
      → past_last p s ≡ false
      → (o : Option Bytes) (f : Fill) → get s.next_to_send s.buffered ≡ o
      → IsFill p.blksize [] s.file f
      → IsKept p content before (after_get p content before now s o f)
  unfolding after_get
  after_get-IsKept now s h room more (some payload) f e hf =
      let lt = before_read h.r s h.shape e in
      transmit-IsKept p content before h.r h.r payload now s h.shape lt
        (cc (e, h.shape.in_buffer s.next_to_send h.shape.base_next lt)) h.sent
        (λ j below. inl below)
  after_get-IsKept now s h room more none (filled payload hit_eof file) e hf =
      let here = past_read h.r s h.shape e in
      transmit-IsKept p content before h.r (h.r + 1) payload now
        (with_block p.blksize payload hit_eof file s)
        (read-IsShape p content before h.r payload hit_eof file s h.shape here room more hf)
        (omega (arith, here)) (payload_eq p content before s h.r payload h.shape here hf.0) h.sent
        (λ j below. ground (arith, here))
  after_get-IsKept now s h room more none (broken file) e hf =
      ((λ e. cc), IsSound-of_sent p content before h.r _ h.sent)
  after_get-IsKept now s h room more none stuck e hf = absurd hf

  send_next-IsKept :
      (now : ℕ) (s : Session)
      → IsWindow p content before s
      → s.next_to_send < s.base + p.window
      → past_last p s ≡ false
      → IsKept p content before (send_next p now s)
  unfolding send_next after_get
  send_next-IsKept now s h room more =
      after_get-IsKept now s h room more (get s.next_to_send s.buffered)
        (read_fill p.blksize s.file) refl (read_fill-IsFill p.blksize s.file)

  -- The filling loop goes on, or ends, by what a step returned.
  after_send : ℕ → ℕ → Round → Round
  after_send rounds now (go s) = fill_rounds p rounds now s
  after_send rounds now (done end s) = done end s

  after_send-IsKept :
      (rounds now : ℕ) (r : Round)
      → IsKept p content before r
      → ((s : Session)
          → IsWindow p content before s
          → IsKept p content before (fill_rounds p rounds now s))
      → IsKept p content before (after_send rounds now r)
  unfolding after_send
  after_send-IsKept rounds now (go s) h ih = ih s h
  after_send-IsKept rounds now (done end s) h ih = h

  room_left :
      (s : Session)
      → (ltb s.next_to_send (s.base + p.window) && not (past_last p s)) ≡ true
      → (s.next_to_send < s.base + p.window) × (past_last p s ≡ false)
  room_left s h = (ground arith, ground arith)

  fill_rounds_step :
      (rounds now : ℕ) (s : Session) (r : Round)
      → send_next p now s ≡ r
      → (ltb s.next_to_send (s.base + p.window) && not (past_last p s)) ≡ true
      → fill_rounds p (suc rounds) now s ≡ after_send rounds now r
  unfolding fill_rounds after_send
  fill_rounds_step rounds now s (go s') e t = rw (t, e, fill_rounds)
  fill_rounds_step rounds now s (done end s') e t = rw (t, e, fill_rounds)

  fill_rounds_stop :
      (rounds now : ℕ) (s : Session)
      → (ltb s.next_to_send (s.base + p.window) && not (past_last p s)) ≡ false
      → fill_rounds p (suc rounds) now s ≡ go s
  unfolding fill_rounds
  fill_rounds_stop rounds now s t = rw (t, fill_rounds)

  fill_rounds-IsKept :
      (rounds now : ℕ) (s : Session)
      → IsWindow p content before s
      → IsKept p content before (fill_rounds p rounds now s)
  fill_rounds-IsKept zero now s h = unfold fill_rounds in h
  fill_rounds-IsKept (suc rounds) now s h =
      elim (Bool-cases (ltb s.next_to_send (s.base + p.window) && not (past_last p s))) [
        | inl more ↦
            let (room, open_end) = room_left s more in
            rw (fill_rounds_step rounds now s _ refl more) (
              after_send-IsKept rounds now (send_next p now s)
                (send_next-IsKept now s h room open_end)
                (λ s' h'. fill_rounds-IsKept rounds now s' h'))
        | inr full ↦ rw (fill_rounds_stop rounds now s full) h
      ]

  -- Filling the window keeps the invariant.
  pub fill_window-IsKept :
      (now : ℕ) (s : Session)
      → IsWindow p content before s
      → IsKept p content before (fill_window p now s)
  unfolding fill_window
  fill_window-IsKept now s h = fill_rounds-IsKept _ now s h
