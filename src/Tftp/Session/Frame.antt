-- ===== src/Tftp/Session/Frame.antt =====
-- What filling the window leaves alone.
use booty_call.Prelude.{
  ℕ, zero, suc, ◌+◌, ◌≡◌, inl, inr, refl, ◌∙◌, Bool, true, false, not, ◌&&◌, Option, none, some,
  ltb, Bool-cases,
}
use mathlib.Core.Path.{subst}
use booty_call.Prelude.Bytes.{codes}
use booty_call.Core.Store.{StateStore}
use booty_call.Tftp.Wire.{Bytes}
use booty_call.Tftp.Reader.{Fill, filled, broken, stuck, read_fill}
use booty_call.Tftp.Blocks.{get}
use booty_call.Tftp.Session.{
  Plan, Session, Round, go, done, End, whole_file, client_error, timed_out, io_error, read_error,
  mark_tftp_failed, fail_with, transmit, send, with_block, send_next, fill_rounds, past_last,
  fill_window, fails,
}

module _ (p : Plan) where
  -- What the end of a transfer does to the state store, before the loop is left: a complete transfer and
  -- a read error leave it as it is, and every other end marks the host as failed, with its reason.
  abbrev pub IsMarked : End → StateStore → StateStore → Type 0
  IsMarked whole_file before after = after ≡ before
  IsMarked read_error before after = after ≡ before
  IsMarked client_error before after =
      (now : ℕ) × (after
        ≡ mark_tftp_failed p.mac (codes "client aborted during data transfer") now before)
  IsMarked timed_out before after =
      (now : ℕ) × (after
        ≡ mark_tftp_failed p.mac (codes "timed out waiting for data ACK") now before)
  IsMarked io_error before after =
      (now : ℕ) × (after
        ≡ mark_tftp_failed p.mac (codes "I/O error during data transfer") now before)

  -- Filling the window moves neither its base nor the retry count.
  abbrev pub IsSame : Session → Round → Type 0
  IsSame s (go s') = (s'.base ≡ s.base) × (s'.retries ≡ s.retries) × (s'.store ≡ s.store)
  IsSame s (done end s') = IsMarked end s.store s'.store

  transmit-IsSame : (payload : Bytes) (now : ℕ) (s : Session) → IsSame s (transmit p payload now s)
  unfolding transmit send fail_with
  transmit-IsSame payload now s = elim (Bool-cases (fails s.socket.faults)) [
    | inl down ↦ rw down (now, refl)
    | inr up ↦ rw up (refl, refl, refl)
  ]

  send_next-IsSame : (now : ℕ) (s : Session) → IsSame s (send_next p now s)
  unfolding send_next
  send_next-IsSame now s = by_get (get s.next_to_send s.buffered) (read_fill p.blksize s.file)
    where
      by_get :
          (o : Option Bytes) (f : Fill)
          → IsSame s (elim o [
            | some payload ↦ transmit p payload now s
            | none ↦ elim f [
              | filled payload hit_eof file ↦
                  transmit p payload now (with_block p.blksize payload hit_eof file s)
              | broken file ↦ done read_error (record s { file = file })
              | stuck ↦ done read_error s
            ]
          ])
      by_get (some payload) f = transmit-IsSame payload now s
      by_get none (filled payload hit_eof file) =
          transmit-IsSame payload now (with_block p.blksize payload hit_eof file s)
      by_get none (broken file) = refl
      by_get none stuck = refl

  trans-IsSame : (s t : Session) (r : Round) → IsSame s (go t) → IsSame t r → IsSame s r
  trans-IsSame s t (go u) h k = (k.0 ∙ h.0, k.1 ∙ h.1, k.2 ∙ h.2)
  trans-IsSame s t (done end u) h k = subst (λ b. IsMarked end b u.store) h.2 k

  fill_rounds-IsSame : (rounds now : ℕ) (s : Session) → IsSame s (fill_rounds p rounds now s)
  unfolding fill_rounds
  fill_rounds-IsSame zero now s = (refl, refl, refl)
  fill_rounds-IsSame (suc rounds) now s =
      by_test (ltb s.next_to_send (s.base + p.window) && not (past_last p s)) (send_next p now s)
        (send_next-IsSame now s) (λ s'. fill_rounds-IsSame rounds now s')
    where
      by_test :
          (b : Bool) (r : Round)
          → IsSame s r
          → ((s' : Session) → IsSame s' (fill_rounds p rounds now s'))
          → IsSame s (elim b [
            | false ↦ go s
            | true ↦ elim r [ go s' ↦ fill_rounds p rounds now s' | done end s' ↦ done end s' ]
          ])
      by_test false r h ih = (refl, refl, refl)
      by_test true (go s') h ih = trans-IsSame s s' _ h (ih s')
      by_test true (done end s') h ih = h

  pub fill_window-IsSame : (now : ℕ) (s : Session) → IsSame s (fill_window p now s)
  unfolding fill_window
  fill_window-IsSame now s = fill_rounds-IsSame _ now s
