-- ===== src/Tftp/Loop/Steps.antt =====
-- The loop and its rounds as compositions of their parts.
use booty_call.Prelude.{◌≡◌, refl, List, ◌∷◌}
use booty_call.Tftp.Session.{Plan, Session, Event, Round, go, done, fill_window}
use booty_call.Tftp.Loop.{receive, round, finish, run}

module _ (p : Plan) where
  -- A round, by what filling the window returned.
  unfoldable pub after_fill : Event → Round → Round
  after_fill e (go s) = receive p e s
  after_fill e (done end s) = done end s

  pub round_lem : (e : Event) (s : Session) → round p e s ≡ after_fill e (fill_window p e.stamped s)
  unfolding round after_fill
  round_lem e s = refl

  unfoldable pub after_round : Event → List Event → Round → Round
  after_round e es (go s) = run p es s
  after_round e es (done end s) = done end (finish p end e.stamped s)

  pub run_lem :
      (e : Event) (es : List Event) (s : Session)
      → run p (e ∷ es) s ≡ after_round e es (round p e s)
  unfolding run after_round
  run_lem e es s = refl
