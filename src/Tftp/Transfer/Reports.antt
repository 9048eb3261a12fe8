-- ===== src/Tftp/Transfer/Reports.antt =====
-- crates/bootycall-tftp/src/server.rs: what a transfer leaves in the state store.
use booty_call.Prelude.{ℕ, ◌≡◌, Option}
use booty_call.Prelude.Bytes.{codes}
use booty_call.Core.Store.{StateStore}
use booty_call.Tftp.Wire.{Bytes}
use booty_call.Tftp.Negotiate.{Negotiated}
use booty_call.Tftp.Session.{mark_tftp_failed}
use booty_call.Tftp.Loop.Marks.{IsAccounted}
use booty_call.Tftp.Transfer.{
  Early, oack_refused, oack_timed_out, oack_io_error, Outcome, early, transferred, plan,
}

-- Whether an early end is one that the store is told of.
abbrev pub IsTold : Option Bytes → Early → StateStore → StateStore → Type 0
IsTold mac oack_refused before after =
    (now : ℕ) × (after
      ≡ mark_tftp_failed mac (codes "client aborted during OACK negotiation") now before)
IsTold mac oack_timed_out before after =
    (now : ℕ) × (after ≡ mark_tftp_failed mac (codes "OACK negotiation timed out") now before)
IsTold mac oack_io_error before after =
    (now : ℕ) × (after
      ≡ mark_tftp_failed mac (codes "I/O error during OACK negotiation") now before)
IsTold mac why before after = after ≡ before

-- What an outcome has done to the state store.
abbrev pub IsReported : Option Bytes → StateStore → Outcome → Type 0
IsReported mac before (early why k store) = IsTold mac why before store
IsReported mac before (transferred r) =
    (n : Negotiated) × (started : ℕ) × IsAccounted (plan mac n started) before r
