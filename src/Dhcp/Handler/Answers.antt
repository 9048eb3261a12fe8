-- ===== src/Dhcp/Handler/Answers.antt =====
-- crates/bootycall-dhcp/src/server.rs: who is answered.
use booty_call.Prelude.{
  ℕ, ◌<◌, ◌≡◌, ◌≢◌, ◌⊎◌, refl, sym, ◌∙◌, inl, inr, true, false, Option, none, some, List, [], ◌∷◌,
  take, length, Bool-cases, Option-cases, arith,
}
use mathlib.Core.Path.{subst}
use booty_call.Core.Mac.{HwAddr, format_mac}
use booty_call.Core.Store.{StateStore}
use booty_call.Dhcp.Pxe.{
  MessageType, discover, offer, request, inform, ack, another, Message, is_pxe_client,
  is_pxe_client_iff,
}
use booty_call.Dhcp.Handler.{
  Env, Packet, Reply, Handled, ignored, hw_addr, response_type, handle_message, handle_packet,
  reply_to,
}
use booty_call.Dhcp.Handler.Expected.{IsPxe, Answers}
use booty_call.Dhcp.Handler.Served.{IsServed, IsIgnorable, serve-IsServed}

module _ (env : Env) (p : Packet) where
  typed_or_not :
      (t : Option MessageType)
      → ((kind : MessageType) × (response_type t ≡ some kind) × Answers t kind)
        ⊎ ((response_type t ≡ none)
            × ((t ≢ some discover) × (t ≢ some request) × (t ≢ some inform)))
  typed_or_not none = inr (refl, ((λ e. cc), (λ e. cc), (λ e. cc)))
  typed_or_not (some discover) = inl (offer, refl, inl (refl, refl))
  typed_or_not (some request) = inl (ack, refl, inr (inl refl, refl))
  typed_or_not (some inform) = inl (ack, refl, inr (inr refl, refl))
  typed_or_not (some offer) = inr (refl, ((λ e. cc), (λ e. cc), (λ e. cc)))
  typed_or_not (some ack) = inr (refl, ((λ e. cc), (λ e. cc), (λ e. cc)))
  typed_or_not (some another) = inr (refl, ((λ e. cc), (λ e. cc), (λ e. cc)))

  hw_addr-short : (chaddr : List ℕ) → hw_addr chaddr ≡ none → length chaddr < 6
  hw_addr-short [] e = omega arith
  hw_addr-short (a ∷ []) e = omega arith
  hw_addr-short (a ∷ b ∷ []) e = omega arith
  hw_addr-short (a ∷ b ∷ c ∷ []) e = omega arith
  hw_addr-short (a ∷ b ∷ c ∷ d ∷ []) e = omega arith
  hw_addr-short (a ∷ b ∷ c ∷ d ∷ f ∷ []) e = omega arith
  hw_addr-short (a ∷ b ∷ c ∷ d ∷ f ∷ g ∷ rest) e = cc

  -- Nothing is sent, and the store is as it was.
  abbrev pub IsIgnored : StateStore → Handled → Type 0
  IsIgnored s h = (h.store ≡ s) × (h.sent ≡ none)

  -- What became of a packet: nothing, for a reason, or an answer.
  abbrev pub IsHandled : StateStore → Handled → Type 0
  IsHandled s h =
      (IsIgnorable env p × IsIgnored s h)
      ⊎ ((m : Message) × (addr : HwAddr) × (reply : Reply) × IsServed env p s m addr reply h)

  -- By what the handler returns.
  returns :
      (s : StateStore) (h : Handled)
      → handle_packet env p s ≡ h
      → IsHandled s h
      → IsHandled s (handle_packet env p s)
  returns s h e = subst (IsHandled s) (sym e)

  -- Every packet that decodes to a discover, a request or an inform of a PXE client with a six-byte hardware address is
  -- answered with the offer or the acknowledgement for it, which names the bootloader of the host or the
  -- default one of its architecture; it is sent if it can be encoded, and the store shows every reader the
  -- host as polling, unless a full store does not know it. Nothing is done about any other packet.
  pub handle_packet-cases : (s : StateStore) → IsHandled s (handle_packet env p s)
  unfolding handle_packet handle_message
  handle_packet-cases s = elim (Option-cases (env.decode (take 1500 p.bytes))) [
    | inl e ↦ returns s (ignored s) (rw (e, handle_packet) refl) (inl (inl e, (refl, refl)))
    | inr (m, e) ↦ elim (Option-cases (hw_addr m.chaddr)) [
      | inl h ↦
          returns s (ignored s) (rw (e, h, handle_packet, handle_message) refl)
            (inl (inr (m, e, inl (hw_addr-short m.chaddr h)), (refl, refl)))
      | inr (addr, h) ↦ elim (Bool-cases (is_pxe_client m)) [
        | inr c ↦
            let foreign : ¬ (IsPxe m) =
              λ v. (let f : false ≡ true = sym c ∙ (is_pxe_client_iff m).1 v in cc) in
            returns s (ignored s) (rw (e, h, c, handle_packet, handle_message) refl)
              (inl (inr (m, e, inr (inl foreign)), (refl, refl)))
        | inl c ↦ elim (typed_or_not m.msg_type) [
          | inr (t, other) ↦
              returns s (ignored s) (rw (e, h, c, t, handle_packet, handle_message) refl)
                (inl (inr (m, e, inr (inr other)), (refl, refl)))
          | inl (kind, t, answers) ↦
              returns s _ (rw (e, h, c, t, handle_packet, handle_message) refl) (
                inr (
                  m,
                  addr,
                  reply_to env p m kind (format_mac addr),
                  serve-IsServed env p s m kind addr e h ((is_pxe_client_iff m).0 c) answers,
                ))
        ]
      ]
    ]
  ]
