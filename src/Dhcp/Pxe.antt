-- ===== src/Dhcp/Pxe.antt =====
-- crates/bootycall-dhcp/src/server.rs: `is_pxe_client`, and what the code reads of a DHCP message.
use booty_call.Prelude.{
  ℕ, ◌≡◌, refl, inl, inr, ap, ◌∙◌, ◌↔◌, sym, Bool, true, false, ◌||◌, Option, none, some, List, [],
  ◌∷◌, ◌++◌, take, drop, take-append-drop, arith, Bool-cases,
}
use mathlib.Core.Path.{subst}
use booty_call.Prelude.Bytes.{codes, eq_bytes, eq_bytes_iff}
use booty_call.Core.Net.{Ipv4Addr}

pub data MessageType : Type 0 where
  discover offer request ack inform another : MessageType

-- The flags field, with the one that is read apart.
pub record Flags : Type 0 where
  pub broadcast : Bool
  pub others : ℕ

-- What the accessors of a decoded `v4::Message` return; an option is looked up by its code.
pub record Message : Type 0 where
  pub xid : ℕ
  pub flags : Flags
  pub ciaddr : Ipv4Addr
  pub giaddr : Ipv4Addr
  pub chaddr : List ℕ
  pub msg_type : Option MessageType
  pub class_identifier : Option (List ℕ)
  pub architecture : Option ℕ
  pub client_identifier : Option (List ℕ)

abbrev pub pxe : List ℕ
pxe = codes "PXEClient"

-- `bytes.windows(9).any(|w| w == b"PXEClient")`; a window cut short by the end differs from it.
unfoldable pub has_window : List ℕ → Bool
has_window [] = false
has_window (b ∷ bs) = eq_bytes (take 9 (b ∷ bs)) pxe || has_window bs

unfoldable pub is_pxe_client : Message → Bool
is_pxe_client m = elim m.class_identifier [ none ↦ false | some bytes ↦ has_window bytes ]

-- The text stands somewhere in the bytes.
abbrev pub Contains : List ℕ → List ℕ → Type 0
Contains text bytes = (front : List ℕ) × (back : List ℕ) × (bytes ≡ front ++ (text ++ back))

has_window_sound : (bytes : List ℕ) → has_window bytes ≡ true → Contains pxe bytes
unfolding has_window
has_window_sound [] h = cc
has_window_sound (b ∷ bs) h = elim (Bool-cases (eq_bytes (take 9 (b ∷ bs)) pxe)) [
  | inl here ↦ (
    [],
    drop 9 (b ∷ bs),
    sym (take-append-drop 9 (b ∷ bs))
        ∙ ap (λ t. t ++ drop 9 (b ∷ bs)) ((eq_bytes_iff (take 9 (b ∷ bs)) pxe).0 here),
  )
  | inr later ↦
      let (front, back, e) = has_window_sound bs (ground (arith, later, h)) in
      (b ∷ front, back, ap (λ t. b ∷ t) e)
]

has_window_complete : (front back : List ℕ) → has_window (front ++ (pxe ++ back)) ≡ true
unfolding has_window
has_window_complete [] back = refl
has_window_complete (b ∷ front) back = ground (arith, has_window_complete front back)

-- A client counts as a PXE client exactly when its vendor class contains `PXEClient`.
pub is_pxe_client_iff :
    (m : Message)
    → (is_pxe_client m ≡ true)
      ↔ ((bytes : List ℕ) × (m.class_identifier ≡ some bytes) × Contains pxe bytes)
unfolding is_pxe_client
is_pxe_client_iff m = by_class m.class_identifier
  where
    by_class :
        (o : Option (List ℕ))
        → ((elim o [ none ↦ false | some bytes ↦ has_window bytes ]) ≡ true)
          ↔ ((bytes : List ℕ) × (o ≡ some bytes) × Contains pxe bytes)
    by_class none = (λ h. cc, λ h. cc (h.1))
    by_class (some bytes) = (
      λ h. (bytes, refl, has_window_sound bytes h),
      λ h.
          subst (λ o. (elim o [ none ↦ false | some b ↦ has_window b ]) ≡ true) (sym h.1)
            (subst (λ b. has_window b ≡ true) (sym h.2.2) (has_window_complete h.2.0 h.2.1)),
    )
