-- ===== src/Tftp/Wire/RoundTrip.antt =====
-- What is encoded is decoded.
use booty_call.Prelude.{
  ℕ, ◌<◌, ◌^◌, ◌/◌, ◌%◌, ◌≡◌, refl, ap, Bool, true, none, some, List, [], ◌∷◌, ◌++◌, arith, All,
  ◌≢◌,
}
use mathlib.Core.List.{append-nil, append_assoc}
use booty_call.Prelude.Bytes.{from_be_bytes}
use booty_call.Text.Utf8.{is_utf8, from_utf8_lossy_lem, is_utf8_of_ascii}
use booty_call.Text.Decimal.{IsDigit, decimal, decimal-digits}
use booty_call.Tftp.Wire.{
  Bytes, Pair, opcode, make_error_packet, make_oack_packet, make_data_packet, make_ack_packet,
  parse_ack_packet, parse_error_packet, parse_data_packet, parse_oack_packet, is_error_packet,
  push_options, until_nul, split_nul, pairs, lossy_all,
}

-- A Rust string that can stand in a packet: UTF-8 with no NUL.
pub record IsText (s : Bytes) : Type 0 where
  pub utf8 : is_utf8 s ≡ true
  pub no_nul : All (λ b. b ≢ 0) s

digit_facts : (s : Bytes) → All IsDigit s → All (λ b. b < 128) s × All (λ b. b ≢ 0) s
digit_facts [] h = (tt, tt)
digit_facts (b ∷ bs) h =
    let (small, nonzero) = digit_facts bs h.1 in ((omega arith, small), (omega arith, nonzero))

pub decimal-IsText : (n : ℕ) → IsText (decimal n)
decimal-IsText n = record {
  utf8 = is_utf8_of_ascii (decimal n) (digit_facts (decimal n) (decimal-digits n)).0;
  no_nul = (digit_facts (decimal n) (decimal-digits n)).1;
}

be_bytes : (n : ℕ) → n < 2 ^ 16 → from_be_bytes (n / 256 % 256) (n % 256) ≡ n
be_bytes n h = omega arith

-- A DATA packet decodes to its block number and payload; it is neither an ACK nor an ERROR.
pub parse_data_packet-make :
    (block : ℕ) (payload : Bytes)
    → block < 2 ^ 16
    → (parse_data_packet (make_data_packet block payload) ≡ some (block, payload))
      × (parse_ack_packet (make_data_packet block payload) ≡ none)
      × (is_error_packet (make_data_packet block payload) ≡ Bool.false)
unfolding parse_data_packet make_data_packet parse_ack_packet is_error_packet
parse_data_packet-make block payload h =
    (ap (λ n. some (n, payload)) (be_bytes block h), refl, refl)

-- An ACK packet decodes to its block number.
pub parse_ack_packet-make :
    (block : ℕ) → block < 2 ^ 16 → parse_ack_packet (make_ack_packet block) ≡ some block
unfolding parse_ack_packet make_ack_packet
parse_ack_packet-make block h = ap (λ n. some n) (be_bytes block h)

until_nul-append : (s rest : Bytes) → All (λ b. b ≢ 0) s → until_nul (s ++ (0 ∷ rest)) ≡ s
unfolding until_nul
until_nul-append [] rest h = refl
until_nul-append (b ∷ bs) rest h = ground (arith, h.0, until_nul-append bs rest h.1)

-- An ERROR packet decodes to its code and message, and is recognised as one.
pub parse_error_packet-make :
    (code : ℕ) (msg : Bytes)
    → code < 2 ^ 16
    → IsText msg
    → (parse_error_packet (make_error_packet code msg) ≡ some (code, msg))
      × (is_error_packet (make_error_packet code msg) ≡ true)
      × (parse_ack_packet (make_error_packet code msg) ≡ none)
parse_error_packet-make code msg h t = (
  unfold parse_error_packet make_error_packet opcode in
      rw (be_bytes code h, until_nul-append msg [] t.no_nul, from_utf8_lossy_lem msg t.utf8),
  unfold make_error_packet is_error_packet in refl,
  unfold parse_ack_packet make_error_packet in refl,
)

pub split_nul-append :
    (current s rest : Bytes)
    → All (λ b. b ≢ 0) s
    → split_nul current (s ++ (0 ∷ rest)) ≡ (current ++ s) ∷ split_nul [] rest
unfolding split_nul
split_nul-append current [] rest h = rw append-nil
split_nul-append current (b ∷ bs) rest h = ground (
  arith,
  h.0,
  append_assoc current (b ∷ []) bs,
  split_nul-append (current ++ (b ∷ [])) bs rest h.1,
)

abbrev pub IsTextPair : Pair → Type 0
IsTextPair p = IsText p.0 × IsText p.1

pub All-append :
    (xs ys : List Pair) → All IsTextPair xs → All IsTextPair ys → All IsTextPair (xs ++ ys)
All-append [] ys hx hy = hy
All-append (x ∷ xs) ys hx hy = (hx.0, All-append xs ys hx.1 hy)

pub split_nul-push_options :
    (options : List Pair)
    → All IsTextPair options
    → pairs (lossy_all (split_nul [] (push_options options))) ≡ options
unfolding pairs split_nul
split_nul-push_options [] h = refl
split_nul-push_options ((k, v) ∷ rest) h = rw (
  split_nul-append [] k (v ++ (0 ∷ push_options rest)) h.0.0.no_nul,
  split_nul-append [] v (push_options rest) h.0.1.no_nul,
  from_utf8_lossy_lem k h.0.0.utf8,
  from_utf8_lossy_lem v h.0.1.utf8,
  split_nul-push_options rest h.1,
)

-- An OACK packet decodes to the options it was made of, in their order.
pub parse_oack_packet-make :
    (options : List Pair)
    → All IsTextPair options
    → parse_oack_packet (make_oack_packet options) ≡ some options
unfolding parse_oack_packet make_oack_packet
parse_oack_packet-make options h = rw (split_nul-push_options options h)
