-- ===== src/Tftp/Wire.antt =====
-- crates/bootycall-tftp/src/wire.rs: the packets. A packet is a list of bytes.
pub mod RoundTrip
use booty_call.Prelude.{
  ℕ, ◌+◌, ◌*◌, ◌-◌, Bool, ◌&&◌, ◌||◌, not, Option, none, some, List, [], ◌∷◌, ◌++◌, ltb, ◌==◌,
  if◌then◌else◌, length, take, drop,
}
use booty_call.Prelude.Bytes.{to_be_bytes, from_be_bytes}
use booty_call.Text.Utf8.{from_utf8_lossy}

abbrev pub op_rrq : ℕ
op_rrq = 1

abbrev pub op_wrq : ℕ
op_wrq = 2

abbrev pub op_data : ℕ
op_data = 3

abbrev pub op_ack : ℕ
op_ack = 4

abbrev pub op_error : ℕ
op_error = 5

abbrev pub op_oack : ℕ
op_oack = 6

abbrev pub Bytes : Type 0
Bytes = List ℕ

-- A name and its value.
abbrev pub Pair : Type 0
Pair = Bytes × Bytes

unfoldable pub opcode : Bytes → Option ℕ
opcode (a ∷ b ∷ rest) = some (from_be_bytes a b)
opcode pkt = none

unfoldable pub make_error_packet : ℕ → Bytes → Bytes
make_error_packet code msg = to_be_bytes op_error ++ (to_be_bytes code ++ (msg ++ (0 ∷ [])))

-- A run of NUL-terminated names and values, the loop of `make_oack_packet` and `make_rrq_packet`.
abbrev pub push_options : List Pair → Bytes
push_options [] = []
push_options ((name, val) ∷ rest) = name ++ (0 ∷ (val ++ (0 ∷ push_options rest)))

unfoldable pub make_oack_packet : List Pair → Bytes
make_oack_packet options = to_be_bytes op_oack ++ push_options options

unfoldable pub make_data_packet : ℕ → Bytes → Bytes
make_data_packet block_num payload = to_be_bytes op_data ++ (to_be_bytes block_num ++ payload)

unfoldable pub make_ack_packet : ℕ → Bytes
make_ack_packet block = to_be_bytes op_ack ++ to_be_bytes block

unfoldable pub make_rrq_packet : Bytes → Bytes → List Pair → Bytes
make_rrq_packet filename mode options =
    to_be_bytes op_rrq ++ (filename ++ (0 ∷ (mode ++ (0 ∷ push_options options))))

-- `opcode(pkt) == Some(op)`
abbrev pub is_op : ℕ → Bytes → Bool
is_op op pkt = elim (opcode pkt) [ none ↦ Bool.false | some o ↦ o == op ]

-- The number at bytes 2 and 3.
abbrev word_at_2 : Bytes → Option ℕ
word_at_2 (a ∷ b ∷ c ∷ d ∷ rest) = some (from_be_bytes c d)
word_at_2 pkt = none

unfoldable pub parse_ack_packet : Bytes → Option ℕ
unfolding opcode
parse_ack_packet pkt = if is_op op_ack pkt then word_at_2 pkt else none

unfoldable pub is_error_packet : Bytes → Bool
unfolding opcode
is_error_packet pkt = is_op op_error pkt

-- `take_while(|b| b != 0)`: the slice up to the first NUL, or all of it.
unfoldable pub until_nul : Bytes → Bytes
until_nul [] = []
until_nul (b ∷ bs) = if b == 0 then [] else b ∷ until_nul bs

unfoldable pub parse_error_packet : Bytes → Option (ℕ × Bytes)
unfolding opcode
parse_error_packet pkt =
    if is_op op_error pkt
    then elim (word_at_2 pkt) [
      | none ↦ none
      | some code ↦ some (code, from_utf8_lossy (until_nul (drop 4 pkt)))
    ]
    else none

unfoldable pub parse_data_packet : Bytes → Option (ℕ × Bytes)
unfolding opcode
parse_data_packet pkt =
    if is_op op_data pkt
    then elim (word_at_2 pkt) [ none ↦ none | some block ↦ some (block, drop 4 pkt) ]
    else none

-- The NUL-terminated parts of `bytes`, behind the bytes `current` of an unfinished one. What follows
-- the last NUL is dropped.
unfoldable pub split_nul : Bytes → Bytes → List Bytes
split_nul current [] = []
split_nul current (b ∷ bs) =
    let done = current ∷ split_nul [] bs in
    let more = split_nul (current ++ (b ∷ [])) bs in if b == 0 then done else more

-- The loop `while i + 1 < parts.len()`: a last part with no partner is dropped.
unfoldable pub pairs : List Bytes → List Pair
pairs (k ∷ v ∷ rest) = (k, v) ∷ pairs rest
pairs parts = []

abbrev pub lossy_all : List Bytes → List Bytes
lossy_all [] = []
lossy_all (p ∷ ps) = from_utf8_lossy p ∷ lossy_all ps

unfoldable pub parse_oack_packet : Bytes → Option (List Pair)
unfolding opcode
parse_oack_packet pkt =
    if is_op op_oack pkt then some (pairs (lossy_all (split_nul [] (drop 2 pkt)))) else none
