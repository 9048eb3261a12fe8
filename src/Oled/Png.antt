-- ===== src/Oled/Png.antt =====
-- crates/bootycall-oled/src/png.rs: grey images as PNG files, with stored blocks only.
pub mod Inflate
use Prim.Native.Nat.{bit_xor}
use booty_call.Prelude.{
  ℕ, zero, suc, ◌+◌, ◌-◌, ◌*◌, ◌/◌, ◌%◌, ◌^◌, Bool, true, false, List, [], ◌∷◌, ◌++◌, ◌==◌,
  if◌then◌else◌, length, take, drop,
}
use booty_call.Prelude.Bytes.{codes}

-- `u32::to_be_bytes`
abbrev pub be32 : ℕ → List ℕ
be32 n = n / 16_777_216 % 256 ∷ n / 65_536 % 256 ∷ n / 256 % 256 ∷ n % 256 ∷ []

-- `u16::to_le_bytes`, before what follows.
abbrev pub le16 : ℕ → List ℕ → List ℕ
le16 n rest = n % 256 ∷ n / 256 % 256 ∷ rest

-- One turn of the inner loop: `0xEDB8_8320 & mask` is that number or 0.
abbrev pub crc_bit : ℕ → ℕ
crc_bit crc = bit_xor (crc / 2) (if crc % 2 == 1 then 0xEDB88320 else 0)

abbrev pub crc_bits : ℕ → ℕ → ℕ
crc_bits zero crc = crc
crc_bits (suc n) crc = crc_bits n (crc_bit crc)

abbrev pub crc_loop : ℕ → List ℕ → ℕ
crc_loop crc [] = crc
crc_loop crc (byte ∷ bytes) = crc_loop (crc_bits 8 (bit_xor crc byte)) bytes

unfoldable pub crc32 : List ℕ → ℕ
crc32 bytes = 0xFFFFFFFF - crc_loop 0xFFFFFFFF bytes

abbrev pub adler_loop : ℕ → ℕ → List ℕ → ℕ
adler_loop a b [] = b * 65_536 + a
adler_loop a b (byte ∷ bytes) =
    let a' = (a + byte) % 65_521 in adler_loop a' ((b + a') % 65_521) bytes

-- `b` and `a` are below 2 ^ 16, so `(b << 16) | a` is a sum.
unfoldable pub adler32 : List ℕ → ℕ
adler32 bytes = adler_loop 1 0 bytes

-- `BFINAL` is set on the block that ends the data.
abbrev pub final_flag : List ℕ → ℕ
final_flag [] = 1
final_flag (b ∷ rest) = 0

abbrev pub max_stored : ℕ
max_stored = 65_535

-- The loop over the data, of at most 65535 bytes a turn; a turn takes at least one byte, so the length of the data
-- is enough fuel.
unfoldable pub stored_blocks : ℕ → List ℕ → List ℕ
stored_blocks zero bytes = []
stored_blocks (suc fuel) [] = []
stored_blocks (suc fuel) (b ∷ bytes) =
    let chunk = take max_stored (b ∷ bytes) in
    let rest = drop max_stored (b ∷ bytes) in
    let more = stored_blocks fuel rest in
    final_flag rest ∷ le16 (length chunk) (le16 (max_stored - length chunk) (chunk ++ more))

unfoldable pub zlib_store : List ℕ → List ℕ
zlib_store bytes = 0x78 ∷ 0x01 ∷ (stored_blocks (length bytes) bytes ++ be32 (adler32 bytes))

unfoldable pub write_chunk : List ℕ → List ℕ → List ℕ → List ℕ
write_chunk out kind bytes =
    out ++ (be32 (length bytes) ++ (kind ++ (bytes ++ be32 (crc32 (kind ++ bytes)))))

-- Each scanline with the filter byte 0 before it, for `gray.chunks(width)` of so many rows.
abbrev pub scanlines : ℕ → ℕ → List ℕ → List ℕ
scanlines zero width gray = []
scanlines (suc height) width gray =
    0 ∷ (take width gray ++ scanlines height width (drop width gray))

-- `gray` has `width * height` bytes, as the assertion asks.
unfoldable pub encode_gray_png : List ℕ → ℕ → ℕ → List ℕ
encode_gray_png gray width height =
    let signature = 0x89 ∷ (codes "PNG" ++ (0x0d ∷ 0x0a ∷ 0x1a ∷ 0x0a ∷ [])) in
    let ihdr = be32 width ++ (be32 height ++ (8 ∷ 0 ∷ 0 ∷ 0 ∷ 0 ∷ [])) in
    let with_ihdr = write_chunk signature (codes "IHDR") ihdr in
    let raw = scanlines height width gray in
    write_chunk (write_chunk with_ihdr (codes "IDAT") (zlib_store raw)) (codes "IEND") []
