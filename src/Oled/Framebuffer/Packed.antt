-- ===== src/Oled/Framebuffer/Packed.antt =====
-- crates/bootycall-oled/src/framebuffer.rs: which bytes the device gets for which pixel.
use booty_call.Prelude.{
  ℕ, zero, suc, ◌+◌, ◌*◌, ◌/◌, ◌%◌, ◌<◌, ◌≡◌, refl, ap, ◌∙◌, some, List, [], ◌∷◌, ◌++◌, reverse,
  ◌==◌, if◌then◌else◌, get_elem?, All, arith, Bool-cases, inl, inr,
}
use mathlib.Core.List.{reverse_aux}
use booty_call.Prelude.Bytes.{IsByte}
use booty_call.Oled.Framebuffer.{
  rgb565, lut_entry, lut_from, build_lut, at_level, pack, pack_buffer,
}

get_elem?-lut_from :
    (b count g i : ℕ) → i < count → get_elem? (lut_from b count g) i ≡ some (lut_entry b (g + i))
unfolding lut_from
get_elem?-lut_from b zero g i h = absurd (omega arith)
get_elem?-lut_from b (suc count) g zero h = ap (λ n. some (lut_entry b n)) (omega arith)
get_elem?-lut_from b (suc count) g (suc i) h =
    get_elem?-lut_from b count (g + 1) i (omega arith)
    ∙ ap (λ n. some (lut_entry b n)) (omega arith)

-- The two bytes of a grey level: its RGB565 value with the high byte first.
abbrev pub level_bytes : ℕ → ℕ → List ℕ
level_bytes brightness gray = let val = rgb565 brightness gray in val / 256 ∷ val % 256 ∷ []

abbrev pub bytes_of : ℕ → List ℕ → List ℕ
bytes_of brightness [] = []
bytes_of brightness (gray ∷ grays) = level_bytes brightness gray ++ bytes_of brightness grays

rgb565-lt : (brightness g : ℕ) → rgb565 brightness g < 65_536
rgb565-lt brightness g = omega arith

-- Swapping the bytes in the table and again in the packing leaves the high byte first.
swapped :
    (val : ℕ)
    → val < 65_536
    → ((val % 256 * 256 + val / 256 % 256) % 256 ≡ val / 256)
      × ((val % 256 * 256 + val / 256 % 256) / 256 ≡ val % 256)
swapped val h = (omega arith, omega arith)

level :
    (brightness gray : ℕ)
    → gray < 256
    → at_level (get_elem? (build_lut brightness) gray) ≡ lut_entry brightness gray
unfolding build_lut
level brightness gray h =
    ap at_level (get_elem?-lut_from brightness 256 0 gray h)
    ∙ ap (lut_entry brightness) (omega arith)

pack-bytes_of :
    (brightness : ℕ) (buffer : List ℕ)
    → All IsByte buffer
    → pack (build_lut brightness) buffer ≡ bytes_of brightness buffer
unfolding lut_entry
pack-bytes_of brightness [] h = refl
pack-bytes_of brightness (gray ∷ buffer) h =
    let (low, high) = swapped (rgb565 brightness gray) (rgb565-lt brightness gray) in
    let e = level brightness gray h.0 in
    let first = ap (λ v. v % 256) e ∙ low in
    let second = ap (λ v. v / 256) e ∙ high in
    let rest = pack-bytes_of brightness buffer h.1 in rw (first, second, rest) refl

All-reverse_aux : (xs ys : List ℕ) → All IsByte xs → All IsByte ys → All IsByte (reverse_aux xs ys)
All-reverse_aux [] ys h k = k
All-reverse_aux (x ∷ xs) ys h k = All-reverse_aux xs (x ∷ ys) h.1 (h.0, k)

-- What the device is given: for each pixel its grey level, scaled by the brightness, as RGB565 with the high
-- byte first. The pixels come in order, or from the last to the first when the rotation is 0.
pub pack_buffer-build_lut :
    (buffer : List ℕ) (brightness rotation : ℕ)
    → All IsByte buffer
    → pack_buffer buffer (build_lut brightness) rotation
      ≡ bytes_of brightness (if rotation == 0 then reverse buffer else buffer)
unfolding pack_buffer
pack_buffer-build_lut buffer brightness rotation h = elim (Bool-cases (rotation == 0)) [
  | inl e ↦ rw e (pack-bytes_of brightness (reverse buffer) (All-reverse_aux buffer [] h tt))
  | inr e ↦ rw e (pack-bytes_of brightness buffer h)
]
