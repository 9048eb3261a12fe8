-- ===== src/Oled/Framebuffer.antt =====
-- crates/bootycall-oled/src/framebuffer.rs: the back buffer, its packing, and the device file.
pub mod Pixels
pub mod Packed
pub mod Device
use booty_call.Prelude.{
  ℕ, zero, suc, ◌+◌, ◌-◌, ◌*◌, ◌/◌, ◌%◌, ◌^◌, Bool, true, false, not, ◌&&◌, Option, none, some,
  List, [], ◌∷◌, ◌++◌, reverse, ltb, ◌==◌, if◌then◌else◌, get_elem?, set, replicate,
}
use booty_call.Text.Trim.{trim}
use booty_call.Text.Decimal.{parse_uint}

abbrev pub width : ℕ
width = 160

abbrev pub height : ℕ
height = 60

pub record FbGeometry : Type 0 where
  pub xres : ℕ
  pub yres : ℕ
  pub bits_per_pixel : ℕ

-- `split_once(',')`
abbrev pub split_comma : List ℕ → Option (List ℕ × List ℕ)
split_comma [] = none
split_comma (b ∷ bs) =
    if b == b','
    then some ([], bs)
    else elim (split_comma bs) [ none ↦ none | some (before, after) ↦ some (b ∷ before, after) ]

-- `parse::<u32>()` of a trimmed text.
abbrev pub parse_u32 : List ℕ → Option ℕ
parse_u32 s = parse_uint (2 ^ 32 - 1) (trim s)

abbrev pub geometry : Option ℕ → Option ℕ → Option ℕ → Option FbGeometry
geometry (some x) (some y) (some bits) = some (record { xres = x; yres = y; bits_per_pixel = bits })
geometry (some x) (some y) none = none
geometry (some x) none bits = none
geometry none y bits = none

unfoldable pub parse_fb_geometry : List ℕ → List ℕ → Option FbGeometry
parse_fb_geometry virtual_size bits_per_pixel = elim (split_comma (trim virtual_size)) [
  | none ↦ none
  | some (x, y) ↦ geometry (parse_u32 x) (parse_u32 y) (parse_u32 bits_per_pixel)
]

-- An entry of the table: the intensity scaled by the brightness, as RGB565 with its bytes swapped. The three
-- fields do not overlap, so `|` is a sum.
abbrev pub rgb565 : ℕ → ℕ → ℕ
rgb565 brightness g =
    let scaled = g * brightness / 255 in
    scaled / 8 % 32 * 2048 + scaled / 4 % 64 * 32 + scaled / 8 % 32

unfoldable pub lut_entry : ℕ → ℕ → ℕ
lut_entry brightness g = let val = rgb565 brightness g in val % 256 * 256 + val / 256 % 256

-- The entries of `count` grey levels from `g` on.
unfoldable pub lut_from : ℕ → ℕ → ℕ → List ℕ
lut_from brightness zero g = []
lut_from brightness (suc count) g = lut_entry brightness g ∷ lut_from brightness count (g + 1)

unfoldable pub build_lut : ℕ → List ℕ
build_lut brightness = lut_from brightness 256 0

-- `lut[gray as usize]`; a grey level is a byte, and the table has 256 entries.
abbrev pub at_level : Option ℕ → ℕ
at_level none = 0
at_level (some v) = v

abbrev pub pack : List ℕ → List ℕ → List ℕ
pack lut [] = []
pack lut (gray ∷ buffer) =
    let v = at_level (get_elem? lut gray) in v % 256 ∷ v / 256 ∷ pack lut buffer

unfoldable pub pack_buffer : List ℕ → List ℕ → ℕ → List ℕ
pack_buffer buffer lut rotation =
    if rotation == 0 then pack lut (reverse buffer) else pack lut buffer

-- `file` says whether a descriptor is held.
pub record Framebuffer : Type 0 where
  pub buffer : List ℕ
  pub lut : List ℕ
  pub brightness : ℕ
  pub file : Bool
  pub rotation : ℕ

-- `opens` says whether the device file can be opened.
unfoldable pub with_brightness : Bool → ℕ → Framebuffer
with_brightness opens brightness = record {
  buffer = replicate (width * height) 0;
  lut = build_lut brightness;
  brightness = brightness;
  file = opens;
  rotation = 180;
}

unfoldable pub set_brightness : ℕ → Framebuffer → Framebuffer
set_brightness brightness fb =
    if brightness == fb.brightness
    then fb
    else record fb { brightness = brightness; lut = build_lut brightness }

unfoldable pub clear : Framebuffer → Framebuffer
clear fb = record fb { buffer = replicate (width * height) 0 }

unfoldable pub set_pixel : ℕ → ℕ → ℕ → Framebuffer → Framebuffer
set_pixel x y color fb =
    if ltb x width && ltb y height
    then record fb { buffer = set fb.buffer (y * width + x) color }
    else fb

-- A descriptor that is held is kept.
abbrev pub opened : Bool → Bool → Framebuffer → Framebuffer
opened true opens fb = fb
opened false opens fb = record fb { file = opens }

unfoldable pub ensure_open : Bool → Framebuffer → Framebuffer
ensure_open opens fb = opened fb.file opens fb

-- `Ok(true)`, `Ok(false)` and `Err`.
pub data WriteResult : Type 0 where
  shown : (packed : List ℕ) → WriteResult
  no_device write_failed : WriteResult

-- A result with the frame buffer it leaves.
pub record Written : Type 0 where
  pub result : WriteResult
  pub fb : Framebuffer

-- Whether a descriptor is held, and whether seeking and writing succeed.
abbrev pub write_held : Bool → Bool → Framebuffer → Written
write_held false writes fb = record { result = no_device; fb = fb }
write_held true true fb = record {
  result = shown (pack_buffer fb.buffer fb.lut fb.rotation);
  fb = fb;
}
write_held true false fb = record { result = write_failed; fb = record fb { file = false } }

unfoldable pub write_packed : Bool → Framebuffer → Written
write_packed writes fb = write_held fb.file writes fb

unfoldable pub flush : Bool → Bool → Framebuffer → Written
flush opens writes fb = write_packed writes (ensure_open opens fb)
