-- ===== src/Oled/Framebuffer/Device.antt =====
-- crates/bootycall-oled/src/framebuffer.rs: the device file over many frames.
use booty_call.Prelude.{◌≡◌, refl, sym, Bool, true, false}
use mathlib.Core.Path.{subst}
use booty_call.Oled.Framebuffer.{
  Framebuffer, pack_buffer, WriteResult, shown, no_device, write_failed, ensure_open, opened,
  write_held, write_packed, flush,
}

-- What a frame does by what it says: it shows the buffer and keeps the descriptor, or there is no descriptor,
-- before and after, or the descriptor is dropped.
abbrev pub IsFlushed : Bool → Bool → Framebuffer → WriteResult → Framebuffer → Type 0
IsFlushed opens writes fb (shown packed) after =
    (packed ≡ pack_buffer fb.buffer fb.lut fb.rotation) × (writes ≡ true) × (after.file ≡ true)
IsFlushed opens writes fb no_device after =
    (fb.file ≡ false) × (opens ≡ false) × (after.file ≡ false)
IsFlushed opens writes fb write_failed after = (writes ≡ false) × (after.file ≡ false)

held :
    (opens writes : Bool) (fb : Framebuffer)
    → fb.file ≡ true
    → IsFlushed opens writes fb (write_held true writes fb).result (write_held true writes fb).fb
held opens true fb e = (refl, refl, e)
held opens false fb e = (refl, refl)

acquired :
    (opens writes : Bool) (fb : Framebuffer)
    → fb.file ≡ false
    → IsFlushed opens writes fb
        (write_held opens writes (record fb { file = opens })).result
        (write_held opens writes (record fb { file = opens })).fb
acquired true true fb e = (refl, refl, refl)
acquired true false fb e = (refl, refl)
acquired false writes fb e = (e, refl, refl)

by_file :
    (opens writes : Bool) (fb : Framebuffer) (file : Bool)
    → fb.file ≡ file
    → IsFlushed opens writes fb
        (write_packed writes (opened file opens fb)).result
        (write_packed writes (opened file opens fb)).fb
unfolding write_packed
by_file opens writes fb true e =
    subst
      (λ h. IsFlushed opens writes fb (write_held h writes fb).result (write_held h writes fb).fb)
      (sym e) (held opens writes fb e)
by_file opens writes fb false e = acquired opens writes fb e

-- A flush shows exactly the packed buffer when a descriptor is held or can be had and the write succeeds. It
-- says that there is no device only when none is held and none can be opened. After a write that
-- failed no descriptor is held, so that the next flush opens the device again.
pub flush-IsFlushed :
    (opens writes : Bool) (fb : Framebuffer)
    → IsFlushed opens writes fb (flush opens writes fb).result (flush opens writes fb).fb
unfolding flush ensure_open
flush-IsFlushed opens writes fb = by_file opens writes fb fb.file refl
