-- ===== src/Dhcp/Handler/Bootfile.antt =====
-- crates/bootycall-dhcp/src/server.rs: the bootloader that a client is sent to.
use booty_call.Prelude.{ℕ, ◌≡◌, inl, inr, Bool, false, Option, none, some, List, ◌==◌, Bool-cases}
use mathlib.Core.Path.{subst}
use booty_call.Core.Config.{Config, is_blank, load, loaded, find_host}
use booty_call.Core.Config.Unique.{IsServable, IsLoaded, load-IsLoaded}
use booty_call.Dhcp.Pxe.{Message, MessageType}
use booty_call.Dhcp.Handler.{
  Env, Packet, override_of, select_default_bootloader, arch_arm64, arch_bios_x86, reply_to,
  make_reply,
}

default_named :
    (is_addr : List ℕ → Bool) (c : Config) (arch : Option ℕ)
    → IsServable is_addr c
    → is_blank (select_default_bootloader c.server arch) ≡ false
unfolding select_default_bootloader
default_named is_addr c none h = h.amd64
default_named is_addr c (some a) h = elim (Bool-cases (a == arch_arm64)) [
  | inl arm ↦ rw arm h.arm64
  | inr e ↦ elim (Bool-cases (a == arch_bios_x86)) [
    | inl bios ↦ rw (e, bios) h.bios
    | inr f ↦ rw (e, f) h.amd64
  ]
]

-- Under a configuration that was loaded, the reply to a host without a bootloader of its own names a
-- bootloader that is not blank, whatever architecture the client reports.
pub reply_to-bootfile :
    (env : Env) (is_addr : List ℕ → Bool) (parsed : Config) (p : Packet) (m : Message)
    (kind : MessageType) (mac : List ℕ)
    → load is_addr parsed ≡ loaded p.config
    → override_of (find_host mac p.config) ≡ none
    → is_blank (reply_to env p m kind mac).bootfile_name ≡ false
unfolding reply_to make_reply
reply_to-bootfile env is_addr parsed p m kind mac l plain =
    let valid = subst (IsLoaded is_addr) l (load-IsLoaded is_addr parsed) in
    rw plain (default_named is_addr p.config m.architecture valid.0)
