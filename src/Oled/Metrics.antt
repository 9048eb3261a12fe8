-- ===== src/Oled/Metrics.antt =====
-- crates/bootycall-oled/src/metrics.rs: the texts of the metrics pages that are made of whole numbers, and the count of
-- sessions. The crate sysinfo yields the numbers, the disks and the processes.
use booty_call.Prelude.{
  ℕ, suc, ◌+◌, ◌-◌, ◌*◌, ◌/◌, ◌%◌, ◌^◌, ◌<◌, ◌≡◌, refl, inl, inr, Bool, true, false, ◌&&◌, ◌||◌,
  List, [], ◌∷◌, ◌++◌, ◌==◌, if◌then◌else◌, Bool-cases, arith, ◌↔◌, ◌⊎◌,
}
use booty_call.Prelude.Bytes.{codes, eq_bytes}
use booty_call.Text.Decimal.{decimal}
use booty_call.Extractor.Sync.{contains}

abbrev pub uptime_days : ℕ → ℕ
uptime_days secs = secs / 86_400

abbrev pub uptime_hours : ℕ → ℕ
uptime_hours secs = secs % 86_400 / 3_600

abbrev pub uptime_mins : ℕ → ℕ
uptime_mins secs = secs % 3_600 / 60

unfoldable pub format_uptime : ℕ → List ℕ
format_uptime secs =
    decimal (uptime_days secs)
    ++ (codes "d "
        ++ (decimal (uptime_hours secs)
            ++ (codes "h " ++ (decimal (uptime_mins secs) ++ codes "m"))))

-- The three numbers of an uptime lose only the seconds of the minute.
pub uptime_exact :
    (secs : ℕ)
    → uptime_days secs * 86_400 + uptime_hours secs * 3_600 + uptime_mins secs * 60 + secs % 60
      ≡ secs
uptime_exact secs = omega arith

-- `gib` is `{:.1}` of a number of bytes over 1024³.
module _ (gib : ℕ → List ℕ) where
  unfoldable pub format_bytes_pair : ℕ → ℕ → List ℕ
  format_bytes_pair used total =
      if total == 0 then codes "N/A" else gib used ++ (codes "G / " ++ (gib total ++ codes "G"))

  unfoldable pub get_ram_usage : ℕ → ℕ → List ℕ
  get_ram_usage used_memory total_memory = format_bytes_pair used_memory total_memory

-- A disk of the list.
pub record Disk : Type 0 where
  pub mount_point : List ℕ
  pub total_space : ℕ
  pub available_space : ℕ

-- The used and the total bytes of the disk at `/`; the subtraction of `u64` wraps in a release build.
abbrev pub root_space : List Disk → ℕ × ℕ
root_space [] = (0, 0)
root_space (d ∷ ds) =
    if eq_bytes d.mount_point (codes "/")
    then ((d.total_space + 2 ^ 64 - d.available_space) % 2 ^ 64, d.total_space)
    else root_space ds

module _ (gib : ℕ → List ℕ) where
  unfoldable pub get_disk_usage : List Disk → List ℕ
  get_disk_usage disks = let (used, total) = root_space disks in format_bytes_pair gib used total

pub record Process : Type 0 where
  pub name : List ℕ
  pub cmd : List (List ℕ)

abbrev pub any_pts : List (List ℕ) → Bool
any_pts [] = false
any_pts (c ∷ cs) = contains c (codes "@pts") || any_pts cs

unfoldable pub is_interactive_sshd : Process → Bool
is_interactive_sshd p = eq_bytes p.name (codes "sshd") && any_pts p.cmd

unfoldable pub active_ssh_sessions : List Process → ℕ
active_ssh_sessions [] = 0
active_ssh_sessions (p ∷ ps) =
    if is_interactive_sshd p then suc (active_ssh_sessions ps) else active_ssh_sessions ps

abbrev pub SomeInteractive : List Process → Type 0
SomeInteractive [] = ⊥
SomeInteractive (p ∷ ps) = (is_interactive_sshd p ≡ true) ⊎ SomeInteractive ps

-- The count keeps the panel awake exactly if a process is an interactive session.
pub active_ssh_sessions_iff :
    (ps : List Process) → (0 < active_ssh_sessions ps) ↔ SomeInteractive ps
unfolding active_ssh_sessions
active_ssh_sessions_iff [] = (λ h. omega (arith, h), λ h. absurd h)
active_ssh_sessions_iff (p ∷ ps) = elim (Bool-cases (is_interactive_sshd p)) [
  | inl counted ↦ rw counted (λ h. inl refl, λ h. omega arith)
  | inr other ↦ rw other (by_rest (active_ssh_sessions_iff ps))
]
  where
    by_rest : {A : Type 0} {B : Type 0} → A ↔ B → A ↔ ((false ≡ true) ⊎ B)
    by_rest h = (λ a. inr (h.0 a), λ b. elim b [ inl e ↦ cc | inr x ↦ h.1 x ])
