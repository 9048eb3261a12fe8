-- ===== src/Core/Config.antt =====
-- crates/bootycall-core/src/config.rs: what a configuration must satisfy to be loaded, and hosts by MAC.
pub mod Unique
pub mod Watch
use booty_call.Prelude.{
  ℕ, Bool, true, false, not, ◌||◌, Option, none, some, List, [], ◌∷◌, ◌==◌, if◌then◌else◌,
}
use booty_call.Prelude.Bytes.{codes, eq_bytes}
use booty_call.Text.Trim.{trim}
use booty_call.Core.Mac.{normalize_mac, is_valid_mac}

pub record ServerConfig : Type 0 where
  pub http_bind : List ℕ
  pub tftp_bind : List ℕ
  pub tftp_root : List ℕ
  pub proxy_dhcp_bind : List ℕ
  pub cache_dir : List ℕ
  pub static_dir : List ℕ
  pub default_bootloader_amd64 : List ℕ
  pub default_bootloader_arm64 : List ℕ
  pub default_bootloader_bios : List ℕ
  pub oled_enabled : Bool
  pub oled_brightness : ℕ
  pub api_token : Option (List ℕ)
  pub max_artifact_bytes : Option ℕ

pub record HostConfig : Type 0 where
  pub mac : List ℕ
  pub name : List ℕ
  pub image_path : List ℕ
  pub bootloader : Option (List ℕ)
  pub kernel_path : Option (List ℕ)
  pub initrd_path : Option (List ℕ)
  pub cmdline : Option (List ℕ)

pub record Config : Type 0 where
  pub server : ServerConfig
  pub hosts : List HostConfig

-- `CoreError::InvalidConfig`, by what its message names.
pub data Invalid : Type 0 where
  bad_bind : (field : List ℕ) → Invalid
  blank_bootloader : (field : List ℕ) → Invalid
  empty_api_token : Invalid
  zero_max_artifact_bytes : Invalid
  bad_mac : (name mac : List ℕ) → Invalid
  duplicate_mac : (mac : List ℕ) → Invalid
  blank_name : Invalid
  duplicate_name : (name : List ℕ) → Invalid

abbrev pub is_nil : List ℕ → Bool
is_nil [] = true
is_nil (b ∷ bs) = false

-- `value.trim().is_empty()`
abbrev pub is_blank : List ℕ → Bool
is_blank s = is_nil (trim s)

-- `!seen.insert(x)` looks for it among what was seen.
unfoldable pub seen : List ℕ → List (List ℕ) → Bool
seen x [] = false
seen x (y ∷ ys) = eq_bytes x y || seen x ys

-- The error of the first check that fails, if any.
abbrev pub or_else {ℓ} : {A : Type ℓ} → Option A → Option A → Option A
or_else (some e) more = some e
or_else none more = more

abbrev pub fails_if : Bool → Invalid → Option Invalid
fails_if true e = some e
fails_if false e = none

abbrev pub is_empty_token : Option (List ℕ) → Bool
is_empty_token none = false
is_empty_token (some token) = is_nil token

abbrev pub is_zero_limit : Option ℕ → Bool
is_zero_limit none = false
is_zero_limit (some n) = n == 0

-- The checks of one host, given the MACs and the names of the hosts before it.
abbrev pub check_host : HostConfig → List (List ℕ) → List (List ℕ) → Option Invalid
check_host h seen_macs seen_names =
    or_else (fails_if (not (is_valid_mac h.mac)) (bad_mac h.name h.mac)) (
      or_else (fails_if (seen h.mac seen_macs) (duplicate_mac h.mac)) (
        or_else (fails_if (is_blank h.name) blank_name)
          (fails_if (seen h.name seen_names) (duplicate_name h.name))))

unfoldable pub check_hosts : List HostConfig → List (List ℕ) → List (List ℕ) → Option Invalid
check_hosts [] seen_macs seen_names = none
check_hosts (h ∷ hs) seen_macs seen_names =
    or_else (check_host h seen_macs seen_names)
      (check_hosts hs (h.mac ∷ seen_macs) (h.name ∷ seen_names))

-- `is_addr` is `str::parse::<SocketAddr>` of the standard library.
module _ (is_addr : List ℕ → Bool) where
  unfoldable pub check_server : ServerConfig → Option Invalid
  check_server s = or_else (fails_if (not (is_addr s.http_bind)) (bad_bind (codes "http_bind"))) (
      or_else (fails_if (not (is_addr s.tftp_bind)) (bad_bind (codes "tftp_bind"))) (
        or_else (fails_if (not (is_addr s.proxy_dhcp_bind)) (bad_bind (codes "proxy_dhcp_bind"))) (
          or_else
            (fails_if (is_blank s.default_bootloader_amd64)
              (blank_bootloader (codes "default_bootloader_amd64")))
            (or_else
              (fails_if (is_blank s.default_bootloader_arm64)
                (blank_bootloader (codes "default_bootloader_arm64")))
              (or_else
                (fails_if (is_blank s.default_bootloader_bios)
                  (blank_bootloader (codes "default_bootloader_bios")))
                (or_else (fails_if (is_empty_token s.api_token) empty_api_token)
                  (fails_if (is_zero_limit s.max_artifact_bytes) zero_max_artifact_bytes)))))))

  -- `Ok(())` is `none`.
  unfoldable pub validate : Config → Option Invalid
  validate c = or_else (check_server c.server) (check_hosts c.hosts [] [])

abbrev pub normalize_host : HostConfig → HostConfig
normalize_host h = record h { mac = normalize_mac h.mac }

unfoldable pub normalize_hosts : List HostConfig → List HostConfig
normalize_hosts [] = []
normalize_hosts (h ∷ hs) = normalize_host h ∷ normalize_hosts hs

pub data Loaded : Type 0 where
  rejected : Invalid → Loaded
  loaded : Config → Loaded

abbrev pub if_valid : Option Invalid → Config → Loaded
if_valid none c = loaded c
if_valid (some e) c = rejected e

-- `Config::load`, of what `serde_yaml` has read.
unfoldable pub load : (List ℕ → Bool) → Config → Loaded
load is_addr parsed =
    let config = record parsed { hosts = normalize_hosts parsed.hosts } in
    if_valid (validate is_addr config) config

-- `self.hosts.iter().find(|h| h.mac == normalized)`
unfoldable pub find_mac : List ℕ → List HostConfig → Option HostConfig
find_mac normalized [] = none
find_mac normalized (h ∷ hs) = if eq_bytes h.mac normalized then some h else find_mac normalized hs

unfoldable pub find_host : List ℕ → Config → Option HostConfig
find_host mac c = find_mac (normalize_mac mac) c.hosts
