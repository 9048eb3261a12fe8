-- ===== src/Tftp/Negotiate.antt =====
-- crates/bootycall-tftp/src/server.rs: the option negotiation of `handle_tftp_transfer`.
pub mod Bounds
use booty_call.Prelude.{
  ℕ, Bool, true, false, Option, none, some, List, [], ◌∷◌, ◌++◌, ltb, if◌then◌else◌,
}
use booty_call.Prelude.Bytes.{codes}
use booty_call.Text.Decimal.{decimal}
use booty_call.Tftp.Wire.{Bytes, Pair}
use booty_call.Tftp.Request.{RrqRequest}

abbrev pub max_windowsize : ℕ
max_windowsize = 32

abbrev pub default_blksize : ℕ
default_blksize = 512

abbrev pub max_blksize : ℕ
max_blksize = 1432

abbrev pub default_timeout_secs : ℕ
default_timeout_secs = 3

abbrev pub min_timeout_secs : ℕ
min_timeout_secs = 1

abbrev pub max_timeout_secs : ℕ
max_timeout_secs = 10

-- `Ord::clamp`
unfoldable pub clamp : ℕ → ℕ → ℕ → ℕ
clamp lo hi x = if ltb x lo then lo else if ltb hi x then hi else x

-- A value that was asked for is clamped; else the default holds.
abbrev pub settle : ℕ → ℕ → ℕ → Option ℕ → ℕ
settle default lo hi none = default
settle default lo hi (some x) = clamp lo hi x

-- `options.push((name, value))` where the client named the option.
abbrev pub pushed : Option ℕ → Bytes → ℕ → List Pair
pushed none name value = []
pushed (some x) name value = (name, decimal value) ∷ []

pub record Negotiated : Type 0 where
  pub blksize : ℕ
  pub timeout : ℕ
  pub windowsize : ℕ
  pub options : List Pair

unfoldable pub negotiate : RrqRequest → ℕ → Negotiated
negotiate request file_size =
    let blksize = settle default_blksize default_blksize max_blksize request.blksize in
    let timeout = settle default_timeout_secs min_timeout_secs max_timeout_secs request.timeout in
    let windowsize = settle 1 1 max_windowsize request.windowsize in
    record {
      blksize = blksize;
      timeout = timeout;
      windowsize = windowsize;
      options =
          pushed request.blksize (codes "blksize") blksize
          ++ (pushed request.timeout (codes "timeout") timeout
              ++ ((if request.tsize_requested then (codes "tsize", decimal file_size) ∷ [] else [])
                  ++ pushed request.windowsize (codes "windowsize") windowsize));
    }
