-- ===== src/Tftp/Negotiate/Bounds.antt =====
-- The negotiated values: their ranges, and what the OACK packet tells the client about them.
use booty_call.Prelude.{
  ℕ, ◌≤◌, ◌≡◌, refl, ◌∙◌, Bool, true, false, Option, none, some, List, [], ◌∷◌, ◌++◌, arith, All,
  if◌then◌else◌,
}
use booty_call.Prelude.Bytes.{codes, eq_bytes, eq_bytes_self}
use booty_call.Text.Utf8.{is_utf8}
use booty_call.Text.Decimal.{decimal, parse_uint, parse_uint-decimal}
use booty_call.Tftp.Wire.{Bytes, Pair, parse_oack_packet, make_oack_packet}
use booty_call.Tftp.Wire.RoundTrip.{
  IsText, IsTextPair, decimal-IsText, parse_oack_packet-make, All-append,
}
use booty_call.Tftp.Request.{RrqRequest, max_u64}
use booty_call.Tftp.Negotiate.{negotiate, clamp, pushed}

-- Whatever the client asks for, the block size is 512 to 1432 bytes, the timeout 1 to 10 seconds and
-- the window 1 to 32 blocks.
pub negotiate_bounds :
    (request : RrqRequest) (file_size : ℕ)
    → let n = negotiate request file_size in
      (512 ≤ n.blksize)
      × (n.blksize ≤ 1432)
      × (1 ≤ n.timeout)
      × (n.timeout ≤ 10)
      × (1 ≤ n.windowsize)
      × (n.windowsize ≤ 32)
unfolding negotiate clamp
negotiate_bounds request file_size = ground arith

-- What a client reads under a name in a list of options.
pub read_option : Bytes → List Pair → Option ℕ
read_option name [] = none
read_option name ((k, v) ∷ rest) =
    if eq_bytes k name then parse_uint max_u64 v else read_option name rest

-- What a client reads under a name in an OACK packet.
pub acknowledged : Bytes → Bytes → Option ℕ
unfolding read_option
acknowledged name pkt = elim (parse_oack_packet pkt) [
  | none ↦ none
  | some options ↦ read_option name options
]

-- The value, if the option was asked for.
abbrev pub told : Option ℕ → ℕ → Option ℕ
told none n = none
told (some x) n = some n

skip_pushed :
    (o : Option ℕ) (other name : Bytes) (v : ℕ) (rest : List Pair)
    → eq_bytes other name ≡ false
    → read_option name (pushed o other v ++ rest) ≡ read_option name rest
unfolding read_option
skip_pushed none other name v rest h = refl
skip_pushed (some x) other name v rest h = rw h

hit_pushed :
    (o : Option ℕ) (name : Bytes) (v : ℕ) (rest : List Pair)
    → v ≤ max_u64
    → read_option name rest ≡ none
    → read_option name (pushed o name v ++ rest) ≡ told o v
unfolding read_option
hit_pushed none name v rest fits h = h
hit_pushed (some x) name v rest fits h =
    rw (eq_bytes_self name) (parse_uint-decimal v max_u64 fits (omega arith))

abbrev pushed_size : Bool → ℕ → List Pair
pushed_size b size = if b then (codes "tsize", decimal size) ∷ [] else []

skip_size :
    (b : Bool) (name : Bytes) (size : ℕ) (rest : List Pair)
    → eq_bytes (codes "tsize") name ≡ false
    → read_option name (pushed_size b size ++ rest) ≡ read_option name rest
unfolding read_option
skip_size false name size rest h = refl
skip_size true name size rest h = rw h

pushed-IsText :
    (o : Option ℕ) (name : Bytes) (v : ℕ) → IsText name → All IsTextPair (pushed o name v)
pushed-IsText none name v h = tt
pushed-IsText (some x) name v h = ((h, decimal-IsText v), tt)

pushed_size-IsText : (b : Bool) (size : ℕ) → All IsTextPair (pushed_size b size)
unfolding is_utf8
pushed_size-IsText false size = tt
pushed_size-IsText true size =
    ((record { utf8 = refl; no_nul = omega arith }, decimal-IsText size), tt)

options-IsText : (r : RrqRequest) (size : ℕ) → All IsTextPair (negotiate r size).options
unfolding negotiate is_utf8
options-IsText r size =
    All-append (pushed r.blksize (codes "blksize") _) _
      (pushed-IsText r.blksize (codes "blksize") _ (record { utf8 = refl; no_nul = omega arith }))
      (All-append (pushed r.timeout (codes "timeout") _) _
        (pushed-IsText r.timeout (codes "timeout") _ (record { utf8 = refl; no_nul = omega arith }))
        (All-append (pushed_size r.tsize_requested size) _
          (pushed_size-IsText r.tsize_requested size)
          (pushed-IsText r.windowsize (codes "windowsize") _
            (record { utf8 = refl; no_nul = omega arith }))))

acknowledged-make :
    (options : List Pair) (name : Bytes)
    → All IsTextPair options
    → acknowledged name (make_oack_packet options) ≡ read_option name options
unfolding acknowledged read_option
acknowledged-make options name h = rw (parse_oack_packet-make options h, acknowledged)

miss_last :
    (o : Option ℕ) (other name : Bytes) (v : ℕ)
    → eq_bytes other name ≡ false
    → read_option name (pushed o other v) ≡ none
unfolding read_option
miss_last none other name v h = refl
miss_last (some x) other name v h = rw h

hit_last :
    (o : Option ℕ) (name : Bytes) (v : ℕ)
    → v ≤ max_u64
    → read_option name (pushed o name v) ≡ told o v
unfolding read_option
hit_last none name v fits = refl
hit_last (some x) name v fits =
    rw (eq_bytes_self name) (parse_uint-decimal v max_u64 fits (omega arith))

module _ (r : RrqRequest) (size : ℕ) where
  reads_blksize :
      read_option (codes "blksize") (negotiate r size).options
      ≡ told r.blksize (negotiate r size).blksize
  unfolding negotiate
  reads_blksize = hit_pushed r.blksize _ _ _ (omega (arith, negotiate_bounds r size)) (
      skip_pushed r.timeout _ _ _ _ refl
      ∙ skip_size r.tsize_requested _ _ _ refl
      ∙ miss_last r.windowsize _ _ _ refl)

  reads_timeout :
      read_option (codes "timeout") (negotiate r size).options
      ≡ told r.timeout (negotiate r size).timeout
  unfolding negotiate
  reads_timeout =
      skip_pushed r.blksize _ _ _ _ refl
      ∙ hit_pushed r.timeout _ _ _ (omega (arith, negotiate_bounds r size))
          (skip_size r.tsize_requested _ _ _ refl ∙ miss_last r.windowsize _ _ _ refl)

  reads_windowsize :
      read_option (codes "windowsize") (negotiate r size).options
      ≡ told r.windowsize (negotiate r size).windowsize
  unfolding negotiate
  reads_windowsize =
      skip_pushed r.blksize _ _ _ _ refl
      ∙ skip_pushed r.timeout _ _ _ _ refl
      ∙ skip_size r.tsize_requested _ _ _ refl
      ∙ hit_last r.windowsize _ _ (omega (arith, negotiate_bounds r size))

-- The OACK packet tells the client exactly the block size, timeout and window that the transfer will
-- use, each if and only if the client named that option.
pub oack_tells :
    (r : RrqRequest) (size : ℕ)
    → let n = negotiate r size in
      let oack = make_oack_packet n.options in
      (acknowledged (codes "blksize") oack ≡ told r.blksize n.blksize)
      × (acknowledged (codes "timeout") oack ≡ told r.timeout n.timeout)
      × (acknowledged (codes "windowsize") oack ≡ told r.windowsize n.windowsize)
oack_tells r size =
    let n = negotiate r size in
    (
      acknowledged-make n.options _ (options-IsText r size) ∙ reads_blksize r size,
      acknowledged-make n.options _ (options-IsText r size) ∙ reads_timeout r size,
      acknowledged-make n.options _ (options-IsText r size) ∙ reads_windowsize r size,
    )
