-- ===== src/Tftp/Request/RoundTrip.antt =====
-- `parse_rrq` on what a client sends.
use booty_call.Prelude.{
  ℕ, ◌≤◌, ◌≡◌, refl, Bool, true, false, ◌||◌, ◌∙◌, ap, Option, none, some, List, [], ◌∷◌, ◌++◌,
  arith, All, ◌≢◌, length, length-append, ltb,
}
use booty_call.Prelude.Bytes.{codes}
use booty_call.Text.Utf8.{is_utf8, from_utf8}
use booty_call.Text.Decimal.{decimal, parse_uint-decimal}
use booty_call.Tftp.Wire.{Bytes, Pair, opcode, make_rrq_packet, push_options, split_nul}
use booty_call.Tftp.Wire.RoundTrip.{
  IsText, IsTextPair, All-append, decimal-IsText, split_nul-append,
}
use booty_call.Tftp.Request.{
  RrqRequest, set_option, to_lowercase, option_loop, request_of, parse_rrq, bare, or_keep, max_u64,
  max_u16,
}

-- The options applied one after another.
abbrev pub set_all : List Pair → RrqRequest → RrqRequest
set_all [] r = r
set_all ((k, v) ∷ rest) r = set_all rest (set_option (to_lowercase k) v r)

from_utf8_text : (s : Bytes) → is_utf8 s ≡ true → from_utf8 s ≡ some s
from_utf8_text s h = unfold from_utf8 in rw h

long_enough : (f m rest : Bytes) → ltb (length (0 ∷ 1 ∷ (f ++ (0 ∷ (m ++ (0 ∷ rest)))))) 4 ≡ false
long_enough f m rest =
    ground (arith, length-append f (0 ∷ (m ++ (0 ∷ rest))), length-append m (0 ∷ rest))

option_loop_step :
    (k v : Bytes) (rest : List Bytes) (r : RrqRequest)
    → IsText k
    → IsText v
    → option_loop (k ∷ v ∷ rest) r ≡ option_loop rest (set_option (to_lowercase k) v r)
unfolding option_loop
option_loop_step k v rest r hk hv = rw (from_utf8_text k hk.utf8, from_utf8_text v hv.utf8)

option_loop-push_options :
    (options : List Pair) (r : RrqRequest)
    → All IsTextPair options
    → option_loop (split_nul [] (push_options options)) r ≡ some (set_all options r)
option_loop-push_options [] r h = unfold split_nul option_loop in refl
option_loop-push_options ((k, v) ∷ rest) r h =
    rw
      (
        split_nul-append [] k (v ++ (0 ∷ push_options rest)) h.0.0.no_nul,
        split_nul-append [] v (push_options rest) h.0.1.no_nul,
      )
      (option_loop_step k v _ r h.0.0 h.0.1
        ∙ option_loop-push_options rest (set_option (to_lowercase k) v r) h.1)

-- On an RRQ packet of well-formed texts the parser returns its file name, its mode, and the options
-- applied in order.
pub parse_rrq-make :
    (filename mode : Bytes) (options : List Pair)
    → IsText filename
    → IsText mode
    → All IsTextPair options
    → parse_rrq (make_rrq_packet filename mode options)
      ≡ some (set_all options (bare filename mode))
parse_rrq-make filename mode options hf hm ho =
    unfold parse_rrq make_rrq_packet opcode in
    rw (long_enough filename mode (push_options options)) (
      rw
        (
          split_nul-append [] filename (mode ++ (0 ∷ push_options options)) hf.no_nul,
          split_nul-append [] mode (push_options options) hm.no_nul,
        )
        (unfold request_of in
          rw (from_utf8_text filename hf.utf8, from_utf8_text mode hm.utf8)
            (option_loop-push_options options (bare filename mode) ho)))

-- The options a client can ask for.
pub record Asked : Type 0 where
  pub blksize : Option ℕ
  pub timeout : Option ℕ
  pub tsize : Bool
  pub windowsize : Option ℕ

abbrev pub ask : Bytes → Option ℕ → List Pair
ask name none = []
ask name (some n) = (name, decimal n) ∷ []

abbrev pub ask_size : Bool → List Pair
ask_size false = []
ask_size true = (codes "tsize", codes "0") ∷ []

abbrev pub asked_options : Asked → List Pair
asked_options a =
    ask (codes "blksize") a.blksize
    ++ (ask (codes "timeout") a.timeout
        ++ (ask_size a.tsize ++ ask (codes "windowsize") a.windowsize))

abbrev pub AtMost : ℕ → Option ℕ → Type 0
AtMost top none = Unit
AtMost top (some n) = n ≤ top

pub record IsAskable (a : Asked) : Type 0 where
  pub blksize : AtMost max_u64 a.blksize
  pub timeout : AtMost max_u64 a.timeout
  pub windowsize : AtMost max_u16 a.windowsize

set_all-append :
    (xs ys : List Pair) (r : RrqRequest) → set_all (xs ++ ys) r ≡ set_all ys (set_all xs r)
set_all-append [] ys r = refl
set_all-append ((k, v) ∷ xs) ys r = set_all-append xs ys (set_option (to_lowercase k) v r)

set_blksize :
    (o : Option ℕ) (r : RrqRequest)
    → AtMost max_u64 o
    → set_all (ask (codes "blksize") o) r ≡ record r { blksize = or_keep o r.blksize }
set_blksize none r h = refl
set_blksize (some n) r h =
    unfold set_option to_lowercase in rw (parse_uint-decimal n max_u64 h (omega arith))

set_timeout :
    (o : Option ℕ) (r : RrqRequest)
    → AtMost max_u64 o
    → set_all (ask (codes "timeout") o) r ≡ record r { timeout = or_keep o r.timeout }
set_timeout none r h = refl
set_timeout (some n) r h =
    unfold set_option to_lowercase in rw (parse_uint-decimal n max_u64 h (omega arith))

set_windowsize :
    (o : Option ℕ) (r : RrqRequest)
    → AtMost max_u16 o
    → set_all (ask (codes "windowsize") o) r ≡ record r { windowsize = or_keep o r.windowsize }
set_windowsize none r h = refl
set_windowsize (some n) r h =
    unfold set_option to_lowercase in rw (parse_uint-decimal n max_u16 h (omega arith))

set_size :
    (b : Bool) (r : RrqRequest)
    → set_all (ask_size b) r ≡ record r { tsize_requested = b || r.tsize_requested }
set_size false r = refl
set_size true r = unfold set_option to_lowercase in refl

or_keep-none : (o : Option ℕ) → or_keep o none ≡ o
or_keep-none none = refl
or_keep-none (some n) = refl

or_false : (b : Bool) → (b || false) ≡ b
or_false true = refl
or_false false = refl

pub asked_request : Bytes → Bytes → Asked → RrqRequest
asked_request filename mode a = record {
  filename = filename;
  mode = mode;
  blksize = a.blksize;
  timeout = a.timeout;
  tsize_requested = a.tsize;
  windowsize = a.windowsize;
}

set_all-asked :
    (filename mode : Bytes) (a : Asked)
    → IsAskable a
    → set_all (asked_options a) (bare filename mode) ≡ asked_request filename mode a
unfolding asked_request
set_all-asked filename mode a h =
    rw
      (
        set_all-append,
        set_all-append,
        set_all-append,
        set_blksize a.blksize (bare filename mode) h.blksize,
      )
      (rw (set_timeout a.timeout _ h.timeout) (
        rw set_size (
          rw (set_windowsize a.windowsize _ h.windowsize) (
            simp or_keep-none (
              ap (λ t. record (asked_request filename mode a) { tsize_requested = t })
                (or_false a.tsize))))))

name : (s : Bytes) → is_utf8 s ≡ true → All (λ b. b ≢ 0) s → IsText s
name s u z = record { utf8 = u; no_nul = z }

ask-IsText : (s : Bytes) (o : Option ℕ) → IsText s → All IsTextPair (ask s o)
ask-IsText s none h = tt
ask-IsText s (some n) h = ((h, decimal-IsText n), tt)

ask_size-IsText : (b : Bool) → All IsTextPair (ask_size b)
unfolding is_utf8
ask_size-IsText false = tt
ask_size-IsText true =
    ((name (codes "tsize") refl (omega arith), name (codes "0") refl (omega arith)), tt)

asked_options-IsText : (a : Asked) → All IsTextPair (asked_options a)
unfolding is_utf8
asked_options-IsText a =
    All-append (ask (codes "blksize") a.blksize) _
      (ask-IsText (codes "blksize") a.blksize (name _ refl (omega arith)))
      (All-append (ask (codes "timeout") a.timeout) _
        (ask-IsText (codes "timeout") a.timeout (name _ refl (omega arith)))
        (All-append (ask_size a.tsize) _ (ask_size-IsText a.tsize)
          (ask-IsText (codes "windowsize") a.windowsize (name _ refl (omega arith)))))

-- A request that a client writes with the options in decimal is read back with exactly those values,
-- for every block size and timeout of 64 bits and every window of 16 bits.
pub parse_rrq-asked :
    (filename mode : Bytes) (a : Asked)
    → IsText filename
    → IsText mode
    → IsAskable a
    → parse_rrq (make_rrq_packet filename mode (asked_options a))
      ≡ some (asked_request filename mode a)
parse_rrq-asked filename mode a hf hm h =
    parse_rrq-make filename mode (asked_options a) hf hm (asked_options-IsText a)
    ∙ ap (λ r. some r) (set_all-asked filename mode a h)
