-- ===== src/Core/Config/Unique.antt =====
-- crates/bootycall-core/src/config.rs: what a loaded configuration guarantees.
use booty_call.Prelude.{
  ℕ, ◌≡◌, ◌≢◌, ◌⊎◌, inl, inr, refl, sym, ap, ◌∙◌, Bool, true, false, not, Option, none, some, List,
  [], ◌∷◌, Bool-cases, arith, All,
}
use mathlib.Core.Path.{subst}
use booty_call.Prelude.Bytes.{eq_bytes, eq_bytes_iff, eq_bytes_self}
use booty_call.Core.Mac.{normalize_mac, is_valid_mac}
use booty_call.Core.Config.{
  HostConfig, Config, Invalid, empty_api_token, zero_max_artifact_bytes, is_empty_token,
  is_zero_limit, is_blank, seen, or_else, fails_if, check_host, check_hosts, check_server, validate,
  Loaded, rejected, loaded, load, if_valid, find_mac, find_host,
}

-- The host stands in the list.
abbrev pub Listed : HostConfig → List HostConfig → Type 0
Listed h [] = ⊥
Listed h (x ∷ xs) = (x ≡ h) ⊎ Listed h xs

-- Each two hosts of the list differ in what `f` reads of them.
abbrev pub Apart : (HostConfig → List ℕ) → List HostConfig → Type 0
Apart f [] = Unit
Apart f (h ∷ hs) = All (λ g. f h ≢ f g) hs × Apart f hs

-- What `check_hosts` asks of a list of hosts, after those whose MACs and names were seen.
pub record IsAcceptable (macs names : List (List ℕ)) (hs : List HostConfig) : Type 0 where
  pub valid : All (λ h. is_valid_mac h.mac ≡ true) hs
  pub named : All (λ h. is_blank h.name ≡ false) hs
  pub new_macs : All (λ h. seen h.mac macs ≡ false) hs
  pub new_names : All (λ h. seen h.name names ≡ false) hs
  pub macs_apart : Apart (λ h. h.mac) hs
  pub names_apart : Apart (λ h. h.name) hs

or_else-none {ℓ} :
    {A : Type ℓ} (o more : Option A) → or_else o more ≡ none → (o ≡ none) × (more ≡ none)
or_else-none none more h = (refl, h)
or_else-none (some a) more h = cc

fails_if-none : (b : Bool) (e : Invalid) → fails_if b e ≡ none → b ≡ false
fails_if-none true e h = cc
fails_if-none false e h = refl

check_host-none :
    (h : HostConfig) (macs names : List (List ℕ))
    → check_host h macs names ≡ none
    → (is_valid_mac h.mac ≡ true)
      × (seen h.mac macs ≡ false)
      × (is_blank h.name ≡ false)
      × (seen h.name names ≡ false)
check_host-none h macs names e =
    let (a, e1) = or_else-none _ _ e in
    let (b, e2) = or_else-none _ _ e1 in
    let (c, d) = or_else-none _ _ e2 in
    (
      ground (arith, fails_if-none _ _ a),
      fails_if-none _ _ b,
      fails_if-none _ _ c,
      fails_if-none _ _ d,
    )

not_seen :
    (f : HostConfig → List ℕ) (x : List ℕ) (xs : List (List ℕ)) (hs : List HostConfig)
    → All (λ h. seen (f h) (x ∷ xs) ≡ false) hs
    → All (λ h. x ≢ f h) hs × All (λ h. seen (f h) xs ≡ false) hs
unfolding seen
not_seen f x xs [] a = (tt, tt)
not_seen f x xs (h ∷ hs) a =
    let (apart, rest) = not_seen f x xs hs a.1 in
    let later : (x ≢ f h) × (seen (f h) xs ≡ false) = elim (Bool-cases (eq_bytes (f h) x)) [
      | inl same ↦ absurd (ground (arith, same, a.0))
      | inr other ↦
          (λ e. ground (arith, other, eq_bytes_iff (f h) x, sym e), ground (arith, other, a.0))
    ] in
    ((later.0, apart), (later.1, rest))

check_hosts-IsAcceptable :
    (hs : List HostConfig) (macs names : List (List ℕ))
    → check_hosts hs macs names ≡ none
    → IsAcceptable macs names hs
unfolding check_hosts
check_hosts-IsAcceptable [] macs names e = record {
  valid = tt;
  named = tt;
  new_macs = tt;
  new_names = tt;
  macs_apart = tt;
  names_apart = tt;
}
check_hosts-IsAcceptable (h ∷ hs) macs names e =
    let (first, more) = or_else-none _ _ e in
    let (valid, new_mac, named, new_name) = check_host-none h macs names first in
    let rest = check_hosts-IsAcceptable hs (h.mac ∷ macs) (h.name ∷ names) more in
    let (macs_apart, new_macs) = not_seen (λ g. g.mac) h.mac macs hs rest.new_macs in
    let (names_apart, new_names) = not_seen (λ g. g.name) h.name names hs rest.new_names in
    record {
      valid = (valid, rest.valid);
      named = (named, rest.named);
      new_macs = (new_mac, new_macs);
      new_names = (new_name, new_names);
      macs_apart = (macs_apart, rest.macs_apart);
      names_apart = (names_apart, rest.names_apart);
    }

-- What `validate` asks of the server's part.
pub record IsServable (is_addr : List ℕ → Bool) (c : Config) : Type 0 where
  pub http : is_addr c.server.http_bind ≡ true
  pub tftp : is_addr c.server.tftp_bind ≡ true
  pub dhcp : is_addr c.server.proxy_dhcp_bind ≡ true
  pub amd64 : is_blank c.server.default_bootloader_amd64 ≡ false
  pub arm64 : is_blank c.server.default_bootloader_arm64 ≡ false
  pub bios : is_blank c.server.default_bootloader_bios ≡ false
  pub token : c.server.api_token ≢ some []
  pub limit : c.server.max_artifact_bytes ≢ some 0

passes : (b : Bool) (e : Invalid) → fails_if (not b) e ≡ none → b ≡ true
passes true e h = refl
passes false e h = cc

token_given :
    (t : Option (List ℕ)) → fails_if (is_empty_token t) empty_api_token ≡ none → t ≢ some []
token_given none h q = cc
token_given (some []) h q = cc
token_given (some (b ∷ bs)) h q = cc

limit_positive :
    (n : Option ℕ) → fails_if (is_zero_limit n) zero_max_artifact_bytes ≡ none → n ≢ some 0
limit_positive none h q = cc
limit_positive (some n) h q = ground (arith, fails_if-none _ _ h, q)

check_server-IsServable :
    (is_addr : List ℕ → Bool) (c : Config)
    → check_server is_addr c.server ≡ none
    → IsServable is_addr c
unfolding check_server
check_server-IsServable is_addr c e =
    let (a, e1) = or_else-none _ _ e in
    let (b, e2) = or_else-none _ _ e1 in
    let (d, e3) = or_else-none _ _ e2 in
    let (f, e4) = or_else-none _ _ e3 in
    let (g, e5) = or_else-none _ _ e4 in
    let (h, e6) = or_else-none _ _ e5 in
    let (i, j) = or_else-none _ _ e6 in
    record {
      http = passes _ _ a;
      tftp = passes _ _ b;
      dhcp = passes _ _ d;
      amd64 = fails_if-none _ _ f;
      arm64 = fails_if-none _ _ g;
      bios = fails_if-none _ _ h;
      token = token_given c.server.api_token i;
      limit = limit_positive c.server.max_artifact_bytes j;
    }

-- What a configuration that was loaded guarantees.
abbrev pub IsLoaded : (List ℕ → Bool) → Loaded → Type 0
IsLoaded is_addr (rejected e) = Unit
IsLoaded is_addr (loaded c) = IsServable is_addr c × IsAcceptable [] [] c.hosts

if_valid-IsLoaded :
    (is_addr : List ℕ → Bool) (c : Config) (o : Option Invalid)
    → validate is_addr c ≡ o
    → IsLoaded is_addr (if_valid o c)
unfolding validate
if_valid-IsLoaded is_addr c (some e) h = tt
if_valid-IsLoaded is_addr c none h =
    let (server, hosts) = or_else-none _ _ h in
    (check_server-IsServable is_addr c server, check_hosts-IsAcceptable c.hosts [] [] hosts)

-- A configuration that loads has three bind addresses that parse, bootloaders that are not blank, no
-- empty token and no limit of 0; its hosts have valid MACs and names that are not blank, and no two
-- of them share a MAC or a name.
pub load-IsLoaded :
    (is_addr : List ℕ → Bool) (parsed : Config) → IsLoaded is_addr (load is_addr parsed)
unfolding load
load-IsLoaded is_addr parsed = if_valid-IsLoaded is_addr _ _ refl

differs :
    (x h : HostConfig) (ys : List HostConfig)
    → Listed h ys
    → All (λ g. x.mac ≢ g.mac) ys
    → x.mac ≢ h.mac
differs x h [] m b e = m
differs x h (y ∷ ys) (inl q) b e = b.0 (e ∙ ap (λ g. g.mac) (sym q))
differs x h (y ∷ ys) (inr m) b e = differs x h ys m b.1 e

find_mac-Listed :
    (h : HostConfig) (hs : List HostConfig)
    → Listed h hs
    → Apart (λ g. g.mac) hs
    → find_mac h.mac hs ≡ some h
unfolding find_mac
find_mac-Listed h [] l a = absurd l
find_mac-Listed h (x ∷ xs) (inl e) a = rw (e, eq_bytes_self h.mac) refl
find_mac-Listed h (x ∷ xs) (inr l) a = elim (Bool-cases (eq_bytes x.mac h.mac)) [
  | inl same ↦ absurd (differs x h xs l a.0 ((eq_bytes_iff x.mac h.mac).0 same))
  | inr other ↦ rw other (find_mac-Listed h xs l a.1)
]

-- In whatever configuration loads, `find_host` gives for every spelling of a host's MAC that very host.
pub find_host-load :
    (is_addr : List ℕ → Bool) (parsed c : Config) (h : HostConfig) (spelling : List ℕ)
    → load is_addr parsed ≡ loaded c
    → Listed h c.hosts
    → normalize_mac spelling ≡ h.mac
    → find_host spelling c ≡ some h
unfolding find_host
find_host-load is_addr parsed c h spelling l m e =
    let valid = subst (IsLoaded is_addr) l (load-IsLoaded is_addr parsed) in
    rw e (find_mac-Listed h c.hosts m valid.1.macs_apart)
