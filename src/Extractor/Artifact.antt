-- ===== src/Extractor/Artifact.antt =====
-- crates/bootycall-extractor/src: what a copied artifact leaves on the disk, for both readers of images.
use booty_call.Prelude.{
  ℕ, ◌≡◌, refl, sym, ap, ◌∙◌, ◌++◌, Bool, true, false, Option, none, some, List, [], ◌∷◌, arith,
  Bool-cases, inl, inr, if◌then◌else◌,
}
use booty_call.Core.HostMap.{is_some}
use mathlib.Core.Path.{subst}
use mathlib.Core.List.{append-nil, append_assoc}
use booty_call.Extractor.Copy.{
  Chunk, chunk, read_fault, Copied, copied, too_large, io_failed, copy_all, copy_capped, content,
  IsCapped, copy_capped-IsCapped,
}
use booty_call.Extractor.Cache.{Node, file, ExtractorError, io, artifact_too_large, Extraction}

-- What a call of `copy_capped` leaves under the name, and its error.
pub record Stored : Type 0 where
  pub node : Option Node
  pub error : Option ExtractorError

abbrev pub limit_of : Option ℕ → ℕ
limit_of none = 0
limit_of (some limit) = limit

abbrev pub after_copy : Option ℕ → Copied → Stored
after_copy max_bytes (copied out) = record { node = some (file out); error = none }
after_copy max_bytes (too_large out) = record {
  node = some (file out);
  error = some (artifact_too_large (limit_of max_bytes));
}
after_copy max_bytes (io_failed out) = record { node = some (file out); error = some io }

-- `creates` says whether `fs::File::create` succeeds; if not, what was there stays.
unfoldable pub store_artifact : Option ℕ → Bool → Option Node → List Chunk → Stored
store_artifact max_bytes creates old chunks =
    if creates
    then after_copy max_bytes (copy_capped max_bytes chunks)
    else record { node = old; error = some io }

-- The outcome of an attempt says what it left, if it succeeded.
abbrev pub ByError : Option ExtractorError → Option Node → Option Node → Type 0
ByError none kernel initrd = (is_some kernel ≡ true) × (is_some initrd ≡ true)
ByError (some e) kernel initrd = Unit

-- The attempt left both files, if it succeeded.
abbrev pub LeavesBoth : Extraction → Type 0
LeavesBoth a = ByError a.error a.kernel a.initrd

-- A stored artifact is all that its reader holds.
abbrev pub HoldsAll : List Chunk → Option ExtractorError → Option Node → Type 0
HoldsAll chunks none left = left ≡ some (file (content chunks))
HoldsAll chunks (some e) left = Unit

abbrev pub IsStored : List Chunk → Stored → Type 0
IsStored chunks s = HoldsAll chunks s.error s.node

-- Where the artifacts go: the limit, and whether they can be created.
pub record Target : Type 0 where
  pub max_bytes : Option ℕ
  pub creates_kernel : Bool
  pub creates_initrd : Bool

copy_all-copied :
    (done : List ℕ) (chunks : List Chunk) (out : List ℕ)
    → copy_all done chunks ≡ copied out
    → out ≡ done ++ content chunks
unfolding copy_all
copy_all-copied done [] out h = let same : done ≡ out = cc in rw (← same) (sym (append-nil done))
copy_all-copied done (read_fault ∷ cs) out h = cc
copy_all-copied done (chunk [] ok ∷ cs) out h =
    let same : done ≡ out = cc in rw (← same) (sym (append-nil done))
copy_all-copied done (chunk (b ∷ bs) ok ∷ cs) out h = elim (Bool-cases ok) [
  | inl e ↦
      let ih = copy_all-copied (done ++ (b ∷ bs)) cs out (ground (arith, e, h)) in
      ih ∙ append_assoc done (b ∷ bs) (content cs)
  | inr e ↦ absurd (ground (arith, e, h))
]

copied-content :
    (max_bytes : Option ℕ) (chunks : List Chunk) (out : List ℕ)
    → copy_capped max_bytes chunks ≡ copied out
    → out ≡ content chunks
unfolding copy_capped
copied-content none chunks out h = copy_all-copied [] chunks out h
copied-content (some limit) chunks out h =
    (subst (IsCapped limit (content chunks)) h (copy_capped-IsCapped limit chunks)).1

after_copy-IsStored :
    (max_bytes : Option ℕ) (chunks : List Chunk) (c : Copied)
    → copy_capped max_bytes chunks ≡ c
    → IsStored chunks (after_copy max_bytes c)
after_copy-IsStored max_bytes chunks (copied out) e =
    ap (λ o. some (file o)) (copied-content max_bytes chunks out e)
after_copy-IsStored max_bytes chunks (too_large out) e = tt
after_copy-IsStored max_bytes chunks (io_failed out) e = tt

-- An artifact that was stored without an error is all that the reader holds, with or without a limit.
pub store_artifact-IsStored :
    (max_bytes : Option ℕ) (creates : Bool) (old : Option Node) (chunks : List Chunk)
    → IsStored chunks (store_artifact max_bytes creates old chunks)
unfolding store_artifact
store_artifact-IsStored max_bytes true old chunks =
    after_copy-IsStored max_bytes chunks (copy_capped max_bytes chunks) refl
store_artifact-IsStored max_bytes false old chunks = tt
