-- ===== src/Extractor/Written.antt =====
-- crates/bootycall-extractor/src: what an extraction that succeeded has written.
use booty_call.Prelude.{◌≡◌, refl, Option, none, some, List}
use booty_call.Extractor.Copy.{Chunk, content}
use booty_call.Extractor.Cache.{Node, file, ExtractorError, Extraction}
use booty_call.Extractor.Artifact.{Stored, IsStored, HoldsAll, ByError}

-- The attempt failed, or left the kernel and the initrd whole, as the readers of the chosen files give them.
abbrev pub ByOutcome :
    (chosen : List Chunk → List Chunk → Type 0)
    → Option ExtractorError
    → Option Node
    → Option Node
    → Type 0
ByOutcome chosen (some e) kernel initrd = Unit
ByOutcome chosen none kernel initrd =
    (ks : List Chunk) × (is : List Chunk) × chosen ks is
    × (kernel ≡ some (file (content ks)))
    × (initrd ≡ some (file (content is)))

abbrev pub IsExtracted : (List Chunk → List Chunk → Type 0) → Extraction → Type 0
IsExtracted chosen a = ByOutcome chosen a.error a.kernel a.initrd

pub ByOutcome-ByError :
    (chosen : List Chunk → List Chunk → Type 0) (e : Option ExtractorError)
    (kernel initrd : Option Node)
    → ByOutcome chosen e kernel initrd
    → ByError e kernel initrd
ByOutcome-ByError chosen (some e) kernel initrd h = tt
ByOutcome-ByError chosen none kernel initrd (ks, is, c, k, i) = (rw k refl, rw i refl)

-- The second artifact, after the first was stored whole.
pub second :
    (chosen : List Chunk → List Chunk → Type 0) (ks is : List Chunk) (kernel : Option Node)
    (s : Stored)
    → chosen ks is
    → kernel ≡ some (file (content ks))
    → IsStored is s
    → ByOutcome chosen s.error kernel s.node
second chosen ks is kernel s c k h = by_second s.error s.node h
  where
    by_second :
        (e : Option ExtractorError) (node : Option Node)
        → HoldsAll is e node
        → ByOutcome chosen e kernel node
    by_second none left h' = (ks, is, c, k, h')
    by_second (some e) left h' = tt
