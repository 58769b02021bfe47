-- ===== src/Report/Lines.antt =====
-- The lines of the facts and of the sources of v2_runner.py, which are there for facts with a source.
use fireviewer_ai_worker.Common.{
  String, ◌≡◌, refl, Bool, true, some, List, [], ◌∷◌, keep, All, is_some, Bool-cases, Option-cases,
  inl, inr, arith,
}
use fireviewer_ai_worker.Common.Dict.{Dict, lookup, insert, values}
use fireviewer_ai_worker.Common.Exec.{ok}
use fireviewer_ai_worker.Report.{FactProposal, SourceProvenance}
use fireviewer_ai_worker.Report.Draft.{
  source_lines, source_line, fact_lines, sourced_fact_line, fact_line,
}

-- the source of the fact is in the batch
unfoldable pub IsKnown : Dict SourceProvenance → FactProposal → Type 0
unfolding lookup
IsKnown known fact = is_some (lookup fact.input_id known) ≡ true

pub All-keep :
    (known : Dict SourceProvenance) (p : FactProposal → Bool) (facts : List FactProposal)
    → All (IsKnown known) facts
    → All (IsKnown known) (keep p facts)
unfolding keep
All-keep known p [] h = h
All-keep known p (fact ∷ facts) (h, hs) = elim (Bool-cases (p fact)) [
  | inl e ↦ rw e (h, All-keep known p facts hs)
  | inr e ↦ rw e (All-keep known p facts hs)
]

sourced-IsReturned :
    (known : Dict SourceProvenance) (fact : FactProposal)
    → IsKnown known fact
    → (source : SourceProvenance) × (lookup fact.input_id known ≡ some source)
unfolding IsKnown
sourced-IsReturned known fact h = elim (Option-cases (lookup fact.input_id known)) [
  | inl e ↦ ground arith
  | inr found ↦ found
]

pub fact_lines-IsReturned :
    (known : Dict SourceProvenance) (facts : List FactProposal)
    → All (IsKnown known) facts
    → (lines : List String) × (fact_lines known facts ≡ ok lines)
unfolding fact_lines sourced_fact_line
fact_lines-IsReturned known [] h = ([], refl)
fact_lines-IsReturned known (fact ∷ facts) (h, hs) =
    let (source, found) = sourced-IsReturned known fact h in
    let (lines, returned) = fact_lines-IsReturned known facts hs in
    (fact_line fact source ∷ lines, rw (found, returned) refl)

pub source_lines-IsReturned :
    (known : Dict SourceProvenance) (facts : List FactProposal) (sources : Dict String)
    → All (IsKnown known) facts
    → (lines : List String) × (source_lines known facts sources ≡ ok lines)
unfolding source_lines
source_lines-IsReturned known [] sources h = (values sources, refl)
source_lines-IsReturned known (fact ∷ facts) sources (h, hs) =
    let (source, found) = sourced-IsReturned known fact h in
    let (lines, returned) =
      source_lines-IsReturned known facts (insert source.source_key (source_line source) sources)
        hs in
    (lines, rw found returned)
