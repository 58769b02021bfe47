-- ===== src/Report/Known.antt =====
-- The facts that v2_runner.py makes of an item's observations, and the sources of the batch.
use fireviewer_ai_worker.Common.{
  ℕ, suc, String, ◌≡◌, refl, ap, ◌∙◌, true, ◌||◌, List, [], ◌∷◌, map, length, contains, All,
  is_some, eq_iff, arith,
}
use fireviewer_ai_worker.Common.Dict.{Dict, lookup, insert, lookup-insert}
use fireviewer_ai_worker.Contracts.{FactualObservation}
use fireviewer_ai_worker.Report.{FactLibrary, SourceItem, SourceProvenance}
use fireviewer_ai_worker.Report.Facts.{fact_of, facts_from}
use fireviewer_ai_worker.Report.Draft.{source_by_input}
use fireviewer_ai_worker.Report.Lines.{IsKnown}

-- an input is known if it was, or is the input of an item
is_some-source_by_input :
    (asked : String) (items : List SourceItem) (known : Dict SourceProvenance)
    → is_some (lookup asked (source_by_input items known))
      ≡ (contains asked (map (λ item. item.input_id) items) || is_some (lookup asked known))
unfolding source_by_input contains
is_some-source_by_input asked [] known = refl
is_some-source_by_input asked (item ∷ items) known = ground (
  arith,
  is_some-source_by_input asked items (insert item.input_id item.provenance known),
  lookup-insert item.input_id asked item.provenance known,
  eq_iff item.input_id asked,
  eq_iff asked item.input_id,
)

-- The facts of an item that is one of the batch have a source there, and there are as many facts as
-- observations.
pub facts_from-AreKnown :
    (L : FactLibrary) (window_end_at : String) (item : SourceItem) (index : ℕ)
    (observations : List FactualObservation) (items : List SourceItem)
    → contains item.input_id (map (λ s. s.input_id) items) ≡ true
    → (length (facts_from L window_end_at item index observations) ≡ length observations)
      × All
          (IsKnown (source_by_input items []))
          (facts_from L window_end_at item index observations)
unfolding facts_from fact_of IsKnown
facts_from-AreKnown L window_end_at item index [] items h = (refl, tt)
facts_from-AreKnown L window_end_at item index (observation ∷ more) items h =
    let (counted, known) = facts_from-AreKnown L window_end_at item (suc index) more items h in
    (ap suc counted, (is_some-source_by_input item.input_id items [] ∙ rw h refl, known))
