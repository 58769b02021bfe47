-- ===== src/Validation/Links.antt =====
-- `validate_evidence_links` of validation.py, lines 91 to 131: every reference of a result names
-- evidence of its input, and the selection covers the visual inputs exactly.
use fireviewer_ai_worker.Common.{
  String, Bool, false, not, ◌&&◌, none, some, List, [], ◌∷◌, ◌++◌, map, if◌then◌else◌, is_some, any,
  all, is_empty, nonempty, contains, is_unique, str_append,
}
use fireviewer_ai_worker.Common.Exec.{output_validation_error, Result, ok, ◌>>◌, raise_if}
use fireviewer_ai_worker.Contracts.{
  BatchItem, ItemResult, PixelRegion, FactualObservation, ExplicitLiteral,
}

abbrev pub invalid_if : Bool → String → Result (Unit {0})
invalid_if failed message = raise_if failed (output_validation_error message)

-- set(xs) == set(ys)
abbrev pub same_set : List String → List String → Bool
same_set xs ys = all (λ x. contains x ys) xs && all (λ y. contains y xs) ys

module _ {R : Type 0} where
  abbrev pub frame_ids : BatchItem R → List String
  frame_ids source = map (λ f. f.frame_id) source.frames

  -- the ids that a reference may name
  unfoldable pub evidence_ids : BatchItem R → ItemResult R → List String
  evidence_ids source result =
      source.input_id
      ∷ "metadata"
      ∷ "article_text"
      ∷ (frame_ids source ++ map (λ s. s.segment_id) result.transcript.segments)

  -- visual_ids
  unfoldable pub visual_ids : BatchItem R → List String
  visual_ids source =
      if is_empty (frame_ids source) && is_some source.working_file_url
      then source.input_id ∷ []
      else frame_ids source

  abbrev pub selection_ids : ItemResult R → List String
  selection_ids result = map (λ s. s.evidence_id) result.visual_evidence_selection

  abbrev region_ids : ItemResult R → List String
  region_ids result = map (λ p. p.region_id) result.pixel_regions

  -- the loop over the pixel regions
  unfoldable pub check_regions : List String → List (PixelRegion R) → Result (Unit {0})
  check_regions ids [] = ok tt
  check_regions ids (region ∷ rest) =
      invalid_if (not (contains region.evidence_id ids)) "region references unknown evidence"
      >> check_regions ids rest

-- the loop over the factual observations
unfoldable pub check_observations :
    List String → List String → List FactualObservation → Result (Unit {0})
check_observations ids regions [] = ok tt
check_observations ids regions (entry ∷ rest) =
    invalid_if (not (contains entry.evidence_id ids))
      "factual_observations references unknown evidence"
    >> (invalid_if (elim entry.region_id [ none ↦ false | some r ↦ not (contains r regions) ])
          "factual_observations references unknown pixel region"
        >> check_observations ids regions rest)

-- the loop over the places or the times, which carry no region
unfoldable pub check_literals : String → List String → List ExplicitLiteral → Result (Unit {0})
check_literals name ids [] = ok tt
check_literals name ids (entry ∷ rest) =
    invalid_if (not (contains entry.evidence_id ids))
      (str_append name " references unknown evidence")
    >> check_literals name ids rest

module _ {R : Type 0} where
  -- the checks on the visual selection
  unfoldable pub check_selection : BatchItem R → ItemResult R → Result (Unit {0})
  unfolding visual_ids
  check_selection source result = do
    invalid_if (not (is_unique (selection_ids result)))
        "visual evidence selection contains duplicate evidence ids"
    invalid_if (not (same_set (selection_ids result) (visual_ids source)))
        "visual evidence selection must cover every visual input exactly"
    invalid_if
        (nonempty (visual_ids source)
          && not (any (λ s. s.selected_for_grounding) result.visual_evidence_selection))
        "at least one visual input must remain selected"

  -- validate_evidence_links
  unfoldable pub validate_evidence_links : BatchItem R → ItemResult R → Result (Unit {0})
  unfolding check_selection
  validate_evidence_links source result = do
    let ids = evidence_ids source result
    check_selection source result
    check_regions ids result.pixel_regions
    check_observations ids (region_ids result) result.factual_observations
    check_literals "explicit_places" ids result.explicit_places
    check_literals "explicit_times" ids result.explicit_times
