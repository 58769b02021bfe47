-- ===== src/Consensus/Similarity.antt =====
-- consensus.py, lines 135 to 283: how far two candidates agree on the deliverables of a stage.
use fireviewer_ai_worker.Common.{
  ℕ, ◌+◌, String, Bool, not, ◌&&◌, ◌||◌, Option, none, some, List, [], ◌∷◌, map, ◌==◌,
  if◌then◌else◌, all, keep, length, is_empty, contains, str_eq,
}
use fireviewer_ai_worker.Common.Float.{FloatOps, float_max, float_min}
use fireviewer_ai_worker.Common.Dict.{lookup, keys}
use fireviewer_ai_worker.Common.Sort.{sort_texts, to_set}
use fireviewer_ai_worker.Stage.{PipelineRole, asr, fire_detection, visual_grounding}
use fireviewer_ai_worker.Stage.Capabilities.{is_detection, is_grounding}
use fireviewer_ai_worker.Contracts.{
  PixelRegion, RegionTask, ItemResult, FactualObservation, ExplicitLiteral, EvidenceKind, Certainty,
}
use fireviewer_ai_worker.Consensus.{Results}
use fireviewer_ai_worker.Consensus.Text.{TextLibrary, join, normalized_text, jaccard}

abbrev task_value : RegionTask → String
task_value RegionTask.fire_detection = "fire_detection"
task_value RegionTask.phrase_grounding = "phrase_grounding"
task_value RegionTask.ocr = "ocr"

abbrev kind_value : EvidenceKind → String
kind_value EvidenceKind.frame = "frame"
kind_value EvidenceKind.image = "image"
kind_value EvidenceKind.transcript_segment = "transcript_segment"
kind_value EvidenceKind.article_text = "article_text"
kind_value EvidenceKind.metadata = "metadata"

abbrev certainty_value : Certainty → String
certainty_value Certainty.directly_visible = "directly_visible"
certainty_value Certainty.explicitly_written = "explicitly_written"
certainty_value Certainty.explicitly_spoken = "explicitly_spoken"

-- list(enumerate(xs, start=n))
unfoldable pub enumerate_from {ℓ} : {A : Type ℓ} → ℕ → List A → List (ℕ × A)
enumerate_from n [] = []
enumerate_from n (x ∷ xs) = (n, x) ∷ enumerate_from (n + 1) xs

module _ {R : Type 0} ⦃F : FloatOps R⦄ where
  -- _bbox_iou
  unfoldable pub bbox_iou : PixelRegion R → PixelRegion R → R
  bbox_iou left right =
      let (left_x1, left_y1, left_x2, left_y2) = left.bbox_normalized in
      let (right_x1, right_y1, right_x2, right_y2) = right.bbox_normalized in
      let zero_f = F.of_int 0 in
      let width =
        float_max zero_f (F.sub (float_min left_x2 right_x2) (float_max left_x1 right_x1)) in
      let height =
        float_max zero_f (F.sub (float_min left_y2 right_y2) (float_max left_y1 right_y1)) in
      let shared = F.mul width height in
      let left_area =
        F.mul (float_max zero_f (F.sub left_x2 left_x1))
          (float_max zero_f (F.sub left_y2 left_y1)) in
      let right_area =
        F.mul (float_max zero_f (F.sub right_x2 right_x1))
          (float_max zero_f (F.sub right_y2 right_y1)) in
      let both = F.sub (F.add left_area right_area) shared in
      if F.lt_test zero_f both then F.div shared both else zero_f

  abbrev comparable : PixelRegion R → PixelRegion R → Bool
  comparable left right =
      str_eq left.evidence_id right.evidence_id
      && (str_eq left.label right.label && str_eq (task_value left.task) (task_value right.task))

  -- the better of two matches, the first of two equal ones
  abbrev better : ℕ × R → Option (ℕ × R) → ℕ × R
  better m none = m
  better (i, s) (some (j, t)) = if F.lt_test s t then (j, t) else (i, s)

  -- max(matches, key=lambda item: item[1]) over the unmatched indexes in ascending order
  unfoldable pub best_match : PixelRegion R → List (ℕ × PixelRegion R) → Option (ℕ × R)
  best_match left [] = none
  best_match left ((index, region) ∷ rest) =
      let later = best_match left rest in
      if comparable left region then some (better (index, bbox_iou left region) later) else later

  -- the loop over `left`: `unmatched` and `matched_iou`
  unfoldable pub match_regions : List (PixelRegion R) → List (ℕ × PixelRegion R) → R → R
  unfolding best_match
  match_regions [] unmatched matched_iou = matched_iou
  match_regions (left ∷ rest) unmatched matched_iou =
      let (unmatched', matched') =
        let found : Option (ℕ × R) = best_match left unmatched in
        let step : List (ℕ × PixelRegion R) × R = elim found [
          | none ↦ (unmatched, matched_iou)
          | some (index, score) ↦
              if F.le_test score (F.of_int 0)
              then (unmatched, matched_iou)
              else (keep (λ u. not (u.0 == index)) unmatched, F.add matched_iou score)
        ] in
        step in
      match_regions rest unmatched' matched'

  -- _region_similarity
  unfoldable pub region_similarity : List (PixelRegion R) → List (PixelRegion R) → R
  unfolding match_regions enumerate_from
  region_similarity left right =
      if is_empty left && is_empty right
      then F.of_int 1
      else if is_empty left || is_empty right
      then F.of_int 0
      else float_min (F.of_int 1) (
          F.div (F.mul (F.of_int 2) (match_regions left (enumerate_from 0 right) (F.of_int 0)))
            (F.of_int (length left + length right)))

module _ {R : Type 0} ⦃F : FloatOps R⦄ (T : TextLibrary R) where
  -- the normalised text of all segments
  abbrev segments_text : ItemResult R → String
  segments_text r = normalized_text T (join " " (map (λ s. s.text) r.transcript.segments))

  -- _transcript_similarity
  unfoldable pub transcript_similarity : ItemResult R → ItemResult R → R
  transcript_similarity left right =
      let left_text = segments_text left in
      let right_text = segments_text right in
      if str_eq left_text "" && str_eq right_text ""
      then F.of_int 1
      else T.ratio left_text right_text

  -- `observations` of `_extraction_similarity`
  unfoldable pub observation_set : ItemResult R → List String
  observation_set r = to_set (
      map
        (λ (o : FactualObservation). join "|" (
          o.kind
          ∷ kind_value o.evidence_kind
          ∷ o.evidence_id
          ∷ normalized_text T o.description
          ∷ certainty_value o.certainty
          ∷ []))
        r.factual_observations)

  -- `literals` of `_extraction_similarity`, on the field's value
  unfoldable pub literal_set : List ExplicitLiteral → List String
  literal_set literals = to_set (
      map
        (λ (l : ExplicitLiteral).
          join "|" (kind_value l.evidence_kind ∷ l.evidence_id ∷ normalized_text T l.literal ∷ []))
        literals)

  -- _extraction_similarity
  unfoldable pub extraction_similarity : ItemResult R → ItemResult R → R
  unfolding observation_set literal_set
  extraction_similarity left right = F.fmean (
      jaccard (observation_set left) (observation_set right)
      ∷ jaccard (literal_set left.explicit_places) (literal_set right.explicit_places)
      ∷ jaccard (literal_set left.explicit_times) (literal_set right.explicit_times)
      ∷ [])

  -- the score of one item in `compare_candidate_results`
  unfoldable pub compare_items : PipelineRole → ItemResult R → ItemResult R → R
  unfolding transcript_similarity region_similarity extraction_similarity
  compare_items asr left right = transcript_similarity left right
  compare_items fire_detection left right =
      region_similarity (keep (λ p. is_detection p.task) left.pixel_regions)
        (keep (λ p. is_detection p.task) right.pixel_regions)
  compare_items visual_grounding left right =
      region_similarity (keep (λ p. is_grounding p.task) left.pixel_regions)
        (keep (λ p. is_grounding p.task) right.pixel_regions)
  compare_items _ left right = extraction_similarity left right

  abbrev compare_found :
      PipelineRole → Option (ItemResult R) → Option (ItemResult R) → List R → List R
  compare_found role (some l) (some r) scores = compare_items role l r ∷ scores
  compare_found role _ _ scores = scores

  -- the loop over `sorted(left)`; both lookups succeed, since the key sets have been compared
  unfoldable pub item_scores : PipelineRole → Results R → Results R → List String → List R
  item_scores role left right [] = []
  item_scores role left right (id ∷ ids) =
      compare_found role (lookup id left) (lookup id right) (item_scores role left right ids)

  -- set(left) != set(right), on the keys
  unfoldable pub same_keys : Results R → Results R → Bool
  same_keys left right =
      all (λ k. contains k (keys right)) (keys left)
      && all (λ k. contains k (keys left)) (keys right)

  -- compare_candidate_results
  unfoldable pub compare_candidate_results : PipelineRole → Results R → Results R → R
  unfolding item_scores same_keys
  compare_candidate_results role left right =
      let scores = item_scores role left right (sort_texts (keys left)) in
      if not (same_keys left right)
      then F.of_int 0
      else if is_empty scores
      then F.of_int 1
      else F.fmean scores
