-- ===== src/Consensus/Challenge.antt =====
-- `candidate_requires_challenge` of consensus.py, lines 286 to 319, `results` by its values.
use fireviewer_ai_worker.Common.{Bool, not, ◌&&◌, ◌||◌, List, any, nonempty}
use fireviewer_ai_worker.Stage.{PipelineRole, asr, fire_detection, visual_grounding}
use fireviewer_ai_worker.Stage.Capabilities.{is_detection, is_grounding}
use fireviewer_ai_worker.Contracts.{ItemResult}

module _ {R : Type 0} where
  unfoldable pub candidate_requires_challenge : PipelineRole → List (ItemResult R) → Bool
  candidate_requires_challenge asr results = not (any (λ r. nonempty r.transcript.segments) results)
  candidate_requires_challenge fire_detection results =
      any (λ r. nonempty r.visual_evidence_selection) results
      && not (any (λ r. any (λ p. is_detection p.task) r.pixel_regions) results)
  candidate_requires_challenge visual_grounding results =
      any (λ r. any (λ s. s.selected_for_grounding) r.visual_evidence_selection) results
      && not (any (λ r. any (λ p. is_grounding p.task) r.pixel_regions) results)
  candidate_requires_challenge _ results =
      any (λ r. nonempty r.transcript.segments || nonempty r.pixel_regions) results
      && not (
          any
            (λ r.
              nonempty r.factual_observations
              || (nonempty r.explicit_places || nonempty r.explicit_times))
            results)
