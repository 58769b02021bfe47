-- ===== src/Consensus.antt =====
-- src/firewarning_worker/consensus.py: the records of a consensus and the final adjudication. The
-- children hold the comparison of candidates and the evaluation of a group.
pub mod Text
pub mod Similarity
pub mod Challenge
pub mod Evaluate
pub mod Quorum
pub mod Accepted
pub mod Adjudication
use fireviewer_ai_worker.Common.{
  String, Bool, true, false, not, ◌&&◌, Option, none, some, List, [], ◌∷◌, map, if◌then◌else◌,
}
use fireviewer_ai_worker.Common.Exec.{Exception, value_error, Result, ok, err}
use fireviewer_ai_worker.Common.Float.{FloatOps}
use fireviewer_ai_worker.Common.Dict.{Dict, insert}
use fireviewer_ai_worker.Common.Json.{Json, float, Payload, dict}
use fireviewer_ai_worker.Contracts.{ItemResult}
use fireviewer_ai_worker.Contracts.Trace.{
  ConsensusDecision, pass, repair, adjudicated, contains_some,
}
use fireviewer_ai_worker.Registry.{ConsensusFailureDecision, abstain, human_review}

-- Mapping[str, ItemResult]
abbrev pub Results : Type 0 → Type 0
Results R = Dict (ItemResult R)

pub record SuccessfulCandidate (R : Type 0) : Type 0 where
  pub candidate_id : String
  pub results : Results R
  pub repaired : Bool

pub record ConsensusEvaluation (R : Type 0) : Type 0 where
  pub decision : ConsensusDecision
  pub selected_candidate_id : Option String
  pub agreement_score : Option R
  pub reason_codes : List String
  pub downstream_allowed : Bool
  pub comparison_payload : Payload R
  pub requires_adjudication : Bool

pub record JudgeCandidate (R : Type 0) : Type 0 where
  pub candidate_id : String
  pub model_id : String
  pub revision : String
  pub output_payload : Payload R

pub record ConsensusJudgeVerdict (R : Type 0) : Type 0 where
  pub selected_candidate_id : Option String
  pub confidence : R
  pub reason_codes : List String
  pub output_payload : Payload R

-- _consensus_failure_decision, and `failure_decision.value`
abbrev pub failure_decision : ConsensusFailureDecision → ConsensusDecision
failure_decision abstain = ConsensusDecision.abstain
failure_decision human_review = ConsensusDecision.human_review

-- what a selected candidate makes of the stage
abbrev pub success_decision : Bool → ConsensusDecision
success_decision repaired = if repaired then repair else pass

-- {**payload, **updates}
unfoldable pub update {ℓ} : {V : Type ℓ} → Dict V → Dict V → Dict V
update d [] = d
update d ((k, v) ∷ updates) = update (insert k v d) updates

module _ {R : Type 0} ⦃F : FloatOps R⦄ where
  -- the `accepted` of `apply_adjudication`
  abbrev pub is_accepted : ConsensusJudgeVerdict R → List String → R → Bool
  is_accepted verdict candidate_ids threshold =
      contains_some verdict.selected_candidate_id candidate_ids
      && F.le_test threshold verdict.confidence

  -- apply_adjudication
  unfoldable pub apply_adjudication :
      ConsensusEvaluation R
      → ConsensusJudgeVerdict R
      → List String
      → R
      → ConsensusFailureDecision
      → Result (ConsensusEvaluation R)
  apply_adjudication evaluation verdict candidate_ids threshold failure =
      let comparison_payload = update evaluation.comparison_payload (
        ("adjudication", dict verdict.output_payload)
        ∷ ("adjudication_confidence_threshold", float threshold)
        ∷ []) in
      if not evaluation.requires_adjudication
      then err (value_error "adjudication can only resolve a candidate contradiction")
      else if is_accepted verdict candidate_ids threshold
      then ok (record {
        decision = adjudicated;
        selected_candidate_id = verdict.selected_candidate_id;
        agreement_score = evaluation.agreement_score;
        reason_codes = "candidate_disagreement_adjudicated" ∷ verdict.reason_codes;
        downstream_allowed = true;
        comparison_payload = comparison_payload;
        requires_adjudication = false;
      })
      else ok (record {
        decision = failure_decision failure;
        selected_candidate_id = none;
        agreement_score = evaluation.agreement_score;
        reason_codes = "adjudicator_abstained" ∷ verdict.reason_codes;
        downstream_allowed = false;
        comparison_payload = comparison_payload;
        requires_adjudication = false;
      })
