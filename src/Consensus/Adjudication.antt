-- ===== src/Consensus/Adjudication.antt =====
-- `apply_adjudication` of consensus.py on a verdict, and where the session may need one.
use fireviewer_ai_worker.Common.{
  ◌≡◌, String, true, false, not, ◌&&◌, none, List, arith, if◌then◌else◌, is_some,
}
use fireviewer_ai_worker.Common.Exec.{Result, ok, err}
use fireviewer_ai_worker.Common.Float.{FloatOps}
use fireviewer_ai_worker.Stage.{PipelineRole}
use fireviewer_ai_worker.Contracts.Trace.{is_accepting, is_adjudicated, contains_some}
use fireviewer_ai_worker.Registry.{ModelGroupSpec, ConsensusFailureDecision, abstain, human_review}
use fireviewer_ai_worker.Registry.Laws.{IsRunnable}
use fireviewer_ai_worker.Consensus.{
  SuccessfulCandidate, ConsensusEvaluation, ConsensusJudgeVerdict, apply_adjudication,
}
use fireviewer_ai_worker.Consensus.Text.{TextLibrary}
use fireviewer_ai_worker.Consensus.Accepted.{IsSound, Returns, are_of, is_member}
use fireviewer_ai_worker.Consensus.Accepted.Quorum.{evaluate_consensus-IsSound}
use fireviewer_ai_worker.Consensus.Quorum.{evaluate_consensus}

-- an adjudication is final, and releases only the candidate that the judge has selected
pub record IsResolved {R : Type 0} ⦃F : FloatOps R⦄ (ids : List String) (threshold : R)
    (verdict : ConsensusJudgeVerdict R) (v : ConsensusEvaluation R) : Type 0 where
  pub released :
      v.downstream_allowed
      ≡ (contains_some verdict.selected_candidate_id ids && F.le_test threshold verdict.confidence)
  pub decided : is_adjudicated v.decision ≡ v.downstream_allowed
  pub accepting : is_accepting v.decision ≡ v.downstream_allowed
  pub selected :
      v.selected_candidate_id
      ≡ (if v.downstream_allowed then verdict.selected_candidate_id else none)
  pub known : is_member ids v.selected_candidate_id ≡ true
  pub final : v.requires_adjudication ≡ false

module _ {R : Type 0} ⦃F : FloatOps R⦄ where
  -- An adjudication of a contradiction returns, is final, and fails closed: the next stage may run
  -- exactly if the judge has selected one of the candidates with at least the confidence asked for,
  -- the decision is adjudicated exactly then, and otherwise nothing is selected.
  pub apply_adjudication-IsResolved :
      (evaluation : ConsensusEvaluation R) (verdict : ConsensusJudgeVerdict R) (ids : List String)
      (threshold : R) (failure : ConsensusFailureDecision)
      → evaluation.requires_adjudication ≡ true
      → Returns
          (IsResolved ids threshold verdict)
          (apply_adjudication evaluation verdict ids threshold failure)
  unfolding apply_adjudication
  apply_adjudication-IsResolved evaluation verdict ids threshold abstain h = ground arith
  apply_adjudication-IsResolved evaluation verdict ids threshold human_review h = ground arith

  judge_there :
      (group : ModelGroupSpec R) (successful : List (SuccessfulCandidate R))
      (made : Result (ConsensusEvaluation R))
      → IsRunnable group
      → Returns (IsSound group successful) made
      → Returns (λ v. (v.requires_adjudication && not (is_some group.adjudicator)) ≡ false) made
  judge_there group successful (ok v) h s = ground (arith, h.judge_there, s.judged_on_agreement)
  judge_there group successful (err e) h s = s

  -- For a group that passes its validation, and successful candidates of that group, an evaluation
  -- that asks for a judge has one: the assertion of the session on `group.adjudicator` holds.
  pub evaluate_consensus-judge_there :
      (T : TextLibrary R) (role : PipelineRole) (group : ModelGroupSpec R)
      (successful : List (SuccessfulCandidate R))
      → IsRunnable group
      → are_of group.candidates successful ≡ true
      → Returns
          (λ v. (v.requires_adjudication && not (is_some group.adjudicator)) ≡ false)
          (evaluate_consensus T role group successful)
  evaluate_consensus-judge_there T role group successful h known =
      judge_there group successful (evaluate_consensus T role group successful) h
        (evaluate_consensus-IsSound T role group successful known h.least_successful)
