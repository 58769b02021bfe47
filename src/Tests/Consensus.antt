-- ===== src/Tests/Consensus.antt =====
-- Two candidates of the detectors that have answered alike, and a judge on their contradiction.
use fireviewer_ai_worker.Common.{
  ◌≡◌, ◌↔◌, refl, ℕ, String, true, false, not, ◌&&◌, none, some, List, [], ◌∷◌, is_some, all, any,
  contains, is_unique,
}
use fireviewer_ai_worker.Common.Exec.{ok}
use fireviewer_ai_worker.Common.Sort.{same_numbers, sort_by, insert_by}
use fireviewer_ai_worker.Stage.{PipelineRole}
use fireviewer_ai_worker.Contracts.{ModelRun, succeeded}
use fireviewer_ai_worker.Contracts.Trace.{WorkerModelRole, human_review}
use fireviewer_ai_worker.Registry.{
  validate_group, validate_policy, validate_adjudicator, validate_candidates, validate_candidate,
  validate_spec, is_identifier, repeats, no_repeats, has_number, abstain,
}
use fireviewer_ai_worker.Registry.Laws.{IsRunnable, validate_group-IsRunnable}
use fireviewer_ai_worker.Consensus.{
  SuccessfulCandidate, ConsensusEvaluation, ConsensusJudgeVerdict, apply_adjudication,
}
use fireviewer_ai_worker.Consensus.Quorum.{evaluate_consensus}
use fireviewer_ai_worker.Consensus.Accepted.{IsSound, Returns, are_of}
use fireviewer_ai_worker.Consensus.Accepted.Quorum.{evaluate_consensus-IsSound}
use fireviewer_ai_worker.Consensus.Adjudication.{
  IsResolved, apply_adjudication-IsResolved, evaluate_consensus-judge_there,
}
use fireviewer_ai_worker.Session.Candidate.{CandidateExecution}
use fireviewer_ai_worker.Session.Stage.Finish.{settle}
use fireviewer_ai_worker.Session.Laws.Settle.{IsSettled, settle-IsSettled}
use fireviewer_ai_worker.Tests.{numbers, detector, detectors, library}

validate_group-IsRunnable_example : (validate_group detectors ≡ ok tt) ↔ IsRunnable detectors
validate_group-IsRunnable_example = validate_group-IsRunnable detectors

detectors_valid : validate_group detectors ≡ ok tt
unfolding validate_group validate_policy validate_adjudicator validate_candidates validate_candidate
    validate_spec is_identifier repeats is_unique contains any no_repeats has_number same_numbers
    sort_by insert_by
detectors_valid = refl

abbrev answered : String → SuccessfulCandidate ℕ
answered id = record { candidate_id = id; results = []; repaired = false }

abbrev both : List (SuccessfulCandidate ℕ)
both = answered "first" ∷ answered "second" ∷ []

both_known : are_of detectors.candidates both ≡ true
unfolding all contains
both_known = refl

evaluate_consensus-IsSound_example :
    Returns
      (IsSound detectors both)
      (evaluate_consensus library PipelineRole.fire_detection detectors both)
evaluate_consensus-IsSound_example =
    evaluate_consensus-IsSound library PipelineRole.fire_detection detectors both both_known refl

evaluate_consensus-judge_there_example :
    Returns
      (λ v. (v.requires_adjudication && not (is_some detectors.adjudicator)) ≡ false)
      (evaluate_consensus library PipelineRole.fire_detection detectors both)
evaluate_consensus-judge_there_example =
    evaluate_consensus-judge_there library PipelineRole.fire_detection detectors both
      ((validate_group-IsRunnable detectors).0 detectors_valid) both_known

abbrev contradiction : ConsensusEvaluation ℕ
contradiction = record {
  decision = human_review;
  selected_candidate_id = none;
  agreement_score = none;
  reason_codes = "candidate_disagreement" ∷ [];
  downstream_allowed = false;
  comparison_payload = [];
  requires_adjudication = true;
}

abbrev verdict : ConsensusJudgeVerdict ℕ
verdict = record {
  selected_candidate_id = some "second";
  confidence = 1;
  reason_codes = "clearer" ∷ [];
  output_payload = [];
}

apply_adjudication-IsResolved_example :
    Returns
      (IsResolved ("first" ∷ "second" ∷ []) 1 verdict)
      (apply_adjudication contradiction verdict ("first" ∷ "second" ∷ []) 1 abstain)
apply_adjudication-IsResolved_example =
    apply_adjudication-IsResolved contradiction verdict ("first" ∷ "second" ∷ []) 1 abstain refl

abbrev run : ModelRun
run = record {
  model_role = PipelineRole.fire_detection;
  model_id = "first";
  revision = "0123456789abcdef0123456789abcdef01234567";
  status = succeeded;
  load_ms = 5;
  inference_ms = 7;
  peak_vram_bytes = none;
  error_code = none;
}

abbrev execution : CandidateExecution ℕ
execution = record {
  candidate = detector "first" 1;
  run = run;
  candidate_run = record {
    candidate_id = "first";
    candidate_rank = 1;
    stage_role = PipelineRole.fire_detection;
    model_role = WorkerModelRole.visual_filtering;
    model_id = "first";
    revision = "0123456789abcdef0123456789abcdef01234567";
    status = succeeded;
    load_ms = 5;
    inference_ms = 7;
    peak_vram_bytes = none;
    repaired = false;
    output_digest = some "digest";
    output_payload = some [];
    error_code = none;
  };
  results = some [];
  attempts = [];
  repaired = false;
}

-- the second of two executions is released
abbrev second_execution : CandidateExecution ℕ
second_execution = record execution { candidate = detector "second" 2 }

abbrev second_accepted : ConsensusEvaluation ℕ
second_accepted = record contradiction {
  selected_candidate_id = some "second";
  downstream_allowed = true;
}

second-IsOther : is_unique ("first" ∷ "second" ∷ []) ≡ true
unfolding is_unique contains
second-IsOther = refl

settle-IsSettled_example :
    Returns
      (IsSettled second_accepted [] (execution ∷ second_execution ∷ []))
      (settle PipelineRole.fire_detection second_accepted [] (execution ∷ second_execution ∷ []))
settle-IsSettled_example =
    settle-IsSettled PipelineRole.fire_detection second_accepted []
      (execution ∷ second_execution ∷ []) refl second-IsOther
