-- ===== src/Session/Judge.antt =====
-- `SessionRunner._execute_adjudicator` of session_runner.py, lines 525 to 608: the judge model that
-- resolves a contradiction between candidates.
use fireviewer_ai_worker.Common.{ℕ, ◌+◌, String, Bool, true, false, Option, none, some, List, ◌∷◌}
use fireviewer_ai_worker.Common.Exec.{Exception, model_output_error, other_error, Result, ok, err}
use fireviewer_ai_worker.Common.Json.{Payload}
use fireviewer_ai_worker.Stage.{PipelineRole}
use fireviewer_ai_worker.Contracts.Trace.{CandidateRun, WorkerModelRole, validate_candidate_run}
use fireviewer_ai_worker.Registry.{ModelSpec, ModelCandidateSpec}
use fireviewer_ai_worker.Consensus.{JudgeCandidate, ConsensusJudgeVerdict}
use fireviewer_ai_worker.Session.Candidate.{status_of}
use fireviewer_ai_worker.Session.Effects.{
  Events, created, peak_reset, loaded, inferred, released, Eff, pure, lift, log, call, ◌>>=◌, ◌>>◌,
  construct,
}

-- A `ConsensusJudge` as one adjudication sees it. `load` counts with the `synchronize_cuda` behind
-- it; the one behind `adjudicate`, outside the inner `try`, is the field `synchronize`.
pub record Judge (R : Type 0) : Type 0 where
  pub load : Option Exception
  pub load_ms : ℕ
  pub adjudicate : Bool → List (JudgeCandidate R) → Payload R → Result (ConsensusJudgeVerdict R)
  pub adjudicate_ms : Bool → ℕ
  pub synchronize : Option Exception
  pub final_peak : Option ℕ
  pub unload : Option Exception

-- `create_consensus_judge`, where the factory is a `ConsensusJudgeFactory`
abbrev pub JudgeFactory : Type 0 → Type 0
JudgeFactory R = Option (Events → ModelSpec → Result (Judge R))

-- the `except` clauses of this method: ModelOutputError, and Exception
abbrev pub judge_error_code : Exception → String
judge_error_code model_output_error = "invalid_model_output"
judge_error_code _ = "model_runtime_error"

pub record Adjudicated (R : Type 0) : Type 0 where
  pub load_ms : ℕ
  pub inference_ms : ℕ
  pub verdict : Option (ConsensusJudgeVerdict R)
  pub repaired : Bool
  pub error_code : Option String

pub record AdjudicatorExecution (R : Type 0) : Type 0 where
  pub candidate_run : CandidateRun R
  pub verdict : Option (ConsensusJudgeVerdict R)

abbrev sync_error : Option Exception → Option String
sync_error none = none
sync_error (some e) = some (judge_error_code e)

module _ {R : Type 0} where
  -- nothing was returned: the durations that were not reached are 0
  abbrev nothing : ℕ → Exception → Adjudicated R
  nothing load_ms e = record {
    load_ms = load_ms;
    inference_ms = 0;
    verdict = none;
    repaired = false;
    error_code = some (judge_error_code e);
  }

  -- the end of the `try` with a verdict: the last `synchronize_cuda` may still raise
  abbrev with_verdict : Judge R → ℕ → Bool → ConsensusJudgeVerdict R → Adjudicated R
  with_verdict judge ms repaired verdict = record {
    load_ms = judge.load_ms;
    inference_ms = ms;
    verdict = some verdict;
    repaired = repaired;
    error_code = sync_error judge.synchronize;
  }

  unfoldable pub after_correction : Judge R → Result (ConsensusJudgeVerdict R) → Adjudicated R
  after_correction judge (ok verdict) =
      with_verdict judge (judge.adjudicate_ms false + judge.adjudicate_ms true) true verdict
  after_correction judge (err e) = nothing judge.load_ms e

  -- the inner `try`; `second` is what the correction would answer
  unfoldable pub after_adjudicate :
      Judge R
      → Result (ConsensusJudgeVerdict R)
      → Result (ConsensusJudgeVerdict R)
      → Eff (Adjudicated R)
  unfolding after_correction
  after_adjudicate judge second (ok verdict) =
      pure (with_verdict judge (judge.adjudicate_ms false) false verdict)
  after_adjudicate judge second (err model_output_error) =
      log (inferred true) >> pure (after_correction judge second)
  after_adjudicate judge second (err e) = pure (nothing judge.load_ms e)

  unfoldable pub after_judge_load :
      Judge R → List (JudgeCandidate R) → Payload R → Option Exception → Eff (Adjudicated R)
  unfolding after_adjudicate
  after_judge_load judge candidates payload (some e) = pure (nothing 0 e)
  after_judge_load judge candidates payload none =
      log (inferred false)
      >> after_adjudicate judge (judge.adjudicate true candidates payload)
          (judge.adjudicate false candidates payload)

  -- output_payload is set with the status "succeeded"
  abbrev verdict_payload : Adjudicated R → Option (Payload R)
  verdict_payload a = elim a.error_code [
    | some e ↦ none
    | none ↦ elim a.verdict [ none ↦ none | some v ↦ some v.output_payload ]
  ]

  abbrev judge_digest : (Payload R → String) → Option (Payload R) → Option String
  judge_digest sha none = none
  judge_digest sha (some p) = some (sha p)

  unfoldable pub judge_run_of :
      (Payload R → String)
      → PipelineRole
      → ModelCandidateSpec
      → Option ℕ
      → Adjudicated R
      → CandidateRun R
  judge_run_of sha role adjudicator peak a = record {
    candidate_id = adjudicator.candidate_id;
    candidate_rank = adjudicator.rank;
    stage_role = role;
    model_role = WorkerModelRole.consensus_judge;
    model_id = adjudicator.spec.model_id;
    revision = adjudicator.spec.revision;
    status = status_of a.error_code;
    load_ms = a.load_ms;
    inference_ms = a.inference_ms;
    peak_vram_bytes = peak;
    repaired = a.repaired;
    output_digest = judge_digest sha (verdict_payload a);
    output_payload = verdict_payload a;
    error_code = a.error_code;
  }

  -- what follows the `finally`
  unfoldable pub judged_of :
      (Payload R → String)
      → PipelineRole
      → ModelCandidateSpec
      → Option ℕ
      → Adjudicated R
      → Result (AdjudicatorExecution R)
  unfolding judge_run_of
  judged_of sha role adjudicator peak a =
      elim (construct (validate_candidate_run sha) (judge_run_of sha role adjudicator peak a)) [
        | err e ↦ err e
        | ok run ↦ ok (record { candidate_run = run; verdict = a.verdict })
      ]

  -- the rest of the `try`, its `finally`, and what follows, on a judge that has been created
  unfoldable pub run_judge :
      (Payload R → String)
      → PipelineRole
      → ModelCandidateSpec
      → List (JudgeCandidate R)
      → Payload R
      → Judge R
      → Eff (AdjudicatorExecution R)
  unfolding after_judge_load judged_of
  run_judge sha role adjudicator candidates payload judge =
      log peak_reset
      >> (log (loaded adjudicator.spec)
          >> (after_judge_load judge candidates payload judge.load >>= λ a.
              call (released adjudicator.spec) judge.unload
              >> lift (judged_of sha role adjudicator judge.final_peak a)))

  -- `peak_vram_bytes()` where no judge has been created is the parameter `idle_peak`
  unfoldable pub with_judge :
      (Payload R → String)
      → Option ℕ
      → PipelineRole
      → ModelCandidateSpec
      → List (JudgeCandidate R)
      → Payload R
      → Result (Judge R)
      → Eff (AdjudicatorExecution R)
  unfolding run_judge judged_of
  with_judge sha idle_peak role adjudicator candidates payload (ok judge) =
      run_judge sha role adjudicator candidates payload judge
  with_judge sha idle_peak role adjudicator candidates payload (err e) =
      lift (judged_of sha role adjudicator idle_peak (nothing 0 e))

  -- _execute_adjudicator
  unfoldable pub execute_adjudicator :
      (Payload R → String)
      → Option ℕ
      → JudgeFactory R
      → PipelineRole
      → ModelCandidateSpec
      → List (JudgeCandidate R)
      → Payload R
      → Eff (AdjudicatorExecution R)
  unfolding with_judge
  execute_adjudicator sha idle_peak none role adjudicator candidates payload es =
      with_judge sha idle_peak role adjudicator candidates payload
        (err (other_error "adapter factory does not provide a consensus judge")) es
  execute_adjudicator sha idle_peak (some create) role adjudicator candidates payload es =
      with_judge sha idle_peak role adjudicator candidates payload (create es adjudicator.spec)
        (created adjudicator.spec ∷ es)
