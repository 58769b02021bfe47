-- ===== src/Session/Stage/Candidates.antt =====
-- The loop over the candidates of a group, session_runner.py, lines 708 to 755.
use fireviewer_ai_worker.Common.{
  ℕ, String, Bool, false, not, ◌&&◌, Option, none, some, List, [], ◌∷◌, ◌==◌, if◌then◌else◌,
}
use fireviewer_ai_worker.Common.Dict.{values}
use fireviewer_ai_worker.Stage.{PipelineRole}
use fireviewer_ai_worker.Contracts.{BatchItem}
use fireviewer_ai_worker.Contracts.Trace.{is_failed, is_succeeded}
use fireviewer_ai_worker.Registry.{ModelCandidateSpec, ModelGroupSpec, is_cascade}
use fireviewer_ai_worker.Consensus.{Results, SuccessfulCandidate, JudgeCandidate}
use fireviewer_ai_worker.Consensus.Challenge.{candidate_requires_challenge}
use fireviewer_ai_worker.Session.Adapter.{CandidateWorld}
use fireviewer_ai_worker.Session.Candidate.{CandidateExecution, execute_candidate}
use fireviewer_ai_worker.Session.Effects.{Eff, pure, ◌>>=◌}
use fireviewer_ai_worker.Session.Stage.{colon, pipeline_value}

abbrev pub or_none : Option String → String
or_none none = "None"
or_none (some s) = s

module _ {R : Type 0} where
  -- the test for the `break`; `first` says that one candidate has been executed
  unfoldable pub stops : ModelGroupSpec R → PipelineRole → Bool → CandidateExecution R → Bool
  stops group role first execution =
      is_cascade group.strategy
      && (first && elim execution.results [
        | none ↦ false
        | some results ↦
            (group.minimum_successful == 1)
            && ((group.minimum_agreeing == 1)
                && (not group.always_challenge
                    && not (candidate_requires_challenge role (values results))))
      ])

  unfoldable pub run_candidates :
      CandidateWorld R
      → ModelGroupSpec R
      → PipelineRole
      → List (BatchItem R)
      → Results R
      → ℕ
      → Bool
      → List ModelCandidateSpec
      → Eff (List (CandidateExecution R))
  run_candidates world group role items base max_repair first [] = pure []
  run_candidates world group role items base max_repair first (c ∷ cs) =
      execute_candidate world role c items base max_repair >>= λ execution.
      let rest = run_candidates world group role items base max_repair false cs >>= λ executions.
      pure (execution ∷ executions) in
      if stops group role first execution then pure (execution ∷ []) else rest

  -- the errors that the loop appends
  unfoldable pub candidate_errors : PipelineRole → List (CandidateExecution R) → List String
  candidate_errors role [] = []
  candidate_errors role (e ∷ es) =
      if is_failed e.run.status
      then colon (pipeline_value role) (colon e.candidate.candidate_id (or_none e.run.error_code))
        ∷ candidate_errors role es
      else candidate_errors role es

  abbrev success_of :
      CandidateExecution R
      → Option (Results R)
      → List (SuccessfulCandidate R)
      → List (SuccessfulCandidate R)
  success_of e none rest = rest
  success_of e (some results) rest =
      record { candidate_id = e.candidate.candidate_id; results = results; repaired = e.repaired }
      ∷ rest

  -- successful
  unfoldable pub successful_of : List (CandidateExecution R) → List (SuccessfulCandidate R)
  successful_of [] = []
  successful_of (e ∷ es) =
      if is_succeeded e.run.status
      then success_of e e.results (successful_of es)
      else successful_of es

  -- judge_candidates
  unfoldable pub judge_candidates : List (CandidateExecution R) → List (JudgeCandidate R)
  judge_candidates [] = []
  judge_candidates (e ∷ es) =
      let rest = judge_candidates es in
      let judged : List (JudgeCandidate R) = elim e.candidate_run.output_payload [
        | none ↦ rest
        | some payload ↦
            record {
              candidate_id = e.candidate.candidate_id;
              model_id = e.candidate.spec.model_id;
              revision = e.candidate.spec.revision;
              output_payload = payload;
            }
            ∷ rest
      ] in
      if is_succeeded e.run.status then judged else rest
