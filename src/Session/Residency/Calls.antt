-- ===== src/Session/Residency/Calls.antt =====
-- Every call of the session frees what it loads, up to the whole job.
use fireviewer_ai_worker.Common.{
  length, ◌+◌, ℕ, String, Bool, true, false, Option, none, some, List, [], ◌∷◌, arith,
}
use fireviewer_ai_worker.Common.Exec.{other_error, Result, ok, err}
use fireviewer_ai_worker.Common.Float.{FloatOps}
use fireviewer_ai_worker.Common.Dict.{values}
use fireviewer_ai_worker.Common.Json.{Payload}
use fireviewer_ai_worker.Stage.{PipelineRole, StageContract}
use fireviewer_ai_worker.Stage.Capabilities.{Capabilities, derive_capabilities}
use fireviewer_ai_worker.Stage.Gates.{StageGateRecord, run_preflight}
use fireviewer_ai_worker.Contracts.{BatchItem, WorkerInput}
use fireviewer_ai_worker.Registry.{to_model, ModelCandidateSpec, ModelGroupSpec}
use fireviewer_ai_worker.Consensus.{Results, JudgeCandidate, ConsensusEvaluation}
use fireviewer_ai_worker.Session.Adapter.{Adapter, CandidateWorld}
use fireviewer_ai_worker.Session.Candidate.{
  CandidateExecution, after_first, after_load, run_adapter, execute_candidate,
}
use fireviewer_ai_worker.Session.Judge.{
  Judge, JudgeFactory, after_adjudicate, after_judge_load, with_judge, execute_adjudicator,
}
use fireviewer_ai_worker.Session.Effects.{Events, finalized, ◌>>=◌}
use fireviewer_ai_worker.Session.Stage.Candidates.{run_candidates, stops}
use fireviewer_ai_worker.Session.Stage.Resolve.{adjudicate, resolve}
use fireviewer_ai_worker.Session.State.{group_of, SessionState, SessionWorld, SessionRunner}
use fireviewer_ai_worker.Session.Run.{
  is_proceed, conclude_stage, proceed_stage, stage_with, run_stage, run_stages, run_session,
  run_with_trace,
}
use fireviewer_ai_worker.Session.Residency.{
  IsIdle, Frees, Frees-lift, Frees-pure, Frees-if, Frees-bind,
}

module _ {R : Type 0} where
  run_adapter-Frees :
      (world : CandidateWorld R) (role : PipelineRole) (candidate : ModelCandidateSpec)
      (items : List (BatchItem R)) (base : Results R) (max_repair : ℕ) (adapter : Adapter R)
      → Frees (run_adapter world role candidate items base max_repair adapter)
  unfolding run_adapter after_load after_first ◌>>=◌
  run_adapter-Frees world role candidate items base max_repair adapter = record {
    at = λ es i. ground arith;
  }

  pub execute_candidate-Frees :
      (world : CandidateWorld R) (role : PipelineRole) (candidate : ModelCandidateSpec)
      (items : List (BatchItem R)) (base : Results R) (max_repair : ℕ)
      → Frees (execute_candidate world role candidate items base max_repair)
  unfolding execute_candidate
  execute_candidate-Frees world role candidate items base max_repair =
      Frees-bind _ _ (record { at = λ es i. i })
        (run_adapter-Frees world role candidate items base max_repair)

  with_judge-Frees :
      (sha : Payload R → String) (peak : Option ℕ) (role : PipelineRole) (c : ModelCandidateSpec)
      (candidates : List (JudgeCandidate R)) (payload : Payload R) (made : Result (Judge R))
      → Frees (with_judge sha peak role c candidates payload made)
  unfolding with_judge after_judge_load after_adjudicate ◌>>=◌
  with_judge-Frees sha peak role c candidates payload (ok judge) = record {
    at = λ es i. ground arith;
  }
  with_judge-Frees sha peak role c candidates payload (err e) = record { at = λ es i. i }

  execute_adjudicator-Frees :
      (sha : Payload R → String) (peak : Option ℕ) (judges : JudgeFactory R) (role : PipelineRole)
      (c : ModelCandidateSpec) (candidates : List (JudgeCandidate R)) (payload : Payload R)
      → Frees (execute_adjudicator sha peak judges role c candidates payload)
  unfolding execute_adjudicator
  execute_adjudicator-Frees sha peak none role c candidates payload =
      with_judge-Frees sha peak role c candidates payload
        (err (other_error "adapter factory does not provide a consensus judge"))
  execute_adjudicator-Frees sha peak (some create) role c candidates payload = record {
    at = λ es i. (with_judge-Frees sha peak role c candidates payload (create es c.spec)).at _ i;
  }

  run_candidates-Frees :
      (world : CandidateWorld R) (group : ModelGroupSpec R) (role : PipelineRole)
      (items : List (BatchItem R)) (base : Results R) (max_repair : ℕ) (first : Bool)
      (cs : List ModelCandidateSpec)
      → Frees (run_candidates world group role items base max_repair first cs)
  unfolding run_candidates
  run_candidates-Frees world group role items base max_repair first [] = Frees-pure []
  run_candidates-Frees world group role items base max_repair first (c ∷ cs) =
      Frees-bind _ _ (execute_candidate-Frees world role c items base max_repair) (λ e.
        Frees-if (stops group role first e) _ _ (Frees-pure (e ∷ [])) (
          Frees-bind _ _ (run_candidates-Frees world group role items base max_repair false cs)
            (λ es. Frees-pure (e ∷ es))))

module _ {R : Type 0} ⦃F : FloatOps R⦄ (world : SessionWorld R) where
  adjudicate-Frees :
      (group : ModelGroupSpec R) (role : PipelineRole) (executions : List (CandidateExecution R))
      (evaluation : ConsensusEvaluation R) (judge : Option ModelCandidateSpec)
      → Frees (adjudicate world group role executions evaluation judge)
  unfolding adjudicate
  adjudicate-Frees group role executions evaluation none = Frees-lift _
  adjudicate-Frees group role executions evaluation (some judge) =
      Frees-bind _ _ (execute_adjudicator-Frees _ _ _ _ _ _ _) (λ a. Frees-lift _)

  resolve-Frees :
      (group : ModelGroupSpec R) (role : PipelineRole) (executions : List (CandidateExecution R))
      → Frees (resolve world group role executions)
  unfolding resolve
  resolve-Frees group role executions =
      Frees-bind _ _ (Frees-lift _)
        (λ e. Frees-if _ _ _ (adjudicate-Frees group role executions e _) (Frees-pure _))

  module _ (batch : WorkerInput R) where
    conclude_stage-Frees :
        (contract : StageContract) (sequence : ℕ) (role : PipelineRole) (before : Capabilities)
        (pre : StageGateRecord) (group : ModelGroupSpec R) (state : SessionState R)
        → Frees (conclude_stage world contract sequence role batch before pre group state)
    unfolding conclude_stage
    conclude_stage-Frees contract sequence role before pre group state =
        Frees-bind _ _ (run_candidates-Frees _ group role batch.items _ _ true _) (λ executions.
          Frees-bind _ _ (resolve-Frees group role executions) (λ resolved.
            Frees-bind _ _ (Frees-lift _)
              (λ consensus. Frees-bind _ _ (Frees-lift _) (λ settled. record { at = λ es i. i }))))

    proceed_stage-Frees :
        (contract : StageContract) (sequence : ℕ) (role : PipelineRole) (before : Capabilities)
        (pre : StageGateRecord) (group : Option (ModelGroupSpec R)) (state : SessionState R)
        → Frees (proceed_stage world contract sequence role batch before pre group state)
    unfolding proceed_stage
    proceed_stage-Frees contract sequence role before pre none state = Frees-lift _
    proceed_stage-Frees contract sequence role before pre (some group) state =
        conclude_stage-Frees contract sequence role before pre group state

    stage_with-Frees :
        (runner : SessionRunner R) (sequence : ℕ) (role : PipelineRole) (contract : StageContract)
        (state : SessionState R)
        → Frees (stage_with world runner batch sequence role contract state)
    unfolding stage_with
    stage_with-Frees runner sequence role contract state =
        let before = derive_capabilities batch (values state.results) in
        let pre = run_preflight contract before (length batch.items) in
        Frees-if (is_proceed pre.decision) _ _
          (proceed_stage-Frees contract sequence role before pre
            (group_of (to_model role) runner.registry) state)
          (Frees-lift _)

    run_stage-Frees :
        (runner : SessionRunner R) (sequence : ℕ) (role : PipelineRole) (state : SessionState R)
        → Frees (run_stage world runner batch sequence role state)
    unfolding run_stage
    run_stage-Frees runner sequence role state =
        Frees-bind _ _ (Frees-lift _)
          (λ contract. stage_with-Frees runner sequence role contract state)

    run_stages-Frees :
        (runner : SessionRunner R) (sequence : ℕ) (roles : List PipelineRole)
        (state : SessionState R)
        → Frees (run_stages world runner batch sequence roles state)
    unfolding run_stages
    run_stages-Frees runner sequence [] state = Frees-pure state
    run_stages-Frees runner sequence (role ∷ roles) state =
        Frees-bind _ _ (run_stage-Frees runner sequence role state)
          (λ state'. run_stages-Frees runner (sequence + 1) roles state')

    run_session-Frees : (runner : SessionRunner R) → Frees (run_session world runner batch)
    unfolding run_session
    run_session-Frees runner =
        Frees-bind _ _ (Frees-lift _)
          (λ results. Frees-bind _ _ (run_stages-Frees runner 1 _ _) (λ state. Frees-lift _))

finalized-IsIdle : (es : Events) → IsIdle es → IsIdle (finalized ∷ es)
finalized-IsIdle es h = rw h

-- A whole job, from any point where no adapter is in memory, never loads a model beside another,
-- never calls one that is not loaded, and ends with none in memory before `finalize_job`: whatever
-- the adapters, the judges and the validators do, and also where the job raises.
pub run_with_trace-IsIdle :
    {R : Type 0} ⦃F : FloatOps R⦄ (world : SessionWorld R) (runner : SessionRunner R)
    (batch : WorkerInput R) (es : Events)
    → IsIdle es
    → IsIdle (run_with_trace world runner batch es).1
unfolding run_with_trace
run_with_trace-IsIdle world runner batch es i =
    finalized-IsIdle (run_session world runner batch es).1
      ((run_session-Frees world batch runner).at es i)
