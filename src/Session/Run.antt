-- ===== src/Session/Run.antt =====
-- `SessionRunner.run_with_trace` and `_run_with_trace` of session_runner.py: the loop over the four
-- stages, the status of the output, and the end of the job.
use fireviewer_ai_worker.Common.{
  ℕ, ◌+◌, Bool, true, false, not, ◌&&◌, ◌||◌, Option, none, some, List, [], ◌∷◌, ltb, ◌==◌,
  if◌then◌else◌, any, count_of, length,
}
use fireviewer_ai_worker.Common.Exec.{key_error, Result, ok, err}
use fireviewer_ai_worker.Common.Float.{FloatOps}
use fireviewer_ai_worker.Common.Dict.{lookup, values}
use fireviewer_ai_worker.Stage.{PipelineRole, StageContract, to_stage}
use fireviewer_ai_worker.Stage.Capabilities.{Capabilities, derive_capabilities}
use fireviewer_ai_worker.Stage.Gates.{StageGateRecord, run_preflight, run_postflight}
use fireviewer_ai_worker.Contracts.{
  BatchItem, WorkerInput, ItemResult, ModelRun, OutputStatus, partial_failure, skipped,
}
use fireviewer_ai_worker.Contracts.Trace.{
  GateDecision, proceed, is_failed, is_succeeded, is_skipped, is_retryable,
}
use fireviewer_ai_worker.Contracts.Validators.{truthy}
use fireviewer_ai_worker.Registry.{ModelGroupSpec, to_model}
use fireviewer_ai_worker.Consensus.{Results}
use fireviewer_ai_worker.Session.Effects.{finalized, Eff, pure, lift, ◌>>=◌}
use fireviewer_ai_worker.Session.Stage.{skip_stage, unconfigured_stage, primary_spec, missing_model}
use fireviewer_ai_worker.Session.Stage.Candidates.{run_candidates}
use fireviewer_ai_worker.Session.Stage.Resolve.{resolve, make_consensus}
use fireviewer_ai_worker.Session.Stage.Finish.{
  settle, stage_postflight, finish_stage, is_unfinished,
}
use fireviewer_ai_worker.Session.State.{
  SessionState, SessionWorld, SessionRunner, SessionRunResult, role_order, group_of, contract_of,
  initial_results,
}

abbrev pub is_proceed : GateDecision → Bool
is_proceed proceed = true
is_proceed _ = false

module _ {R : Type 0} ⦃F : FloatOps R⦄ where
  -- what follows the candidates and their consensus; the clock is read for the postflight
  unfoldable pub conclude_stage :
      SessionWorld R
      → StageContract
      → ℕ
      → PipelineRole
      → WorkerInput R
      → Capabilities
      → StageGateRecord
      → ModelGroupSpec R
      → SessionState R
      → Eff (SessionState R)
  conclude_stage world contract sequence role batch before pre group state =
      run_candidates world.candidates group role batch.items state.results
        contract.max_repair_attempts true group.candidates
      >>= λ executions. resolve world group role executions >>= λ resolved.
          lift (make_consensus world.candidates.json_digest group role executions resolved)
          >>= λ consensus.
              lift (settle role resolved.evaluation state.results executions) >>= λ settled es. (
                finish_stage contract sequence role pre
                    (stage_postflight contract role batch before (world.elapsed_seconds es) settled)
                    executions resolved consensus settled state,
                es,
              )

  -- a stage that the preflight lets proceed
  unfoldable pub proceed_stage :
      SessionWorld R
      → StageContract
      → ℕ
      → PipelineRole
      → WorkerInput R
      → Capabilities
      → StageGateRecord
      → Option (ModelGroupSpec R)
      → SessionState R
      → Eff (SessionState R)
  proceed_stage world contract sequence role batch before pre none state = lift (
      unconfigured_stage contract sequence role pre
        (run_postflight contract before before skipped (some (missing_model role)) (F.of_int 0) 0)
        state)
  proceed_stage world contract sequence role batch before pre (some group) state =
      conclude_stage world contract sequence role batch before pre group state

  -- the body of the loop, on the contract of the stage
  unfoldable pub stage_with :
      SessionWorld R
      → SessionRunner R
      → WorkerInput R
      → ℕ
      → PipelineRole
      → StageContract
      → SessionState R
      → Eff (SessionState R)
  stage_with world runner batch sequence role contract state =
      let before = derive_capabilities batch (values state.results) in
      let pre = run_preflight contract before (length batch.items) in
      let group = group_of (to_model role) runner.registry in
      if is_proceed pre.decision
      then proceed_stage world contract sequence role batch before pre group state
      else lift (skip_stage contract sequence role (primary_spec group) pre state)

  unfoldable pub run_stage :
      SessionWorld R
      → SessionRunner R
      → WorkerInput R
      → ℕ
      → PipelineRole
      → SessionState R
      → Eff (SessionState R)
  run_stage world runner batch sequence role state =
      lift (contract_of (to_stage role) runner.contracts) >>= λ contract.
      stage_with world runner batch sequence role contract state

  -- for sequence, role in enumerate(ROLE_ORDER, start=1)
  unfoldable pub run_stages :
      SessionWorld R
      → SessionRunner R
      → WorkerInput R
      → ℕ
      → List PipelineRole
      → SessionState R
      → Eff (SessionState R)
  run_stages world runner batch sequence [] state = pure state
  run_stages world runner batch sequence (role ∷ roles) state =
      run_stage world runner batch sequence role state >>= λ state'.
      run_stages world runner batch (sequence + 1) roles state'

-- incomplete
unfoldable pub is_incomplete : List ModelRun → List StageGateRecord → Bool
is_incomplete runs records =
    any (λ r. is_skipped r.status && truthy r.error_code) runs
    || any (λ g. is_unfinished g.decision) records

-- overall_status
unfoldable pub overall_status : List ModelRun → List StageGateRecord → OutputStatus
unfolding is_incomplete
overall_status runs records =
    if (count_of (λ r. is_failed r.status) runs == 0) && not (is_incomplete runs records)
    then OutputStatus.succeeded
    else if ltb 0 (count_of (λ r. is_succeeded r.status) runs) || is_incomplete runs records
    then partial_failure
    else OutputStatus.failed

module _ {R : Type 0} where
  -- tuple(results[item.input_id] for item in batch.items)
  unfoldable pub output_items : List (BatchItem R) → Results R → Result (List (ItemResult R))
  output_items [] results = ok []
  output_items (item ∷ items) results = elim (lookup item.input_id results) [
    | none ↦ err (key_error item.input_id)
    | some r ↦ elim (output_items items results) [ err e ↦ err e | ok rs ↦ ok (r ∷ rs) ]
  ]

  -- what follows the loop
  unfoldable pub finish_session :
      SessionRunner R → WorkerInput R → SessionState R → Result (SessionRunResult R)
  unfolding output_items overall_status
  finish_session runner batch state = elim (output_items batch.items state.results) [
    | err e ↦ err e
    | ok items ↦ ok (record {
      output = record {
        batch_id = batch.batch_id;
        status = overall_status state.runs state.gate_records;
        retryable = any (λ g. is_retryable g.decision) state.gate_records;
        model_runs = state.runs;
        items = items;
        validation_errors = state.errors;
        boot_ms = runner.boot_ms;
      };
      gate_records = state.gate_records;
      stage_traces = state.stage_traces;
      candidate_runs = state.candidate_runs;
      consensus_results = state.consensus_results;
    })
  ]

  abbrev pub start_state : Results R → SessionState R
  start_state results = record {
    results = results;
    runs = [];
    errors = [];
    gate_records = [];
    stage_traces = [];
    candidate_runs = [];
    consensus_results = [];
  }

module _ {R : Type 0} ⦃F : FloatOps R⦄ where
  -- _run_with_trace
  unfoldable pub run_session :
      SessionWorld R → SessionRunner R → WorkerInput R → Eff (SessionRunResult R)
  run_session world runner batch = lift (initial_results batch.items []) >>= λ results.
      run_stages world runner batch 1 role_order (start_state results) >>= λ state.
      lift (finish_session runner batch state)

  -- run_with_trace: `finally: self.memory.finalize_job()`
  unfoldable pub run_with_trace :
      SessionWorld R → SessionRunner R → WorkerInput R → Eff (SessionRunResult R)
  run_with_trace world runner batch es =
      let (r, es') = run_session world runner batch es in (r, finalized ∷ es')
