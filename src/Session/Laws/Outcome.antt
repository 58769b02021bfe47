-- ===== src/Session/Laws/Outcome.antt =====
-- The outcome of `run_with_trace`: the loop over the stages, and the status of the output.
use mathlib.Core.Path.{subst}
use fireviewer_ai_worker.Common.{
  ℕ, suc, ◌+◌, ◌≡◌, refl, sym, Bool, true, not, ◌||◌, Option, none, some, List, [], ◌∷◌, map, arith,
  if◌then◌else◌, any, length, ◌==◌, count_of,
}
use fireviewer_ai_worker.Common.Float.{FloatOps}
use fireviewer_ai_worker.Common.Dict.{values}
use fireviewer_ai_worker.Stage.{PipelineRole, StageContract}
use fireviewer_ai_worker.Stage.Capabilities.{Capabilities, derive_capabilities}
use fireviewer_ai_worker.Stage.Gates.{StageGateRecord, run_preflight}
use fireviewer_ai_worker.Contracts.{WorkerInput, ModelRun, OutputStatus, partial_failure}
use fireviewer_ai_worker.Contracts.Trace.{is_failed}
use fireviewer_ai_worker.Registry.{ModelGroupSpec, to_model}
use fireviewer_ai_worker.Session.Effects.{Events, lift}
use fireviewer_ai_worker.Session.Adapter.{CandidateWorld}
use fireviewer_ai_worker.Session.Merge.{maximum_stage_output_items}
use fireviewer_ai_worker.Session.Stage.Resolve.{resolve}
use fireviewer_ai_worker.Session.Stage.Finish.{Settled, stage_postflight, is_unfinished}
use fireviewer_ai_worker.Session.State.{
  SessionState, SessionWorld, SessionRunner, SessionRunResult, group_of, role_order,
  initial_results,
}
use fireviewer_ai_worker.Session.Run.{
  is_proceed, conclude_stage, proceed_stage, stage_with, run_stage, run_stages, is_incomplete,
  overall_status, finish_session, start_state, run_session, run_with_trace, output_items,
}
use fireviewer_ai_worker.Session.Laws.{
  Anything, any-Holds, any-Gives, Holds, Holds-bind, Gives, Gives-pure, Gives-lift, Gives-if,
  Gives-bind,
}
use fireviewer_ai_worker.Session.Laws.Execution.{Allows}
use fireviewer_ai_worker.Session.Laws.Candidates.{run_candidates-Gives}
use fireviewer_ai_worker.Session.Laws.Status.{
  IsCoherent, skip_stage-Holds, unconfigured_stage-Holds, finish_stage-Holds, settle-Holds,
  postflight-unfinished, prefix-AnswersMatch, is_explained,
}

any-Allows : {R : Type 0} (world : CandidateWorld R) → Allows world Anything
any-Allows world = record { at_create = λ es spec e h. tt; at_release = λ es spec a e h g. tt }

implied : (a b c : Bool) → (not a || b) ≡ true → (not b || c) ≡ true → (not a || c) ≡ true
implied a b c h g = ground arith

module _ {R : Type 0} ⦃F : FloatOps R⦄ (world : SessionWorld R) (batch : WorkerInput R)
    (n : ℕ) where
  stage_postflight-unfinished :
      (contract : StageContract) (role : PipelineRole) (before : Capabilities) (elapsed : R)
      (settled : Settled R)
      → (not (is_failed settled.status)
          || is_unfinished (stage_postflight contract role batch before elapsed settled).decision)
        ≡ true
  unfolding stage_postflight
  stage_postflight-unfinished contract role before elapsed settled =
      postflight-unfinished n contract before (derive_capabilities batch (values settled.results))
        settled.status settled.error_code elapsed
        (maximum_stage_output_items role (values settled.results))

  conclude_stage-Gives :
      (contract : StageContract) (role : PipelineRole) (before : Capabilities)
      (pre : StageGateRecord) (group : ModelGroupSpec R) (state : SessionState R)
      → IsCoherent n state
      → Gives Anything
          (IsCoherent (suc n))
          (conclude_stage world contract (suc n) role batch before pre group state)
  unfolding conclude_stage
  conclude_stage-Gives contract role before pre group state h =
      Gives-bind _ _
        (run_candidates-Gives world.candidates group role batch.items state.results _ Anything
          (any-Allows world.candidates) true group.candidates)
        (λ executions made.
          Gives-bind _ _ (any-Gives (resolve world group role executions)) (λ resolved _.
            Gives-bind _ _ (any-Gives _) (λ consensus _.
              Gives-bind _ _
                (Gives-lift _ (
                  settle-Holds role resolved.evaluation state.results executions
                    (prefix-AnswersMatch _ _ made.prefix)))
                (λ settled e. record {
                  at = λ es.
                      finish_stage-Holds n contract role pre _ executions resolved consensus settled
                        state h
                        (implied (is_failed settled.run.status) (is_failed settled.status) _ e (
                          stage_postflight-unfinished contract role before
                            (world.elapsed_seconds es) settled));
                }))))

  proceed_stage-Gives :
      (contract : StageContract) (role : PipelineRole) (before : Capabilities)
      (pre : StageGateRecord) (group : Option (ModelGroupSpec R)) (state : SessionState R)
      → IsCoherent n state
      → Gives Anything
          (IsCoherent (suc n))
          (proceed_stage world contract (suc n) role batch before pre group state)
  unfolding proceed_stage
  proceed_stage-Gives contract role before pre none state h =
      Gives-lift _ (unconfigured_stage-Holds n contract role pre _ state h)
  proceed_stage-Gives contract role before pre (some group) state h =
      conclude_stage-Gives contract role before pre group state h

  stage_with-Gives :
      (runner : SessionRunner R) (role : PipelineRole) (contract : StageContract)
      (state : SessionState R)
      → IsCoherent n state
      → Gives Anything
          (IsCoherent (suc n))
          (stage_with world runner batch (suc n) role contract state)
  unfolding stage_with
  stage_with-Gives runner role contract state h =
      let before = derive_capabilities batch (values state.results) in
      let pre = run_preflight contract before (length batch.items) in
      Gives-if (is_proceed pre.decision) _ _
        (λ _.
          proceed_stage-Gives contract role before pre (group_of (to_model role) runner.registry)
            state h)
        (λ _. Gives-lift _ (skip_stage-Holds n contract role _ pre state h))

  run_stage-Gives :
      (runner : SessionRunner R) (role : PipelineRole) (state : SessionState R)
      → IsCoherent n state
      → Gives Anything (IsCoherent (suc n)) (run_stage world runner batch (suc n) role state)
  unfolding run_stage
  run_stage-Gives runner role state h =
      Gives-bind _ _ (any-Gives _) (λ contract _. stage_with-Gives runner role contract state h)

module _ {R : Type 0} ⦃F : FloatOps R⦄ (world : SessionWorld R) (batch : WorkerInput R) where
  run_stages-Gives :
      (runner : SessionRunner R) (n m sequence : ℕ) (roles : List PipelineRole)
      (state : SessionState R)
      → m ≡ length roles + n
      → sequence ≡ suc n
      → IsCoherent n state
      → Gives Anything (IsCoherent m) (run_stages world runner batch sequence roles state)
  unfolding run_stages
  run_stages-Gives runner n m sequence [] state em es h =
      Gives-pure state (subst (λ k. IsCoherent k state) (omega (arith, em)) h)
  run_stages-Gives runner n m sequence (role ∷ roles) state em es h =
      Gives-bind _ _
        (subst
          (λ k. Gives Anything (IsCoherent (suc n)) (run_stage world runner batch k role state))
          (sym es) (run_stage-Gives world batch n runner role state h))
        (λ state' h'.
          run_stages-Gives runner (suc n) m (sequence + 1) roles state' (omega (arith, em))
            (omega (arith, es)) h')

-- What the output of a job says of itself.
pub record IsReported {R : Type 0} (r : SessionRunResult R) : Type 0 where
  pub stages : map (λ t. t.sequence) r.stage_traces ≡ 1 ∷ 2 ∷ 3 ∷ 4 ∷ []
  pub runs : length r.output.model_runs ≡ 4
  pub explained : is_explained r.output.model_runs r.gate_records ≡ true
  pub status : r.output.status ≡ (
      if is_incomplete r.output.model_runs r.gate_records
      then partial_failure
      else OutputStatus.succeeded)

count_of-any : {A : Type 0} (p : A → Bool) (xs : List A) → (count_of p xs == 0) ≡ not (any p xs)
unfolding count_of any
count_of-any p [] = refl
count_of-any p (x ∷ xs) = ground (arith, count_of-any p xs)

-- where no failure stands alone, the third status is never chosen
overall_status-eq :
    (runs : List ModelRun) (records : List StageGateRecord)
    → is_explained runs records ≡ true
    → overall_status runs records
      ≡ (if is_incomplete runs records then partial_failure else OutputStatus.succeeded)
unfolding overall_status is_incomplete
overall_status-eq runs records h = ground (arith, count_of-any (λ r. is_failed r.status) runs, h)

module _ {R : Type 0} ⦃F : FloatOps R⦄ (world : SessionWorld R) (runner : SessionRunner R)
    (batch : WorkerInput R) where
  finish_session-Holds :
      (state : SessionState R)
      → IsCoherent 4 state
      → Holds Anything IsReported (finish_session runner batch state)
  unfolding finish_session
  finish_session-Holds state h =
      Holds-bind Anything (λ _. Unit {0}) IsReported (output_items batch.items state.results) _
        (any-Holds (output_items batch.items state.results))
        (λ items _. record {
          stages = h.sequences;
          runs = h.runs_counted;
          explained = h.explained;
          status = overall_status-eq state.runs state.gate_records h.explained;
        })

  run_session-Gives : Gives Anything IsReported (run_session world runner batch)
  unfolding run_session any
  run_session-Gives =
      Gives-bind _ _ (any-Gives (lift (initial_results batch.items []))) (λ results _.
        Gives-bind _ _
          (run_stages-Gives world batch runner 0 4 1 role_order (start_state results) refl refl
            (record { sequences = refl; runs_counted = refl; explained = refl }))
          (λ state h. Gives-lift _ (finish_session-Holds state h)))

  -- A job that returns reports on the four stages in their order, with one run for each. No run has
  -- failed unless a gate asks for a review or has failed too, and the status is succeeded or
  -- partial_failure: the latter exactly if a gate has ended so or a skipped run has an error code.
  -- The third status of the output, failed, is never reported.
  pub run_with_trace-IsReported :
      (es : Events) → Holds Anything IsReported (run_with_trace world runner batch es).0
  unfolding run_with_trace
  run_with_trace-IsReported es = run_session-Gives.at es
