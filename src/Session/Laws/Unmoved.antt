-- ===== src/Session/Laws/Unmoved.antt =====
-- No model of a session moves a result: from the loop over the candidates to the end of the stages.
pub mod Job
use fireviewer_ai_worker.Common.{
  ℕ, ◌+◌, ◌≡◌, refl, sym, ap, ◌∙◌, String, Bool, true, false, Option, none, some, List, [], ◌∷◌,
  ◌++◌, map, arith, All, if◌then◌else◌, length, str_eq, Option-cases, inl, inr,
}
use fireviewer_ai_worker.Common.Exec.{Exception, Result, ok, err}
use fireviewer_ai_worker.Common.Float.{FloatOps}
use fireviewer_ai_worker.Common.Dict.{lookup, values}
use fireviewer_ai_worker.Stage.{PipelineRole, StageContract}
use fireviewer_ai_worker.Stage.Capabilities.{Capabilities, derive_capabilities}
use fireviewer_ai_worker.Stage.Gates.{StageGateRecord, run_preflight}
use fireviewer_ai_worker.Contracts.{BatchItem, WorkerInput, ItemResult}
use fireviewer_ai_worker.Contracts.Trace.{ConsensusResult}
use fireviewer_ai_worker.Registry.{ModelCandidateSpec, ModelSpec, ModelGroupSpec, to_model}
use fireviewer_ai_worker.Consensus.{Results, ConsensusEvaluation}
use fireviewer_ai_worker.Session.Adapter.{CandidateWorld}
use fireviewer_ai_worker.Session.Candidate.{CandidateExecution}
use fireviewer_ai_worker.Session.Effects.{Eff, Events, ◌>>=◌, lift, pure}
use fireviewer_ai_worker.Session.Stage.{make_trace, skip_stage, unconfigured_stage}
use fireviewer_ai_worker.Session.Stage.Candidates.{stops, run_candidates}
use fireviewer_ai_worker.Session.Stage.Resolve.{Resolved, resolve, make_consensus}
use fireviewer_ai_worker.Session.Stage.Finish.{
  Settled, find_execution, released_execution, settle, settle_failed, finish_stage,
}
use fireviewer_ai_worker.Session.State.{
  SessionState, SessionWorld, SessionRunner, SessionRunResult, group_of, role_order,
  initial_results,
}
use fireviewer_ai_worker.Session.Run.{
  is_proceed, conclude_stage, proceed_stage, stage_with, run_stage, run_stages, finish_session,
  output_items, start_state, run_session, run_with_trace,
}
use fireviewer_ai_worker.Session.Laws.{
  Anything, any-Holds, any-Gives, Holds, Holds-bind, Gives, Gives-pure, Gives-lift, Gives-if,
  Gives-bind,
}
use fireviewer_ai_worker.Session.Laws.Located.{
  Location, location_of, locations, KeepsLocations, execute_candidate-KeepsLocations,
}

module _ {R : Type 0} where
  AllKeep : Results R → List (CandidateExecution R) → Type 0
  AllKeep base = All (λ e. KeepsLocations base e.results)

  run_candidates-AllKeep :
      (world : CandidateWorld R) (group : ModelGroupSpec R) (role : PipelineRole)
      (items : List (BatchItem R)) (base : Results R) (max_repair : ℕ) (first : Bool)
      (cs : List ModelCandidateSpec)
      → Gives Anything
          (AllKeep base)
          (run_candidates world group role items base max_repair first cs)
  unfolding run_candidates AllKeep
  run_candidates-AllKeep world group role items base max_repair first [] = Gives-pure [] tt
  run_candidates-AllKeep world group role items base max_repair first (c ∷ cs) =
      Gives-bind _ _ (execute_candidate-KeepsLocations world role c items base max_repair)
        (λ e kept.
          Gives-if (stops group role first e) _ _ (λ _. Gives-pure (e ∷ []) (kept, tt))
            (λ _.
              Gives-bind _ _
                (run_candidates-AllKeep world group role items base max_repair false cs)
                (λ es rest. Gives-pure (e ∷ es) (kept, rest))))

  abbrev ReleasedKeeps : Results R → Option (CandidateExecution R × Results R) → Type 0
  ReleasedKeeps base none = Unit
  ReleasedKeeps base (some (e, results)) = locations results ≡ locations base

  execution-released :
      (evaluation : ConsensusEvaluation R) (base : Results R) (e : CandidateExecution R)
      → KeepsLocations base e.results
      → ReleasedKeeps base (released_execution evaluation (some e))
  unfolding released_execution
  execution-released evaluation base e h = ground arith

  found-released :
      (evaluation : ConsensusEvaluation R) (base : Results R) (selected : Option String)
      (es : List (CandidateExecution R))
      → AllKeep base es
      → ReleasedKeeps base (released_execution evaluation (find_execution selected es))
  unfolding find_execution AllKeep released_execution
  found-released evaluation base selected [] h = tt
  found-released evaluation base selected (e ∷ es) h = ground (
    arith,
    execution-released evaluation base e h.0,
    found-released evaluation base selected es h.1,
  )

  settle-Holds :
      (role : PipelineRole) (evaluation : ConsensusEvaluation R) (base : Results R)
      (es : List (CandidateExecution R))
      → AllKeep base es
      → Holds Anything (λ s. locations s.results ≡ locations base) (settle role evaluation base es)
  unfolding settle settle_failed
  settle-Holds role evaluation base [] h =
      ground (arith, found-released evaluation base evaluation.selected_candidate_id [] h)
  settle-Holds role evaluation base (e ∷ es) h =
      ground (arith, found-released evaluation base evaluation.selected_candidate_id (e ∷ es) h)

module _ {R : Type 0} where
  -- a state with the locations of the results before
  abbrev pub InPlace : Results R → SessionState R → Type 0
  InPlace base state = locations state.results ≡ locations base

  skip_stage-InPlace :
      (contract : StageContract) (sequence : ℕ) (role : PipelineRole) (primary : Option ModelSpec)
      (pre : StageGateRecord) (state : SessionState R)
      → Holds Anything (InPlace state.results) (skip_stage contract sequence role primary pre state)
  unfolding skip_stage
  skip_stage-InPlace contract sequence role primary pre state = ground arith

  unconfigured_stage-InPlace :
      (contract : StageContract) (sequence : ℕ) (role : PipelineRole) (pre post : StageGateRecord)
      (state : SessionState R)
      → Holds Anything
          (InPlace state.results)
          (unconfigured_stage contract sequence role pre post state)
  unfolding unconfigured_stage
  unconfigured_stage-InPlace contract sequence role pre post state = ground arith

module _ {R : Type 0} ⦃F : FloatOps R⦄ where
  finish_stage-InPlace :
      (base : Results R) (contract : StageContract) (sequence : ℕ) (role : PipelineRole)
      (pre post : StageGateRecord) (executions : List (CandidateExecution R))
      (resolved : Resolved R) (consensus : ConsensusResult R) (settled : Settled R)
      (state : SessionState R)
      → locations settled.results ≡ locations base
      → Holds Anything
          (InPlace base)
          (finish_stage contract sequence role pre post executions resolved consensus settled state)
  unfolding finish_stage
  finish_stage-InPlace base contract sequence role pre post executions resolved consensus settled
        state h =
      ground arith

module _ {R : Type 0} ⦃F : FloatOps R⦄ (world : SessionWorld R) (batch : WorkerInput R) where
  conclude_stage-InPlace :
      (contract : StageContract) (sequence : ℕ) (role : PipelineRole) (before : Capabilities)
      (pre : StageGateRecord) (group : ModelGroupSpec R) (state : SessionState R)
      → Gives Anything
          (InPlace state.results)
          (conclude_stage world contract sequence role batch before pre group state)
  unfolding conclude_stage
  conclude_stage-InPlace contract sequence role before pre group state =
      Gives-bind _ _
        (run_candidates-AllKeep world.candidates group role batch.items state.results _ true
          group.candidates)
        (λ executions kept.
          Gives-bind _ _ (any-Gives (resolve world group role executions)) (λ resolved _.
            Gives-bind _ _ (any-Gives _) (λ consensus _.
              Gives-bind _ _
                (Gives-lift _ (settle-Holds role resolved.evaluation state.results executions kept))
                (λ settled h. record {
                  at = λ es.
                      finish_stage-InPlace state.results contract sequence role pre _ executions
                        resolved consensus settled state h;
                }))))

  proceed_stage-InPlace :
      (contract : StageContract) (sequence : ℕ) (role : PipelineRole) (before : Capabilities)
      (pre : StageGateRecord) (group : Option (ModelGroupSpec R)) (state : SessionState R)
      → Gives Anything
          (InPlace state.results)
          (proceed_stage world contract sequence role batch before pre group state)
  unfolding proceed_stage
  proceed_stage-InPlace contract sequence role before pre none state =
      Gives-lift _ (unconfigured_stage-InPlace contract sequence role pre _ state)
  proceed_stage-InPlace contract sequence role before pre (some group) state =
      conclude_stage-InPlace contract sequence role before pre group state

  stage_with-InPlace :
      (runner : SessionRunner R) (sequence : ℕ) (role : PipelineRole) (contract : StageContract)
      (state : SessionState R)
      → Gives Anything
          (InPlace state.results)
          (stage_with world runner batch sequence role contract state)
  unfolding stage_with
  stage_with-InPlace runner sequence role contract state =
      let before = derive_capabilities batch (values state.results) in
      let pre = run_preflight contract before (length batch.items) in
      Gives-if (is_proceed pre.decision) _ _
        (λ _.
          proceed_stage-InPlace contract sequence role before pre
            (group_of (to_model role) runner.registry) state)
        (λ _. Gives-lift _ (skip_stage-InPlace contract sequence role _ pre state))

  run_stage-InPlace :
      (runner : SessionRunner R) (sequence : ℕ) (role : PipelineRole) (state : SessionState R)
      → Gives Anything (InPlace state.results) (run_stage world runner batch sequence role state)
  unfolding run_stage
  run_stage-InPlace runner sequence role state =
      Gives-bind _ _ (any-Gives _)
        (λ contract _. stage_with-InPlace runner sequence role contract state)

  pub run_stages-InPlace :
      (runner : SessionRunner R) (base : Results R) (sequence : ℕ) (roles : List PipelineRole)
      (state : SessionState R)
      → InPlace base state
      → Gives Anything (InPlace base) (run_stages world runner batch sequence roles state)
  unfolding run_stages
  run_stages-InPlace runner base sequence [] state h = Gives-pure state h
  run_stages-InPlace runner base sequence (role ∷ roles) state h =
      Gives-bind _ _ (run_stage-InPlace runner sequence role state)
        (λ state' h'. run_stages-InPlace runner base (sequence + 1) roles state' (h' ∙ h))
