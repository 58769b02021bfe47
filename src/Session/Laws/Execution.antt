-- ===== src/Session/Laws/Execution.antt =====
-- `_execute_candidate` against what the rest of the session reads off an execution.
use fireviewer_ai_worker.Common.{
  ℕ, ◌+◌, ◌≤◌, ◌≡◌, refl, true, false, not, Option, none, some, List, [], ◌∷◌, arith, is_some, ◌&&◌,
  nonempty, All, length, Option-cases, inl, inr, eq_refl,
}
use fireviewer_ai_worker.Common.Exec.{Exception, Result, ok, err}
use fireviewer_ai_worker.Stage.{PipelineRole}
use fireviewer_ai_worker.Contracts.{BatchItem, RunStatus}
use fireviewer_ai_worker.Contracts.Trace.{
  StageAttempt, is_succeeded, is_failed, status_test, validate_attempt, numbered_from, last_status,
  bad_repair, validate_candidate_run,
}
use fireviewer_ai_worker.Registry.{ModelSpec, ModelCandidateSpec}
use fireviewer_ai_worker.Consensus.{Results}
use fireviewer_ai_worker.Session.Adapter.{Adapter, CandidateWorld, candidate_payload}
use fireviewer_ai_worker.Session.Candidate.{
  Attempted, CandidateExecution, status_of, run_of, candidate_run_of, after_load, after_first,
  execution_of, run_adapter, execute_candidate,
}
use fireviewer_ai_worker.Session.Effects.{Event, Events, ◌>>=◌, continue, call, log}
use fireviewer_ai_worker.Session.Laws.{Holds, Gives, Gives-lift, Gives-bind}
use fireviewer_ai_worker.Validation.{OutputScreen}

-- the milliseconds that the attempts took together
abbrev pub attempts_ms : List StageAttempt → ℕ
attempts_ms [] = 0
attempts_ms (a ∷ rest) = a.inference_ms + attempts_ms rest

-- The attempts of one execution, as `validate_trace` wants them for a stage with that status.
pub record AreAttempts (status : RunStatus) (attempts : List StageAttempt) : Type 0 where
  pub at_most_two : length attempts ≤ 2
  pub each_valid : All (λ a. validate_attempt a ≡ ok tt) attempts
  pub numbered : numbered_from 1 attempts ≡ true
  pub repair_after_failure : bad_repair attempts ≡ false
  pub ends_well :
      (is_succeeded status && not (status_test is_succeeded (last_status attempts))) ≡ false
  pub ends_badly :
      (is_failed status
        && (nonempty attempts && not (status_test is_failed (last_status attempts))))
      ≡ false

module _ {R : Type 0} where
  pub record IsAttempted (a : Attempted R) : Type 0 where
    pub attempts_ok : AreAttempts (status_of a.error_code) a.attempts
    pub accounted : a.inference_ms ≡ attempts_ms a.attempts
    pub answered : is_some a.answer ≡ not (is_some a.error_code)
    pub repaired_ok : a.repaired ≡ true → a.error_code ≡ none

  after_load-IsAttempted :
      {E : Exception → Type 0} (screen : OutputScreen R) (max_repair : ℕ) (adapter : Adapter R)
      (items : List (BatchItem R)) (base : Results R) (load : Option Exception)
      → Gives E IsAttempted (after_load screen max_repair adapter items base load)
  unfolding after_load after_first ◌>>=◌ validate_attempt numbered_from last_status bad_repair
  after_load-IsAttempted screen max_repair adapter items base load = record {
    at = λ es. ground arith;
  }

  -- What the session relies on of an execution of a candidate.
  pub record IsFaithful (candidate : ModelCandidateSpec) (e : CandidateExecution R) : Type 0 where
    pub same_candidate : e.candidate ≡ candidate
    pub attempts_ok : AreAttempts e.run.status e.attempts
    pub accounted : e.run.inference_ms ≡ attempts_ms e.attempts
    pub answered : is_some e.results ≡ is_succeeded e.run.status
    pub explained : is_some e.run.error_code ≡ is_failed e.run.status
    pub published : is_some e.candidate_run.output_payload ≡ is_succeeded e.run.status
    pub repaired_ok : (e.repaired && not (is_succeeded e.run.status)) ≡ false
    pub same_status : e.candidate_run.status ≡ e.run.status

  -- the validator of the candidate run never fires
  candidate_run-valid :
      (world : CandidateWorld R) (role : PipelineRole) (candidate : ModelCandidateSpec)
      (adapter : Adapter R) (a : Attempted R)
      → IsAttempted a
      → validate_candidate_run world.json_digest (candidate_run_of world role candidate adapter a)
        ≡ ok tt
  unfolding validate_candidate_run candidate_run_of
  candidate_run-valid world role candidate adapter a h = elim (Option-cases a.answer) [
    | inl none_given ↦ ground arith
    | inr ((patches, results), e) ↦
        ground (arith, eq_refl (world.json_digest (candidate_payload world.dump_patch patches)))
  ]

  execution_of-IsFaithful :
      (E : Exception → Type 0) (world : CandidateWorld R) (role : PipelineRole)
      (candidate : ModelCandidateSpec) (adapter : Adapter R) (a : Attempted R)
      → IsAttempted a
      → Holds E (IsFaithful candidate) (execution_of world role candidate adapter a)
  unfolding execution_of run_of
  execution_of-IsFaithful E world role candidate adapter a h =
      rw (candidate_run-valid world role candidate adapter a h, Holds) (ground arith)

-- the exceptions that the factory and the release of an adapter may raise
pub record Allows {R : Type 0} (world : CandidateWorld R) (E : Exception → Type 0) : Type 0 where
  pub at_create :
      (es : Events) (spec : ModelSpec) (e : Exception) → world.create es spec ≡ err e → E e
  pub at_release :
      (es : Events) (spec : ModelSpec) (adapter : Adapter R) (e : Exception)
      → world.create es spec ≡ ok adapter
      → adapter.unload ≡ some e
      → E e

call-Gives :
    (E : Exception → Type 0) (event : Event) (raised : Option Exception)
    → ((e : Exception) → raised ≡ some e → E e)
    → Gives E (λ _. Unit {0}) (call event raised)
call-Gives E event none h = record { at = λ es. tt }
call-Gives E event (some e) h = record { at = λ es. h e refl }

log-Gives : (E : Exception → Type 0) (event : Event) → Gives E (λ _. Unit {0}) (log event)
log-Gives E event = record { at = λ es. tt }

module _ {R : Type 0} (world : CandidateWorld R) (role : PipelineRole)
    (candidate : ModelCandidateSpec) (items : List (BatchItem R)) (base : Results R)
    (max_repair : ℕ) where
  run_adapter-Gives :
      (E : Exception → Type 0) (adapter : Adapter R)
      → ((e : Exception) → adapter.unload ≡ some e → E e)
      → Gives E
          (IsFaithful candidate)
          (run_adapter world role candidate items base max_repair adapter)
  unfolding run_adapter
  run_adapter-Gives E adapter h = Gives-bind _ _ (log-Gives E _) (λ _ _.
      Gives-bind _ _ (log-Gives E _) (λ _ _.
        Gives-bind _ _
          (after_load-IsAttempted world.screen max_repair adapter items base adapter.load)
          (λ a attempted. Gives-bind _ _ (call-Gives E _ _ h) (λ _ _.
            Gives-lift _ (execution_of-IsFaithful E world role candidate adapter a attempted)))))

  created-Gives :
      (E : Exception → Type 0) (es : Events) (made : Result (Adapter R))
      → ((e : Exception) → made ≡ err e → E e)
      → ((adapter : Adapter R) (e : Exception) → made ≡ ok adapter → adapter.unload ≡ some e → E e)
      → Holds E
          (IsFaithful candidate)
          (continue made (run_adapter world role candidate items base max_repair) es).0
  created-Gives E es (ok adapter) hc hr =
      (run_adapter-Gives E adapter (λ e. hr adapter e refl)).at es
  created-Gives E es (err e) hc hr = hc e refl

  pub execute_candidate-Gives :
      (E : Exception → Type 0)
      → Allows world E
      → Gives E
          (IsFaithful candidate)
          (execute_candidate world role candidate items base max_repair)
  unfolding execute_candidate ◌>>=◌
  execute_candidate-Gives E allows = record {
    at = λ es.
        created-Gives E _ (world.create es candidate.spec) (allows.at_create es candidate.spec)
          (allows.at_release es candidate.spec);
  }

  -- `_execute_candidate` raises only what the factory or the release of an adapter raises: whatever
  -- loading, inference and the validators do, it returns an execution of the candidate, whose run
  -- record passes its validator. There are at most two attempts, numbered from 1, the second only as
  -- a repair of a failed first, and their times add up to the run's. Results and output are there
  -- exactly if the run succeeded, an error code exactly if it failed, and what failed is not
  -- repaired.
  pub execute_candidate-IsFaithful :
      (E : Exception → Type 0) (es : Events)
      → Allows world E
      → Holds E
          (IsFaithful candidate)
          (execute_candidate world role candidate items base max_repair es).0
  execute_candidate-IsFaithful E es allows = (execute_candidate-Gives E allows).at es
