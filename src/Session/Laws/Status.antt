-- ===== src/Session/Laws/Status.antt =====
-- The status that `_run_with_trace` gives its output, and how its lists grow with the stages.
use fireviewer_ai_worker.Common.{
  ℕ, zero, suc, ◌≡◌, refl, ap, ◌∙◌, String, Bool, true, false, not, ◌||◌, Option, none, some, List,
  [], ◌∷◌, ◌++◌, map, arith, any, length, length-append, any-append, is_some,
}
use fireviewer_ai_worker.Common.Exec.{Result, ok, err, ◌>>=◌}
use fireviewer_ai_worker.Common.Float.{FloatOps}
use fireviewer_ai_worker.Stage.{PipelineRole, StageContract}
use fireviewer_ai_worker.Stage.Capabilities.{Capabilities}
use fireviewer_ai_worker.Stage.Gates.{StageGateRecord, run_postflight}
use fireviewer_ai_worker.Contracts.{ModelRun, RunStatus, skipped}
use fireviewer_ai_worker.Contracts.Trace.{StageTrace, StageAttempt, is_failed, is_succeeded}
use fireviewer_ai_worker.Registry.{ModelSpec}
use fireviewer_ai_worker.Contracts.Trace.{CandidateRun, ConsensusResult, is_retryable}
use fireviewer_ai_worker.Registry.{ModelCandidateSpec}
use fireviewer_ai_worker.Common.{All}
use fireviewer_ai_worker.Consensus.{Results, ConsensusEvaluation}
use fireviewer_ai_worker.Session.Candidate.{CandidateExecution}
use fireviewer_ai_worker.Session.Laws.{Holds}
use fireviewer_ai_worker.Session.Laws.Candidates.{IsPrefix, next}
use fireviewer_ai_worker.Session.Stage.Resolve.{Resolved}
use fireviewer_ai_worker.Session.Stage.{skipped_run, make_trace, skip_stage, unconfigured_stage}
use fireviewer_ai_worker.Session.Stage.Finish.{
  Settled, is_unfinished, finish_stage, find_execution, released_execution, settle, settle_failed,
}
use fireviewer_ai_worker.Session.State.{SessionState}

-- 1, 2, …, n
abbrev pub count_to : ℕ → List ℕ
count_to zero = []
count_to (suc n) = count_to n ++ suc n ∷ []

-- a failed run never stands alone: a gate has left the session unfinished
abbrev pub is_explained : List ModelRun → List StageGateRecord → Bool
is_explained runs records =
    not (any (λ r. is_failed r.status) runs) || any (λ g. is_unfinished g.decision) records

-- The state behind `n` stages: one run and one trace for each, and no failure without its gate.
pub record IsCoherent {R : Type 0} (n : ℕ) (state : SessionState R) : Type 0 where
  pub sequences : map (λ t. t.sequence) state.stage_traces ≡ count_to n
  pub runs_counted : length state.runs ≡ n
  pub explained : is_explained state.runs state.gate_records ≡ true

map-append : {A B : Type 0} (f : A → B) (xs ys : List A) → map f (xs ++ ys) ≡ map f xs ++ map f ys
map-append f [] ys = refl
map-append f (x ∷ xs) ys = ap (λ zs. f x ∷ zs) (map-append f xs ys)

-- a trace that is made has the number that it was asked for
make_trace-sequence :
    (contract : StageContract) (sequence : ℕ) (status : RunStatus) (retryable : Bool)
    (pre : StageGateRecord) (post : Option StageGateRecord) (attempts : List StageAttempt)
    → Holds
        (λ _. Unit {0})
        (λ t. t.sequence ≡ sequence)
        (make_trace contract sequence status retryable pre post attempts)
unfolding make_trace
make_trace-sequence contract sequence status retryable pre none attempts = ground arith
make_trace-sequence contract sequence status retryable pre (some post) attempts = ground arith

sequences-append :
    (n : ℕ) (traces : List StageTrace) (trace : StageTrace)
    → map (λ t. t.sequence) traces ≡ count_to n
    → trace.sequence ≡ suc n
    → map (λ t. t.sequence) (traces ++ trace ∷ []) ≡ count_to (suc n)
sequences-append n traces trace h e =
    map-append (λ t. t.sequence) traces (trace ∷ []) ∙ ground (arith, h, e)

explained-append :
    (runs : List ModelRun) (run : ModelRun) (records gates : List StageGateRecord)
    → is_explained runs records ≡ true
    → (not (is_failed run.status) || any (λ g. is_unfinished g.decision) gates) ≡ true
    → is_explained (runs ++ run ∷ []) (records ++ gates) ≡ true
unfolding any
explained-append runs run records gates h g = ground (
  arith,
  any-append (λ r. is_failed r.status) runs (run ∷ []),
  any-append (λ r. is_unfinished r.decision) records gates,
)

module _ {R : Type 0} (n : ℕ) where
  -- a stage that is skipped
  after_skip-Holds :
      (role : PipelineRole) (model_id revision : String) (error : Option String)
      (errors : List String) (gates : List StageGateRecord) (state : SessionState R)
      (made : Result StageTrace)
      → IsCoherent n state
      → Holds (λ _. Unit {0}) (λ t. t.sequence ≡ suc n) made
      → Holds
          (λ _. Unit {0})
          (IsCoherent (suc n))
          (made >>= λ trace. ok (record state {
            errors = errors;
            runs = state.runs ++ skipped_run role model_id revision error ∷ [];
            gate_records = state.gate_records ++ gates;
            stage_traces = state.stage_traces ++ trace ∷ [];
          }))
  after_skip-Holds role model_id revision error errors gates state (err e) h t = tt
  after_skip-Holds role model_id revision error errors gates state (ok trace) h t = record {
    sequences = sequences-append n state.stage_traces trace h.sequences t;
    runs_counted = ground (
      arith,
      length-append state.runs (skipped_run role model_id revision error ∷ []),
      h.runs_counted,
    );
    explained = explained-append state.runs _ state.gate_records gates h.explained refl;
  }

  pub skip_stage-Holds :
      (contract : StageContract) (role : PipelineRole) (primary : Option ModelSpec)
      (pre : StageGateRecord) (state : SessionState R)
      → IsCoherent n state
      → Holds
          (λ _. Unit {0})
          (IsCoherent (suc n))
          (skip_stage contract (suc n) role primary pre state)
  unfolding skip_stage
  skip_stage-Holds contract role primary pre state h =
      after_skip-Holds role _ _ _ _ (pre ∷ []) state _ h
        (make_trace-sequence contract (suc n) skipped _ pre none [])

  pub unconfigured_stage-Holds :
      (contract : StageContract) (role : PipelineRole) (pre post : StageGateRecord)
      (state : SessionState R)
      → IsCoherent n state
      → Holds
          (λ _. Unit {0})
          (IsCoherent (suc n))
          (unconfigured_stage contract (suc n) role pre post state)
  unfolding unconfigured_stage
  unconfigured_stage-Holds contract role pre post state h =
      after_skip-Holds role _ _ _ _ (pre ∷ post ∷ []) state _ h
        (make_trace-sequence contract (suc n) skipped false pre (some post) [])

module _ {R : Type 0} where
  -- the answers of the executions are there exactly for the runs that succeeded
  abbrev pub AnswersMatch : List (CandidateExecution R) → Type 0
  AnswersMatch = All (λ e. is_some e.results ≡ is_succeeded e.run.status)

  pub prefix-AnswersMatch :
      (cs : List ModelCandidateSpec) (es : List (CandidateExecution R))
      → IsPrefix cs es
      → AnswersMatch es
  prefix-AnswersMatch cs [] p = tt
  prefix-AnswersMatch [] (e ∷ es) p = elim p [ ]
  prefix-AnswersMatch (c ∷ cs) (e ∷ es) (next faithful rest) =
      (faithful.answered, prefix-AnswersMatch cs es rest)

  abbrev released_ok : Option (CandidateExecution R × Results R) → Bool
  released_ok none = true
  released_ok (some (e, results)) = not (is_failed e.run.status)

  released-match :
      (evaluation : ConsensusEvaluation R) (selected : Option String)
      (es : List (CandidateExecution R))
      → AnswersMatch es
      → released_ok (released_execution evaluation (find_execution selected es)) ≡ true
  unfolding find_execution released_execution
  released-match evaluation selected [] h = refl
  released-match evaluation selected (e ∷ es) h =
      ground (arith, h.0, released-match evaluation selected es h.1)

  pub settle-Holds :
      (role : PipelineRole) (evaluation : ConsensusEvaluation R) (results : Results R)
      (es : List (CandidateExecution R))
      → AnswersMatch es
      → Holds
          (λ _. Unit {0})
          (λ s. (not (is_failed s.run.status) || is_failed s.status) ≡ true)
          (settle role evaluation results es)
  unfolding settle settle_failed
  settle-Holds role evaluation results es h =
      ground (arith, released-match evaluation evaluation.selected_candidate_id es h)

module _ {R : Type 0} ⦃F : FloatOps R⦄ (n : ℕ) where
  made-Holds :
      (errors : List String) (gates : List StageGateRecord) (candidate_runs : List (CandidateRun R))
      (consensus : List (ConsensusResult R)) (settled : Settled R) (state : SessionState R)
      (made : Result StageTrace)
      → IsCoherent n state
      → Holds (λ _. Unit {0}) (λ t. t.sequence ≡ suc n) made
      → (not (is_failed settled.run.status) || any (λ g. is_unfinished g.decision) gates) ≡ true
      → Holds
          (λ _. Unit {0})
          (IsCoherent (suc n))
          (made >>= λ trace. ok (record {
            results = settled.results;
            runs = state.runs ++ settled.run ∷ [];
            errors = errors;
            gate_records = state.gate_records ++ gates;
            stage_traces = state.stage_traces ++ trace ∷ [];
            candidate_runs = candidate_runs;
            consensus_results = consensus;
          }))
  made-Holds errors gates candidate_runs consensus settled state (err e) h t g = tt
  made-Holds errors gates candidate_runs consensus settled state (ok trace) h t g = record {
    sequences = sequences-append n state.stage_traces trace h.sequences t;
    runs_counted = ground (arith, length-append state.runs (settled.run ∷ []), h.runs_counted);
    explained = explained-append state.runs settled.run state.gate_records gates h.explained g;
  }

  pub finish_stage-Holds :
      (contract : StageContract) (role : PipelineRole) (pre post : StageGateRecord)
      (executions : List (CandidateExecution R)) (resolved : Resolved R)
      (consensus : ConsensusResult R) (settled : Settled R) (state : SessionState R)
      → IsCoherent n state
      → (not (is_failed settled.run.status) || is_unfinished post.decision) ≡ true
      → Holds
          (λ _. Unit {0})
          (IsCoherent (suc n))
          (finish_stage contract (suc n) role pre post executions resolved consensus settled state)
  unfolding finish_stage any
  finish_stage-Holds contract role pre post executions resolved consensus settled state h e =
      made-Holds _ (pre ∷ post ∷ []) _ _ settled state _ h
        (make_trace-sequence contract (suc n) settled.status (is_retryable post.decision) pre
          (some post) settled.attempts)
        (ground arith)

  -- a failed stage is left unfinished by its postflight
  pub postflight-unfinished :
      (contract : StageContract) (before after : Capabilities) (status : RunStatus)
      (error_code : Option String) (elapsed : R) (most : ℕ)
      → (not (is_failed status)
          || is_unfinished
              (run_postflight contract before after status error_code elapsed most).decision)
        ≡ true
  unfolding run_postflight
  postflight-unfinished contract before after status error_code elapsed most = ground arith
