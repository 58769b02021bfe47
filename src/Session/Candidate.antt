-- ===== src/Session/Candidate.antt =====
-- `SessionRunner._execute_candidate` of session_runner.py, lines 334 to 523: one candidate model is
-- created, loaded, run, given one repair if the contract allows it, and released.
use fireviewer_ai_worker.Common.{
  ℕ, ◌+◌, String, Bool, true, false, not, ◌&&◌, Option, none, some, List, [], ◌∷◌, ltb,
  if◌then◌else◌,
}
use fireviewer_ai_worker.Common.Exec.{Exception, Result, ok, err}
use fireviewer_ai_worker.Common.Json.{Payload}
use fireviewer_ai_worker.Stage.{PipelineRole, asr, fire_detection, visual_grounding}
use fireviewer_ai_worker.Contracts.{BatchItem, ModelRun, RunStatus, succeeded, failed}
use fireviewer_ai_worker.Contracts.Trace.{
  CandidateRun, WorkerModelRole, StageAttempt, AttemptKind, initial, repair, validate_candidate_run,
}
use fireviewer_ai_worker.Registry.{ModelSpec, ModelCandidateSpec}
use fireviewer_ai_worker.Consensus.{Results}
use fireviewer_ai_worker.Validation.{OutputScreen}
use fireviewer_ai_worker.Session.Merge.{Patches, as_patches, validated_answer}
use fireviewer_ai_worker.Session.Adapter.{
  Adapter, CandidateWorld, is_output_error, error_code_of, candidate_payload,
}
use fireviewer_ai_worker.Session.Effects.{
  created, peak_reset, loaded, inferred, released, Eff, pure, lift, log, call, ◌>>=◌, ◌>>◌,
  construct,
}

-- status = "succeeded" is set last, so it holds exactly if nothing was raised
abbrev pub status_of : Option String → RunStatus
status_of none = succeeded
status_of (some error) = failed

-- how the `try` of `_execute_candidate` has ended
pub record Attempted (R : Type 0) : Type 0 where
  pub load_ms : ℕ
  pub inference_ms : ℕ
  pub attempts : List StageAttempt
  pub answer : Option (Patches R × Results R)
  pub repaired : Bool
  pub error_code : Option String

pub record CandidateExecution (R : Type 0) : Type 0 where
  pub candidate : ModelCandidateSpec
  pub run : ModelRun
  pub candidate_run : CandidateRun R
  pub results : Option (Results R)
  pub attempts : List StageAttempt
  pub repaired : Bool

abbrev attempt_of : ℕ → AttemptKind → RunStatus → ℕ → Option ℕ → Option String → StageAttempt
attempt_of n kind status ms peak error = record {
  attempt = n;
  kind = kind;
  status = status;
  inference_ms = ms;
  peak_vram_bytes = peak;
  error_code = error;
}

-- _model_role_v2
abbrev pub worker_role : PipelineRole → WorkerModelRole
worker_role asr = WorkerModelRole.asr
worker_role fire_detection = WorkerModelRole.visual_filtering
worker_role visual_grounding = WorkerModelRole.visual_grounding
worker_role _ = WorkerModelRole.multimodal_extraction

module _ {R : Type 0} where
  abbrev first_attempt : Adapter R → RunStatus → Option String → StageAttempt
  first_attempt adapter status error =
      attempt_of 1 initial status (adapter.infer_ms false) (adapter.infer_peak false) error

  abbrev second_attempt : Adapter R → RunStatus → Option String → StageAttempt
  second_attempt adapter status error =
      attempt_of 2 repair status (adapter.infer_ms true) (adapter.infer_peak true) error

  -- the end of the `try` after the correction has answered
  unfoldable pub after_repair :
      Adapter R → StageAttempt → Result (Patches R × Results R) → Attempted R
  after_repair adapter first (ok answer) = record {
    load_ms = adapter.load_ms;
    inference_ms = adapter.infer_ms false + adapter.infer_ms true;
    attempts = first ∷ second_attempt adapter succeeded none ∷ [];
    answer = some answer;
    repaired = true;
    error_code = none;
  }
  after_repair adapter first (err e) = record {
    load_ms = adapter.load_ms;
    inference_ms = adapter.infer_ms false + adapter.infer_ms true;
    attempts = first ∷ second_attempt adapter failed (some (error_code_of e)) ∷ [];
    answer = none;
    repaired = false;
    error_code = some (error_code_of e);
  }

  -- the `try` after the first inference has answered; `second` is what the correction would answer
  unfoldable pub after_first :
      ℕ
      → Adapter R
      → Result (Patches R × Results R)
      → Result (Patches R × Results R)
      → Eff (Attempted R)
  unfolding after_repair
  after_first max_repair_attempts adapter second (ok answer) = pure (record {
    load_ms = adapter.load_ms;
    inference_ms = adapter.infer_ms false;
    attempts = first_attempt adapter succeeded none ∷ [];
    answer = some answer;
    repaired = false;
    error_code = none;
  })
  after_first max_repair_attempts adapter second (err e) =
      let first = first_attempt adapter failed (some (error_code_of e)) in
      if is_output_error e && not (ltb max_repair_attempts 1)
      then (log (inferred true) >> pure (after_repair adapter first second))
      else pure (record {
        load_ms = adapter.load_ms;
        inference_ms = adapter.infer_ms false;
        attempts = first ∷ [];
        answer = none;
        repaired = false;
        error_code = some (error_code_of e);
      })

  -- the whole `try`, on whether `load` has raised
  unfoldable pub after_load :
      OutputScreen R
      → ℕ
      → Adapter R
      → List (BatchItem R)
      → Results R
      → Option Exception
      → Eff (Attempted R)
  unfolding after_first
  after_load screen max_repair adapter items base (some e) = pure (record {
    load_ms = 0;
    inference_ms = 0;
    attempts = [];
    answer = none;
    repaired = false;
    error_code = some (error_code_of e);
  })
  after_load screen max_repair adapter items base none =
      log (inferred false)
      >> after_first max_repair adapter
          (validated_answer screen items base (adapter.infer true items (as_patches base)))
          (validated_answer screen items base (adapter.infer false items (as_patches base)))

  abbrev payload_of : CandidateWorld R → Attempted R → Option (Payload R)
  payload_of world attempted = elim attempted.answer [
    | none ↦ none
    | some (patches, results) ↦ some (candidate_payload world.dump_patch patches)
  ]

  abbrev digest_of : CandidateWorld R → Option (Payload R) → Option String
  digest_of world none = none
  digest_of world (some payload) = some (world.json_digest payload)

  abbrev pub results_of : Option (Patches R × Results R) → Option (Results R)
  results_of none = none
  results_of (some (patches, results)) = some results

  -- run
  unfoldable pub run_of : PipelineRole → ModelSpec → Adapter R → Attempted R → ModelRun
  run_of role spec adapter attempted = record {
    model_role = role;
    model_id = spec.model_id;
    revision = spec.revision;
    status = status_of attempted.error_code;
    load_ms = attempted.load_ms;
    inference_ms = attempted.inference_ms;
    peak_vram_bytes = adapter.final_peak;
    error_code = attempted.error_code;
  }

  -- candidate_run
  unfoldable pub candidate_run_of :
      CandidateWorld R
      → PipelineRole
      → ModelCandidateSpec
      → Adapter R
      → Attempted R
      → CandidateRun R
  candidate_run_of world role candidate adapter attempted = record {
    candidate_id = candidate.candidate_id;
    candidate_rank = candidate.rank;
    stage_role = role;
    model_role = worker_role role;
    model_id = candidate.spec.model_id;
    revision = candidate.spec.revision;
    status = status_of attempted.error_code;
    load_ms = attempted.load_ms;
    inference_ms = attempted.inference_ms;
    peak_vram_bytes = adapter.final_peak;
    repaired = attempted.repaired;
    output_digest = digest_of world (payload_of world attempted);
    output_payload = payload_of world attempted;
    error_code = attempted.error_code;
  }

  -- what follows the `finally`
  unfoldable pub execution_of :
      CandidateWorld R
      → PipelineRole
      → ModelCandidateSpec
      → Adapter R
      → Attempted R
      → Result (CandidateExecution R)
  unfolding run_of candidate_run_of
  execution_of world role candidate adapter attempted =
      elim (construct (validate_candidate_run world.json_digest)
        (candidate_run_of world role candidate adapter attempted)) [
          | err e ↦ err e
          | ok candidate_run ↦ ok (record {
            candidate = candidate;
            run = run_of role candidate.spec adapter attempted;
            candidate_run = candidate_run;
            results = results_of attempted.answer;
            attempts = attempted.attempts;
            repaired = attempted.repaired;
          })
        ]

  -- the `try` with its `finally`, on an adapter that has been created
  unfoldable pub run_adapter :
      CandidateWorld R
      → PipelineRole
      → ModelCandidateSpec
      → List (BatchItem R)
      → Results R
      → ℕ
      → Adapter R
      → Eff (CandidateExecution R)
  unfolding after_load execution_of
  run_adapter world role candidate items base max_repair adapter =
      log peak_reset
      >> (log (loaded candidate.spec)
          >> (after_load world.screen max_repair adapter items base adapter.load >>= λ attempted.
              call (released candidate.spec) adapter.unload
              >> lift (execution_of world role candidate adapter attempted)))

  -- adapter_factory.create(spec)
  abbrev pub create_adapter : CandidateWorld R → ModelSpec → Eff (Adapter R)
  create_adapter world spec es = (world.create es spec, created spec ∷ es)

  -- _execute_candidate
  unfoldable pub execute_candidate :
      CandidateWorld R
      → PipelineRole
      → ModelCandidateSpec
      → List (BatchItem R)
      → Results R
      → ℕ
      → Eff (CandidateExecution R)
  unfolding run_adapter
  execute_candidate world role candidate items base max_repair =
      create_adapter world candidate.spec >>= run_adapter world role candidate items base max_repair
