-- ===== src/Tests/Jobs.antt =====
-- A job on one photo, from the construction of the runner to its end.
use fireviewer_ai_worker.Common.{
  List, String, ◌≡◌, ◌↔◌, refl, ap, ◌∙◌, arith, any, all, is_unique, contains, ℕ, true, false,
  Option, none, some, [], ◌∷◌, leb, ◌&&◌,
}
use fireviewer_ai_worker.Common.Exec.{Exception, Result, ok, err}
use fireviewer_ai_worker.Stage.{visual_input, detection_regions}
use fireviewer_ai_worker.Stage.Capabilities.{Capabilities}
use fireviewer_ai_worker.Stage.Gates.{run_preflight, run_postflight}
use fireviewer_ai_worker.Stage.Gates.Laws.{
  run_preflight-proceed, run_postflight-proceed, is_satisfied, is_productive,
}
use fireviewer_ai_worker.Contracts.{succeeded}
use fireviewer_ai_worker.Contracts.Trace.{proceed, is_succeeded}
use fireviewer_ai_worker.Stage.{PipelineRole}
use fireviewer_ai_worker.Session.Adapter.{Adapter}
use fireviewer_ai_worker.Session.Candidate.{execute_candidate}
use fireviewer_ai_worker.Session.Stage.Candidates.{run_candidates}
use fireviewer_ai_worker.Session.State.{
  SessionRunner, initial_results, new_session_runner, normalize_registry, as_group, check_bindings,
  contract_of,
}
use fireviewer_ai_worker.Session.Run.{run_with_trace}
use fireviewer_ai_worker.Session.Residency.{IsIdle}
use fireviewer_ai_worker.Session.Residency.Calls.{run_with_trace-IsIdle}
use fireviewer_ai_worker.Session.Laws.{Anything, Holds}
use fireviewer_ai_worker.Session.Laws.Execution.{Allows, IsFaithful, execute_candidate-IsFaithful}
use fireviewer_ai_worker.Session.Laws.Candidates.{AreExecuted, run_candidates-AreExecuted}
use fireviewer_ai_worker.Session.Laws.Outcome.{IsReported, run_with_trace-IsReported}
use fireviewer_ai_worker.Common.Dict.{insert}
use fireviewer_ai_worker.Consensus.Accepted.{Returns}
use fireviewer_ai_worker.Contracts.{empty_transcript, single_image, no_location}
use fireviewer_ai_worker.Consensus.{Results}
use fireviewer_ai_worker.Session.Initial.{
  initial_result, visual_sources, initial_selection, temporal_sample,
}
use fireviewer_ai_worker.Session.Laws.Unmoved.Job.{IsUnmoved, run_with_trace-IsUnmoved}
use fireviewer_ai_worker.Session.Laws.Sample.{IsSample, temporal_sample-IsSample}
use fireviewer_ai_worker.Session.Laws.Ready.{IsReady, new_session_runner-IsReady}
use fireviewer_ai_worker.Registry.{
  ModelRole, validate_group, validate_policy, validate_adjudicator, validate_candidates,
  validate_candidate, validate_spec, is_identifier, repeats, no_repeats, has_number,
}
use fireviewer_ai_worker.Common.Sort.{same_numbers, sort_by, insert_by}
use fireviewer_ai_worker.Tests.{
  numbers, photo, one_photo, detector, detectors, registry, candidate_world, world,
  detection_contract, contracts,
}

abbrev runner : SessionRunner ℕ
runner = record {
  registry = (ModelRole.fire_detection, detectors) ∷ [];
  contracts = contracts;
  boot_ms = 0;
}

run_with_trace-IsIdle_example : IsIdle (run_with_trace world runner one_photo []).1
run_with_trace-IsIdle_example = run_with_trace-IsIdle world runner one_photo [] refl

run_with_trace-IsReported_example :
    Holds Anything IsReported (run_with_trace world runner one_photo []).0
run_with_trace-IsReported_example = run_with_trace-IsReported world runner one_photo []

abbrev initial : Results ℕ
initial =
    (
      "photo",
      record {
        input_id = "photo";
        metadata_result = record {
          capture_location_available = false;
          capture_location_origin = none;
        };
        transcript = empty_transcript;
        pixel_regions = [];
        visual_evidence_selection =
            record {
              evidence_id = "photo";
              selected_for_grounding = true;
              selection_reason = single_image;
              max_detection_score = none;
            }
            ∷ [];
        factual_observations = [];
        explicit_places = [];
        explicit_times = [];
        location_status = no_location;
        geographic_marker_candidate = none;
      },
    )
    ∷ []

initial_made : initial_results (photo ∷ []) [] ≡ ok initial
unfolding initial_results initial_result visual_sources initial_selection temporal_sample contains
    insert
initial_made = refl

run_with_trace-IsUnmoved_example :
    Holds Anything (IsUnmoved one_photo initial) (run_with_trace world runner one_photo []).0
run_with_trace-IsUnmoved_example =
    run_with_trace-IsUnmoved world runner one_photo initial [] initial_made

-- no exception at all
abbrev Nothing : Exception → Type 0
Nothing e = ⊥

abbrev unload_of : Result (Adapter ℕ) → Option Exception
unload_of (ok a) = a.unload
unload_of (err e) = none

raises_nothing : (e : Exception) → none ≡ some e → ⊥
raises_nothing e h = ground arith

candidate_world-Allows : Allows candidate_world Nothing
candidate_world-Allows = record {
  at_create = λ es spec e h. ground arith;
  at_release = λ es spec a e h g. raises_nothing e (ap unload_of h ∙ g);
}

execute_candidate-IsFaithful_example :
    Holds Nothing
      (IsFaithful (detector "first" 1))
      (execute_candidate candidate_world PipelineRole.fire_detection
        (detector "first" 1)
        (photo ∷ [])
        []
        1
        []).0
execute_candidate-IsFaithful_example =
    execute_candidate-IsFaithful candidate_world PipelineRole.fire_detection (detector "first" 1)
      (photo ∷ []) [] 1 Nothing [] candidate_world-Allows

run_candidates-AreExecuted_example :
    Holds Nothing
      (AreExecuted detectors true detectors.candidates)
      (run_candidates candidate_world detectors PipelineRole.fire_detection
        (photo ∷ [])
        []
        1
        true
        detectors.candidates
        []).0
run_candidates-AreExecuted_example =
    run_candidates-AreExecuted candidate_world detectors PipelineRole.fire_detection (photo ∷ []) []
      1 Nothing candidate_world-Allows []

runner_made : new_session_runner registry contracts 0 ≡ ok runner
unfolding new_session_runner normalize_registry as_group check_bindings contract_of validate_group
    validate_policy validate_adjudicator validate_candidates validate_candidate validate_spec
    is_identifier repeats is_unique contains any all no_repeats has_number same_numbers sort_by
    insert_by
runner_made = refl

new_session_runner-IsReady_example : IsReady runner
new_session_runner-IsReady_example =
    new_session_runner-IsReady registry contracts 0 runner runner_made

-- a photo, and a photo with a region on it
abbrev before : Capabilities
before visual_input = true
before _ = false

abbrev after : Capabilities
after visual_input = true
after detection_regions = true
after _ = false

run_preflight-proceed_example :
    ((run_preflight detection_contract before 1).decision ≡ proceed)
    ↔ ((leb 1 detection_contract.max_input_items && is_satisfied detection_contract before) ≡ true)
run_preflight-proceed_example = run_preflight-proceed detection_contract before 1

run_postflight-proceed_example :
    ((run_postflight {R = ℕ} detection_contract before after succeeded none 1 1).decision ≡ proceed)
    ↔ ((is_succeeded succeeded && is_productive {R = ℕ} detection_contract before after 1 1) ≡ true)
run_postflight-proceed_example =
    run_postflight-proceed {R = ℕ} detection_contract before after succeeded none 1 1

abbrev three_frames : List String
three_frames = "first" ∷ "second" ∷ "third" ∷ []

temporal_sample-IsSample_example :
    Returns (IsSample three_frames 2) (temporal_sample three_frames 2)
temporal_sample-IsSample_example = temporal_sample-IsSample three_frames 2 (omega arith)
