-- ===== src/Session/Laws/Located.antt =====
-- What no model of a session can change: the identity and the location of a result, from the merge of
-- an answer to the end of a candidate's execution.
use fireviewer_ai_worker.Common.{
  ℕ, ◌≡◌, refl, String, true, false, Option, none, some, List, [], ◌∷◌, arith, Option-cases, inl,
  inr,
}
use fireviewer_ai_worker.Common.Exec.{Exception, Result, ok, err}
use fireviewer_ai_worker.Common.Dict.{lookup, insert}
use fireviewer_ai_worker.Stage.{PipelineRole}
use fireviewer_ai_worker.Contracts.{
  BatchItem, ItemResult, MetadataResult, LocationStatus, GeographicMarkerCandidate,
}
use fireviewer_ai_worker.Contracts.Trace.{validate_candidate_run}
use fireviewer_ai_worker.Registry.{ModelCandidateSpec}
use fireviewer_ai_worker.Consensus.{Results}
use fireviewer_ai_worker.Validation.{OutputScreen}
use fireviewer_ai_worker.Session.Merge.{
  Patches, as_patches, merge, merge_all, validated_candidates, validated_answer,
}
use fireviewer_ai_worker.Session.Adapter.{Adapter, CandidateWorld}
use fireviewer_ai_worker.Session.Candidate.{
  Attempted, after_repair, after_first, after_load, execution_of, run_of, candidate_run_of,
  results_of, run_adapter, execute_candidate,
}
use fireviewer_ai_worker.Session.Effects.{Events, inferred, ◌>>=◌, continue, construct}
use fireviewer_ai_worker.Session.Laws.{
  Anything, any-Holds, any-Gives, Holds, Holds-bind, Gives, Gives-bind, Gives-lift,
}

-- what a result says of its input and of its location
pub record Location : Type 0 where
  pub input_id : String
  pub metadata_result : MetadataResult
  pub status : LocationStatus
  pub marker : Option GeographicMarkerCandidate

module _ {R : Type 0} where
  abbrev pub location_of : ItemResult R → Location
  location_of r = record {
    input_id = r.input_id;
    metadata_result = r.metadata_result;
    status = r.location_status;
    marker = r.geographic_marker_candidate;
  }

  -- the locations of all results, under their keys
  unfoldable pub locations : Results R → List (String × Location)
  locations [] = []
  locations ((id, r) ∷ d) = (id, location_of r) ∷ locations d

  insert-locations :
      (id : String) (r r' : ItemResult R) (d : Results R)
      → lookup id d ≡ some r
      → location_of r' ≡ location_of r
      → locations (insert id r' d) ≡ locations d
  unfolding locations lookup insert
  insert-locations id r r' [] h e = ground arith
  insert-locations id r r' ((k, x) ∷ d) h e = ground (arith, insert-locations id r r' d)

  merge_all-Holds :
      (patches : Patches R) (d : Results R)
      → Holds Anything (λ c. locations c ≡ locations d) (merge_all patches d)
  unfolding merge_all merge
  merge_all-Holds [] d = refl
  merge_all-Holds ((id, patch) ∷ patches) d = elim (Option-cases (lookup id d)) [
    | inl e ↦ ground arith
    | inr (r, e) ↦ ground (
      arith,
      insert-locations id r (merge r patch) d e refl,
      merge_all-Holds patches (insert id (merge r patch) d),
    )
  ]

  validated_answer-Holds :
      (screen : OutputScreen R) (items : List (BatchItem R)) (base : Results R)
      (answer : Result (Patches R))
      → Holds Anything
          (λ made. locations made.1 ≡ locations base)
          (validated_answer screen items base answer)
  unfolding validated_answer validated_candidates
  validated_answer-Holds screen items base (err e) = tt
  validated_answer-Holds screen items base (ok patches) =
      ground (arith, merge_all-Holds patches base)

  -- results, where there are any, with the locations of the ones before
  abbrev pub KeepsLocations : Results R → Option (Results R) → Type 0
  KeepsLocations base none = Unit
  KeepsLocations base (some results) = locations results ≡ locations base

  abbrev AnswersInPlace : Results R → Option (Patches R × Results R) → Type 0
  AnswersInPlace base none = Unit
  AnswersInPlace base (some (patches, results)) = locations results ≡ locations base

  after_first-Gives :
      (base : Results R) (max_repair : ℕ) (adapter : Adapter R)
      (second first : Result (Patches R × Results R))
      → Holds Anything (λ made. locations made.1 ≡ locations base) second
      → Holds Anything (λ made. locations made.1 ≡ locations base) first
      → Gives Anything
          (λ a. AnswersInPlace base a.answer)
          (after_first max_repair adapter second first)
  unfolding after_first after_repair ◌>>=◌
  after_first-Gives base max_repair adapter (ok s) (ok f) hs hf = record { at = λ es. hf }
  after_first-Gives base max_repair adapter (err s) (ok f) hs hf = record { at = λ es. hf }
  after_first-Gives base max_repair adapter (ok s) (err f) hs hf = record {
    at = λ es. ground (arith, hs);
  }
  after_first-Gives base max_repair adapter (err s) (err f) hs hf = record {
    at = λ es. ground arith;
  }

  results_of-KeepsLocations :
      (base : Results R) (answer : Option (Patches R × Results R))
      → AnswersInPlace base answer
      → KeepsLocations base (results_of answer)
  results_of-KeepsLocations base none h = h
  results_of-KeepsLocations base (some (p, r)) h = h

  execution_of-Holds :
      (base : Results R) (world : CandidateWorld R) (role : PipelineRole)
      (candidate : ModelCandidateSpec) (adapter : Adapter R) (a : Attempted R)
      → AnswersInPlace base a.answer
      → Holds Anything
          (λ e. KeepsLocations base e.results)
          (execution_of world role candidate adapter a)
  unfolding execution_of run_of
  execution_of-Holds base world role candidate adapter a h =
      Holds-bind Anything (λ _. Unit {0}) (λ e. KeepsLocations base e.results)
        (construct (validate_candidate_run world.json_digest)
          (candidate_run_of world role candidate adapter a))
        _ (any-Holds _) (λ run _. results_of-KeepsLocations base a.answer h)

module _ {R : Type 0} (world : CandidateWorld R) (role : PipelineRole)
    (candidate : ModelCandidateSpec) (items : List (BatchItem R)) (base : Results R)
    (max_repair : ℕ) where
  after_load-Gives :
      (adapter : Adapter R) (load : Option Exception)
      → Gives Anything
          (λ a. AnswersInPlace base a.answer)
          (after_load world.screen max_repair adapter items base load)
  unfolding after_load ◌>>=◌
  after_load-Gives adapter (some e) = record { at = λ es. tt }
  after_load-Gives adapter none = record {
    at = λ es.
        (after_first-Gives base max_repair adapter _ _
            (validated_answer-Holds world.screen items base
              (adapter.infer true items (as_patches base)))
            (validated_answer-Holds world.screen items base
              (adapter.infer false items (as_patches base)))).at
          (inferred false ∷ es);
  }

  run_adapter-Gives :
      (adapter : Adapter R)
      → Gives Anything
          (λ e. KeepsLocations base e.results)
          (run_adapter world role candidate items base max_repair adapter)
  unfolding run_adapter
  run_adapter-Gives adapter = Gives-bind _ _ (any-Gives _) (λ _ _.
      Gives-bind _ _ (any-Gives _) (λ _ _.
        Gives-bind _ _ (after_load-Gives adapter adapter.load) (λ a h.
          Gives-bind _ _ (any-Gives _)
            (λ _ _. Gives-lift _ (execution_of-Holds base world role candidate adapter a h)))))

  created-Holds :
      (es : Events) (made : Result (Adapter R))
      → Holds Anything
          (λ e. KeepsLocations base e.results)
          (continue made (run_adapter world role candidate items base max_repair) es).0
  created-Holds es (ok adapter) = (run_adapter-Gives adapter).at es
  created-Holds es (err e) = tt

  pub execute_candidate-KeepsLocations :
      Gives Anything
        (λ e. KeepsLocations base e.results)
        (execute_candidate world role candidate items base max_repair)
  unfolding execute_candidate ◌>>=◌
  execute_candidate-KeepsLocations = record {
    at = λ es. created-Holds _ (world.create es candidate.spec);
  }
