-- ===== src/Consensus/Evaluate.antt =====
-- `evaluate_consensus` of consensus.py, lines 322 to 496: one function for each strategy.
use fireviewer_ai_worker.Common.{
  ℕ, String, Bool, true, false, not, Option, none, some, List, [], ◌∷◌, map, ltb, leb,
  if◌then◌else◌, keep, length, is_empty, str_append,
}
use fireviewer_ai_worker.Common.Exec.{key_error, other_error, Result, ok, err, ◌>>=◌}
use fireviewer_ai_worker.Common.Float.{FloatOps}
use fireviewer_ai_worker.Common.Dict.{Dict, lookup, insert, values}
use fireviewer_ai_worker.Common.Json.{int, float, text, texts, Payload, dict}
use fireviewer_ai_worker.Common.Sort.{sort_by}
use fireviewer_ai_worker.Stage.{PipelineRole}
use fireviewer_ai_worker.Registry.{ModelCandidateSpec, ModelGroupSpec}
use fireviewer_ai_worker.Consensus.{
  SuccessfulCandidate, ConsensusEvaluation, failure_decision, success_decision, update,
}
use fireviewer_ai_worker.Consensus.Text.{TextLibrary}
use fireviewer_ai_worker.Consensus.Similarity.{compare_candidate_results}
use fireviewer_ai_worker.Consensus.Challenge.{candidate_requires_challenge}

-- {candidate.candidate_id: candidate.rank for candidate in candidates}
unfoldable pub rank_by_id : List ModelCandidateSpec → Dict ℕ → Dict ℕ
rank_by_id [] ranks = ranks
rank_by_id (c ∷ cs) ranks = rank_by_id cs (insert c.candidate_id c.rank ranks)

-- f"{left}|{right}"
abbrev pair_key : String → String → String
pair_key left right = str_append left (str_append "|" right)

-- min(xs), of a list that is not empty
unfoldable pub min_of : List ℕ → ℕ
min_of [] = 0
min_of (x ∷ []) = x
min_of (x ∷ y ∷ ys) = let m = min_of (y ∷ ys) in if ltb m x then m else x

module _ {R : Type 0} where
  abbrev pub ids_of : List (SuccessfulCandidate R) → List String
  ids_of = map (λ c. c.candidate_id)

  -- a dict of scores as a JSON object
  unfoldable pub float_dict : Dict R → Payload R
  float_dict [] = []
  float_dict ((k, v) ∷ d) = (k, float v) ∷ float_dict d

  -- the sort keys of the candidates: rank_by_id[candidate.candidate_id] for each
  unfoldable pub with_ranks :
      Dict ℕ → List (SuccessfulCandidate R) → Result (List (ℕ × SuccessfulCandidate R))
  with_ranks ranks [] = ok []
  with_ranks ranks (c ∷ cs) = elim (lookup c.candidate_id ranks) [
    | none ↦ err (key_error c.candidate_id)
    | some rank ↦ with_ranks ranks cs >>= λ rest. ok ((rank, c) ∷ rest)
  ]

  -- a blocked evaluation, and one that releases the candidate `id`
  abbrev pub blocked :
      ModelGroupSpec R → Option R → String → Payload R → Bool → ConsensusEvaluation R
  blocked group score reason payload adjudication = record {
    decision = failure_decision group.disagreement_decision;
    selected_candidate_id = none;
    agreement_score = score;
    reason_codes = reason ∷ [];
    downstream_allowed = false;
    comparison_payload = payload;
    requires_adjudication = adjudication;
  }

  abbrev pub released : Bool → String → R → String → Payload R → ConsensusEvaluation R
  released repaired id score reason payload = record {
    decision = success_decision repaired;
    selected_candidate_id = some id;
    agreement_score = some score;
    reason_codes = reason ∷ [];
    downstream_allowed = true;
    comparison_payload = payload;
    requires_adjudication = false;
  }

  -- base_payload
  unfoldable pub base_payload : ModelGroupSpec R → List (SuccessfulCandidate R) → Payload R
  base_payload group successful =
      ("schema_version", text "candidate-consensus-v1")
      ∷ ("candidate_ids", texts (ids_of successful))
      ∷ ("minimum_successful", int group.minimum_successful)
      ∷ ("minimum_agreeing", int group.minimum_agreeing)
      ∷ ("agreement_threshold", float group.agreement_threshold)
      ∷ ("pairwise_scores", dict [])
      ∷ []

module _ {R : Type 0} ⦃F : FloatOps R⦄ (T : TextLibrary R) (role : PipelineRole) where
  -- cascade_pairwise
  unfoldable pub cascade_pairwise :
      SuccessfulCandidate R → List (SuccessfulCandidate R) → Dict R → Dict R
  cascade_pairwise selected [] scores = scores
  cascade_pairwise selected (c ∷ cs) scores = cascade_pairwise selected cs (
      insert (pair_key selected.candidate_id c.candidate_id)
        (F.round6 (compare_candidate_results T role selected.results c.results)) scores)

  -- cascade_pairwise[key] >= group.agreement_threshold
  abbrev reaches : R → Option R → Bool
  reaches threshold none = false
  reaches threshold (some score) = F.le_test threshold score

  -- the branch of `evaluate_consensus` for a cascade that has an admissible candidate
  unfoldable pub evaluate_selected :
      ModelGroupSpec R
      → Dict ℕ
      → Payload R
      → ℕ
      → SuccessfulCandidate R
      → List (SuccessfulCandidate R)
      → ConsensusEvaluation R
  evaluate_selected group ranks base rank selected others =
      let pairwise = cascade_pairwise selected others [] in
      let agreeing =
        selected.candidate_id
        ∷ ids_of (
            keep
              (λ c.
                reaches group.agreement_threshold
                  (lookup (pair_key selected.candidate_id c.candidate_id) pairwise))
              others) in
      let score = if is_empty pairwise then F.of_int 1 else F.fmean (values pairwise) in
      let payload = update base (
        ("pairwise_scores", dict (float_dict pairwise))
        ∷ ("admissible_candidate_ids", texts (selected.candidate_id ∷ ids_of others))
        ∷ ("agreeing_candidate_ids", texts agreeing)
        ∷ ("selected_candidate_id", text selected.candidate_id)
        ∷ ("agreement_score", float (F.round6 score))
        ∷ []) in
      if ltb (length agreeing) group.minimum_agreeing
      then blocked group (some score) "candidate_disagreement" payload true
      else released selected.repaired selected.candidate_id score
          (if ltb (min_of (values ranks)) rank
            then "cascade_fallback_selected"
            else "cascade_primary_selected")
          payload

  abbrev seconds : List (ℕ × SuccessfulCandidate R) → List (SuccessfulCandidate R)
  seconds = map (λ p. p.1)

  unfoldable pub evaluate_ranked :
      ModelGroupSpec R
      → Dict ℕ
      → Payload R
      → List (ℕ × SuccessfulCandidate R)
      → ConsensusEvaluation R
  unfolding evaluate_selected
  evaluate_ranked group ranks base [] =
      blocked group none "candidate_quality_insufficient" base false
  evaluate_ranked group ranks base ((rank, selected) ∷ others) =
      evaluate_selected group ranks base rank selected (seconds others)

  -- the branch for `ConsensusStrategy.CASCADE`
  unfoldable pub evaluate_cascade :
      ModelGroupSpec R → List (SuccessfulCandidate R) → Result (ConsensusEvaluation R)
  unfolding evaluate_ranked
  evaluate_cascade group successful =
      let ranks = rank_by_id group.candidates [] in
      with_ranks ranks
        (keep (λ c. not (candidate_requires_challenge role (values c.results))) successful)
      >>= λ admissible. ok (
          evaluate_ranked group ranks (base_payload group successful)
            (sort_by (λ a b. leb a.0 b.0) admissible))

  -- the branch for `SINGLE_WITH_RULES`, or one successful candidate
  unfoldable pub evaluate_single :
      ModelGroupSpec R → List (SuccessfulCandidate R) → Result (ConsensusEvaluation R)
  evaluate_single group [] = err (other_error "tuple index out of range")
  evaluate_single group (selected ∷ others) = ok (
      released selected.repaired selected.candidate_id (F.of_int 1)
        (if selected.repaired then "single_candidate_repaired" else "single_candidate_valid")
        (update (base_payload group (selected ∷ others)) (
          ("selected_candidate_id", text selected.candidate_id)
          ∷ ("agreement_score", float (F.of_int 1))
          ∷ [])))
