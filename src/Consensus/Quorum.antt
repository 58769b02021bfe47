-- ===== src/Consensus/Quorum.antt =====
-- The quorum branch of `evaluate_consensus`, lines 430 to 496 of consensus.py, and the whole
-- function: every pair of successful candidates is compared, and the best mean score is selected.
use fireviewer_ai_worker.Common.{
  ℕ, String, Bool, true, false, ◌||◌, none, some, List, [], ◌∷◌, ◌++◌, ltb, ◌==◌, if◌then◌else◌,
  keep, length, is_empty, str_eq, str_append,
}
use fireviewer_ai_worker.Common.Exec.{key_error, value_error, Result, ok, err, ◌>>=◌}
use fireviewer_ai_worker.Common.Float.{FloatOps}
use fireviewer_ai_worker.Common.Dict.{Dict, lookup, insert}
use fireviewer_ai_worker.Common.Json.{float, text, texts, dict}
use fireviewer_ai_worker.Common.Sort.{sort_by, text_le}
use fireviewer_ai_worker.Stage.{PipelineRole}
use fireviewer_ai_worker.Registry.{ModelGroupSpec, is_single, is_cascade}
use fireviewer_ai_worker.Consensus.{SuccessfulCandidate, ConsensusEvaluation, update}
use fireviewer_ai_worker.Consensus.Text.{TextLibrary}
use fireviewer_ai_worker.Consensus.Similarity.{compare_candidate_results}
use fireviewer_ai_worker.Consensus.Evaluate.{
  rank_by_id, ids_of, float_dict, blocked, released, base_payload, evaluate_cascade,
  evaluate_single,
}

-- scores_by_candidate[id].append(score)
unfoldable pub push : {R : Type 0} → String → R → Dict (List R) → Dict (List R)
push id score scores = elim (lookup id scores) [
  | none ↦ scores
  | some list ↦ insert id (list ++ score ∷ []) scores
]

-- {candidate.candidate_id: [] for candidate in successful}
unfoldable pub no_scores :
    {R : Type 0} → List (SuccessfulCandidate R) → Dict (List R) → Dict (List R)
no_scores [] scores = scores
no_scores (c ∷ cs) scores = no_scores cs (insert c.candidate_id [] scores)

module _ {R : Type 0} ⦃F : FloatOps R⦄ where
  -- mean_scores
  unfoldable pub mean_scores : Dict (List R) → Dict R
  mean_scores [] = []
  mean_scores ((id, scores) ∷ d) =
      (id, if is_empty scores then F.of_int 1 else F.fmean scores) ∷ mean_scores d

  -- the key of a candidate: (mean_scores[id], -rank_by_id[id])
  unfoldable pub key_of : Dict R → Dict ℕ → String → Result (R × ℕ)
  key_of means ranks id = elim (lookup id means) [
    | none ↦ err (key_error id)
    | some mean ↦ elim (lookup id ranks) [ none ↦ err (key_error id) | some rank ↦ ok (mean, rank) ]
  ]

  -- key(a) > key(b), as tuples
  abbrev greater : R × ℕ → R × ℕ → Bool
  greater (mean_a, rank_a) (mean_b, rank_b) =
      if F.eq_test mean_a mean_b then ltb rank_a rank_b else F.lt_test mean_b mean_a

  -- the rest of max(successful, key=…), from the best so far
  unfoldable pub select_from :
      Dict R
      → Dict ℕ
      → SuccessfulCandidate R
      → R × ℕ
      → List (SuccessfulCandidate R)
      → Result (SuccessfulCandidate R)
  unfolding key_of
  select_from means ranks best best_key [] = ok best
  select_from means ranks best best_key (c ∷ cs) = key_of means ranks c.candidate_id >>= λ key.
      let later = greater key best_key in
      select_from means ranks (if later then c else best) (if later then key else best_key) cs

  unfoldable pub select_candidate :
      Dict R → Dict ℕ → List (SuccessfulCandidate R) → Result (SuccessfulCandidate R)
  unfolding select_from
  select_candidate means ranks [] = err (value_error "max() arg is an empty sequence")
  select_candidate means ranks (c ∷ cs) =
      key_of means ranks c.candidate_id >>= λ key. select_from means ranks c key cs

  -- every score rounded for the payload
  unfoldable pub round_all : Dict R → Dict R
  round_all [] = []
  round_all ((id, score) ∷ d) = (id, F.round6 score) ∷ round_all d

module _ {R : Type 0} ⦃F : FloatOps R⦄ (T : TextLibrary R) (role : PipelineRole) where
  -- the body of the inner loop, on `pairwise` and `scores_by_candidate`
  unfoldable pub score_pair :
      SuccessfulCandidate R
      → SuccessfulCandidate R
      → Dict R × Dict (List R)
      → Dict R × Dict (List R)
  unfolding push
  score_pair left right (pairwise, scores) =
      let score = compare_candidate_results T role left.results right.results in
      (
        insert (str_append left.candidate_id (str_append "|" right.candidate_id)) (F.round6 score)
            pairwise,
        push right.candidate_id score (push left.candidate_id score scores),
      )

  unfoldable pub score_left :
      SuccessfulCandidate R
      → List (SuccessfulCandidate R)
      → Dict R × Dict (List R)
      → Dict R × Dict (List R)
  unfolding score_pair
  score_left left [] state = state
  score_left left (right ∷ rest) state = score_left left rest (score_pair left right state)

  -- the two nested loops
  unfoldable pub score_pairs :
      List (SuccessfulCandidate R) → Dict R × Dict (List R) → Dict R × Dict (List R)
  unfolding score_left
  score_pairs [] state = state
  score_pairs (left ∷ rest) state = score_pairs rest (score_left left rest state)

  -- the candidates that agree with the selected one, itself included
  unfoldable pub agreeing_with :
      R → SuccessfulCandidate R → List (SuccessfulCandidate R) → List String
  agreeing_with threshold selected successful = ids_of (
      keep
        (λ c.
          str_eq c.candidate_id selected.candidate_id
          || F.le_test threshold (compare_candidate_results T role selected.results c.results))
        successful)

  -- what follows the selection, on the mean score of the selected candidate
  unfoldable pub evaluate_best :
      ModelGroupSpec R
      → List (SuccessfulCandidate R)
      → Dict R
      → Dict R
      → SuccessfulCandidate R
      → R
      → ConsensusEvaluation R
  evaluate_best group successful pairwise means selected score =
      let agreeing = agreeing_with group.agreement_threshold selected successful in
      let payload = update (base_payload group successful) (
        ("pairwise_scores", dict (float_dict pairwise))
        ∷ ("mean_scores", dict (float_dict (round_all (sort_by (λ a b. text_le a.0 b.0) means))))
        ∷ ("agreeing_candidate_ids", texts agreeing)
        ∷ ("selected_candidate_id", text selected.candidate_id)
        ∷ ("agreement_score", float (F.round6 score))
        ∷ []) in
      if ltb (length agreeing) group.minimum_agreeing
      then blocked group (some score) "candidate_disagreement" payload true
      else released selected.repaired selected.candidate_id score "candidate_quorum_reached" payload

  -- the branch that compares all pairs
  unfoldable pub evaluate_quorum :
      ModelGroupSpec R → List (SuccessfulCandidate R) → Result (ConsensusEvaluation R)
  unfolding score_pairs mean_scores select_candidate evaluate_best
  evaluate_quorum group successful =
      let state = score_pairs successful ([], no_scores successful []) in
      let means = mean_scores state.1 in
      select_candidate means (rank_by_id group.candidates []) successful >>= λ selected.
      elim (lookup selected.candidate_id means) [
        | none ↦ err (key_error selected.candidate_id)
        | some score ↦ ok (evaluate_best group successful state.0 means selected score)
      ]

  -- evaluate_consensus
  unfoldable pub evaluate_consensus :
      ModelGroupSpec R → List (SuccessfulCandidate R) → Result (ConsensusEvaluation R)
  evaluate_consensus group successful =
      if ltb (length successful) group.minimum_successful
      then ok (
          blocked group none "insufficient_successful_candidates" (base_payload group successful)
            false)
      else if is_cascade group.strategy
      then evaluate_cascade T role group successful
      else if is_single group.strategy || (length successful == 1)
      then evaluate_single T role group successful
      else evaluate_quorum group successful
