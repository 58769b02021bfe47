-- ===== src/Consensus/Accepted/Quorum.antt =====
-- The quorum of consensus.py, lines 430 to 496, and `evaluate_consensus` as a whole: they return, and
-- what they return is consistent.
use fireviewer_ai_worker.Common.{
  ℕ, ◌≡◌, refl, ◌∙◌, nonempty, String, Bool, true, false, ◌&&◌, ◌||◌, none, some, List, [], ◌∷◌,
  ◌++◌, arith, is_some, ltb, leb, all, keep, length, contains, eq_iff, Option-cases, inl, inr,
}
use fireviewer_ai_worker.Common.Exec.{key_error, Result, ok, err, ◌>>=◌}
use fireviewer_ai_worker.Common.Float.{FloatOps}
use fireviewer_ai_worker.Common.Dict.{Dict, lookup, insert, lookup-insert}
use fireviewer_ai_worker.Stage.{PipelineRole}
use fireviewer_ai_worker.Registry.{ModelGroupSpec}
use fireviewer_ai_worker.Consensus.{SuccessfulCandidate}
use fireviewer_ai_worker.Consensus.Text.{TextLibrary}
use fireviewer_ai_worker.Consensus.Similarity.{compare_candidate_results}
use fireviewer_ai_worker.Consensus.Evaluate.{rank_by_id, ids_of}
use fireviewer_ai_worker.Consensus.Quorum.{
  agreeing_with, push, no_scores, mean_scores, key_of, select_from, select_candidate, score_pair,
  score_left, score_pairs, evaluate_best, evaluate_quorum, evaluate_consensus,
}
use fireviewer_ai_worker.Consensus.Accepted.{
  IsSound, Returns, are_of, in_dict, among_ids, all-and, enough-nonempty, are_of-in_dict,
  all-among_ids, evaluate_cascade-Returns, evaluate_single-Returns,
}

module _ {R : Type 0} where
  push-known :
      (j id : String) (score : R) (d : Dict (List R))
      → is_some (lookup j (push id score d)) ≡ is_some (lookup j d)
  unfolding push
  push-known j id score d = elim (Option-cases (lookup id d)) [
    | inl e ↦ ground arith
    | inr (list, e) ↦ ground (arith, lookup-insert id j (list ++ score ∷ []) d, eq_iff id j)
  ]

  no_scores-known :
      (id : String) (cs : List (SuccessfulCandidate R)) (d : Dict (List R))
      → (contains id (ids_of cs) || is_some (lookup id d)) ≡ true
      → is_some (lookup id (no_scores cs d)) ≡ true
  unfolding no_scores contains
  no_scores-known id [] d h = h
  no_scores-known id (c ∷ cs) d h = no_scores-known id cs (insert c.candidate_id [] d) (
      ground (
        arith,
        lookup-insert c.candidate_id id [] d,
        eq_iff id c.candidate_id,
        eq_iff c.candidate_id id,
      ))

module _ {R : Type 0} ⦃F : FloatOps R⦄ where
  mean_scores-known :
      (id : String) (d : Dict (List R))
      → is_some (lookup id (mean_scores d)) ≡ is_some (lookup id d)
  unfolding mean_scores lookup
  mean_scores-known id [] = refl
  mean_scores-known id ((k, scores) ∷ d) = ground (arith, mean_scores-known id d)

  select_from-Returns :
      (means : Dict R) (ranks : Dict ℕ) (p : SuccessfulCandidate R → Bool)
      (best : SuccessfulCandidate R) (best_key : R × ℕ) (cs : List (SuccessfulCandidate R))
      → in_dict means cs ≡ true
      → in_dict ranks cs ≡ true
      → p best ≡ true
      → all p cs ≡ true
      → Returns (λ c. p c ≡ true) (select_from means ranks best best_key cs)
  unfolding select_from key_of all
  select_from-Returns means ranks p best best_key [] hm hr hb h = hb
  select_from-Returns means ranks p best best_key (c ∷ cs) hm hr hb h =
      elim (Option-cases (lookup c.candidate_id means)) [
        | inl em ↦ ground arith
        | inr (mean, em) ↦ elim (Option-cases (lookup c.candidate_id ranks)) [
          | inl er ↦ ground arith
          | inr (rank, er) ↦ ground (
            arith,
            select_from-Returns means ranks p best best_key cs,
            select_from-Returns means ranks p c (mean, rank) cs,
          )
        ]
      ]

  select_candidate-Returns :
      (means : Dict R) (ranks : Dict ℕ) (p : SuccessfulCandidate R → Bool)
      (cs : List (SuccessfulCandidate R))
      → nonempty cs ≡ true
      → in_dict means cs ≡ true
      → in_dict ranks cs ≡ true
      → all p cs ≡ true
      → Returns (λ c. p c ≡ true) (select_candidate means ranks cs)
  unfolding select_candidate key_of all
  select_candidate-Returns means ranks p [] some_there hm hr h = ground arith
  select_candidate-Returns means ranks p (c ∷ cs) some_there hm hr h =
      elim (Option-cases (lookup c.candidate_id means)) [
        | inl em ↦ ground arith
        | inr (mean, em) ↦ elim (Option-cases (lookup c.candidate_id ranks)) [
          | inl er ↦ ground arith
          | inr (rank, er) ↦ ground (arith, select_from-Returns means ranks p c (mean, rank) cs)
        ]
      ]

module _ {R : Type 0} ⦃F : FloatOps R⦄ (T : TextLibrary R) (role : PipelineRole) where
  score_left-known :
      (id : String) (left : SuccessfulCandidate R) (cs : List (SuccessfulCandidate R))
      (state : Dict R × Dict (List R))
      → is_some (lookup id (score_left T role left cs state).1) ≡ is_some (lookup id state.1)
  unfolding score_left score_pair
  score_left-known id left [] state = refl
  score_left-known id left (right ∷ rest) (pairwise, scores) =
      let score = compare_candidate_results T role left.results right.results in
      score_left-known id left rest (score_pair T role left right (pairwise, scores))
      ∙ (push-known id right.candidate_id score (push left.candidate_id score scores)
          ∙ push-known id left.candidate_id score scores)

  score_pairs-known :
      (id : String) (cs : List (SuccessfulCandidate R)) (state : Dict R × Dict (List R))
      → is_some (lookup id (score_pairs T role cs state).1) ≡ is_some (lookup id state.1)
  unfolding score_pairs
  score_pairs-known id [] state = refl
  score_pairs-known id (left ∷ rest) state =
      score_pairs-known id rest (score_left T role left rest state)
      ∙ score_left-known id left rest state

  agreeing_with-selected :
      (threshold : R) (selected : SuccessfulCandidate R) (cs : List (SuccessfulCandidate R))
      → contains selected.candidate_id (ids_of cs) ≡ true
      → leb 1 (length (agreeing_with T role threshold selected cs)) ≡ true
  unfolding agreeing_with keep contains
  agreeing_with-selected threshold selected [] h = ground arith
  agreeing_with-selected threshold selected (c ∷ cs) h = ground (
    arith,
    eq_iff selected.candidate_id c.candidate_id,
    eq_iff c.candidate_id selected.candidate_id,
    agreeing_with-selected threshold selected cs,
  )

  -- the ids that the inner dict of the loops knows are those of the candidates
  means-in_dict :
      (all_of cs : List (SuccessfulCandidate R))
      → all (among_ids (ids_of all_of)) cs ≡ true
      → in_dict (mean_scores (score_pairs T role all_of ([], no_scores all_of [])).1) cs ≡ true
  unfolding all
  means-in_dict all_of [] h = refl
  means-in_dict all_of (c ∷ cs) h = ground (
    arith,
    mean_scores-known c.candidate_id (score_pairs T role all_of ([], no_scores all_of [])).1,
    score_pairs-known c.candidate_id all_of ([], no_scores all_of []),
    no_scores-known c.candidate_id all_of [],
    means-in_dict all_of cs,
  )

  evaluate_best-IsSound :
      (group : ModelGroupSpec R) (successful : List (SuccessfulCandidate R))
      (pairwise means : Dict R) (selected : SuccessfulCandidate R) (score : R)
      → contains selected.candidate_id (ids_of successful) ≡ true
      → ltb (length successful) group.minimum_successful ≡ false
      → IsSound group successful
          (evaluate_best T role group successful pairwise means selected score)
  unfolding evaluate_best
  evaluate_best-IsSound group successful pairwise means selected score member enough =
      ground (arith, agreeing_with-selected group.agreement_threshold selected successful member)

  after_select-Returns :
      (group : ModelGroupSpec R) (successful : List (SuccessfulCandidate R))
      (pairwise means : Dict R) (made : Result (SuccessfulCandidate R))
      → Returns
          (λ c. (among_ids (ids_of successful) c && is_some (lookup c.candidate_id means)) ≡ true)
          made
      → ltb (length successful) group.minimum_successful ≡ false
      → Returns (IsSound group successful) (
          made >>= λ selected. elim (lookup selected.candidate_id means) [
            | none ↦ err (key_error selected.candidate_id)
            | some score ↦ ok (evaluate_best T role group successful pairwise means selected score)
          ])
  after_select-Returns group successful pairwise means (ok selected) member enough =
      elim (Option-cases (lookup selected.candidate_id means)) [
        | inl e ↦ ground arith
        | inr (score, e) ↦
            rw (e, Returns)
              (evaluate_best-IsSound group successful pairwise means selected score (ground arith)
                enough)
      ]
  after_select-Returns group successful pairwise means (err e) member enough = elim member [ ]

  evaluate_quorum-Returns :
      (group : ModelGroupSpec R) (successful : List (SuccessfulCandidate R))
      → are_of group.candidates successful ≡ true
      → leb 1 group.minimum_successful ≡ true
      → ltb (length successful) group.minimum_successful ≡ false
      → Returns (IsSound group successful) (evaluate_quorum T role group successful)
  unfolding evaluate_quorum
  evaluate_quorum-Returns group successful known least enough =
      let state = score_pairs T role successful ([], no_scores successful []) in
      let means = mean_scores state.1 in
      let members = all-among_ids successful in
      let means_known = means-in_dict successful successful members in
      after_select-Returns group successful state.0 means _
        (select_candidate-Returns means (rank_by_id group.candidates [])
          (λ c. among_ids (ids_of successful) c && is_some (lookup c.candidate_id means)) successful
          (enough-nonempty successful group.minimum_successful least enough) means_known
          (are_of-in_dict group.candidates successful known)
          (all-and _ _ successful members means_known))
        enough

  -- Over the candidates of the group, which asks for at least one success, `evaluate_consensus`
  -- returns: it raises no KeyError and takes no maximum of nothing. It lets the next stage run
  -- exactly if it decides pass, repair or adjudicated, and selects a candidate exactly then, which
  -- is one of the successful ones, of which there are enough. It asks for a judge only while it
  -- blocks, and only where the group wants more than one candidate to agree.
  pub evaluate_consensus-IsSound :
      (group : ModelGroupSpec R) (successful : List (SuccessfulCandidate R))
      → are_of group.candidates successful ≡ true
      → leb 1 group.minimum_successful ≡ true
      → Returns (IsSound group successful) (evaluate_consensus T role group successful)
  unfolding evaluate_consensus
  evaluate_consensus-IsSound group successful known least = ground (
    arith,
    evaluate_cascade-Returns T role group successful,
    evaluate_single-Returns T role group successful,
    evaluate_quorum-Returns group successful,
  )
