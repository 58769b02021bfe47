-- ===== src/Consensus/Accepted.antt =====
-- `evaluate_consensus` of consensus.py on candidates of the group that it is given: it returns, and
-- what it returns is consistent.
pub mod Quorum
use fireviewer_ai_worker.Common.{
  ℕ, ◌+◌, ◌≤◌, ◌≡◌, refl, ◌∙◌, nonempty, String, Bool, true, false, not, ◌&&◌, ◌||◌, Option, none,
  some, List, [], ◌∷◌, ◌++◌, map, arith, is_some, ltb, leb, ◌==◌, if◌then◌else◌, all, any, keep,
  length, contains, is_empty, eq_iff, eq_refl, str_eq, Option-cases, Bool-cases, inl, inr,
}
use fireviewer_ai_worker.Common.Exec.{Exception, key_error, Result, ok, err, ◌>>=◌}
use fireviewer_ai_worker.Common.Float.{FloatOps}
use fireviewer_ai_worker.Common.Dict.{Dict, lookup, insert, values, lookup-insert}
use fireviewer_ai_worker.Common.Sort.{insert_by, sort_by}
use fireviewer_ai_worker.Stage.{PipelineRole}
use fireviewer_ai_worker.Contracts.Trace.{is_accepting}
use fireviewer_ai_worker.Registry.{ModelCandidateSpec, ModelGroupSpec, candidate_ids_of}
use fireviewer_ai_worker.Consensus.{SuccessfulCandidate, ConsensusEvaluation}
use fireviewer_ai_worker.Consensus.Text.{TextLibrary}
use fireviewer_ai_worker.Consensus.Similarity.{compare_candidate_results}
use fireviewer_ai_worker.Consensus.Evaluate.{
  base_payload, rank_by_id, ids_of, with_ranks, evaluate_selected, evaluate_ranked,
  evaluate_cascade, evaluate_single,
}
use fireviewer_ai_worker.Consensus.Quorum.{
  agreeing_with, push, no_scores, mean_scores, key_of, select_from, select_candidate, score_pair,
  score_left, score_pairs, evaluate_best, evaluate_quorum, evaluate_consensus,
}

abbrev pub is_member : List String → Option String → Bool
is_member ids none = true
is_member ids (some id) = contains id ids

-- What the session relies on of an evaluation of the successful candidates of a group.
pub record IsSound {R : Type 0} (group : ModelGroupSpec R)
    (successful : List (SuccessfulCandidate R)) (v : ConsensusEvaluation R) : Type 0 where
  pub released_if_accepting : v.downstream_allowed ≡ is_accepting v.decision
  pub selected_if_released : is_some v.selected_candidate_id ≡ v.downstream_allowed
  pub selected_is_successful : is_member (ids_of successful) v.selected_candidate_id ≡ true
  pub judged_while_blocked : (v.requires_adjudication && v.downstream_allowed) ≡ false
  pub judged_on_agreement : (v.requires_adjudication && leb group.minimum_agreeing 1) ≡ false
  pub enough_successful :
      (v.downstream_allowed && ltb (length successful) group.minimum_successful) ≡ false

-- the call returns, and its value satisfies the predicate
abbrev pub Returns : {A : Type 0} → (A → Type 0) → Result A → Type 0
Returns P (ok a) = P a
Returns P (err e) = ⊥

-- every one of the candidates is one of the group
abbrev pub are_of : {R : Type 0} → List ModelCandidateSpec → List (SuccessfulCandidate R) → Bool
are_of cs = all (λ c. contains c.candidate_id (candidate_ids_of cs))

pub rank_by_id-known :
    (id : String) (cs : List ModelCandidateSpec) (ranks : Dict ℕ)
    → (contains id (candidate_ids_of cs) || is_some (lookup id ranks)) ≡ true
    → is_some (lookup id (rank_by_id cs ranks)) ≡ true
unfolding rank_by_id contains
rank_by_id-known id [] ranks h = h
rank_by_id-known id (c ∷ cs) ranks h = rank_by_id-known id cs (insert c.candidate_id c.rank ranks) (
    ground (
      arith,
      lookup-insert c.candidate_id id c.rank ranks,
      eq_iff id c.candidate_id,
      eq_iff c.candidate_id id,
    ))

pub all-insert_by :
    {A : Type 0} (before : A → A → Bool) (p : A → Bool) (x : A) (xs : List A)
    → p x ≡ true
    → all p xs ≡ true
    → all p (insert_by before x xs) ≡ true
unfolding insert_by all
all-insert_by before p x [] hx h = ground arith
all-insert_by before p x (y ∷ ys) hx h = ground (arith, all-insert_by before p x ys)

pub all-sort_by :
    {A : Type 0} (before : A → A → Bool) (p : A → Bool) (xs : List A)
    → all p xs ≡ true
    → all p (sort_by before xs) ≡ true
unfolding sort_by all
all-sort_by before p [] h = h
all-sort_by before p (x ∷ xs) h =
    all-insert_by before p x (sort_by before xs) (ground arith)
      (all-sort_by before p xs (ground arith))

pub all-keep :
    {A : Type 0} (p q : A → Bool) (xs : List A) → all p xs ≡ true → all p (keep q xs) ≡ true
unfolding all keep
all-keep p q [] h = h
all-keep p q (x ∷ xs) h = ground (arith, all-keep p q xs)

pub all-and :
    {A : Type 0} (p q : A → Bool) (xs : List A)
    → all p xs ≡ true
    → all q xs ≡ true
    → all (λ x. p x && q x) xs ≡ true
unfolding all
all-and p q [] hp hq = hp
all-and p q (x ∷ xs) hp hq = ground (arith, all-and p q xs)

pub enough-nonempty :
    {A : Type 0} (xs : List A) (n : ℕ)
    → leb 1 n ≡ true
    → ltb (length xs) n ≡ false
    → nonempty xs ≡ true
enough-nonempty [] n h e = ground arith
enough-nonempty (x ∷ xs) n h e = refl

module _ {R : Type 0} where
  -- the candidates whose ids are known to the dict
  abbrev pub in_dict : {V : Type 0} → Dict V → List (SuccessfulCandidate R) → Bool
  in_dict d = all (λ c. is_some (lookup c.candidate_id d))

  pub are_of-in_dict :
      (cs : List ModelCandidateSpec) (successful : List (SuccessfulCandidate R))
      → are_of cs successful ≡ true
      → in_dict (rank_by_id cs []) successful ≡ true
  unfolding all
  are_of-in_dict cs [] h = refl
  are_of-in_dict cs (c ∷ rest) h =
      ground (arith, rank_by_id-known c.candidate_id cs [], are_of-in_dict cs rest)

  -- the ids are among those of the list
  abbrev pub among_ids : List String → SuccessfulCandidate R → Bool
  among_ids ids c = contains c.candidate_id ids

  all-weaken :
      (x : String) (ids : List String) (xs : List (SuccessfulCandidate R))
      → all (among_ids ids) xs ≡ true
      → all (among_ids (x ∷ ids)) xs ≡ true
  unfolding all contains
  all-weaken x ids [] h = h
  all-weaken x ids (y ∷ ys) h = ground (arith, all-weaken x ids ys)

  pub all-among_ids : (xs : List (SuccessfulCandidate R)) → all (among_ids (ids_of xs)) xs ≡ true
  unfolding all contains
  all-among_ids [] = refl
  all-among_ids (x ∷ xs) =
      ground
        (arith, eq_refl x.candidate_id, all-weaken x.candidate_id (ids_of xs) xs (all-among_ids xs))

  -- the ranked candidates are those of the list
  pub with_ranks-Returns :
      (ranks : Dict ℕ) (p : SuccessfulCandidate R → Bool) (cs : List (SuccessfulCandidate R))
      → in_dict ranks cs ≡ true
      → all p cs ≡ true
      → Returns (λ ranked. all (λ pair. p pair.1) ranked ≡ true) (with_ranks ranks cs)
  unfolding with_ranks all
  with_ranks-Returns ranks p [] known h = refl
  with_ranks-Returns ranks p (c ∷ cs) known h = ground (arith, with_ranks-Returns ranks p cs)

module _ {R : Type 0} ⦃F : FloatOps R⦄ (T : TextLibrary R) (role : PipelineRole) where
  evaluate_ranked-IsSound :
      (group : ModelGroupSpec R) (successful : List (SuccessfulCandidate R)) (ranks : Dict ℕ)
      (ranked : List (ℕ × SuccessfulCandidate R))
      → all (λ pair. among_ids (ids_of successful) pair.1) ranked ≡ true
      → ltb (length successful) group.minimum_successful ≡ false
      → IsSound group successful
          (evaluate_ranked T role group ranks (base_payload group successful) ranked)
  unfolding evaluate_ranked evaluate_selected all
  evaluate_ranked-IsSound group successful ranks [] members enough = ground arith
  evaluate_ranked-IsSound group successful ranks ((rank, selected) ∷ others) members enough =
      ground arith

  after_ranks-Returns :
      (group : ModelGroupSpec R) (successful : List (SuccessfulCandidate R)) (ranks : Dict ℕ)
      (made : Result (List (ℕ × SuccessfulCandidate R)))
      → Returns (λ ranked. all (λ pair. among_ids (ids_of successful) pair.1) ranked ≡ true) made
      → ltb (length successful) group.minimum_successful ≡ false
      → Returns (IsSound group successful) (
          made >>= λ admissible. ok (
            evaluate_ranked T role group ranks
              (base_payload group successful)
              (sort_by (λ a b. leb a.0 b.0) admissible)))
  after_ranks-Returns group successful ranks (ok ranked) members enough =
      evaluate_ranked-IsSound group successful ranks _ (all-sort_by _ _ ranked members) enough
  after_ranks-Returns group successful ranks (err _) members enough = elim members [ ]

  pub evaluate_cascade-Returns :
      (group : ModelGroupSpec R) (successful : List (SuccessfulCandidate R))
      → are_of group.candidates successful ≡ true
      → ltb (length successful) group.minimum_successful ≡ false
      → Returns (IsSound group successful) (evaluate_cascade T role group successful)
  unfolding evaluate_cascade
  evaluate_cascade-Returns group successful known enough =
      after_ranks-Returns group successful _ _
        (with_ranks-Returns _ (among_ids (ids_of successful)) _
          (all-keep _ _ successful (are_of-in_dict group.candidates successful known))
          (all-keep _ _ successful (all-among_ids successful)))
        enough

  pub evaluate_single-Returns :
      (group : ModelGroupSpec R) (successful : List (SuccessfulCandidate R))
      → leb 1 group.minimum_successful ≡ true
      → ltb (length successful) group.minimum_successful ≡ false
      → Returns (IsSound group successful) (evaluate_single T role group successful)
  unfolding evaluate_single contains
  evaluate_single-Returns group [] least enough = ground arith
  evaluate_single-Returns group (selected ∷ others) least enough =
      ground (arith, eq_refl selected.candidate_id)
