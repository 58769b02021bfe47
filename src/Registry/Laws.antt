-- ===== src/Registry/Laws.antt =====
-- `ModelGroupSpec.validate` of model_registry.py against what it asks of a group.
pub mod Ranks
use fireviewer_ai_worker.Common.{
  ℕ, ◌≡◌, ◌↔◌, refl, Bool, true, false, not, ◌&&◌, ◌||◌, Option, none, some, List, [], ◌∷◌, arith,
  ltb, leb, ◌==◌, if◌then◌else◌, is_some, is_unique, contains, nonempty, all, any, length, is_empty,
}
use fireviewer_ai_worker.Common.Exec.{Result, ok, err, is_ok}
use fireviewer_ai_worker.Common.Float.{FloatOps, in_range}
use fireviewer_ai_worker.Registry.{
  ModelCandidateSpec, ModelGroupSpec, candidate_ids_of, ranks_of, same_role, consensus_judge,
  is_single, is_quorum, validate_candidate, validate_candidates, validate_adjudicator,
  validate_policy, validate_group, has_number, no_repeats,
}
use fireviewer_ai_worker.Common.Sort.{same_numbers, sort_numbers}
use fireviewer_ai_worker.Registry.Laws.Ranks.{is_ascending, ranks-is_ascending}

-- what is asked of a final judge
abbrev judge_fits : List ModelCandidateSpec → Option ModelCandidateSpec → Bool
judge_fits cs none = true
judge_fits cs (some judge) =
    same_role judge.spec.role consensus_judge
    && (not (contains judge.candidate_id (candidate_ids_of cs))
        && (not (has_number judge.rank (ranks_of cs)) && is_ok (validate_candidate judge)))

-- A group that can be run: its candidates are valid models of its role with ids of their own and in
-- ascending ranks, its minima can be reached, and there is a judge where one may be asked for.
pub record IsRunnable {R : Type 0} ⦃F : FloatOps R⦄ (g : ModelGroupSpec R) : Type 0 where
  pub has_candidates : nonempty g.candidates ≡ true
  pub unique_ids : is_unique (candidate_ids_of g.candidates) ≡ true
  pub ascending_ranks : is_ascending (ranks_of g.candidates) ≡ true
  pub same_roles : all (λ c. same_role c.spec.role g.role) g.candidates ≡ true
  pub valid_candidates : all (λ c. is_ok (validate_candidate c)) g.candidates ≡ true
  pub threshold : in_range (F.of_int 0) (F.of_int 1) g.agreement_threshold ≡ true
  pub confidence : in_range (F.of_int 0) (F.of_int 1) g.adjudication_confidence_threshold ≡ true
  pub least_successful : leb 1 g.minimum_successful ≡ true
  pub most_successful : leb g.minimum_successful (length g.candidates) ≡ true
  pub least_agreeing : leb 1 g.minimum_agreeing ≡ true
  pub most_agreeing : leb g.minimum_agreeing (length g.candidates) ≡ true
  pub single_alone : (is_single g.strategy && not (length g.candidates == 1)) ≡ false
  pub quorum_together : (is_quorum g.strategy && ltb (length g.candidates) 2) ≡ false
  pub judge_there :
      ((is_quorum g.strategy || ltb 1 g.minimum_agreeing) && not (is_some g.adjudicator)) ≡ false
  pub judge_ok : judge_fits g.candidates g.adjudicator ≡ true

validate_candidates-all :
    (cs : List ModelCandidateSpec)
    → is_ok (validate_candidates cs) ≡ all (λ c. is_ok (validate_candidate c)) cs
unfolding validate_candidates all
validate_candidates-all [] = refl
validate_candidates-all (c ∷ cs) = ground (arith, validate_candidates-all cs)

any-not : {A : Type 0} (xs : List A) (p : A → Bool) → any (λ x. not (p x)) xs ≡ not (all p xs)
unfolding any all
any-not [] p = refl
any-not (x ∷ xs) p = ground (arith, any-not xs p)

module _ {R : Type 0} ⦃F : FloatOps R⦄ where
  valid-IsRunnable : (g : ModelGroupSpec R) → validate_group g ≡ ok tt → IsRunnable g
  unfolding validate_group validate_policy validate_adjudicator
  valid-IsRunnable g h = record {
    has_candidates = ground arith;
    unique_ids = ground arith;
    ascending_ranks = ground (arith, ranks-is_ascending (ranks_of g.candidates));
    same_roles = ground (arith, any-not g.candidates (λ c. same_role c.spec.role g.role));
    valid_candidates = ground (arith, validate_candidates-all g.candidates);
    threshold = ground arith;
    confidence = ground arith;
    least_successful = ground arith;
    most_successful = ground arith;
    least_agreeing = ground arith;
    most_agreeing = ground arith;
    single_alone = ground arith;
    quorum_together = ground arith;
    judge_there = ground arith;
    judge_ok = ground arith;
  }

  runnable-validate_group : (g : ModelGroupSpec R) → IsRunnable g → validate_group g ≡ ok tt
  unfolding validate_group validate_policy validate_adjudicator
  runnable-validate_group g h = ground (
    arith,
    h.has_candidates,
    h.unique_ids,
    h.ascending_ranks,
    h.same_roles,
    h.valid_candidates,
    h.threshold,
    h.confidence,
    h.least_successful,
    h.most_successful,
    h.least_agreeing,
    h.most_agreeing,
    h.single_alone,
    h.quorum_together,
    h.judge_there,
    h.judge_ok,
    ranks-is_ascending (ranks_of g.candidates),
    validate_candidates-all g.candidates,
    any-not g.candidates (λ c. same_role c.spec.role g.role),
  )

  -- A group passes `ModelGroupSpec.validate` exactly if it can be run: it has candidates, all valid
  -- models of the group's role, with ids of their own, in strictly ascending ranks; thresholds within
  -- 0 and 1 and minima within 1 and the number of candidates; one candidate for single_with_rules,
  -- two or more for a quorum; and where a quorum or an agreement of several may end in a
  -- contradiction, a judge, which is a valid model of the role consensus_judge with an id and a rank
  -- that no candidate has.
  pub validate_group-IsRunnable : (g : ModelGroupSpec R) → (validate_group g ≡ ok tt) ↔ IsRunnable g
  validate_group-IsRunnable g = (valid-IsRunnable g, runnable-validate_group g)
