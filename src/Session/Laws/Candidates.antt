-- ===== src/Session/Laws/Candidates.antt =====
-- The loop over the candidates of a group against what the consensus and the end of the stage read
-- off the executions.
use fireviewer_ai_worker.Common.{
  ℕ, ◌≡◌, refl, Bool, true, false, List, [], ◌∷◌, arith, ◌&&◌, nonempty, length, if◌then◌else◌,
  ◌==◌,
}
use fireviewer_ai_worker.Common.Exec.{Exception}
use fireviewer_ai_worker.Stage.{PipelineRole}
use fireviewer_ai_worker.Contracts.{BatchItem}
use fireviewer_ai_worker.Registry.{ModelCandidateSpec, ModelGroupSpec, is_cascade}
use fireviewer_ai_worker.Consensus.{Results}
use fireviewer_ai_worker.Session.Adapter.{CandidateWorld}
use fireviewer_ai_worker.Session.Candidate.{CandidateExecution}
use fireviewer_ai_worker.Session.Effects.{Events}
use fireviewer_ai_worker.Session.Laws.{Holds, Gives, Gives-pure, Gives-if, Gives-bind}
use fireviewer_ai_worker.Session.Laws.Execution.{IsFaithful, Allows, execute_candidate-Gives}
use fireviewer_ai_worker.Session.Stage.Candidates.{stops, run_candidates}

module _ {R : Type 0} where
  -- the executions are, in order, faithful executions of the first of the candidates
  pub data IsPrefix : List ModelCandidateSpec → List (CandidateExecution R) → Type 0 where
    stopped : {cs : List ModelCandidateSpec} → IsPrefix cs []
    next :
        {c : ModelCandidateSpec} {cs : List ModelCandidateSpec} {e : CandidateExecution R}
        {es : List (CandidateExecution R)}
        → IsFaithful c e
        → IsPrefix cs es
        → IsPrefix (c ∷ cs) (e ∷ es)

  -- A cascade may stop behind its first candidate, and nothing else stops before the last.
  pub record AreExecuted (group : ModelGroupSpec R) (first : Bool) (cs : List ModelCandidateSpec)
      (es : List (CandidateExecution R)) : Type 0 where
    pub prefix : IsPrefix cs es
    pub count :
        (if first && (is_cascade group.strategy && (length es == 1)) then length cs else length es)
        ≡ length cs
    pub none_skipped : nonempty es ≡ nonempty cs

  module _ (world : CandidateWorld R) (group : ModelGroupSpec R) (role : PipelineRole)
      (items : List (BatchItem R)) (base : Results R) (max_repair : ℕ) (E : Exception → Type 0)
      (allows : Allows world E) where
    one-AreExecuted :
        (first : Bool) (c : ModelCandidateSpec) (cs : List ModelCandidateSpec)
        (e : CandidateExecution R)
        → IsFaithful c e
        → stops group role first e ≡ true
        → AreExecuted group first (c ∷ cs) (e ∷ [])
    unfolding stops
    one-AreExecuted first c cs e faithful stop = record {
      prefix = next faithful stopped;
      count = ground arith;
      none_skipped = refl;
    }

    more-AreExecuted :
        (first : Bool) (c : ModelCandidateSpec) (cs : List ModelCandidateSpec)
        (e : CandidateExecution R) (es : List (CandidateExecution R))
        → IsFaithful c e
        → AreExecuted group false cs es
        → AreExecuted group first (c ∷ cs) (e ∷ es)
    more-AreExecuted first c cs e es faithful rest = record {
      prefix = next faithful rest.prefix;
      count = ground (arith, rest.count);
      none_skipped = refl;
    }

    pub run_candidates-Gives :
        (first : Bool) (cs : List ModelCandidateSpec)
        → Gives E
            (AreExecuted group first cs)
            (run_candidates world group role items base max_repair first cs)
    unfolding run_candidates
    run_candidates-Gives first [] =
        Gives-pure [] (record { prefix = stopped; count = ground arith; none_skipped = refl })
    run_candidates-Gives first (c ∷ cs) =
        Gives-bind _ _ (execute_candidate-Gives world role c items base max_repair E allows)
          (λ e faithful.
            Gives-if (stops group role first e) _ _
              (λ stop. Gives-pure _ (one-AreExecuted first c cs e faithful stop))
              (λ _.
                Gives-bind _ _ (run_candidates-Gives false cs)
                  (λ es rest. Gives-pure _ (more-AreExecuted first c cs e es faithful rest))))

    -- The loop over the candidates of a group raises only what the factory or the release of an
    -- adapter raises. It executes the candidates in the order of the group, at least the first, and
    -- every one of them unless the group is a cascade that stops behind its first.
    pub run_candidates-AreExecuted :
        (es : Events)
        → Holds E
            (AreExecuted group true group.candidates)
            (run_candidates world group role items base max_repair true group.candidates es).0
    run_candidates-AreExecuted es = (run_candidates-Gives true group.candidates).at es
