-- ===== src/Session/Laws/Settle.antt =====
-- What `settle` leaves of a stage: the results of the selected candidate, or those that were there.
use fireviewer_ai_worker.Common.{
  ℕ, suc, ◌≡◌, refl, String, Bool, true, false, ◌&&◌, Option, none, some, List, [], ◌∷◌, arith,
  is_some, if◌then◌else◌, nonempty, map, any, get_elem?, contains, is_unique, str_eq, eq_iff, ◌⊎◌,
  inl, inr,
}
use fireviewer_ai_worker.Stage.{PipelineRole}
use fireviewer_ai_worker.Contracts.{succeeded, failed}
use fireviewer_ai_worker.Consensus.{Results, ConsensusEvaluation}
use fireviewer_ai_worker.Consensus.Accepted.{Returns}
use fireviewer_ai_worker.Session.Candidate.{CandidateExecution}
use fireviewer_ai_worker.Session.Stage.Finish.{
  Settled, find_execution, released_execution, settle, settle_failed, settle_by,
}

module _ {R : Type 0} where
  abbrev id_of : CandidateExecution R → String
  id_of e = e.candidate.candidate_id

  -- an execution of the selected candidate that has results
  abbrev is_answer : Option String → CandidateExecution R → Bool
  is_answer none e = false
  is_answer (some selected) e = str_eq selected (id_of e) && is_some e.results

  -- the stage takes over what an execution of the selected candidate has left
  pub record IsReleased (evaluation : ConsensusEvaluation R) (s : Settled R)
      (e : CandidateExecution R) : Type 0 where
    pub selected : evaluation.selected_candidate_id ≡ some (id_of e)
    pub allowed : evaluation.downstream_allowed ≡ true
    pub results : e.results ≡ some s.results
    pub run : s.run ≡ e.run
    pub attempts : s.attempts ≡ e.attempts
    pub status : s.status ≡ succeeded
    pub errors : s.errors ≡ []

  -- the stage has failed, and nothing could be released
  pub record IsKept (evaluation : ConsensusEvaluation R) (base : Results R)
      (es : List (CandidateExecution R)) (s : Settled R) : Type 0 where
    pub blocked :
        (evaluation.downstream_allowed && any (is_answer evaluation.selected_candidate_id) es)
        ≡ false
    pub results : s.results ≡ base
    pub status : s.status ≡ failed
    pub errors : nonempty s.errors ≡ true

  abbrev pub IsSettled :
      ConsensusEvaluation R → Results R → List (CandidateExecution R) → Settled R → Type 0
  IsSettled evaluation base es s =
      ((i : ℕ) × (e : CandidateExecution R) × (get_elem? es i ≡ some e) × IsReleased evaluation s e)
      ⊎ IsKept evaluation base es s

  -- the search finds an execution of the selected candidate
  find_execution-IsSelected :
      (selected : Option String) (es : List (CandidateExecution R)) (e : CandidateExecution R)
      → find_execution selected es ≡ some e
      → (selected ≡ some (id_of e)) × ((i : ℕ) × (get_elem? es i ≡ some e))
  unfolding find_execution
  find_execution-IsSelected none [] e h = ground arith
  find_execution-IsSelected none (first ∷ es) e h =
      let (same, (i, there)) = find_execution-IsSelected none es e h in (same, (suc i, there))
  find_execution-IsSelected (some id) [] e h = ground arith
  find_execution-IsSelected (some id) (first ∷ es) e h =
      met (str_eq (id_of first) id) refl (find_execution-IsSelected (some id) es e) h
    where
      met :
          (b : Bool)
          → str_eq (id_of first) id ≡ b
          → (find_execution (some id) es ≡ some e
              → (some id ≡ some (id_of e)) × ((i : ℕ) × (get_elem? es i ≡ some e)))
          → (if b then some first else find_execution (some id) es) ≡ some e
          → (some id ≡ some (id_of e)) × ((i : ℕ) × (get_elem? (first ∷ es) i ≡ some e))
      met true same later g = (ground (arith, eq_iff (id_of first) id), (0, g))
      met false different later g = let (same, (i, there)) = later g in (same, (suc i, there))

  -- an identifier that is not there has no answer
  any-none :
      (selected : String) (es : List (CandidateExecution R))
      → contains selected (map id_of es) ≡ false
      → any (is_answer (some selected)) es ≡ false
  unfolding contains any
  any-none selected [] h = refl
  any-none selected (e ∷ es) h = ground (arith, any-none selected es)

  -- what is found answers for all executions, of which no two are of one candidate
  abbrev has_answer : Option (CandidateExecution R) → Bool
  has_answer none = false
  has_answer (some e) = is_some e.results

  any-find_execution :
      (selected : Option String) (es : List (CandidateExecution R))
      → is_unique (map id_of es) ≡ true
      → any (is_answer selected) es ≡ has_answer (find_execution selected es)
  unfolding any is_unique find_execution
  any-find_execution none [] h = refl
  any-find_execution none (e ∷ es) h = ground (arith, any-find_execution none es)
  any-find_execution (some id) [] h = refl
  any-find_execution (some id) (e ∷ es) h = ground (
    arith,
    any-find_execution (some id) es,
    any-none id es,
    eq_iff (id_of e) id,
    eq_iff id (id_of e),
  )

  module _ (role : PipelineRole) (evaluation : ConsensusEvaluation R) (base : Results R) where
    settle_failed-IsKept :
        (es : List (CandidateExecution R))
        → nonempty es ≡ true
        → (evaluation.downstream_allowed && any (is_answer evaluation.selected_candidate_id) es)
          ≡ false
        → Returns (IsSettled evaluation base es) (settle_failed role evaluation base es)
    unfolding settle_failed
    settle_failed-IsKept [] h g = ground arith
    settle_failed-IsKept (first ∷ others) h g = inr (record {
      blocked = g;
      results = ground arith;
      status = ground arith;
      errors = ground arith;
    })

    settle_by-IsSettled :
        (es : List (CandidateExecution R)) (found : Option (CandidateExecution R))
        → nonempty es ≡ true
        → any (is_answer evaluation.selected_candidate_id) es ≡ has_answer found
        → find_execution evaluation.selected_candidate_id es ≡ found
        → Returns
            (IsSettled evaluation base es)
            (settle_by role evaluation base es (released_execution evaluation found))
    unfolding released_execution
    settle_by-IsSettled es none h g there = settle_failed-IsKept es h (ground arith)
    settle_by-IsSettled es (some e) h g there =
        released e.results refl evaluation.downstream_allowed refl
      where
        released :
            (answer : Option (Results R))
            → e.results ≡ answer
            → (allowed : Bool) → evaluation.downstream_allowed ≡ allowed
            → Returns (IsSettled evaluation base es) (
                settle_by role evaluation base es (elim answer [
                  | none ↦ none
                  | some results ↦ if allowed then some (e, results) else none
                ]))
        released none missing allowed a = settle_failed-IsKept es h (ground arith)
        released (some results) made false a = settle_failed-IsKept es h (ground arith)
        released (some results) made true a =
            let (same, (i, at_i)) =
              find_execution-IsSelected evaluation.selected_candidate_id es e there in
            inl (
              i,
              e,
              at_i,
              record {
                selected = same;
                allowed = a;
                results = made;
                run = refl;
                attempts = refl;
                status = refl;
                errors = refl;
              },
            )

    -- After at least one execution, of which no two are of one candidate, a stage settles. Either an
    -- execution has the selected identifier, the evaluation lets the next stage run, and the results,
    -- the run and the attempts of the stage are those of that execution. Or the evaluation does not
    -- let the next stage run, or no execution of the selected candidate has results: then the results
    -- stay what they were before the stage, which has failed, and there is an error for it.
    pub settle-IsSettled :
        (es : List (CandidateExecution R))
        → nonempty es ≡ true
        → is_unique (map id_of es) ≡ true
        → Returns (IsSettled evaluation base es) (settle role evaluation base es)
    unfolding settle
    settle-IsSettled es h unique =
        settle_by-IsSettled es (find_execution evaluation.selected_candidate_id es) h
          (any-find_execution evaluation.selected_candidate_id es unique) refl
