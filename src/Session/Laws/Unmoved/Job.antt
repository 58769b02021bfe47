-- ===== src/Session/Laws/Unmoved/Job.antt =====
-- No model of a session moves a result: the items of the output against the initial results.
use fireviewer_ai_worker.Common.{
  ◌≡◌, refl, ap, ◌∙◌, String, Option, some, List, [], ◌∷◌, map, arith, Option-cases, inl, inr,
}
use fireviewer_ai_worker.Common.Exec.{ok}
use fireviewer_ai_worker.Common.Float.{FloatOps}
use fireviewer_ai_worker.Common.Dict.{lookup}
use fireviewer_ai_worker.Contracts.{BatchItem, WorkerInput, ItemResult}
use fireviewer_ai_worker.Consensus.{Results}
use fireviewer_ai_worker.Session.Effects.{Events, ◌>>=◌, lift}
use fireviewer_ai_worker.Session.State.{
  SessionState, SessionWorld, SessionRunner, SessionRunResult, role_order, initial_results,
}
use fireviewer_ai_worker.Session.Run.{
  run_stages, finish_session, output_items, start_state, run_session, run_with_trace,
}
use fireviewer_ai_worker.Session.Laws.{Anything, Holds, Holds-bind, Gives, Gives-lift, Gives-bind}
use fireviewer_ai_worker.Session.Laws.Located.{Location, location_of, locations}
use fireviewer_ai_worker.Session.Laws.Unmoved.{InPlace, run_stages-InPlace}

-- what the results say of the items of a batch
abbrev pub located : {R : Type 0} → List (BatchItem R) → Results R → List (Option Location)
located items results = map (λ item. lookup item.input_id (locations results)) items

lookup-locations :
    {R : Type 0} (id : String) (d : Results R) (r : ItemResult R)
    → lookup id d ≡ some r
    → lookup id (locations d) ≡ some (location_of r)
unfolding lookup locations
lookup-locations id [] r h = ground arith
lookup-locations id ((k, x) ∷ d) r h = ground (arith, lookup-locations id d r)

output_items-located :
    {R : Type 0} (items : List (BatchItem R)) (results : Results R)
    → Holds Anything
        (λ rs. map (λ r. some (location_of r)) rs ≡ located items results)
        (output_items items results)
unfolding output_items
output_items-located [] results = refl
output_items-located (item ∷ items) results = elim (Option-cases (lookup item.input_id results)) [
  | inl e ↦ ground arith
  | inr (r, e) ↦
      ground (arith, output_items-located items results, lookup-locations item.input_id results r e)
]

-- the items of the output, one for each item of the batch
abbrev pub IsUnmoved : {R : Type 0} → WorkerInput R → Results R → SessionRunResult R → Type 0
IsUnmoved batch initial r =
    map (λ i. some (location_of i)) r.output.items ≡ located batch.items initial

module _ {R : Type 0} ⦃F : FloatOps R⦄ (world : SessionWorld R) (runner : SessionRunner R)
    (batch : WorkerInput R) where
  finish_session-IsUnmoved :
      (initial : Results R) (state : SessionState R)
      → InPlace initial state
      → Holds Anything (IsUnmoved batch initial) (finish_session runner batch state)
  unfolding finish_session
  finish_session-IsUnmoved initial state h =
      Holds-bind Anything _ (IsUnmoved batch initial) (output_items batch.items state.results) _
        (output_items-located batch.items state.results)
        (λ items e. e ∙ ap (λ d. map (λ item. lookup item.input_id d) batch.items) h)

  from_initial :
      (initial : Results R)
      → Gives Anything (IsUnmoved batch initial) (
          run_stages world runner batch 1 role_order (start_state initial) >>= λ state.
          lift (finish_session runner batch state))
  from_initial initial =
      Gives-bind _ _
        (run_stages-InPlace world batch runner initial 1 role_order (start_state initial) refl)
        (λ state h. Gives-lift _ (finish_session-IsUnmoved initial state h))

  -- A job that returns has one item for each item of the batch, in their order. What it says of the
  -- input, of the metadata, of the status of the location and of the marker is what the initial
  -- result of that input has said: no model and no judge can add or move a location.
  pub run_with_trace-IsUnmoved :
      (initial : Results R) (es : Events)
      → initial_results batch.items [] ≡ ok initial
      → Holds Anything (IsUnmoved batch initial) (run_with_trace world runner batch es).0
  unfolding run_with_trace run_session ◌>>=◌
  run_with_trace-IsUnmoved initial es h = rw (h, Holds) ((from_initial initial).at es)
