-- ===== src/Session/Effects.antt =====
-- What the session does to the world, as a trace of events, and calls that extend the trace and
-- return or raise. A parameter of the model may depend on the trace so far.
use fireviewer_ai_worker.Common.{Bool, Option, none, some, List, ◌∷◌}
use fireviewer_ai_worker.Common.Exec.{Exception, Result, ok, err}
use fireviewer_ai_worker.Registry.{ModelSpec}

-- The newest event stands first.
pub data Event : Type 0 where
  -- adapter_factory.create, create_consensus_judge
  created : ModelSpec → Event
  -- memory.reset_peak()
  peak_reset : Event
  -- adapter.load()
  loaded : ModelSpec → Event
  -- adapter.infer(…) and adapter.adjudicate(…), with the flag `correction`
  inferred : Bool → Event
  -- memory.release(adapter)
  released : ModelSpec → Event
  -- memory.finalize_job()
  finalized : Event

abbrev pub Events : Type 0
Events = List Event

abbrev pub Eff {ℓ} : Type ℓ → Type ℓ
Eff A = Events → Result A × Events

module _ {ℓ} {A : Type ℓ} where
  abbrev pub pure : A → Eff A
  pure a es = (ok a, es)

  abbrev pub lift : Result A → Eff A
  lift r es = (r, es)

abbrev pub log : Event → Eff (Unit {0})
log e es = (ok tt, e ∷ es)

-- a call that is recorded and may raise
abbrev pub call : Event → Option Exception → Eff (Unit {0})
call e none es = (ok tt, e ∷ es)
call e (some x) es = (err x, e ∷ es)

module _ {ℓ κ} {A : Type ℓ} {B : Type κ} where
  abbrev pub continue : Result A → (A → Eff B) → Eff B
  continue (ok a) f es = f a es
  continue (err x) f es = (err x, es)

  infixl 5 ◌>>=◌
  unfoldable pub ◌>>=◌ : Eff A → (A → Eff B) → Eff B
  ◌>>=◌ m f es = let (r, es') = m es in continue r f es'

infixl 5 ◌>>◌
abbrev pub ◌>>◌ {ℓ} : {B : Type ℓ} → Eff (Unit {0}) → Eff B → Eff B
m >> k = m >>= λ _. k

-- Construction of a pydantic model: its validator may raise.
abbrev pub construct : {A : Type 0} → (A → Result (Unit {0})) → A → Result A
construct validate a = elim (validate a) [ ok _ ↦ ok a | err x ↦ err x ]
