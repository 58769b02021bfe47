-- ===== src/Session/Residency.antt =====
-- What the adapters hold of the GPU: `loaded` to `released` brackets, read off the trace of events.
-- `MemoryManager` of memory_manager.py "owns the explicit release boundary between two GPU model
-- families", and model_registry.py counts on one model being unloaded before the next is loaded.
pub mod Calls
use fireviewer_ai_worker.Common.{
  ◌≡◌, Bool, true, false, Option, none, some, List, [], ◌∷◌, if◌then◌else◌, arith,
}
use fireviewer_ai_worker.Common.Exec.{Exception, Result, ok, err}
use fireviewer_ai_worker.Session.Effects.{
  Event, Events, created, peak_reset, loaded, inferred, released, finalized, Eff, pure, lift,
  continue, ◌>>=◌,
}

-- Whether an adapter is in memory after the events, or `none` where the discipline was broken: a
-- load beside another adapter, an inference with none, or the end of the job beside one.
abbrev pub resident : Events → Option Bool
resident [] = some false
resident (loaded m ∷ es) = elim (resident es) [ some false ↦ some true | _ ↦ none ]
resident (inferred c ∷ es) = elim (resident es) [ some true ↦ some true | _ ↦ none ]
resident (released m ∷ es) = elim (resident es) [ some b ↦ some false | none ↦ none ]
resident (finalized ∷ es) = elim (resident es) [ some false ↦ some false | _ ↦ none ]
resident (created m ∷ es) = resident es
resident (peak_reset ∷ es) = resident es

-- no adapter is in memory, and never were two
abbrev pub IsIdle : Events → Type 0
IsIdle es = resident es ≡ some false

-- a call that leaves no adapter in memory, whether it returns or raises
pub record Frees {ℓ} {A : Type ℓ} (m : Eff A) : Type ℓ where
  pub at : (es : Events) → IsIdle es → IsIdle (m es).1

module _ {ℓ} {A : Type ℓ} where
  pub Frees-pure : (a : A) → Frees (pure a)
  Frees-pure a = record { at = λ es h. h }

  pub Frees-lift : (r : Result A) → Frees (lift r)
  Frees-lift r = record { at = λ es h. h }

  pub Frees-if : (b : Bool) (m n : Eff A) → Frees m → Frees n → Frees (if b then m else n)
  Frees-if true m n fm fn = fm
  Frees-if false m n fm fn = fn

module _ {ℓ κ} {A : Type ℓ} {B : Type κ} where
  Frees-continue :
      (r : Result A) (f : A → Eff B) (es : Events)
      → ((a : A) → Frees (f a))
      → IsIdle es
      → IsIdle (continue r f es).1
  Frees-continue (ok a) f es h i = (h a).at es i
  Frees-continue (err e) f es h i = i

  pub Frees-bind : (m : Eff A) (f : A → Eff B) → Frees m → ((a : A) → Frees (f a)) → Frees (m >>= f)
  unfolding ◌>>=◌
  Frees-bind m f fm ff = record {
    at = λ es i. let (r, es') = m es in Frees-continue r f es' ff (fm.at es i);
  }

pub ruleset frees_rules = (Frees-pure, Frees-lift, Frees-if, Frees-bind)
