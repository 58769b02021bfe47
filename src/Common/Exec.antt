-- ===== src/Common/Exec.antt =====
-- Exceptions as values, and calls with effects: a call is given the trace of what has happened so
-- far, and returns or raises with the trace as it stands then. What was done before a raise stays.
use Prim.Native.String.{String}
use mathlib.Core.Bool.{Bool, true, false}

-- `ModelOutputError` of adapters.py, `OutputValidationError` of validation.py, `RegistryError` of
-- model_registry.py, `BrokerPolicyError` of research_broker.py, a `ValueError` (also pydantic's), a
-- `KeyError`, and any other `Exception`.
pub data Exception : Type 0 where
  model_output_error : Exception
  output_validation_error : String → Exception
  registry_error : String → Exception
  broker_policy_error : String → Exception
  value_error : String → Exception
  type_error : String → Exception
  key_error : String → Exception
  assertion_error : Exception
  other_error : String → Exception

pub data Result {ℓ} (A : Type ℓ) : Type ℓ where
  ok : A → Result A
  err : Exception → Result A

abbrev pub is_ok {ℓ} : {A : Type ℓ} → Result A → Bool
is_ok (ok _) = true
is_ok (err _) = false

-- what follows a call, which an exception skips
infixl 5 ◌>>=◌
abbrev pub ◌>>=◌ {ℓ κ} : {A : Type ℓ} {B : Type κ} → Result A → (A → Result B) → Result B
err raised >>= rest = err raised
ok value >>= rest = rest value

-- if failed: raise e
abbrev pub raise_if : Bool → Exception → Result (Unit {0})
raise_if true e = err e
raise_if false e = ok tt

-- the same for a call whose value is not used
infixl 5 ◌>>◌
abbrev pub ◌>>◌ {ℓ} : {A : Type ℓ} → Result (Unit {0}) → Result A → Result A
done >> rest = done >>= λ _. rest
