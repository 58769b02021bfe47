-- ===== src/Stage/Gates/Laws.antt =====
-- What `StageGateEngine` of stage_gates.py decides, against the contract of the stage.
use fireviewer_ai_worker.Common.{
  ℕ, ◌≡◌, ◌↔◌, refl, String, Bool, true, false, not, ◌&&◌, ◌||◌, Option, List, [], ◌∷◌, arith, leb,
  all, any, is_empty, nonempty, eq_refl,
}
use fireviewer_ai_worker.Common.Float.{FloatOps}
use fireviewer_ai_worker.Stage.{StageCapability, StageContract, capability_value}
use fireviewer_ai_worker.Stage.Capabilities.{
  Capabilities, among, meets, missing_set, missing_requirements,
}
use fireviewer_ai_worker.Stage.Members.{ordered-empty, empty-ordered, among-all}
use fireviewer_ai_worker.Stage.Gates.{run_preflight, run_postflight, postflight_succeeded}
use fireviewer_ai_worker.Contracts.{RunStatus}
use fireviewer_ai_worker.Contracts.Trace.{GateDecision, proceed, is_succeeded}

-- every capability of `required_all` is there, and one of `required_any` unless it is empty
abbrev pub is_satisfied : StageContract → Capabilities → Bool
is_satisfied contract s =
    all s contract.required_all && (is_empty contract.required_any || any s contract.required_any)

all-of :
    (s : Capabilities) (group : List StageCapability)
    → ((c : StageCapability) → among group c ≡ true → s c ≡ true)
    → all s group ≡ true
unfolding all among any
all-of s [] h = refl
all-of s (d ∷ ds) h = ground (
  arith,
  h d (ground (arith, eq_refl (capability_value d))),
  all-of s ds (λ c m. h c (ground arith)),
)

satisfied-missing :
    (contract : StageContract) (s : Capabilities)
    → is_satisfied contract s ≡ true
    → is_empty (missing_requirements contract s) ≡ true
unfolding missing_requirements missing_set meets
satisfied-missing contract s h =
    empty-ordered (missing_set contract s)
      (λ c. ground (arith, among-all s contract.required_all c))

any_requirement :
    (contract : StageContract) (s : Capabilities) (group : List StageCapability)
    → ((c : StageCapability) → ((nonempty group && not (any s group)) && among group c) ≡ false)
    → (is_empty group || any s group) ≡ true
unfolding among any
any_requirement contract s [] h = refl
any_requirement contract s (d ∷ ds) h = ground (arith, h d, eq_refl (capability_value d))

missing-satisfied :
    (contract : StageContract) (s : Capabilities)
    → is_empty (missing_requirements contract s) ≡ true
    → is_satisfied contract s ≡ true
unfolding missing_requirements missing_set meets
missing-satisfied contract s h =
    let none_missing = ordered-empty (missing_set contract s) h in
    ground (
      arith,
      all-of s contract.required_all (λ c m. ground (arith, none_missing c)),
      any_requirement contract s contract.required_any (λ c. ground (arith, none_missing c)),
    )

is_proceed_decision : GateDecision → Bool
is_proceed_decision proceed = true
is_proceed_decision _ = false

preflight-admits :
    (contract : StageContract) (s : Capabilities) (n : ℕ)
    → (run_preflight contract s n).decision ≡ proceed
    → (leb n contract.max_input_items && is_satisfied contract s) ≡ true
unfolding run_preflight
preflight-admits contract s n h = ground (arith, missing-satisfied contract s)

admits-preflight :
    (contract : StageContract) (s : Capabilities) (n : ℕ)
    → (leb n contract.max_input_items && is_satisfied contract s) ≡ true
    → (run_preflight contract s n).decision ≡ proceed
unfolding run_preflight
admits-preflight contract s n h = ground (arith, satisfied-missing contract s)

-- The preflight lets a stage proceed exactly if there are at most `max_input_items` items, every
-- capability of `required_all` is there, and one of `required_any` unless that list is empty.
pub run_preflight-proceed :
    (contract : StageContract) (s : Capabilities) (n : ℕ)
    → ((run_preflight contract s n).decision ≡ proceed)
      ↔ ((leb n contract.max_input_items && is_satisfied contract s) ≡ true)
run_preflight-proceed contract s n = (preflight-admits contract s n, admits-preflight contract s n)

module _ {R : Type 0} ⦃F : FloatOps R⦄ where
  -- the bounds of the contract, and an output of the wanted kind that was not there before
  abbrev pub is_productive : StageContract → Capabilities → Capabilities → R → ℕ → Bool
  is_productive contract before after elapsed most =
      not (F.lt_test (F.of_int contract.max_wall_time_seconds) elapsed)
      && (leb most contract.max_output_items_per_input
          && any (λ c. after c && not (before c)) contract.minimum_output_any)

  -- The postflight lets the next stage go on with `proceed` exactly for a stage that has succeeded
  -- within its wall time and its bound on the items of an output, and has produced a capability of
  -- `minimum_output_any` that was not there before.
  pub run_postflight-proceed :
      (contract : StageContract) (before after : Capabilities) (status : RunStatus)
      (error_code : Option String) (elapsed : R) (most : ℕ)
      → ((run_postflight contract before after status error_code elapsed most).decision ≡ proceed)
        ↔ ((is_succeeded status && is_productive contract before after elapsed most) ≡ true)
  unfolding run_postflight postflight_succeeded
  run_postflight-proceed contract before after status error_code elapsed most =
      (λ h. ground arith, λ h. ground arith)
