-- ===== src/Session/Laws/Ready.antt =====
-- `SessionRunner.__init__`: what a runner that has been constructed can count on.
use mathlib.Core.Path.{subst}
use fireviewer_ai_worker.Common.{
  ℕ, ◌≡◌, refl, Bool, true, false, not, List, [], ◌∷◌, arith, All, all,
}
use fireviewer_ai_worker.Common.Exec.{Exception, Result, ok, err, is_ok, ◌>>=◌, ◌>>◌, raise_if}
use fireviewer_ai_worker.Common.Float.{FloatOps}
use fireviewer_ai_worker.Stage.{PipelineRole, StageContract, to_stage}
use fireviewer_ai_worker.Registry.{ModelRole, ModelGroupSpec, same_role, validate_group}
use fireviewer_ai_worker.Registry.Laws.{IsRunnable, validate_group-IsRunnable}
use fireviewer_ai_worker.Session.Laws.{Anything, Holds}
use fireviewer_ai_worker.Session.State.{
  RegistryEntry, SessionRunner, as_group, normalize_registry, check_bindings, contract_of,
  new_session_runner, role_order,
}

-- the roles of the loop that have a contract
abbrev pub have_contracts : List StageContract → List PipelineRole → Bool
have_contracts contracts = all (λ role. is_ok (contract_of (to_stage role) contracts))

check_bindings-have_contracts :
    (contracts : List StageContract) (roles : List PipelineRole)
    → Holds Anything (λ _. have_contracts contracts roles ≡ true) (check_bindings contracts roles)
unfolding check_bindings all
check_bindings-have_contracts contracts [] = refl
check_bindings-have_contracts contracts (role ∷ roles) =
    ground (arith, check_bindings-have_contracts contracts roles)

module _ {R : Type 0} ⦃F : FloatOps R⦄ where
  -- a group under the role that it is for, as its own validation wants it
  abbrev pub IsRegistered : ModelRole × ModelGroupSpec R → Type 0
  IsRegistered (role, g) = (same_role g.role role ≡ true) × IsRunnable g

  IsRegistered-Holds :
      (role : ModelRole) (g : ModelGroupSpec R)
      (rest : Result (List (ModelRole × ModelGroupSpec R))) (wrong : Exception) (matches : Bool)
      (valid : Result (Unit {0}))
      → (matches ≡ true → same_role g.role role ≡ true)
      → (valid ≡ ok tt → IsRunnable g)
      → Holds Anything (All IsRegistered) rest
      → Holds Anything
          (All IsRegistered)
          (raise_if (not matches) wrong >> (valid >> (rest >>= λ groups. ok ((role, g) ∷ groups))))
  IsRegistered-Holds role g (ok groups) wrong true (ok _) hm hv h = ((hm refl, hv refl), h)
  IsRegistered-Holds role g (err e) wrong true (ok _) hm hv h = tt
  IsRegistered-Holds role g rest wrong true (err e) hm hv h = tt
  IsRegistered-Holds role g rest wrong false valid hm hv h = tt

  normalize_registry-Holds :
      (entries : List (ModelRole × RegistryEntry R))
      → Holds Anything (All IsRegistered) (normalize_registry entries)
  unfolding normalize_registry
  normalize_registry-Holds [] = tt
  normalize_registry-Holds ((role, entry) ∷ rest) =
      let g = as_group role entry in
      IsRegistered-Holds role g (normalize_registry rest) _ _ (validate_group g) (λ e. e)
        (validate_group-IsRunnable g).0 (normalize_registry-Holds rest)

  pub record IsReady (runner : SessionRunner R) : Type 0 where
    pub groups : All IsRegistered runner.registry
    pub contracts : have_contracts runner.contracts role_order ≡ true

  IsReady-Holds :
      (groups : Result (List (ModelRole × ModelGroupSpec R))) (bindings : Result (Unit {0}))
      (contracts : List StageContract) (boot_ms : ℕ)
      → Holds Anything (All IsRegistered) groups
      → Holds Anything (λ _. have_contracts contracts role_order ≡ true) bindings
      → Holds Anything IsReady (
          groups >>= λ registry.
          bindings >> ok (record { registry = registry; contracts = contracts; boot_ms = boot_ms }))
  IsReady-Holds (ok groups) (ok _) contracts boot_ms hg hc = record { groups = hg; contracts = hc }
  IsReady-Holds (ok groups) (err e) contracts boot_ms hg hc = tt
  IsReady-Holds (err e) bindings contracts boot_ms hg hc = tt

  constructed :
      (made : Result (SessionRunner R)) (runner : SessionRunner R)
      → made ≡ ok runner
      → Holds Anything IsReady made
      → IsReady runner
  constructed made runner e h = subst (Holds Anything IsReady) e h

  -- A runner that has been constructed has, under every role of its registry, a group of that role
  -- that can be run, and a contract for every stage of the loop: no stage raises a KeyError for its
  -- contract.
  pub new_session_runner-IsReady :
      (entries : List (ModelRole × RegistryEntry R)) (contracts : List StageContract) (boot_ms : ℕ)
      (runner : SessionRunner R)
      → new_session_runner entries contracts boot_ms ≡ ok runner
      → IsReady runner
  unfolding new_session_runner
  new_session_runner-IsReady entries contracts boot_ms runner e =
      constructed (new_session_runner entries contracts boot_ms) runner e (
        IsReady-Holds (normalize_registry entries) (check_bindings contracts role_order) contracts
          boot_ms (normalize_registry-Holds entries)
          (check_bindings-have_contracts contracts role_order))
