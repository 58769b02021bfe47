-- ===== src/Common/Calls.antt =====
-- Calls that read and change a state of type `S`, and return or raise with the state as it stands
-- then; and what such a call guarantees of the state that it leaves, by the way it is built.
use mathlib.Core.Path.{◌≡◌, refl}
use mathlib.Core.Bool.{Bool, true, false}
use mathlib.Core.Option.{Option, none, some}
use fireviewer_ai_worker.Common.Tests.{if◌then◌else◌}
use fireviewer_ai_worker.Common.Exec.{Exception, Result, ok, err}

abbrev pub Call : Type 0 → Type 0 → Type 0
Call S A = S → Result A × S

module _ {S A : Type 0} where
  abbrev pub pure : A → Call S A
  pure a s = (ok a, s)

  -- raise e
  abbrev pub raise : Exception → Call S A
  raise e s = (err e, s)

  abbrev pub lift : Result A → Call S A
  lift r s = (r, s)

  -- a value that is read off the state
  abbrev pub ask : (S → Result A) → Call S A
  ask f s = (f s, s)

-- raise e, if there is one
abbrev pub check : {S : Type 0} → Option Exception → Call S (Unit {0})
check none s = (ok tt, s)
check (some e) s = (err e, s)

-- if failed: raise e
abbrev pub raise_when : {S : Type 0} → Bool → Exception → Call S (Unit {0})
raise_when true e s = (err e, s)
raise_when false e s = (ok tt, s)

abbrev pub change : {S : Type 0} → (S → S) → Call S (Unit {0})
change f s = (ok tt, f s)

module _ {S A B : Type 0} where
  abbrev continue : Result A × S → (A → Call S B) → Result B × S
  continue (ok a, s) f = f a s
  continue (err e, s) f = (err e, s)

  infixr 5 ◌>>=◌
  unfoldable pub ◌>>=◌ : Call S A → (A → Call S B) → Call S B
  ◌>>=◌ m f s = continue (m s) f

infixr 5 ◌>>◌
abbrev pub ◌>>◌ : {S B : Type 0} → Call S (Unit {0}) → Call S B → Call S B
m >> k = m >>= λ _. k

module _ {S A : Type 0} where
  abbrev handled : Result A × S → (Exception → Call S A) → Result A × S
  handled (ok a, s) f = (ok a, s)
  handled (err e, s) f = f e s

  -- try: m, except Exception as e: f e
  unfoldable pub catch : Call S A → (Exception → Call S A) → Call S A
  catch m f s = handled (m s) f

  -- the two ends of a call
  abbrev pub Ends : (S → Type 0) → (A → S → Type 0) → Result A × S → Type 0
  Ends E Q (ok a, s) = Q a s
  Ends E Q (err e, s) = E s

-- From a state with `I` the call ends in a state with `Q` of its value, or raises in one with `E`.
pub record Leads {S A : Type 0} (I E : S → Type 0) (Q : A → S → Type 0) (m : Call S A)
    : Type 0 where
  pub at : (s : S) → I s → Ends E Q (m s)

module _ {S A : Type 0} {I E : S → Type 0} {Q : A → S → Type 0} where
  pub Leads-pure : (a : A) → ((s : S) → I s → Q a s) → Leads I E Q (pure a)
  Leads-pure a h = record { at = h }

  pub Leads-raise : (e : Exception) → ((s : S) → I s → E s) → Leads I E Q (raise e)
  Leads-raise e h = record { at = h }

  pub Leads-if :
      (b : Bool) (m n : Call S A)
      → (b ≡ true → Leads I E Q m)
      → (b ≡ false → Leads I E Q n)
      → Leads I E Q (if b then m else n)
  Leads-if true m n hm hn = hm refl
  Leads-if false m n hm hn = hn refl

module _ {S A B : Type 0} (E : S → Type 0) (Q : A → S → Type 0) (P : B → S → Type 0) where
  continue-Ends :
      (f : A → Call S B) (out : Result A × S)
      → Ends E Q out
      → ((a : A) → Leads (Q a) E P (f a))
      → Ends E P (continue out f)
  continue-Ends f (ok a, s) h g = (g a).at s h
  continue-Ends f (err e, s) h g = h

module _ {S A B : Type 0} {I E : S → Type 0} {Q : A → S → Type 0} {P : B → S → Type 0} where
  pub Leads-bind :
      (m : Call S A) (f : A → Call S B)
      → Leads I E Q m
      → ((a : A) → Leads (Q a) E P (f a))
      → Leads I E P (m >>= f)
  unfolding ◌>>=◌
  Leads-bind m f hm hf = record { at = λ s h. continue-Ends E Q P f (m s) (hm.at s h) hf }

module _ {S A : Type 0} (E F : S → Type 0) (Q : A → S → Type 0) where
  handled-Ends :
      (f : Exception → Call S A) (out : Result A × S)
      → Ends E Q out
      → ((e : Exception) → Leads E F Q (f e))
      → Ends F Q (handled out f)
  handled-Ends f (ok a, s) h g = h
  handled-Ends f (err e, s) h g = (g e).at s h

module _ {S A : Type 0} {I E F : S → Type 0} {Q : A → S → Type 0} where
  pub Leads-catch :
      (m : Call S A) (f : Exception → Call S A)
      → Leads I E Q m
      → ((e : Exception) → Leads E F Q (f e))
      → Leads I F Q (catch m f)
  unfolding catch
  Leads-catch m f hm hf = record { at = λ s h. handled-Ends E F Q f (m s) (hm.at s h) hf }

ask-Ends : {S A : Type 0} (I : S → Type 0) (r : Result A) (s : S) → I s → Ends I (λ _. I) (r, s)
ask-Ends I (ok a) s h = h
ask-Ends I (err e) s h = h

after-Ends :
    {S A : Type 0} (E F : S → Type 0) (Q P : A → S → Type 0) (out : Result A × S)
    → Ends E Q out
    → ((s : S) → E s → F s)
    → ((a : A) (s : S) → Q a s → P a s)
    → Ends F P out
after-Ends E F Q P (ok a, s) h e q = q a s h
after-Ends E F Q P (err x, s) h e q = e s h

-- the ends may be weakened
pub Leads-after :
    {S A : Type 0} {I E F : S → Type 0} {Q P : A → S → Type 0} {m : Call S A}
    → Leads I E Q m
    → ((s : S) → E s → F s)
    → ((a : A) (s : S) → Q a s → P a s)
    → Leads I F P m
Leads-after {m = m} hm e q = record { at = λ s h. after-Ends _ _ _ _ (m s) (hm.at s h) e q }

any-Ends : {S A : Type 0} (out : Result A × S) → Ends (λ _. Unit {0}) (λ _ _. Unit {0}) out
any-Ends (ok a, s) = tt
any-Ends (err e, s) = tt

-- a call of which nothing is known
pub any-Leads :
    {S A : Type 0} (m : Call S A) → Leads (λ _. Unit {0}) (λ _. Unit {0}) (λ _ _. Unit {0}) m
any-Leads m = record { at = λ s h. any-Ends (m s) }

-- a call from which nothing is wanted but that the state keeps a property
abbrev pub Keeps : {S A : Type 0} → (S → Type 0) → Call S A → Type 0
Keeps I m = Leads I I (λ _. I) m

module _ {S A : Type 0} {I : S → Type 0} where
  -- the returned value is that of the expression
  pub Leads-lift : (r : Result A) → Leads I I (λ a s. (r ≡ ok a) × I s) (lift r)
  Leads-lift (ok a) = record { at = λ s h. (refl, h) }
  Leads-lift (err e) = record { at = λ s h. h }

  pub Keeps-lift : (r : Result A) → Keeps I (lift r)
  Keeps-lift (ok a) = record { at = λ s h. h }
  Keeps-lift (err e) = record { at = λ s h. h }

  pub Keeps-raise : (e : Exception) → Keeps {A = A} I (raise e)
  Keeps-raise e = record { at = λ s h. h }

  pub Keeps-ask : (f : S → Result A) → Keeps I (ask f)
  Keeps-ask f = record { at = λ s h. ask-Ends I (f s) s h }

module _ {S : Type 0} {I : S → Type 0} where
  pub Keeps-check : (e : Option Exception) → Keeps I (check e)
  Keeps-check none = record { at = λ s h. h }
  Keeps-check (some e) = record { at = λ s h. h }

  -- behind a guard its condition is false
  pub Leads-raise_when :
      (b : Bool) (e : Exception) → Leads I I (λ _ s. (b ≡ false) × I s) (raise_when b e)
  Leads-raise_when true e = record { at = λ s h. h }
  Leads-raise_when false e = record { at = λ s h. (refl, h) }

-- The same for what follows, where a failure leaves the state as it was.
module _ {S A B : Type 0} {I E : S → Type 0} {P : B → S → Type 0} where
  pub Leads-lift_bind :
      (r : Result A) (f : A → Call S B)
      → ((s : S) → I s → E s)
      → ((a : A) → r ≡ ok a → Leads I E P (f a))
      → Leads I E P (lift r >>= f)
  unfolding ◌>>=◌
  Leads-lift_bind (ok a) f weak hf = record { at = λ s h. (hf a refl).at s h }
  Leads-lift_bind (err e) f weak hf = record { at = λ s h. weak s h }

module _ {S B : Type 0} {I E : S → Type 0} {P : B → S → Type 0} where
  pub Leads-guard :
      (b : Bool) (e : Exception) (k : Call S B)
      → ((s : S) → I s → E s)
      → (b ≡ false → Leads I E P k)
      → Leads I E P (raise_when b e >> k)
  unfolding ◌>>=◌
  Leads-guard true e k weak hk = record { at = λ s h. weak s h }
  Leads-guard false e k weak hk = record { at = λ s h. (hk refl).at s h }

  pub Leads-check :
      (e : Option Exception) (k : Call S B)
      → ((s : S) → I s → E s)
      → Leads I E P k
      → Leads I E P (check e >> k)
  unfolding ◌>>=◌
  Leads-check none k weak hk = record { at = λ s h. hk.at s h }
  Leads-check (some e) k weak hk = record { at = λ s h. weak s h }
