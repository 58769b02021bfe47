-- ===== src/Session/Laws.antt =====
-- What a call of the session guarantees of the value that it returns and of what it may raise, by
-- the way the call is built.
pub mod Execution
pub mod Candidates
pub mod Status
pub mod Located
pub mod Unmoved
pub mod Sample
pub mod Outcome
pub mod Ready
pub mod Settle
use fireviewer_ai_worker.Common.{◌≡◌, Bool, true, false, refl, if◌then◌else◌}
use fireviewer_ai_worker.Common.Exec.{Exception, Result, ok, err}
use fireviewer_ai_worker.Common.Exec
use fireviewer_ai_worker.Session.Effects.{Events, Eff, pure, lift, continue, ◌>>=◌}

-- a returned value satisfies the one predicate, and a raised exception the other
abbrev pub Holds : {A : Type 0} → (Exception → Type 0) → (A → Type 0) → Result A → Type 0
Holds E P (ok a) = P a
Holds E P (err e) = E e

-- a call, from any trace, returns such a value or raises such an exception
pub record Gives {A : Type 0} (E : Exception → Type 0) (P : A → Type 0) (m : Eff A) : Type 0 where
  pub at : (es : Events) → Holds E P (m es).0

module _ {A : Type 0} {E : Exception → Type 0} {P : A → Type 0} where
  pub Gives-pure : (a : A) → P a → Gives E P (pure a)
  Gives-pure a h = record { at = λ es. h }

  pub Gives-lift : (r : Result A) → Holds E P r → Gives E P (lift r)
  Gives-lift r h = record { at = λ es. h }

  pub Gives-if :
      (b : Bool) (m n : Eff A)
      → (b ≡ true → Gives E P m)
      → (b ≡ false → Gives E P n)
      → Gives E P (if b then m else n)
  Gives-if true m n gm gn = gm refl
  Gives-if false m n gm gn = gn refl

module _ {A B : Type 0} {E : Exception → Type 0} {Q : A → Type 0} {P : B → Type 0} where
  continue-Gives :
      (r : Result A) (f : A → Eff B) (es : Events)
      → Holds E Q r
      → ((a : A) → Q a → Gives E P (f a))
      → Holds E P (continue r f es).0
  continue-Gives (ok a) f es h g = (g a h).at es
  continue-Gives (err e) f es h g = h

  pub Gives-bind :
      (m : Eff A) (f : A → Eff B)
      → Gives E Q m
      → ((a : A) → Q a → Gives E P (f a))
      → Gives E P (m >>= f)
  unfolding ◌>>=◌
  Gives-bind m f gm gf = record {
    at = λ es. let (r, es') = m es in continue-Gives r f es' (gm.at es) gf;
  }

pub Holds-bind :
    {A B : Type 0} (E : Exception → Type 0) (Q : A → Type 0) (P : B → Type 0) (r : Result A)
    (f : A → Result B)
    → Holds E Q r
    → ((a : A) → Q a → Holds E P (f a))
    → Holds E P (elim r [ ok a ↦ f a | err e ↦ err e ])
Holds-bind E Q P (ok a) f h g = g a h
Holds-bind E Q P (err e) f h g = h

-- any exception
abbrev pub Anything : Exception → Type 0
Anything e = Unit

pub any-Holds : {A : Type 0} (r : Result A) → Holds Anything (λ _. Unit {0}) r
any-Holds (ok a) = tt
any-Holds (err e) = tt

pub any-Gives : {A : Type 0} (m : Eff A) → Gives Anything (λ _. Unit {0}) m
any-Gives m = record { at = λ es. any-Holds (m es).0 }

-- the same on results, for what follows a call and for its branches
pub Holds-then :
    {A B : Type 0} (E : Exception → Type 0) (Q : A → Type 0) (P : B → Type 0) (r : Result A)
    (f : A → Result B)
    → Holds E Q r
    → ((a : A) → Q a → Holds E P (f a))
    → Holds E P (Exec.◌>>=◌ r f)
Holds-then E Q P (ok a) f h g = g a h
Holds-then E Q P (err e) f h g = h

pub Holds-if :
    {A : Type 0} (E : Exception → Type 0) (P : A → Type 0) (b : Bool) (r s : Result A)
    → (b ≡ true → Holds E P r)
    → (b ≡ false → Holds E P s)
    → Holds E P (if b then r else s)
Holds-if E P true r s hr hs = hr refl
Holds-if E P false r s hr hs = hs refl
