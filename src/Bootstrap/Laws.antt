-- ===== src/Bootstrap/Laws.antt =====
-- What a booting pod shows, whatever has happened to it.
use fireviewer_ai_worker.Common.{
  ℕ, zero, suc, ◌-◌, ◌≤◌, ◌≡◌, refl, ◌⊎◌, inl, inr, String, Bool, true, false, not, ◌||◌, Option,
  none, some, List, [], ◌∷◌, arith, is_some, str_eq, eq_refl, eq_iff, if◌then◌else◌,
}
use fireviewer_ai_worker.Common.Strings.{is_blank, text_length}
use fireviewer_ai_worker.Bootstrap.{
  BootstrapStatus, StatusEvent, updated, failed, text_drop, last_500, safe_detail, step, after,
  payload_of, present, do_get, Answer, no_content, not_found, shown, StatusPayload, code_of,
}

text_length-drop : (n : ℕ) (s : String) → text_length (text_drop n s) ≡ text_length s - n
text_length-drop zero s = omega arith
text_length-drop (suc n) String.[] = omega arith
text_length-drop (suc n) (String.◌∷◌ c s) = omega (arith, text_length-drop n s)

text_length-last_500 : (s : String) → text_length (last_500 s) ≤ 500
unfolding last_500
text_length-last_500 s = ground (arith, text_length-drop (text_length s - 500) s)

-- the texts of the answers to a probe
abbrev IsShort : Option String → Type 0
IsShort none = Unit
IsShort (some s) = text_length s ≤ 500

-- an error is shown only with the stage and the status "failed"
pub record IsHonest (p : StatusPayload) : Type 0 where
  pub unready : p.ready ≡ false
  pub told : (str_eq p.status "failed") ≡ (str_eq p.stage "failed")
  pub caused : (not (is_some p.error_type) || str_eq p.status "failed") ≡ true
  pub detailed : (not (is_some p.error_detail) || is_some p.error_type) ≡ true
  pub short : IsShort p.error_detail

-- an answer shows an honest payload, and success only for the root
abbrev pub IsAnswer : String → Answer → Type 0
IsAnswer path no_content = Unit
IsAnswer path not_found = Unit
IsAnswer path (shown code p) = (((path ≡ "/") × (code ≡ 200)) ⊎ (code ≡ 503)) × IsHonest p

-- the state behind the payload
record IsConsistent (s : BootstrapStatus) : Type 0 where
  caused : (not (is_some s.error_type) || str_eq s.stage "failed") ≡ true
  detailed : (not (is_some s.error_detail) || is_some s.error_type) ≡ true
  short : IsShort s.error_detail

module _ (redact : String → String) where
  step-IsConsistent : (e : StatusEvent) (s : BootstrapStatus) → IsConsistent (step redact e s)
  unfolding step safe_detail
  step-IsConsistent (updated stage) s = record { caused = refl; detailed = refl; short = tt }
  step-IsConsistent (failed name text) s = record {
    caused = eq_refl "failed";
    detailed = refl;
    short = text_length-last_500 (redact text);
  }

  after-IsConsistent : (events : List StatusEvent) → IsConsistent (after redact events)
  unfolding after
  after-IsConsistent [] = record { caused = refl; detailed = refl; short = tt }
  after-IsConsistent (e ∷ events) = step-IsConsistent e (after redact events)

present-IsShort : (o : Option String) → IsShort o → IsShort (present o)
present-IsShort none h = tt
present-IsShort (some s) h = held (is_blank s)
  where
    held : (b : Bool) → IsShort (if b then none else some s)
    held true = tt
    held false = h

present-detailed :
    (o : Option String) (b : Bool)
    → (not (is_some o) || b) ≡ true
    → (not (is_some (present o)) || b) ≡ true
present-detailed none b h = refl
present-detailed (some s) b h = ground arith

payload_of-IsHonest : (s : BootstrapStatus) → IsConsistent s → IsHonest (payload_of s)
unfolding payload_of
payload_of-IsHonest s c = record {
  unready = refl;
  told = status_told (str_eq s.stage "failed");
  caused = status_caused (str_eq s.stage "failed") c.caused;
  detailed = present-detailed s.error_detail (is_some s.error_type) c.detailed;
  short = present-IsShort s.error_detail c.short;
}
  where
    status_told : (b : Bool) → str_eq (if b then "failed" else "provisioning") "failed" ≡ b
    status_told true = eq_refl "failed"
    status_told false = refl

    status_caused :
        (b : Bool)
        → (not (is_some s.error_type) || b) ≡ true
        → (not (is_some s.error_type) || str_eq (if b then "failed" else "provisioning") "failed")
          ≡ true
    status_caused b h = rw (status_told b) h

-- After any events of a boot, an answer that shows the status shows it as not ready, with the
-- status failed exactly in the stage failed, tells of an error only then and in at most 500
-- characters, and has the code 200 only for the root and 503 otherwise.
pub do_get-IsAnswer :
    (redact : String → String) (events : List StatusEvent) (path : String)
    → IsAnswer path (do_get path (after redact events))
unfolding do_get
do_get-IsAnswer redact events path =
    answered (str_eq path "/favicon.ico")
      (not (str_eq path "/" || str_eq path "/healthz" || str_eq path "/readyz")) (str_eq path "/")
      refl
  where
    honest : IsHonest (payload_of (after redact events))
    honest = payload_of-IsHonest (after redact events) (after-IsConsistent redact events)

    coded :
        (root : Bool)
        → str_eq path "/" ≡ root
        → ((path ≡ "/") × (code_of root ≡ 200)) ⊎ (code_of root ≡ 503)
    coded true e = inl ((eq_iff path "/").0 e, refl)
    coded false e = inr refl

    answered :
        (icon unknown root : Bool)
        → str_eq path "/" ≡ root
        → IsAnswer path (
            if icon
            then no_content
            else if unknown
            then not_found
            else shown (code_of root) (payload_of (after redact events)))
    answered true unknown root e = tt
    answered false true root e = tt
    answered false false root e = (coded root e, honest)
