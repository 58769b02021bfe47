-- ===== src/Bootstrap.antt =====
-- bootstrap_status.py: the state that a booting pod shows, and the answers of its HTTP surface.
pub mod Laws
use fireviewer_ai_worker.Common.{
  ℕ, zero, suc, ◌-◌, String, Bool, true, false, not, ◌&&◌, ◌||◌, Option, none, some, List, [], ◌∷◌,
  str_eq, ltb, if◌then◌else◌,
}
use fireviewer_ai_worker.Common.Strings.{is_blank, text_length}

-- BootstrapStatus, without its clock and its lock
pub record BootstrapStatus : Type 0 where
  pub stage : String
  pub error_type : Option String
  pub error_detail : Option String

-- BootstrapStatus()
abbrev pub new_status : BootstrapStatus
new_status = record { stage = "starting"; error_type = none; error_detail = none }

-- the text without its first n characters
abbrev pub text_drop : ℕ → String → String
text_drop zero s = s
text_drop (suc n) String.[] = String.[]
text_drop (suc n) (String.◌∷◌ c s) = text_drop n s

-- detail[-500:]
unfoldable pub last_500 : String → String
last_500 detail =
    if ltb 500 (text_length detail) then text_drop (text_length detail - 500) detail else detail

-- the dict of `payload`, without the time that has passed
pub record StatusPayload : Type 0 where
  pub status : String
  pub stage : String
  pub ready : Bool
  pub error_type : Option String
  pub error_detail : Option String

-- what happens to a status
pub data StatusEvent : Type 0 where
  -- update(stage)
  updated : String → StatusEvent
  -- fail(error), with the name of its type and its text
  failed : String → String → StatusEvent

-- `redact` is the replacement of line breaks, `strip` and the patterns of _SECRET_PATTERNS
module _ (redact : String → String) where
  -- _safe_detail
  unfoldable pub safe_detail : String → String
  unfolding last_500
  safe_detail value = last_500 (redact value)

  -- BootstrapStatus.update and BootstrapStatus.fail
  unfoldable pub step : StatusEvent → BootstrapStatus → BootstrapStatus
  unfolding safe_detail
  step (updated stage) s = record { stage = stage; error_type = none; error_detail = none }
  step (failed name text) s = record {
    stage = "failed";
    error_type = some name;
    error_detail = some (safe_detail text);
  }

  -- the events of a boot, the newest first
  unfoldable pub after : List StatusEvent → BootstrapStatus
  unfolding step
  after [] = new_status
  after (e ∷ events) = step e (after events)

abbrev pub present : Option String → Option String
present none = none
present (some s) = if is_blank s then none else some s

-- BootstrapStatus.payload
unfoldable pub payload_of : BootstrapStatus → StatusPayload
payload_of s = record {
  status = if str_eq s.stage "failed" then "failed" else "provisioning";
  stage = s.stage;
  ready = false;
  error_type = s.error_type;
  error_detail = present s.error_detail;
}

-- the status code and the body of do_GET
pub data Answer : Type 0 where
  no_content : Answer
  not_found : Answer
  shown : ℕ → StatusPayload → Answer

-- OK for the root, which tells of liveness, and else SERVICE_UNAVAILABLE
abbrev pub code_of : Bool → ℕ
code_of true = 200
code_of false = 503

-- _BootstrapRequestHandler.do_GET
unfoldable pub do_get : String → BootstrapStatus → Answer
unfolding payload_of
do_get path s =
    if str_eq path "/favicon.ico"
    then no_content
    else if not (str_eq path "/" || str_eq path "/healthz" || str_eq path "/readyz")
    then not_found
    else shown (code_of (str_eq path "/")) (payload_of s)
