-- ===== src/Broker/Laws/Changes.antt =====
-- What the messages and replies of the socket tell of the sessions, as a list of changes.
use fireviewer_ai_worker.Common.{
  String, Bool, true, false, ◌&&◌, Option, none, some, List, [], ◌∷◌, str_eq, is_some,
  if◌then◌else◌,
}
use fireviewer_ai_worker.Common.Dict.{Dict}
use fireviewer_ai_worker.Common.Exec.{Result, ok, err}
use fireviewer_ai_worker.Broker.{BrokerPolicy, TextLibrary, Values}
use fireviewer_ai_worker.Broker.Policy.{get_text, get_dict, policy_of}
use fireviewer_ai_worker.Broker.Server.{Reply, session_token, revoked}

-- a session that was opened, or closed
pub data Change : Type 0 where
  granted : String → BrokerPolicy → Change
  withdrawn : String → Change

-- the policy of a token by the changes, the newest of which stands first
unfoldable pub live : List Change → String → Option BrokerPolicy
live [] token = none
live (granted opened policy ∷ log) token =
    if str_eq opened token then some policy else live log token
live (withdrawn closed ∷ log) token = if str_eq closed token then none else live log token

-- a reply that only a session gets
abbrev pub of_session : Reply → Bool
of_session (session_token t) = false
of_session revoked = false
of_session _ = true

module _ (L : TextLibrary) {V : Type 0} (values : Values V) where
  -- the policy that a message asks for
  abbrev pub asked_policy : Dict V → Result BrokerPolicy
  asked_policy message = elim (get_dict values "policy" message) [
    | ok given ↦ policy_of L values given
    | err e ↦ err e
  ]

  abbrev grant : String → Result BrokerPolicy → List Change → List Change
  grant token (ok policy) log = granted token policy ∷ log
  grant token (err e) log = log

  -- the changes with that which a message and its reply tell of
  unfoldable pub note_reply : Dict V → Result Reply → List Change → List Change
  note_reply message (ok (session_token token)) log = grant token (asked_policy message) log
  note_reply message (ok revoked) log = withdrawn (get_text values "session_token" message) ∷ log
  note_reply message _ log = log

  -- a reply that is no error has its token: that of the control, or that of a session that is live
  unfoldable pub is_authorized : String → List Change → Dict V → Result Reply → Bool
  unfolding live
  is_authorized control log message (err e) = true
  is_authorized control log message (ok reply) =
      if of_session reply
      then is_some (live log (get_text values "session_token" message))
      else str_eq (get_text values "control_token" message) control

  unfoldable pub all_authorized : String → List Change → List (Dict V) → List (Result Reply) → Bool
  unfolding is_authorized note_reply
  all_authorized control log [] [] = true
  all_authorized control log (message ∷ messages) (reply ∷ replies) =
      is_authorized control log message reply
      && all_authorized control (note_reply message reply log) messages replies
  all_authorized control log _ _ = false

  -- the changes of a whole run
  unfoldable pub note_all : List (Dict V) → List (Result Reply) → List Change → List Change
  unfolding note_reply
  note_all [] replies log = log
  note_all (message ∷ messages) [] log = log
  note_all (message ∷ messages) (reply ∷ replies) log =
      note_all messages replies (note_reply message reply log)
