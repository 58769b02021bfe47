-- ===== src/Broker/Server.antt =====
-- research_broker.py, lines 150 to 160, 278 to 302 and 726 to 754: the sessions of the broker, and
-- `handle`, which serves one message. `compare_digest` is the equality of texts.
use fireviewer_ai_worker.Common.{
  String, not, Option, none, some, List, [], ◌∷◌, str_eq, if◌then◌else◌,
}
use fireviewer_ai_worker.Common.Calls.{pure, lift, ask, ◌>>=◌}
use fireviewer_ai_worker.Common.Dict.{Dict, lookup, insert, remove}
use fireviewer_ai_worker.Common.Exec.{Result, ok, err}
use fireviewer_ai_worker.Broker.{BrokerPolicy, TextLibrary, Values, Outside, Network}
use fireviewer_ai_worker.Broker.Policy.{get_text, get_dict, policy_of}
use fireviewer_ai_worker.Broker.Guard.{Net, forbid, Metadata}
use fireviewer_ai_worker.Broker.Fetch.{
  SearchPage, FetchResult, search_links, inspect as inspect_url,
}
use fireviewer_ai_worker.Broker.Upload.{Stored, fetch as fetch_object}

-- ResearchBroker, without its lock: a message is served as a whole
pub record Broker : Type 0 where
  pub control_token : String
  pub sessions : Dict BrokerPolicy

-- ResearchBroker(control_token=…)
abbrev pub new_broker : String → Broker
new_broker control = record { control_token = control; sessions = [] }

-- the dict that `handle` returns
pub data Reply : Type 0 where
  session_token : String → Reply
  revoked : Reply
  searched : SearchPage → Reply
  fetched : FetchResult → Option Stored → Reply
  inspected : Metadata → Reply

-- the value of `action`
pub data Action : Type 0 where
  configure revoke search fetch inspect : Action

unfoldable pub action_of : String → Option Action
action_of s =
    if str_eq s "configure"
    then some configure
    else if str_eq s "revoke"
    then some revoke
    else if str_eq s "search"
    then some search
    else if str_eq s "fetch"
    then some fetch
    else if str_eq s "inspect"
    then some inspect
    else none

module _ (L : TextLibrary) (N : Network) {V : Type 0} (values : Values V) where
  -- ResearchBroker.configure
  unfoldable pub configure_session : Dict V → Broker → Net (Broker × Reply)
  unfolding lookup policy_of insert
  configure_session message broker =
      if not (str_eq (get_text values "control_token" message) broker.control_token)
      then forbid "broker_control_unauthorized"
      else (lift (get_dict values "policy" message) >>= λ given.
          lift (policy_of L values given) >>= λ policy.
          ask (λ o. ok (N.token_urlsafe o)) >>= λ token.
          pure
            (record broker { sessions = insert token policy broker.sessions }, session_token token))

  -- ResearchBroker.revoke
  unfoldable pub revoke_session : Dict V → Broker → Net (Broker × Reply)
  unfolding lookup remove
  revoke_session message broker =
      if not (str_eq (get_text values "control_token" message) broker.control_token)
      then forbid "broker_control_unauthorized"
      else pure (
        record broker {
          sessions = remove (get_text values "session_token" message) broker.sessions;
        },
        revoked,
      )

  -- what a session may do
  unfoldable pub act : Option Action → Dict V → BrokerPolicy → Net Reply
  unfolding search_links fetch_object inspect_url
  act (some search) message policy =
      search_links L N values message policy >>= λ page. pure (searched page)
  act (some fetch) message policy =
      fetch_object L N values message policy >>= λ (result, stored). pure (fetched result stored)
  act (some inspect) message policy =
      inspect_url L N values message policy >>= λ metadata. pure (inspected metadata)
  act _ message policy = forbid "broker_action_invalid"

  -- ResearchBroker._session
  abbrev pub session_of : Dict V → Broker → Option BrokerPolicy
  session_of message broker = lookup (get_text values "session_token" message) broker.sessions

  abbrev pub act_for : Option BrokerPolicy → Option Action → Dict V → Broker → Net (Broker × Reply)
  act_for none action message broker = forbid "broker_session_unauthorized"
  act_for (some policy) action message broker =
      act action message policy >>= λ reply. pure (broker, reply)

  unfoldable pub serve : Option Action → Dict V → Broker → Net (Broker × Reply)
  unfolding configure_session revoke_session lookup act
  serve (some configure) message broker = configure_session message broker
  serve (some revoke) message broker = revoke_session message broker
  serve action message broker = act_for (session_of message broker) action message broker

  -- ResearchBroker.handle
  unfoldable pub handle : Dict V → Broker → Net (Broker × Reply)
  unfolding action_of serve
  handle message broker = serve (action_of (get_text values "action" message)) message broker

  -- _BrokerHandler.handle: an exception is answered as an error, and leaves the sessions
  abbrev pub settled :
      Broker → Result (Broker × Reply) × Outside → Result Reply × (Broker × Outside)
  settled old (ok (broker, reply), o) = (ok reply, (broker, o))
  settled old (err e, o) = (err e, (old, o))

  unfoldable pub respond_to : Dict V → Broker → Outside → Result Reply × (Broker × Outside)
  unfolding handle
  respond_to message broker o = settled broker (handle message broker o)

  -- the messages of a run, one after the other
  unfoldable pub serve_all :
      List (Dict V) → Broker → Outside → List (Result Reply) × (Broker × Outside)
  unfolding respond_to
  serve_all [] broker o = ([], (broker, o))
  serve_all (message ∷ messages) broker o =
      let (reply, (later, after)) = respond_to message broker o in
      let (replies, final) = serve_all messages later after in (reply ∷ replies, final)
