-- ===== src/Broker/Laws/Sessions.antt =====
-- The sessions of the broker are those of which its messages and replies tell.
use fireviewer_ai_worker.Common.{
  ◌≡◌, refl, String, true, not, Option, none, some, List, [], ◌∷◌, str_eq, arith, is_some,
}
use fireviewer_ai_worker.Common.Calls.{
  Call, Leads, Leads-pure, Leads-if, Leads-bind, Leads-lift_bind, Leads-raise, Keeps-ask, Ends,
  any-Leads,
}
use fireviewer_ai_worker.Common.Dict.{Dict, lookup, insert, remove, lookup-insert, lookup-remove}
use fireviewer_ai_worker.Common.Exec.{Result, ok, err}
use fireviewer_ai_worker.Broker.{BrokerPolicy, TextLibrary, Values, Outside, Network}
use fireviewer_ai_worker.Broker.Policy.{get_text}
use fireviewer_ai_worker.Broker.Server.{
  Broker, Reply, session_token, revoked, searched, fetched, inspected, Action, configure, revoke,
  search, fetch, inspect, action_of, configure_session, revoke_session, act, session_of, act_for,
  serve, handle, settled, respond_to, serve_all, new_broker,
}
use fireviewer_ai_worker.Broker.Laws.Changes.{
  Change, live, of_session, asked_policy, note_reply, is_authorized, all_authorized, note_all,
}

module _ (L : TextLibrary) {V : Type 0} (values : Values V) where
  -- what serving a message does to the sessions
  pub data Served (message : Dict V) (broker : Broker) : Broker → Reply → Type 0 where
    issues :
        (token : String) (policy : BrokerPolicy)
        → str_eq (get_text values "control_token" message) broker.control_token ≡ true
        → asked_policy L values message ≡ ok policy
        → Served message broker
            (record broker { sessions = insert token policy broker.sessions })
            (session_token token)
    closes :
        str_eq (get_text values "control_token" message) broker.control_token ≡ true
        → Served message broker
            (record broker {
              sessions = remove (get_text values "session_token" message) broker.sessions;
            })
            revoked
    acts :
        (reply : Reply)
        → is_some (lookup (get_text values "session_token" message) broker.sessions) ≡ true
        → of_session reply ≡ true
        → Served message broker broker reply

  module _ (N : Network) (message : Dict V) (broker : Broker) where
    abbrev Serves : Call Outside (Broker × Reply) → Type 0
    Serves m =
        Leads (λ _. Unit {0}) (λ _. Unit {0})
          (λ (later, reply) _. Served message broker later reply) m

    configure_session-Serves : Serves (configure_session L N values message broker)
    unfolding configure_session
    configure_session-Serves =
        Leads-if (not (str_eq (get_text values "control_token" message) broker.control_token)) _ _
          (λ _. Leads-raise _ λ o t. tt)
          λ fits.
            Leads-lift_bind _ _ (λ o t. tt)
              λ given found.
                Leads-lift_bind _ _ (λ o t. tt)
                  λ policy valid.
                    Leads-bind _ _ (Keeps-ask _)
                      λ token. Leads-pure _ λ o t. issues token policy (ground arith) (ground arith)

    revoke_session-Serves : Serves (revoke_session L N values message broker)
    unfolding revoke_session
    revoke_session-Serves =
        Leads-if (not (str_eq (get_text values "control_token" message) broker.control_token)) _ _
          (λ _. Leads-raise _ λ o t. tt) λ fits. Leads-pure _ λ o t. closes (ground arith)

    act-Leads :
        (action : Option Action) (policy : BrokerPolicy)
        → Leads
            (λ _. Unit {0})
            (λ _. Unit {0})
            (λ reply _. of_session reply ≡ true)
            (act L N values action message policy)
    unfolding act
    act-Leads (some search) policy = Leads-bind _ _ (any-Leads _) λ page. Leads-pure _ λ o t. refl
    act-Leads (some fetch) policy =
        Leads-bind _ _ (any-Leads _) λ (result, stored). Leads-pure _ λ o t. refl
    act-Leads (some inspect) policy =
        Leads-bind _ _ (any-Leads _) λ metadata. Leads-pure _ λ o t. refl
    act-Leads (some configure) policy = Leads-raise _ λ o t. tt
    act-Leads (some revoke) policy = Leads-raise _ λ o t. tt
    act-Leads none policy = Leads-raise _ λ o t. tt

    act_for-Serves :
        (policy : Option BrokerPolicy) (action : Option Action)
        → session_of L N values message broker ≡ policy
        → Serves (act_for L N values policy action message broker)
    act_for-Serves none action found = Leads-raise _ λ o t. tt
    act_for-Serves (some policy) action found =
        Leads-bind _ _ (act-Leads action policy)
          λ reply. Leads-pure _ λ o of_act. acts reply (ground arith) of_act

    serve-Serves : (action : Option Action) → Serves (serve L N values action message broker)
    unfolding serve
    serve-Serves (some configure) = configure_session-Serves
    serve-Serves (some revoke) = revoke_session-Serves
    serve-Serves (some search) = act_for-Serves _ (some search) refl
    serve-Serves (some fetch) = act_for-Serves _ (some fetch) refl
    serve-Serves (some inspect) = act_for-Serves _ (some inspect) refl
    serve-Serves none = act_for-Serves _ none refl

    pub handle-Serves : Serves (handle L N values message broker)
    unfolding handle
    handle-Serves = serve-Serves (action_of (get_text values "action" message))

  -- the sessions are those that the changes leave
  abbrev pub AreTracked : String → List Change → Broker → Type 0
  AreTracked control log broker =
      (broker.control_token ≡ control)
      × ((token : String) → lookup token broker.sessions ≡ live log token)

  note_reply-AreTracked :
      (control : String) (log : List Change) (message : Dict V) (broker later : Broker)
      (reply : Reply)
      → AreTracked control log broker
      → Served message broker later reply
      → (is_authorized L values control log message (ok reply) ≡ true)
        × AreTracked control (note_reply L values message (ok reply) log) later
  unfolding is_authorized note_reply live
  note_reply-AreTracked control log message broker later reply (same, tracked)
        (issues token policy fits valid) =
      (
        ground arith,
        (same, λ t. ground (arith, lookup-insert token t policy broker.sessions, tracked t)),
      )
  note_reply-AreTracked control log message broker later reply (same, tracked) (closes fits) = (
    ground arith,
    (
      same,
      λ t. ground (
        arith,
        lookup-remove (get_text values "session_token" message) t broker.sessions,
        tracked t,
      ),
    ),
  )
  note_reply-AreTracked control log message broker later reply (same, tracked)
        (acts answer there of_act) =
      (
        ground (arith, tracked (get_text values "session_token" message)),
        (same, λ t. untouched answer of_act t),
      )
    where
      untouched :
          (answer : Reply)
          → of_session answer ≡ true
          → (t : String)
          → lookup t broker.sessions ≡ live (note_reply L values message (ok answer) log) t
      untouched (searched page) h t = tracked t
      untouched (fetched result stored) h t = tracked t
      untouched (inspected metadata) h t = tracked t
      untouched (session_token token) h t = ground arith
      untouched revoked h t = ground arith

  module _ (N : Network) (control : String) where
    settled-AreTracked :
        (log : List Change) (message : Dict V) (broker : Broker)
        (out : Result (Broker × Reply) × Outside)
        → AreTracked control log broker
        → Ends (λ _. Unit {0}) (λ (later, reply) _. Served message broker later reply) out
        → (is_authorized L values control log message (settled L N values broker out).0 ≡ true)
          × AreTracked control
              (note_reply L values message (settled L N values broker out).0 log)
              (settled L N values broker out).1.0
    unfolding is_authorized note_reply
    settled-AreTracked log message broker (ok (later, reply), o) tracked served =
        note_reply-AreTracked control log message broker later reply tracked served
    settled-AreTracked log message broker (err e, o) tracked served = (refl, tracked)

    respond_to-AreTracked :
        (log : List Change) (message : Dict V) (broker : Broker) (o : Outside)
        → AreTracked control log broker
        → (is_authorized L values control log message (respond_to L N values message broker o).0
            ≡ true)
          × AreTracked control
              (note_reply L values message (respond_to L N values message broker o).0 log)
              (respond_to L N values message broker o).1.0
    unfolding respond_to
    respond_to-AreTracked log message broker o tracked =
        settled-AreTracked log message broker (handle L N values message broker o) tracked
          ((handle-Serves N message broker).at o tt)

    serve_all-AreTracked :
        (log : List Change) (messages : List (Dict V)) (broker : Broker) (o : Outside)
        → AreTracked control log broker
        → (all_authorized L values control log messages (serve_all L N values messages broker o).0
            ≡ true)
          × AreTracked control
              (note_all L values messages (serve_all L N values messages broker o).0 log)
              (serve_all L N values messages broker o).1.0
    unfolding serve_all all_authorized note_all
    serve_all-AreTracked log [] broker o tracked = (refl, tracked)
    serve_all-AreTracked log (message ∷ messages) broker o tracked =
        let (reply, (later, after)) = respond_to L N values message broker o in
        let (allowed, still) = respond_to-AreTracked log message broker o tracked in
        let (others, final) =
          serve_all-AreTracked (note_reply L values message reply log) messages later after still in
        (ground arith, final)

    -- Over any run of messages from no session, a reply that is no error is to a message with the
    -- control token, if it opens or closes a session, and else with a token that the replies
    -- before leave live; at the end the sessions are those that all replies leave live.
    pub serve_all-IsAuthorized :
        (messages : List (Dict V)) (o : Outside)
        → (all_authorized L values control [] messages
              (serve_all L N values messages (new_broker control) o).0
            ≡ true)
          × AreTracked control
              (note_all L values messages
                (serve_all L N values messages (new_broker control) o).0
                [])
              (serve_all L N values messages (new_broker control) o).1.0
    unfolding lookup live
    serve_all-IsAuthorized messages o =
        serve_all-AreTracked [] messages (new_broker control) o (refl, λ token. refl)
