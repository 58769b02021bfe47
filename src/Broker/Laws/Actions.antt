-- ===== src/Broker/Laws/Actions.antt =====
-- The actions of a session, and what a message of the socket may do.
use fireviewer_ai_worker.Common.{ℕ, String, not, Option, none, some, List, ◌||◌, ◌==◌}
use fireviewer_ai_worker.Common.Calls.{
  Leads-pure, Leads-if, Leads-bind, Leads-lift_bind, Keeps-raise, Ends,
}
use fireviewer_ai_worker.Common.Dict.{Dict, lookup}
use fireviewer_ai_worker.Common.Exec.{Result, ok, err}
use fireviewer_ai_worker.Common.Strings.{is_blank, count_text}
use fireviewer_ai_worker.Broker.{
  BrokerPolicy, TextLibrary, Values, NetEvent, Outside, Network, normal_host,
}
use fireviewer_ai_worker.Broker.Policy.{get_text, get_bool}
use fireviewer_ai_worker.Broker.Fetch.{
  search_on, search_links, inspect as inspect_url, fetch_public_content,
}
use fireviewer_ai_worker.Broker.Upload.{fetch as fetch_object}
use fireviewer_ai_worker.Broker.Server.{Action, configure, revoke, search, fetch, inspect, act}
use fireviewer_ai_worker.Broker.Laws.Traffic.{InTraffic}
use fireviewer_ai_worker.Broker.Laws.Allowed.{Traffic, begins}
use fireviewer_ai_worker.Broker.Laws.Contained.{
  Stays, search_with-Stays, direct-Stays, store_fetched-Stays,
}

module _ (L : TextLibrary) (N : Network) {V : Type 0} (values : Values V)
    (policy : BrokerPolicy) where
  module _ (start : List NetEvent) where
    search_on-Stays :
        (template : Option String) (query domain : String) (offset limit : ℕ)
        → Stays L N policy start (search_on L N template query domain offset limit policy)
    search_on-Stays none query domain offset limit = Keeps-raise _
    search_on-Stays (some template) query domain offset limit =
        Leads-if (is_blank query || count_text "{query}" template == 0) _ _ (λ _. Keeps-raise _)
          λ _. search_with-Stays L N policy start query domain offset limit template

    search_links-Stays :
        (message : Dict V) → Stays L N policy start (search_links L N values message policy)
    unfolding search_links
    search_links-Stays message =
        Leads-lift_bind _ _ (λ o t. t)
          λ arguments _.
            Leads-lift_bind _ _ (λ o t. t)
              λ (offset, limit) _.
                search_on-Stays
                  (lookup (normal_host L (get_text values "domain" arguments))
                    policy.search_templates)
                  (L.strip (get_text values "query" arguments))
                  (normal_host L (get_text values "domain" arguments)) offset limit

    inspect-Stays :
        (message : Dict V) → Stays L N policy start (inspect_url L N values message policy)
    unfolding inspect_url
    inspect-Stays message =
        Leads-lift_bind _ _ (λ o t. t)
          λ arguments _.
            Leads-bind _ _ (direct-Stays L N policy start "HEAD" (get_text values "url" arguments))
              λ (response, content). Leads-pure _ λ o t. t

    fetch_public_content-Stays :
        (url : String) → Stays L N policy start (fetch_public_content L N url policy)
    unfolding fetch_public_content
    fetch_public_content-Stays url =
        Leads-bind _ _ (direct-Stays L N policy start "GET" url)
          λ (response, content). Leads-lift_bind _ _ (λ o t. t) λ result _. Leads-pure _ λ o t. t

    fetch-Stays :
        (message : Dict V) → Stays L N policy start (fetch_object L N values message policy)
    unfolding fetch_object
    fetch-Stays message =
        Leads-lift_bind _ _ (λ o t. t)
          λ arguments _.
            Leads-bind _ _ (fetch_public_content-Stays (get_text values "url" arguments))
              λ (result, content).
                Leads-if (not (get_bool values "store" arguments)) _ _ (λ _. Leads-pure _ λ o t. t)
                  λ _.
                    store_fetched-Stays L N policy start policy.pathname_prefix _ _ result content

    act-Stays :
        (action : Option Action) (message : Dict V)
        → Stays L N policy start (act L N values action message policy)
    unfolding act
    act-Stays (some search) message =
        Leads-bind _ _ (search_links-Stays message) λ page. Leads-pure _ λ o t. t
    act-Stays (some fetch) message =
        Leads-bind _ _ (fetch-Stays message) λ (result, stored). Leads-pure _ λ o t. t
    act-Stays (some inspect) message =
        Leads-bind _ _ (inspect-Stays message) λ metadata. Leads-pure _ λ o t. t
    act-Stays (some configure) message = Keeps-raise _
    act-Stays (some revoke) message = Keeps-raise _
    act-Stays none message = Keeps-raise _

  left-InTraffic :
      {A : Type 0} (start : List NetEvent) (out : Result A × Outside)
      → Ends (InTraffic L N policy start) (λ _. InTraffic L N policy start) out
      → Traffic L N policy start out.1.events
  left-InTraffic start (ok a, o) t = t
  left-InTraffic start (err e, o) t = t

  -- Whatever a session asks for, and whatever the network answers, its action extends the trace
  -- only by lookups, by requests to https URLs of domains of its policy right behind a lookup of
  -- the host that found only public addresses, by posts to its token endpoint behind such a
  -- lookup, and by uploads within its prefix, size and content types.
  pub act-IsContained :
      (action : Option Action) (message : Dict V) (o : Outside)
      → Traffic L N policy o.events (act L N values action message policy o).1.events
  act-IsContained action message o =
      left-InTraffic o.events _ ((act-Stays o.events action message).at o begins)
