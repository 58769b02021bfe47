-- ===== src/Broker/Laws/Sources.antt =====
-- The link that a search takes from a result of its provider leads to a source.
use fireviewer_ai_worker.Common.{◌≡◌, String, true, not, Option, none, some, List, [], ◌∷◌}
use fireviewer_ai_worker.Common.Calls.{
  Leads, Leads-raise, Leads-if, Leads-catch, Leads-after, Leads-lift_bind,
}
use fireviewer_ai_worker.Common.Dict.{Dict, lookup}
use fireviewer_ai_worker.Common.Exec.{Exception, broker_policy_error}
use fireviewer_ai_worker.Broker.{BrokerPolicy, TextLibrary, Network, domain_allowed, host_of}
use fireviewer_ai_worker.Broker.Guard.{Net, guard_url}
use fireviewer_ai_worker.Broker.Fetch.{
  policy_only, rescue, redirect_keys, try_target, first_target, unwrap_link, source_link,
}
use fireviewer_ai_worker.Broker.Laws.Traffic.{guard_url-Leads, InTraffic}
use fireviewer_ai_worker.Broker.Laws.Allowed.{IsHttps, begins}

-- a URL of a source that the policy allows
abbrev pub IsSource : TextLibrary → BrokerPolicy → String → Type 0
IsSource L policy url =
    (host : String) × IsHttps L url host × (domain_allowed host policy.allowed_domains ≡ true)

module _ (L : TextLibrary) (N : Network) (policy : BrokerPolicy) where
  -- a call that returns a source, if it returns
  abbrev pub Finds : Net String → Type 0
  Finds m = Leads (λ _. Unit {0}) (λ _. Unit {0}) (λ url _. IsSource L policy url) m

  guard_url-Finds : (url : String) → Finds (guard_url L N url policy.allowed_domains)
  guard_url-Finds url = record {
    at = λ o _.
        (Leads-after {I = InTraffic L N policy o.events} {F = λ _. Unit {0}}
            {P = λ found _. IsSource L policy found}
            (guard_url-Leads L N policy o.events url policy.allowed_domains) (λ o t. tt)
            λ found o g. (g.host, g.secure, g.permitted)).at
          o begins;
  }

  rescue-Finds :
      (m : Net String) (f : Exception → Net String)
      → Finds m
      → ((e : Exception) → Finds (f e))
      → Finds (rescue m f)
  rescue-Finds m f hm hf = Leads-catch m _ hm only
    where
      only : (e : Exception) → Finds (policy_only f e)
      only (broker_policy_error message) = hf (broker_policy_error message)
      only _ = Leads-raise _ λ o t. tt

  try_target-Finds :
      (keys : Net String) (found : Option (List String))
      → Finds keys
      → Finds (try_target L N policy.allowed_domains keys found)
  try_target-Finds keys none h = h
  try_target-Finds keys (some []) h = h
  try_target-Finds keys (some (candidate ∷ more)) h =
      rescue-Finds _ (λ _. keys) (guard_url-Finds (L.unquote candidate)) λ _. h

  first_target-Finds :
      (keys : List String) (query : Dict (List String)) (e : Exception)
      → Finds (first_target L N keys query policy.allowed_domains e)
  unfolding first_target
  first_target-Finds [] query e = Leads-raise e λ o t. tt
  first_target-Finds (key ∷ keys) query e =
      try_target-Finds _ (lookup key query) (first_target-Finds keys query e)

  unwrap_link-Finds : (value : String) (e : Exception) → Finds (unwrap_link L N value policy e)
  unfolding unwrap_link
  unwrap_link-Finds value e =
      Leads-lift_bind (L.urlsplit value) _ (λ o t. tt)
        λ parts _.
          Leads-if (not (domain_allowed (host_of L parts) policy.search_provider_domains)) _ _
            (λ _. Leads-raise e λ o t. tt)
            λ _.
              Leads-lift_bind (L.parse_qs parts.query) _ (λ o t. tt)
                λ query _. first_target-Finds redirect_keys query e

  pub source_link-Finds : (value : String) → Finds (source_link L N value policy)
  unfolding source_link
  source_link-Finds value =
      rescue-Finds _ (unwrap_link L N value policy) (guard_url-Finds value)
        (unwrap_link-Finds value)
