-- ===== src/Broker/Laws/Traffic.antt =====
-- What the guard and the request of a session do to the network, call by call.
use fireviewer_ai_worker.Common.{
  ℕ, ◌≡◌, refl, ◌⊎◌, inl, String, Bool, true, not, ◌||◌, Option, none, some, List, [], ◌∷◌, arith,
  str_eq,
}
use fireviewer_ai_worker.Common.Calls.{
  ◌>>=◌, Leads, Leads-pure, Leads-if, Leads-bind, Keeps, Keeps-lift, Keeps-raise, Keeps-ask,
  Leads-raise, Ends, Leads-lift_bind, Leads-check, Leads-after,
}
use fireviewer_ai_worker.Common.Exec.{Exception, Result, ok, err}
use fireviewer_ai_worker.Common.Exec
use fireviewer_ai_worker.Common.Strings.{is_blank}
use fireviewer_ai_worker.Broker.{
  BrokerPolicy, UrlParts, TextLibrary, NetEvent, resolved, requested, Outside, Network,
  domain_allowed, host_of,
}
use fireviewer_ai_worker.Broker.Policy.{is_plain_https, standard_port}
use fireviewer_ai_worker.Broker.Guard.{
  log, check_addresses, check_lookup, public_addresses, guard_url, open_stream, request,
  is_redirect,
}
use fireviewer_ai_worker.Broker.Laws.Allowed.{
  IsHttps, AreGlobal, Traffic, looks, asks, check_global-AreGlobal,
}

-- a host is looked up, and is found to be public
pub record IsLooked (L : TextLibrary) (N : Network) (policy : BrokerPolicy) (start : List NetEvent)
    (host : String) (o : Outside) : Type 0 where
  pub found : List String
  pub earlier : List NetEvent
  pub newest : o.events ≡ resolved host found ∷ earlier
  pub before : Traffic L N policy start earlier
  pub global : AreGlobal N found

standard_port-cases : (p : Option ℕ) → standard_port p ≡ true → (p ≡ none) ⊎ (p ≡ some 443)
standard_port-cases none h = inl refl
standard_port-cases (some n) h = ground arith

module _ (L : TextLibrary) (N : Network) (policy : BrokerPolicy) (start : List NetEvent) where
  abbrev pub InTraffic : Outside → Type 0
  InTraffic o = Traffic L N policy start o.events

  standard_ports :
      (port : Result (Option ℕ))
      → Exec.◌>>=◌ port (λ p. ok (standard_port p)) ≡ ok true
      → (port ≡ ok none) ⊎ (port ≡ ok (some 443))
  standard_ports (ok p) h = ground (arith, standard_port-cases p)
  standard_ports (err e) h = ground arith

  pub is_plain_https-IsHttps :
      (url : String) (parts : UrlParts) (fits : Bool)
      → L.urlsplit url ≡ ok parts
      → is_plain_https L parts fits ≡ ok true
      → IsHttps L url (host_of L parts)
  unfolding is_plain_https
  is_plain_https-IsHttps url parts fits split plain = record {
    parts = parts;
    split = split;
    named = refl;
    secure = ground arith;
    anonymous = ground arith;
    standard = ground (arith, standard_ports parts.port);
  }

  resolved-Ends :
      (host : String) (found : List String) (o : Outside) (r : Result (Unit {0}))
      → InTraffic o
      → (r ≡ ok tt → AreGlobal N found)
      → Ends InTraffic
          (λ _. IsLooked L N policy start host)
          (r, record o { events = resolved host found ∷ o.events })
  resolved-Ends host found o (ok tt) t global = record {
    found = found;
    earlier = o.events;
    newest = refl;
    before = t;
    global = global refl;
  }
  resolved-Ends host found o (err e) t global = looks host found t

  check_addresses-Leads :
      (host : String) (found : List String)
      → Leads InTraffic InTraffic
          (λ _. IsLooked L N policy start host)
          (check_addresses L N host found)
  unfolding check_addresses ◌>>=◌
  check_addresses-Leads host [] = Leads-raise _ (λ o t. t)
  check_addresses-Leads host (a ∷ found) = record {
    at = λ o t. resolved-Ends host (a ∷ found) o _ t (check_global-AreGlobal N (a ∷ found));
  }

  check_lookup-Leads :
      (host : String) (answer : Option (List String))
      → Leads InTraffic InTraffic
          (λ _. IsLooked L N policy start host)
          (check_lookup L N host answer)
  unfolding check_lookup
  check_lookup-Leads host none = Leads-raise _ (λ o t. t)
  check_lookup-Leads host (some found) = check_addresses-Leads host found

  pub public_addresses-Leads :
      (host : String)
      → Leads InTraffic InTraffic (λ _. IsLooked L N policy start host) (public_addresses L N host)
  unfolding public_addresses
  public_addresses-Leads host = Leads-bind _ _ (Keeps-ask _) (check_lookup-Leads host)

  -- the URL that a guard returns: its host is looked up and allowed
  pub record IsGuarded (allowed : List String) (url : String) (o : Outside) : Type 0 where
    pub host : String
    pub looked : IsLooked L N policy start host o
    pub secure : IsHttps L url host
    pub permitted : domain_allowed host allowed ≡ true

  pub guard_url-Leads :
      (url : String) (allowed : List String)
      → Leads InTraffic InTraffic (IsGuarded allowed) (guard_url L N url allowed)
  unfolding guard_url
  guard_url-Leads url allowed =
      Leads-lift_bind (L.urlsplit url) _ (λ o t. t)
        λ parts split.
          Leads-lift_bind (is_plain_https L parts _) _ (λ o t. t)
            λ plain fits.
              Leads-if (not plain) _ _ (λ _. Leads-raise _ (λ o t. t))
                λ is_plain.
                  Leads-if (not (domain_allowed (host_of L parts) allowed)) _ _
                    (λ _. Leads-raise _ (λ o t. t))
                    λ permitted. Leads-bind _ _ (public_addresses-Leads (host_of L parts)) λ _.
                      Leads-pure url λ o looked. record {
                        host = host_of L parts;
                        looked = looked;
                        secure =
                            is_plain_https-IsHttps url parts (not (is_blank (host_of L parts)))
                              split (ground arith);
                        permitted = ground arith;
                      }

  IsLooked-InTraffic :
      (host : String) (o : Outside) → IsLooked L N policy start host o → InTraffic o
  IsLooked-InTraffic host o looked = rw looked.newest (looks host looked.found looked.before)

  pub guard_url-Keeps :
      (url : String) (allowed : List String) → Keeps InTraffic (guard_url L N url allowed)
  guard_url-Keeps url allowed =
      Leads-after (guard_url-Leads url allowed) (λ o t. t)
        λ value o guarded. IsLooked-InTraffic guarded.host o guarded.looked

  -- a request follows its guard
  open_stream-Leads :
      (method url : String) (allowed : List String)
      → ((host : String)
          → domain_allowed host allowed ≡ true
          → (domain_allowed host policy.allowed_domains
              || domain_allowed host policy.search_provider_domains)
            ≡ true)
      → Leads (IsGuarded allowed url) InTraffic (λ _. InTraffic) (open_stream L N method url)
  unfolding open_stream
  open_stream-Leads method url allowed covered =
      Leads-bind (log (requested method url)) _
        (record {
          at = λ o g. rw g.looked.newest (
              asks method url g.looked.before g.looked.global g.secure
                (covered g.host g.permitted));
        })
        λ _. Leads-bind _ _ (Keeps-ask _) λ response.
          Leads-if (is_redirect L N response) _ _ (λ _. Keeps-raise _)
            λ _.
              Leads-check (N.raise_for_status response) _ (λ o t. t) (Leads-pure response λ o t. t)

  pub request-Keeps :
      (method url : String) (allowed : List String)
      → ((host : String)
          → domain_allowed host allowed ≡ true
          → (domain_allowed host policy.allowed_domains
              || domain_allowed host policy.search_provider_domains)
            ≡ true)
      → Keeps InTraffic (request L N method url policy allowed)
  unfolding request
  request-Keeps method url allowed covered = Leads-bind _ _ (guard_url-Leads url allowed) λ guarded.
      Leads-bind _ _ (open_stream-Leads method guarded allowed covered) λ response.
        Leads-if (str_eq method "HEAD") _ _ (λ _. Leads-pure _ λ o t. t)
          λ _. Leads-bind _ _ (Keeps-lift _) λ content. Leads-pure _ λ o t. t
