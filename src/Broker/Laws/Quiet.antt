-- ===== src/Broker/Laws/Quiet.antt =====
-- What the guards and the requests leave alone: the files.
use fireviewer_ai_worker.Common.{String, not, Option, none, some, List, [], ◌∷◌}
use fireviewer_ai_worker.Common.Calls.{
  Leads-pure, Leads-raise, Leads-if, Leads-bind, Leads-lift_bind, Leads-check, Keeps, Keeps-lift,
  Keeps-raise, Keeps-ask,
}
use fireviewer_ai_worker.Common.Dict.{Dict}
use fireviewer_ai_worker.Common.Strings.{is_blank}
use fireviewer_ai_worker.Broker.{
  Bytes, TextLibrary, requested, Outside, Network, domain_allowed, host_of,
}
use fireviewer_ai_worker.Broker.Policy.{is_plain_https}
use fireviewer_ai_worker.Broker.Guard.{
  log, check_addresses, check_lookup, public_addresses, guard_url, open_stream, is_redirect,
}

-- what the network does leaves the files alone
module _ (L : TextLibrary) (N : Network) (J : Dict Bytes → Type 0) where
  abbrev OnFiles : Outside → Type 0
  OnFiles o = J o.files

  check_lookup-Keeps :
      (host : String) (answer : Option (List String)) → Keeps OnFiles (check_lookup L N host answer)
  unfolding check_lookup check_addresses
  check_lookup-Keeps host none = Keeps-raise _
  check_lookup-Keeps host (some []) = Keeps-raise _
  check_lookup-Keeps host (some (a ∷ found)) =
      Leads-bind (log _) _ (record { at = λ o h. h }) λ _. Keeps-lift _

  pub guard_url-OnFiles :
      (url : String) (allowed : List String) → Keeps OnFiles (guard_url L N url allowed)
  unfolding guard_url public_addresses
  guard_url-OnFiles url allowed =
      Leads-lift_bind (L.urlsplit url) _ (λ o t. t)
        λ parts split.
          Leads-lift_bind (is_plain_https L parts (not (is_blank (host_of L parts)))) _ (λ o t. t)
            λ plain fits.
              Leads-if (not plain) _ _ (λ _. Leads-raise _ (λ o t. t))
                λ is_plain.
                  Leads-if (not (domain_allowed (host_of L parts) allowed)) _ _
                    (λ _. Leads-raise _ (λ o t. t))
                    λ permitted.
                      Leads-bind _ _
                        (Leads-bind _ _ (Keeps-ask _) (check_lookup-Keeps (host_of L parts)))
                        λ _. Leads-pure url λ o t. t

  pub open_stream-OnFiles : (method url : String) → Keeps OnFiles (open_stream L N method url)
  unfolding open_stream
  open_stream-OnFiles method url =
      Leads-bind (log (requested method url)) _ (record { at = λ o h. h })
        λ _. Leads-bind _ _ (Keeps-ask _) λ response.
          Leads-if (is_redirect L N response) _ _ (λ _. Keeps-raise _)
            λ _.
              Leads-check (N.raise_for_status response) _ (λ o t. t) (Leads-pure response λ o t. t)
