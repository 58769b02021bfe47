-- ===== src/Broker/Laws/Contained.antt =====
-- Every action of a session stays within the traffic of its policy, whatever the network answers.
use fireviewer_ai_worker.Common.{
  ℕ, ◌≡◌, refl, String, not, Option, none, some, List, [], ◌∷◌, ◌++◌, arith, contains, str_eq,
  str_append, starts_with, length, ltb,
}
use fireviewer_ai_worker.Common.Calls.{
  pure, ◌>>=◌, Leads-pure, Leads-if, Leads-bind, Leads-catch, Keeps, Keeps-lift, Keeps-raise,
  Keeps-ask, Leads-lift_bind, Leads-guard, Leads-check, Ends,
}
use fireviewer_ai_worker.Common.Dict.{Dict, lookup, insert}
use fireviewer_ai_worker.Common.Exec.{Exception, broker_policy_error, ok, err}
use fireviewer_ai_worker.Common.Strings.{is_blank}
use fireviewer_ai_worker.Broker.{
  Bytes, BrokerPolicy, TextLibrary, NetEvent, posted, uploaded, Network, domain_allowed, host_of,
}
use fireviewer_ai_worker.Broker.Policy.{is_plain_https}
use fireviewer_ai_worker.Broker.Guard.{Net, log, guard_url, request, is_redirect}
use fireviewer_ai_worker.Broker.Links.{Link}
use fireviewer_ai_worker.Broker.Fetch.{
  redirect_keys, policy_only, rescue, try_target, first_target, unwrap_link, source_link,
  link_or_none, collect_links, search_with, FetchResult, keep_link, longer, is_full,
}
use fireviewer_ai_worker.Broker.Media.{put_file, unlink, append_file}
use fireviewer_ai_worker.Broker.Upload.{
  UploadTerms, upload_terms, client_token, token_of, send_blob, upload_through, upload_with,
  upload_on, upload, store_path, store_fetched, is_bad_store,
}
use fireviewer_ai_worker.Broker.Laws.Traffic.{
  is_plain_https-IsHttps, public_addresses-Leads, guard_url-Keeps, request-Keeps, InTraffic,
}
use fireviewer_ai_worker.Broker.Laws.Allowed.{IsAdmitted, posts, stores}

module _ (L : TextLibrary) (N : Network) (policy : BrokerPolicy) (start : List NetEvent) where
  abbrev pub Stays : {A : Type 0} → Net A → Type 0
  Stays m = Keeps (InTraffic L N policy start) m

  policy_only-Stays :
      {A : Type 0} (f : Exception → Net A)
      → ((e : Exception) → Stays (f e))
      → (e : Exception) → Stays (policy_only f e)
  policy_only-Stays f hf (broker_policy_error m) = hf (broker_policy_error m)
  policy_only-Stays f hf _ = Keeps-raise _

  rescue-Stays :
      {A : Type 0} (m : Net A) (f : Exception → Net A)
      → Stays m
      → ((e : Exception) → Stays (f e))
      → Stays (rescue m f)
  rescue-Stays m f hm hf = Leads-catch m _ hm (policy_only-Stays f hf)

  try_target-Stays :
      (allowed : List String) (keys : Net String) (found : Option (List String))
      → Stays keys
      → Stays (try_target L N allowed keys found)
  try_target-Stays allowed keys none h = h
  try_target-Stays allowed keys (some []) h = h
  try_target-Stays allowed keys (some (candidate ∷ more)) h =
      rescue-Stays (guard_url L N (L.unquote candidate) allowed) (λ _. keys)
        (guard_url-Keeps L N policy start (L.unquote candidate) allowed) λ _. h

  first_target-Stays :
      (keys : List String) (query : Dict (List String)) (allowed : List String) (e : Exception)
      → Stays (first_target L N keys query allowed e)
  unfolding first_target
  first_target-Stays [] query allowed e = Keeps-raise e
  first_target-Stays (key ∷ keys) query allowed e =
      try_target-Stays allowed _ (lookup key query) (first_target-Stays keys query allowed e)

  unwrap_link-Stays : (value : String) (e : Exception) → Stays (unwrap_link L N value policy e)
  unfolding unwrap_link
  unwrap_link-Stays value e =
      Leads-lift_bind (L.urlsplit value) _ (λ o t. t)
        λ parts _.
          Leads-if (not (domain_allowed (host_of L parts) policy.search_provider_domains)) _ _
            (λ _. Keeps-raise e)
            λ _.
              Leads-lift_bind (L.parse_qs parts.query) _ (λ o t. t)
                λ query _. first_target-Stays redirect_keys query policy.allowed_domains e

  source_link-Stays : (value : String) → Stays (source_link L N value policy)
  unfolding source_link
  source_link-Stays value =
      rescue-Stays (guard_url L N value policy.allowed_domains) (unwrap_link L N value policy)
        (guard_url-Keeps L N policy start value policy.allowed_domains) (unwrap_link-Stays value)

  link_or_none-Stays : (value : String) → Stays (link_or_none L N value policy)
  link_or_none-Stays value =
      rescue-Stays (source_link L N value policy >>= λ guarded. pure (some guarded))
        (λ e. pure none) (Leads-bind _ _ (source_link-Stays value) λ guarded. Leads-pure _ λ o t. t)
        λ e. Leads-pure none λ o t. t

  keep_link-Stays :
      (link : Link) (rounds : List Link → List String → Net (List Link)) (kept : List Link)
      (seen : List String)
      → ((more : List Link) (others : List String) → Stays (rounds more others))
      → (answer : Option String) → Stays (keep_link link rounds kept seen answer)
  keep_link-Stays link rounds kept seen later none = later kept seen
  keep_link-Stays link rounds kept seen later (some guarded) =
      Leads-if (is_full guarded (longer link guarded kept seen) seen) _ _
        (λ _. Leads-pure _ λ o t. t) λ _. later _ _

  collect_links-Stays :
      (links kept : List Link) (seen : List String)
      → Stays (collect_links L N policy links kept seen)
  unfolding collect_links
  collect_links-Stays [] kept seen = Leads-pure kept λ o t. t
  collect_links-Stays (link ∷ links) kept seen =
      Leads-bind (link_or_none L N link.url policy) _ (link_or_none-Stays link.url) (
        keep_link-Stays link (collect_links L N policy links) kept seen (collect_links-Stays links))

  pub direct-Stays :
      (method url : String) → Stays (request L N method url policy policy.allowed_domains)
  direct-Stays method url =
      request-Keeps L N policy start method url policy.allowed_domains λ host h. ground arith

  provider-Stays :
      (method url : String) → Stays (request L N method url policy policy.search_provider_domains)
  provider-Stays method url =
      request-Keeps L N policy start method url policy.search_provider_domains
        λ host h. ground arith

  pub search_with-Stays :
      (query domain : String) (offset limit : ℕ) (template : String)
      → Stays (search_with L N query domain offset limit template policy)
  unfolding search_with
  search_with-Stays query domain offset limit template =
      Leads-bind _ _ (provider-Stays "GET" _) λ (response, content).
        Leads-lift_bind _ _ (λ o t. t)
          λ parser _.
            Leads-bind _ _ (collect_links-Stays parser.links [] [])
              λ all_links. Leads-pure _ λ o t. t

  -- the client token is asked for at the endpoint of the policy
  client_token-Stays :
      (endpoint : String)
      → policy.token_endpoint ≡ some endpoint
      → Stays (client_token L N endpoint)
  unfolding client_token
  client_token-Stays endpoint named =
      Leads-lift_bind (L.urlsplit endpoint) _ (λ o t. t)
        λ parts split.
          Leads-lift_bind (is_plain_https L parts (not (is_blank (host_of L parts)))) _ (λ o t. t)
            λ plain fits.
              Leads-guard (not plain) _ _ (λ o t. t)
                λ is_plain.
                  Leads-bind _ _ (public_addresses-Leads L N policy start (host_of L parts)) λ _.
                    Leads-bind (log (posted endpoint)) _
                      (record {
                        at = λ o g. rw g.newest (
                            posts endpoint g.before g.global
                              (is_plain_https-IsHttps L N policy start endpoint parts
                                (not (is_blank (host_of L parts))) split (ground arith))
                              named);
                      })
                      λ _. Leads-bind _ _ (Keeps-ask _) λ response.
                        Leads-guard (is_redirect L N response) _ _ (λ o t. t)
                          λ _.
                            Leads-check (N.raise_for_status response) _ (λ o t. t)
                              (Leads-bind _ _ (Keeps-lift _) token_of-Stays)
    where
      token_of-Stays : (token : Option String) → Stays (token_of L N token)
      token_of-Stays none = Keeps-raise _
      token_of-Stays (some token) =
          Leads-if (is_blank token) _ _ (λ _. Keeps-raise _) λ _. Leads-pure token λ o t. t

  append_file-Stays :
      (path : String) (written chunk : Bytes) → Stays (append_file N path written chunk)
  append_file-Stays path written chunk = record {
    at = λ o t.
        elim (N.write_fails o)
          as (λ f.
            Ends {A = Unit {0}} (InTraffic L N policy start) (λ _. InTraffic L N policy start)
              (elim f [
                | none ↦ (ok tt, record o { files = insert path (written ++ chunk) o.files })
                | some e ↦ (err e, o)
              ])) [ none ↦ t | some e ↦ t ];
  }

  upload_through-Stays :
      (temporary path kind : String) (content : Bytes)
      → IsAdmitted policy path kind content
      → Stays (upload_through L N temporary path kind content)
  unfolding upload_through
  upload_through-Stays temporary path kind content admitted =
      Leads-bind (put_file temporary []) _ (record { at = λ o t. t })
        λ _. Leads-bind _ _ (append_file-Stays temporary [] content) λ _.
          Leads-bind _ _
            (Leads-catch (send_blob L N path kind content) _
              (Leads-bind (log (uploaded path kind content)) _
                (record { at = λ o t. stores path kind content t admitted }) λ _. Keeps-ask _)
              λ e. Leads-bind (unlink temporary) _ (record { at = λ o t. t }) λ _. Keeps-raise e)
            λ result.
              Leads-bind (unlink temporary) _ (record { at = λ o t. t })
                λ _. Leads-pure result λ o t. t

  -- the terms are the fields of the policy
  upload_terms-fields :
      (terms : UploadTerms)
      → upload_terms policy ≡ some terms
      → (policy.pathname_prefix ≡ some terms.prefix)
        × (policy.token_endpoint ≡ some terms.endpoint)
        × (policy.maximum_file_size_bytes ≡ some terms.maximum)
  unfolding upload_terms
  upload_terms-fields terms h = ground arith

  upload_with-Stays :
      (terms : UploadTerms) (content : Bytes) (kind path : String)
      → upload_terms policy ≡ some terms
      → Stays (upload_with L N terms content kind path policy)
  unfolding upload_with
  upload_with-Stays terms content kind path given =
      let (prefixed, endpoint, limited) = upload_terms-fields terms given in
      Leads-guard (not (contains kind policy.allowed_content_types)) _ _ (λ o t. t)
        λ typed.
          Leads-guard (ltb terms.maximum (length content)) _ _ (λ o t. t)
            λ fits.
              Leads-guard (not (starts_with path (str_append terms.prefix "/"))) _ _ (λ o t. t)
                λ below. Leads-bind _ _ (client_token-Stays terms.endpoint endpoint) λ token.
                  Leads-bind _ _ (Keeps-ask _) λ temporary.
                    Leads-bind _ _
                      (upload_through-Stays temporary path kind content (record {
                        prefix = terms.prefix;
                        prefixed = prefixed;
                        below = ground arith;
                        maximum = terms.maximum;
                        limited = limited;
                        fits = ground arith;
                        typed = ground arith;
                      }))
                      λ result.
                        Leads-guard (not (str_eq result path)) _ _ (λ o t. t)
                          λ _. Leads-pure _ λ o t. t

  upload-Stays :
      (content : Bytes) (kind path : String) → Stays (upload L N content kind path policy)
  unfolding upload
  upload-Stays content kind path = on (upload_terms policy) refl
    where
      on :
          (terms : Option UploadTerms)
          → upload_terms policy ≡ terms
          → Stays (upload_on L N terms content kind path policy)
      on none given = Keeps-raise _
      on (some terms) given = upload_with-Stays terms content kind path given

  store_path-Stays :
      (prefix candidate_id url : String) → Stays (store_path L N prefix candidate_id url)
  unfolding store_path
  store_path-Stays prefix candidate_id url =
      Leads-lift_bind (L.urlsplit url) _ (λ o t. t)
        λ parts _.
          Leads-if (is_bad_store candidate_id (L.casefold (L.suffix parts.path))) _ _
            (λ _. Keeps-raise _) λ _. Leads-pure _ λ o t. t

  pub store_fetched-Stays :
      (prefix : Option String) (candidate_id url : String) (result : FetchResult) (content : Bytes)
      → Stays (store_fetched L N prefix candidate_id url policy result content)
  unfolding store_path
  store_fetched-Stays none candidate_id url result content = Keeps-raise _
  store_fetched-Stays (some prefix) candidate_id url result content =
      Leads-bind _ _ (store_path-Stays prefix candidate_id url) λ path.
        Leads-bind _ _ (upload-Stays content result.metadata.content_type path)
          λ stored. Leads-pure _ λ o t. t
