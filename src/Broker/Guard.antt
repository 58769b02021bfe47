-- ===== src/Broker/Guard.antt =====
-- research_broker.py, lines 162 to 196 and 304 to 350: what the broker checks before it sends a
-- request, the request itself and the body that it reads.
use fireviewer_ai_worker.Common.{
  ℕ, ◌+◌, String, Bool, true, false, not, ◌&&◌, Option, none, some, List, [], ◌∷◌, ◌++◌, str_eq,
  ltb, leb, length, if◌then◌else◌,
}
use fireviewer_ai_worker.Common.Calls.{Call, pure, raise, lift, ask, check, change, ◌>>=◌, ◌>>◌}
use fireviewer_ai_worker.Common.Dict.{lookup}
use fireviewer_ai_worker.Common.Exec.{Exception, broker_policy_error, Result, ok, err}
use fireviewer_ai_worker.Common.Sort.{sort_texts, sort_by, insert_by, to_set}
use fireviewer_ai_worker.Common.Strings.{is_blank, before}
use fireviewer_ai_worker.Broker.{
  Bytes, BrokerPolicy, TextLibrary, Response, NetEvent, resolved, requested, Outside, Network,
  domain_allowed, host_of,
}
use fireviewer_ai_worker.Broker.Policy.{is_plain_https}

abbrev pub Net : Type 0 → Type 0
Net A = Call Outside A

abbrev pub forbid : {A : Type 0} → String → Net A
forbid message = raise (broker_policy_error message)

abbrev pub log : NetEvent → Net (Unit {0})
log e = change (λ o. record o { events = e ∷ o.events })

-- the loop over the addresses, in their order
unfoldable pub check_global : Network → List String → Result (Unit {0})
check_global N [] = ok tt
check_global N (value ∷ rest) =
    let later = check_global N rest in
    elim (N.is_global value) [
      | ok true ↦ later
      | ok false ↦ err (broker_policy_error "broker_private_address_forbidden")
      | err e ↦ err e
    ]

module _ (L : TextLibrary) (N : Network) where
  -- what follows a lookup that has answered
  unfoldable pub check_addresses : String → List String → Net (Unit {0})
  unfolding check_global to_set sort_by insert_by
  check_addresses host [] = forbid "broker_dns_resolution_empty"
  check_addresses host (address ∷ more) =
      log (resolved host (address ∷ more))
      >> lift (check_global N (sort_texts (to_set (address ∷ more))))

  unfoldable pub check_lookup : String → Option (List String) → Net (Unit {0})
  unfolding check_addresses
  check_lookup host none = forbid "broker_dns_resolution_failed"
  check_lookup host (some addresses) = check_addresses host addresses

  -- ResearchBroker._public_addresses, whose value no caller uses
  unfoldable pub public_addresses : String → Net (Unit {0})
  unfolding check_lookup
  public_addresses host = ask (λ o. N.resolve o host) >>= check_lookup host

  -- ResearchBroker._guard_url
  unfoldable pub guard_url : String → List String → Net String
  unfolding is_plain_https domain_allowed public_addresses
  guard_url value allowed_domains = lift (L.urlsplit value) >>= λ parts.
      lift (is_plain_https L parts (not (is_blank (host_of L parts)))) >>= λ plain.
      if not plain
      then forbid "broker_https_url_required"
      else if not (domain_allowed (host_of L parts) allowed_domains)
      then forbid "broker_domain_forbidden"
      else (public_addresses (host_of L parts) >> pure value)

  abbrev pub is_redirect : Response → Bool
  is_redirect response = leb 300 response.status_code && ltb response.status_code 400

  -- client.stream(method, url) up to the body: redirects and errors of the server are refused
  unfoldable pub open_stream : String → String → Net Response
  open_stream method url =
      log (requested method url) >> ask (λ o. N.respond o method url) >>= λ response.
      if is_redirect response
      then forbid "broker_redirect_forbidden"
      else (check (N.raise_for_status response) >> pure response)

-- the loop over the chunks, `size` bytes having been read
unfoldable pub read_chunks : ℕ → ℕ → List Bytes → Option Exception → Result Bytes
read_chunks limit size [] none = ok []
read_chunks limit size [] (some e) = err e
read_chunks limit size (chunk ∷ chunks) broken =
    let rest = read_chunks limit (size + length chunk) chunks broken in
    if ltb limit (size + length chunk)
    then err (broker_policy_error "broker_response_too_large")
    else elim rest [ ok content ↦ ok (chunk ++ content) | err e ↦ err e ]

-- ResearchBroker._request
unfoldable pub request :
    TextLibrary → Network → String → String → BrokerPolicy → List String → Net (Response × Bytes)
unfolding guard_url open_stream read_chunks
request L N method url policy allowed_domains = guard_url L N url allowed_domains >>= λ guarded.
    open_stream L N method guarded >>= λ response.
    if str_eq method "HEAD"
    then pure (response, [])
    else (lift (read_chunks policy.max_fetch_bytes 0 response.chunks response.broken) >>= λ content.
        pure (response, content))

-- the dict of `_response_metadata`, without the time of retrieval
pub record Metadata : Type 0 where
  pub status_code : ℕ
  pub content_type : String
  pub content_length : Option String
  pub last_modified : Option String
  pub etag : Option String
  pub url : String

abbrev pub content_type_of : Response → String
content_type_of response =
    before b';' (elim (lookup "content-type" response.headers) [ none ↦ "" | some value ↦ value ])

-- ResearchBroker._response_metadata
unfoldable pub response_metadata : Response → Metadata
unfolding lookup before
response_metadata response = record {
  status_code = response.status_code;
  content_type = content_type_of response;
  content_length = lookup "content-length" response.headers;
  last_modified = lookup "last-modified" response.headers;
  etag = lookup "etag" response.headers;
  url = response.url;
}
