-- ===== src/Broker/Fetch.antt =====
-- research_broker.py, lines 352 to 429 and 517 to 542: search, inspect, and the fetch of a page.
use fireviewer_ai_worker.Common.{
  ℕ, zero, suc, ◌+◌, String, Bool, not, ◌&&◌, ◌||◌, Option, none, some, List, [], ◌∷◌, ◌++◌,
  contains, str_eq, starts_with, ltb, leb, ◌==◌, length, if◌then◌else◌,
}
use fireviewer_ai_worker.Common.Calls.{pure, raise, lift, catch, ◌>>=◌}
use fireviewer_ai_worker.Common.Dict.{Dict, lookup}
use fireviewer_ai_worker.Common.Exec.{
  Exception, broker_policy_error, value_error, type_error, Result, ok, err,
}
use fireviewer_ai_worker.Common.Int.{ℤ, pos, negsuc, between}
use fireviewer_ai_worker.Common.Sort.{to_set}
use fireviewer_ai_worker.Common.Strings.{is_blank, text_take, count_text, replace_from}
use fireviewer_ai_worker.Broker.{
  Bytes, BrokerPolicy, TextLibrary, Values, Network, domain_allowed, normal_host, host_of,
}
use fireviewer_ai_worker.Broker.Policy.{get_text, get_dict}
use fireviewer_ai_worker.Broker.Guard.{Net, forbid, guard_url, request, Metadata, response_metadata}
use fireviewer_ai_worker.Broker.Links.{Link, new_link_parser, feed}

-- xs[:n] and xs[n:]
module _ {A : Type 0} where
  unfoldable pub take : ℕ → List A → List A
  take zero xs = []
  take (suc n) [] = []
  take (suc n) (x ∷ xs) = x ∷ take n xs

  unfoldable pub drop : ℕ → List A → List A
  drop zero xs = xs
  drop (suc n) [] = []
  drop (suc n) (x ∷ xs) = drop n xs

pub record SearchPage : Type 0 where
  pub query : String
  pub domain : String
  pub links : List Link
  -- str(offset), by its number
  pub cursor : Option ℕ
  pub next_cursor : Option ℕ

-- links[offset : offset + limit] with the cursors
unfoldable pub page_of : String → String → ℕ → ℕ → List Link → SearchPage
unfolding take drop
page_of query domain offset limit all_links =
    let links = take limit (drop offset all_links) in
    record {
      query = query;
      domain = domain;
      links = links;
      cursor = if offset == 0 then none else some offset;
      next_cursor =
          if ltb (offset + length links) (length all_links)
          then some (offset + length links)
          else none;
    }

-- a handler that lets all but a BrokerPolicyError pass
abbrev pub policy_only : {A : Type 0} → (Exception → Net A) → Exception → Net A
policy_only g (broker_policy_error message) = g (broker_policy_error message)
policy_only g e = raise e

-- try: m, except BrokerPolicyError as e: g e
abbrev pub rescue : {A : Type 0} → Net A → (Exception → Net A) → Net A
rescue m g = catch m (policy_only g)

-- the keys of a redirecting link, in their order
abbrev pub redirect_keys : List String
redirect_keys = "uddg" ∷ "url" ∷ "u" ∷ []

module _ (L : TextLibrary) (N : Network) where
  -- the first of the values of a key, or else the keys that are left
  abbrev pub try_target : List String → Net String → Option (List String) → Net String
  try_target allowed keys none = keys
  try_target allowed keys (some []) = keys
  try_target allowed keys (some (candidate ∷ more)) =
      rescue (guard_url L N (L.unquote candidate) allowed) λ e. keys

  -- the loop over the keys of a redirecting link
  unfoldable pub first_target :
      List String → Dict (List String) → List String → Exception → Net String
  unfolding lookup guard_url
  first_target [] query allowed direct_error = raise direct_error
  first_target (key ∷ keys) query allowed direct_error =
      try_target allowed (first_target keys query allowed direct_error) (lookup key query)

  -- the link of a provider that redirects to a source
  unfoldable pub unwrap_link : String → BrokerPolicy → Exception → Net String
  unfolding first_target domain_allowed
  unwrap_link value policy direct_error = lift (L.urlsplit value) >>= λ parts.
      if not (domain_allowed (host_of L parts) policy.search_provider_domains)
      then raise direct_error
      else (lift (L.parse_qs parts.query) >>= λ query.
          first_target redirect_keys query policy.allowed_domains direct_error)

  -- ResearchBroker._source_link
  unfoldable pub source_link : String → BrokerPolicy → Net String
  unfolding guard_url unwrap_link
  source_link value policy =
      rescue (guard_url L N value policy.allowed_domains) (unwrap_link value policy)

  -- the link, or none where it is skipped
  abbrev pub link_or_none : String → BrokerPolicy → Net (Option String)
  link_or_none value policy =
      rescue (source_link value policy >>= λ guarded. pure (some guarded)) λ e. pure none

-- the links that are kept, and those that are seen, with one more
abbrev pub longer : Link → String → List Link → List String → List Link
longer link guarded kept seen =
    if contains guarded seen
    then kept
    else kept ++ (record { url = guarded; title = link.title } ∷ [])

-- whether the loop breaks behind a link
abbrev pub is_full : String → List Link → List String → Bool
is_full guarded kept seen = not (contains guarded seen) && leb 500 (length kept)

-- the body of the loop behind `_source_link`, with the rounds that are left
abbrev pub keep_link :
    Link
    → (List Link → List String → Net (List Link))
    → List Link
    → List String
    → Option String
    → Net (List Link)
keep_link link rounds kept seen none = rounds kept seen
keep_link link rounds kept seen (some guarded) =
    if is_full guarded (longer link guarded kept seen) seen
    then pure (longer link guarded kept seen)
    else rounds (longer link guarded kept seen) (guarded ∷ seen)

-- the loop over the links of a page, from the links that are kept so far
unfoldable pub collect_links :
    TextLibrary → Network → BrokerPolicy → List Link → List Link → List String → Net (List Link)
unfolding source_link contains
collect_links L N policy [] kept seen = pure kept
collect_links L N policy (link ∷ links) kept seen =
    link_or_none L N link.url policy >>= keep_link link (collect_links L N policy links) kept seen

module _ (L : TextLibrary) (N : Network) where
  -- search, behind the checks of its arguments
  unfoldable pub search_with : String → String → ℕ → ℕ → String → BrokerPolicy → Net SearchPage
  unfolding request feed collect_links page_of replace_from
  search_with query domain offset limit template policy =
      request L N "GET" (replace_from "{query}" (L.quote_plus query) 0 template) policy
        policy.search_provider_domains
      >>= λ (response, content).
          lift (feed L (L.html_events (L.decode content)) (new_link_parser response.url))
          >>= λ parser. collect_links L N policy parser.links [] [] >>= λ all_links.
              pure (page_of query domain offset limit all_links)

  -- search, behind the lookup of its template
  abbrev pub search_on : Option String → String → String → ℕ → ℕ → BrokerPolicy → Net SearchPage
  search_on none query domain offset limit policy = forbid "broker_search_request_invalid"
  search_on (some template) query domain offset limit policy =
      if is_blank query || count_text "{query}" template == 0
      then forbid "broker_search_request_invalid"
      else search_with query domain offset limit template policy

module _ {V : Type 0} (values : Values V) where
  -- arguments.get("cursor", 0) or 0, where 0 is the value of any that counts as false
  abbrev cursor_of : Dict V → Result ℤ
  cursor_of arguments = elim (lookup "cursor" arguments) [
    | none ↦ ok (pos 0)
    | some v ↦ if values.bool_of v then values.int_of v else ok (pos 0)
  ]

  abbrev limit_of : Dict V → Result ℤ
  limit_of arguments = elim (lookup "limit" arguments) [
    | none ↦ ok (pos 20)
    | some v ↦ values.int_of v
  ]

  -- except (TypeError, ValueError), which lets any other exception of a conversion pass
  abbrev pub conversion_error : Exception → Exception
  conversion_error (type_error message) = broker_policy_error "broker_search_pagination_invalid"
  conversion_error (value_error message) = broker_policy_error "broker_search_pagination_invalid"
  conversion_error e = e

  unfoldable pub pagination : Dict V → Result (ℕ × ℕ)
  unfolding lookup between
  pagination arguments = elim (cursor_of arguments) [
    | err e ↦ err (conversion_error e)
    | ok offset ↦ elim (limit_of arguments) [
      | err e ↦ err (conversion_error e)
      | ok limit ↦ elim offset [
        | negsuc n ↦ err (broker_policy_error "broker_search_pagination_invalid")
        | pos start ↦ elim limit [
          | negsuc n ↦ err (broker_policy_error "broker_search_pagination_invalid")
          | pos count ↦
              if between 1 50 (pos count)
              then ok (start, count)
              else err (broker_policy_error "broker_search_pagination_invalid")
        ]
      ]
    ]
  ]

module _ (L : TextLibrary) (N : Network) {V : Type 0} (values : Values V) where
  -- ResearchBroker.search
  unfoldable pub search_links : Dict V → BrokerPolicy → Net SearchPage
  unfolding pagination search_with lookup count_text
  search_links message policy = lift (get_dict values "arguments" message) >>= λ arguments.
      lift (pagination values arguments) >>= λ (offset, limit).
      (let domain = normal_host L (get_text values "domain" arguments) in
        search_on L N (lookup domain policy.search_templates)
          (L.strip (get_text values "query" arguments)) domain offset limit policy)

  -- ResearchBroker.inspect
  unfoldable pub inspect : Dict V → BrokerPolicy → Net Metadata
  unfolding request response_metadata
  inspect message policy = lift (get_dict values "arguments" message) >>= λ arguments.
      request L N "HEAD" (get_text values "url" arguments) policy policy.allowed_domains
      >>= λ (response, content). pure (response_metadata response)

-- the dict that a fetch returns
pub record FetchResult : Type 0 where
  pub metadata : Metadata
  pub sha256 : String
  pub size_bytes : ℕ
  pub text : Option String
  -- the links, the media links and the metadata of an HTML page
  pub page : Option (List Link × (List String × Dict String))

module _ (L : TextLibrary) where
  abbrev is_textual : String → Bool
  is_textual content_type =
      starts_with content_type "text/" || starts_with content_type "application/json"

  -- the result of a page that was read
  unfoldable pub describe : String → Metadata → Bytes → Result FetchResult
  unfolding feed take to_set
  describe url metadata content =
      let text = text_take 100000 (L.decode content) in
      let result : FetchResult = record {
        metadata = metadata;
        sha256 = L.sha256_hex content;
        size_bytes = length content;
        text = none;
        page = none;
      } in
      if not (is_textual metadata.content_type)
      then ok result
      else if not (str_eq metadata.content_type "text/html")
      then ok (record result { text = some text })
      else elim (feed L (L.html_events text) (new_link_parser url)) [
        | err e ↦ err e
        | ok parser ↦ ok (record result {
          text = some text;
          page =
              some (take 50 parser.links, (take 100 (to_set parser.media_links), parser.metadata));
        })
      ]

-- ResearchBroker._fetch_public_content
unfoldable pub fetch_public_content :
    TextLibrary → Network → String → BrokerPolicy → Net (FetchResult × Bytes)
unfolding request response_metadata describe
fetch_public_content L N url policy =
    request L N "GET" url policy policy.allowed_domains >>= λ (response, content).
    lift (describe L url (response_metadata response) content) >>= λ result. pure (result, content)
