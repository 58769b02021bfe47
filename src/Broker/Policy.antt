-- ===== src/Broker/Policy.antt =====
-- research_broker.py, lines 198 to 276: `_policy`, which reads a policy and checks its limits.
use fireviewer_ai_worker.Common.{
  ℕ, String, Bool, true, false, not, ◌&&◌, ◌||◌, Option, none, some, List, [], ◌∷◌, map, any, all,
  keep, is_empty, nonempty, is_some, str_eq, ◌==◌, if◌then◌else◌,
}
use fireviewer_ai_worker.Common.Dict.{Dict, lookup, insert, keys}
use fireviewer_ai_worker.Common.Exec.{broker_policy_error, Result, ok, err, ◌>>=◌, ◌>>◌, raise_if}
use fireviewer_ai_worker.Common.Int.{ℤ, pos, negsuc, between}
use fireviewer_ai_worker.Common.Sort.{intersection}
use fireviewer_ai_worker.Common.Strings.{is_blank, count_text}
use fireviewer_ai_worker.Broker.{BrokerPolicy, UrlParts, TextLibrary, Values, normal_host, host_of}

abbrev pub policy_error : {A : Type 0} → String → Result A
policy_error message = err (broker_policy_error message)

-- parts.port in {None, 443}
abbrev pub standard_port : Option ℕ → Bool
standard_port none = true
standard_port (some p) = p == 443

module _ {V : Type 0} (values : Values V) where
  -- str(d.get(k, "")), int(d.get(k, n)), and d.get(k, []) and dict(d.get(k, {}))
  abbrev pub get_text : String → Dict V → String
  get_text k d = elim (lookup k d) [ none ↦ "" | some v ↦ values.str_of v ]

  abbrev pub get_int : String → ℤ → Dict V → Result ℤ
  get_int k default d = elim (lookup k d) [ none ↦ ok default | some v ↦ values.int_of v ]

  abbrev pub get_items : String → Dict V → Result (List V)
  get_items k d = elim (lookup k d) [ none ↦ ok [] | some v ↦ values.items_of v ]

  abbrev pub get_dict : String → Dict V → Result (Dict V)
  get_dict k d = elim (lookup k d) [ none ↦ ok [] | some v ↦ values.dict_of v ]

  -- bool(d.get(k, False))
  abbrev pub get_bool : String → Dict V → Bool
  get_bool k d = elim (lookup k d) [ none ↦ false | some v ↦ values.bool_of v ]

-- what holds of every URL that the broker takes, but for its host: https, without credentials or a
-- fragment, on the standard port, whose range is checked last
unfoldable pub is_plain_https : TextLibrary → UrlParts → Bool → Result Bool
is_plain_https L parts host_fits =
    if not (
      str_eq (L.casefold parts.scheme) "https"
      && host_fits
      && not (is_some parts.username)
      && not (is_some parts.password)
      && is_blank parts.fragment)
    then ok false
    else (parts.port >>= λ port. ok (standard_port port))

-- a number within bounds, or the error
abbrev pub limit : ℕ → ℕ → String → ℤ → Result ℕ
limit lo hi message (pos n) = if between lo hi (pos n) then ok n else policy_error message
limit lo hi message (negsuc n) = policy_error message

abbrev pub upload_keys : List String
upload_keys =
    "pathname_prefix" ∷ "upload_grant" ∷ "token_endpoint" ∷ "resource_id"
    ∷ "maximum_file_size_bytes" ∷ "allowed_content_types" ∷ []

abbrev pub supplied : {V : Type 0} → Dict V → String → Bool
supplied d k = is_some (lookup k d)

module _ (L : TextLibrary) {V : Type 0} (values : Values V) where
  -- the set of `allowed_domains`
  unfoldable pub normal_domains : List V → List String
  unfolding keep
  normal_domains [] = []
  normal_domains (v ∷ vs) =
      let rest = normal_domains vs in
      if is_blank (L.strip (values.str_of v))
      then rest
      else normal_host L (L.strip (values.str_of v)) ∷ rest

  -- the dict of `search_templates`
  unfoldable pub normal_templates : Dict V → Dict String → Dict String
  normal_templates [] made = made
  normal_templates ((domain, template) ∷ d) made =
      normal_templates d (insert (normal_host L (L.strip domain)) (values.str_of template) made)

  -- the loop over the templates
  unfoldable pub check_templates : Dict String → Result (Unit {0})
  unfolding is_plain_https
  check_templates [] = ok tt
  check_templates ((provider, template) ∷ d) =
      let rest = check_templates d in
      (L.urlsplit template >>= λ parts.
      is_plain_https L parts (str_eq (host_of L parts) provider) >>= λ plain.
      if plain && count_text "{query}" template == 1
      then rest
      else policy_error "broker_search_template_invalid")

  -- value[key] for a key of a supplied upload
  abbrev pub text_at : String → Dict V → Option String
  text_at k d = elim (lookup k d) [ none ↦ none | some v ↦ some (values.str_of v) ]

  -- the fields of a supplied upload
  unfoldable pub upload_of : Dict V → BrokerPolicy → Result BrokerPolicy
  upload_of d policy = do
    requested ← get_int values "maximum_file_size_bytes" (pos 0) d
    maximum ← limit 1048576 1073741824 "broker_policy_upload_limit_invalid" requested
    types ← get_items values "allowed_content_types" d
    ok (record policy {
      maximum_file_size_bytes = some maximum;
      pathname_prefix = text_at "pathname_prefix" d;
      upload_grant = text_at "upload_grant" d;
      token_endpoint = text_at "token_endpoint" d;
      resource_id = text_at "resource_id" d;
      allowed_content_types = map values.str_of types;
    })

  -- the policy with the fields of an upload, where they are supplied
  unfoldable pub with_upload : Dict V → BrokerPolicy → Result BrokerPolicy
  unfolding any all upload_of
  with_upload d policy =
      if any (supplied d) upload_keys && not (all (supplied d) upload_keys)
      then policy_error "broker_policy_upload_incomplete"
      else if any (supplied d) upload_keys
      then upload_of d policy
      else ok policy

  -- ResearchBroker._policy
  unfoldable pub policy_of : Dict V → Result BrokerPolicy
  unfolding normal_domains normal_templates check_templates with_upload keys
  policy_of d = do
    domains ← get_items values "allowed_domains" d
    given ← get_dict values "search_templates" d
    let allowed = normal_domains domains
    let templates = normal_templates given []
    raise_if
        (is_empty allowed
          || is_empty (keys templates)
          || nonempty (intersection (keys templates) allowed))
        (broker_policy_error "broker_policy_domains_invalid")
    check_templates templates
    fetch ← get_int values "max_fetch_bytes" (pos 0) d
    media ← get_int values "max_media_fetch_bytes" fetch d
    timeout ← get_int values "timeout_seconds" (pos 0) d
    max_fetch ← limit 65536 536870912 "broker_policy_fetch_limit_invalid" fetch
    max_media ← limit max_fetch 536870912 "broker_policy_media_fetch_limit_invalid" media
    seconds ← limit 2 120 "broker_policy_timeout_invalid" timeout
    with_upload d (record {
      allowed_domains = allowed;
      search_provider_domains = keys templates;
      search_templates = templates;
      max_fetch_bytes = max_fetch;
      max_media_fetch_bytes = max_media;
      timeout_seconds = seconds;
      pathname_prefix = none;
      upload_grant = none;
      token_endpoint = none;
      resource_id = none;
      maximum_file_size_bytes = none;
      allowed_content_types = [];
    })
