-- ===== src/Broker/Upload.antt =====
-- research_broker.py, lines 431 to 515 and 703 to 724: the upload of a fetched object to the blob
-- store, which a session asks for with `store`.
use fireviewer_ai_worker.Common.{
  ℕ, String, Bool, not, ◌||◌, Option, none, some, [], contains, str_eq, str_append, starts_with,
  ltb, length, if◌then◌else◌,
}
use fireviewer_ai_worker.Common.Calls.{
  pure, raise, lift, ask, check, raise_when, catch, ◌>>=◌, ◌>>◌,
}
use fireviewer_ai_worker.Common.Dict.{Dict, lookup, insert, remove}
use fireviewer_ai_worker.Common.Exec.{ok}
use fireviewer_ai_worker.Common.Strings.{is_blank, text_length}
use fireviewer_ai_worker.Broker.{
  Bytes, BrokerPolicy, TextLibrary, Values, posted, uploaded, Network, host_of,
}
use fireviewer_ai_worker.Broker.Policy.{is_plain_https, get_text, get_dict, get_bool}
use fireviewer_ai_worker.Broker.Guard.{Net, forbid, log, public_addresses, is_redirect}
use fireviewer_ai_worker.Broker.Fetch.{FetchResult, fetch_public_content}
use fireviewer_ai_worker.Broker.Media.{policy_failure, put_file, unlink, append_file}

-- the five fields that a policy with uploads has
pub record UploadTerms : Type 0 where
  pub prefix : String
  pub grant : String
  pub endpoint : String
  pub resource : String
  pub maximum : ℕ

unfoldable pub upload_terms : BrokerPolicy → Option UploadTerms
upload_terms policy = elim policy.pathname_prefix [
  | none ↦ none
  | some prefix ↦ elim policy.upload_grant [
    | none ↦ none
    | some grant ↦ elim policy.token_endpoint [
      | none ↦ none
      | some endpoint ↦ elim policy.resource_id [
        | none ↦ none
        | some resource ↦ elim policy.maximum_file_size_bytes [
          | none ↦ none
          | some maximum ↦ some (record {
            prefix = prefix;
            grant = grant;
            endpoint = endpoint;
            resource = resource;
            maximum = maximum;
          })
        ]
      ]
    ]
  ]
]

-- the fields that an upload adds to the result of a fetch
pub record Stored : Type 0 where
  pub blob_pathname : String
  pub media_sha256 : String
  pub size_bytes : ℕ
  pub content_type : String

abbrev pub is_bad_store : String → String → Bool
is_bad_store candidate_id suffix =
    is_blank candidate_id || is_blank suffix || ltb 10 (text_length suffix)

module _ (L : TextLibrary) (N : Network) where
  -- a token that is a text, and not empty
  abbrev pub token_of : Option String → Net String
  token_of none = forbid "broker_upload_token_invalid"
  token_of (some token) =
      if is_blank token then forbid "broker_upload_token_invalid" else pure token

  -- the client token of the endpoint, which is guarded as a URL of any public host
  unfoldable pub client_token : String → Net String
  unfolding is_plain_https public_addresses
  client_token endpoint = lift (L.urlsplit endpoint) >>= λ parts.
      lift (is_plain_https L parts (not (is_blank (host_of L parts)))) >>= λ plain.
      raise_when (not plain) (policy_failure "broker_upload_token_url_invalid")
      >> public_addresses L N (host_of L parts)
      >> log (posted endpoint)
      >> ask (λ o. N.answer_grant o endpoint)
      >>= λ response.
          raise_when (is_redirect L N response)
            (policy_failure "broker_upload_token_redirect_forbidden")
          >> check (N.raise_for_status response)
          >> lift (N.client_token response)
          >>= token_of

  -- upload_file
  abbrev pub send_blob : String → String → Bytes → Net String
  send_blob pathname content_type content =
      log (uploaded pathname content_type content) >> ask (λ o. N.upload_file o pathname content)

  -- the temporary file, which is removed whether the upload returns or raises
  unfoldable pub upload_through : String → String → String → Bytes → Net String
  unfolding insert remove
  upload_through temporary pathname content_type content =
      put_file temporary []
      >> append_file N temporary [] content
      >> catch (send_blob pathname content_type content) (λ e. unlink temporary >> raise e)
      >>= λ result. unlink temporary >> pure result

  -- _upload, for a policy with uploads
  unfoldable pub upload_with : UploadTerms → Bytes → String → String → BrokerPolicy → Net Stored
  unfolding contains client_token upload_through
  upload_with terms content content_type pathname policy =
      raise_when (not (contains content_type policy.allowed_content_types))
        (policy_failure "broker_upload_content_type_forbidden")
      >> raise_when (ltb terms.maximum (length content)) (policy_failure "broker_upload_too_large")
      >> raise_when (not (starts_with pathname (str_append terms.prefix "/")))
          (policy_failure "broker_upload_path_forbidden")
      >> client_token terms.endpoint
      >>= λ token.
          ask (λ o. ok (
            N.temporary_name o
              (elim (L.guess_extension content_type) [ none ↦ ".bin" | some suffix ↦ suffix ])))
          >>= λ temporary. upload_through temporary pathname content_type content >>= λ result.
              raise_when (not (str_eq result pathname))
                (policy_failure "broker_upload_path_mismatch")
              >> pure (record {
                blob_pathname = result;
                media_sha256 = L.sha256_hex content;
                size_bytes = length content;
                content_type = content_type;
              })

  abbrev pub upload_on : Option UploadTerms → Bytes → String → String → BrokerPolicy → Net Stored
  upload_on none content content_type pathname policy = forbid "broker_upload_disabled"
  upload_on (some terms) content content_type pathname policy =
      upload_with terms content content_type pathname policy

  -- ResearchBroker._upload
  unfoldable pub upload : Bytes → String → String → BrokerPolicy → Net Stored
  unfolding upload_terms upload_with
  upload content content_type pathname policy =
      upload_on (upload_terms policy) content content_type pathname policy

  -- the pathname that a fetch with `store` uploads to
  unfoldable pub store_path : String → String → String → Net String
  store_path prefix candidate_id url = lift (L.urlsplit url) >>= λ parts.
      (let suffix = L.casefold (L.suffix parts.path) in
        if is_bad_store candidate_id suffix
        then forbid "broker_store_request_invalid"
        else pure (str_append prefix (str_append "/" (str_append candidate_id suffix))))

-- the part of a fetch that stores what was fetched
abbrev pub store_fetched :
    TextLibrary
    → Network
    → Option String
    → String
    → String
    → BrokerPolicy
    → FetchResult
    → Bytes
    → Net (FetchResult × Option Stored)
store_fetched L N none candidate_id url policy result content = forbid "broker_upload_disabled"
store_fetched L N (some prefix) candidate_id url policy result content =
    store_path L N prefix candidate_id url >>= λ pathname.
    upload L N content result.metadata.content_type pathname policy >>= λ stored.
    pure (result, some stored)

-- ResearchBroker.fetch
unfoldable pub fetch :
    TextLibrary
    → Network
    → {V : Type 0} → Values V
    → Dict V
    → BrokerPolicy
    → Net (FetchResult × Option Stored)
unfolding lookup fetch_public_content store_path upload
fetch L N values message policy = lift (get_dict values "arguments" message) >>= λ arguments.
    fetch_public_content L N (get_text values "url" arguments) policy >>= λ (result, content).
    if not (get_bool values "store" arguments)
    then pure (result, none)
    else store_fetched L N policy.pathname_prefix (get_text values "candidate_id" arguments)
        (get_text values "url" arguments) policy result content
