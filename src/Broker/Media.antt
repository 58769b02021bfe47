-- ===== src/Broker/Media.antt =====
-- research_broker.py, lines 544 to 701: media that is hashed as a stream, kept in memory where it is
-- small, or written to a file of the caller.
use fireviewer_ai_worker.Common.{
  ℕ, ◌+◌, String, Bool, false, not, ◌&&◌, ◌||◌, Option, none, some, List, [], ◌∷◌, ◌++◌, str_eq,
  starts_with, ltb, leb, ◌==◌, length, is_some, if◌then◌else◌,
}
use fireviewer_ai_worker.Common.Calls.{
  pure, raise, lift, ask, raise_when, change, catch, ◌>>=◌, ◌>>◌,
}
use fireviewer_ai_worker.Common.Dict.{Dict, lookup, insert, remove}
use fireviewer_ai_worker.Common.Exec.{Exception, broker_policy_error, other_error, Result, ok, err}
use fireviewer_ai_worker.Common.Strings.{text_length}
use fireviewer_ai_worker.Broker.{Bytes, BrokerPolicy, TextLibrary, Values, Response, Network}
use fireviewer_ai_worker.Broker.Policy.{get_text, get_dict, get_bool}
use fireviewer_ai_worker.Broker.Guard.{
  Net, forbid, guard_url, open_stream, Metadata, response_metadata, content_type_of,
}

abbrev pub policy_failure : String → Exception
policy_failure message = broker_policy_error message

-- What a loop over the chunks holds: `content` is what the digest was fed with, and `buffered` is
-- what is retained.
pub record Stream : Type 0 where
  pub size : ℕ
  pub content : Bytes
  pub buffered : Option Bytes

-- the chunk is retained while the stream fits into the memory
abbrev pub retain_chunk : ℕ → ℕ → Bytes → Option Bytes → Option Bytes
retain_chunk maximum size chunk none = none
retain_chunk maximum size chunk (some kept) =
    if leb size maximum then some (kept ++ chunk) else none

-- the loop of fetch_transient_media
unfoldable pub read_media : ℕ → ℕ → Stream → List Bytes → Option Exception → Result Stream
read_media limit maximum s [] none = ok s
read_media limit maximum s [] (some e) = err e
read_media limit maximum s (chunk ∷ chunks) broken =
    let size = s.size + length chunk in
    let rest =
      read_media limit maximum
        (record {
          size = size;
          content = s.content ++ chunk;
          buffered = retain_chunk maximum size chunk s.buffered;
        })
        chunks broken in
    if ltb limit size then err (broker_policy_error "broker_response_too_large") else rest

-- the dict that names a streamed object
pub record MediaResult : Type 0 where
  pub metadata : Metadata
  pub sha256 : String
  pub size_bytes : ℕ
  pub binary_stored : Bool

-- the declared length as a number, where it is one
abbrev pub declared_length : TextLibrary → Response → Option ℕ
declared_length L response = elim (lookup "content-length" response.headers) [
  | none ↦ none
  | some text ↦ L.decimal text
]

abbrev pub exceeds : ℕ → Option ℕ → Bool
exceeds limit none = false
exceeds limit (some n) = ltb limit n

abbrev pub differs : ℕ → Option ℕ → Bool
differs size none = false
differs size (some n) = not (n == size)

abbrev pub media_result : TextLibrary → Metadata → Stream → MediaResult × Option Bytes
media_result L metadata s = (
  record {
    metadata = metadata;
    sha256 = L.sha256_hex s.content;
    size_bytes = s.size;
    binary_stored = false;
  },
  s.buffered,
)

-- the body of a media response, with what it returns
unfoldable pub stream_media :
    TextLibrary → BrokerPolicy → ℕ → Response → Result (MediaResult × Option Bytes)
unfolding read_media response_metadata lookup
stream_media L policy maximum response =
    let metadata = response_metadata response in
    let retained = starts_with metadata.content_type "image/" && ltb 0 maximum in
    let start : Stream = record {
      size = 0;
      content = [];
      buffered = if retained then some [] else none;
    } in
    if exceeds policy.max_media_fetch_bytes (declared_length L response)
    then err (broker_policy_error "broker_response_too_large")
    else elim (read_media policy.max_media_fetch_bytes maximum start response.chunks
        response.broken) [ err e ↦ err e | ok s ↦ ok (media_result L metadata s) ]

module _ (L : TextLibrary) (N : Network) {V : Type 0} (values : Values V) where
  -- ResearchBroker.fetch_transient_media
  unfoldable pub fetch_transient_media :
      Dict V → BrokerPolicy → ℕ → Net (MediaResult × Option Bytes)
  unfolding lookup guard_url open_stream stream_media
  fetch_transient_media message policy maximum =
      lift (get_dict values "arguments" message) >>= λ arguments.
      raise_when (get_bool values "store" arguments)
        (policy_failure "broker_transient_store_forbidden")
      >> raise_when (not (leb maximum 16777216))
          (policy_failure "broker_transient_memory_limit_invalid")
      >> guard_url L N (get_text values "url" arguments) policy.allowed_domains
      >>= λ url.
          open_stream L N "GET" url >>= λ response. lift (stream_media L policy maximum response)

  -- ResearchBroker.fetch_transient_bytes, with the default of 8 MiB
  unfoldable pub fetch_transient_bytes : Dict V → BrokerPolicy → Net (MediaResult × Bytes)
  unfolding lookup fetch_transient_media
  fetch_transient_bytes message policy = lift (get_dict values "arguments" message) >>= λ arguments.
      raise_when (get_bool values "store" arguments)
        (policy_failure "broker_transient_store_forbidden")
      >> fetch_transient_media message policy 8388608
      >>= λ (result, content). elim content [
        | none ↦ forbid "broker_transient_memory_limit_exceeded"
        | some bytes ↦ pure (result, bytes)
      ]

abbrev pub put_file : String → Bytes → Net (Unit {0})
put_file path content = change (λ o. record o { files = insert path content o.files })

-- path.unlink(missing_ok=True)
abbrev pub unlink : String → Net (Unit {0})
unlink path = change (λ o. record o { files = remove path o.files })

-- path.open("xb")
abbrev pub create_file : String → Net (Unit {0})
create_file path o = elim (lookup path o.files) [
  | none ↦ (ok tt, record o { files = insert path [] o.files })
  | some content ↦ (err (other_error "FileExistsError"), o)
]

-- stream.write(chunk), to a file that holds `written`
abbrev pub append_file : Network → String → Bytes → Bytes → Net (Unit {0})
append_file N path written chunk o = elim (N.write_fails o) [
  | none ↦ (ok tt, record o { files = insert path (written ++ chunk) o.files })
  | some e ↦ (err e, o)
]

-- the loop of materialize_transient_file; the digest was fed with what was written
unfoldable pub write_chunks :
    Network → String → ℕ → ℕ → ℕ → Bytes → List Bytes → Option Exception → Net (ℕ × Bytes)
unfolding insert
write_chunks N path limit expected size written [] none = pure (size, written)
write_chunks N path limit expected size written [] (some e) = raise e
write_chunks N path limit expected size written (chunk ∷ chunks) broken =
    raise_when (ltb limit (size + length chunk) || ltb expected (size + length chunk))
      (policy_failure "broker_response_too_large")
    >> append_file N path written chunk
    >> write_chunks N path limit expected (size + length chunk) (written ++ chunk) chunks broken

-- what the caller of materialize_transient_file says of the object
pub record Expectation : Type 0 where
  pub destination : String
  pub expected_sha256 : String
  pub expected_size_bytes : ℕ
  pub expected_content_type : String

-- the dict that materialize_transient_file returns, without the time of retrieval
pub record Materialized : Type 0 where
  pub url : String
  pub content_type : String
  pub size_bytes : ℕ
  pub sha256 : String
  pub binary_stored : Bool

module _ (L : TextLibrary) (N : Network) where
  -- the body of its `try`
  unfoldable pub download : String → BrokerPolicy → Expectation → Net (ℕ × Bytes)
  unfolding open_stream lookup insert write_chunks
  download url policy x = open_stream L N "GET" url >>= λ response.
      raise_when (not (str_eq (content_type_of response) x.expected_content_type))
        (policy_failure "broker_transient_content_type_mismatch")
      >> raise_when (differs x.expected_size_bytes (declared_length L response))
          (policy_failure "broker_transient_size_mismatch")
      >> create_file x.destination
      >> write_chunks N x.destination policy.max_media_fetch_bytes x.expected_size_bytes 0 []
          response.chunks response.broken

  -- what follows the `try`
  unfoldable pub verify : String → Expectation → ℕ → Bytes → Net Materialized
  unfolding remove
  verify url x size content =
      if not (size == x.expected_size_bytes)
      then (unlink x.destination >> forbid "broker_transient_size_mismatch")
      else if not (str_eq (L.sha256_hex content) x.expected_sha256)
      then (unlink x.destination >> forbid "broker_transient_digest_mismatch")
      else pure (record {
        url = url;
        content_type = x.expected_content_type;
        size_bytes = size;
        sha256 = x.expected_sha256;
        binary_stored = false;
      })

  -- the download, with the file removed where it raises, and its verification
  unfoldable pub materialize : String → BrokerPolicy → Expectation → Net Materialized
  unfolding download remove verify
  materialize url policy x =
      catch (download url policy x) (λ e. unlink x.destination >> raise e) >>= λ (size, content).
      verify url x size content

-- ResearchBroker.materialize_transient_file
unfoldable pub materialize_transient_file :
    TextLibrary
    → Network
    → {V : Type 0} → Values V
    → Dict V
    → BrokerPolicy
    → Expectation
    → Net Materialized
unfolding lookup guard_url materialize
materialize_transient_file L N values message policy x =
    lift (get_dict values "arguments" message) >>= λ arguments.
    raise_when (get_bool values "store" arguments)
      (policy_failure "broker_transient_store_forbidden")
    >> raise_when
        (not (ltb 0 x.expected_size_bytes)
          || ltb policy.max_media_fetch_bytes x.expected_size_bytes
          || not (text_length x.expected_sha256 == 64))
        (policy_failure "broker_transient_expectation_invalid")
    >> guard_url L N (get_text values "url" arguments) policy.allowed_domains
    >>= λ url.
        ask (λ o.
          ok (is_some (lookup x.destination o.files) || not (N.parent_is_dir o x.destination)))
        >>= λ unusable.
            raise_when unusable (policy_failure "broker_transient_destination_invalid")
            >> materialize L N url policy x
