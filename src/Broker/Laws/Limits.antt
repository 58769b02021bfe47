-- ===== src/Broker/Laws/Limits.antt =====
-- The policies that the broker holds: what `_policy` lets pass, for every session of a run.
use mathlib.Core.Path.{subst}
use fireviewer_ai_worker.Common.{
  ℕ, ◌≤◌, ◌≡◌, refl, ◌⊎◌, inl, inr, String, Bool, true, false, not, ◌&&◌, ◌||◌, none, some, List,
  [], ◌∷◌, arith, All, any, all, str_eq, is_some, is_empty, nonempty, if◌then◌else◌,
}
use fireviewer_ai_worker.Common.Dict.{Dict, keys, insert, remove}
use fireviewer_ai_worker.Common.Exec.{Exception, broker_policy_error, Result, ok, err, raise_if}
use fireviewer_ai_worker.Common.Exec
use fireviewer_ai_worker.Common.Calls.{Ends}
use fireviewer_ai_worker.Common.Int.{ℤ, pos, negsuc, between}
use fireviewer_ai_worker.Common.Sort.{intersection}
use fireviewer_ai_worker.Session.Laws.{Holds, Anything, Holds-then, Holds-if, any-Holds}
use fireviewer_ai_worker.Broker.{BrokerPolicy, TextLibrary, Values, Outside, Network}
use fireviewer_ai_worker.Broker.Policy.{
  limit, policy_of, check_templates, with_upload, get_text, upload_of, upload_keys, supplied,
  get_items, get_dict, get_int, text_at, normal_domains, normal_templates,
}
use fireviewer_ai_worker.Broker.Server.{
  Broker, Reply, handle, settled, respond_to, serve_all, new_broker,
}
use fireviewer_ai_worker.Broker.Laws.Sessions.{Served, issues, closes, acts, handle-Serves}
use fireviewer_ai_worker.Broker.Laws.Changes.{asked_policy}

-- the fields of an upload are all there, with the limit in its bounds, or all missing
abbrev pub HasUpload : BrokerPolicy → Type 0
HasUpload p =
    ((p.maximum_file_size_bytes ≡ none)
      × (p.pathname_prefix ≡ none)
      × (p.upload_grant ≡ none)
      × (p.token_endpoint ≡ none)
      × (p.resource_id ≡ none))
    ⊎ ((n : ℕ) × (p.maximum_file_size_bytes ≡ some n)
        × (1048576 ≤ n)
        × (n ≤ 1073741824)
        × (is_some p.pathname_prefix ≡ true)
        × (is_some p.upload_grant ≡ true)
        × (is_some p.token_endpoint ≡ true)
        × (is_some p.resource_id ≡ true))

-- the limits of a policy, and that no domain is a source and a provider
pub record IsLimited (p : BrokerPolicy) : Type 0 where
  pub fetch : (65536 ≤ p.max_fetch_bytes) × (p.max_fetch_bytes ≤ p.max_media_fetch_bytes)
  pub media : p.max_media_fetch_bytes ≤ 536870912
  pub timeout : (2 ≤ p.timeout_seconds) × (p.timeout_seconds ≤ 120)
  pub sources : is_empty p.allowed_domains ≡ false
  pub providers : p.search_provider_domains ≡ keys p.search_templates
  pub provided : is_empty p.search_provider_domains ≡ false
  pub apart : is_empty (intersection p.search_provider_domains p.allowed_domains) ≡ true
  pub upload : HasUpload p

limit-Holds :
    (lo hi : ℕ) (message : String) (i : ℤ)
    → Holds Anything (λ n. (lo ≤ n) × (n ≤ hi)) (limit lo hi message i)
unfolding between
limit-Holds lo hi message (pos n) = kept (between lo hi (pos n)) refl
  where
    kept :
        (b : Bool)
        → between lo hi (pos n) ≡ b
        → Holds Anything
            (λ m. (lo ≤ m) × (m ≤ hi))
            (if b then ok n else err (broker_policy_error message))
    kept true h = ground arith
    kept false h = tt
limit-Holds lo hi message (negsuc n) = tt

raise_if-Holds : (b : Bool) (e : Exception) → Holds Anything (λ _. b ≡ false) (raise_if b e)
raise_if-Holds true e = tt
raise_if-Holds false e = refl

-- a call of which nothing is known, and a check of which nothing is wanted
any-then :
    {A : Type 0} (r : Result A) (f : A → Result BrokerPolicy)
    → ((a : A) → Holds Anything IsLimited (f a))
    → Holds Anything IsLimited (Exec.◌>>=◌ r f)
any-then r f h = Holds-then Anything (λ _. Unit {0}) IsLimited r f (any-Holds r) λ a _. h a

module _ (L : TextLibrary) {V : Type 0} (values : Values V) where
  supplied_texts :
      (d : Dict V)
      → all (supplied d) upload_keys ≡ true
      → (is_some (text_at L values "pathname_prefix" d) ≡ true)
        × (is_some (text_at L values "upload_grant" d) ≡ true)
        × (is_some (text_at L values "token_endpoint" d) ≡ true)
        × (is_some (text_at L values "resource_id" d) ≡ true)
  unfolding all
  supplied_texts d h = ground arith

  with_upload-Holds :
      (d : Dict V) (p : BrokerPolicy)
      → IsLimited p
      → Holds Anything IsLimited (with_upload L values d p)
  unfolding with_upload upload_of
  with_upload-Holds d p limited =
      Holds-if Anything IsLimited
        (any (supplied d) upload_keys && not (all (supplied d) upload_keys)) _ _ (λ _. tt)
        λ complete.
          Holds-if Anything IsLimited (any (supplied d) upload_keys) _ _
            (λ some_key.
              any-then (get_int values "maximum_file_size_bytes" (pos 0) d) _ λ requested.
                Holds-then Anything (λ n. (1048576 ≤ n) × (n ≤ 1073741824)) IsLimited
                  (limit 1048576 1073741824 "broker_policy_upload_limit_invalid" requested) _
                  (limit-Holds 1048576 1073741824 _ requested)
                  λ maximum (low, high).
                    any-then (get_items values "allowed_content_types" d) _ λ types. record {
                      fetch = limited.fetch;
                      media = limited.media;
                      timeout = limited.timeout;
                      sources = limited.sources;
                      providers = limited.providers;
                      provided = limited.provided;
                      apart = limited.apart;
                      upload =
                          (let (a, b, c, e) = supplied_texts d (ground arith) in
                            inr (maximum, refl, low, high, a, b, c, e));
                    })
            λ none_key. limited

  policy_of-Holds : (d : Dict V) → Holds Anything IsLimited (policy_of L values d)
  unfolding policy_of
  policy_of-Holds d = any-then (get_items values "allowed_domains" d) _ λ domains.
      any-then (get_dict values "search_templates" d) _ λ given.
        Holds-then Anything _ IsLimited
          (raise_if
            (is_empty (normal_domains L values domains)
              || is_empty (keys (normal_templates L values given []))
              || nonempty (
                  intersection (keys (normal_templates L values given []))
                    (normal_domains L values domains)))
            (broker_policy_error "broker_policy_domains_invalid"))
          _ (raise_if-Holds _ _)
          λ _ apart. any-then (check_templates L values (normal_templates L values given [])) _ λ _.
            any-then (get_int values "max_fetch_bytes" (pos 0) d) _ λ fetch.
              any-then (get_int values "max_media_fetch_bytes" fetch d) _ λ media.
                any-then (get_int values "timeout_seconds" (pos 0) d) _ λ timeout.
                  Holds-then Anything (λ n. (65536 ≤ n) × (n ≤ 536870912)) IsLimited
                    (limit 65536 536870912 _ fetch) _ (limit-Holds 65536 536870912 _ fetch)
                    λ max_fetch (low, high).
                      Holds-then Anything (λ n. (max_fetch ≤ n) × (n ≤ 536870912)) IsLimited
                        (limit max_fetch 536870912 _ media) _
                        (limit-Holds max_fetch 536870912 _ media)
                        λ max_media (above, below).
                          Holds-then Anything (λ n. (2 ≤ n) × (n ≤ 120)) IsLimited
                            (limit 2 120 _ timeout) _ (limit-Holds 2 120 _ timeout)
                            λ seconds (least, most). with_upload-Holds d _ (record {
                              fetch = (low, above);
                              media = below;
                              timeout = (least, most);
                              sources = ground arith;
                              providers = refl;
                              provided = ground arith;
                              apart = ground arith;
                              upload = inl (refl, refl, refl, refl, refl);
                            })

  -- every session has a policy within its limits
  abbrev pub AreLimited : Broker → Type 0
  AreLimited broker = All (λ (token, policy). IsLimited policy) broker.sessions

  insert-AreLimited :
      (token : String) (policy : BrokerPolicy) (d : Dict BrokerPolicy)
      → IsLimited policy
      → All (λ (_, p). IsLimited p) d
      → All (λ (_, p). IsLimited p) (insert token policy d)
  unfolding insert
  insert-AreLimited token policy [] h _ = (h, tt)
  insert-AreLimited token policy ((other, old) ∷ d) h (g, gs) =
      elim (str_eq other token)
        as (λ b.
          All (λ (_, p). IsLimited p)
            (if b then (other, policy) ∷ d else (other, old) ∷ insert token policy d)) [
              | true ↦ (h, gs)
              | false ↦ (g, insert-AreLimited token policy d h gs)
            ]

  remove-AreLimited :
      (token : String) (d : Dict BrokerPolicy)
      → All (λ (_, p). IsLimited p) d
      → All (λ (_, p). IsLimited p) (remove token d)
  unfolding remove
  remove-AreLimited token [] _ = tt
  remove-AreLimited token ((other, old) ∷ d) (g, gs) =
      elim (str_eq other token)
        as (λ b.
          All (λ (_, p). IsLimited p)
            (if b then remove token d else (other, old) ∷ remove token d)) [
              | true ↦ remove-AreLimited token d gs
              | false ↦ (g, remove-AreLimited token d gs)
            ]

  asked-IsLimited :
      (message : Dict V) (policy : BrokerPolicy)
      → asked_policy L values message ≡ ok policy
      → IsLimited policy
  asked-IsLimited message policy valid = given (get_dict values "policy" message) valid
    where
      given :
          (r : Result (Dict V))
          → (elim r [ ok d ↦ policy_of L values d | err e ↦ err e ]) ≡ ok policy
          → IsLimited policy
      given (ok d) e = subst (Holds Anything IsLimited) e (policy_of-Holds d)
      given (err x) e = ground arith

  Served-AreLimited :
      (message : Dict V) (broker later : Broker) (reply : Reply)
      → AreLimited broker
      → Served L values message broker later reply
      → AreLimited later
  Served-AreLimited message broker later reply h (issues token policy fits valid) =
      insert-AreLimited token policy broker.sessions (asked-IsLimited message policy valid) h
  Served-AreLimited message broker later reply h (closes fits) =
      remove-AreLimited (get_text values "session_token" message) broker.sessions h
  Served-AreLimited message broker later reply h (acts answer there of_act) = h

  module _ (N : Network) where
    settled-AreLimited :
        (message : Dict V) (broker : Broker) (out : Result (Broker × Reply) × Outside)
        → AreLimited broker
        → Ends (λ _. Unit {0}) (λ (later, reply) _. Served L values message broker later reply) out
        → AreLimited (settled L N values broker out).1.0
    settled-AreLimited message broker (ok (later, reply), o) h served =
        Served-AreLimited message broker later reply h served
    settled-AreLimited message broker (err e, o) h served = h

    all-AreLimited :
        (messages : List (Dict V)) (broker : Broker) (o : Outside)
        → AreLimited broker
        → AreLimited (serve_all L N values messages broker o).1.0
    unfolding serve_all respond_to
    all-AreLimited [] broker o h = h
    all-AreLimited (message ∷ messages) broker o h = all-AreLimited messages _ _ (
        settled-AreLimited message broker (handle L N values message broker o) h
          ((handle-Serves L values N message broker).at o tt))

    -- After any run of messages from no session, every session has a policy within its limits: the
    -- sizes and the timeout in their bounds, sources and providers not empty and without a common
    -- domain, and all fields of an upload or none.
    pub serve_all-AreLimited :
        (control : String) (messages : List (Dict V)) (o : Outside)
        → AreLimited (serve_all L N values messages (new_broker control) o).1.0
    serve_all-AreLimited control messages o = all-AreLimited messages (new_broker control) o tt
