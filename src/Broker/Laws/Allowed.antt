-- ===== src/Broker/Laws/Allowed.antt =====
-- The traces of a session that stays within its policy, and when a lookup has found a public host.
use fireviewer_ai_worker.Common.{
  ℕ, ◌≤◌, ◌≡◌, refl, sym, ◌∙◌, ◌⊎◌, String, Bool, true, false, not, ◌&&◌, ◌||◌, none, some, List,
  [], ◌∷◌, arith, all, keep, contains, str_eq, str_append, starts_with, length, All, eq_iff,
}
use fireviewer_ai_worker.Common.Exec.{ok, err}
use fireviewer_ai_worker.Common.Sort.{to_set, sort_texts, sort_by, insert_by}
use fireviewer_ai_worker.Broker.{
  Bytes, BrokerPolicy, UrlParts, TextLibrary, NetEvent, resolved, requested, posted, uploaded,
  Network, domain_allowed, host_of,
}
use fireviewer_ai_worker.Broker.Guard.{check_global}

-- a URL of the host, on the standard port of https and without credentials
pub record IsHttps (L : TextLibrary) (url host : String) : Type 0 where
  pub parts : UrlParts
  pub split : L.urlsplit url ≡ ok parts
  pub named : host_of L parts ≡ host
  pub secure : str_eq (L.casefold parts.scheme) "https" ≡ true
  pub anonymous : (parts.username ≡ none) × (parts.password ≡ none)
  pub standard : (parts.port ≡ ok none) ⊎ (parts.port ≡ ok (some 443))

abbrev pub AreGlobal : Network → List String → Type 0
AreGlobal N = All (λ a. N.is_global a ≡ ok true)

-- an upload that the policy admits
pub record IsAdmitted (policy : BrokerPolicy) (path kind : String) (content : Bytes) : Type 0 where
  pub prefix : String
  pub prefixed : policy.pathname_prefix ≡ some prefix
  pub below : starts_with path (str_append prefix "/") ≡ true
  pub maximum : ℕ
  pub limited : policy.maximum_file_size_bytes ≡ some maximum
  pub fits : length content ≤ maximum
  pub typed : contains kind policy.allowed_content_types ≡ true

-- the traces that a session of the policy may make of the trace `start`: a request and a post follow
-- the lookup of their host, all of whose addresses are public
pub data Traffic (L : TextLibrary) (N : Network) (policy : BrokerPolicy) (start : List NetEvent)
    : List NetEvent → Type 0 where
  begins : Traffic L N policy start start
  looks :
      {es : List NetEvent} (host : String) (found : List String)
      → Traffic L N policy start es
      → Traffic L N policy start (resolved host found ∷ es)
  asks :
      {es : List NetEvent} {host : String} {found : List String} (method url : String)
      → Traffic L N policy start es
      → AreGlobal N found
      → IsHttps L url host
      → (domain_allowed host policy.allowed_domains
          || domain_allowed host policy.search_provider_domains)
        ≡ true
      → Traffic L N policy start (requested method url ∷ resolved host found ∷ es)
  posts :
      {es : List NetEvent} {host : String} {found : List String} (url : String)
      → Traffic L N policy start es
      → AreGlobal N found
      → IsHttps L url host
      → policy.token_endpoint ≡ some url
      → Traffic L N policy start (posted url ∷ resolved host found ∷ es)
  stores :
      {es : List NetEvent} (path kind : String) (content : Bytes)
      → Traffic L N policy start es
      → IsAdmitted policy path kind content
      → Traffic L N policy start (uploaded path kind content ∷ es)

-- the addresses, as a test
abbrev global_test : Network → String → Bool
global_test N a = elim (N.is_global a) [ ok true ↦ true | ok false ↦ false | err e ↦ false ]

module _ (N : Network) where
  check_global-all : (xs : List String) → check_global N xs ≡ ok tt → all (global_test N) xs ≡ true
  unfolding check_global all
  check_global-all [] h = refl
  check_global-all (x ∷ xs) h = ground (arith, check_global-all xs)

  all-AreGlobal : (xs : List String) → all (global_test N) xs ≡ true → AreGlobal N xs
  unfolding all
  all-AreGlobal [] h = tt
  all-AreGlobal (x ∷ xs) h = ground (arith, all-AreGlobal xs)

-- a test that holds of `x` and of what differs from it holds of all
all-without :
    (p : String → Bool) (x : String) (xs : List String)
    → p x ≡ true
    → all p (keep (λ y. not (contains y (x ∷ []))) xs) ≡ true
    → all p xs ≡ true
unfolding all keep contains
all-without p x [] hx h = refl
all-without p x (y ∷ ys) hx h = ground (arith, all-without p x ys hx, eq_iff y x)

all-to_set : (p : String → Bool) (xs : List String) → all p (to_set xs) ≡ true → all p xs ≡ true
unfolding all to_set
all-to_set p [] h = refl
all-to_set p (x ∷ xs) h = ground (arith, all-without p x (to_set xs), all-to_set p xs)

module _ (before : String → String → Bool) (p : String → Bool) where
  all-insert_by_eq :
      (x : String) (ys : List String) → all p (insert_by before x ys) ≡ (p x && all p ys)
  unfolding all insert_by
  all-insert_by_eq x [] = refl
  all-insert_by_eq x (y ∷ ys) = ground (arith, all-insert_by_eq x ys)

  all-sort_by_eq : (xs : List String) → all p (sort_by before xs) ≡ all p xs
  unfolding all sort_by
  all-sort_by_eq [] = refl
  all-sort_by_eq (x ∷ xs) =
      ground (arith, all-insert_by_eq x (sort_by before xs), all-sort_by_eq xs)

-- all that were found are public once the loop over the sorted set has passed
pub check_global-AreGlobal :
    (N : Network) (found : List String)
    → check_global N (sort_texts (to_set found)) ≡ ok tt
    → AreGlobal N found
check_global-AreGlobal N found h = all-AreGlobal N found (
    all-to_set (global_test N) found
      (sym (all-sort_by_eq _ (global_test N) (to_set found)) ∙ check_global-all N _ h))
