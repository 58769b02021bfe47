-- ===== src/Broker/Laws/Search.antt =====
-- The links that a search returns: each of them once, 500 at most, and 50 on a page.
use fireviewer_ai_worker.Common.{
  ℕ, suc, ◌≤◌, ◌≡◌, refl, String, Bool, true, false, ◌||◌, Option, none, some, List, [], ◌∷◌, ◌++◌,
  map, arith, all, contains, is_unique, str_eq, length, length-append, All, All-append,
  if◌then◌else◌, eq_iff, eq_refl, ◌==◌,
}
use fireviewer_ai_worker.Common.Calls.{
  pure, ◌>>=◌, Leads, Leads-pure, Leads-raise, Leads-if, Leads-bind, Leads-catch, Leads-lift_bind,
  any-Leads, Ends,
}
use fireviewer_ai_worker.Common.Dict.{Dict, lookup}
use fireviewer_ai_worker.Common.Exec.{Exception, broker_policy_error, ok}
use fireviewer_ai_worker.Common.Int.{between}
use fireviewer_ai_worker.Common.Strings.{is_blank, count_text}
use fireviewer_ai_worker.Broker.{BrokerPolicy, TextLibrary, Values, Outside, Network, normal_host}
use fireviewer_ai_worker.Broker.Policy.{get_text}
use fireviewer_ai_worker.Broker.Guard.{Net}
use fireviewer_ai_worker.Broker.Links.{Link}
use fireviewer_ai_worker.Broker.Fetch.{
  policy_only, source_link, link_or_none, longer, is_full, keep_link, collect_links, search_with,
  search_on, search_links, pagination, page_of, SearchPage,
}
use fireviewer_ai_worker.Broker.Laws.Sources.{IsSource, source_link-Finds}

module _ (L : TextLibrary) (N : Network) (policy : BrokerPolicy) where
  abbrev url_of : Link → String
  url_of link = link.url

  -- what the loop keeps: sources, none twice, and all of them among those that were seen
  pub record AreKept (bound : ℕ) (kept : List Link) (seen : List String) : Type 0 where
    pub sources : All (λ link. IsSource L policy link.url) kept
    pub distinct : is_unique (map url_of kept) ≡ true
    pub known : all (λ link. contains link.url seen) kept ≡ true
    pub bounded : length kept ≤ bound

  contains-map_append :
      (x : String) (kept : List Link) (link : Link)
      → contains x (map url_of (kept ++ (link ∷ [])))
        ≡ (contains x (map url_of kept) || str_eq x link.url)
  unfolding contains
  contains-map_append x [] link = ground arith
  contains-map_append x (other ∷ kept) link = ground (arith, contains-map_append x kept link)

  is_unique-map_append :
      (kept : List Link) (link : Link)
      → is_unique (map url_of kept) ≡ true
      → contains link.url (map url_of kept) ≡ false
      → is_unique (map url_of (kept ++ (link ∷ []))) ≡ true
  unfolding is_unique contains
  is_unique-map_append [] link h g = refl
  is_unique-map_append (other ∷ kept) link h g = ground (
    arith,
    is_unique-map_append kept link,
    contains-map_append other.url kept link,
    eq_iff other.url link.url,
    eq_iff link.url other.url,
  )

  -- what is kept has been seen
  known-contains :
      (x : String) (kept : List Link) (seen : List String)
      → all (λ link. contains link.url seen) kept ≡ true
      → contains x seen ≡ false
      → contains x (map url_of kept) ≡ false
  unfolding all contains
  known-contains x [] seen h g = refl
  known-contains x (other ∷ kept) seen h g =
      ground (arith, eq_iff x other.url, known-contains x kept seen)

  known-weaken :
      (x : String) (kept : List Link) (seen : List String)
      → all (λ link. contains link.url seen) kept ≡ true
      → all (λ link. contains link.url (x ∷ seen)) kept ≡ true
  unfolding all contains
  known-weaken x [] seen h = refl
  known-weaken x (other ∷ kept) seen h = ground (arith, known-weaken x kept seen)

  known-append :
      (x title : String) (kept : List Link) (seen : List String)
      → all (λ link. contains link.url seen) kept ≡ true
      → all
          (λ link. contains link.url (x ∷ seen))
          (kept ++ (record { url = x; title = title } ∷ []))
        ≡ true
  unfolding all contains
  known-append x title [] seen h = ground (arith, eq_refl x)
  known-append x title (other ∷ kept) seen h = ground (arith, known-append x title kept seen)

  -- one round keeps what is kept so
  longer-AreKept :
      (bound : ℕ) (link : Link) (guarded : String) (kept : List Link) (seen : List String)
      → IsSource L policy guarded
      → AreKept bound kept seen
      → AreKept (suc bound) (longer link guarded kept seen) (guarded ∷ seen)
  longer-AreKept bound link guarded kept seen source k = grown (contains guarded seen) refl
    where
      grown :
          (again : Bool)
          → contains guarded seen ≡ again
          → AreKept
              (suc bound)
              (if again then kept else kept ++ (record { url = guarded; title = link.title } ∷ []))
              (guarded ∷ seen)
      grown true old = record {
        sources = k.sources;
        distinct = k.distinct;
        known = known-weaken guarded kept seen k.known;
        bounded = omega (arith, k.bounded);
      }
      grown false new = record {
        sources = All-append _ kept _ (k.sources, (source, tt));
        distinct =
            is_unique-map_append kept (record { url = guarded; title = link.title }) k.distinct
              (known-contains guarded kept seen k.known new);
        known = known-append guarded link.title kept seen k.known;
        bounded = omega (
          arith,
          length-append kept (record { url = guarded; title = link.title } ∷ []),
          k.bounded,
        );
      }

  -- between two rounds fewer than 500 links are kept, and behind the loop 500 at most
  abbrev Collects : Net (List Link) → Type 0
  Collects m =
      Leads (λ _. Unit {0}) (λ _. Unit {0}) (λ kept _. (seen : List String) × AreKept 500 kept seen)
        m

  abbrev MaySource : Option String → Type 0
  MaySource none = Unit
  MaySource (some found) = IsSource L policy found

  keep_link-Collects :
      (link : Link) (rounds : List Link → List String → Net (List Link)) (kept : List Link)
      (seen : List String)
      → AreKept 499 kept seen
      → ((more : List Link) (others : List String)
          → AreKept 499 more others
          → Collects (rounds more others))
      → (answer : Option String) → MaySource answer
      → Collects (keep_link link rounds kept seen answer)
  keep_link-Collects link rounds kept seen k later none source = later kept seen k
  keep_link-Collects link rounds kept seen k later (some guarded) source =
      let more = longer-AreKept 499 link guarded kept seen source k in
      Leads-if (is_full guarded (longer link guarded kept seen) seen) _ _
        (λ _. Leads-pure _ λ o t. (guarded ∷ seen, more))
        λ free. later _ _ (record {
          sources = more.sources;
          distinct = more.distinct;
          known = more.known;
          bounded = ground (arith, k.bounded);
        })

  link_or_none-Leads :
      (value : String)
      → Leads
          (λ _. Unit {0})
          (λ _. Unit {0})
          (λ answer _. MaySource answer)
          (link_or_none L N value policy)
  link_or_none-Leads value =
      Leads-catch (source_link L N value policy >>= λ guarded. pure (some guarded)) _
        (Leads-bind _ _ (source_link-Finds L N policy value)
          λ guarded. Leads-pure (some guarded) λ o source. source)
        only
    where
      only :
          (e : Exception)
          → Leads
              (λ _. Unit {0})
              (λ _. Unit {0})
              (λ answer _. MaySource answer)
              (policy_only (λ _. pure none) e)
      only (broker_policy_error message) = Leads-pure none λ o t. tt
      only _ = Leads-raise _ λ o t. tt

  -- the answer is a fact that the state does not know
  answered-Collects :
      (m : Net (Option String)) (f : Option String → Net (List Link))
      → Leads (λ _. Unit {0}) (λ _. Unit {0}) (λ answer _. MaySource answer) m
      → ((answer : Option String) → MaySource answer → Collects (f answer))
      → Collects (m >>= f)
  answered-Collects m f hm hf =
      Leads-bind m f hm λ answer. record { at = λ o source. (hf answer source).at o tt }

  collect_links-Collects :
      (links kept : List Link) (seen : List String)
      → AreKept 499 kept seen
      → Collects (collect_links L N policy links kept seen)
  unfolding collect_links
  collect_links-Collects [] kept seen k = Leads-pure kept λ o t. (
    seen,
    record {
      sources = k.sources;
      distinct = k.distinct;
      known = k.known;
      bounded = omega (arith, k.bounded);
    },
  )
  collect_links-Collects (link ∷ links) kept seen k =
      answered-Collects (link_or_none L N link.url policy) _ (link_or_none-Leads link.url) (
        keep_link-Collects link (collect_links L N policy links) kept seen k
          (collect_links-Collects links))

  -- the page of a listing of at most 500 different sources, with at most 50 links
  pub record IsListing (page : SearchPage) : Type 0 where
    pub query : String
    pub domain : String
    pub offset : ℕ
    pub limit : ℕ
    pub all_links : List Link
    pub cut : page ≡ page_of query domain offset limit all_links
    pub counted : (1 ≤ limit) × (limit ≤ 50)
    pub sources : All (λ link. IsSource L policy link.url) all_links
    pub distinct : is_unique (map url_of all_links) ≡ true
    pub bounded : length all_links ≤ 500

  search_with-Leads :
      (query domain : String) (offset limit : ℕ) (template : String)
      → (1 ≤ limit) × (limit ≤ 50)
      → Leads
          (λ _. Unit {0})
          (λ _. Unit {0})
          (λ page _. IsListing page)
          (search_with L N query domain offset limit template policy)
  unfolding search_with is_unique all
  search_with-Leads query domain offset limit template counted =
      Leads-bind _ _ (any-Leads _) λ (response, content).
        Leads-lift_bind _ _ (λ o t. tt)
          λ parser _.
            Leads-bind _ _
              (collect_links-Collects parser.links [] []
                (record { sources = tt; distinct = refl; known = refl; bounded = omega arith }))
              λ all_links. Leads-pure _ λ o (seen, k). record {
                query = query;
                domain = domain;
                offset = offset;
                limit = limit;
                all_links = all_links;
                cut = refl;
                counted = counted;
                sources = k.sources;
                distinct = k.distinct;
                bounded = k.bounded;
              }

  search_on-Leads :
      (template : Option String) (query domain : String) (offset limit : ℕ)
      → (1 ≤ limit) × (limit ≤ 50)
      → Leads
          (λ _. Unit {0})
          (λ _. Unit {0})
          (λ page _. IsListing page)
          (search_on L N template query domain offset limit policy)
  search_on-Leads none query domain offset limit counted = Leads-raise _ λ o t. tt
  search_on-Leads (some template) query domain offset limit counted =
      Leads-if (is_blank query || count_text "{query}" template == 0) _ _
        (λ _. Leads-raise _ λ o t. tt)
        λ _. search_with-Leads query domain offset limit template counted

  module _ {V : Type 0} (values : Values V) where
    pagination-Leads :
        (arguments : Dict V) (offset limit : ℕ)
        → pagination values arguments ≡ ok (offset, limit)
        → (1 ≤ limit) × (limit ≤ 50)
    unfolding pagination between
    pagination-Leads arguments offset limit h = ground arith

    -- A search that returns gives a page, cut with a limit between 1 and 50, of a
    -- list of at most 500 links, whose URLs are all different, https, and of allowed domains.
    pub search_links-IsListing :
        (message : Dict V) (o : Outside)
        → Ends (λ _. Unit {0}) (λ page _. IsListing page) (search_links L N values message policy o)
    unfolding search_links
    search_links-IsListing message o = run.at o tt
      where
        run :
            Leads
              (λ _. Unit {0})
              (λ _. Unit {0})
              (λ page _. IsListing page)
              (search_links L N values message policy)
        run =
            Leads-lift_bind _ _ (λ o t. tt)
              λ arguments _.
                Leads-lift_bind _ _ (λ o t. tt)
                  λ (offset, limit) paged.
                    search_on-Leads
                      (lookup (normal_host L (get_text values "domain" arguments))
                        policy.search_templates)
                      (L.strip (get_text values "query" arguments))
                      (normal_host L (get_text values "domain" arguments)) offset limit
                      (pagination-Leads arguments offset limit paged)
