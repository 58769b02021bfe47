-- ===== src/Report/Expected.antt =====
-- The outline that the report of v2_runner.py should have: the keys of its sections, with the facts of
-- each, none of them twice.
use fireviewer_ai_worker.Common.{
  String, ◌≡◌, refl, ap, Bool, true, ◌&&◌, List, [], ◌∷◌, ◌++◌, keep, map, all, contains,
  contains-keep, is_empty, is_unique, str_eq, if◌then◌else◌, arith,
}
use fireviewer_ai_worker.Common.Exec.{ok}
use fireviewer_ai_worker.Report.{FactProposal, ReportSection}
use fireviewer_ai_worker.Report.Draft.{draft_of, headings, section_for_category}
use fireviewer_ai_worker.Report.Validators.{validate_sections}
use fireviewer_ai_worker.Report.Laws.{facts_for}

abbrev pub ids_of : List FactProposal → List String
ids_of facts = map (λ fact. fact.fact_id) facts

-- the key and the facts of each section
abbrev pub Outline : Type 0
Outline = List (String × List String)

abbrev pub outline_of : List ReportSection → Outline
outline_of sections = map (λ section. (section.key, section.fact_ids)) sections

-- the sections of the table that have facts
unfoldable pub entries : List FactProposal → List (String × String) → Outline
unfolding facts_for
entries facts [] = []
entries facts ((key, heading) ∷ more) =
    let rest = entries facts more in
    if is_empty (facts_for key facts) then rest else (key, ids_of (facts_for key facts)) ∷ rest

unfoldable pub source_entry : List FactProposal → Outline
source_entry [] = []
source_entry (fact ∷ facts) = ("sources_and_freshness", ids_of (fact ∷ facts)) ∷ []

unfoldable pub or_limitations : Outline → Outline
or_limitations [] = ("limitations", []) ∷ []
or_limitations (entry ∷ more) = entry ∷ more

-- the outline that the report of the facts has
unfoldable pub expected_outline : List FactProposal → Outline
unfolding entries source_entry or_limitations
expected_outline facts = or_limitations (entries facts headings ++ source_entry facts)

unique-keep :
    (p : FactProposal → Bool) (facts : List FactProposal)
    → is_unique (ids_of facts) ≡ true
    → is_unique (ids_of (keep p facts)) ≡ true
unfolding keep is_unique
unique-keep p [] h = h
unique-keep p (fact ∷ facts) h =
    ground (arith, unique-keep p facts, contains-keep (λ f. f.fact_id) p fact.fact_id facts)

-- what validate_sections asks of an outline
abbrev key_of : String × List String → String
key_of entry = entry.0

abbrev has_unique_facts : String × List String → Bool
has_unique_facts entry = is_unique entry.1

pub keys-outline_of :
    (sections : List ReportSection)
    → map (λ section. section.key) sections ≡ map key_of (outline_of sections)
keys-outline_of [] = refl
keys-outline_of (section ∷ sections) = ap (◌∷◌ section.key) (keys-outline_of sections)

facts-outline_of :
    (sections : List ReportSection)
    → all (λ section. is_unique section.fact_ids) sections
      ≡ all has_unique_facts (outline_of sections)
unfolding all
facts-outline_of [] = refl
facts-outline_of (section ∷ sections) =
    ap (is_unique section.fact_ids &&◌) (facts-outline_of sections)

pub validate_sections-IsReturned :
    (local_date : String) (sections : List ReportSection)
    → is_unique (map key_of (outline_of sections)) ≡ true
    → all has_unique_facts (outline_of sections) ≡ true
    → validate_sections (draft_of local_date sections) ≡ ok (draft_of local_date sections)
unfolding validate_sections draft_of
validate_sections-IsReturned local_date sections h g =
    rw (keys-outline_of sections, facts-outline_of sections, h, g) refl

entries-HasUniqueFacts :
    (facts : List FactProposal) (table : List (String × String)) (last : Outline)
    → is_unique (ids_of facts) ≡ true
    → all has_unique_facts last ≡ true
    → all has_unique_facts (entries facts table ++ last) ≡ true
unfolding entries all facts_for
entries-HasUniqueFacts facts [] last h g = g
entries-HasUniqueFacts facts ((key, heading) ∷ more) last h g = ground (
  arith,
  entries-HasUniqueFacts facts more last h g,
  unique-keep (λ fact. str_eq (section_for_category fact.category) key) facts h,
)

-- the keys of four sections, each unless its facts are none, and of the sources
keys_unless : Bool → Bool → Bool → Bool → List String
keys_unless a b c d =
    let fourth =
      if d then "sources_and_freshness" ∷ [] else "impacts" ∷ "sources_and_freshness" ∷ [] in
    let third = if c then fourth else "resources" ∷ fourth in
    let second = if b then third else "observed_activity" ∷ third in
    if a then second else "situation" ∷ second

keys_unless-IsUnique : (a b c d : Bool) → is_unique (keys_unless a b c d) ≡ true
unfolding keys_unless is_unique contains
keys_unless-IsUnique a b c d = ground arith

-- the keys of the table that have facts, before some others
keys_before : List FactProposal → List (String × String) → List String → List String
keys_before facts [] last = last
keys_before facts ((key, heading) ∷ more) last =
    let rest = keys_before facts more last in
    if is_empty (facts_for key facts) then rest else key ∷ rest

keys-entries :
    (facts : List FactProposal) (table : List (String × String)) (last : Outline)
    → map key_of (entries facts table ++ last) ≡ keys_before facts table (map key_of last)
unfolding entries keys_before
keys-entries facts [] last = refl
keys-entries facts ((key, heading) ∷ more) last = ground (arith, keys-entries facts more last)

keys-or_limitations :
    (entries : Outline) (entry : String × List String)
    → or_limitations (entries ++ entry ∷ []) ≡ entries ++ entry ∷ []
unfolding or_limitations
keys-or_limitations [] entry = refl
keys-or_limitations (first ∷ entries) entry = refl

all-or_limitations :
    (entries : Outline)
    → all has_unique_facts entries ≡ true
    → all has_unique_facts (or_limitations entries) ≡ true
unfolding or_limitations all is_unique
all-or_limitations [] h = refl
all-or_limitations (entry ∷ entries) h = h

all-source_entry :
    (facts : List FactProposal)
    → is_unique (ids_of facts) ≡ true
    → all has_unique_facts (source_entry facts) ≡ true
unfolding source_entry all
all-source_entry [] h = refl
all-source_entry (fact ∷ facts) h = ground arith

pub expected_outline-HasUniqueKeys :
    (facts : List FactProposal) → is_unique (map key_of (expected_outline facts)) ≡ true
unfolding expected_outline or_limitations entries source_entry is_unique contains facts_for keep
    keys_unless keys_before
expected_outline-HasUniqueKeys [] = refl
expected_outline-HasUniqueKeys (fact ∷ facts) =
    let F = fact ∷ facts in
    rw
      (
        keys-or_limitations (entries F headings) ("sources_and_freshness", ids_of F),
        keys-entries F headings (source_entry F),
      )
      (keys_unless-IsUnique (is_empty (facts_for "situation" F))
        (is_empty (facts_for "observed_activity" F)) (is_empty (facts_for "resources" F))
        (is_empty (facts_for "impacts" F)))

pub expected_outline-HasUniqueFacts :
    (facts : List FactProposal)
    → is_unique (ids_of facts) ≡ true
    → all has_unique_facts (expected_outline facts) ≡ true
unfolding expected_outline
expected_outline-HasUniqueFacts facts h =
    all-or_limitations (entries facts headings ++ source_entry facts)
      (entries-HasUniqueFacts facts headings (source_entry facts) h (all-source_entry facts h))
