-- ===== src/Report/Laws.antt =====
-- The grouping of the facts, and the draft of a window without facts, of v2_runner.py.
use fireviewer_ai_worker.Common.{
  true, Bool, contains, all, leb, ◌&&◌, ℕ, ◌+◌, String, ◌≡◌, refl, sym, ap, ◌∙◌, false, List, [],
  ◌∷◌, ◌++◌, length, keep, is_empty, suc, is_unique, str_eq, eq_iff, if◌then◌else◌, arith,
}
use fireviewer_ai_worker.Common.Dict.{Dict, insert, lookup-insert}
use fireviewer_ai_worker.Common.Exec.{ok, err, ◌>>=◌}
use fireviewer_ai_worker.Report.{
  FactCategory, FactProposal, SourceProvenance, SourceItem, ItemFacts, ReportSection, fire_activity,
  burned_area, resources, evacuation, access, infrastructure, weather, other,
}
use fireviewer_ai_worker.Common.Sort.{sort_texts, to_set}
use fireviewer_ai_worker.Report.Draft.{
  title_of, or_unknown, uncertainty_codes, section_for_category, facts_at, group_facts,
  facts_by_section, all_facts, report, draft_of, limitation_codes, category_sections,
  with_limitations, source_by_input, headings,
}
use fireviewer_ai_worker.Report.Validators.{
  section_fits, new_section, new_draft, draft_fits, limit_error, has_length, validate_basis,
  validate_sections,
}

-- the facts of the section, in their order
unfoldable pub facts_for : String → List FactProposal → List FactProposal
unfolding keep section_for_category
facts_for key facts = keep (λ fact. str_eq (section_for_category fact.category) key) facts

append_assoc : (a b c : List FactProposal) → (a ++ b) ++ c ≡ a ++ (b ++ c)
append_assoc [] b c = refl
append_assoc (x ∷ a) b c = ap (◌∷◌ x) (append_assoc a b c)

append_nil : (a : List FactProposal) → a ++ [] ≡ a
append_nil [] = refl
append_nil (x ∷ a) = ap (◌∷◌ x) (append_nil a)

facts_at-insert :
    (key asked : String) (new : List FactProposal) (groups : Dict (List FactProposal))
    → facts_at asked (insert key new groups)
      ≡ (if str_eq key asked then new else facts_at asked groups)
unfolding facts_at
facts_at-insert key asked new groups = ground (arith, lookup-insert key asked new groups)

facts_for-append :
    (key : String) (a b : List FactProposal)
    → facts_for key (a ++ b) ≡ facts_for key a ++ facts_for key b
unfolding facts_for keep
facts_for-append key [] b = refl
facts_for-append key (fact ∷ a) b = ground (arith, facts_for-append key a b)

facts_at-appended :
    (section key : String) (fact : FactProposal) (groups : Dict (List FactProposal))
    (rest : List FactProposal)
    → facts_at key (insert section (facts_at section groups ++ fact ∷ []) groups) ++ rest
      ≡ facts_at key groups ++ (if str_eq section key then fact ∷ rest else rest)
facts_at-appended section key fact groups rest = ground (
  arith,
  eq_iff section key,
  facts_at-insert section key (facts_at section groups ++ fact ∷ []) groups,
  append_assoc (facts_at key groups) (fact ∷ []) rest,
)

facts_at-group_facts :
    (key : String) (facts : List FactProposal) (groups : Dict (List FactProposal))
    → facts_at key (group_facts facts groups) ≡ facts_at key groups ++ facts_for key facts
unfolding group_facts facts_for keep
facts_at-group_facts key [] groups = sym (append_nil (facts_at key groups))
facts_at-group_facts key (fact ∷ facts) groups =
    let section = section_for_category fact.category in
    facts_at-group_facts key facts (insert section (facts_at section groups ++ fact ∷ []) groups)
    ∙ facts_at-appended section key fact groups (facts_for key facts)

facts_at-facts_by_section :
    (key : String) (items : List ItemFacts) (groups : Dict (List FactProposal))
    → facts_at key (facts_by_section items groups)
      ≡ facts_at key groups ++ facts_for key (all_facts items)
unfolding facts_by_section all_facts facts_for
facts_at-facts_by_section key [] groups = sym (append_nil (facts_at key groups))
facts_at-facts_by_section key (result ∷ items) groups =
    let facts = result.fact_proposals in
    facts_at-facts_by_section key items (group_facts facts groups)
    ∙ ap (◌++ facts_for key (all_facts items)) (facts_at-group_facts key facts groups)
    ∙ append_assoc (facts_at key groups) (facts_for key facts) (facts_for key (all_facts items))
    ∙ ap (facts_at key groups ++◌) (sym (facts_for-append key facts (all_facts items)))

-- the facts of the four sections
unfoldable pub count_in : String → Dict (List FactProposal) → ℕ
count_in key groups = length (facts_at key groups)

length-placed :
    (category : FactCategory) (fact : FactProposal) (a b c d : List FactProposal)
    → length (if str_eq (section_for_category category) "situation" then fact ∷ a else a)
        + length
            (if str_eq (section_for_category category) "observed_activity" then fact ∷ b else b)
        + length (if str_eq (section_for_category category) "resources" then fact ∷ c else c)
        + length (if str_eq (section_for_category category) "impacts" then fact ∷ d else d)
      ≡ suc (length a + length b + length c + length d)
unfolding section_for_category
length-placed fire_activity fact a b c d = omega arith
length-placed burned_area fact a b c d = omega arith
length-placed resources fact a b c d = omega arith
length-placed evacuation fact a b c d = omega arith
length-placed access fact a b c d = omega arith
length-placed infrastructure fact a b c d = omega arith
length-placed weather fact a b c d = omega arith
length-placed other fact a b c d = omega arith

length-facts_for :
    (facts : List FactProposal)
    → length (facts_for "situation" facts)
        + length (facts_for "observed_activity" facts)
        + length (facts_for "resources" facts)
        + length (facts_for "impacts" facts)
      ≡ length facts
unfolding facts_for keep
length-facts_for [] = refl
length-facts_for (fact ∷ facts) =
    length-placed fact.category fact (facts_for "situation" facts)
      (facts_for "observed_activity" facts) (facts_for "resources" facts)
      (facts_for "impacts" facts)
    ∙ ap suc (length-facts_for facts)

-- The facts that the loop puts in a section are those of the items whose category is of that
-- section, in their order, and the four sections together hold as many facts as the items.
pub facts_by_section-IsPartition :
    (items : List ItemFacts)
    → ((key : String) → facts_at key (facts_by_section items []) ≡ facts_for key (all_facts items))
      × (count_in "situation" (facts_by_section items [])
            + count_in "observed_activity" (facts_by_section items [])
            + count_in "resources" (facts_by_section items [])
            + count_in "impacts" (facts_by_section items [])
          ≡ length (all_facts items))
unfolding count_in facts_for facts_at
facts_by_section-IsPartition items = (
  λ key. placed key,
  rw (placed "situation", placed "observed_activity", placed "resources", placed "impacts")
      (length-facts_for (all_facts items)),
)
  where
    placed :
        (key : String) → facts_at key (facts_by_section items []) ≡ facts_for key (all_facts items)
    placed key = facts_at-facts_by_section key items []

-- the draft without facts: one section, of the limitations
unfoldable pub limitations : List ItemFacts → ReportSection
unfolding limitation_codes
limitations items = record {
  key = "limitations";
  heading = "Limites";
  body = "Aucun fait explicite exploitable n'a été extrait pour cette fenêtre.";
  fact_ids = [];
  basis_codes = limitation_codes items;
}

is_empty-or_unknown : (codes : List String) → is_empty (or_unknown codes) ≡ false
is_empty-or_unknown [] = refl
is_empty-or_unknown (code ∷ codes) = refl

is_empty-limitation_codes : (items : List ItemFacts) → is_empty (limitation_codes items) ≡ false
unfolding limitation_codes
is_empty-limitation_codes items =
    is_empty-or_unknown (sort_texts (to_set (uncertainty_codes items)))

pub with_limitations-none :
    (items : List ItemFacts)
    → with_limitations items []
      ≡ (if section_fits (limitations items) then ok (limitations items ∷ []) else err limit_error)
unfolding with_limitations validate_basis limitations new_section
with_limitations-none items = ground (arith, is_empty-limitation_codes items)

section_fits-limitations :
    (items : List ItemFacts)
    → section_fits (limitations items) ≡ leb (length (limitation_codes items)) 50
unfolding section_fits limitations
section_fits-limitations items = refl

new_draft-limitations :
    (local_date : String) (items : List ItemFacts)
    → new_draft (draft_of local_date (limitations items ∷ [])) ≡ (
        if has_length 1 255 (title_of local_date)
        then ok (draft_of local_date (limitations items ∷ []))
        else err limit_error)
unfolding new_draft draft_fits draft_of limitations validate_sections is_unique contains all
new_draft-limitations local_date items = ground arith

category_sections-none :
    (known : Dict SourceProvenance) (groups : Dict (List FactProposal))
    (table : List (String × String))
    → ((key : String) → facts_at key groups ≡ [])
    → category_sections known groups table ≡ ok []
unfolding category_sections
category_sections-none known groups [] absent = refl
category_sections-none known groups ((key, heading) ∷ more) absent =
    rw (absent key) (category_sections-none known groups more absent)

facts_at-none :
    (key : String) (items : List ItemFacts)
    → all_facts items ≡ []
    → facts_at key (facts_by_section items []) ≡ []
unfolding facts_for keep facts_at
facts_at-none key items h = facts_at-facts_by_section key items [] ∙ ap (facts_for key) h

-- When no item has a fact, the report has only the section of the limitations, whatever the sources
-- are, and that has a basis code. It is returned exactly if there are at most 50 codes and the title
-- has at most 255 characters, and otherwise the validation of the report raises.
pub report-IsLimited :
    (local_date : String) (sources : List SourceItem) (items : List ItemFacts)
    → all_facts items ≡ []
    → (report local_date sources items ≡ (
        if leb (length (limitation_codes items)) 50 && has_length 1 255 (title_of local_date)
        then ok (draft_of local_date (limitations items ∷ []))
        else err limit_error))
      × (is_empty (limitation_codes items) ≡ false)
unfolding report
report-IsLimited local_date sources items h = (
  rw
      (
        category_sections-none (source_by_input sources []) (facts_by_section items []) headings
            (λ key. facts_at-none key items h),
        h,
        with_limitations-none items,
        section_fits-limitations items,
      )
      (limited (leb (length (limitation_codes items)) 50)),
  is_empty-limitation_codes items,
)
  where
    limited :
        (few : Bool)
        → ((if few then ok (limitations items ∷ []) else err limit_error) >>= λ sections.
            new_draft (draft_of local_date sections))
          ≡ (if few && has_length 1 255 (title_of local_date)
              then ok (draft_of local_date (limitations items ∷ []))
              else err limit_error)
    limited true = new_draft-limitations local_date items
    limited false = refl
