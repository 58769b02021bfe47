-- ===== src/Report/Draft.antt =====
-- v2_runner.py, lines 495 to 583: the draft of a situation report on the facts of the items.
use fireviewer_ai_worker.Common.{
  String, Bool, false, ◌||◌, Option, none, some, List, [], ◌∷◌, ◌++◌, map, is_empty, str_eq,
  if◌then◌else◌,
}
use fireviewer_ai_worker.Common.Dict.{Dict, lookup, insert, values}
use fireviewer_ai_worker.Common.Sort.{to_set, sort_texts, sort_by}
use fireviewer_ai_worker.Common.Exec.{Result, ok, err, ◌>>=◌, key_error}
use fireviewer_ai_worker.Report.{
  FactCategory, fire_activity, burned_area, resources, evacuation, access, infrastructure, weather,
  other, FactProposal, SourceItem, SourceProvenance, ItemFacts, ReportSection, ReportDraft,
}
use fireviewer_ai_worker.Report.Validators.{new_section, new_draft}
use fireviewer_ai_worker.Report.Facts.{join_with, or_else, or_text}

-- section_for_category
unfoldable pub section_for_category : FactCategory → String
section_for_category fire_activity = "observed_activity"
section_for_category burned_area = "observed_activity"
section_for_category resources = "resources"
section_for_category evacuation = "impacts"
section_for_category access = "impacts"
section_for_category infrastructure = "impacts"
section_for_category weather = "situation"
section_for_category other = "situation"

-- headings, in the order in which the sections are made
abbrev pub headings : List (String × String)
headings =
    ("situation", "Situation et consignes")
    ∷ ("observed_activity", "Activité observée")
    ∷ ("resources", "Moyens engagés")
    ∷ ("impacts", "Population, impacts et accès")
    ∷ []

-- source_by_input
unfoldable pub source_by_input : List SourceItem → Dict SourceProvenance → Dict SourceProvenance
unfolding insert
source_by_input [] found = found
source_by_input (item ∷ items) found =
    source_by_input items (insert item.input_id item.provenance found)

-- d[k]
abbrev pub required {ℓ} : {V : Type ℓ} → String → Option V → Result V
required key (some v) = ok v
required key none = err (key_error key)

-- the operand of an `or`, which an empty text is not
abbrev pub filled : Option String → Option String
filled none = none
filled (some text) = if str_eq text "" then none else some text

abbrev pub label_of : SourceProvenance → String
label_of source =
    or_text (or_else (filled source.attribution) (filled source.source_policy_domain))
      source.source_key

abbrev pub is_text : String → Option String → Bool
is_text expected none = false
is_text expected (some text) = str_eq text expected

-- the line of a fact whose source is known
abbrev pub fact_line : FactProposal → SourceProvenance → String
fact_line fact source = join_with "" (
    "- "
    ∷ fact.summary
    ∷ " — "
    ∷ label_of source
    ∷ ", "
    ∷ fact.as_of
    ∷ " ("
    ∷ (if is_text "lead" source.source_confidence || is_text "press" source.source_kind
        then "rapporté, à recouper"
        else "source institutionnelle ou technique")
    ∷ ")"
    ∷ [])

-- sourced_fact_line
unfoldable pub sourced_fact_line : Dict SourceProvenance → FactProposal → Result String
unfolding lookup
sourced_fact_line known fact =
    required fact.input_id (lookup fact.input_id known) >>= λ source. ok (fact_line fact source)

-- the lines of the facts, in order
unfoldable pub fact_lines : Dict SourceProvenance → List FactProposal → Result (List String)
unfolding sourced_fact_line
fact_lines known [] = ok []
fact_lines known (fact ∷ facts) =
    sourced_fact_line known fact >>= λ line. fact_lines known facts >>= λ lines. ok (line ∷ lines)

-- all_facts
unfoldable pub all_facts : List ItemFacts → List FactProposal
all_facts [] = []
all_facts (result ∷ items) = result.fact_proposals ++ all_facts items

-- facts_by_section.get(key, [])
unfoldable pub facts_at : String → Dict (List FactProposal) → List FactProposal
unfolding lookup
facts_at key groups = or_none (lookup key groups)
  where
    or_none : Option (List FactProposal) → List FactProposal
    or_none (some facts) = facts
    or_none none = []

-- the loop over the facts of an item
unfoldable pub group_facts : List FactProposal → Dict (List FactProposal) → Dict (List FactProposal)
unfolding insert facts_at section_for_category
group_facts [] groups = groups
group_facts (fact ∷ facts) groups =
    let key = section_for_category fact.category in
    group_facts facts (insert key (facts_at key groups ++ fact ∷ []) groups)

-- facts_by_section, from what the items before have put in it
unfoldable pub facts_by_section :
    List ItemFacts → Dict (List FactProposal) → Dict (List FactProposal)
unfolding group_facts
facts_by_section [] groups = groups
facts_by_section (result ∷ items) groups =
    facts_by_section items (group_facts result.fact_proposals groups)

-- the section of the facts, with the lines of its body
abbrev pub section_of : String → String → List String → List FactProposal → ReportSection
section_of key heading lines facts = record {
  key = key;
  heading = heading;
  body = join_with "\n" lines;
  fact_ids = map (λ fact. fact.fact_id) facts;
  basis_codes = [];
}

-- the sections of the categories that have facts
unfoldable pub category_sections :
    Dict SourceProvenance
    → Dict (List FactProposal)
    → List (String × String)
    → Result (List ReportSection)
unfolding fact_lines facts_at new_section
category_sections known groups [] = ok []
category_sections known groups ((key, heading) ∷ more) =
    let rest = category_sections known groups more in
    let facts = facts_at key groups in
    if is_empty facts
    then rest
    else (fact_lines known facts >>= λ lines.
        new_section (section_of key heading lines facts) >>= λ section.
        rest >>= λ sections. ok (section ∷ sections))

abbrev pub source_line : SourceProvenance → String
source_line source = join_with "" (
    "- "
    ∷ label_of source
    ∷ " — niveau "
    ∷ or_text source.source_confidence source.trust
    ∷ " — "
    ∷ or_text source.source_reference_url "sans URL"
    ∷ [])

-- sources, a line for each source key
unfoldable pub source_lines :
    Dict SourceProvenance → List FactProposal → Dict String → Result (List String)
unfolding lookup insert values
source_lines known [] sources = ok (values sources)
source_lines known (fact ∷ facts) sources =
    required fact.input_id (lookup fact.input_id known) >>= λ source.
    source_lines known facts (insert source.source_key (source_line source) sources)

-- the section of the sources, when there is a fact
unfoldable pub source_section :
    Dict SourceProvenance → List FactProposal → Result (List ReportSection)
unfolding source_lines new_section
source_section known [] = ok []
source_section known (fact ∷ facts) = source_lines known (fact ∷ facts) [] >>= λ lines.
    new_section (section_of "sources_and_freshness" "Sources et fraîcheur" lines (fact ∷ facts))
    >>= λ section. ok (section ∷ [])

unfoldable pub uncertainty_codes : List ItemFacts → List String
uncertainty_codes [] = []
uncertainty_codes (result ∷ items) = joined result.uncertainty_codes ++ uncertainty_codes items
  where
    joined : List (List String) → List String
    joined [] = []
    joined (codes ∷ more) = codes ++ joined more

abbrev pub or_unknown : List String → List String
or_unknown [] = "no_explicit_fact_extracted" ∷ []
or_unknown (code ∷ codes) = code ∷ codes

-- sorted({…}) or ["no_explicit_fact_extracted"]
unfoldable pub limitation_codes : List ItemFacts → List String
unfolding uncertainty_codes to_set sort_by
limitation_codes items = or_unknown (sort_texts (to_set (uncertainty_codes items)))

-- the section of the limitations, when there is no other
unfoldable pub with_limitations : List ItemFacts → List ReportSection → Result (List ReportSection)
unfolding limitation_codes new_section
with_limitations items (section ∷ sections) = ok (section ∷ sections)
with_limitations items [] =
    new_section (record {
      key = "limitations";
      heading = "Limites";
      body = "Aucun fait explicite exploitable n'a été extrait pour cette fenêtre.";
      fact_ids = [];
      basis_codes = limitation_codes items;
    })
    >>= λ section. ok (section ∷ [])

abbrev pub title_of : String → String
title_of local_date = join_with "" ("Point de situation du " ∷ local_date ∷ [])

-- the draft of the sections
unfoldable pub draft_of : String → List ReportSection → ReportDraft
draft_of local_date sections = record {
  title = title_of local_date;
  body_markdown = join_with "\n\n" (
      map (λ section. join_with "" ("## " ∷ section.heading ∷ "\n\n" ∷ section.body ∷ []))
        sections);
  sections = sections;
}

-- _report
unfoldable pub report : String → List SourceItem → List ItemFacts → Result ReportDraft
unfolding source_by_input facts_by_section category_sections source_section with_limitations
    draft_of new_draft all_facts
report local_date sources items =
    let known = source_by_input sources [] in
    category_sections known (facts_by_section items []) headings >>= λ by_category.
    source_section known (all_facts items) >>= λ by_source.
    with_limitations items (by_category ++ by_source) >>= λ sections.
    new_draft (draft_of local_date sections)
