-- ===== src/Tests/Reports.antt =====
-- A window with the two facts of an article, and a window without facts.
use fireviewer_ai_worker.Common.{
  leb, all, ◌&&◌, if◌then◌else◌, ◌==◌, ◌+◌, All, is_unique, contains, keep, any, is_empty, String,
  ℕ, ◌≡◌, refl, none, some, List, [], ◌∷◌, length, map, true, false,
}
use fireviewer_ai_worker.Common.Exec.{ok, err, is_ok}
use fireviewer_ai_worker.Common.Dict.{lookup, insert, values}
use fireviewer_ai_worker.Common.Sort.{to_set, sort_by, insert_by}
use fireviewer_ai_worker.Common.Strings.{occurs_in}
use fireviewer_ai_worker.Contracts.{FactualObservation, article_text, explicitly_written}
use fireviewer_ai_worker.Report.{FactProposal, SourceItem, SourceProvenance, ItemFacts, FactLibrary}
use fireviewer_ai_worker.Report.Facts.{
  facts_from, fact_of, stable_id, first_category, fact_category,
}
use fireviewer_ai_worker.Report.Draft.{
  uncertainty_codes, category_sections, source_section, with_limitations, group_facts, fact_lines,
  source_lines, sourced_fact_line, title_of, facts_at, facts_by_section, all_facts, report,
  draft_of, limitation_codes, source_by_input, section_for_category,
}
use fireviewer_ai_worker.Report.Validators.{
  new_section, new_draft, section_fits, draft_fits, validate_basis, validate_sections, limit_error,
  has_length,
}
use fireviewer_ai_worker.Report.Laws.{
  facts_for, count_in, limitations, facts_by_section-IsPartition, report-IsLimited,
}
use fireviewer_ai_worker.Report.Lines.{IsKnown}
use fireviewer_ai_worker.Report.Expected.{entries, source_entry, or_limitations, expected_outline}
use fireviewer_ai_worker.Report.Known.{facts_from-AreKnown}

abbrev same_text : String → String
same_text s = s

abbrev number : ℕ → String
number n = if n == 1 then "1" else "2"

abbrev library : FactLibrary
library = record {
  sha256_hex = same_text;
  safe_text = same_text;
  casefold = same_text;
  str_of = number;
}

abbrev press : SourceProvenance
press = record {
  source_key = "journal";
  source_reference_url = some "https://journal.example/feu";
  attribution = some "";
  trust = "partner";
  source_policy_domain = some "journal.example";
  source_kind = some "press";
  source_confidence = none;
}

abbrev article : SourceItem
article = record {
  input_id = "article-1";
  is_satellite_image = false;
  captured_at = none;
  acquired_at = none;
  provenance = press;
}

abbrev observation : String → String → FactualObservation
observation kind description = record {
  kind = kind;
  description = description;
  evidence_kind = article_text;
  evidence_id = "article-1";
  region_id = none;
  certainty = explicitly_written;
}

abbrev observations : List FactualObservation
observations = observation "smoke" "Fumée visible" ∷ observation "road closed" "Route fermée" ∷ []

abbrev facts : List FactProposal
facts = facts_from library "2025-08-01T12:00:00+00:00" article 1 observations

abbrev items : List ItemFacts
items = (record { fact_proposals = facts; uncertainty_codes = [] }) ∷ []

abbrev no_items : List ItemFacts
no_items =
    (record { fact_proposals = []; uncertainty_codes = ("low_light" ∷ "no_azimuth" ∷ []) ∷ [] })
    ∷ []

facts_by_section-IsPartition_example :
    ((key : String) → facts_at key (facts_by_section items []) ≡ facts_for key (all_facts items))
    × (count_in "situation" (facts_by_section items [])
          + count_in "observed_activity" (facts_by_section items [])
          + count_in "resources" (facts_by_section items [])
          + count_in "impacts" (facts_by_section items [])
        ≡ length (all_facts items))
facts_by_section-IsPartition_example = facts_by_section-IsPartition items

no_items-AreEmpty : all_facts no_items ≡ []
unfolding all_facts
no_items-AreEmpty = refl

report-IsLimited_example :
    (report "2025-08-01" [] no_items ≡ (
      if leb (length (limitation_codes no_items)) 50 && has_length 1 255 (title_of "2025-08-01")
      then ok (draft_of "2025-08-01" (limitations no_items ∷ []))
      else err limit_error))
    × (is_empty (limitation_codes no_items) ≡ false)
report-IsLimited_example = report-IsLimited "2025-08-01" [] no_items no_items-AreEmpty

-- both reports are within their limits
reports_test :
    is_ok (report "2025-08-01" (article ∷ []) items) ≡ true
    × is_ok (report "2025-08-01" [] no_items) ≡ true
unfolding report source_by_input facts_by_section group_facts facts_at category_sections fact_lines
    sourced_fact_line source_section source_lines with_limitations limitation_codes new_section
    new_draft section_fits draft_fits validate_basis validate_sections draft_of all_facts facts_from
    fact_of fact_category first_category section_for_category stable_id lookup insert values
    is_unique contains all any occurs_in to_set sort_by insert_by keep uncertainty_codes
reports_test = (refl, refl)

-- the sections of the article's report
outline_test :
    map (λ e. e.0) (expected_outline facts)
    ≡ "observed_activity" ∷ "impacts" ∷ "sources_and_freshness" ∷ []
unfolding expected_outline facts_from entries source_entry or_limitations facts_for keep
    first_category fact_of fact_category section_for_category any occurs_in
outline_test = refl

article-IsThere : contains article.input_id (map (λ s. s.input_id) (article ∷ [])) ≡ true
unfolding contains
article-IsThere = refl

facts_from-AreKnown_example :
    (length (facts_from library "2025-08-01T12:00:00+00:00" article 1 observations)
      ≡ length observations)
    × All
        (IsKnown (source_by_input (article ∷ []) []))
        (facts_from library "2025-08-01T12:00:00+00:00" article 1 observations)
facts_from-AreKnown_example =
    facts_from-AreKnown library "2025-08-01T12:00:00+00:00" article 1 observations (article ∷ [])
      article-IsThere
