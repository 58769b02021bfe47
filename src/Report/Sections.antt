-- ===== src/Report/Sections.antt =====
-- The sections of the report of v2_runner.py, each with its place in the outline, or the exception of
-- the first that is out of its limits.
use fireviewer_ai_worker.Common.{
  Bool, all, if◌then◌else◌, String, ◌≡◌, refl, ap, false, List, [], ◌∷◌, ◌++◌, All, is_empty,
  Bool-cases, inl, inr, str_eq, arith,
}
use fireviewer_ai_worker.Common.Dict.{Dict}
use fireviewer_ai_worker.Common.Exec.{Result, ok, err, ◌>>=◌}
use fireviewer_ai_worker.Report.{FactProposal, SourceProvenance, ReportSection}
use fireviewer_ai_worker.Report.Draft.{
  facts_at, category_sections, source_section, section_of, section_for_category,
}
use fireviewer_ai_worker.Report.Validators.{section_fits, new_section, limit_error, validate_basis}
use fireviewer_ai_worker.Report.Laws.{facts_for}
use fireviewer_ai_worker.Report.Lines.{
  IsKnown, All-keep, fact_lines-IsReturned, source_lines-IsReturned,
}
use fireviewer_ai_worker.Report.Expected.{outline_of, entries, source_entry}

-- every section is within the limits of its fields
abbrev pub all_fit : List ReportSection → Bool
all_fit sections = all section_fits sections

-- sections that are made one after the other: all of them, or the exception of the first that is out
-- of its limits
abbrev pub checked : List ReportSection → Result (List ReportSection)
checked sections = if all_fit sections then ok sections else err limit_error

new_section-section_of :
    (key heading : String) (lines : List String) (facts : List FactProposal)
    → is_empty facts ≡ false
    → new_section (section_of key heading lines facts) ≡ (
        if section_fits (section_of key heading lines facts)
        then ok (section_of key heading lines facts)
        else err limit_error)
unfolding new_section validate_basis
new_section-section_of key heading lines [] h = ground arith
new_section-section_of key heading lines (fact ∷ facts) h = ground arith

-- one section more
checked-more :
    (section : ReportSection) (sections : List ReportSection)
    → ((if section_fits section then ok section else err limit_error) >>= λ first.
        checked sections >>= λ rest. ok (first ∷ rest))
      ≡ checked (section ∷ sections)
unfolding all
checked-more section sections = ground arith

pub category_sections-IsOutlined :
    (known : Dict SourceProvenance) (groups : Dict (List FactProposal)) (facts : List FactProposal)
    (table : List (String × String))
    → ((key : String) → facts_at key groups ≡ facts_for key facts)
    → All (IsKnown known) facts
    → (sections : List ReportSection) × (category_sections known groups table ≡ checked sections)
      × (outline_of sections ≡ entries facts table)
unfolding category_sections entries facts_for all
category_sections-IsOutlined known groups facts [] placed h = ([], refl, refl)
category_sections-IsOutlined known groups facts ((key, heading) ∷ more) placed h =
    let (sections, returned, outlined) =
      category_sections-IsOutlined known groups facts more placed h in
    let (lines, lined) =
      fact_lines-IsReturned known (facts_for key facts)
        (All-keep known (λ fact. str_eq (section_for_category fact.category) key) facts h) in
    elim (Bool-cases (is_empty (facts_for key facts))) [
      | inl e ↦ (sections, rw (placed key, e) returned, rw e outlined)
      | inr e ↦ (
        section_of key heading lines (facts_for key facts) ∷ sections,
        rw
            (
              placed key,
              e,
              lined,
              new_section-section_of key heading lines (facts_for key facts) e,
              returned,
            )
            (checked-more (section_of key heading lines (facts_for key facts)) sections),
        rw (e, outlined) refl,
      )
    ]

pub source_section-IsOutlined :
    (known : Dict SourceProvenance) (facts : List FactProposal)
    → All (IsKnown known) facts
    → (sections : List ReportSection) × (source_section known facts ≡ checked sections)
      × (outline_of sections ≡ source_entry facts)
unfolding source_section source_entry all
source_section-IsOutlined known [] h = ([], refl, refl)
source_section-IsOutlined known (fact ∷ facts) h =
    let (lines, returned) = source_lines-IsReturned known (fact ∷ facts) [] h in
    let section = section_of "sources_and_freshness" "Sources et fraîcheur" lines (fact ∷ facts) in
    (
      section ∷ [],
      rw
          (
            returned,
            new_section-section_of "sources_and_freshness" "Sources et fraîcheur" lines
                (fact ∷ facts) refl,
          )
          (checked-more section []),
      refl,
    )

pub outline_of-append :
    (front back : List ReportSection)
    → outline_of (front ++ back) ≡ outline_of front ++ outline_of back
outline_of-append [] back = refl
outline_of-append (section ∷ front) back =
    ap (◌∷◌ (section.key, section.fact_ids)) (outline_of-append front back)
