-- ===== src/Report/Outline.antt =====
-- The report of v2_runner.py against its outline.
use fireviewer_ai_worker.Common.{Bool, all, ◌&&◌, List, [], ◌∷◌, ◌++◌}
use fireviewer_ai_worker.Common.Exec.{Result, ◌>>=◌}
use fireviewer_ai_worker.Report.{ItemFacts, ReportSection, ReportDraft}
use fireviewer_ai_worker.Report.Draft.{with_limitations}
use fireviewer_ai_worker.Report.Validators.{section_fits, draft_fits}
use fireviewer_ai_worker.Report.Laws.{limitations}
use fireviewer_ai_worker.Report.Sections.{checked}

-- the sections with those of the limitations, when there is no other
abbrev completed : List ItemFacts → List ReportSection → List ReportSection
completed items [] = limitations items ∷ []
completed items (section ∷ sections) = section ∷ sections

-- the sections in the order in which they are made
made_of : List ItemFacts → List ReportSection → List ReportSection → Result (List ReportSection)
made_of items by_category by_source = checked by_category >>= λ front.
    checked by_source >>= λ back. with_limitations items (front ++ back)

-- within the limits of its fields and of those of its sections
abbrev pub is_within : ReportDraft → Bool
is_within draft = all section_fits draft.sections && draft_fits draft
