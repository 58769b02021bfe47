-- ===== src/Report/Validators.antt =====
-- ReportSectionV2 and SituationReportDraftV2 of contracts.py: the limits of their fields, and their
-- validators.
use fireviewer_ai_worker.Common.{
  ℕ, leb, length, String, Bool, not, ◌&&◌, map, is_empty, is_unique, all,
}
use fireviewer_ai_worker.Common.Strings.{text_length}
use fireviewer_ai_worker.Common.Exec.{Exception, Result, ok, ◌>>◌, raise_if, value_error}
use fireviewer_ai_worker.Report.{ReportSection, ReportDraft}

-- ReportSectionV2.validate_basis
unfoldable pub validate_basis : ReportSection → Result ReportSection
validate_basis section =
    raise_if (is_empty section.fact_ids && is_empty section.basis_codes)
      (value_error "report sections require a fact or an explicit basis code")
    >> ok section

-- min_length and max_length of a text
abbrev pub has_length : ℕ → ℕ → String → Bool
has_length low high text = leb low (text_length text) && leb (text_length text) high

-- the limits of the fields of ReportSectionV2
unfoldable pub section_fits : ReportSection → Bool
section_fits section =
    has_length 1 120 section.heading
    && (has_length 1 5000 section.body
        && (leb (length section.fact_ids) 200 && leb (length section.basis_codes) 50))

-- the ValidationError, which is a ValueError, of a field out of its limits
abbrev pub limit_error : Exception
limit_error = value_error "report field out of its limits"

-- ReportSectionV2(…)
unfoldable pub new_section : ReportSection → Result ReportSection
unfolding section_fits validate_basis
new_section section = raise_if (not (section_fits section)) limit_error >> validate_basis section

-- SituationReportDraftV2.validate_sections
unfoldable pub validate_sections : ReportDraft → Result ReportDraft
unfolding is_unique all
validate_sections draft =
    raise_if (not (is_unique (map (λ section. section.key) draft.sections)))
      (value_error "report section keys must be unique")
    >> raise_if (not (all (λ section. is_unique section.fact_ids) draft.sections))
        (value_error "report section fact references must be unique")
    >> ok draft

-- the limits of the fields of SituationReportDraftV2
unfoldable pub draft_fits : ReportDraft → Bool
draft_fits draft =
    has_length 1 255 draft.title
    && (has_length 1 30000 draft.body_markdown
        && (leb 1 (length draft.sections) && leb (length draft.sections) 12))

-- SituationReportDraftV2(…)
unfoldable pub new_draft : ReportDraft → Result ReportDraft
unfolding draft_fits validate_sections
new_draft draft = raise_if (not (draft_fits draft)) limit_error >> validate_sections draft
