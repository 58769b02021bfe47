-- ===== src/Report.antt =====
-- v2_runner.py and the messages of contracts.py that it reads: the facts of a V2 output, and the draft
-- of a situation report on them. A time is its text in ISO format.
pub mod Facts
pub mod Validators
pub mod Draft
pub mod Laws
pub mod Lines
pub mod Expected
pub mod Sections
pub mod Outline
pub mod Known
use fireviewer_ai_worker.Common.{ℕ, String, Bool, Option, List}
use fireviewer_ai_worker.Contracts.{Certainty}

-- FactProposalV2.category
pub data FactCategory : Type 0 where
  fire_activity burned_area resources evacuation access infrastructure weather other : FactCategory

-- FactProposalV2.evidence_kind
pub data FactEvidence : Type 0 where
  frame image satellite_image transcript_segment article_text metadata : FactEvidence

-- FactProposalV2, without the values that no fact of the runner has
pub record FactProposal : Type 0 where
  pub fact_id : String
  pub input_id : String
  pub category : FactCategory
  pub fact_key : String
  pub as_of : String
  pub evidence_kind : FactEvidence
  pub evidence_id : String
  pub certainty : Certainty
  pub value_text : String
  pub summary : String

-- SourceProvenanceV2, the fields that a report reads
pub record SourceProvenance : Type 0 where
  pub source_key : String
  pub source_reference_url : Option String
  pub attribution : Option String
  pub trust : String
  pub source_policy_domain : Option String
  pub source_kind : Option String
  pub source_confidence : Option String

-- WorkerBatchItemV2, the fields that the facts and the report read
pub record SourceItem : Type 0 where
  pub input_id : String
  pub is_satellite_image : Bool
  pub captured_at : Option String
  pub acquired_at : Option String
  pub provenance : SourceProvenance

-- WorkerItemResultV2: its facts, and the uncertainty codes of each of its spatial proposals
pub record ItemFacts : Type 0 where
  pub fact_proposals : List FactProposal
  pub uncertainty_codes : List (List String)

-- ReportSectionV2
pub record ReportSection : Type 0 where
  pub key : String
  pub heading : String
  pub body : String
  pub fact_ids : List String
  pub basis_codes : List String

-- SituationReportDraftV2
pub record ReportDraft : Type 0 where
  pub title : String
  pub body_markdown : String
  pub sections : List ReportSection

-- what the facts call of hashlib, re and str: the digest of a text in hexadecimal digits,
-- `re.sub(r"[^A-Za-z0-9._:-]+", "_", value).strip("_.:-")`, casefold, and str of a number
pub record FactLibrary : Type 0 where
  pub sha256_hex : String → String
  pub safe_text : String → String
  pub casefold : String → String
  pub str_of : ℕ → String
