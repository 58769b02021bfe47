-- ===== src/Registry.antt =====
-- src/firewarning_worker/model_registry.py, lines 11 to 128: the pinned models of one role, their
-- consensus policy, and the validators. `R` is the type of floats.
pub mod Laws
use Prim.Native.Char.{code}
use fireviewer_ai_worker.Common.{
  ℕ, zero, suc, ◌+◌, String, Bool, true, false, not, ◌&&◌, ◌||◌, Option, none, some, List, [], ◌∷◌,
  map, ltb, leb, ◌==◌, if◌then◌else◌, is_some, any, length, is_empty, contains, is_unique, str_eq,
}
use fireviewer_ai_worker.Common.Exec.{
  Exception, registry_error, Result, ok, err, ◌>>=◌, ◌>>◌, raise_if,
}
use fireviewer_ai_worker.Common.Float.{FloatOps, in_range}
use fireviewer_ai_worker.Common.Sort.{sort_numbers, same_numbers}
use fireviewer_ai_worker.Contracts.Trace.{ConsensusStrategy, single_with_rules, cascade, quorum}
use fireviewer_ai_worker.Stage.{PipelineRole}

pub data ModelRole : Type 0 where
  asr burned_area fire_detection visual_grounding multimodal_extraction fire_pointing : ModelRole
  source_research consensus_judge : ModelRole

abbrev pub model_role_value : ModelRole → String
model_role_value asr = "asr"
model_role_value burned_area = "burned_area"
model_role_value fire_detection = "fire_detection"
model_role_value visual_grounding = "visual_grounding"
model_role_value multimodal_extraction = "multimodal_extraction"
model_role_value fire_pointing = "fire_pointing"
model_role_value source_research = "source_research"
model_role_value consensus_judge = "consensus_judge"

-- the role of a stage of the session, as a model's role
abbrev pub to_model : PipelineRole → ModelRole
to_model PipelineRole.asr = asr
to_model PipelineRole.fire_detection = fire_detection
to_model PipelineRole.visual_grounding = visual_grounding
to_model PipelineRole.multimodal_extraction = multimodal_extraction

abbrev pub same_role : ModelRole → ModelRole → Bool
same_role a b = str_eq (model_role_value a) (model_role_value b)

pub data ConsensusFailureDecision : Type 0 where
  abstain human_review : ConsensusFailureDecision

pub data ModelSource : Type 0 where
  huggingface local : ModelSource

pub record ModelSpec : Type 0 where
  pub role : ModelRole
  pub model_id : String
  pub revision : String
  pub source : ModelSource

abbrev between : ℕ → ℕ → ℕ → Bool
between lo hi c = leb lo c && leb c hi

-- [0-9a-f]
abbrev is_hex : ℕ → Bool
is_hex c = between b'0' b'9' c || between b'a' b'f' c

-- [A-Za-z0-9]
abbrev is_alnum : ℕ → Bool
is_alnum c = between b'0' b'9' c || (between b'A' b'Z' c || between b'a' b'z' c)

-- [A-Za-z0-9._:-]
abbrev is_identifier_part : ℕ → Bool
is_identifier_part c = is_alnum c || (c == b'.' || (c == b'_' || (c == b':' || c == b'-')))

-- [class]{least,most} and the end of the text
unfoldable pub repeats : (ℕ → Bool) → ℕ → ℕ → String → Bool
repeats p least most String.[] = least == 0
repeats p least zero (String.◌∷◌ c s) = false
repeats p zero (suc most) (String.◌∷◌ c s) = p (code c) && repeats p zero most s
repeats p (suc least) (suc most) (String.◌∷◌ c s) = p (code c) && repeats p least most s

-- re.fullmatch(r"[A-Za-z0-9][A-Za-z0-9._:-]{0,127}", text)
unfoldable pub is_identifier : String → Bool
unfolding repeats
is_identifier String.[] = false
is_identifier (String.◌∷◌ c s) = is_alnum (code c) && repeats is_identifier_part 0 127 s

-- the text after a prefix, if the text begins so
unfoldable pub after_prefix : String → String → Option String
after_prefix String.[] s = some s
after_prefix (String.◌∷◌ c p) String.[] = none
after_prefix (String.◌∷◌ c p) (String.◌∷◌ d s) = if code c == code d then after_prefix p s else none

-- re.fullmatch(r"sha256:[0-9a-f]{64}", text)
unfoldable pub is_sha256 : String → Bool
unfolding after_prefix repeats
is_sha256 s = elim (after_prefix "sha256:" s) [ none ↦ false | some hex ↦ repeats is_hex 64 64 hex ]

abbrev is_local : ModelSource → Bool
is_local local = true
is_local huggingface = false

-- ModelSpec.validate; the messages name the role in front
unfoldable pub validate_spec : ModelSpec → Result (Unit {0})
unfolding repeats is_sha256
validate_spec m = do
  raise_if (not (is_local m.source) && not (repeats is_hex 40 40 m.revision))
      (registry_error "must use a 40-character immutable commit SHA")
  raise_if (is_local m.source && not (is_sha256 m.revision))
      (registry_error "local model must use a sha256 digest")

pub record ModelCandidateSpec : Type 0 where
  pub candidate_id : String
  pub spec : ModelSpec
  pub rank : ℕ

-- ModelCandidateSpec.validate
unfoldable pub validate_candidate : ModelCandidateSpec → Result (Unit {0})
validate_candidate c = do
  raise_if (not (is_identifier c.candidate_id)) (registry_error "invalid model candidate id")
  raise_if (ltb c.rank 1 || ltb 8 c.rank) (registry_error "rank must be between 1 and 8")
  validate_spec c.spec

pub record ModelGroupSpec (R : Type 0) : Type 0 where
  pub role : ModelRole
  pub candidates : List ModelCandidateSpec
  pub strategy : ConsensusStrategy
  pub minimum_successful : ℕ
  pub minimum_agreeing : ℕ
  pub agreement_threshold : R
  pub disagreement_decision : ConsensusFailureDecision
  pub always_challenge : Bool
  pub adjudicator : Option ModelCandidateSpec
  pub adjudication_confidence_threshold : R

abbrev pub candidate_ids_of : List ModelCandidateSpec → List String
candidate_ids_of = map (λ c. c.candidate_id)

abbrev pub ranks_of : List ModelCandidateSpec → List ℕ
ranks_of = map (λ c. c.rank)

-- x in xs, on numbers
unfoldable pub has_number : ℕ → List ℕ → Bool
has_number x [] = false
has_number x (y ∷ ys) = (x == y) || has_number x ys

-- len(xs) == len(set(xs))
unfoldable pub no_repeats : List ℕ → Bool
unfolding has_number
no_repeats [] = true
no_repeats (x ∷ xs) = not (has_number x xs) && no_repeats xs

abbrev pub is_single : ConsensusStrategy → Bool
is_single single_with_rules = true
is_single _ = false

abbrev pub is_quorum : ConsensusStrategy → Bool
is_quorum quorum = true
is_quorum _ = false

abbrev pub is_cascade : ConsensusStrategy → Bool
is_cascade cascade = true
is_cascade _ = false

-- the loop over the candidates at the end of `validate`
unfoldable pub validate_candidates : List ModelCandidateSpec → Result (Unit {0})
validate_candidates [] = ok tt
validate_candidates (c ∷ cs) = validate_candidate c >> validate_candidates cs

-- the checks on the adjudicator
unfoldable pub validate_adjudicator :
    List ModelCandidateSpec → Option ModelCandidateSpec → Result (Unit {0})
validate_adjudicator candidates none = ok tt
validate_adjudicator candidates (some judge) = do
  raise_if (not (same_role judge.spec.role consensus_judge))
      (registry_error "adjudicator must use consensus_judge role")
  raise_if (contains judge.candidate_id (candidate_ids_of candidates))
      (registry_error "adjudicator candidate id must be unique")
  raise_if (has_number judge.rank (ranks_of candidates))
      (registry_error "adjudicator rank must be unique")
  validate_candidate judge

module _ {R : Type 0} ⦃F : FloatOps R⦄ where
  -- the bounds on the thresholds and minima, and what each strategy asks for
  unfoldable pub validate_policy : ModelGroupSpec R → Result (Unit {0})
  validate_policy g = do
    raise_if (not (in_range (F.of_int 0) (F.of_int 1) g.agreement_threshold))
        (registry_error "agreement threshold must be between 0 and 1")
    raise_if (not (in_range (F.of_int 0) (F.of_int 1) g.adjudication_confidence_threshold))
        (registry_error "adjudication confidence threshold must be between 0 and 1")
    raise_if (not (leb 1 g.minimum_successful && leb g.minimum_successful (length g.candidates)))
        (registry_error "minimum_successful is outside the candidate count")
    raise_if (not (leb 1 g.minimum_agreeing && leb g.minimum_agreeing (length g.candidates)))
        (registry_error "minimum_agreeing is outside the candidate count")
    raise_if (is_single g.strategy && not (length g.candidates == 1))
        (registry_error "single_with_rules requires exactly one candidate")
    raise_if (is_quorum g.strategy && ltb (length g.candidates) 2)
        (registry_error "quorum requires at least two candidates")
    raise_if (is_quorum g.strategy && not (is_some g.adjudicator))
        (registry_error "quorum requires a final adjudicator")
    raise_if (ltb 1 g.minimum_agreeing && not (is_some g.adjudicator))
        (registry_error "multi-candidate agreement requires a final adjudicator")

  -- ModelGroupSpec.validate
  unfoldable pub validate_group : ModelGroupSpec R → Result (Unit {0})
  validate_group g = do
    raise_if (is_empty g.candidates) (registry_error "model group cannot be empty")
    raise_if (not (is_unique (candidate_ids_of g.candidates)))
        (registry_error "model group contains duplicate candidate ids")
    raise_if (not (no_repeats (ranks_of g.candidates)))
        (registry_error "model group contains duplicate ranks")
    raise_if (not (same_numbers (ranks_of g.candidates) (sort_numbers (ranks_of g.candidates))))
        (registry_error "model candidates must be ordered by rank")
    raise_if (any (λ c. not (same_role c.spec.role g.role)) g.candidates)
        (registry_error "model group contains a candidate for another role")
    validate_policy g
    validate_adjudicator g.candidates g.adjudicator
    validate_candidates g.candidates
