-- ===== src/Stage/Members.antt =====
-- The members of `StageCapability` by their values, and `_ordered` and `_missing_requirements` of
-- stage_gates.py as sets.
use fireviewer_ai_worker.Common.{
  ◌≡◌, ◌⊎◌, refl, sym, ap, ◌∙◌, String, Bool, true, false, Option, none, some, List, [], ◌∷◌, arith,
  if◌then◌else◌, all, any, keep, is_empty, str_eq, eq_iff, Bool-cases, inl, inr,
}
use fireviewer_ai_worker.Stage.{
  StageCapability, capability_value, research_request, time_cutoff, network_broker,
  source_candidates, audio_input, visual_input, text_input, transcript, selected_visual,
  detection_regions, grounded_regions, factual_observations, fire_point_pixel,
  satellite_multispectral, burned_area_geometry, explicit_abstention, reference_bundle,
  spatial_matches, camera_pose, terrain_reference, spatial_proposals, evidence_graph, report_draft,
}
use fireviewer_ai_worker.Stage.Capabilities.{
  Capabilities, by_value, ordered, same_capability, among,
}

-- the first of the capabilities with that value
unfoldable find_value : String → List StageCapability → Option StageCapability
find_value v [] = none
find_value v (c ∷ cs) = if str_eq (capability_value c) v then some c else find_value v cs

capability-find_value : (c : StageCapability) → find_value (capability_value c) by_value ≡ some c
unfolding find_value
capability-find_value research_request = refl
capability-find_value time_cutoff = refl
capability-find_value network_broker = refl
capability-find_value source_candidates = refl
capability-find_value audio_input = refl
capability-find_value visual_input = refl
capability-find_value text_input = refl
capability-find_value transcript = refl
capability-find_value selected_visual = refl
capability-find_value detection_regions = refl
capability-find_value grounded_regions = refl
capability-find_value factual_observations = refl
capability-find_value fire_point_pixel = refl
capability-find_value satellite_multispectral = refl
capability-find_value burned_area_geometry = refl
capability-find_value explicit_abstention = refl
capability-find_value reference_bundle = refl
capability-find_value spatial_matches = refl
capability-find_value camera_pose = refl
capability-find_value terrain_reference = refl
capability-find_value spatial_proposals = refl
capability-find_value evidence_graph = refl
capability-find_value report_draft = refl

some-injective : (c d : StageCapability) → some c ≡ some d → c ≡ d
some-injective c d e = ground arith

-- two members with one value are one member
same_capability-eq : (c d : StageCapability) → same_capability c d ≡ true → c ≡ d
same_capability-eq c d h = some-injective c d (
    sym (capability-find_value c)
    ∙ (ap (λ v. find_value v by_value) ((eq_iff (capability_value c) (capability_value d)).0 h)
        ∙ capability-find_value d))

kept-empty :
    (b : Bool) (d : StageCapability) (rest : List StageCapability)
    → is_empty (if b then d ∷ rest else rest) ≡ true
    → (b ≡ false) × (is_empty rest ≡ true)
kept-empty true d rest h = ground arith
kept-empty false d rest h = (refl, h)

found-first :
    (b : Bool) (c d : StageCapability) (rest : Option StageCapability)
    → (if b then some d else rest) ≡ some c
    → (d ≡ c) ⊎ (rest ≡ some c)
found-first true c d rest h = inl (some-injective d c h)
found-first false c d rest h = inr h

find_value-keep :
    (p : Capabilities) (v : String) (c : StageCapability) (cs : List StageCapability)
    → find_value v cs ≡ some c
    → is_empty (keep p cs) ≡ true
    → p c ≡ false
unfolding find_value keep
find_value-keep p v c [] e h = ground arith
find_value-keep p v c (d ∷ ds) e h =
    let (out, rest) = kept-empty (p d) d (keep p ds) h in
    elim (found-first (str_eq (capability_value d) v) c d (find_value v ds) e) [
      | inl same ↦ ap p (sym same) ∙ out
      | inr later ↦ find_value-keep p v c ds later rest
    ]

-- a set with an empty list of members has none
pub ordered-empty :
    (p : Capabilities) → is_empty (ordered p) ≡ true → (c : StageCapability) → p c ≡ false
unfolding ordered
ordered-empty p h c = find_value-keep p (capability_value c) c by_value (capability-find_value c) h

keep-empty :
    (p : Capabilities) (cs : List StageCapability)
    → ((c : StageCapability) → p c ≡ false)
    → is_empty (keep p cs) ≡ true
unfolding keep
keep-empty p [] h = refl
keep-empty p (c ∷ cs) h = rw (h c) (keep-empty p cs h)

pub empty-ordered :
    (p : Capabilities) → ((c : StageCapability) → p c ≡ false) → is_empty (ordered p) ≡ true
unfolding ordered
empty-ordered p h = keep-empty p by_value h

-- a member of a list that the set holds throughout is in the set
pub among-all :
    (s : Capabilities) (group : List StageCapability) (c : StageCapability)
    → all s group ≡ true
    → among group c ≡ true
    → s c ≡ true
unfolding among all any
among-all s [] c h m = ground arith
among-all s (d ∷ ds) c h m = elim (Bool-cases (same_capability c d)) [
  | inl e ↦ ap s (same_capability-eq c d e) ∙ ground arith
  | inr e ↦ among-all s ds c (ground arith) (ground arith)
]
