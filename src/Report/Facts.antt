-- ===== src/Report/Facts.antt =====
-- v2_runner.py, lines 41 to 43 and 389 to 492: the facts of an item, one for each observation.
use fireviewer_ai_worker.Common.{
  ℕ, suc, String, Bool, true, false, Option, none, some, List, [], ◌∷◌, any, str_append,
  if◌then◌else◌,
}
use fireviewer_ai_worker.Common.Strings.{is_blank, text_take, occurs_in}
use fireviewer_ai_worker.Contracts
use fireviewer_ai_worker.Contracts.{FactualObservation, EvidenceKind, ItemResult}
use fireviewer_ai_worker.Report.{
  FactCategory, fire_activity, burned_area, resources, evacuation, access, infrastructure, weather,
  other, FactEvidence, frame, image, satellite_image, transcript_segment, article_text, metadata,
  FactProposal, SourceItem, FactLibrary,
}

-- "\x1f".join(parts), the separator given
abbrev pub join_with : String → List String → String
join_with separator [] = ""
join_with separator (x ∷ xs) = join_more x xs
  where
    join_more : String → List String → String
    join_more x [] = x
    join_more x (y ∷ ys) = str_append x (str_append separator (join_more y ys))

-- tokens of _fact_category, in the order of its tests
abbrev token_table : List (FactCategory × List String)
token_table =
    (burned_area, "burned_area" ∷ "surface_brul" ∷ "hectare" ∷ [])
    ∷ (fire_activity, "smoke" ∷ "flame" ∷ "fire" ∷ "fum" ∷ "feu" ∷ "progression" ∷ [])
    ∷ (
      resources,
      "vehicle" ∷ "aircraft" ∷ "personnel" ∷ "pompier" ∷ "avion" ∷ "helicop" ∷ "resource" ∷ "moyen"
          ∷ "donation" ∷ "don_" ∷ [],
    )
    ∷ (evacuation, "evac" ∷ "confin" ∷ "shelter" ∷ "hébergement" ∷ "hebergement" ∷ [])
    ∷ (access, "route" ∷ "road" ∷ "access" ∷ "restriction" ∷ "fermeture" ∷ [])
    ∷ (
      infrastructure,
      "building" ∷ "infrastructure" ∷ "bâtiment" ∷ "casualty" ∷ "damage" ∷ "victime" ∷ "degat"
          ∷ "service_disruption" ∷ [],
    )
    ∷ (weather, "weather" ∷ "wind" ∷ "vent" ∷ "météo" ∷ "air_quality" ∷ "pollution" ∷ [])
    ∷ []

-- the first category one of whose tokens stands in the text
unfoldable pub first_category : String → List (FactCategory × List String) → FactCategory
unfolding any occurs_in
first_category lowered [] = other
first_category lowered ((category, tokens) ∷ table) =
    let rest = first_category lowered table in
    if any (λ token. occurs_in token lowered) tokens then category else rest

abbrev pub or_else : Option String → Option String → Option String
or_else (some a) b = some a
or_else none b = b

abbrev pub or_text : Option String → String → String
or_text (some a) b = a
or_text none b = b

module _ (L : FactLibrary) where
  -- _fact_category
  unfoldable pub fact_category : String → FactCategory
  unfolding first_category
  fact_category fact_type = first_category (L.casefold fact_type) token_table

  -- _safe_fact_key
  unfoldable pub safe_fact_key : String → String
  safe_fact_key value =
      text_take 128 (if is_blank (L.safe_text value) then "observation" else L.safe_text value)

  -- _stable_id
  unfoldable pub stable_id : String → List String → String
  stable_id prefix parts =
      str_append prefix (str_append "-" (text_take 24 (L.sha256_hex (join_with "\u{1f}" parts))))

  -- the evidence kind of a V2 fact
  abbrev pub evidence_of : Bool → EvidenceKind → FactEvidence
  evidence_of true Contracts.image = satellite_image
  evidence_of false Contracts.image = image
  evidence_of satellite Contracts.frame = frame
  evidence_of satellite Contracts.transcript_segment = transcript_segment
  evidence_of satellite Contracts.article_text = article_text
  evidence_of satellite Contracts.metadata = metadata

  -- the fact of an observation, `window_end_at` being that of the batch
  unfoldable pub fact_of : String → SourceItem → ℕ → FactualObservation → FactProposal
  unfolding stable_id fact_category safe_fact_key
  fact_of window_end_at item index observation = record {
    fact_id =
        stable_id "FACT"
          (item.input_id ∷ L.str_of index ∷ observation.kind ∷ observation.description ∷ []);
    input_id = item.input_id;
    category = fact_category observation.kind;
    fact_key = safe_fact_key observation.kind;
    as_of = or_text (or_else item.captured_at item.acquired_at) window_end_at;
    evidence_kind = evidence_of item.is_satellite_image observation.evidence_kind;
    evidence_id = observation.evidence_id;
    certainty = observation.certainty;
    value_text = observation.description;
    summary = observation.description;
  }

  -- the loop of _fact_proposals, from the index
  unfoldable pub facts_from : String → SourceItem → ℕ → List FactualObservation → List FactProposal
  unfolding fact_of
  facts_from window_end_at item index [] = []
  facts_from window_end_at item index (observation ∷ more) =
      fact_of window_end_at item index observation ∷ facts_from window_end_at item (suc index) more

  -- _fact_proposals
  unfoldable pub fact_proposals :
      {R : Type 0} → String → SourceItem → ItemResult R → List FactProposal
  unfolding facts_from
  fact_proposals window_end_at item result =
      facts_from window_end_at item 1 result.factual_observations
