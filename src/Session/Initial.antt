-- ===== src/Session/Initial.antt =====
-- `_temporal_sample` and `_initial_result` of session_runner.py, lines 117 to 174.
use fireviewer_ai_worker.Common.{
  ℕ, zero, suc, ◌+◌, ◌-◌, ◌*◌, ◌/◌, ◌%◌, String, not, ◌&&◌, Option, none, some, List, [], ◌∷◌, map,
  ltb, leb, ◌==◌, if◌then◌else◌, is_some, keep, length, get_elem?, is_empty, contains,
}
use fireviewer_ai_worker.Common.Exec.{assertion_error, other_error, Result, ok, err, ◌>>=◌}
use fireviewer_ai_worker.Common.Sort.{sort_numbers}
use fireviewer_ai_worker.Contracts.{
  BatchItem, ItemResult, VisualEvidenceSelection, single_image, detector_fallback, capacity_limit,
  LocationOrigin, metadata, user_declared, explicit_source_geometry, human_confirmed,
  LocationStatus, no_location, capture_location_only, user_declared_observation_location,
  human_confirmed_observation_location, empty_transcript, GeographicMarkerCandidate,
}
use fireviewer_ai_worker.Validation.Links.{frame_ids}

-- round(a / b): to the nearest integer, and to the even one of two
unfoldable pub round_div : ℕ → ℕ → ℕ
round_div a b =
    if ltb (2 * (a % b)) b
    then a / b
    else if ltb b (2 * (a % b))
    then a / b + 1
    else if (a / b) % 2 == 0
    then a / b
    else a / b + 1

-- {round(position * (n - 1) / (limit - 1)) for position in range(count)}, by its members
unfoldable pub sample_indexes : ℕ → ℕ → ℕ → List ℕ
unfolding round_div
sample_indexes n limit zero = []
sample_indexes n limit (suc position) =
    let index = round_div (position * (n - 1)) (limit - 1) in
    let rest = sample_indexes n limit position in index ∷ keep (λ i. not (i == index)) rest

-- evidence_ids[index]
abbrev pub at_index : List String → ℕ → Result String
at_index ids i = elim (get_elem? ids i) [
  | none ↦ err (other_error "list index out of range")
  | some id ↦ ok id
]

-- evidence_ids[index] for each index
unfoldable pub pick : List String → List ℕ → Result (List String)
pick ids [] = ok []
pick ids (i ∷ is) = at_index ids i >>= λ id. pick ids is >>= λ more. ok (id ∷ more)

-- _temporal_sample
unfoldable pub temporal_sample : List String → ℕ → Result (List String)
unfolding pick sample_indexes
temporal_sample ids limit =
    if leb (length ids) limit
    then ok ids
    else if limit == 1
    then pick ids (length ids / 2 ∷ [])
    else pick ids (sort_numbers (sample_indexes (length ids) limit limit))

abbrev status_of : Option LocationOrigin → LocationStatus
status_of none = no_location
status_of (some metadata) = capture_location_only
status_of (some user_declared) = user_declared_observation_location
status_of (some explicit_source_geometry) = LocationStatus.explicit_source_geometry
status_of (some human_confirmed) = human_confirmed_observation_location

abbrev marker_of : Option LocationOrigin → Option GeographicMarkerCandidate
marker_of none = none
marker_of (some origin) = some (record { geometry_origin = origin })

module _ {R : Type 0} where
  -- visual_sources
  unfoldable pub visual_sources : BatchItem R → List String
  visual_sources item =
      if is_empty (frame_ids item) && is_some item.working_file_url
      then item.input_id ∷ []
      else frame_ids item

  -- visual_selection, from the sources and those that are selected
  unfoldable pub initial_selection : List String → List String → List (VisualEvidenceSelection R)
  initial_selection sources fallback_selected =
      map
        (λ id. record {
          evidence_id = id;
          selected_for_grounding = contains id fallback_selected;
          selection_reason =
              if length sources == 1
              then single_image
              else if contains id fallback_selected
              then detector_fallback
              else capacity_limit;
          max_detection_score = none;
        })
        sources

  abbrev result_with :
      BatchItem R → LocationStatus → Option GeographicMarkerCandidate → List String → ItemResult R
  result_with item status marker fallback_selected = record {
    input_id = item.input_id;
    metadata_result = record {
      capture_location_available = is_some item.metadata.latitude;
      capture_location_origin = item.metadata.location_origin;
    };
    transcript = empty_transcript;
    pixel_regions = [];
    visual_evidence_selection = initial_selection (visual_sources item) fallback_selected;
    factual_observations = [];
    explicit_places = [];
    explicit_times = [];
    location_status = status;
    geographic_marker_candidate = marker;
  }

  -- the status and the marker; coordinates without an origin fail the assertion
  abbrev located : BatchItem R → Result (LocationStatus × Option GeographicMarkerCandidate)
  located item =
      if not (is_some item.metadata.latitude)
      then ok (no_location, none)
      else if not (is_some item.metadata.location_origin)
      then err assertion_error
      else ok (status_of item.metadata.location_origin, marker_of item.metadata.location_origin)

  -- _initial_result
  unfoldable pub initial_result : BatchItem R → Result (ItemResult R)
  unfolding visual_sources initial_selection temporal_sample
  initial_result item = located item >>= λ (status, marker).
      temporal_sample (visual_sources item) 8 >>= λ fallback_selected.
      ok (result_with item status marker fallback_selected)
