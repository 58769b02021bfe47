-- ===== src/Contracts/Validators.antt =====
-- The `model_validator` methods of the input and result messages of contracts.py, in the order of
-- their checks. Pydantic's own field constraints (lengths, patterns, numeric ranges) are not here.
use fireviewer_ai_worker.Common.{
  ℕ, ◌+◌, String, Bool, true, false, not, ◌&&◌, ◌||◌, Option, none, some, List, [], ◌∷◌, map, ltb,
  is_some, length, nonempty, is_unique, str_eq,
}
use fireviewer_ai_worker.Common.Exec.{value_error, Result, ◌>>◌, raise_if}
use fireviewer_ai_worker.Common.Float.{FloatOps, in_range}
use fireviewer_ai_worker.Contracts.{
  InputMetadata, DeclaredObservation, BatchItem, WorkerInput, TranscriptSegment, PixelRegion,
  MediaType, audio,
}

-- if failed: raise ValueError(message)
abbrev pub reject_if : Bool → String → Result (Unit {0})
reject_if failed message = raise_if failed (value_error message)

abbrev pub differ : Bool → Bool → Bool
differ true b = not b
differ false b = b

-- a text that Python counts as true
abbrev pub truthy : Option String → Bool
truthy none = false
truthy (some s) = not (str_eq s "")

abbrev pub is_audio : MediaType → Bool
is_audio audio = true
is_audio _ = false

module _ {R : Type 0} where
  -- InputMetadata.coordinates_are_complete_and_sourced
  unfoldable pub coordinates_are_complete_and_sourced : InputMetadata R → Result (Unit {0})
  coordinates_are_complete_and_sourced m = do
    reject_if (differ (not (is_some m.latitude)) (not (is_some m.longitude)))
        "latitude and longitude must be provided together"
    reject_if (is_some m.latitude && not (is_some m.location_origin))
        "coordinates require an explicit location_origin"
    reject_if (not (is_some m.latitude) && (is_some m.gps_accuracy_m || is_some m.location_origin))
        "location metadata requires coordinates"

  -- DeclaredObservationV2.validate_declared_observation
  unfoldable pub validate_declared_observation : DeclaredObservation R → Result (Unit {0})
  validate_declared_observation d = do
    reject_if (not d.observed_at.aware) "declared observation time must include a timezone"
    reject_if (elim d.media_captured_at [ none ↦ false | some t ↦ not t.aware ])
        "declared media capture time must include a timezone"
    reject_if (differ (not (is_some d.latitude)) (not (is_some d.longitude)))
        "declared location coordinates must be supplied together"
    reject_if (is_some d.uncertainty_m && not (is_some d.latitude))
        "declared location uncertainty requires coordinates"

  -- BatchItem.has_processable_content
  unfoldable pub has_processable_content : BatchItem R → Result (Unit {0})
  has_processable_content b = do
    reject_if
        (not (
          is_some b.working_file_url
          || nonempty b.frames
          || is_some b.audio_url
          || truthy b.article_text))
        "an item must contain at least one processable input"
    reject_if (is_audio b.media_type && not (is_some b.audio_url)) "audio items require audio_url"

  -- sum(len(item.frames) for item in items)
  unfoldable pub frame_count : List (BatchItem R) → ℕ
  frame_count [] = 0
  frame_count (b ∷ bs) = length b.frames + frame_count bs

  abbrev pub input_ids : List (BatchItem R) → List String
  input_ids = map (λ b. b.input_id)

  -- WorkerInput.input_ids_are_unique
  unfoldable pub input_ids_are_unique : WorkerInput R → Result (Unit {0})
  input_ids_are_unique w = do
    reject_if (not (is_unique (input_ids w.items))) "input_id values must be unique inside a batch"
    reject_if (ltb 256 (frame_count w.items)) "a batch may contain at most 256 extracted frames"

module _ {R : Type 0} ⦃F : FloatOps R⦄ where
  -- TranscriptSegment.end_follows_start
  unfoldable pub end_follows_start : TranscriptSegment R → Result (Unit {0})
  end_follows_start s =
      reject_if (F.le_test s.end_s s.start_s) "transcript segment end_s must be after start_s"

  -- PixelRegion.valid_bbox
  unfoldable pub valid_bbox : PixelRegion R → Result (Unit {0})
  valid_bbox p =
      let (x1, y1, x2, y2) = p.bbox_normalized in
      let unit = in_range (F.of_int 0) (F.of_int 1) in
      reject_if (not (unit x1 && (unit y1 && (unit x2 && unit y2))))
        "bbox_normalized coordinates must be between 0 and 1"
      >> reject_if (F.le_test x2 x1 || F.le_test y2 y1) "bbox_normalized must have a positive area"
