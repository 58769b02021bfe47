-- ===== src/Validation.antt =====
-- src/firewarning_worker/validation.py, lines 11 to 147: what a result may claim, given its input.
-- `model_dump`, the case mapping of texts, the speculative-language regex and the decimal of an
-- index are the Python libraries': a record of functions, of which nothing is assumed.
pub mod Links
use Prim.Native.Char.{code}
use fireviewer_ai_worker.Common.{
  ℕ, ◌+◌, String, Bool, true, false, not, ◌&&◌, ◌||◌, Option, none, some, List, [], ◌∷◌, ◌++◌, map,
  ◌==◌, if◌then◌else◌, is_some, contains, str_eq, str_append,
}
use fireviewer_ai_worker.Common.Exec.{
  Exception, output_validation_error, Result, ok, err, ◌>>=◌, ◌>>◌, raise_if,
}
use fireviewer_ai_worker.Common.Json.{
  Json, null, bool, int, float, text, array, object, Items, nil, cons, Fields, end, field,
}
use fireviewer_ai_worker.Contracts.{
  BatchItem, ItemResult, LocationOrigin, metadata, user_declared, explicit_source_geometry,
  human_confirmed,
}
use fireviewer_ai_worker.Contracts.Validators.{differ}
use fireviewer_ai_worker.Validation.Links.{validate_evidence_links}

pub record OutputScreen (R : Type 0) : Type 0 where
  -- result.model_dump(mode="json")
  pub dump : ItemResult R → Json R
  -- s.lower()
  pub lower : String → String
  -- FORBIDDEN_LANGUAGE.search(s) finds a match
  pub speculative : String → Bool
  -- str(n)
  pub decimal : ℕ → String

abbrev pub forbidden_keys : List String
forbidden_keys =
    "ai_estimated_location" ∷ "estimated_location" ∷ "fire_location" ∷ "inferred_location"
    ∷ "predicted_spread" ∷ "probable_location" ∷ "projection" ∷ "risk_score" ∷ "threatened_area"
    ∷ []

-- path.rsplit(".", 1)[-1], `best` being the text behind the last dot so far
unfoldable pub last_part : String → String → String
last_part best String.[] = best
last_part best (String.◌∷◌ c s) = last_part (if code c == b'.' then s else best) s

module _ {R : Type 0} (S : OutputScreen R) where
  -- _walk(value, path): the children of a value with their paths, each before its own children
  unfoldable mutual
    pub walk : Json R → String → List (String × Json R)
    walk (array xs) path = walk_items xs path 0
    walk (object fs) path = walk_fields fs path
    walk _ path = []

    pub walk_items : Items R → String → ℕ → List (String × Json R)
    walk_items nil path index = []
    walk_items (cons x xs) path index =
        let child = str_append path (str_append "[" (str_append (S.decimal index) "]")) in
        ((child, x) ∷ walk x child) ++ walk_items xs path (index + 1)

    pub walk_fields : Fields R → String → List (String × Json R)
    walk_fields end path = []
    walk_fields (field key x fs) path =
        let child = str_append path (str_append "." key) in
        ((child, x) ∷ walk x child) ++ walk_fields fs path

  abbrev is_speculative : Json R → Bool
  is_speculative (text s) = S.speculative s
  is_speculative _ = false

  -- the loop of `validate_forbidden_output`
  unfoldable pub screen : List (String × Json R) → Result (Unit {0})
  screen [] = ok tt
  screen ((path, child) ∷ rest) =
      raise_if (contains (S.lower (last_part path path)) forbidden_keys)
        (output_validation_error "forbidden output field")
      >> (raise_if (is_speculative child) (output_validation_error "forbidden speculative language")
          >> screen rest)

  -- validate_forbidden_output
  unfoldable pub validate_forbidden_output : ItemResult R → Result (Unit {0})
  unfolding screen
  validate_forbidden_output result = screen (walk (S.dump result) "output")

abbrev pub origin_value : LocationOrigin → String
origin_value metadata = "METADATA"
origin_value user_declared = "USER_DECLARED"
origin_value explicit_source_geometry = "EXPLICIT_SOURCE_GEOMETRY"
origin_value human_confirmed = "HUMAN_CONFIRMED"

-- origin == other, where `other` may be None
abbrev pub same_origin : LocationOrigin → Option LocationOrigin → Bool
same_origin origin none = false
same_origin origin (some other) = str_eq (origin_value origin) (origin_value other)

module _ {R : Type 0} where
  -- the end of `validate_item_result`; a marker's type is always "media_capture"
  unfoldable pub validate_marker : BatchItem R → ItemResult R → Result (Unit {0})
  validate_marker source result = elim result.geographic_marker_candidate [
    | none ↦ ok tt
    | some marker ↦
        raise_if (not (is_some source.metadata.latitude))
          (output_validation_error "a geographic marker requires explicit source coordinates")
        >> raise_if (not (same_origin marker.geometry_origin source.metadata.location_origin))
            (output_validation_error "marker origin must match source metadata")
  ]

  -- validate_item_result
  unfoldable pub validate_item_result :
      OutputScreen R → BatchItem R → ItemResult R → Result (Unit {0})
  unfolding validate_marker
  validate_item_result screen_of source result = do
    validate_forbidden_output screen_of result
    raise_if
        (differ (is_some source.metadata.latitude)
          result.metadata_result.capture_location_available)
        (output_validation_error "capture location availability does not match source metadata")
    validate_evidence_links source result
    validate_marker source result
