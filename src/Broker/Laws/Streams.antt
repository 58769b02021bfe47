-- ===== src/Broker/Laws/Streams.antt =====
-- The loops over the chunks of a body, against the body as a whole.
use mathlib.Core.List.{append_assoc, append-nil}
use fireviewer_ai_worker.Common.{
  ℕ, ◌+◌, ◌≡◌, refl, Bool, true, false, ◌&&◌, ◌||◌, Option, none, some, List, [], ◌∷◌, ◌++◌, arith,
  ltb, leb, length, length-append, starts_with, if◌then◌else◌,
}
use fireviewer_ai_worker.Common.Exec.{Exception, broker_policy_error, Result, ok, err}
use fireviewer_ai_worker.Broker.{Bytes, BrokerPolicy, TextLibrary, Response}
use fireviewer_ai_worker.Broker.Guard.{read_chunks, response_metadata}
use fireviewer_ai_worker.Broker.Media.{
  Stream, retain_chunk, read_media, media_result, declared_length, exceeds, stream_media,
}

-- the body of a response
unfoldable pub joined : List Bytes → Bytes
joined [] = []
joined (chunk ∷ chunks) = chunk ++ joined chunks

abbrev pub ends_as : {A : Type 0} → A → Option Exception → Result A
ends_as a none = ok a
ends_as a (some e) = err e

abbrev pub too_large : {A : Type 0} → Result A
too_large = err (broker_policy_error "broker_response_too_large")

-- a body that is read in chunks is the body within the limit
read_chunks-from :
    (limit size : ℕ) (chunks : List Bytes) (broken : Option Exception)
    → ltb limit size ≡ false
    → read_chunks limit size chunks broken ≡ (
        if ltb limit (size + length (joined chunks))
        then too_large
        else ends_as (joined chunks) broken)
unfolding read_chunks joined
read_chunks-from limit size [] none h = ground arith
read_chunks-from limit size [] (some e) h = ground arith
read_chunks-from limit size (chunk ∷ chunks) none h = ground (
  arith,
  length-append chunk (joined chunks),
  read_chunks-from limit (size + length chunk) chunks none,
)
read_chunks-from limit size (chunk ∷ chunks) (some e) h = ground (
  arith,
  length-append chunk (joined chunks),
  read_chunks-from limit (size + length chunk) chunks (some e),
)

pub read_chunks-eq :
    (limit : ℕ) (chunks : List Bytes) (broken : Option Exception)
    → read_chunks limit 0 chunks broken
      ≡ (if ltb limit (length (joined chunks)) then too_large else ends_as (joined chunks) broken)
read_chunks-eq limit chunks broken = ground (arith, read_chunks-from limit 0 chunks broken)

-- what is retained of a body: nothing where nothing is, or where it is too long
abbrev retained : ℕ → ℕ → Bytes → Option Bytes → Option Bytes
retained maximum size body none = none
retained maximum size body (some kept) =
    if leb (size + length body) maximum then some (kept ++ body) else none

-- while something is retained, the stream has fit
abbrev HasFit : ℕ → ℕ → Option Bytes → Type 0
HasFit maximum size none = Unit
HasFit maximum size (some kept) = leb size maximum ≡ true

abbrev whole : Stream → ℕ → Bytes → Stream
whole s maximum body = record {
  size = s.size + length body;
  content = s.content ++ body;
  buffered = retained maximum s.size body s.buffered;
}

retained-append :
    (maximum size : ℕ) (chunk body : Bytes) (buffered : Option Bytes)
    → retained maximum
        (size + length chunk)
        body
        (retain_chunk maximum (size + length chunk) chunk buffered)
      ≡ retained maximum size (chunk ++ body) buffered
retained-append maximum size chunk body none = refl
retained-append maximum size chunk body (some kept) =
    ground (arith, length-append chunk body, append_assoc kept chunk body)

retain_chunk-HasFit :
    (maximum size : ℕ) (chunk : Bytes) (buffered : Option Bytes)
    → HasFit maximum size (retain_chunk maximum size chunk buffered)
retain_chunk-HasFit maximum size chunk none = tt
retain_chunk-HasFit maximum size chunk (some kept) = kept_fits (leb size maximum) refl
  where
    kept_fits :
        (b : Bool)
        → leb size maximum ≡ b
        → HasFit maximum size (if b then some (kept ++ chunk) else none)
    kept_fits true h = h
    kept_fits false h = tt

retained-nil :
    (maximum size : ℕ) (buffered : Option Bytes)
    → HasFit maximum size buffered
    → buffered ≡ retained maximum size [] buffered
retained-nil maximum size none h = refl
retained-nil maximum size (some kept) h = ground (arith, append-nil kept)

whole-nil : (s : Stream) (maximum : ℕ) → HasFit maximum s.size s.buffered → s ≡ whole s maximum []
whole-nil s maximum h =
    ground (arith, append-nil s.content, retained-nil maximum s.size s.buffered h)

-- the stream behind one more chunk
abbrev fed : Stream → ℕ → Bytes → Stream
fed s maximum chunk = record {
  size = s.size + length chunk;
  content = s.content ++ chunk;
  buffered = retain_chunk maximum (s.size + length chunk) chunk s.buffered;
}

whole-append :
    (s : Stream) (maximum : ℕ) (chunk body : Bytes)
    → whole (fed s maximum chunk) maximum body ≡ whole s maximum (chunk ++ body)
whole-append s maximum chunk body = ground (
  arith,
  length-append chunk body,
  append_assoc s.content chunk body,
  retained-append maximum s.size chunk body s.buffered,
)

read_media-from :
    (limit maximum : ℕ) (s : Stream) (chunks : List Bytes) (broken : Option Exception)
    → HasFit maximum s.size s.buffered
    → ltb limit s.size ≡ false
    → read_media limit maximum s chunks broken ≡ (
        if ltb limit (s.size + length (joined chunks))
        then too_large
        else ends_as (whole s maximum (joined chunks)) broken)
unfolding read_media joined
read_media-from limit maximum s [] none fit h = ground (arith, whole-nil s maximum fit)
read_media-from limit maximum s [] (some e) fit h = ground arith
read_media-from limit maximum s (chunk ∷ chunks) none fit h = ground (
  arith,
  length-append chunk (joined chunks),
  whole-append s maximum chunk (joined chunks),
  read_media-from limit maximum (fed s maximum chunk) chunks none
      (retain_chunk-HasFit maximum (s.size + length chunk) chunk s.buffered),
)
read_media-from limit maximum s (chunk ∷ chunks) (some e) fit h = ground (
  arith,
  length-append chunk (joined chunks),
  read_media-from limit maximum (fed s maximum chunk) chunks (some e)
      (retain_chunk-HasFit maximum (s.size + length chunk) chunk s.buffered),
)

module _ (limit maximum : ℕ) (chunks : List Bytes) where
  -- the stream at the first chunk and behind the last
  abbrev opened : Bool → Stream
  opened kept = record { size = 0; content = []; buffered = if kept then some [] else none }

  abbrev closed : Bool → Stream
  closed kept = record {
    size = length (joined chunks);
    content = joined chunks;
    buffered = if kept && leb (length (joined chunks)) maximum then some (joined chunks) else none;
  }

  whole-opened : (kept : Bool) → whole (opened kept) maximum (joined chunks) ≡ closed kept
  whole-opened true = ground arith
  whole-opened false = ground arith

  read_media-opened :
      (kept : Bool) (broken : Option Exception)
      → read_media limit maximum (opened kept) chunks broken
        ≡ (if ltb limit (length (joined chunks)) then too_large else ends_as (closed kept) broken)
  read_media-opened true none = ground (
    arith,
    whole-opened true,
    read_media-from limit maximum (opened true) chunks none (ground arith),
  )
  read_media-opened true (some e) =
      ground (arith, read_media-from limit maximum (opened true) chunks (some e) (ground arith))
  read_media-opened false none =
      ground
        (arith, whole-opened false, read_media-from limit maximum (opened false) chunks none tt)
  read_media-opened false (some e) =
      ground (arith, read_media-from limit maximum (opened false) chunks (some e) tt)

branches :
    {M : Type 0} (a b : Bool) (s : Stream) (broken : Option Exception) (f : Stream → M)
    → (if a
        then too_large
        else elim (if b then too_large else ends_as s broken) [ err e ↦ err e | ok t ↦ ok (f t) ])
      ≡ (if a || b then too_large else ends_as (f s) broken)
branches true b s broken f = refl
branches false true s broken f = refl
branches false false s none f = refl
branches false false s (some e) f = refl

-- The loop over the chunks of a media body gives what the body as a whole gives: refused where it
-- is declared or found above the limit, raised where it breaks off, else hashed as a whole, and
-- retained if it is an image that fits into a memory that is not zero.
pub stream_media-IsWhole :
    (L : TextLibrary) (policy : BrokerPolicy) (maximum : ℕ) (response : Response)
    → stream_media L policy maximum response ≡ (
        let body = joined response.chunks in
        let metadata = response_metadata response in
        if exceeds policy.max_media_fetch_bytes (declared_length L response)
          || ltb policy.max_media_fetch_bytes (length body)
        then too_large
        else ends_as
            (
              record {
                metadata = metadata;
                sha256 = L.sha256_hex body;
                size_bytes = length body;
                binary_stored = false;
              },
              if (starts_with metadata.content_type "image/" && ltb 0 maximum)
                    && leb (length body) maximum
                  then some body
                  else none,
            )
            response.broken)
unfolding stream_media
stream_media-IsWhole L policy maximum response =
    rw
      (read_media-opened policy.max_media_fetch_bytes maximum response.chunks
        (starts_with (response_metadata response).content_type "image/" && ltb 0 maximum)
        response.broken)
      (branches (exceeds policy.max_media_fetch_bytes (declared_length L response))
        (ltb policy.max_media_fetch_bytes (length (joined response.chunks)))
        (closed policy.max_media_fetch_bytes maximum response.chunks
          (starts_with (response_metadata response).content_type "image/" && ltb 0 maximum))
        response.broken (media_result L (response_metadata response)))
