-- ===== src/Retention/Consumers.antt =====
-- The consumers and the class of an artifact, described by the references that name it.
use fireviewer_ai_worker.Common.{
  leb, str_eq, eq_iff, ap, ◌∙◌, ◌≡◌, refl, String, Bool, true, false, not, ◌&&◌, ◌||◌, Option, none,
  some, List, [], ◌∷◌, arith, any, keep, nonempty, is_some, contains, map,
}
use fireviewer_ai_worker.Common.Sort.{to_set, sort_texts, text_le, sort_by, insert_by, intersection}
use fireviewer_ai_worker.Common.Strings.{text_length, occurs_in}
use fireviewer_ai_worker.Retention.{
  generic_names, needles_of, is_referenced, ArtifactClass, active_local, remote_available,
  rebuildable_cache, LocalFile, Reference, is_runtime_consumer, consumers_of, classify, first_class,
  cache_names, model_suffixes, dataset_suffixes,
}

module _ (p : String → Bool) where
  nonempty-keep : (xs : List String) → nonempty (keep p xs) ≡ any p xs
  unfolding keep any
  nonempty-keep [] = refl
  nonempty-keep (x ∷ xs) = ground (arith, nonempty-keep xs)

  any-insert_by :
      (x : String) (xs : List String) → any p (insert_by text_le x xs) ≡ (p x || any p xs)
  unfolding any insert_by
  any-insert_by x [] = refl
  any-insert_by x (y ∷ xs) = ground (arith, any-insert_by x xs)

  any-sort_texts : (xs : List String) → any p (sort_texts xs) ≡ any p xs
  unfolding any sort_by
  any-sort_texts [] = refl
  any-sort_texts (x ∷ xs) = any-insert_by x (sort_texts xs) ∙ ap (λ b. p x || b) (any-sort_texts xs)

  -- leaving out what equals a text changes nothing beside that text
  any-others :
      (x : String) (xs : List String)
      → (p x || any p (keep (λ y. not (contains y (x ∷ []))) xs)) ≡ (p x || any p xs)
  unfolding any keep contains
  any-others x [] = refl
  any-others x (y ∷ xs) = ground (arith, any-others x xs, eq_iff y x)

  any-to_set : (xs : List String) → any p (to_set xs) ≡ any p xs
  unfolding any to_set
  any-to_set [] = refl
  any-to_set (x ∷ xs) = any-others x (to_set xs) ∙ ap (λ b. p x || b) (any-to_set xs)

  any-map_relative :
      (q : Reference → Bool) (references : List Reference)
      → any p (map (λ r. r.relative) (keep q references))
        ≡ any (λ r. q r && p r.relative) references
  unfolding any keep
  any-map_relative q [] = refl
  any-map_relative q (r ∷ references) = ground (arith, any-map_relative q references)

any-same : {A : Type 0} (f g : A → Bool) (xs : List A) → ((x : A) → f x ≡ g x) → any f xs ≡ any g xs
unfolding any
any-same f g [] h = refl
any-same f g (x ∷ xs) h = ground (arith, h x, any-same f g xs h)

any-map :
    {A B : Type 0} (p : B → Bool) (f : A → B) (xs : List A)
    → any p (map f xs) ≡ any (λ x. p (f x)) xs
unfolding any
any-map p f [] = refl
any-map p f (x ∷ xs) = ground (arith, any-map p f xs)

contains-any : (x : String) (xs : List String) → contains x xs ≡ any (λ y. str_eq x y) xs
unfolding contains any
contains-any x [] = refl
contains-any x (y ∷ xs) = ground (arith, contains-any x xs)

-- the classes of what a cleanup must keep, or can build again, or fetch
abbrev is_active : ArtifactClass → Bool
is_active active_local = true
is_active _ = false

abbrev is_cache : ArtifactClass → Bool
is_cache rebuildable_cache = true
is_cache _ = false

abbrev is_remote : ArtifactClass → Bool
is_remote remote_available = true
is_remote _ = false

module _ (casefold : String → String) where
  -- a text that is long enough stands in the reference
  abbrev stands : Reference → String → Bool
  stands r text = leb 6 (text_length text) && occurs_in text r.content

  abbrev stands_there : Reference → Option String → Bool
  stands_there r none = false
  stands_there r (some text) = stands r (casefold text)

  -- Another file has the artifact's path in its text, or its name, unless that is a generic one, or
  -- its last two parts.
  unfoldable pub names : LocalFile → Reference → Bool
  unfolding contains occurs_in
  names artifact r =
      not (str_eq r.path artifact.path)
      && (stands r (casefold artifact.relative)
          || ((not (contains (casefold artifact.name) generic_names)
                && stands r (casefold artifact.name))
              || stands_there r artifact.last_two))

  is_referenced-needles_of :
      (artifact : LocalFile) (r : Reference)
      → (not (str_eq r.path artifact.path)
          && is_referenced casefold (needles_of casefold artifact) r.content)
        ≡ names artifact r
  unfolding names is_referenced needles_of any
  is_referenced-needles_of artifact r = ground arith

  pub any-consumers_of :
      (p : String → Bool) (artifact : LocalFile) (references : List Reference)
      → any p (consumers_of casefold artifact references)
        ≡ any (λ r. names artifact r && p r.relative) references
  unfolding consumers_of
  any-consumers_of p artifact references =
      any-sort_texts p _
      ∙ any-to_set p _
      ∙ any-map_relative p _ references
      ∙ any-same _ _ references
          (λ r. ap (λ b. b && p r.relative) (is_referenced-needles_of artifact r))

  pub contains-consumers_of :
      (name : String) (artifact : LocalFile) (references : List Reference)
      → contains name (consumers_of casefold artifact references)
        ≡ any (λ r. names artifact r && str_eq name r.relative) references
  contains-consumers_of name artifact references =
      contains-any name _ ∙ any-consumers_of (λ other. str_eq name other) artifact references

  -- a part of the artifact's path is a name of caches
  unfoldable pub is_cached : LocalFile → Bool
  unfolding any contains
  is_cached artifact = any (λ part. contains (casefold part) cache_names) artifact.parts

  -- a runtime source or a container file names the artifact
  unfoldable pub is_used : LocalFile → List Reference → Bool
  unfolding names is_runtime_consumer any
  is_used artifact references =
      any (λ r. names artifact r && is_runtime_consumer casefold r.relative) references

  -- the classes follow from the three conditions, in their order
  pub record IsClassified (cached used recorded : Bool) (c : ArtifactClass) : Type 0 where
    pub cache : is_cache c ≡ cached
    pub active : is_active c ≡ (not cached && used)
    pub remote : is_remote c ≡ (not cached && (not used && recorded))

  first_class-IsClassified :
      (cached used recorded model dataset : Bool)
      → IsClassified cached used recorded (first_class cached used recorded model dataset).0
  first_class-IsClassified cached used recorded model dataset = record {
    cache = ground arith;
    active = ground arith;
    remote = ground arith;
  }

  pub classify-IsClassified :
      {E : Type 0} (artifact : LocalFile) (references : List Reference) (remote : Option E)
      → IsClassified
          (is_cached artifact)
          (is_used artifact references)
          (is_some remote)
          (classify casefold artifact (consumers_of casefold artifact references) remote).0
  unfolding classify is_cached is_used intersection
  classify-IsClassified artifact references remote =
      rw
        (
          ← any-map (λ part. contains part cache_names) casefold artifact.parts,
          ← nonempty-keep (λ part. contains part cache_names) (map casefold artifact.parts),
          ← any-consumers_of (is_runtime_consumer casefold) artifact references,
          ← nonempty-keep (is_runtime_consumer casefold)
              (consumers_of casefold artifact references),
        )
        (first_class-IsClassified
          (nonempty (intersection (map casefold artifact.parts) cache_names))
          (nonempty
            (keep (is_runtime_consumer casefold) (consumers_of casefold artifact references)))
          (is_some remote) (contains (casefold artifact.suffix) model_suffixes)
          (contains (casefold artifact.suffix) dataset_suffixes))
