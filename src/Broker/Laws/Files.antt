-- ===== src/Broker/Laws/Files.antt =====
-- The file of materialize_transient_file: it is there exactly if it is verified.
use fireviewer_ai_worker.Common.{
  ℕ, ◌+◌, ◌≡◌, refl, String, Bool, true, false, not, ◌||◌, Option, none, some, List, [], ◌∷◌, ◌++◌,
  arith, str_eq, ltb, ◌==◌, length, length-append, is_some, if◌then◌else◌, eq_iff, inl, inr,
  Option-cases,
}
use fireviewer_ai_worker.Common.Calls.{
  ask, ◌>>=◌, ◌>>◌, raise_when, Leads, Leads-pure, Leads-raise, Leads-if, Leads-bind, Leads-catch,
  Leads-after, Leads-lift_bind, Leads-guard, Keeps-ask, Ends,
}
use fireviewer_ai_worker.Common.Dict.{Dict, lookup, insert, remove, lookup-insert, lookup-remove}
use fireviewer_ai_worker.Common.Exec.{Exception, other_error, ok, err}
use fireviewer_ai_worker.Common.Strings.{text_length}
use fireviewer_ai_worker.Broker.{Bytes, BrokerPolicy, TextLibrary, Values, Outside, Network}
use fireviewer_ai_worker.Broker.Policy.{get_text, get_bool}
use fireviewer_ai_worker.Broker.Guard.{Net, forbid, content_type_of}
use fireviewer_ai_worker.Broker.Media.{
  policy_failure, unlink, create_file, append_file, write_chunks, Expectation, Materialized,
  download, verify, materialize, materialize_transient_file, differs, declared_length,
}
use fireviewer_ai_worker.Broker.Laws.Quiet.{guard_url-OnFiles, open_stream-OnFiles}

module _ (path : String) (before : Dict Bytes) where
  -- the files are those of before
  abbrev pub AreSame : Dict Bytes → Type 0
  AreSame files = (p : String) → lookup p files ≡ lookup p before

  -- they are, but for the file at the path
  abbrev pub AreBut : Option Bytes → Dict Bytes → Type 0
  AreBut held files =
      (p : String) → lookup p files ≡ (if str_eq path p then held else lookup p before)

  -- a file of which nothing is known
  abbrev AreTouched : Outside → Type 0
  AreTouched o = (held : Option Bytes) × AreBut held o.files

  insert-AreBut :
      (held : Option Bytes) (content : Bytes) (files : Dict Bytes)
      → AreBut held files
      → AreBut (some content) (insert path content files)
  insert-AreBut held content files h p = ground (arith, lookup-insert path p content files, h p)

  remove-AreSame :
      (held : Option Bytes) (files : Dict Bytes)
      → lookup path before ≡ none
      → AreBut held files
      → AreSame (remove path files)
  remove-AreSame held files absent h p =
      ground (arith, lookup-remove path p files, h p, eq_iff path p)

  AreSame-AreBut :
      (files : Dict Bytes) → lookup path before ≡ none → AreSame files → AreBut none files
  AreSame-AreBut files absent h p = ground (arith, h p, eq_iff path p)

  module _ (N : Network) where
    append-Ends :
        (written chunk : Bytes) (o : Outside) (e : Option Exception)
        → AreBut (some written) o.files
        → Ends {A = Unit {0}} AreTouched
            (λ _ o. AreBut (some (written ++ chunk)) o.files)
            (elim e [
              | none ↦ (ok tt, record o { files = insert path (written ++ chunk) o.files })
              | some x ↦ (err x, o)
            ])
    append-Ends written chunk o none h = insert-AreBut (some written) (written ++ chunk) o.files h
    append-Ends written chunk o (some x) h = (some written, h)

    write_chunks-Leads :
        (limit expected size : ℕ) (written : Bytes) (chunks : List Bytes)
        (broken : Option Exception)
        → size ≡ length written
        → Leads
            (λ o. AreBut (some written) o.files)
            AreTouched
            (λ (total, content) o. (total ≡ length content) × AreBut (some content) o.files)
            (write_chunks N path limit expected size written chunks broken)
    unfolding write_chunks
    write_chunks-Leads limit expected size written [] none e = Leads-pure _ λ o h. (e, h)
    write_chunks-Leads limit expected size written [] (some x) e =
        Leads-raise _ λ o h. (some written, h)
    write_chunks-Leads limit expected size written (chunk ∷ chunks) broken e =
        Leads-guard (ltb limit (size + length chunk) || ltb expected (size + length chunk)) _ _
          (λ o h. (some written, h))
          λ _.
            Leads-bind (append_file N path written chunk) _
              (record { at = λ o h. append-Ends written chunk o (N.write_fails o) h })
              λ _.
                write_chunks-Leads limit expected (size + length chunk) (written ++ chunk) chunks
                  broken (omega (arith, length-append written chunk))

  create-Ends :
      (o : Outside) (held : Option Bytes)
      → lookup path before ≡ none
      → AreSame o.files
      → Ends {A = Unit {0}} AreTouched
          (λ _ o. AreBut (some []) o.files)
          (elim held [
            | none ↦ (ok tt, record o { files = insert path [] o.files })
            | some content ↦ (err (other_error "FileExistsError"), o)
          ])
  create-Ends o none absent h = insert-AreBut none [] o.files (AreSame-AreBut o.files absent h)
  create-Ends o (some content) absent h = (none, AreSame-AreBut o.files absent h)

-- the file and its expectation agree, and the result names them
abbrev pub IsVerified : TextLibrary → Expectation → Dict Bytes → Materialized → Dict Bytes → Type 0
IsVerified L x before m files =
    (content : Bytes) × AreBut x.destination before (some content) files
    × (length content ≡ x.expected_size_bytes)
    × (str_eq (L.sha256_hex content) x.expected_sha256 ≡ true)
    × (m.size_bytes ≡ length content)

module _ (L : TextLibrary) (N : Network) (policy : BrokerPolicy) (x : Expectation)
    (before : Dict Bytes) where
  abbrev Same : Outside → Type 0
  Same o = AreSame x.destination before o.files

  download-Leads :
      (url : String)
      → lookup x.destination before ≡ none
      → Leads Same
          (AreTouched x.destination before)
          (λ (size, content) o.
            (size ≡ length content) × AreBut x.destination before (some content) o.files)
          (download L N url policy x)
  unfolding download
  download-Leads url absent =
      Leads-bind _ _
        (Leads-after (open_stream-OnFiles L N (AreSame x.destination before) "GET" url) touched
          λ _ o h. h)
        λ response.
          Leads-guard (not (str_eq (content_type_of response) x.expected_content_type)) _ _ touched
            λ _.
              Leads-guard (differs x.expected_size_bytes (declared_length L response)) _ _ touched
                λ _.
                  Leads-bind (create_file x.destination) _
                    (record {
                      at = λ o h.
                          create-Ends x.destination before o (lookup x.destination o.files) absent
                            h;
                    })
                    λ _.
                      write_chunks-Leads x.destination before N policy.max_media_fetch_bytes
                        x.expected_size_bytes 0 [] response.chunks response.broken refl
    where
      touched : (o : Outside) → Same o → AreTouched x.destination before o
      touched o h = (none, AreSame-AreBut x.destination before o.files absent h)

  verify-Leads :
      (url : String) (size : ℕ) (content : Bytes)
      → lookup x.destination before ≡ none
      → Leads
          (λ o. (size ≡ length content) × AreBut x.destination before (some content) o.files)
          Same
          (λ m o. IsVerified L x before m o.files)
          (verify L N url x size content)
  unfolding verify
  verify-Leads url size content absent =
      Leads-if (not (size == x.expected_size_bytes)) _ _ (λ _. removes _)
        λ same_size.
          Leads-if (not (str_eq (L.sha256_hex content) x.expected_sha256)) _ _ (λ _. removes _)
            λ same_digest.
              Leads-pure _ λ o (e, h). (content, h, ground arith, ground arith, ground arith)
    where
      removes :
          (message : String)
          → Leads
              (λ o. (size ≡ length content) × AreBut x.destination before (some content) o.files)
              Same
              (λ m o. IsVerified L x before m o.files)
              (unlink x.destination >> forbid message)
      removes message =
          Leads-bind (unlink x.destination) _
            (record {
              at = λ o (e, h). remove-AreSame x.destination before (some content) o.files absent h;
            })
            λ _. Leads-raise _ λ o h. h

  materialize-Leads :
      (url : String)
      → lookup x.destination before ≡ none
      → Leads Same Same (λ m o. IsVerified L x before m o.files) (materialize L N url policy x)
  unfolding materialize
  materialize-Leads url absent =
      Leads-bind _ _
        (Leads-catch (download L N url policy x) _ (download-Leads url absent) λ e.
          Leads-bind (unlink x.destination) _
            (record {
              at = λ o (held, h). remove-AreSame x.destination before held o.files absent h;
            })
            λ _. Leads-raise e λ o h. h)
        λ (size, content). verify-Leads url size content absent

  -- the check of the destination, and what follows it
  taken-Leads :
      {A : Type 0} {P : A → Outside → Type 0} (unusable : Bool) (message : String) (k : Net A)
      → Leads
          (λ o. (unusable ≡ true) × Same o)
          Same
          P
          (raise_when unusable (policy_failure message) >> k)
  unfolding ◌>>=◌
  taken-Leads true message k = record { at = λ o (e, h). h }
  taken-Leads false message k = record { at = λ o (e, h). absurd (ground arith) }

  module _ (url : String) where
    abbrev usable : Net Bool
    usable =
        ask (λ o.
          ok (is_some (lookup x.destination o.files) || not (N.parent_is_dir o x.destination)))

    abbrev destined : Bool → Net Materialized
    destined unusable =
        raise_when unusable (policy_failure "broker_transient_destination_invalid")
        >> materialize L N url policy x

    free-Leads :
        lookup x.destination before ≡ none
        → Leads Same Same (λ m o. IsVerified L x before m o.files) (usable >>= destined)
    free-Leads absent =
        Leads-bind _ _ (Keeps-ask _)
          λ unusable. Leads-guard unusable _ _ (λ o h. h) λ _. materialize-Leads url absent

    held-Leads :
        (content : Bytes)
        → lookup x.destination before ≡ some content
        → Leads Same Same (λ m o. IsVerified L x before m o.files) (usable >>= destined)
    held-Leads content present =
        Leads-bind usable destined (record { at = λ o h. (ground (arith, h x.destination), h) })
          λ unusable. taken-Leads unusable _ _

    destined-Leads : Leads Same Same (λ m o. IsVerified L x before m o.files) (usable >>= destined)
    destined-Leads = elim (Option-cases (lookup x.destination before)) [
      | inl absent ↦ free-Leads absent
      | inr (content, present) ↦ held-Leads content present
    ]

-- If the call returns, the destination holds a content of the expected size and digest, which the
-- result names, and the other files are as before; if it raises, all files are as before.
pub materialize_transient_file-IsVerified :
    (L : TextLibrary) (N : Network) {V : Type 0} (values : Values V) (message : Dict V)
    (policy : BrokerPolicy) (x : Expectation) (o : Outside)
    → Ends
        (λ later. AreSame x.destination o.files later.files)
        (λ m later. IsVerified L x o.files m later.files)
        (materialize_transient_file L N values message policy x o)
unfolding materialize_transient_file
materialize_transient_file-IsVerified L N values message policy x o = run.at o λ p. refl
  where
    run :
        Leads
          (λ later. AreSame x.destination o.files later.files)
          (λ later. AreSame x.destination o.files later.files)
          (λ m later. IsVerified L x o.files m later.files)
          (materialize_transient_file L N values message policy x)
    run =
        Leads-lift_bind _ _ (λ o h. h)
          λ arguments _.
            Leads-guard (get_bool values "store" arguments) _ _ (λ o h. h)
              λ _.
                Leads-guard
                  (not (ltb 0 x.expected_size_bytes)
                    || ltb policy.max_media_fetch_bytes x.expected_size_bytes
                    || not (text_length x.expected_sha256 == 64))
                  _ _ (λ o h. h)
                  λ _.
                    Leads-bind _ _
                      (guard_url-OnFiles L N (AreSame x.destination o.files)
                        (get_text values "url" arguments) policy.allowed_domains)
                      λ url. destined-Leads L N policy x o.files url
