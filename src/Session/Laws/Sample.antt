-- ===== src/Session/Laws/Sample.antt =====
-- `_temporal_sample` of session_runner.py: what it takes of the evidence.
use native.Mathlib.Nat.{div-le_of_le-mul, lt_of_mul-lt-mul_left, mul-le-mul_right}
use native.Mathlib.Omega.{div_any}
use fireviewer_ai_worker.Common.{
  ℕ, zero, suc, ◌-◌, ◌*◌, ◌/◌, ◌%◌, ◌≤◌, ◌<◌, ◌≡◌, refl, ap, String, Bool, true, false, not,
  and-true, some, List, [], ◌∷◌, arith, ltb, leb, ◌==◌, if◌then◌else◌, all, contains, length,
  get_elem?, eq_refl, length-keep-le, Bool-cases, inl, inr,
}
use fireviewer_ai_worker.Common.Sort.{insert_by, sort_by, sort_numbers}
use fireviewer_ai_worker.Consensus.Accepted.{Returns, all-keep, all-sort_by}
use fireviewer_ai_worker.Common.Exec.{ok}
use fireviewer_ai_worker.Session.Initial.{round_div, sample_indexes, pick, temporal_sample}

rest_positive : (d r : ℕ) → 0 < d → ltb (2 * r) d ≡ false → 0 < r
rest_positive d r h e = ground arith

round_div-le : (a d n : ℕ) → 0 < d → a ≤ d * n → round_div a d ≤ n
unfolding round_div
round_div-le a d n positive h =
    let quotient = div-le_of_le-mul d {m = a} {n = n} h in
    let parts = div_any a d in
    elim (Bool-cases (ltb (2 * (a % d)) d)) [
      | inl below ↦ ground (arith, quotient)
      | inr above ↦ ground (
        arith,
        lt_of_mul-lt-mul_left d {m = a / d} {n = n}
            (omega (arith, parts, h, rest_positive d (a % d) positive above)),
      )
    ]

-- every index names an element
sample_indexes-all :
    (n limit count : ℕ)
    → 2 ≤ limit
    → limit < n
    → count ≤ limit
    → all (λ i. ltb i n) (sample_indexes n limit count) ≡ true
unfolding sample_indexes all
sample_indexes-all n limit zero hl hn hc = refl
sample_indexes-all n limit (suc position) hl hn hc =
    let index = round_div (position * (n - 1)) (limit - 1) in
    let bound =
      round_div-le (position * (n - 1)) (limit - 1) (n - 1) (omega arith)
        (mul-le-mul_right (n - 1) (omega arith)) in
    let later = sample_indexes-all n limit position hl hn (omega arith) in
    ground (
      arith,
      bound,
      all-keep (λ i. ltb i n) (λ i. not (i == index)) (sample_indexes n limit position) later,
    )

sample_indexes-length : (n limit count : ℕ) → length (sample_indexes n limit count) ≤ count
unfolding sample_indexes
sample_indexes-length n limit zero = omega arith
sample_indexes-length n limit (suc position) = omega (
  arith,
  sample_indexes-length n limit position,
  length-keep-le (λ i. not (i == round_div (position * (n - 1)) (limit - 1)))
      (sample_indexes n limit position),
)

insert_by-length : (x : ℕ) (xs : List ℕ) → length (insert_by leb x xs) ≡ suc (length xs)
unfolding insert_by
insert_by-length x [] = refl
insert_by-length x (y ∷ ys) = ground (arith, insert_by-length x ys)

sort_numbers-length : (xs : List ℕ) → length (sort_numbers xs) ≡ length xs
unfolding sort_by
sort_numbers-length [] = refl
sort_numbers-length (x ∷ xs) =
    omega (arith, insert_by-length x (sort_numbers xs), sort_numbers-length xs)

get_elem?-contains :
    (ids : List String) (i : ℕ) (x : String) → get_elem? ids i ≡ some x → contains x ids ≡ true
unfolding contains
get_elem?-contains [] i x h = ground arith
get_elem?-contains (y ∷ ys) zero x h = ground (arith, eq_refl x)
get_elem?-contains (y ∷ ys) (suc i) x h = ground (arith, get_elem?-contains ys i x)

get_elem?-IsThere :
    (ids : List String) (i : ℕ)
    → ltb i (length ids) ≡ true
    → (x : String) × (get_elem? ids i ≡ some x)
get_elem?-IsThere [] i h = ground arith
get_elem?-IsThere (y ∷ ys) zero h = (y, refl)
get_elem?-IsThere (y ∷ ys) (suc i) h = get_elem?-IsThere ys i (ground arith)

-- a list of the ids, of the length
record IsChoice (ids : List String) (count : ℕ) (sample : List String) : Type 0 where
  pub counted : length sample ≡ count
  pub members : all (λ x. contains x ids) sample ≡ true

pick-found :
    (ids : List String) (i : ℕ) (is : List ℕ) (x : String) (sample : List String)
    → get_elem? ids i ≡ some x
    → pick ids is ≡ ok sample
    → pick ids (i ∷ is) ≡ ok (x ∷ sample)
unfolding pick
pick-found ids i is x sample found picked = ground arith

-- indexes in range are looked up without an exception
pick-IsChoice :
    (ids : List String) (is : List ℕ)
    → all (λ i. ltb i (length ids)) is ≡ true
    → (sample : List String) × (pick ids is ≡ ok sample) × IsChoice ids (length is) sample
unfolding pick all
pick-IsChoice ids [] h = ([], refl, record { counted = refl; members = refl })
pick-IsChoice ids (i ∷ is) h =
    let (below, more) = and-true (ltb i (length ids)) (all (λ j. ltb j (length ids)) is) h in
    let (x, found) = get_elem?-IsThere ids i below in
    let (sample, picked, choice) = pick-IsChoice ids is more in
    (
      x ∷ sample,
      pick-found ids i is x sample found picked,
      record {
        counted = ap suc choice.counted;
        members = ground (arith, get_elem?-contains ids i x found, choice.members);
      },
    )

all-contains_more :
    (x : String) (ids xs : List String)
    → all (λ y. contains y ids) xs ≡ true
    → all (λ y. contains y (x ∷ ids)) xs ≡ true
unfolding all contains
all-contains_more x ids [] h = refl
all-contains_more x ids (y ∷ ys) h = ground (arith, all-contains_more x ids ys)

all-contains_self : (ids : List String) → all (λ y. contains y ids) ids ≡ true
unfolding all contains
all-contains_self [] = refl
all-contains_self (x ∷ ids) =
    ground (arith, eq_refl x, all-contains_more x ids ids (all-contains_self ids))

-- at most `limit` of the ids, and all of them where that is no more
pub record IsSample (ids : List String) (limit : ℕ) (sample : List String) : Type 0 where
  pub at_most : leb (length sample) limit ≡ true
  pub members : all (λ x. contains x ids) sample ≡ true
  pub few_kept : (if leb (length ids) limit then sample else ids) ≡ ids

pick-IsSample :
    (ids : List String) (limit : ℕ) (is : List ℕ)
    → leb (length ids) limit ≡ false
    → length is ≤ limit
    → all (λ i. ltb i (length ids)) is ≡ true
    → Returns (IsSample ids limit) (pick ids is)
pick-IsSample ids limit is long few h =
    let (sample, picked, choice) = pick-IsChoice ids is h in
    rw picked (record {
      at_most = ground (arith, choice.counted);
      members = choice.members;
      few_kept = ground arith;
    })

-- With a limit of at least one, the temporal sample returns, so that no index is out of range. It
-- has at most that many ids, all of them of the evidence, and is all of the evidence where that is
-- no more than the limit.
pub temporal_sample-IsSample :
    (ids : List String) (limit : ℕ)
    → 1 ≤ limit
    → Returns (IsSample ids limit) (temporal_sample ids limit)
unfolding temporal_sample all
temporal_sample-IsSample ids limit h = elim (Bool-cases (leb (length ids) limit)) [
  | inl few ↦
      rw few (record { at_most = few; members = all-contains_self ids; few_kept = ground arith })
  | inr long ↦ rw long (longer (limit == 1) refl long)
]
  where
    indexes : List ℕ
    indexes = sample_indexes (length ids) limit limit

    longer :
        (single : Bool)
        → (limit == 1) ≡ single
        → leb (length ids) limit ≡ false
        → Returns
            (IsSample ids limit)
            (if single then pick ids (length ids / 2 ∷ []) else pick ids (sort_numbers indexes))
    longer true e long =
        pick-IsSample ids limit (length ids / 2 ∷ []) long h
          (ground (arith, div_any (length ids) 2))
    longer false e long =
        pick-IsSample ids limit (sort_numbers indexes) long
          (omega
            (arith, sort_numbers-length indexes, sample_indexes-length (length ids) limit limit))
          (ground (
            arith,
            sample_indexes-all (length ids) limit limit,
            all-sort_by leb (λ i. ltb i (length ids)) indexes,
          ))
