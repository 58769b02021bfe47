-- ===== src/Common/Dict.antt =====
-- Python's `dict` with text keys, in insertion order.
use Prim.Native.String.{String}
use mathlib.Core.Path.{◌≡◌, refl}
use mathlib.Core.Bool.{true}
use mathlib.Core.Option.{Option, none, some}
use mathlib.Core.List.{List, [], ◌∷◌}
use native.Mathlib.Omega.{arith}
use text.Mathlib.Text.{◌==◌ as str_eq}
use text.Mathlib.TextEquality.{eq_iff}
use fireviewer_ai_worker.Common.Tests.{if◌then◌else◌, is_some}

abbrev pub Dict {ℓ} : Type ℓ → Type ℓ
Dict V = List (String × V)

module _ {ℓ} {V : Type ℓ} where
  -- d.get(k)
  unfoldable pub lookup : String → Dict V → Option V
  lookup k [] = none
  lookup k ((j, v) ∷ d) = if str_eq j k then some v else lookup k d

  -- d[k] = v: a known key keeps its place
  unfoldable pub insert : String → V → Dict V → Dict V
  insert k v [] = (k, v) ∷ []
  insert k v ((j, w) ∷ d) = if str_eq j k then (j, v) ∷ d else (j, w) ∷ insert k v d

  -- d.pop(k, None), for the dict that is left
  unfoldable pub remove : String → Dict V → Dict V
  remove k [] = []
  remove k ((j, v) ∷ d) = let rest = remove k d in if str_eq j k then rest else (j, v) ∷ rest

  -- list(d)
  unfoldable pub keys : Dict V → List String
  keys [] = []
  keys ((k, v) ∷ d) = k ∷ keys d

  -- list(d.values())
  unfoldable pub values : Dict V → List V
  values [] = []
  values ((k, v) ∷ d) = v ∷ values d

  pub lookup-insert :
      (k j : String) (v : V) (d : Dict V)
      → lookup j (insert k v d) ≡ (if str_eq k j then some v else lookup j d)
  unfolding lookup insert
  lookup-insert key other new [] = refl
  lookup-insert key other new ((i, w) ∷ d) =
      ground (arith, eq_iff key other, eq_iff i key, eq_iff i other, lookup-insert key other new d)

  pub lookup-remove :
      (k j : String) (d : Dict V)
      → lookup j (remove k d) ≡ (if str_eq k j then none else lookup j d)
  unfolding lookup remove
  lookup-remove key other [] = ground arith
  lookup-remove key other ((i, v) ∷ d) =
      ground (arith, eq_iff key other, eq_iff i key, eq_iff i other, lookup-remove key other d)

  -- a write to a known key leaves the keys and their order alone
  pub keys-insert :
      (k : String) (v : V) (d : Dict V) → is_some (lookup k d) ≡ true → keys (insert k v d) ≡ keys d
  unfolding lookup insert keys
  keys-insert k v [] h = ground arith
  keys-insert k v ((j, w) ∷ d) h = ground (arith, keys-insert k v d)

-- what is found depends on the keys alone
pub is_some-lookup {ℓ κ} :
    {V : Type ℓ} {W : Type κ} (k : String) (d : Dict V) (e : Dict W)
    → keys d ≡ keys e
    → is_some (lookup k d) ≡ is_some (lookup k e)
unfolding lookup keys
is_some-lookup k [] [] h = refl
is_some-lookup k [] ((j, w) ∷ e) h = ground arith
is_some-lookup k ((i, v) ∷ d) [] h = ground arith
is_some-lookup k ((i, v) ∷ d) ((j, w) ∷ e) h = ground (arith, is_some-lookup k d e)
