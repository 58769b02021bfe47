-- ===== src/Common/Json.antt =====
-- JSON values as the worker builds them for its private payloads, `R` the type of floats. A payload
-- is a Python dict of such values; its digest and pydantic's `model_dump` are library code.
use Prim.Native.Nat.{ℕ}
use Prim.Native.String.{String}
use mathlib.Core.Bool.{Bool}
use mathlib.Core.List.{List, [], ◌∷◌}
use fireviewer_ai_worker.Common.Dict.{Dict}

mutual
  pub data Json (R : Type 0) : Type 0 where
    null : Json R
    bool : Bool → Json R
    int : ℕ → Json R
    float : R → Json R
    text : String → Json R
    array : Items R → Json R
    object : Fields R → Json R

  pub data Items (R : Type 0) : Type 0 where
    nil : Items R
    cons : Json R → Items R → Items R

  pub data Fields (R : Type 0) : Type 0 where
    end : Fields R
    field : String → Json R → Fields R → Fields R

abbrev pub Payload : Type 0 → Type 0
Payload R = Dict (Json R)

module _ {R : Type 0} where
  unfoldable pub items_of : List (Json R) → Items R
  items_of [] = nil
  items_of (x ∷ xs) = cons x (items_of xs)

  unfoldable pub fields_of : Payload R → Fields R
  fields_of [] = end
  fields_of ((k, v) ∷ d) = field k v (fields_of d)

  unfoldable pub texts : List String → Json R
  unfolding items_of
  texts xs = array (go xs)
    where
      go : List String → Items R
      go [] = nil
      go (y ∷ ys) = cons (text y) (go ys)

  unfoldable pub dict : Payload R → Json R
  unfolding fields_of
  dict d = object (fields_of d)
