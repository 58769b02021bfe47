-- ===== src/Common/Strings.antt =====
-- Python's text methods that the source calls with ASCII arguments, by the characters of the text.
-- Those that read the Unicode tables (`casefold`, `strip`, `split`) are parameters of their callers.
use Prim.Native.Char.{code}
use Prim.Native.Nat.{ℕ, zero, suc, ◌-◌}
use Prim.Native.String.{String, ◌++◌ as str_append}
use mathlib.Core.Bool.{Bool, true, false, ◌&&◌, ◌||◌}
use mathlib.Core.List.{List, [], ◌∷◌}
use text.Mathlib.Text.{◌==◌ as str_eq, starts_with}
use fireviewer_ai_worker.Common.Tests.{◌==◌, if◌then◌else◌}

-- not s
abbrev pub is_blank : String → Bool
is_blank String.[] = true
is_blank (String.◌∷◌ c s) = false

-- len(s)
abbrev pub text_length : String → ℕ
text_length String.[] = 0
text_length (String.◌∷◌ c s) = suc (text_length s)

-- s[:n]
abbrev pub text_take : ℕ → String → String
text_take zero s = String.[]
text_take (suc n) String.[] = String.[]
text_take (suc n) (String.◌∷◌ c s) = String.◌∷◌ c (text_take n s)

-- s.rstrip(c), the character by its code
unfoldable pub rstrip : ℕ → String → String
rstrip c String.[] = String.[]
rstrip c (String.◌∷◌ d s) =
    let rest = rstrip c s in if is_blank rest && code d == c then String.[] else String.◌∷◌ d rest

-- s.endswith(t)
unfoldable pub ends_with : String → String → Bool
ends_with String.[] t = is_blank t
ends_with (String.◌∷◌ c s) t = str_eq (String.◌∷◌ c s) t || ends_with s t

-- s.split(c, 1)[0], the character by its code
unfoldable pub before : ℕ → String → String
before c String.[] = String.[]
before c (String.◌∷◌ d s) =
    let rest = before c s in if code d == c then String.[] else String.◌∷◌ d rest

put_first : String → List String → List String
put_first s [] = s ∷ []
put_first s (t ∷ ts) = str_append s t ∷ ts

-- s.split(c), the character by its code
unfoldable pub split_on : ℕ → String → List String
unfolding put_first
split_on c String.[] = String.[] ∷ []
split_on c (String.◌∷◌ d s) =
    let rest = split_on c s in
    if code d == c then String.[] ∷ rest else put_first (String.◌∷◌ d String.[]) rest

-- " ".join(xs)
unfoldable pub join_words : List String → String
join_words [] = ""
join_words (x ∷ []) = x
join_words (x ∷ y ∷ xs) = str_append x (str_append " " (join_words (y ∷ xs)))

-- s.count(t), for a text that does not overlap itself
unfoldable pub count_text : String → String → ℕ
count_text t String.[] = 0
count_text t (String.◌∷◌ c s) =
    let rest = count_text t s in if starts_with (String.◌∷◌ c s) t then suc rest else rest

-- s.replace(t, u) behind `skip` characters that are dropped
unfoldable pub replace_from : String → String → ℕ → String → String
replace_from t u skip String.[] = String.[]
replace_from t u (suc skip) (String.◌∷◌ c s) = replace_from t u skip s
replace_from t u zero (String.◌∷◌ c s) =
    let later = replace_from t u (text_length t - 1) s in
    let rest = replace_from t u 0 s in
    if starts_with (String.◌∷◌ c s) t then str_append u later else String.◌∷◌ c rest

-- t in s
unfoldable pub occurs_in : String → String → Bool
occurs_in t String.[] = is_blank t
occurs_in t (String.◌∷◌ c s) = starts_with (String.◌∷◌ c s) t || occurs_in t s
