-- ===== src/Consensus/Text.antt =====
-- `_normalized_text` and `_jaccard` of consensus.py. The Unicode tables and `difflib` are the
-- Python library's: a record of functions, of which nothing is assumed.
use Prim.Native.Char.{Char, code}
use Prim.Native.String.{String, ◌++◌ as str_append}
use mathlib.Core.Bool.{Bool, ◌&&◌, ◌||◌}
use mathlib.Core.List.{List, [], ◌∷◌}
use fireviewer_ai_worker.Common.{if◌then◌else◌, leb, length, is_empty}
use fireviewer_ai_worker.Common.Float.{FloatOps}
use fireviewer_ai_worker.Common.Sort.{intersection, union}

pub record TextLibrary (R : Type 0) : Type 0 where
  -- unicodedata.normalize("NFKD", s) and s.casefold()
  pub nfkd : String → String
  pub casefold : String → String
  -- unicodedata.combining(c) is not 0
  pub combining : Char → Bool
  -- SequenceMatcher(None, s, t).ratio()
  pub ratio : String → String → R

-- [a-z0-9]
abbrev is_word : Char → Bool
is_word c = (leb b'a' (code c) && leb (code c) b'z') || (leb b'0' (code c) && leb (code c) b'9')

-- the texts that `join` puts together, each behind a separator
unfoldable pub join_after : String → List String → String
join_after separator [] = ""
join_after separator (x ∷ xs) = str_append separator (str_append x (join_after separator xs))

-- separator.join(xs)
unfoldable pub join : String → List String → String
unfolding join_after
join separator [] = ""
join separator (x ∷ xs) = str_append x (join_after separator xs)

-- A word that ends here is put in front of the words that follow.
abbrev close_word : String → List String → List String
close_word String.[] rest = rest
close_word (String.◌∷◌ c w) rest = String.◌∷◌ c w ∷ rest

-- re.findall(r"[a-z0-9]+", text), `word` being the run that has been read
unfoldable pub find_words : String → String → List String
find_words word String.[] = close_word word []
find_words word (String.◌∷◌ c s) =
    let longer = find_words (str_append word (String.◌∷◌ c String.[])) s in
    let closed = close_word word (find_words String.[] s) in if is_word c then longer else closed

module _ {R : Type 0} (T : TextLibrary R) where
  -- the characters that are not combining
  unfoldable pub without_combining : String → String
  without_combining String.[] = String.[]
  without_combining (String.◌∷◌ c s) =
      if T.combining c then without_combining s else String.◌∷◌ c (without_combining s)

  -- _normalized_text
  unfoldable pub normalized_text : String → String
  unfolding without_combining find_words join
  normalized_text value = join " " (find_words "" (without_combining (T.casefold (T.nfkd value))))

module _ {R : Type 0} ⦃F : FloatOps R⦄ where
  -- _jaccard, on sets by their members
  unfoldable pub jaccard : List String → List String → R
  unfolding intersection union
  jaccard left right =
      if is_empty left && is_empty right
      then F.of_int 1
      else if is_empty (union left right)
      then F.of_int 1
      else F.div (F.of_int (length (intersection left right)))
          (F.of_int (length (union left right)))
