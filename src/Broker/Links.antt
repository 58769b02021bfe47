-- ===== src/Broker/Links.antt =====
-- research_broker.py, lines 47 to 147: _LinkParser, fed with the tags and texts of a page, in order.
use fireviewer_ai_worker.Common.{
  String, Bool, false, not, ◌&&◌, ◌||◌, Option, none, some, List, [], ◌∷◌, ◌++◌, any, contains,
  str_eq, if◌then◌else◌,
}
use fireviewer_ai_worker.Common.Dict.{Dict, lookup, insert}
use fireviewer_ai_worker.Common.Exec.{Result, ok, ◌>>=◌}
use fireviewer_ai_worker.Common.Strings.{
  is_blank, text_take, before, split_on, join_words, ends_with,
}
use fireviewer_ai_worker.Broker.{TextLibrary, HtmlEvent, start_tag, data_text, end_tag}

-- {"url": …, "title": …}
pub record Link : Type 0 where
  pub url : String
  pub title : String

pub record LinkParser : Type 0 where
  pub base_url : String
  pub links : List Link
  pub media_links : List String
  pub metadata : Dict String
  pub href : Option String
  pub text : List String

-- _LinkParser(base_url)
abbrev pub new_link_parser : String → LinkParser
new_link_parser base = record {
  base_url = base;
  links = [];
  media_links = [];
  metadata = [];
  href = none;
  text = [];
}

abbrev media_keys : List String
media_keys =
    "og:image" ∷ "og:image:url" ∷ "og:image:secure_url" ∷ "twitter:image" ∷ "twitter:image:src"
    ∷ "og:video" ∷ "og:video:url" ∷ "og:video:secure_url" ∷ "twitter:player:stream" ∷ "og:audio"
    ∷ "og:audio:url" ∷ "og:audio:secure_url" ∷ []

abbrev media_endings : List String
media_endings =
    ".avif" ∷ ".jpeg" ∷ ".jpg" ∷ ".png" ∷ ".webp" ∷ ".m4a" ∷ ".mp3" ∷ ".mp4" ∷ ".mov" ∷ ".wav"
    ∷ ".webm" ∷ []

-- a or b, where None and the empty text count as false
abbrev truthy_or : Option String → Option String → Option String
truthy_or none b = b
truthy_or (some a) b = if is_blank a then b else some a

-- metadata.setdefault(key, content)
unfoldable pub set_default : String → String → Dict String → Dict String
unfolding lookup insert
set_default key content d = elim (lookup key d) [ none ↦ insert key content d | some old ↦ d ]

module _ (L : TextLibrary) where
  -- the dict of the attributes that have a value
  unfoldable pub attributes : List (String × Option String) → Dict String → Dict String
  unfolding insert
  attributes [] made = made
  attributes ((key, none) ∷ more) made = attributes more made
  attributes ((key, some value) ∷ more) made = attributes more (insert (L.casefold key) value made)

  -- _LinkParser._media
  unfoldable pub add_media : Option String → LinkParser → Result LinkParser
  add_media none p = ok p
  add_media (some value) p =
      if is_blank value
      then ok p
      else (L.urljoin p.base_url value >>= λ joined.
          ok (record p { media_links = p.media_links ++ (joined ∷ []) }))

  -- the loop of _LinkParser._srcset
  unfoldable pub add_sources : List String → LinkParser → Result LinkParser
  unfolding add_media before
  add_sources [] p = ok p
  add_sources (candidate ∷ more) p =
      add_media (some (before b' ' (L.strip candidate))) p >>= λ q. add_sources more q

  -- _LinkParser._srcset
  unfoldable pub add_srcset : Option String → LinkParser → Result LinkParser
  unfolding add_sources split_on
  add_srcset none p = ok p
  add_srcset (some value) p = if is_blank value then ok p else add_sources (split_on b',' value) p

  -- a `meta` tag
  unfoldable pub handle_meta : Dict String → LinkParser → Result LinkParser
  unfolding lookup set_default add_media contains
  handle_meta values p = elim (truthy_or (lookup "property" values) (lookup "name" values)) [
    | none ↦ ok p
    | some name ↦ elim (lookup "content" values) [
      | none ↦ ok p
      | some content ↦
          (let key = L.casefold name in
            let q = record p { metadata = set_default key content p.metadata } in
            if is_blank key || is_blank content
            then ok p
            else if contains key media_keys
            then add_media (some content) q
            else ok q)
    ]
  ]

  -- an `img` tag
  unfoldable pub handle_img : Dict String → LinkParser → Result LinkParser
  unfolding lookup add_media add_srcset
  handle_img values p =
      add_media
        (truthy_or (lookup "data-src" values) (
          truthy_or (lookup "data-lazy-src" values)
            (truthy_or (lookup "data-original" values) (lookup "src" values))))
        p
      >>= λ q. add_srcset (truthy_or (lookup "data-srcset" values) (lookup "srcset" values)) q

  -- an `a` tag: a link to a media file is kept as media too
  unfoldable pub handle_anchor : Option String → LinkParser → Result LinkParser
  unfolding any ends_with add_media
  handle_anchor none p = ok p
  handle_anchor (some href) p =
      if is_blank href
      then ok p
      else (L.urlsplit href >>= λ parts.
          (let path = L.casefold parts.path in
            if any (ends_with path) media_endings then add_media (some href) p else ok p)
          >>= λ q. L.urljoin p.base_url href >>= λ joined.
              ok (record q { href = some joined; text = [] }))

  abbrev is_player : String → Bool
  is_player tag = str_eq tag "video" || str_eq tag "audio" || str_eq tag "source"

  -- link.rel in {"image_src", "preload"}
  abbrev is_media_relation : Option String → Bool
  is_media_relation none = false
  is_media_relation (some rel) =
      str_eq (L.casefold rel) "image_src" || str_eq (L.casefold rel) "preload"

  -- _LinkParser.handle_starttag, the tag and the attributes normalized
  unfoldable pub handle_tag : String → Dict String → LinkParser → Result LinkParser
  unfolding lookup handle_meta handle_img handle_anchor add_media
  handle_tag tag values p =
      if str_eq tag "meta"
      then handle_meta values p
      else if is_player tag
      then (add_media (lookup "src" values) p >>= λ q.
          if str_eq tag "video" then add_media (lookup "poster" values) q else ok q)
      else if str_eq tag "img"
      then handle_img values p
      else if str_eq tag "link" && is_media_relation (lookup "rel" values)
      then add_media (lookup "href" values) p
      else if not (str_eq tag "a")
      then ok p
      else handle_anchor (lookup "href" values) p

  -- _LinkParser.handle_data
  unfoldable pub handle_data : String → LinkParser → LinkParser
  unfolding join_words
  handle_data words p =
      let normalized = join_words (L.split_words words) in
      elim p.href [
        | none ↦ p
        | some href ↦
            if is_blank href || is_blank normalized
            then p
            else record p { text = p.text ++ (normalized ∷ []) }
      ]

  -- _LinkParser.handle_endtag
  unfoldable pub handle_endtag : String → LinkParser → LinkParser
  unfolding join_words
  handle_endtag tag p = elim p.href [
    | none ↦ p
    | some href ↦ if not (str_eq (L.casefold tag) "a") || is_blank href then p else record p {
      links = p.links ++ (record { url = href; title = text_take 500 (join_words p.text) } ∷ []);
      href = none;
      text = [];
    }
  ]

  -- parser.feed(text)
  unfoldable pub feed : List HtmlEvent → LinkParser → Result LinkParser
  unfolding handle_tag attributes handle_data handle_endtag
  feed [] p = ok p
  feed (start_tag tag attrs ∷ more) p =
      handle_tag (L.casefold tag) (attributes attrs []) p >>= λ q. feed more q
  feed (data_text words ∷ more) p = feed more (handle_data words p)
  feed (end_tag tag ∷ more) p = feed more (handle_endtag tag p)
