-- ===== src/Tests/Broker.antt =====
-- A broker with one control token, a policy for one news site and one search provider, and a network
-- that answers every request with a small page. A value is a text, and a dict or a number by its name.
use fireviewer_ai_worker.Common.{
  ◌≤◌, ℕ, ◌≡◌, String, true, false, ◌&&◌, ◌||◌, none, some, List, [], ◌∷◌, str_eq, starts_with, ltb,
  leb, length, arith, if◌then◌else◌,
}
use fireviewer_ai_worker.Common.Calls.{Ends}
use fireviewer_ai_worker.Common.Dict.{Dict}
use fireviewer_ai_worker.Common.Exec.{Result, ok, err, value_error}
use fireviewer_ai_worker.Common.Int.{pos}
use fireviewer_ai_worker.Broker.{
  BrokerPolicy, UrlParts, TextLibrary, Values, start_tag, data_text, end_tag, Response, Outside,
  Network,
}
use fireviewer_ai_worker.Broker.Guard.{response_metadata}
use fireviewer_ai_worker.Broker.Links.{Link}
use fireviewer_ai_worker.Broker.Media.{
  Expectation, materialize_transient_file, stream_media, exceeds, declared_length,
}
use fireviewer_ai_worker.Broker.Fetch.{search_links}
use fireviewer_ai_worker.Broker.Server.{search, act, new_broker, serve_all}
use fireviewer_ai_worker.Broker.Laws.Allowed.{Traffic}
use fireviewer_ai_worker.Broker.Laws.Actions.{act-IsContained}
use fireviewer_ai_worker.Broker.Laws.Sessions.{AreTracked, serve_all-IsAuthorized}
use fireviewer_ai_worker.Broker.Laws.Changes.{all_authorized, note_all}
use fireviewer_ai_worker.Broker.Laws.Limits.{AreLimited, serve_all-AreLimited}
use fireviewer_ai_worker.Broker.Laws.Streams.{joined, too_large, ends_as, stream_media-IsWhole}
use fireviewer_ai_worker.Broker.Laws.Files.{
  AreSame, IsVerified, materialize_transient_file-IsVerified,
}
use fireviewer_ai_worker.Broker.Laws.Pages.{Pages, page_of-AreWhole}
use fireviewer_ai_worker.Broker.Laws.Search.{IsListing, search_links-IsListing}

abbrev dict_named : String → Result (Dict String)
dict_named name =
    if str_eq name "policy"
    then ok (
        ("allowed_domains", "news.org")
        ∷ ("search_templates", "templates")
        ∷ ("max_fetch_bytes", "65536")
        ∷ ("timeout_seconds", "10")
        ∷ [])
    else if str_eq name "templates"
    then ok (("find.org", "https://find.org/?q={query}") ∷ [])
    else if str_eq name "arguments"
    then ok (("domain", "find.org") ∷ ("query", "fire") ∷ ("url", "https://news.org/fire") ∷ [])
    else err (value_error "no dict")

abbrev words : Values String
words = record {
  str_of = λ s. s;
  int_of = λ s.
      if str_eq s "65536"
      then ok (pos 65536)
      else if str_eq s "10"
      then ok (pos 10)
      else err (value_error "no int");
  bool_of = λ s. str_eq s "True";
  dict_of = dict_named;
  items_of = λ s. ok (s ∷ []);
}

abbrev parts_of : String → UrlParts
parts_of url = record {
  scheme = "https";
  hostname = some (if starts_with url "https://news.org" then "news.org" else "find.org");
  username = none;
  password = none;
  port = ok none;
  path = "/";
  query = "";
  fragment = "";
}

abbrev plain_texts : TextLibrary
plain_texts = record {
  casefold = λ s. s;
  strip = λ s. s;
  split_words = λ s. s ∷ [];
  urlsplit = λ url. ok (parts_of url);
  urljoin = λ base url. ok url;
  quote_plus = λ s. s;
  unquote = λ s. s;
  parse_qs = λ s. ok [];
  html_events = λ s.
      start_tag "a" (("href", some "https://news.org/fire") ∷ [])
      ∷ data_text "Fire"
      ∷ end_tag "a"
      ∷ [];
  decode = λ content. "page";
  sha256_hex = λ content. "0123456789abcdef0123456789abcdef0123456789abcdef0123456789abcdef";
  suffix = λ path. ".png";
  guess_extension = λ kind. none;
  decimal = λ text. none;
}

abbrev picture : Response
picture = record {
  status_code = 200;
  headers = ("content-type", "image/png") ∷ [];
  url = "https://news.org/fire";
  chunks = (1 ∷ 2 ∷ []) ∷ (3 ∷ []) ∷ [];
  broken = none;
}

abbrev small_network : Network
small_network = record {
  resolve = λ o host. ok (some ("93.184.216.34" ∷ []));
  is_global = λ address. ok true;
  respond = λ o method url. ok picture;
  raise_for_status = λ response. none;
  answer_grant = λ o url. ok picture;
  client_token = λ response. ok none;
  upload_file = λ o path content. ok path;
  temporary_name = λ o suffix. "/tmp/upload";
  write_fails = λ o. none;
  parent_is_dir = λ o path. true;
  token_urlsafe = λ o. "session";
}

abbrev news_policy : BrokerPolicy
news_policy = record {
  allowed_domains = "news.org" ∷ [];
  search_provider_domains = "find.org" ∷ [];
  search_templates = ("find.org", "https://find.org/?q={query}") ∷ [];
  max_fetch_bytes = 65536;
  max_media_fetch_bytes = 65536;
  timeout_seconds = 10;
  pathname_prefix = none;
  upload_grant = none;
  token_endpoint = none;
  resource_id = none;
  maximum_file_size_bytes = none;
  allowed_content_types = [];
}

abbrev nothing_yet : Outside
nothing_yet = record { events = []; files = [] }

abbrev asking : Dict String
asking = ("action", "search") ∷ ("session_token", "session") ∷ ("arguments", "arguments") ∷ []

-- a session is opened, used, closed, and used once more
abbrev conversation : List (Dict String)
conversation =
    (("action", "configure") ∷ ("control_token", "control") ∷ ("policy", "policy") ∷ [])
    ∷ asking
    ∷ (("action", "revoke") ∷ ("control_token", "control") ∷ ("session_token", "session") ∷ [])
    ∷ asking
    ∷ []

act-IsContained_example :
    Traffic plain_texts small_network news_policy []
      (act plain_texts small_network words (some search) asking news_policy nothing_yet).1.events
act-IsContained_example =
    act-IsContained plain_texts small_network words news_policy (some search) asking nothing_yet

serve_all-IsAuthorized_example :
    (all_authorized plain_texts words "control" [] conversation
        (serve_all plain_texts small_network words conversation
          (new_broker "control")
          nothing_yet).0
      ≡ true)
    × AreTracked plain_texts words "control"
        (note_all plain_texts words conversation
          (serve_all plain_texts small_network words conversation
            (new_broker "control")
            nothing_yet).0
          [])
        (serve_all plain_texts small_network words conversation
          (new_broker "control")
          nothing_yet).1.0
serve_all-IsAuthorized_example =
    serve_all-IsAuthorized plain_texts words small_network "control" conversation nothing_yet

-- a session that stays open
abbrev open_conversation : List (Dict String)
open_conversation =
    (("action", "configure") ∷ ("control_token", "control") ∷ ("policy", "policy") ∷ [])
    ∷ asking
    ∷ []

serve_all-AreLimited_example :
    AreLimited plain_texts words
      (serve_all plain_texts small_network words open_conversation
        (new_broker "control")
        nothing_yet).1.0
serve_all-AreLimited_example =
    serve_all-AreLimited plain_texts words small_network "control" open_conversation nothing_yet

stream_media-IsWhole_example : stream_media plain_texts news_policy 8 picture ≡ (
    if exceeds news_policy.max_media_fetch_bytes (declared_length plain_texts picture)
      || ltb news_policy.max_media_fetch_bytes (length (joined picture.chunks))
    then too_large
    else ends_as
        (
          record {
            metadata = response_metadata picture;
            sha256 = plain_texts.sha256_hex (joined picture.chunks);
            size_bytes = length (joined picture.chunks);
            binary_stored = false;
          },
          if (starts_with (response_metadata picture).content_type "image/" && ltb 0 8)
                && leb (length (joined picture.chunks)) 8
              then some (joined picture.chunks)
              else none,
        )
        picture.broken)
stream_media-IsWhole_example = stream_media-IsWhole plain_texts news_policy 8 picture

abbrev expected : Expectation
expected = record {
  destination = "/tmp/picture";
  expected_sha256 = "0123456789abcdef0123456789abcdef0123456789abcdef0123456789abcdef";
  expected_size_bytes = 3;
  expected_content_type = "image/png";
}

materialize_transient_file-IsVerified_example :
    Ends
      (λ later. AreSame expected.destination [] later.files)
      (λ m later. IsVerified plain_texts expected [] m later.files)
      (materialize_transient_file plain_texts small_network words asking news_policy expected
        nothing_yet)
materialize_transient_file-IsVerified_example =
    materialize_transient_file-IsVerified plain_texts small_network words asking news_policy
      expected nothing_yet

abbrev three_links : List Link
three_links =
    record { url = "a"; title = "" }
    ∷ record { url = "b"; title = "" }
    ∷ record { url = "c"; title = "" }
    ∷ []

page_of-AreWhole_example :
    (count : ℕ) × (count ≤ 4) × Pages "fire" "find.org" 2 three_links 0 count three_links
page_of-AreWhole_example = page_of-AreWhole "fire" "find.org" 2 three_links (omega arith)

search_links-IsListing_example :
    Ends
      (λ _. Unit {0})
      (λ page _. IsListing plain_texts small_network news_policy page)
      (search_links plain_texts small_network words asking news_policy nothing_yet)
search_links-IsListing_example =
    search_links-IsListing plain_texts small_network news_policy words asking nothing_yet
