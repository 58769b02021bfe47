-- ===== src/Broker.antt =====
-- research_broker.py: the broker that alone may reach the network for the sandboxed research model.
-- Its policies, what it reads of urllib and of Python's values, and the outside as it sees it.
pub mod Policy
pub mod Guard
pub mod Links
pub mod Fetch
pub mod Media
pub mod Upload
pub mod Server
pub mod Laws
use fireviewer_ai_worker.Common.{
  ℕ, String, Bool, ◌||◌, Option, none, some, List, [], ◌∷◌, str_eq, str_append, any, length,
}
use fireviewer_ai_worker.Common.Dict.{Dict}
use fireviewer_ai_worker.Common.Exec.{Exception, Result}
use fireviewer_ai_worker.Common.Int.{ℤ}
use fireviewer_ai_worker.Common.Strings.{rstrip, ends_with}

abbrev pub Bytes : Type 0
Bytes = List ℕ

-- BrokerPolicy: a frozenset is a list, of which only the members count
pub record BrokerPolicy : Type 0 where
  pub allowed_domains : List String
  pub search_provider_domains : List String
  pub search_templates : Dict String
  pub max_fetch_bytes : ℕ
  pub max_media_fetch_bytes : ℕ
  pub timeout_seconds : ℕ
  pub pathname_prefix : Option String
  pub upload_grant : Option String
  pub token_endpoint : Option String
  pub resource_id : Option String
  pub maximum_file_size_bytes : Option ℕ
  pub allowed_content_types : List String

-- urllib.parse.SplitResult, whose `port` raises for a port out of range
pub record UrlParts : Type 0 where
  pub scheme : String
  pub hostname : Option String
  pub username : Option String
  pub password : Option String
  pub port : Result (Option ℕ)
  pub path : String
  pub query : String
  pub fragment : String

-- Of an HTML page: a start tag with its attributes, text, and an end tag.
pub data HtmlEvent : Type 0 where
  start_tag : String → List (String × Option String) → HtmlEvent
  data_text : String → HtmlEvent
  end_tag : String → HtmlEvent

-- What the broker calls of Python's text methods, urllib.parse, html.parser, hashlib, mimetypes and
-- pathlib. `split_words` is `str.split()`, `decode` is UTF-8 with replacement, `suffix` is that of
-- the path's last name, and `guess_extension` that of a content type.
pub record TextLibrary : Type 0 where
  pub casefold : String → String
  pub strip : String → String
  pub split_words : String → List String
  pub urlsplit : String → Result UrlParts
  pub urljoin : String → String → Result String
  pub quote_plus : String → String
  pub unquote : String → String
  pub parse_qs : String → Result (Dict (List String))
  pub html_events : String → List HtmlEvent
  pub decode : Bytes → String
  pub sha256_hex : Bytes → String
  pub suffix : String → String
  pub guess_extension : String → Option String
  -- int(s), for the characters that `str.isdecimal` admits, and none for another text
  pub decimal : String → Option ℕ

-- Python's conversions of a value `V` that JSON gives: str, int, bool, dict, and its iteration.
pub record Values (V : Type 0) : Type 0 where
  pub str_of : V → String
  pub int_of : V → Result ℤ
  pub bool_of : V → Bool
  pub dict_of : V → Result (Dict V)
  pub items_of : V → Result (List V)

-- httpx.Response, opened as a stream: header names in small letters, the body by its chunks, and
-- what reading on raises behind them.
pub record Response : Type 0 where
  pub status_code : ℕ
  pub headers : Dict String
  pub url : String
  pub chunks : List Bytes
  pub broken : Option Exception

-- What the broker does to the network. The newest event stands first.
pub data NetEvent : Type 0 where
  -- socket.getaddrinfo, with its addresses
  resolved : String → List String → NetEvent
  -- client.stream(method, url)
  requested : String → String → NetEvent
  -- client.post(url, …)
  posted : String → NetEvent
  -- BlobClient.upload_file: pathname, content type and content
  uploaded : String → String → Bytes → NetEvent

-- The events so far, and the files by their paths.
pub record Outside : Type 0 where
  pub events : List NetEvent
  pub files : Dict Bytes

-- The network and the machine, which may answer by what has happened.
pub record Network : Type 0 where
  -- getaddrinfo: the addresses of a host, none if it raises gaierror, or any other exception
  pub resolve : Outside → String → Result (Option (List String))
  -- ipaddress.ip_address(value).is_global
  pub is_global : String → Result Bool
  pub respond : Outside → String → String → Result Response
  pub raise_for_status : Response → Option Exception
  pub answer_grant : Outside → String → Result Response
  -- response.json().get("clientToken"), none if it is not a text
  pub client_token : Response → Result (Option String)
  -- upload_file, with the pathname of its result
  pub upload_file : Outside → String → Bytes → Result String
  pub temporary_name : Outside → String → String
  pub write_fails : Outside → Option Exception
  -- path.parent.is_dir()
  pub parent_is_dir : Outside → String → Bool
  -- secrets.token_urlsafe(32)
  pub token_urlsafe : Outside → String

-- ResearchBroker._domain_allowed
unfoldable pub domain_allowed : String → List String → Bool
unfolding any
domain_allowed host allowed =
    any (λ domain. str_eq host domain || ends_with host (str_append "." domain)) allowed

abbrev pub or_empty : Option String → String
or_empty none = ""
or_empty (some s) = s

module _ (L : TextLibrary) where
  -- s.casefold().rstrip(".")
  abbrev pub normal_host : String → String
  normal_host s = rstrip b'.' (L.casefold s)

  -- (parts.hostname or "").casefold().rstrip(".")
  abbrev pub host_of : UrlParts → String
  host_of parts = normal_host (or_empty parts.hostname)
