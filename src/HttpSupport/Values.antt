-- ===== src/HttpSupport/Values.antt =====
-- Values of response bodies and URLs, as far as pagination looks into them, and the look-ups of
-- scion_sdk/httpsupport/pagination_page.py and the origins of pagination_walk.py.
use agent_connector_sdk.Base.{
  ℕ, String, Bool, true, false, ◌&&◌, ◌||◌, Option, none, some, List, [], ◌∷◌, ◌==◌, str_eq,
  if◌then◌else◌, Result, ok, err, bind, or_raise,
}
use agent_connector_sdk.Base.Dict.{Dict, get}

-- PaginationOriginError, PaginationPageError, ValueError, and what a page fetch raises.
pub data Error : Type 0 where
  origin_error page_error value_error busy fetch_error : Error

-- What Python tells of a decoded JSON value: its type, its truth, its text, and the fingerprint of
-- a token, which is its type with the sha256 of its text.
pub record Values (J : Type 0) : Type 0 where
  pub as_dict : J → Option (Dict J)
  pub as_list : J → Option (List J)
  pub as_text : J → Option String
  pub is_none : J → Bool
  pub is_truthy : J → Bool
  pub none_value : J
  pub number : ℕ → J
  pub text_of : J → String
  pub fingerprint : J → String

-- `urllib.parse.SplitResult`; `port` is `none` where reading it raises ValueError.
pub record Parts : Type 0 where
  pub scheme : String
  pub hostname : Option String
  pub username : Option String
  pub password : Option String
  pub port : Option (Option ℕ)

-- `urllib.parse`, where `none` is ValueError; `str.casefold`; and `str.split(".")`.
pub record Urls : Type 0 where
  pub urljoin : String → String → Option String
  pub urlsplit : String → Option Parts
  pub casefold : String → String
  pub split_path : String → List String

abbrev pub Origin : Type 0
Origin = String × String × Option ℕ

abbrev pub same_port : Option ℕ → Option ℕ → Bool
same_port none none = true
same_port (some a) (some b) = a == b
same_port _ _ = false

abbrev pub same_origin : Origin → Origin → Bool
same_origin (scheme, host, port) (scheme', host', port') =
    str_eq scheme scheme' && str_eq host host' && same_port port port'

module _ {J : Type 0} (values : Values J) where
  dig_parts : J → List String → J
  dig_parts current [] = current
  dig_parts current (part ∷ parts) = elim (values.as_dict current) [
    | none ↦ values.none_value
    | some fields ↦
        dig_parts (elim (get part fields) [ none ↦ values.none_value | some v ↦ v ]) parts
  ]

  module _ (urls : Urls) where
    -- Resolve a dotted path inside nested dicts.
    unfoldable pub dig : J → String → J
    unfolding dig_parts
    dig obj path = dig_parts obj (urls.split_path path)

    require_items : J → Result Error (List J)
    require_items value = or_raise (values.as_list value) page_error

    unfoldable pub items_at : J → String → Result Error (List J)
    unfolding dig require_items
    items_at body path = require_items (if str_eq path "" then body else dig body path)

module _ (urls : Urls) where
  default_port : String → ℕ
  default_port scheme = if str_eq scheme "https" then 443 else 80

  is_http : String → Bool
  is_http scheme = str_eq scheme "http" || str_eq scheme "https"

  or_default : String → Option ℕ → Option ℕ
  unfolding default_port
  or_default scheme none = some (default_port scheme)
  or_default scheme (some port) = some port

  host_origin : Parts → Option ℕ → Option String → Result Error Origin
  unfolding or_default
  host_origin parts port none = err origin_error
  host_origin parts port (some host) =
      if str_eq host ""
      then err origin_error
      else ok (parts.scheme, urls.casefold host, or_default parts.scheme port)

  abbrev is_absent : Option String → Bool
  is_absent none = true
  is_absent (some _) = false

  origin_of_parts : Parts → Option (Option ℕ) → Result Error Origin
  unfolding host_origin is_http
  origin_of_parts parts none = err origin_error
  origin_of_parts parts (some port) =
      if is_http parts.scheme && is_absent parts.username && is_absent parts.password
      then host_origin parts port parts.hostname
      else err origin_error

  -- `_safe_origin`: an HTTP origin with a host and no credentials.
  unfoldable pub safe_origin : String → Result Error Origin
  unfolding origin_of_parts
  safe_origin url =
      bind (or_raise (urls.urlsplit url) origin_error) λ parts. origin_of_parts parts parts.port

  known_port : String → Option ℕ
  known_port scheme =
      if str_eq scheme "http" then some 80 else if str_eq scheme "https" then some 443 else none

  port_or_known : String → Option ℕ → Option ℕ
  unfolding known_port
  port_or_known scheme none = known_port scheme
  port_or_known scheme (some port) = if port == 0 then known_port scheme else some port

  -- `_origin` of scion_sdk/http/pagination.py, which raises ValueError.
  unfoldable pub plain_origin : String → Result Error Origin
  unfolding port_or_known
  plain_origin url = bind (or_raise (urls.urlsplit url) value_error) λ parts.
      bind (or_raise parts.port value_error) λ port.
        let scheme = urls.casefold parts.scheme in
        let host : String = elim parts.hostname [ none ↦ "" | some h ↦ h ] in
        ok (scheme, urls.casefold host, port_or_known scheme port)
