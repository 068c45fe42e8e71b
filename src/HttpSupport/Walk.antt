-- ===== src/HttpSupport/Walk.antt =====
-- scion_sdk/httpsupport/pagination_walk.py and pagination_tokens.py: the state machine that turns
-- one page into the next request. `link_target` stands for the scan of the Link header.
pub mod Progress
use agent_connector_sdk.Base.{
  ℕ, ◌+◌, String, Bool, true, false, not, ◌&&◌, ◌||◌, Option, none, some, List, [], ◌∷◌, length,
  ltb, contains, str_eq, if◌then◌else◌, Result, ok, err, bind, or_raise, require,
}
use agent_connector_sdk.Base.Dict.{Dict, get, insert}
use agent_connector_sdk.HttpSupport.Values.{
  Error, origin_error, value_error, Values, Urls, Origin, same_origin, dig, safe_origin,
  plain_origin,
}

pub data Mode : Type 0 where
  cursor page offset link since_id next_url : Mode

-- The settings, which a walk never changes.
pub record Config (J : Type 0) : Type 0 where
  pub endpoint : String
  pub mode : Mode
  pub base_params : Dict J
  pub items_path : String
  pub max_items : ℕ
  pub max_pages : ℕ
  pub cursor_param : String
  pub cursor_path : String
  pub page_param : String
  pub page_size_param : String
  pub page_size : Option ℕ
  pub start_page : ℕ
  pub offset_param : String
  pub limit_param : String
  pub since_param : String
  pub id_field : String
  pub next_path : String
  pub base_url : Option String

-- `_PageWalk`'s own state; `tokens` is the token history.
pub record Walk : Type 0 where
  pub current_url : String
  pub first_origin : Origin
  pub seen_urls : List String
  pub loop_detected : Bool
  pub tokens : List String
  pub page : ℕ
  pub offset : ℕ
  pub next_cursor : Option String

-- An endpoint or URL, and the query parameters.
abbrev pub Request : Type 0 → Type 0
Request J = String × Dict J

-- The next request, if there is one, and the walk.
abbrev pub Next : Type 0 → Type 0
Next J = Option (Request J) × Walk

abbrev pub follows_urls : Mode → Bool
follows_urls link = true
follows_urls next_url = true
follows_urls _ = false

module _ {J : Type 0} (values : Values J) (urls : Urls)
    (link_target : Dict String → Option String) where
  open values use {is_none, is_truthy, text_of, fingerprint, number, none_value, as_dict, as_text}

  -- `_TokenHistory.observe`: whether the token is new, and the history with it.
  unfoldable pub observe : List String → J → Bool × List String
  observe seen token =
      if contains (fingerprint token) seen then (false, seen) else (true, fingerprint token ∷ seen)

  -- `_TokenHistory.__init__`
  initial_tokens : Option J → List String
  unfolding observe
  initial_tokens none = []
  initial_tokens (some token) = if is_none token then [] else (observe [] token).1

  token_param : Config J → String
  token_param config = elim config.mode [
    | cursor ↦ config.cursor_param
    | since_id ↦ config.since_param
    | _ ↦ ""
  ]

  joined : Config J → Result Error String
  joined config =
      let base : String = elim config.base_url [ none ↦ "" | some url ↦ url ] in
      or_raise (urls.urljoin base config.endpoint)
        (if follows_urls config.mode then origin_error else value_error)

  -- A mode that follows URLs needs an absolute one to start from.
  require_absolute : Config J → String → Result Error (Unit {0})
  require_absolute config url =
      if not (follows_urls config.mode)
      then ok tt
      else bind (or_raise (urls.urlsplit url) value_error)
          λ parts. require (not (str_eq parts.scheme "")) value_error

  start_origin : Config J → String → Result Error Origin
  start_origin config url =
      if follows_urls config.mode then safe_origin urls url else plain_origin urls url

  -- `_PageWalk.__init__`
  unfoldable pub new_walk : Config J → Result Error Walk
  unfolding initial_tokens token_param joined require_absolute start_origin
  new_walk config = bind (joined config) λ url. bind (require_absolute config url) λ _.
      bind (start_origin config url) λ origin. ok (record {
        current_url = url;
        first_origin = origin;
        seen_urls = url ∷ [];
        loop_detected = false;
        tokens = initial_tokens (get (token_param config) config.base_params);
        page = config.start_page;
        offset = 0;
        next_cursor = none;
      })

  with_size : String → Option ℕ → Dict J → Dict J
  with_size name none params = params
  with_size name (some size) params = insert name (number size) params

  unfoldable pub start : Config J → Walk → Request J
  unfolding with_size
  start config walk = elim config.mode [
    | page ↦ (
      config.endpoint,
      with_size config.page_size_param config.page_size
          (insert config.page_param (number walk.page) config.base_params),
    )
    | offset ↦ (
      config.endpoint,
      with_size config.limit_param config.page_size
          (insert config.offset_param (number walk.offset) config.base_params),
    )
    | _ ↦ (config.endpoint, config.base_params)
  ]

  stop : Walk → Next J
  stop walk = (none, record walk { next_cursor = none })

  stop_loop : Walk → Next J
  stop_loop walk = (none, record walk { loop_detected = true; next_cursor = none })

  -- `_advance_token`: a repeated continuation ends the walk.
  unfoldable pub advance_token : Config J → Walk → J → String → Next J
  unfolding stop_loop
  advance_token config walk token parameter =
      if contains (fingerprint token) walk.tokens then stop_loop walk else (
        some (config.endpoint, insert parameter token config.base_params),
        record walk {
          tokens = fingerprint token ∷ walk.tokens;
          next_cursor = some (text_of token);
        },
      )

  unfoldable pub advance_cursor : Config J → Walk → J → Next J
  unfolding stop
  advance_cursor config walk token =
      if is_truthy token then advance_token config walk token config.cursor_param else stop walk

  last_item : List J → J
  last_item [] = none_value
  last_item (item ∷ []) = item
  last_item (item ∷ next ∷ items) = last_item (next ∷ items)

  pub last_id : Config J → List J → J
  unfolding last_item
  last_id config items = elim (as_dict (last_item items)) [
    | none ↦ none_value
    | some fields ↦ elim (get config.id_field fields) [ none ↦ none_value | some v ↦ v ]
  ]

  unfoldable pub advance_since : Config J → Walk → List J → Next J
  unfolding stop last_id
  advance_since config walk items =
      let token = last_id config items in
      if is_none token then stop walk else advance_token config walk token config.since_param

  -- An empty page, or one short of the page size, is the last.
  is_short : Config J → List J → Bool
  is_short config [] = true
  is_short config (item ∷ items) = elim config.page_size [
    | none ↦ false
    | some size ↦ ltb (length (item ∷ items)) size
  ]

  abbrev is_page_mode : Mode → Bool
  is_page_mode page = true
  is_page_mode _ = false

  unfoldable pub advance_numbered : Config J → Walk → List J → Next J
  unfolding is_short start
  advance_numbered config walk items =
      if is_short config items
      then (none, walk)
      else let walk' =
          if is_page_mode config.mode
          then record walk { page = walk.page + 1 }
          else record walk { offset = walk.offset + length items } in
        (some (start config walk'), walk')

  followed : Walk → String → Result Error (Next J)
  unfolding stop_loop
  followed walk absolute =
      if contains absolute walk.seen_urls
      then ok (stop_loop walk)
      else ok (
        some (absolute, []),
        record walk {
          seen_urls = absolute ∷ walk.seen_urls;
          current_url = absolute;
          next_cursor = some absolute;
        },
      )

  -- `_follow_url`: one URL of the same origin, or an end if it was already read.
  unfoldable pub follow_url : Walk → String → Result Error (Next J)
  unfolding followed
  follow_url walk raw = bind (or_raise (urls.urljoin walk.current_url raw) origin_error) λ absolute.
      bind (safe_origin urls absolute) λ origin.
        bind (require (same_origin origin walk.first_origin) origin_error)
          λ _. followed walk absolute

  or_follow : Walk → Option String → Result Error (Next J)
  unfolding stop
  or_follow walk none = ok (stop walk)
  or_follow walk (some raw) = if str_eq raw "" then ok (stop walk) else follow_url walk raw

  abbrev pub cursor_at : Config J → J → J
  cursor_at config body =
      if str_eq config.cursor_path "" then none_value else dig values urls body config.cursor_path

  unfoldable pub advance : Config J → Walk → List J → J → Dict String → Result Error (Next J)
  unfolding or_follow
  advance config walk items body headers = elim config.mode [
    | cursor ↦ ok (advance_cursor config walk (cursor_at config body))
    | link ↦ or_follow walk (link_target headers)
    | next_url ↦ or_follow walk (as_text (dig values urls body config.next_path))
    | since_id ↦ ok (advance_since config walk items)
    | _ ↦ ok (advance_numbered config walk items)
  ]
