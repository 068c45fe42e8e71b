-- ===== src/HttpSupport/Tests.antt =====
-- The witnesses of pagination's properties, at bodies that are numbers or a page of them.
use agent_connector_sdk.Base.{
  ℕ, ◌+◌, String, ◌≡◌, refl, true, false, not, Option, none, some, List, [], ◌∷◌, Result, ok,
  str_eq, map,
}
use agent_connector_sdk.Base.Dict.{Dict}
use agent_connector_sdk.HttpSupport.Values.{Error, Values, Urls, dig, safe_origin, plain_origin}
use agent_connector_sdk.HttpSupport.Walk.{
  Mode, cursor, next_url, Config, Walk, new_walk, advance_token, advance_cursor, follow_url,
  advance,
}
use agent_connector_sdk.HttpSupport.Walk.Progress.{
  Followed, advance-Followed, Continued, advance-Continued,
}
use agent_connector_sdk.HttpSupport.Iteration.{begin, Consumed, Drained, apply_budgets, drain}
use agent_connector_sdk.HttpSupport.Iteration.Bounds.{
  Ends, drain-Ends, apply_budgets_complete, apply_budgets_resumable,
}

data Json : Type 0 where
  null : Json
  text : String → Json
  page : (next : String) → (ids : List String) → Json

abbrev values : Values Json
values = record {
  as_dict = λ v. elim v [ page next ids ↦ some (("next", text next) ∷ []) | _ ↦ none ];
  as_list = λ v. elim v [ page next ids ↦ some (map text ids) | _ ↦ none ];
  as_text = λ v. elim v [ text t ↦ some t | _ ↦ none ];
  is_none = λ v. elim v [ null ↦ true | _ ↦ false ];
  is_truthy = λ v. elim v [ text t ↦ not (str_eq t "") | _ ↦ false ];
  none_value = null;
  number = λ n. text "number";
  text_of = λ v. elim v [ text t ↦ t | _ ↦ "" ];
  fingerprint = λ v. elim v [ text t ↦ t | _ ↦ "" ];
}

abbrev urls : Urls
urls = record {
  urljoin = λ base url. some url;
  urlsplit = λ url. some (record {
    scheme = "https";
    hostname = some "api";
    username = none;
    password = none;
    port = some none;
  });
  casefold = λ t. t;
  split_path = λ path. path ∷ [];
}

abbrev no_link : Dict String → Option String
no_link headers = none

abbrev config : Mode → Config Json
config mode = record {
  endpoint = "https://api/items";
  mode = mode;
  base_params = [];
  items_path = "";
  max_items = 3;
  max_pages = 2;
  cursor_param = "cursor";
  cursor_path = "next";
  page_param = "page";
  page_size_param = "size";
  page_size = none;
  start_page = 1;
  offset_param = "offset";
  limit_param = "limit";
  since_param = "since";
  id_field = "id";
  next_path = "next";
  base_url = none;
}

abbrev walk : Walk
walk = record {
  current_url = "https://api/items";
  first_origin = ("https", "api", some 443);
  seen_urls = "https://api/items" ∷ [];
  loop_detected = false;
  tokens = [];
  page = 1;
  offset = 0;
  next_cursor = none;
}

abbrev two_ids : List String
two_ids = "a" ∷ "b" ∷ []

abbrev two_items : List Json
two_items = map text two_ids

abbrev next_address : String
next_address = "https://api/items?2"

abbrev followed_walk : Walk
followed_walk = record walk {
  current_url = next_address;
  seen_urls = next_address ∷ walk.seen_urls;
  next_cursor = some next_address;
}

advance-Followed_example : Followed values urls no_link walk (next_address, []) followed_walk
unfolding advance follow_url safe_origin dig
advance-Followed_example =
    advance-Followed values urls no_link (config next_url) walk followed_walk two_items
      (page next_address two_ids) [] (next_address, []) refl refl

abbrev continued_walk : Walk
continued_walk = record walk { tokens = "t2" ∷ []; next_cursor = some "t2" }

advance-Continued_example :
    Continued values urls no_link
      (config cursor)
      (text "t2")
      "cursor"
      walk
      ("https://api/items", ("cursor", text "t2") ∷ [])
      continued_walk
unfolding advance advance_cursor advance_token dig
advance-Continued_example =
    advance-Continued values urls no_link (config cursor) walk continued_walk two_items
      (page "t2" two_ids) [] ("https://api/items", ("cursor", text "t2") ∷ []) refl refl

abbrev first_page : Consumed Json
first_page =
    apply_budgets (config cursor) (begin (config cursor) walk) two_items
      (some ("https://api/items", []), continued_walk)

apply_budgets_complete_example :
    (first_page.to_yield ≡ two_items)
    × (first_page.request ≡ some ("https://api/items", []))
    × (continued_walk.loop_detected ≡ false)
unfolding apply_budgets
apply_budgets_complete_example =
    apply_budgets_complete (config cursor) (begin (config cursor) walk) two_items
      (some ("https://api/items", []), continued_walk) refl

apply_budgets_resumable_example :
    (first_page.to_yield ≡ two_items) × (continued_walk.next_cursor ≡ some "t2")
unfolding apply_budgets
apply_budgets_resumable_example =
    apply_budgets_resumable (config cursor) (begin (config cursor) walk) two_items
      (some ("https://api/items", []), continued_walk) "t2" refl

-- The server answers every request with the same page.
abbrev fetch_page : String → Option (Dict Json) → ℕ → Result Error (Json × Dict String) × ℕ
fetch_page url params calls = (ok (page "t2" two_ids, []), calls + 1)

drain-Ends_example :
    (drained : Option (Drained ℕ Json)) × (drain values urls no_link fetch_page
        (config cursor)
        false
        0
      ≡ ok drained)
    × Ends values urls no_link fetch_page (config cursor) drained
unfolding new_walk plain_origin
drain-Ends_example = drain-Ends values urls no_link fetch_page (config cursor) walk 0 refl
