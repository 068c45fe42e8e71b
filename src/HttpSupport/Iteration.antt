-- ===== src/HttpSupport/Iteration.antt =====
-- scion_sdk/httpsupport/pagination.py and pagination_iteration.py: the budgets of a sweep over the
-- pages, drained to its end. `W` is what the page fetches read and change.
pub mod Bounds
use agent_connector_sdk.Base.{
  ℕ, zero, suc, ◌+◌, ◌-◌, String, Bool, true, false, not, ◌&&◌, ◌||◌, Option, none, some, List, [],
  ◌∷◌, ◌++◌, length, take, ltb, leb, ◌==◌, if◌then◌else◌, Result, ok, err, bind, max,
}
use agent_connector_sdk.Base.Dict.{Dict}
use agent_connector_sdk.HttpSupport.Values.{Error, busy, Values, Urls, items_at}
use agent_connector_sdk.HttpSupport.Walk.{Config, Walk, Request, Next, new_walk, start, advance}

pub record Sweep : Type 0 where
  pub walk : Walk
  pub budget : ℕ
  pub truncated : Bool
  pub pages_fetched : ℕ
  pub items_yielded : ℕ
  pub next_cursor : Option String

-- `_begin`
abbrev pub begin : {J : Type 0} → Config J → Walk → Sweep
begin config walk = record {
  walk = walk;
  budget = config.max_items;
  truncated = false;
  pages_fetched = 0;
  items_yielded = 0;
  next_cursor = none;
}

-- What a page gives: the items to yield, the next request, and the sweep.
pub record Consumed (J : Type 0) : Type 0 where
  pub to_yield : List J
  pub request : Option (Request J)
  pub sweep : Sweep

-- What a drained sweep leaves: all items yielded, the error that ended it, if one did.
pub record Drained (W J : Type 0) : Type 0 where
  pub yielded : List J
  pub failure : Option Error
  pub sweep : Sweep
  pub world : W

-- The lower bound 1 on the page budget, which `_PaginationConfig` sets.
abbrev pub page_budget : {J : Type 0} → Config J → ℕ
page_budget config = max 1 config.max_pages

module _ {J : Type 0} where
  -- A request that a used-up budget drops, and whether it was dropped.
  drop_request : Bool → Option (Request J) → Option (Request J) × Bool
  drop_request spent none = (none, false)
  drop_request spent (some request) = if spent then (none, true) else (some request, false)

  -- `_consume_page` once the page is counted and the walk has advanced.
  unfoldable pub apply_budgets : Config J → Sweep → List J → Next J → Consumed J
  unfolding drop_request
  apply_budgets config sweep items (next, walk) =
      let cut = ltb sweep.budget (length items) in
      let to_yield = if cut then take sweep.budget items else items in
      let cursor = if cut then none else walk.next_cursor in
      let request : Option (Request J) = if cut then none else next in
      let budget = sweep.budget - length to_yield in
      let (request', over_items) = drop_request (budget == 0) request in
      let (request'', over_pages) =
        drop_request (leb (page_budget config) sweep.pages_fetched) request' in
      record {
        to_yield = to_yield;
        request = request'';
        sweep = record {
          walk = record walk { next_cursor = cursor };
          budget = budget;
          truncated = sweep.truncated || cut || over_items || over_pages || walk.loop_detected;
          pages_fetched = sweep.pages_fetched;
          items_yielded = sweep.items_yielded + length to_yield;
          next_cursor = cursor;
        };
      }

module _ {W J : Type 0} (values : Values J) (urls : Urls)
    (link_target : Dict String → Option String)
    (fetch_page : String → Option (Dict J) → W → Result Error (J × Dict String) × W) where
  -- `_consume_page`: the page is counted even where the walk then raises.
  unfoldable pub consume_page :
      Config J → Sweep → List J → J → Dict String → Result Error (Consumed J) × Sweep
  consume_page config sweep items body headers =
      let counted = record sweep { pages_fetched = sweep.pages_fetched + 1 } in
      (
        bind (advance values urls link_target config sweep.walk items body headers)
            λ next. ok (apply_budgets config counted items next),
        counted,
      )

  -- `params or None`
  params_or_none : Dict J → Option (Dict J)
  params_or_none [] = none
  params_or_none (p ∷ params) = some (p ∷ params)

  read_items :
      Config J → Sweep → J → Dict String → Result Error (List J) → Result Error (Consumed J) × Sweep
  unfolding consume_page
  read_items config sweep body headers (err e) = (err e, sweep)
  read_items config sweep body headers (ok items) = consume_page config sweep items body headers

  -- One page: its records, or the error, beside the sweep that an error leaves.
  read_page : Config J → Sweep → Result Error (J × Dict String) → Result Error (Consumed J) × Sweep
  unfolding read_items
  read_page config sweep (err e) = (err e, sweep)
  read_page config sweep (ok (body, headers)) =
      read_items config sweep body headers (items_at values urls body config.items_path)

  abbrev Loop : Type 0
  Loop = List J → Request J → Sweep → W → Option (Drained W J)

  -- The end of a round of `_iterate`: an error, the last page, or another request.
  unfoldable pub after_page :
      Loop → List J → W → Result Error (Consumed J) × Sweep → Option (Drained W J)
  after_page rest yielded w (err e, sweep) =
      some (record { yielded = yielded; failure = some e; sweep = sweep; world = w })
  after_page rest yielded w (ok page, _) = elim page.request [
    | none ↦ some (record {
      yielded = yielded ++ page.to_yield;
      failure = none;
      sweep = page.sweep;
      world = w;
    })
    | some request ↦ rest (yielded ++ page.to_yield) request page.sweep w
  ]

  -- `_iterate`: one unit of fuel for each page.
  unfoldable pub iterate : Config J → ℕ → Loop
  unfolding params_or_none read_page after_page
  iterate config zero yielded request sweep w = none
  iterate config (suc fuel) yielded (url, params) sweep w =
      let (fetched, w') = fetch_page url (params_or_none params) w in
      after_page (iterate config fuel) yielded w' (read_page config sweep fetched)

  -- A sweep from its start, with a page of fuel for each that the budget allows. The claim of the
  -- iterator refuses a second consumer.
  unfoldable pub drain : Config J → Bool → W → Result Error (Option (Drained W J))
  unfolding iterate
  drain config is_active w =
      if is_active
      then err busy
      else bind (new_walk values urls link_target config) λ walk. ok (
          iterate config (page_budget config) [] (start values urls link_target config walk)
            (begin config walk) w)
