-- ===== src/HttpSupport/Iteration/Bounds.antt =====
-- A sweep keeps to its page and item budgets, and comes to its end.
use agent_connector_sdk.Base.{
  ℕ, zero, suc, ◌+◌, ◌≤◌, ◌<◌, String, ◌≡◌, refl, false, Option, some, List, [], ◌++◌, arith,
  length, take, length-append, length-take, ltb, if◌then◌else◌, Result, ok, err, Result-cases,
  Option-cases, Bool-cases, inl, inr, ltb-false→le,
}
use agent_connector_sdk.Base.Dict.{Dict}
use agent_connector_sdk.HttpSupport.Values.{Error, Values, Urls, items_at}
use agent_connector_sdk.HttpSupport.Walk.{Config, Walk, Request, Next, new_walk, start, advance}
use agent_connector_sdk.HttpSupport.Iteration.{
  Sweep, begin, Consumed, Drained, page_budget, drop_request, apply_budgets, consume_page,
  read_items, read_page, Loop, after_page, iterate, drain,
}

-- The counters agree with what was yielded, and nothing exceeds the budgets.
pub record IsWithin {J : Type 0} (config : Config J) (yielded : List J) (sweep : Sweep)
    : Type 0 where
  pub counted : sweep.items_yielded ≡ length yielded
  pub items : length yielded + sweep.budget ≡ config.max_items
  pub pages : sweep.pages_fetched ≤ page_budget config

module _ {J : Type 0} (config : Config J) (sweep : Sweep) (items : List J) (next : Next J) where
  length-yield :
      (budget : ℕ)
      → length (if ltb budget (length items) then take budget items else items) ≤ budget
  length-yield budget = elim (Bool-cases (ltb budget (length items))) [
    | inl h ↦ rw (h, ◌≡◌) omega (arith, length-take budget items)
    | inr h ↦ rw (h, ◌≡◌) omega (arith, ltb-false→le budget (length items) h)
  ]

  apply_budgets-IsWithin :
      (yielded : List J)
      → IsWithin config yielded sweep
      → IsWithin config
          (yielded ++ (apply_budgets config sweep items next).to_yield)
          (apply_budgets config sweep items next).sweep
  unfolding apply_budgets
  apply_budgets-IsWithin yielded h = record {
    counted = omega (arith, h.counted, length-append yielded _);
    items = omega (arith, h.items, length-append yielded _, length-yield sweep.budget);
    pages = omega (arith, h.pages);
  }

  -- Another page is asked for only while both budgets allow one.
  apply_budgets-request :
      {request : Request J}
      → (apply_budgets config sweep items next).request ≡ some request
      → sweep.pages_fetched < page_budget config
  unfolding apply_budgets drop_request
  apply_budgets-request h = ground arith

  -- Unless the sweep says it was truncated, the page is yielded whole, the next request that the
  -- walk gave is kept, and the walk met no loop.
  pub apply_budgets_complete :
      let page = apply_budgets config sweep items next in
      page.sweep.truncated ≡ false
      → (page.to_yield ≡ items) × (page.request ≡ next.0) × (next.1.loop_detected ≡ false)
  unfolding apply_budgets drop_request
  apply_budgets_complete h = ground arith

  -- A sweep offers a cursor to resume at only if the page was yielded whole, and then it is the
  -- walk's own.
  pub apply_budgets_resumable :
      (cursor : String)
      → let page = apply_budgets config sweep items next in
        page.sweep.next_cursor ≡ some cursor
        → (page.to_yield ≡ items) × (next.1.next_cursor ≡ some cursor)
  unfolding apply_budgets
  apply_budgets_resumable cursor h = ground arith

module _ {W J : Type 0} (values : Values J) (urls : Urls)
    (link_target : Dict String → Option String)
    (fetch_page : String → Option (Dict J) → W → Result Error (J × Dict String) × W)
    (config : Config J) where
  -- What the loop leaves: an end, within the budgets.
  pub data Ends : Option (Drained W J) → Type 0 where
    ended : (d : Drained W J) → IsWithin config d.yielded d.sweep → Ends (some d)

  -- A page's result keeps within the budgets, given what was yielded before.
  pub data Fits (yielded : List J) (fetched : ℕ) : Result Error (Consumed J) × Sweep → Type 0 where
    failed :
        (e : Error) (sweep : Sweep)
        → IsWithin config yielded sweep
        → Fits yielded fetched (err e, sweep)
    consumed :
        (page : Consumed J) (sweep : Sweep)
        → IsWithin config (yielded ++ page.to_yield) page.sweep
        → ((request : Request J)
            → page.request ≡ some request
            → page.sweep.pages_fetched < page_budget config)
        → page.sweep.pages_fetched ≡ suc fetched
        → Fits yielded fetched (ok page, sweep)

  consume_page-Fits :
      (yielded : List J) (sweep : Sweep) (items : List J) (body : J) (headers : Dict String)
      → IsWithin config yielded sweep
      → sweep.pages_fetched < page_budget config
      → Fits yielded sweep.pages_fetched
          (consume_page values urls link_target fetch_page config sweep items body headers)
  unfolding consume_page apply_budgets
  consume_page-Fits yielded sweep items body headers h below =
      let counted = record sweep { pages_fetched = sweep.pages_fetched + 1 } in
      let within : IsWithin config yielded counted = record {
        counted = h.counted;
        items = h.items;
        pages = omega arith;
      } in
      elim (Result-cases (advance values urls link_target config sweep.walk items body headers)) [
        | inl (e, eq) ↦ rw eq (failed e counted within)
        | inr (next, eq) ↦ rw eq (
            consumed (apply_budgets config counted items next) counted
              (apply_budgets-IsWithin config counted items next yielded within)
              (λ request more. apply_budgets-request config counted items next more) (omega arith))
      ]

  read_page-Fits :
      (yielded : List J) (sweep : Sweep) (fetched : Result Error (J × Dict String))
      → IsWithin config yielded sweep
      → sweep.pages_fetched < page_budget config
      → Fits yielded sweep.pages_fetched
          (read_page values urls link_target fetch_page config sweep fetched)
  unfolding read_page read_items
  read_page-Fits yielded sweep (err e) h below = failed e sweep h
  read_page-Fits yielded sweep (ok (body, headers)) h below =
      elim (Result-cases (items_at values urls body config.items_path)) [
        | inl (e, eq) ↦ rw eq (failed e sweep h)
        | inr (items, eq) ↦ rw eq (consume_page-Fits yielded sweep items body headers h below)
      ]

  after_page-Ends :
      (rest : Loop values urls link_target fetch_page) (fetched : ℕ) (yielded : List J) (w : W)
      (r : Result Error (Consumed J) × Sweep)
      → ((yielded : List J) (request : Request J) (sweep : Sweep) (w : W)
          → IsWithin config yielded sweep
          → sweep.pages_fetched < page_budget config
          → sweep.pages_fetched ≡ suc fetched
          → Ends (rest yielded request sweep w))
      → Fits yielded fetched r
      → Ends (after_page values urls link_target fetch_page rest yielded w r)
  unfolding after_page
  after_page-Ends rest fetched yielded w r rest-ends (failed e sweep h) = ended _ h
  after_page-Ends rest fetched yielded w r rest-ends (consumed page sweep h more eq) =
      elim (Option-cases page.request) [
        | inl last ↦ rw last (ended _ h)
        | inr (request, another) ↦
            rw another (rest-ends _ request page.sweep w h (more request another) eq)
      ]

  iterate-Ends :
      (fuel : ℕ) (yielded : List J) (request : Request J) (sweep : Sweep) (w : W)
      → IsWithin config yielded sweep
      → sweep.pages_fetched < page_budget config
      → sweep.pages_fetched + fuel ≡ page_budget config
      → Ends (iterate values urls link_target fetch_page config fuel yielded request sweep w)
  unfolding iterate
  iterate-Ends zero yielded request sweep w h below eq = absurd (omega arith)
  iterate-Ends (suc fuel) yielded (url, params) sweep w h below eq =
      after_page-Ends (iterate values urls link_target fetch_page config fuel) sweep.pages_fetched
        yielded _ _
        (λ yielded' request sweep' w' h' below' step.
          iterate-Ends fuel yielded' request sweep' w' h' below' (omega arith))
        (read_page-Fits yielded sweep _ h below)

  -- A sweep whose walk can start comes to its end: what it leaves is within the budgets of pages
  -- and items, and its counters are those of the items it yielded.
  pub drain-Ends :
      (walk : Walk) (w : W)
      → new_walk values urls link_target config ≡ ok walk
      → (drained : Option (Drained W J)) × (drain values urls link_target fetch_page config false w
          ≡ ok drained)
        × Ends drained
  unfolding drain
  drain-Ends walk w eq = (
    iterate values urls link_target fetch_page config (page_budget config) []
        (start values urls link_target config walk) (begin config walk) w,
    rw eq refl,
    iterate-Ends (page_budget config) [] (start values urls link_target config walk)
        (begin config walk) w (record { counted = refl; items = omega arith; pages = omega arith })
        (omega arith) (omega arith),
  )
