-- ===== src/Ingest/Sync/Progress.antt =====
-- `sync` never reads from a cursor again, and so comes to its end.
use agent_connector_sdk.Base.{
  ℕ, zero, suc, ◌+◌, ◌≤◌, ◌<◌, String, ◌≡◌, refl, Bool, false, Option, none, some, List, ◌∷◌, arith,
  length, contains, Result, ok, err, ◌>>=◌, and_then_ind, Bool-cases, inl, inr,
}
use agent_connector_sdk.Ingest.Sync.{
  Error, Counts, no_counts, Continuation, ended, malformed, at, Pages, Stream, remember_cursor,
  sync_page, fetch, sync_round, Loop, is_spent, after_round, sync_pages, is_positive, resumed,
  sync_after, sync, bad_max_pages,
}

module _ (fingerprint : String → String) (limit : ℕ) where
  -- A cursor to go on at, which is new to the history, and the history with it.
  pub record Advances (seen : List String) (cursor : String) (seen' : List String) : Type 0 where
    pub is_new : contains (fingerprint cursor) seen ≡ false
    pub has_room : length seen < limit
    pub recorded : seen' ≡ fingerprint cursor ∷ seen

  remember_cursor-Advances :
      (seen seen' : List String) (next : Continuation) (cursor : String)
      → remember_cursor fingerprint limit seen next ≡ ok (some cursor, seen')
      → Advances seen cursor seen'
  unfolding remember_cursor
  remember_cursor-Advances seen seen' ended cursor h = absurd (ground arith)
  remember_cursor-Advances seen seen' malformed cursor h = absurd (ground arith)
  remember_cursor-Advances seen seen' (at text) cursor h = record {
    is_new = ground arith;
    has_room = ground arith;
    recorded = ground arith;
  }

  module _ {W R : Type 0} (stream : Stream W R) (kind : String) (source : Pages W R) where
    abbrev Round : Type 0
    Round = Option Counts × Option String × List String

    -- A page that is accepted and is not the last leads to a cursor that is not on the history of
    -- cursors, with the history below its limit; and the cursor is put on the history.
    pub sync_round-Advances :
        (at_cursor : Option String) (seen seen' : List String) (counts : Option Counts)
        (cursor : String) (w : W)
        → (sync_round fingerprint limit stream kind source at_cursor seen w).0
          ≡ ok (counts, some cursor, seen')
        → Advances seen cursor seen'
    unfolding sync_round ◌>>=◌
    sync_round-Advances at_cursor seen seen' counts cursor w =
        let Q : Result Error Round × W → Type 0 =
          λ out. out.0 ≡ ok (counts, some cursor, seen') → Advances seen cursor seen' in
        and_then_ind Q (fetch fingerprint limit stream kind source at_cursor w).0 _ _
          (λ e _ h. absurd cc)
          (λ (records, next) _.
            and_then_ind Q (remember_cursor fingerprint limit seen next) _ _ (λ e _ h. absurd cc)
              (λ (next_cursor, kept) remembered.
                and_then_ind Q (sync_page fingerprint limit stream kind records next_cursor _).0 _ _
                  (λ e _ h. absurd cc)
                  (λ counts' _ h. remember_cursor-Advances seen seen' next cursor (cc))))

    after_round_total :
        (rest : Loop fingerprint limit stream kind) (pages : ℕ) (totals : Counts)
        (seen : List String) (r : Result Error Round × W)
        → ((counts : Option Counts) (cursor : String) (seen' : List String)
            → r.0 ≡ ok (counts, some cursor, seen')
            → Advances seen cursor seen')
        → ((cursor : String) (seen' : List String) (totals : Counts) (w : W)
            → Advances seen cursor seen'
            → (out : Result Error Counts × W) × (rest (some cursor) seen' (suc pages) totals w
                ≡ some out))
        → (out : Result Error Counts × W) × (after_round fingerprint limit stream kind rest pages
              totals r
            ≡ some out)
    unfolding after_round
    after_round_total rest pages totals seen (err e, w) up go = (_, refl)
    after_round_total rest pages totals seen (ok (counts, none, seen'), w) up go = (_, refl)
    after_round_total rest pages totals seen (ok (counts, some cursor, seen'), w) up go =
        go cursor seen' _ w (up counts cursor seen' refl)

    sync_pages_total :
        (max_pages : Option ℕ) (fuel : ℕ) (cursor : Option String) (seen : List String) (pages : ℕ)
        (totals : Counts) (w : W)
        → limit < length seen + fuel
        → 1 ≤ fuel
        → (out : Result Error Counts × W) × (sync_pages fingerprint limit stream kind source
              max_pages fuel cursor seen pages totals w
            ≡ some out)
    unfolding sync_pages
    sync_pages_total max_pages zero cursor seen pages totals w enough h = absurd (omega arith)
    sync_pages_total max_pages (suc fuel) cursor seen pages totals w enough h =
        elim (Bool-cases (is_spent fingerprint limit stream kind max_pages pages)) [
          | inl spent ↦ ((ok totals, w), rw spent refl)
          | inr goes ↦ rw goes (
              after_round_total (sync_pages fingerprint limit stream kind source max_pages fuel)
                pages totals seen (sync_round fingerprint limit stream kind source cursor seen w)
                (λ counts next seen' eq. sync_round-Advances cursor seen seen' counts next w eq)
                (λ next seen' totals' w' up.
                  let longer : length seen' ≡ suc (length seen) = rw up.recorded refl in
                  sync_pages_total max_pages fuel (some next) seen' (suc pages) totals' w'
                    (omega (arith, up.has_room)) (omega (arith, up.has_room))))
        ]

    -- `sync` comes to its end, with the totals or an error, even with no limit on the pages: the fuel
    -- of two more than the limit of the history of cursors is enough.
    pub sync_total :
        (resume : Bool) (max_pages : Option ℕ) (w : W)
        → (out : Result Error Counts × W) × (sync fingerprint limit stream kind source resume
              max_pages w
            ≡ some out)
    unfolding sync sync_after
    sync_total resume max_pages w =
        elim (Bool-cases (is_positive fingerprint limit stream kind max_pages)) [
          | inr bad ↦ ((err bad_max_pages, w), rw bad refl)
          | inl fine ↦ rw fine (from (resumed fingerprint limit stream kind resume w))
        ]
      where
        from :
            (start : Result Error (Option String) × W)
            → (out : Result Error Counts × W) × (sync_after fingerprint limit stream kind source
                  max_pages
                  (limit + 2)
                  start
                ≡ some out)
        from (err e, w) = (_, refl)
        from (ok cursor, w) =
            sync_pages_total max_pages (limit + 2) _ _ 0 no_counts w (omega arith) (omega arith)
