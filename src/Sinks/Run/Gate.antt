-- ===== src/Sinks/Run/Gate.antt =====
-- When `run_writeback` of scion_sdk/writeback_sinks/core.py calls a sink, and how.
use agent_connector_sdk.Base.{
  String, ◌≡◌, refl, ◌⊎◌, inl, inr, arith, Bool, true, false, not, ◌&&◌, Bool-cases, Option, none,
  some, List, [], ◌∷◌, ◌++◌, str_eq, Result, ok, err, Action, pure, ◌>>=◌, and_then_ind, Keeps,
  Keeps-pure, Keeps-bind, Keeps-lift,
}
use agent_connector_sdk.Base.Dict.{Dict}
use agent_connector_sdk.Sinks.{
  Failure, writeback_error, other_error, Proposal, Sink, SinkGrant, GovernedOutcome, get_sink,
}
use agent_connector_sdk.Sinks.Run.{
  Ports, Request, Manifest, Execution, State, Job, in_world, backfeed_preflight, grant_of,
  require_grant, handled, governed_call, enqueued, queue_high_stakes, governed_manifest, dispatch,
  granted, write_to, write_if_found, hooked, run_writeback,
}

module _ {W J B : Type 0} (strip normalize : String → String) (ports : Ports W J)
    (sorted : List String → List String) (request : Request W J B) (sinks : Dict Sink) (w : W) where
  abbrev start : State W
  start = record { world = w; executions = [] }

  -- A live call: it was asked for, the sink is enabled, and one of high stakes carries an approval.
  abbrev pub IsLive : Execution → Type 0
  IsLive e =
      (e.dry_run ≡ false)
      × (request.dry_run ≡ false)
      × (ports.setting e.sink.enable_flag w ≡ true)
      × ((str_eq e.sink.risk_tier "high_stakes" && not request.approved) ≡ false)

  -- The sink is the target's, the preflight let it pass, and the call is a preview or a live one.
  abbrev pub IsGated : Execution → Type 0
  IsGated e =
      (get_sink strip normalize request.target sinks ≡ some e.sink)
      × ((backfeed_preflight strip normalize ports sorted request e.sink start).0 ≡ ok none)
      × ((e.dry_run ≡ true) ⊎ IsLive e)

  abbrev pub AllGated : List Execution → Type 0
  AllGated [] = Unit
  AllGated (e ∷ es) = IsGated e × AllGated es

  AllGated-append :
      (es : List Execution) (e : Execution) → AllGated es → IsGated e → AllGated (es ++ (e ∷ []))
  AllGated-append [] e h gated = (gated, tt)
  AllGated-append (x ∷ es) e (first, rest) gated = (first, AllGated-append es e rest gated)

  abbrev Gated : State W → Type 0
  Gated s = AllGated s.executions

  in_world-Keeps :
      {A : Type 0} (action : Action W Failure A)
      → Keeps Gated (in_world strip normalize ports sorted request action)
  unfolding in_world
  in_world-Keeps action = record { at = λ s h. h }

  governed_call-Keeps :
      (sink : Sink) (grant : SinkGrant) (dry_run : Bool)
      (next : GovernedOutcome J → Job W (Manifest J B))
      → IsGated (record { sink = sink; grant = grant; dry_run = dry_run })
      → ((outcome : GovernedOutcome J) → Keeps Gated (next outcome))
      → Keeps Gated (governed_call strip normalize ports sorted request sink grant dry_run next)
  unfolding governed_call pure
  governed_call-Keeps sink grant dry_run next gated goes = record {
    at = λ s h.
        after (ports.execute sink request.as_of grant dry_run s.world).0 _
          (AllGated-append s.executions _ h gated);
  }
    where
      after :
          (r : Result Failure (GovernedOutcome J)) (s : State W)
          → Gated s
          → Gated (handled strip normalize ports sorted request next r s).1
      after (ok outcome) s h = (goes outcome).at s h
      after (err (writeback_error message)) s h = h
      after (err (other_error message)) s h = h

  -- What holds of the sink when it is dispatched.
  abbrev Passes : Sink → Type 0
  Passes sink =
      (get_sink strip normalize request.target sinks ≡ some sink)
      × ((backfeed_preflight strip normalize ports sorted request sink start).0 ≡ ok none)
      × ((not request.dry_run && not (ports.setting sink.enable_flag w)) ≡ false)

  enqueued-Keeps :
      (outcome : GovernedOutcome J)
      (enqueue : Option (String → List (Proposal J) → Action W Failure String))
      → Keeps Gated (enqueued strip normalize ports sorted request outcome enqueue)
  unfolding enqueued
  enqueued-Keeps outcome none = Keeps-pure _
  enqueued-Keeps outcome (some enqueue) =
      Keeps-bind _ _ (in_world-Keeps (enqueue _ _)) λ proposal_id. Keeps-pure _

  dispatch-Keeps :
      (sink : Sink)
      → Passes sink
      → Keeps Gated (
          dispatch strip normalize ports sorted request sink
            (grant_of strip normalize ports sorted request sink (ports.setting sink.enable_flag w)))
  unfolding dispatch queue_high_stakes governed_manifest
  dispatch-Keeps sink (found, passed, enabled) =
      elim (Bool-cases
        (str_eq sink.risk_tier "high_stakes" && (not request.dry_run && not request.approved))) [
          | inl e ↦ rw e (
              governed_call-Keeps sink
                (grant_of strip normalize ports sorted request sink
                  (ports.setting sink.enable_flag w))
                true _ (found, passed, inl refl) λ outcome. enqueued-Keeps outcome request.enqueue)
          | inr e ↦ rw e (
              governed_call-Keeps sink
                (grant_of strip normalize ports sorted request sink
                  (ports.setting sink.enable_flag w))
                request.dry_run _ (found, passed, live e) λ outcome. Keeps-pure _)
        ]
    where
      live :
          (str_eq sink.risk_tier "high_stakes" && (not request.dry_run && not request.approved))
            ≡ false
          → (request.dry_run ≡ true)
            ⊎ IsLive (record {
              sink = sink;
              grant =
                  (grant_of strip normalize ports sorted request sink
                    (ports.setting sink.enable_flag w));
              dry_run = request.dry_run;
            })
      live e = elim (Bool-cases request.dry_run) [
        | inl previewed ↦ inl previewed
        | inr asked ↦
            inr (asked, asked, ground (arith, enabled, asked), ground (arith, rw asked at e))
      ]

  hooked-Keeps :
      (sink : Sink) (hook : Option (String → Sink → Action W Failure (Option B)))
      → Keeps Gated (hooked strip normalize ports sorted request sink hook)
  unfolding hooked
  hooked-Keeps sink none = Keeps-pure none
  hooked-Keeps sink (some hook) = in_world-Keeps (hook request.target sink)

  preflight-Keeps :
      (sink : Sink) → Keeps Gated (backfeed_preflight strip normalize ports sorted request sink)
  unfolding backfeed_preflight
  preflight-Keeps sink = hooked-Keeps sink request.preflight

  granted-Keeps :
      (sink : Sink)
      → get_sink strip normalize request.target sinks ≡ some sink
      → (not request.dry_run && not (ports.setting sink.enable_flag w)) ≡ false
      → (answer : Option B)
      → (backfeed_preflight strip normalize ports sorted request sink start).0 ≡ ok answer
      → Keeps Gated (
          granted strip normalize ports sorted request sink
            (ports.setting sink.enable_flag w)
            answer)
  unfolding granted require_grant
  granted-Keeps sink found enabled (some manifest) passed = Keeps-pure _
  granted-Keeps sink found enabled none passed =
      Keeps-bind _ _ (Keeps-bind _ _ (Keeps-lift _) λ _. Keeps-lift _)
        λ _. dispatch-Keeps sink (found, passed, enabled)

  write_to-Gated :
      (sink : Sink)
      → get_sink strip normalize request.target sinks ≡ some sink
      → Gated (write_to strip normalize ports sorted request sink start).1
  unfolding write_to ◌>>=◌
  write_to-Gated sink found =
      elim (Bool-cases (not request.dry_run && not (ports.setting sink.enable_flag w))) [
        | inl e ↦ rw e tt
        | inr e ↦ rw e (
            and_then_ind (λ r. Gated r.1)
              (backfeed_preflight strip normalize ports sorted request sink start).0 _ _
              (λ failure fails. (preflight-Keeps sink).at start tt)
              λ answer passed.
                (granted-Keeps sink found e answer passed).at _
                  ((preflight-Keeps sink).at start tt))
      ]

  write_if_found-Gated :
      (available : List String) (sink : Option Sink)
      → get_sink strip normalize request.target sinks ≡ sink
      → Gated (write_if_found strip normalize ports sorted request available sink start).1
  unfolding write_if_found pure
  write_if_found-Gated available none found = tt
  write_if_found-Gated available (some sink) found = write_to-Gated sink found

  -- Whatever a call of `run_writeback` returns or raises, it has called `execute_governed` only with
  -- the sink that the target names, after the caller's preflight let the write pass, and either as a
  -- preview or as a live write. A live write was asked for, the sink's flag was set, and if the sink
  -- is one of high stakes then the request carries an approval.
  pub run_writeback-IsGated :
      AllGated (run_writeback strip normalize ports sorted request sinks start).1.executions
  unfolding run_writeback
  run_writeback-IsGated =
      write_if_found-Gated _ (get_sink strip normalize request.target sinks) refl
