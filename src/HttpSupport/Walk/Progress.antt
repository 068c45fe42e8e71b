-- ===== src/HttpSupport/Walk/Progress.antt =====
-- A walk never leaves the origin of its first request, and never asks twice for one URL or token.
use agent_connector_sdk.Base.{
  bind-eq-ok, String, ◌≡◌, refl, sym, ap, ◌∙◌, subst, Bool, true, false, Option, none, some, List,
  ◌∷◌, arith, contains, str_eq, Bool-cases, inl, inr, Result, ok, or_raise, require,
}
use agent_connector_sdk.Base.Dict.{Dict, insert}
use agent_connector_sdk.HttpSupport.Values.{
  Error, Values, Urls, Origin, same_origin, safe_origin, dig,
}
use agent_connector_sdk.HttpSupport.Walk.{
  Mode, cursor, page, offset, link, since_id, next_url, Config, Walk, Request, Next, follows_urls,
  cursor_at, last_id, advance_token, advance_cursor, advance_since, stop, followed, follow_url,
  or_follow, advance,
}

module _ {J : Type 0} (values : Values J) (urls : Urls)
    (link_target : Dict String → Option String) where
  -- The next request of a walk that follows URLs: a URL of the first origin that was not asked for.
  pub record IsFresh (walk : Walk) (url : String) : Type 0 where
    pub origin : Origin
    pub has_origin : safe_origin urls url ≡ ok origin
    pub allowed : same_origin origin walk.first_origin ≡ true
    pub unseen : contains url walk.seen_urls ≡ false

  -- What a step to another URL leaves.
  pub record Followed (walk : Walk) (request : Request J) (walk' : Walk) : Type 0 where
    pub fresh : IsFresh walk request.0
    pub same_start : walk'.first_origin ≡ walk.first_origin
    pub recorded : walk'.seen_urls ≡ request.0 ∷ walk.seen_urls
    pub same_tokens : walk'.tokens ≡ walk.tokens

  require-eq-ok : (b : Bool) (e : Error) {u : Unit {0}} → require b e ≡ ok u → b ≡ true
  require-eq-ok true e h = refl
  require-eq-ok false e h = cc

  followed-eq-some :
      (walk walk' : Walk) (absolute : String) (request : Request J)
      → followed values urls link_target walk absolute ≡ ok (some request, walk')
      → (request.0 ≡ absolute)
        × (contains absolute walk.seen_urls ≡ false)
        × (walk'.first_origin ≡ walk.first_origin)
        × (walk'.seen_urls ≡ absolute ∷ walk.seen_urls)
        × (walk'.tokens ≡ walk.tokens)
  unfolding followed
  followed-eq-some walk walk' absolute request h = ground arith

  follow_url-eq-some :
      (walk walk' : Walk) (raw : String) (request : Request J)
      → follow_url values urls link_target walk raw ≡ ok (some request, walk')
      → Followed walk request walk'
  unfolding follow_url
  follow_url-eq-some walk walk' raw request h =
      let (absolute, joined, h1) =
        bind-eq-ok (or_raise (urls.urljoin walk.current_url raw) _) _ h in
      let (origin, has_origin, h2) = bind-eq-ok (safe_origin urls absolute) _ h1 in
      let (_, allowed, h3) = bind-eq-ok (require (same_origin origin walk.first_origin) _) _ h2 in
      let (same, unseen, kept, seen, tokens) = followed-eq-some walk walk' absolute request h3 in
      record {
        fresh = record {
          origin = origin;
          has_origin = subst (λ url. safe_origin urls url ≡ ok origin) (sym same) has_origin;
          allowed = require-eq-ok _ _ allowed;
          unseen = subst (λ url. contains url walk.seen_urls ≡ false) (sym same) unseen;
        };
        same_start = kept;
        recorded = seen ∙ ap (λ url. url ∷ walk.seen_urls) (sym same);
        same_tokens = tokens;
      }

  or_follow-eq-some :
      (walk walk' : Walk) (raw : Option String) (request : Request J)
      → or_follow values urls link_target walk raw ≡ ok (some request, walk')
      → Followed walk request walk'
  unfolding or_follow
  or_follow-eq-some walk walk' none request h = absurd (grind arith)
  or_follow-eq-some walk walk' (some raw) request h = elim (Bool-cases (str_eq raw "")) [
    | inl e ↦ absurd (ground arith)
    | inr e ↦ follow_url-eq-some walk walk' raw request (ground arith)
  ]

  mode-Followed :
      (config : Config J) (walk walk' : Walk) (items : List J) (body : J) (headers : Dict String)
      (request : Request J) (mode : Mode)
      → config.mode ≡ mode
      → follows_urls mode ≡ true
      → advance values urls link_target config walk items body headers ≡ ok (some request, walk')
      → Followed walk request walk'
  unfolding advance
  mode-Followed config walk walk' items body headers request link e f h =
      or_follow-eq-some walk walk' (link_target headers) request (rw (sym h, e) refl)
  mode-Followed config walk walk' items body headers request next_url e f h =
      or_follow-eq-some walk walk' (values.as_text (dig values urls body config.next_path)) request
        (rw (sym h, e) refl)
  mode-Followed config walk walk' items body headers request cursor e f h = absurd cc
  mode-Followed config walk walk' items body headers request page e f h = absurd cc
  mode-Followed config walk walk' items body headers request offset e f h = absurd cc
  mode-Followed config walk walk' items body headers request since_id e f h = absurd cc

  -- In the modes that follow URLs, a next request is for a URL of the first request's origin that
  -- the walk has not asked for, and the walk records it.
  pub advance-Followed :
      (config : Config J) (walk walk' : Walk) (items : List J) (body : J) (headers : Dict String)
      (request : Request J)
      → follows_urls config.mode ≡ true
      → advance values urls link_target config walk items body headers ≡ ok (some request, walk')
      → Followed walk request walk'
  advance-Followed config walk walk' items body headers request f h =
      mode-Followed config walk walk' items body headers request config.mode refl f h

  -- A step by a token: the next request asks the endpoint with the token under its parameter, and
  -- the token is new and then known.
  pub record Continued (config : Config J) (token : J) (parameter : String) (walk : Walk)
      (request : Request J) (walk' : Walk) : Type 0 where
    pub asked : request ≡ (config.endpoint, insert parameter token config.base_params)
    pub is_new : contains (values.fingerprint token) walk.tokens ≡ false
    pub kept : walk'.tokens ≡ values.fingerprint token ∷ walk.tokens
    pub offered : walk'.next_cursor ≡ some (values.text_of token)

  advance_token-Continued :
      (config : Config J) (walk walk' : Walk) (token : J) (parameter : String) (request : Request J)
      → advance_token values urls link_target config walk token parameter ≡ (some request, walk')
      → Continued config token parameter walk request walk'
  unfolding advance_token
  advance_token-Continued config walk walk' token parameter request h = record {
    asked = ground arith;
    is_new = ground arith;
    kept = ground arith;
    offered = ground arith;
  }

  advance_cursor-Continued :
      (config : Config J) (walk walk' : Walk) (token : J) (request : Request J)
      → advance_cursor values urls link_target config walk token ≡ (some request, walk')
      → Continued config token config.cursor_param walk request walk'
  unfolding advance_cursor stop
  advance_cursor-Continued config walk walk' token request h =
      elim (Bool-cases (values.is_truthy token)) [
        | inl e ↦
            advance_token-Continued config walk walk' token config.cursor_param request
              (ground arith)
        | inr e ↦ absurd (ground arith)
      ]

  advance_since-Continued :
      (config : Config J) (walk walk' : Walk) (items : List J) (request : Request J)
      → advance_since values urls link_target config walk items ≡ (some request, walk')
      → Continued config
          (last_id values urls link_target config items)
          config.since_param
          walk
          request
          walk'
  unfolding advance_since stop
  advance_since-Continued config walk walk' items request h =
      let token = last_id values urls link_target config items in
      elim (Bool-cases (values.is_none token)) [
        | inl e ↦ absurd (ground arith)
        | inr e ↦
            advance_token-Continued config walk walk' token config.since_param request
              (ground arith)
      ]

  ok-inj : {a b : Next J} → Path (Result Error (Next J)) (ok a) (ok b) → a ≡ b
  ok-inj h = cc

  abbrev pub is_token_mode : Mode → Bool
  is_token_mode cursor = true
  is_token_mode since_id = true
  is_token_mode _ = false

  -- What a page offers to continue by: the value at the cursor's path of its body, or the identifier
  -- of its last item.
  abbrev pub page_token : Config J → List J → J → Mode → J
  page_token config items body since_id = last_id values urls link_target config items
  page_token config items body _ = cursor_at values urls link_target config body

  abbrev pub parameter_of : Config J → Mode → String
  parameter_of config since_id = config.since_param
  parameter_of config _ = config.cursor_param

  mode-Continued :
      (config : Config J) (walk walk' : Walk) (items : List J) (body : J) (headers : Dict String)
      (request : Request J) (mode : Mode)
      → config.mode ≡ mode
      → is_token_mode mode ≡ true
      → advance values urls link_target config walk items body headers ≡ ok (some request, walk')
      → Continued config
          (page_token config items body mode)
          (parameter_of config mode)
          walk
          request
          walk'
  unfolding advance
  mode-Continued config walk walk' items body headers request cursor e f h =
      advance_cursor-Continued config walk walk' (cursor_at values urls link_target config body)
        request (ok-inj (rw (sym h, e) refl))
  mode-Continued config walk walk' items body headers request since_id e f h =
      advance_since-Continued config walk walk' items request (ok-inj (rw (sym h, e) refl))
  mode-Continued config walk walk' items body headers request link e f h = absurd cc
  mode-Continued config walk walk' items body headers request page e f h = absurd cc
  mode-Continued config walk walk' items body headers request offset e f h = absurd cc
  mode-Continued config walk walk' items body headers request next_url e f h = absurd cc

  -- In the modes that continue by a token, a next request asks the endpoint with the first
  -- parameters and the token of the page, the value at the cursor's path or the identifier of the
  -- last item, under the mode's own parameter. The walk has not used that token, and records it.
  pub advance-Continued :
      (config : Config J) (walk walk' : Walk) (items : List J) (body : J) (headers : Dict String)
      (request : Request J)
      → is_token_mode config.mode ≡ true
      → advance values urls link_target config walk items body headers ≡ ok (some request, walk')
      → Continued config
          (page_token config items body config.mode)
          (parameter_of config config.mode)
          walk
          request
          walk'
  advance-Continued config walk walk' items body headers request f h =
      mode-Continued config walk walk' items body headers request config.mode refl f h
