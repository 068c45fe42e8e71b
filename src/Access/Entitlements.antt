-- ===== src/Access/Entitlements.antt =====
-- scion_sdk/entitlements.py: which resources a caller's capabilities reach. `partition` is
-- `str.partition(":")` at the first colon, `none` if there is none.
pub mod Resolve
use Prim.Native.String.{◌++◌ as concat}
use agent_connector_sdk.Base.{
  String, Bool, true, false, not, ◌&&◌, ◌||◌, Option, none, some, List, [], ◌∷◌, ◌++◌, str_eq,
  contains, if◌then◌else◌, Result, ok, err, bind, require,
}
use agent_connector_sdk.Base.Dict.{Dict, get, insert}

abbrev pub default_super_caps : List String
default_super_caps = "admin" ∷ "system" ∷ []

-- `_NAMESPACE_WILDCARDS`
abbrev pub namespace_wildcards : List String
namespace_wildcards = "*" ∷ "admin" ∷ "all" ∷ []

-- The actor whose entitlements are asked for; `has_anonymous_type` is the test of its type.
pub record Actor : Type 0 where
  pub has_anonymous_type : Bool
  pub authenticated : Bool
  pub actor_id : String
  pub tenant_id : String
  pub roles : List String
  pub groups : List String

-- `is_anonymous` of scion_sdk/identity.py
abbrev pub is_anonymous : Actor → Bool
is_anonymous actor = actor.has_anonymous_type && not actor.authenticated

abbrev pub capabilities_of : Actor → List String
capabilities_of actor = actor.roles ++ actor.groups

-- `EntitlementError` by its reason.
pub data Error : Type 0 where
  anonymous_caller authentication_required tenant_required not_entitled : Error

pub record CatalogResource : Type 0 where
  pub identifier : String
  pub namespace : String

-- `dict.fromkeys`: each value once, in the order of its first occurrence.
unfoldable pub without : String → List String → List String
without x [] = []
without x (y ∷ ys) = let rest = without x ys in if str_eq x y then rest else y ∷ rest

unfoldable pub unique : List String → List String
unfolding without
unique [] = []
unique (x ∷ xs) = x ∷ without x (unique xs)

-- `f"{namespace}:{resource}"`
abbrev pub qualified : String → String → String
qualified namespace resource = concat namespace (concat ":" resource)

-- The resources that one of the tests holds for, in order.
abbrev pub keep : (String → Bool) → List String → List String
keep test [] = []
keep test (x ∷ xs) = let rest = keep test xs in if test x then x ∷ rest else rest

module _ (partition : String → Option (String × String)) (strip : String → String)
    (super_caps : List String) where
  -- `_split_cap`
  unfoldable pub split_cap : String → Option (String × String)
  split_cap cap = elim (partition cap) [
    | none ↦ none
    | some (namespace, resource) ↦ some (strip namespace, strip resource)
  ]

  is_wildcard : String → Option (String × String) → Bool
  is_wildcard namespace none = false
  is_wildcard namespace (some (ns, resource)) =
      str_eq ns namespace && contains resource namespace_wildcards

  unfoldable pub grants_all_in_namespace : List String → String → Bool
  unfolding split_cap is_wildcard
  grants_all_in_namespace [] namespace = false
  grants_all_in_namespace (cap ∷ capabilities) namespace =
      let rest = grants_all_in_namespace capabilities namespace in
      if contains cap super_caps
      then true
      else if is_wildcard namespace (split_cap cap)
      then true
      else rest

  -- A capability names the resource, in its namespace or bare.
  abbrev pub names : List String → String → String → Bool
  names capabilities namespace resource =
      contains (qualified namespace resource) capabilities || contains resource capabilities

  named_by : String → Option (String × String) → List String
  named_by namespace none = []
  named_by namespace (some (ns, resource)) =
      if str_eq ns namespace && not (contains resource namespace_wildcards)
      then resource ∷ []
      else []

  -- The resources that the namespaced capabilities name, where there is no catalog.
  named : List String → String → List String
  unfolding split_cap named_by
  named [] namespace = []
  named (cap ∷ capabilities) namespace =
      named_by namespace (split_cap cap) ++ named capabilities namespace

  unfoldable pub entitled_resources : List String → String → Option (List String) → List String
  unfolding unique named
  entitled_resources capabilities namespace none = unique (named capabilities namespace)
  entitled_resources capabilities namespace (some available) =
      if grants_all_in_namespace capabilities namespace
      then unique available
      else keep (names capabilities namespace) (unique available)

  unfoldable pub is_entitled : List String → String → String → Bool
  is_entitled capabilities namespace resource =
      if grants_all_in_namespace capabilities namespace
      then true
      else names capabilities namespace resource

  -- `_require_identity`; `strip` tells a blank identity.
  unfoldable pub require_identity : Actor → Result Error (Unit {0})
  require_identity actor = bind (require (not (is_anonymous actor)) anonymous_caller) λ _.
      bind
        (require (actor.authenticated && not (str_eq (strip actor.actor_id) ""))
          authentication_required)
        λ _. require (not (str_eq (strip actor.tenant_id) "")) tenant_required

  unfoldable pub identity_scoped_resources :
      String → List String → Actor → Result Error (List String)
  unfolding require_identity entitled_resources
  identity_scoped_resources namespace available actor =
      if is_anonymous actor
      then ok []
      else bind (require_identity actor)
          λ _. ok (entitled_resources (capabilities_of actor) namespace (some available))

  unfoldable pub require_entitled : String → String → Actor → Result Error (Unit {0})
  unfolding require_identity is_entitled
  require_entitled namespace resource actor =
      bind (require_identity actor)
        λ _. require (is_entitled (capabilities_of actor) namespace resource) not_entitled

  -- `setdefault(namespace, []).append(identifier)`
  unfoldable pub group : List CatalogResource → Dict (List String) → Dict (List String)
  group [] by_namespace = by_namespace
  group (resource ∷ catalog) by_namespace =
      let held : List String = elim (get resource.namespace by_namespace) [
        | none ↦ []
        | some ids ↦ ids
      ] in
      group catalog (insert resource.namespace (held ++ (resource.identifier ∷ [])) by_namespace)

  resolve_groups : List String → Dict (List String) → List String
  unfolding entitled_resources
  resolve_groups capabilities [] = []
  resolve_groups capabilities ((namespace, identifiers) ∷ groups) =
      entitled_resources capabilities namespace (some identifiers)
      ++ resolve_groups capabilities groups

  unfoldable pub catalog_entitled_resources : List String → List CatalogResource → List String
  unfolding group resolve_groups
  catalog_entitled_resources capabilities catalog = resolve_groups capabilities (group catalog [])
