-- ===== src/Access/Entitlements/Resolve.antt =====
-- The resolver and the test of one resource agree.
use agent_connector_sdk.Base.{
  String, ◌≡◌, refl, ap, Bool, true, false, not, ◌&&◌, Option, some, List, [], ◌∷◌, arith, str_eq,
  eq_iff, contains, is_distinct, ok, Bool-cases, Result-cases, inl, inr,
}
use agent_connector_sdk.Access.Entitlements.{
  Actor, is_anonymous, without, unique, keep, grants_all_in_namespace, entitled_resources,
  is_entitled, require_identity, capabilities_of, identity_scoped_resources, require_entitled,
}

contains-without :
    (x y : String) (ys : List String)
    → contains x (without y ys) ≡ (contains x ys && not (str_eq x y))
unfolding without
contains-without x y [] = refl
contains-without x y (z ∷ zs) =
    ground (arith, eq_iff x y, eq_iff y z, eq_iff x z, contains-without x y zs)

contains-unique : (x : String) (xs : List String) → contains x (unique xs) ≡ contains x xs
unfolding unique
contains-unique x [] = refl
contains-unique x (y ∷ ys) =
    ground (arith, eq_iff x y, contains-without x y (unique ys), contains-unique x ys)

without-is_distinct :
    (x : String) (xs : List String) → is_distinct xs ≡ true → is_distinct (without x xs) ≡ true
unfolding without
without-is_distinct x [] h = refl
without-is_distinct x (y ∷ ys) h =
    ground (arith, eq_iff x y, contains-without y x ys, without-is_distinct x ys)

unique-is_distinct : (xs : List String) → is_distinct (unique xs) ≡ true
unfolding unique
unique-is_distinct [] = refl
unique-is_distinct (x ∷ xs) = ground (
  arith,
  eq_iff x x,
  contains-without x x (unique xs),
  without-is_distinct x (unique xs) (unique-is_distinct xs),
)

contains-keep :
    (test : String → Bool) (x : String) (xs : List String)
    → contains x (keep test xs) ≡ (contains x xs && test x)
contains-keep test x [] = refl
contains-keep test x (y ∷ ys) = elim (Bool-cases (str_eq x y)) [
  | inl e ↦ ground (arith, e, ap test ((eq_iff x y).0 e), contains-keep test x ys)
  | inr e ↦ ground (arith, e, contains-keep test x ys)
]

keep-is_distinct :
    (test : String → Bool) (xs : List String)
    → is_distinct xs ≡ true
    → is_distinct (keep test xs) ≡ true
keep-is_distinct test [] h = refl
keep-is_distinct test (x ∷ xs) h = ground (arith, contains-keep test x xs, keep-is_distinct test xs)

module _ (partition : String → Option (String × String)) (strip : String → String)
    (super_caps : List String) where
  -- The resources that the resolver gives are those of the catalog that the test of one resource
  -- allows, each of them once.
  pub contains-entitled_resources :
      (capabilities : List String) (namespace resource : String) (available : List String)
      → let entitled =
          entitled_resources partition strip super_caps capabilities namespace (some available) in
        (contains resource entitled ≡ (
          contains resource available
          && is_entitled partition strip super_caps capabilities namespace resource))
        × (is_distinct entitled ≡ true)
  unfolding entitled_resources is_entitled
  contains-entitled_resources capabilities namespace resource available =
      elim (Bool-cases
        (grants_all_in_namespace partition strip super_caps capabilities namespace)) [
          | inl e ↦
              rw e
                (ground (arith, contains-unique resource available), unique-is_distinct available)
          | inr e ↦ rw e (
            rw (contains-keep, contains-unique) refl,
            keep-is_distinct _ (unique available) (unique-is_distinct available),
          )
        ]

  identity_scoped_resources-eq-ok :
      (namespace : String) (available entitled : List String) (actor : Actor)
      → is_anonymous actor ≡ false
      → identity_scoped_resources partition strip super_caps namespace available actor ≡ ok entitled
      → (require_identity partition strip super_caps actor ≡ ok tt)
        × (entitled_resources partition strip super_caps
              (capabilities_of actor)
              namespace
              (some available)
            ≡ entitled)
  unfolding identity_scoped_resources
  identity_scoped_resources-eq-ok namespace available entitled actor named h =
      elim (Result-cases (require_identity partition strip super_caps actor)) [
        | inl (error, fails) ↦
            absurd (ground (arith, rw (identity_scoped_resources, fails, named) at h))
        | inr (_, holds) ↦
            (holds, ground (arith, rw (identity_scoped_resources, holds, named) at h))
      ]

  scoped_member :
      (namespace resource : String) (available entitled : List String) (actor : Actor)
      → identity_scoped_resources partition strip super_caps namespace available actor ≡ ok entitled
      → contains resource entitled ≡ true
      → is_anonymous actor ≡ false
  unfolding identity_scoped_resources
  scoped_member namespace resource available entitled actor h member =
      elim (Bool-cases (is_anonymous actor)) [
        | inl e ↦ absurd (ground (arith, rw (identity_scoped_resources, e) at h))
        | inr e ↦ e
      ]

  -- A resource that is loaded for an actor by default is one that the actor may reach: asked for by
  -- itself it is not refused.
  pub require_entitled-scoped :
      (namespace resource : String) (available entitled : List String) (actor : Actor)
      → identity_scoped_resources partition strip super_caps namespace available actor ≡ ok entitled
      → contains resource entitled ≡ true
      → require_entitled partition strip super_caps namespace resource actor ≡ ok tt
  unfolding require_entitled
  require_entitled-scoped namespace resource available entitled actor h member =
      let named = scoped_member namespace resource available entitled actor h member in
      let (holds, found) =
        identity_scoped_resources-eq-ok namespace available entitled actor named h in
      let (agrees, _) =
        contains-entitled_resources (capabilities_of actor) namespace resource available in
      let allowed : is_entitled partition strip super_caps (capabilities_of actor) namespace
            resource
          ≡ true =
        ground (arith, agrees, found, member) in
      rw (require_entitled, holds, allowed) refl
