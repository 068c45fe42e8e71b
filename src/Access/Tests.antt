-- ===== src/Access/Tests.antt =====
-- The witnesses of the properties of entitlements and payments.
use agent_connector_sdk.Base.{
  ℕ, ◌+◌, ltb, leb, String, ◌≡◌, refl, true, false, ◌&&◌, Option, none, some, List, [], ◌∷◌,
  contains, is_distinct, ok,
}
use agent_connector_sdk.Access.Entitlements.{
  Actor, default_super_caps, entitled_resources, is_entitled, identity_scoped_resources,
  require_entitled, require_identity, split_cap, grants_all_in_namespace, unique, without,
}
use agent_connector_sdk.Access.Entitlements.Resolve.{
  require_entitled-scoped, contains-entitled_resources,
}
use agent_connector_sdk.Access.Payments.{
  Amounts, BudgetLimits, Challenge, Proof, Client, confirmed, failed, create_proof, proof_matches,
  record_spend, spent, record_payment, validate, rules,
}
use agent_connector_sdk.Access.Payments.Spending.{
  IsWithin, settled, fresh as new_client, reachable-IsWithin,
}
use agent_connector_sdk.Access.Payments.History.{
  payment, new_day, IsLedger, serve_all, fresh, run-IsLedger,
}

-- No capability here has a colon, or blanks around it.
abbrev bare : String → Option (String × String)
bare cap = none

abbrev as_is : String → String
as_is text = text

abbrev analyst : Actor
analyst = record {
  has_anonymous_type = false;
  authenticated = true;
  actor_id = "ada";
  tenant_id = "acme";
  roles = "search" ∷ [];
  groups = "tool:mail" ∷ [];
}

abbrev catalog : List String
catalog = "mail" ∷ "search" ∷ "deploy" ∷ []

require_entitled-scoped_example :
    require_entitled bare as_is default_super_caps "tool" "mail" analyst ≡ ok tt
unfolding identity_scoped_resources require_identity entitled_resources grants_all_in_namespace
    split_cap unique without
require_entitled-scoped_example =
    require_entitled-scoped bare as_is default_super_caps "tool" "mail" catalog
      ("mail" ∷ "search" ∷ []) analyst refl refl

contains-entitled_resources_example :
    let entitled =
      entitled_resources bare as_is default_super_caps
        ("mail" ∷ "tool:deploy" ∷ [])
        "tool"
        (some catalog) in
    (contains "deploy" entitled ≡ (
      contains "deploy" catalog
      && is_entitled bare as_is default_super_caps ("mail" ∷ "tool:deploy" ∷ []) "tool" "deploy"))
    × (is_distinct entitled ≡ true)
contains-entitled_resources_example =
    contains-entitled_resources bare as_is default_super_caps ("mail" ∷ "tool:deploy" ∷ []) "tool"
      "deploy" catalog

-- Amounts in cents.
abbrev cents : Amounts ℕ
cents = record {
  nothing = 0;
  add = λ a b. a + b;
  exceeds = λ a b. ltb b a;
  equal = λ a b. leb a b && leb b a;
  is_valid = λ a. true;
}

abbrev limits : BudgetLimits ℕ
limits = record {
  max_single_payment = 100;
  max_daily_spend = 200;
  max_monthly_spend = 500;
  allowed_currencies = "USDC" ∷ [];
  allowed_chains = "base" ∷ [];
  require_approval_above = 100;
}

abbrev as_number : ℕ → String
as_number n = "pay:000001"

abbrev challenge : Challenge ℕ
challenge = record {
  resource_url = "https://example.org/report";
  amount = 50;
  currency = "USDC";
  recipient_address = "0xb";
  chain = "base";
  challenge_id = "c1";
}

abbrev proof : Option (Proof ℕ)
unfolding create_proof
proof = some (create_proof cents limits "0xa" as_is as_number challenge "0xt")

abbrev paid : Client ℕ
unfolding record_payment proof
paid =
    (record_payment cents limits "0xa" as_is as_number challenge proof confirmed ""
      (fresh cents limits "0xa" as_is as_number)).1

reachable-IsWithin_example : IsWithin cents limits "0xa" as_is as_number paid
unfolding paid record_payment spent proof create_proof proof_matches record_spend validate rules
reachable-IsWithin_example =
    reachable-IsWithin cents limits "0xa" as_is as_number paid refl refl
      (settled _ paid challenge proof "" _ new_client refl refl)

run-IsLedger_example : IsLedger cents limits "0xa" as_is as_number (
    serve_all cents limits "0xa" as_is as_number
      (payment challenge proof confirmed ""
        ∷ new_day
        ∷ payment challenge none failed "declined"
        ∷ [])
      (fresh cents limits "0xa" as_is as_number))
run-IsLedger_example =
    run-IsLedger cents limits "0xa" as_is as_number (
      payment challenge proof confirmed ""
      ∷ new_day
      ∷ payment challenge none failed "declined"
      ∷ [])
