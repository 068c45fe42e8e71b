-- ===== src/Access/Payments.antt =====
-- scion_sdk/payments.py, _payment_guard.py and _payment_models.py: payments within budget limits.
-- Amounts are floats, a parameter with the operations that the code uses; `strip` is `str.strip`, and
-- `payment_id` renders a number as `pay:000001`.
pub mod Spending
pub mod History
use agent_connector_sdk.Base.{
  ℕ, ◌+◌, String, Bool, true, false, not, ◌&&◌, ◌||◌, Option, none, some, List, [], ◌∷◌, ◌++◌,
  str_eq, contains, if◌then◌else◌, Result, ok, err, Action, pure, lift, require, bind, ◌>>=◌, ◌>>◌,
}

-- Python's floats: `is_valid` is `_valid_amount` (finite and not negative).
pub record Amounts (A : Type 0) : Type 0 where
  pub nothing : A
  pub add : A → A → A
  pub exceeds : A → A → Bool
  pub equal : A → A → Bool
  pub is_valid : A → Bool

pub data Status : Type 0 where
  pending challenged signed submitted confirmed failed rejected_by_guard : Status

-- `PaymentChallenge`, with the fields that the client reads.
pub record Challenge (A : Type 0) : Type 0 where
  pub resource_url : String
  pub amount : A
  pub currency : String
  pub recipient_address : String
  pub chain : String
  pub challenge_id : String

-- `PaymentProof`, without the hash and the time that it is rendered with.
pub record Proof (A : Type 0) : Type 0 where
  pub challenge_id : String
  pub transaction_hash : String
  pub amount : A
  pub currency : String
  pub chain : String
  pub sender_address : String
  pub recipient_address : String

pub record Payment (A : Type 0) : Type 0 where
  pub payment_id : String
  pub status : Status
  pub challenge : Challenge A
  pub proof : Option (Proof A)
  pub error_message : String

pub record BudgetLimits (A : Type 0) : Type 0 where
  pub max_single_payment : A
  pub max_daily_spend : A
  pub max_monthly_spend : A
  pub allowed_currencies : List String
  pub allowed_chains : List String
  pub require_approval_above : A

pub record Guard (A : Type 0) : Type 0 where
  pub daily_spend : A
  pub monthly_spend : A
  pub payment_count : ℕ

-- `X402PaymentClient`, its limits aside.
pub record Client (A : Type 0) : Type 0 where
  pub guard : Guard A
  pub records : List (Payment A)
  pub counter : ℕ

-- The reasons of `_violations`, in rule order.
pub data Violation : Type 0 where
  invalid_amount currency_not_allowed chain_not_allowed above_single : Violation
  above_daily above_monthly approval_required : Violation

-- `ValueError` by its message.
pub data Error : Type 0 where
  not_an_amount out_of_range proof_mismatch : Error

abbrev pub is_confirmed : Status → Bool
is_confirmed confirmed = true
is_confirmed _ = false

module _ {A : Type 0} (amounts : Amounts A) (limits : BudgetLimits A) (wallet_address : String)
    (strip : String → String) (payment_id : ℕ → String) where
  abbrev are_limits_valid : Bool
  are_limits_valid =
      amounts.is_valid limits.max_single_payment
      && amounts.is_valid limits.max_daily_spend
      && amounts.is_valid limits.max_monthly_spend
      && amounts.is_valid limits.require_approval_above

  first_failing : List (Bool × Violation) → Option Violation
  first_failing [] = none
  first_failing ((fails, violation) ∷ rules) =
      let rest = first_failing rules in if fails then some violation else rest

  -- `_violations`, each rule with whether it fails.
  unfoldable pub rules : Guard A → Challenge A → List (Bool × Violation)
  rules guard challenge =
      (not (contains challenge.currency limits.allowed_currencies), currency_not_allowed)
      ∷ (not (contains challenge.chain limits.allowed_chains), chain_not_allowed)
      ∷ (amounts.exceeds challenge.amount limits.max_single_payment, above_single)
      ∷ (
        amounts.exceeds (amounts.add guard.daily_spend challenge.amount) limits.max_daily_spend,
        above_daily,
      )
      ∷ (
        amounts.exceeds (amounts.add guard.monthly_spend challenge.amount) limits.max_monthly_spend,
        above_monthly,
      )
      ∷ (amounts.exceeds challenge.amount limits.require_approval_above, approval_required)
      ∷ []

  -- `validate`: the reason of the refusal, or `none` if the challenge is approved.
  unfoldable pub validate : Guard A → Challenge A → Option Violation
  unfolding first_failing rules
  validate guard challenge =
      if amounts.is_valid challenge.amount && are_limits_valid
      then first_failing (rules guard challenge)
      else some invalid_amount

  -- `record_spend`
  unfoldable pub record_spend : Guard A → A → Result Error (Guard A)
  record_spend guard amount =
      let daily = amounts.add guard.daily_spend amount in
      let monthly = amounts.add guard.monthly_spend amount in
      bind (require (amounts.is_valid amount) not_an_amount) λ _.
        bind (require (amounts.is_valid daily && amounts.is_valid monthly) out_of_range) λ _.
          ok (record {
            daily_spend = daily;
            monthly_spend = monthly;
            payment_count = guard.payment_count + 1;
          })

  unfoldable pub reset_daily : Client A → Client A
  reset_daily client = record client {
    guard = record client.guard { daily_spend = amounts.nothing };
  }

  unfoldable pub reset_monthly : Client A → Client A
  reset_monthly client = record client {
    guard = record client.guard { monthly_spend = amounts.nothing };
  }

  -- `create_proof`
  unfoldable pub create_proof : Challenge A → String → Proof A
  create_proof challenge transaction_hash = record {
    challenge_id = challenge.challenge_id;
    transaction_hash = transaction_hash;
    amount = challenge.amount;
    currency = challenge.currency;
    chain = challenge.chain;
    sender_address = wallet_address;
    recipient_address = challenge.recipient_address;
  }

  -- `_proof_matches`
  unfoldable pub proof_matches : Challenge A → Option (Proof A) → Bool
  proof_matches challenge none = false
  proof_matches challenge (some proof) =
      not (str_eq (strip challenge.challenge_id) "")
      && not (str_eq (strip proof.transaction_hash) "")
      && str_eq proof.challenge_id challenge.challenge_id
      && amounts.equal proof.amount challenge.amount
      && str_eq proof.currency challenge.currency
      && str_eq proof.chain challenge.chain
      && str_eq proof.recipient_address challenge.recipient_address
      && str_eq proof.sender_address wallet_address

  spent_on : Guard A → Challenge A → Option (Proof A) → Result Error (Guard A)
  unfolding proof_matches record_spend
  spent_on guard challenge proof =
      bind (require (proof_matches challenge proof) proof_mismatch)
        λ _. record_spend guard challenge.amount

  -- The guard after a payment of a status: only a confirmed one is checked and spent.
  unfoldable pub spent : Guard A → Challenge A → Option (Proof A) → Status → Result Error (Guard A)
  unfolding spent_on
  spent guard challenge proof status =
      let confirmed = spent_on guard challenge proof in
      if is_confirmed status then confirmed else ok guard

  appended :
      Client A
      → Challenge A
      → Option (Proof A)
      → Status
      → String
      → Guard A
      → Result Error (Payment A) × Client A
  appended client challenge proof status message guard =
      let payment : Payment A = record {
        payment_id = payment_id (client.counter + 1);
        status = status;
        challenge = challenge;
        proof = proof;
        error_message = message;
      } in
      (
        ok payment,
        record {
          guard = guard;
          records = client.records ++ (payment ∷ []);
          counter = client.counter + 1;
        },
      )

  -- `record_payment`
  unfoldable pub record_payment :
      Challenge A
      → Option (Proof A)
      → Status
      → String
      → Client A
      → Result Error (Payment A) × Client A
  unfolding spent appended
  record_payment challenge proof status message client =
      elim (spent client.guard challenge proof status) [
        | err error ↦ (err error, client)
        | ok guard ↦ appended client challenge proof status message guard
      ]
