-- ===== src/Access/Payments/Spending.antt =====
-- The limits of scion_sdk/payments.py along the workflow that its client documents: a challenge is
-- authorized, and the payment that settles it is recorded before the next challenge is authorized.
use agent_connector_sdk.Base.{
  ℕ, String, ◌≡◌, refl, arith, false, Option, none, [], inl, inr, ok, Result-cases,
}
use agent_connector_sdk.Access.Payments.{
  Amounts, Challenge, Proof, Payment, Guard, Client, BudgetLimits, Status, confirmed, is_confirmed,
  first_failing, rules, validate, record_spend, reset_daily, reset_monthly, spent_on, spent,
  appended, record_payment,
}

module _ {A : Type 0} (amounts : Amounts A) (limits : BudgetLimits A) (wallet_address : String)
    (strip : String → String) (payment_id : ℕ → String) where
  -- What a client can come to, where a confirmed payment is recorded only of a challenge that was
  -- authorized in the same state.
  pub data Reachable : Client A → Type 0 where
    fresh : Reachable (record {
      guard = record {
        daily_spend = amounts.nothing;
        monthly_spend = amounts.nothing;
        payment_count = 0;
      };
      records = [];
      counter = 0;
    })
    settled :
        (client client' : Client A) (challenge : Challenge A) (proof : Option (Proof A))
        (message : String) (payment : Payment A)
        → Reachable client
        → validate amounts limits wallet_address strip payment_id client.guard challenge ≡ none
        → record_payment amounts limits wallet_address strip payment_id challenge proof confirmed
            message client
          ≡ (ok payment, client')
        → Reachable client'
    noted :
        (client : Client A) (challenge : Challenge A) (proof : Option (Proof A)) (status : Status)
        (message : String)
        → is_confirmed status ≡ false
        → Reachable client
        → Reachable
            (record_payment amounts limits wallet_address strip payment_id challenge proof status
              message client).1
    new_day :
        (client : Client A)
        → Reachable client
        → Reachable (reset_daily amounts limits wallet_address strip payment_id client)
    new_month :
        (client : Client A)
        → Reachable client
        → Reachable (reset_monthly amounts limits wallet_address strip payment_id client)

  abbrev pub IsWithin : Client A → Type 0
  IsWithin client =
      (amounts.exceeds client.guard.daily_spend limits.max_daily_spend ≡ false)
      × (amounts.exceeds client.guard.monthly_spend limits.max_monthly_spend ≡ false)

  validate-IsWithin :
      (guard : Guard A) (challenge : Challenge A)
      → validate amounts limits wallet_address strip payment_id guard challenge ≡ none
      → (amounts.exceeds (amounts.add guard.daily_spend challenge.amount) limits.max_daily_spend
          ≡ false)
        × (amounts.exceeds
              (amounts.add guard.monthly_spend challenge.amount)
              limits.max_monthly_spend
            ≡ false)
  unfolding validate rules first_failing
  validate-IsWithin guard challenge approved = ground arith

  spent_guard :
      (guard guard' : Guard A) (challenge : Challenge A) (proof : Option (Proof A))
      → spent amounts limits wallet_address strip payment_id guard challenge proof confirmed
        ≡ ok guard'
      → (guard'.daily_spend ≡ amounts.add guard.daily_spend challenge.amount)
        × (guard'.monthly_spend ≡ amounts.add guard.monthly_spend challenge.amount)
  unfolding spent spent_on record_spend
  spent_guard guard guard' challenge proof h = ground arith

  settled-IsWithin :
      (client client' : Client A) (challenge : Challenge A) (proof : Option (Proof A))
      (message : String) (payment : Payment A)
      → validate amounts limits wallet_address strip payment_id client.guard challenge ≡ none
      → record_payment amounts limits wallet_address strip payment_id challenge proof confirmed
          message client
        ≡ (ok payment, client')
      → IsWithin client'
  unfolding record_payment appended
  settled-IsWithin client client' challenge proof message payment approved h =
      elim (Result-cases (
        spent amounts limits wallet_address strip payment_id client.guard challenge proof
          confirmed)) [
            | inl (error, fails) ↦ absurd (ground (arith, rw (record_payment, fails) at h))
            | inr (guard, holds) ↦
                let (daily, monthly) = spent_guard client.guard guard challenge proof holds in
                let (within, below) = validate-IsWithin client.guard challenge approved in
                let same : client'.guard ≡ guard =
                  ground (arith, rw (record_payment, holds) at h) in
                rw (same, daily, monthly) (within, below)
          ]

  noted-guard :
      (client : Client A) (challenge : Challenge A) (proof : Option (Proof A)) (status : Status)
      (message : String)
      → is_confirmed status ≡ false
      → (record_payment amounts limits wallet_address strip payment_id challenge proof status
          message client).1.guard
        ≡ client.guard
  unfolding record_payment appended spent
  noted-guard client challenge proof status message h = rw (record_payment, spent, h) refl

  -- If no spend at all is within the daily and the monthly limit, then so are the spends of a client
  -- in each state that it reaches, where a confirmed payment is recorded only of a challenge that was
  -- authorized in the same state. Unconfirmed payments and resets may come in between.
  pub reachable-IsWithin :
      (client : Client A)
      → amounts.exceeds amounts.nothing limits.max_daily_spend ≡ false
      → amounts.exceeds amounts.nothing limits.max_monthly_spend ≡ false
      → Reachable client
      → IsWithin client
  unfolding reset_daily reset_monthly
  reachable-IsWithin _ day month fresh = (day, month)
  reachable-IsWithin _ day month
        (settled client client' challenge proof message payment before approved recorded) =
      settled-IsWithin client client' challenge proof message payment approved recorded
  reachable-IsWithin _ day month (noted client challenge proof status message quiet before) =
      rw (noted-guard client challenge proof status message quiet)
        (reachable-IsWithin client day month before)
  reachable-IsWithin _ day month (new_day client before) =
      let (_, monthly) = reachable-IsWithin client day month before in (day, monthly)
  reachable-IsWithin _ day month (new_month client before) =
      let (daily, _) = reachable-IsWithin client day month before in (daily, month)
