-- ===== src/Access/Payments/History.antt =====
-- The accounting of scion_sdk/payments.py: what the guard's counters and the records of a client say
-- of each other, whatever payments were recorded or refused.
use agent_connector_sdk.Base.{
  ℕ, ◌+◌, String, ◌≡◌, refl, arith, Option, List, [], ◌∷◌, ◌++◌, length, inl, inr, ok,
  if◌then◌else◌, Result-cases,
}
use agent_connector_sdk.Access.Payments.{
  Amounts, Challenge, Proof, Payment, Guard, Client, BudgetLimits, Status, is_confirmed,
  record_spend, reset_daily, spent_on, spent, appended, record_payment,
}

-- What a caller may do within a month.
pub data Call (A : Type 0) : Type 0 where
  payment : Challenge A → Option (Proof A) → Status → String → Call A
  new_day : Call A

pub count_confirmed : {A : Type 0} → List (Payment A) → ℕ
count_confirmed [] = 0
count_confirmed (x ∷ xs) = let n = count_confirmed xs in if is_confirmed x.status then n + 1 else n

pub Numbered : {A : Type 0} → (ℕ → String) → ℕ → List (Payment A) → Type 0
Numbered payment_id n [] = Unit
Numbered payment_id n (x ∷ xs) =
    (x.payment_id ≡ payment_id (n + 1)) × Numbered payment_id (n + 1) xs

module _ {A : Type 0} (amounts : Amounts A) (limits : BudgetLimits A) (wallet_address : String)
    (strip : String → String) (payment_id : ℕ → String) where
  -- The amounts of the confirmed payments, added in their order.
  pub total : List (Payment A) → A → A
  total [] held = held
  total (x ∷ xs) held =
      total xs (if is_confirmed x.status then amounts.add held x.challenge.amount else held)

  -- The books of a client agree with its records.
  pub record IsLedger (client : Client A) : Type 0 where
    pub sum : client.guard.monthly_spend ≡ total client.records amounts.nothing
    pub count : client.guard.payment_count ≡ count_confirmed client.records
    pub entries : client.counter ≡ length client.records
    pub numbers : Numbered payment_id 0 client.records

  abbrev pub fresh : Client A
  fresh = record {
    guard = record {
      daily_spend = amounts.nothing;
      monthly_spend = amounts.nothing;
      payment_count = 0;
    };
    records = [];
    counter = 0;
  }

  serve : Call A → Client A → Client A
  serve (payment challenge proof status message) client =
      (record_payment amounts limits wallet_address strip payment_id challenge proof status message
        client).1
  serve new_day client = reset_daily amounts limits wallet_address strip payment_id client

  pub serve_all : List (Call A) → Client A → Client A
  serve_all [] client = client
  serve_all (call ∷ calls) client = serve_all calls (serve call client)

  total-append :
      (xs : List (Payment A)) (x : Payment A) (held : A)
      → total (xs ++ (x ∷ [])) held ≡ (
          if is_confirmed x.status
          then amounts.add (total xs held) x.challenge.amount
          else total xs held)
  unfolding total
  total-append [] x held = refl
  total-append (y ∷ xs) x held = total-append xs x _

  count_confirmed-append :
      (xs : List (Payment A)) (x : Payment A)
      → count_confirmed (xs ++ (x ∷ []))
        ≡ (if is_confirmed x.status then count_confirmed xs + 1 else count_confirmed xs)
  unfolding count_confirmed
  count_confirmed-append [] x = refl
  count_confirmed-append (y ∷ xs) x = ground (arith, count_confirmed-append xs x)

  length-append : (xs : List (Payment A)) (x : Payment A) → length (xs ++ (x ∷ [])) ≡ length xs + 1
  length-append [] x = refl
  length-append (y ∷ xs) x = ground (arith, length-append xs x)

  Numbered-append :
      (n m : ℕ) (xs : List (Payment A)) (x : Payment A)
      → Numbered payment_id n xs
      → m ≡ n + length xs + 1
      → x.payment_id ≡ payment_id m
      → Numbered payment_id n (xs ++ (x ∷ []))
  unfolding Numbered
  Numbered-append n m [] x h here next = let last : m ≡ n + 1 = omega arith in (rw last at next, tt)
  Numbered-append n m (y ∷ xs) x h here next =
      (h.0, Numbered-append (n + 1) m xs x h.1 (omega (arith, here)) next)

  spent_books :
      (guard guard' : Guard A) (challenge : Challenge A) (proof : Option (Proof A))
      (status : Status)
      → spent amounts limits wallet_address strip payment_id guard challenge proof status
        ≡ ok guard'
      → (guard'.monthly_spend ≡ (
          if is_confirmed status
          then amounts.add guard.monthly_spend challenge.amount
          else guard.monthly_spend))
        × (guard'.payment_count
            ≡ (if is_confirmed status then guard.payment_count + 1 else guard.payment_count))
  unfolding spent spent_on record_spend
  spent_books guard guard' challenge proof status h = ground arith

  record_payment-IsLedger :
      (challenge : Challenge A) (proof : Option (Proof A)) (status : Status) (message : String)
      (client : Client A)
      → IsLedger client
      → IsLedger
          (record_payment amounts limits wallet_address strip payment_id challenge proof status
            message client).1
  unfolding record_payment appended
  record_payment-IsLedger challenge proof status message client h =
      elim (Result-cases (
        spent amounts limits wallet_address strip payment_id client.guard challenge proof status)) [
          | inl (error, fails) ↦ rw (record_payment, fails) h
          | inr (guard, holds) ↦
              let (sum, count) = spent_books client.guard guard challenge proof status holds in
              rw (record_payment, holds)
                (record {
                  sum = rw (total-append, sum, h.sum) refl;
                  count = rw (count_confirmed-append, count, h.count) refl;
                  entries = rw (length-append, h.entries) refl;
                  numbers =
                      Numbered-append 0 (client.counter + 1) client.records _ h.numbers
                        (omega (arith, h.entries)) refl;
                })
        ]

  serve_all-IsLedger :
      (calls : List (Call A)) (client : Client A)
      → IsLedger client
      → IsLedger (serve_all calls client)
  unfolding serve_all serve reset_daily
  serve_all-IsLedger [] client h = h
  serve_all-IsLedger (payment challenge proof status message ∷ calls) client h =
      serve_all-IsLedger calls _ (record_payment-IsLedger challenge proof status message client h)
  serve_all-IsLedger (new_day ∷ calls) client h =
      serve_all-IsLedger calls _
        (record { sum = h.sum; count = h.count; entries = h.entries; numbers = h.numbers })

  -- Whatever payments a new client has recorded or refused since the month began, in whatever order
  -- and with however many changes of the day: the monthly spend is the sum of the confirmed
  -- payments of its history in their order, the guard has counted them, and the records bear the
  -- numbers from 1 on without a gap.
  pub run-IsLedger : (calls : List (Call A)) → IsLedger (serve_all calls fresh)
  unfolding total count_confirmed Numbered
  run-IsLedger calls =
      serve_all-IsLedger calls fresh
        (record { sum = refl; count = refl; entries = refl; numbers = tt })
