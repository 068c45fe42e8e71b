-- ===== src/Base/Actions.antt =====
-- Results of code that may raise, and actions: code that reads and writes a state and may raise.
-- The state comes back beside an error too, since what was written before a raise stays written.
use mathlib.Core.Path.{◌≡◌, refl}
use mathlib.Core.Logic.{◌⊎◌, inl, inr}
use mathlib.Core.Bool.{Bool, true, false}
use mathlib.Core.Option.{Option, none, some}

pub data Result (E A : Type 0) : Type 0 where
  ok : A → Result E A
  err : E → Result E A

abbrev pub Action : Type 0 → Type 0 → Type 0 → Type 0
Action S E A = S → Result E A × S

-- `raise e` unless the test holds.
abbrev pub require : {E : Type 0} → Bool → E → Result E (Unit {0})
require true e = ok tt
require false e = err e

pub Result-cases :
    {E A : Type 0} (r : Result E A) → ((e : E) × (r ≡ err e)) ⊎ ((a : A) × (r ≡ ok a))
Result-cases (err e) = inl (e, refl)
Result-cases (ok a) = inr (a, refl)

-- The rest of a computation without state.
abbrev pub bind : {E A B : Type 0} → Result E A → (A → Result E B) → Result E B
bind (ok a) f = f a
bind (err e) f = err e

-- The first part of a computation that returned had a value, and the rest returned at it.
pub bind-eq-ok :
    {E A B : Type 0} (first : Result E A) (next : A → Result E B) {final : B}
    → bind first next ≡ ok final
    → (value : A) × (first ≡ ok value) × (next value ≡ ok final)
bind-eq-ok (err error) next returned = cc
bind-eq-ok (ok value) next returned = (value, refl, returned)

abbrev pub or_raise : {E A : Type 0} → Option A → E → Result E A
or_raise none e = err e
or_raise (some a) e = ok a

module _ {S E A : Type 0} where
  unfoldable pub pure : A → Action S E A
  pure a s = (ok a, s)

  unfoldable pub raise : E → Action S E A
  raise e s = (err e, s)

  unfoldable pub lift : Result E A → Action S E A
  lift r s = (r, s)

module _ {S E A B : Type 0} where
  abbrev pub and_then : Result E A → (A → Action S E B) → Action S E B
  and_then (ok a) f s = f a s
  and_then (err e) f s = (err e, s)

  infixl 5 ◌>>=◌ ◌>>◌
  -- Opening this opens `pure`, `raise` and `lift` too.
  unfoldable pub ◌>>=◌ : Action S E A → (A → Action S E B) → Action S E B
  unfolding pure raise lift
  ◌>>=◌ m f s = let (r, s') = m s in and_then r f s'

  abbrev pub ◌>>◌ : Action S E A → Action S E B → Action S E B
  m >> k = m >>= λ _. k

-- `P` survives the action, however it ends.
pub record Keeps {S E A : Type 0} (P : S → Type 0) (action : Action S E A) : Type 0 where
  pub at : (state : S) → P state → P (action state).1

module _ {S E A : Type 0} {P : S → Type 0} where
  pub Keeps-pure : (value : A) → Keeps P (pure {E = E} value)
  unfolding pure
  Keeps-pure value = record { at = λ _ holds. holds }

  pub Keeps-raise : (error : E) → Keeps P (raise {A = A} error)
  unfolding raise
  Keeps-raise error = record { at = λ _ holds. holds }

  pub Keeps-lift : (result : Result E A) → Keeps P (lift result)
  unfolding lift
  Keeps-lift result = record { at = λ _ holds. holds }

module _ {S E A B : Type 0} {P : S → Type 0} where
  and_then-Keeps :
      (result : Result E A) (next : A → Action S E B) (state : S)
      → P state
      → ((value : A) → Keeps P (next value))
      → P (and_then result next state).1
  and_then-Keeps (ok value) next state holds goes = (goes value).at state holds
  and_then-Keeps (err error) next state holds goes = holds

  pub Keeps-bind :
      (action : Action S E A) (next : A → Action S E B)
      → Keeps P action
      → ((value : A) → Keeps P (next value))
      → Keeps P (action >>= next)
  unfolding ◌>>=◌
  Keeps-bind action next first goes = record {
    at = λ state holds.
        and_then-Keeps (action state).0 next (action state).1 (first.at state holds) goes;
  }

pub ruleset keeps_rules = (Keeps-pure, Keeps-lift, Keeps-bind)

-- To reason about the rest of a block, with the equation of the result so far.
pub and_then_ind :
    {S E A B : Type 0} (Q : Result E B × S → Type 0) (r : Result E A) (f : A → Action S E B) (s : S)
    → ((e : E) → r ≡ err e → Q (err e, s))
    → ((a : A) → r ≡ ok a → Q (f a s))
    → Q (and_then r f s)
and_then_ind Q (ok a) f s fails goes = goes a refl
and_then_ind Q (err e) f s fails goes = fails e refl

-- How an action ends: in `Q` with a value, or in `Z` with an error.
abbrev pub Ends : {S E A : Type 0} → (A → S → Type 0) → (S → Type 0) → Result E A × S → Type 0
Ends Q Z (ok value, state) = Q value state
Ends Q Z (err error, state) = Z state

-- From `P` the action ends as `Q` and `Z` say.
pub record Leads {S E A : Type 0} (P : S → Type 0) (Q : A → S → Type 0) (Z : S → Type 0)
    (action : Action S E A) : Type 0 where
  pub at : (state : S) → P state → Ends Q Z (action state)

module _ {S E A B : Type 0} {Z : S → Type 0} where
  Ends-and_then :
      (Q : A → S → Type 0) (Q' : B → S → Type 0) (end : Result E A × S) (next : A → Action S E B)
      → Ends Q Z end
      → ((value : A) → Leads (Q value) Q' Z (next value))
      → Ends Q' Z (and_then end.0 next end.1)
  Ends-and_then Q Q' (ok value, state) next first goes = (goes value).at state first
  Ends-and_then Q Q' (err error, state) next first goes = first

  pub Leads-bind :
      {P : S → Type 0} (Q : A → S → Type 0) (Q' : B → S → Type 0) (action : Action S E A)
      (next : A → Action S E B)
      → Leads P Q Z action
      → ((value : A) → Leads (Q value) Q' Z (next value))
      → Leads P Q' Z (action >>= next)
  unfolding ◌>>=◌
  Leads-bind Q Q' action next first goes = record {
    at = λ state holds. Ends-and_then Q Q' (action state) next (first.at state holds) goes;
  }

module _ {S E A : Type 0} {P Z : S → Type 0} where
  pub Leads-pure :
      (Q : A → S → Type 0) (value : A)
      → ((state : S) → P state → Q value state)
      → Leads P Q Z (pure {E = E} value)
  unfolding pure
  Leads-pure Q value goes = record { at = goes }

  pub Leads-lift :
      (Q : A → S → Type 0) (result : Result E A)
      → ((value : A) (state : S) → P state → Q value state)
      → ((state : S) → P state → Z state)
      → Leads P Q Z (lift result)
  unfolding lift
  Leads-lift Q (ok value) goes fails = record { at = goes value }
  Leads-lift Q (err error) goes fails = record { at = fails }

pub Ends-any :
    {S E A : Type 0} (R : S → Type 0) (end : Result E A × S) → Ends (λ _. R) R end → R end.1
Ends-any R (ok value, state) h = h
Ends-any R (err error, state) h = h
