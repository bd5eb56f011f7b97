-- ===== src/Prelude/Outcome.antt =====
-- How a call of a C function ends: it returns, it calls exit(EXIT_FAILURE), it reads through an
-- invalid pointer or out of bounds, or the model's fuel runs out.
use mathlib.Core.Path.{◌≡◌, refl}
use mathlib.Core.Bool.{Bool, true, false}
use mathlib.Core.Option.{Option, none, some}
use icmond.Prelude.Tests.{if◌then◌else◌}

pub data Run {ℓ} (Result : Type ℓ) : Type ℓ where
  exited : Run Result
  fault : Run Result
  out_of_fuel : Run Result
  ok : Result → Run Result

-- What a pointer points to, if it is not NULL.
abbrev pub or_fault {ℓ} : {Result : Type ℓ} → Option Result → Run Result
or_fault none = fault
or_fault (some x) = ok x

-- The call returns, with a result of which `P` holds.
abbrev pub Returns {ℓ μ} : {Result : Type ℓ} → (Result → Type μ) → Run Result → Type (ℓ ⊔ μ)
Returns {Result} P call = (x : Result) × (call ≡ ok x) × P x

pub returns {ℓ μ} : {Result : Type ℓ} {P : Result → Type μ} (x : Result) → P x → Returns P (ok x)
returns x holds = (x, refl, holds)

module _ {ℓ ν} {First : Type ℓ} {Second : Type ν} where
  infixl 5 ◌>>=◌
  abbrev pub ◌>>=◌ : Run First → (First → Run Second) → Run Second
  call >>= after = elim call [
    | exited ↦ exited
    | fault ↦ fault
    | out_of_fuel ↦ out_of_fuel
    | ok x ↦ after x
  ]

  module _ {μ ξ} {P : First → Type μ} {Q : Second → Type ξ} where
    pub Returns-bind :
        {after : First → Run Second} {call : Run First} (first : Returns P call)
        (second : (x : First) → P x → Returns Q (after x))
        → Returns Q (call >>= after)
    Returns-bind {after} (x, end, holds) second =
        let (y, end', holds') = second x holds in (y, rw end end', holds')

module _ {ℓ μ ξ} {Result : Type ℓ} {P : Result → Type μ} {Q : Result → Type ξ} where
  pub Returns-map :
      {call : Run Result} (first : Returns P call) (weaken : (x : Result) → P x → Q x)
      → Returns Q call
  Returns-map (x, end, holds) weaken = (x, end, weaken x holds)

-- Both branches of an `if` return, where its test leads to them.
pub Returns-if {ℓ μ} :
    {Result : Type ℓ} {P : Result → Type μ} {then_call else_call : Run Result} (test : Bool)
    (if_true : test ≡ true → Returns P then_call) (if_false : test ≡ false → Returns P else_call)
    → Returns P (if test then then_call else else_call)
Returns-if false if_true if_false = if_false refl
Returns-if true if_true if_false = if_true refl
