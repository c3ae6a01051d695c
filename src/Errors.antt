-- ===== src/Errors.antt =====
-- common/utils/exception_control.py: the exceptions of the indexer and the reading of an RPC error
-- object. A message is its list of code points.
mod Text
pub mod Decoding
pub use Text.{Message, codes, Message-discrete, message_eq}
unfoldable pub use Text.{lower, starts_with, has_text, same_text}
use hemera_indexer.Prelude.{◌≡◌, refl, ap, ◌∙◌, if◌then◌else◌, ◌⊎◌, inl, inr, Bool, true, false}

-- `HemeraBaseException` and its subclasses, each with its message.
pub data HemeraError : Type 0 where
  retriable_error history_unavailable no_batch_mode rpc_not_reachable fast_shutdown :
      Message → HemeraError

unfoldable pub crashable : HemeraError → Bool
crashable (retriable_error message) = false
crashable (history_unavailable message) = false
crashable (no_batch_mode message) = false
crashable (rpc_not_reachable message) = true
crashable (fast_shutdown message) = true

unfoldable pub retriable : HemeraError → Bool
retriable (retriable_error message) = true
retriable (history_unavailable message) = false
retriable (no_batch_mode message) = true
retriable (rpc_not_reachable message) = false
retriable (fast_shutdown message) = false

-- A Python exception, as the `except` clauses of the indexer tell them apart: one of the above, one of
-- `RETRY_EXCEPTIONS` of the batch executor, a `ValueError`, an assertion that fails, an index that is out
-- of range, or any other.
pub data Exception : Type 0 where
  hemera : HemeraError → Exception
  network : Exception
  value_error : Exception
  assertion_error : Exception
  index_error : Exception
  other : Exception

-- What a call returns or raises.
pub data Outcome {ℓ} (A : Type ℓ) : Type ℓ where
  returns : A → Outcome A
  raises : Exception → Outcome A

infixl 5 ◌>>=◌
abbrev pub ◌>>=◌ {ℓ κ} : {A : Type ℓ} {B : Type κ} → Outcome A → (A → Outcome B) → Outcome B
returns a >>= f = f a
raises e >>= f = raises e

-- What a bind that returned has done.
pub >>=-eq-returns {ℓ κ} :
    {A : Type ℓ} {B : Type κ} (m : Outcome A) (f : A → Outcome B) {b : B}
    → (m >>= f) ≡ returns b
    → (a : A) × (m ≡ returns a) × (f a ≡ returns b)
>>=-eq-returns (returns a) f h = (a, refl, h)
>>=-eq-returns (raises e) f h = cc

pub Outcome-cases {ℓ} :
    {A : Type ℓ} (o : Outcome A) → ((a : A) × (o ≡ returns a)) ⊎ ((e : Exception) × (o ≡ raises e))
Outcome-cases (returns a) = inl (a, refl)
Outcome-cases (raises e) = inr (e, refl)

-- A call returns, and its result satisfies `P`.
abbrev pub Returns {ℓ κ} : {A : Type ℓ} → (A → Type κ) → Outcome A → Type (ℓ ⊔ κ)
Returns {A = A} P o = (a : A) × (o ≡ returns a) × P a

module _ {ℓ κ} {A : Type ℓ} where
  pub Returns-if :
      (P : A → Type κ) (test : Bool) {x y : Outcome A}
      → Returns P x
      → Returns P y
      → Returns P (if test then x else y)
  Returns-if P true x y = x
  Returns-if P false x y = y

  pub Returns-bind {μ ν} :
      {B : Type μ} (P : A → Type κ) (Q : B → Type ν) (m : Outcome A) (f : A → Outcome B)
      → Returns P m
      → ((a : A) → P a → Returns Q (f a))
      → Returns Q (m >>= f)
  Returns-bind P Q m f (a, returned, p) next =
      let (b, then_returned, q) = next a p in (b, ap (λ o. o >>= f) returned ∙ then_returned, q)

-- If a call returns, then its result satisfies `P`.
abbrev pub WhenReturns {ℓ κ} : {A : Type ℓ} → (A → Type κ) → Outcome A → Type κ
WhenReturns P (returns a) = P a
WhenReturns P (raises e) = Unit

pub WhenReturns-bind {ℓ κ μ ν} :
    {A : Type ℓ} {B : Type κ} (P : A → Type μ) (Q : B → Type ν) (m : Outcome A) (f : A → Outcome B)
    → WhenReturns P m
    → ((a : A) → P a → WhenReturns Q (f a))
    → WhenReturns Q (m >>= f)
WhenReturns-bind P Q (returns a) f h next = next a h
WhenReturns-bind P Q (raises e) f h next = tt

-- What holds whatever the call returns.
pub WhenReturns-any {ℓ κ ν} :
    {A : Type ℓ} {B : Type κ} (Q : B → Type ν) (m : Outcome A) (f : A → Outcome B)
    → ((a : A) → WhenReturns Q (f a))
    → WhenReturns Q (m >>= f)
WhenReturns-any Q (returns a) f next = next a
WhenReturns-any Q (raises e) f next = tt
