-- ===== src/Prelude/Result.antt =====
-- Python's exceptions as values: a pure computation that may raise, and a method that may raise
-- after it has changed its object.
use mathlib.Core.Path.{◌≡◌, refl}
use mathlib.Core.Logic.{◌⊎◌, inl, inr}

-- The exception classes that the modelled code can raise. `crypto_error` stands for whatever a call
-- of the cryptography or lz4 package raises.
pub data Exception : Type 0 where
  value_error struct_error index_error key_error attribute_error type_error : Exception
  runtime_error os_error crypto_error unicode_error incomplete_read tls_error : Exception

pub data Result {ℓ} (A : Type ℓ) : Type ℓ where
  ok : A → Result A
  raise : Exception → Result A

infixl 5 ◌>>=◌
abbrev pub ◌>>=◌ {ℓ κ} : {S : Type ℓ} {T : Type κ} → Result S → (S → Result T) → Result T
raise x >>= rest = raise x
ok s >>= rest = rest s

-- What returns behind a first step has got through that step.
pub >>=-eq-ok {ℓ κ} :
    {S : Type ℓ} {T : Type κ} (first : Result S) (rest : S → Result T) {t : T}
    → (first >>= rest) ≡ ok t
    → (s : S) × (first ≡ ok s) × (rest s ≡ ok t)
>>=-eq-ok (raise x) rest e = cc
>>=-eq-ok (ok s) rest e = (s, refl, e)

-- The result beside the state that the object is left in, also when an exception leaves it.
pub data Outcome {ℓ κ} (S : Type ℓ) (A : Type κ) : Type (ℓ ⊔ κ) where
  returns : A → S → Outcome S A
  raises : Exception → S → Outcome S A

module _ {ℓ κ} {S : Type ℓ} {A : Type κ} where
  abbrev pub state : Outcome S A → S
  state (returns a s) = s
  state (raises x s) = s

  abbrev pub result : Outcome S A → Result A
  result (returns a s) = ok a
  result (raises x s) = raise x

  -- A pure computation run inside a method: the object stays as it is.
  abbrev pub lift : Result A → S → Outcome S A
  lift (ok a) s = returns a s
  lift (raise x) s = raises x s

pub Result-cases {ℓ} :
    {A : Type ℓ} (r : Result A) → ((a : A) × (r ≡ ok a)) ⊎ ((x : Exception) × (r ≡ raise x))
Result-cases (ok a) = inl (a, refl)
Result-cases (raise x) = inr (x, refl)
