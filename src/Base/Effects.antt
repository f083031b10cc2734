-- ===== src/Base/Effects.antt =====
-- What a C++ call does: it returns a value, throws an exception, or runs into undefined behaviour.
use mathlib.Core.Path.{◌≡◌, refl}
use mathlib.Core.Logic.{◌⊎◌, inl, inr}

-- The exceptions that the program's code throws or meets.
pub data Error : Type 0 where
  buffer_underflow string_underflow not_null_terminated : Error
  bad_alloc invalid_argument out_of_range logic_error : Error
  wal_too_short config_path_not_set not_replicating read_failed start_failed : Error

pub data Outcome {ℓ} (A : Type ℓ) : Type ℓ where
  ok : A → Outcome A
  throw : Error → Outcome A
  fault : Outcome A

infixl 5 ◌>>=◌
abbrev pub ◌>>=◌ {ℓ κ} : {A : Type ℓ} {B : Type κ} → Outcome A → (A → Outcome B) → Outcome B
fault >>= next = fault
throw x >>= next = throw x
ok v >>= next = next v

module _ {ℓ κ} {A : Type ℓ} {B : Type κ} where
  -- What is known of a call and its continuation once both have returned.
  pub >>=-eq-ok :
      (call : Outcome A) (next : A → Outcome B) {result : B}
      → (call >>= next) ≡ ok result
      → (v : A) × (call ≡ ok v) × (next v ≡ ok result)
  >>=-eq-ok fault next done = cc
  >>=-eq-ok (throw x) next done = cc
  >>=-eq-ok (ok v) next done = (v, refl, done)

-- What is done with the result of a chain can be done at its end.
pub >>=_inside {ℓ κ ι} :
    {A : Type ℓ} {B : Type κ} {C : Type ι} (call : Outcome A) (next : A → Outcome B)
    (whole : A → Outcome C) (last : B → Outcome C)
    → ((v : A) → whole v ≡ (next v >>= last))
    → (call >>= whole) ≡ (call >>= next >>= last)
>>=_inside fault next whole last same = refl
>>=_inside (throw x) next whole last same = refl
>>=_inside (ok v) next whole last same = same v

pub >>=_ok {ℓ} :
    {A : Type ℓ} (call : Outcome A) (last : A → Outcome A)
    → ((v : A) → last v ≡ ok v)
    → (call >>= last) ≡ call
>>=_ok fault last same = refl
>>=_ok (throw x) last same = refl
>>=_ok (ok v) last same = same v

pub Outcome-cases {ℓ} :
    {A : Type ℓ} (call : Outcome A)
    → ((v : A) × (call ≡ ok v)) ⊎ (((x : Error) × (call ≡ throw x)) ⊎ (call ≡ fault))
Outcome-cases fault = inr (inr refl)
Outcome-cases (throw x) = inr (inl (x, refl))
Outcome-cases (ok v) = inl (v, refl)
