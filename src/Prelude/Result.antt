-- ===== src/Prelude/Result.antt =====
-- C++ exceptions as values.
use stats_rrdb.Prelude.{◌≡◌, refl, Bool, true, false}

-- `check` is a failed CHECK_AND_THROW, `fault` is undefined behaviour such as a division by zero,
-- `fuel` a model loop that ran out of rounds; the others are the `throw exception(...)` statements.
pub data Error : Type 0 where
  check fault fuel : Error
  bad_state bad_policy bad_header bad_name not_found already_exists deleted io bad_command bad_unit
        parser_error :
      Error

pub data Result {ℓ} (A : Type ℓ) : Type ℓ where
  ok : A → Result A
  err : Error → Result A

-- `if(!passed) throw e`.
abbrev pub guard : (passed : Bool) → Error → Result (Unit {0})
guard false e = err e
guard true e = ok tt

-- CHECK_AND_THROW
abbrev pub require : Bool → Result (Unit {0})
require passed = guard passed check

infixl 5 ◌>>=◌ ◌>>◌
abbrev pub ◌>>=◌ {κ μ} : {R : Type κ} {T : Type μ} → Result R → (R → Result T) → Result T
err raised >>= next = err raised
ok done >>= next = next done

abbrev pub ◌>>◌ {κ} : {T : Type κ} → Result (Unit {0}) → Result T → Result T
first >> next = first >>= λ _. next

-- A sequence that returns has a first part that returns.
pub >>=-eq-ok {κ μ} :
    {R : Type κ} {T : Type μ} (first : Result R) (next : R → Result T) {result : T}
    → (first >>= next) ≡ ok result
    → (mid : R) × (first ≡ ok mid) × (next mid ≡ ok result)
>>=-eq-ok (err raised) next h = cc
>>=-eq-ok (ok done) next h = (done, refl, h)

pub ok_inj {ℓ} : {A : Type ℓ} (a b : A) → ok a ≡ ok b → a ≡ b
ok_inj a b h = cc
