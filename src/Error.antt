-- ===== src/Error.antt =====
-- src/error.rs: the crate's errors. A `GlobalError` of the crate `base` carries a message; here each
-- function that makes one is a constructor, which keeps the message's parts.
use Prim.Native.String.{String}
use gmv_pjsip.Prelude.{ℕ, List, Bool, true, false, Option, none, some, ◌≡◌, refl, ◌⊎◌, inl, inr}
use gmv_pjsip.Prelude.Int.{ℤ}

pub data GlobalError : Type 0 where
  invalid_config : String → GlobalError
  -- `duration_millis` puts the name of the duration in front of the message.
  invalid_duration : String → String → GlobalError
  auth_failed : String → GlobalError
  -- `auth_failed` with the name of a text in front of the message, with the name of an algorithm
  -- in it, and with the status of the C library.
  contains_nul : String → GlobalError
  unsupported_digest : String → List ℕ → GlobalError
  digest_failed : ℤ → GlobalError
  internal_error : String → GlobalError
  runtime_active : GlobalError
  -- `pjsip_error(operation, status)`
  pjsip_error : String → ℤ → GlobalError

pub data Result {ℓ} (A : Type ℓ) : Type ℓ where
  ok : A → Result A
  err : GlobalError → Result A

-- `if condition { return Err(error) }`
abbrev pub fail_if : Bool → GlobalError → Result (Unit {0})
fail_if true e = err e
fail_if false e = ok tt

-- `value.ok_or_else(|| error)`
abbrev pub or_fail {ℓ} : {A : Type ℓ} → Option A → GlobalError → Result A
or_fail none e = err e
or_fail (some a) e = ok a

-- `?` in front of the rest of a function
abbrev pub ◌>>=◌ {ℓ κ} : {A : Type ℓ} {B : Type κ} → Result A → (A → Result B) → Result B
err refusal >>= rest = err refusal
ok value >>= rest = rest value

-- `?` in front of the rest, where the value is `()`
abbrev pub ◌>>◌ {κ} : {B : Type κ} → Result (Unit {0}) → Result B → Result B
err refusal >> rest = err refusal
ok _ >> rest = rest

infixl 5 ◌>>=◌
infixl 5 ◌>>◌
pub Result-cases {ℓ} :
    {A : Type ℓ} (r : Result A) → ((e : GlobalError) × (r ≡ err e)) ⊎ ((a : A) × (r ≡ ok a))
Result-cases (err e) = inl (e, refl)
Result-cases (ok a) = inr (a, refl)

-- Each step of a computation that succeeds has succeeded.
pub >>=-ok {ℓ κ} :
    {A : Type ℓ} {B : Type κ} (m : Result A) (k : A → Result B) (b : B)
    → (m >>= k) ≡ ok b
    → (a : A) × (m ≡ ok a) × (k a ≡ ok b)
>>=-ok (err e) k b z = absurd cc
>>=-ok (ok a) k b z = (a, refl, z)

pub or_fail-ok {ℓ κ} :
    {A : Type ℓ} {B : Type κ} (o : Option A) (e : GlobalError) (k : A → Result B) (b : B)
    → (or_fail o e >>= k) ≡ ok b
    → (a : A) × (o ≡ some a) × (k a ≡ ok b)
or_fail-ok none e k b z = absurd cc
or_fail-ok (some a) e k b z = (a, refl, z)

pub fail_if-ok {κ} :
    {B : Type κ} (c : Bool) (e : GlobalError) (k : Result B) (b : B)
    → (fail_if c e >> k) ≡ ok b
    → (c ≡ false) × (k ≡ ok b)
fail_if-ok true e k b z = absurd cc
fail_if-ok false e k b z = (refl, z)
