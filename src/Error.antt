-- ===== src/Error.antt =====
-- crates/veclite/src/error.rs: the error type and `Result`. A message is the format string of the
-- code, with `{}` where the code writes a value.
use veclite.Base.{
  ℕ, String, ◌≡◌, refl, ap, List, Bool, true, false, Option, none, some, ◌⊎◌, inl, inr,
}

pub data VecLiteError : Type 0 where
  collection_not_found vector_not_found already_exists : String → VecLiteError
  dimension_mismatch : ℕ → ℕ → VecLiteError
  locked wal_pending read_only closed : VecLiteError
  corrupt : String → VecLiteError
  unsupported_format_version : ℕ → ℕ → VecLiteError
  unsupported_provider : String → List String → VecLiteError
  invalid_argument : String → VecLiteError
  io : String → VecLiteError

pub data Result {ℓ} (A : Type ℓ) : Type ℓ where
  ok : A → Result A
  err : VecLiteError → Result A

-- `Option::ok_or`
abbrev pub ok_or {ℓ} : {A : Type ℓ} → Option A → VecLiteError → Result A
ok_or none failure = err failure
ok_or (some value) failure = ok value

-- `Result::ok`
abbrev pub to_option {ℓ} : {A : Type ℓ} → Result A → Option A
to_option (err failure) = none
to_option (ok value) = some value

-- `if !test { return Err(failure) }`
abbrev pub guard : Bool → VecLiteError → Result (Unit {0})
guard false failure = err failure
guard true failure = ok tt

-- The operator `?`.
infixl 5 ◌>>=◌
abbrev pub ◌>>=◌ {κ ℓ} : {X : Type κ} {Y : Type ℓ} → Result X → (X → Result Y) → Result Y
err failure >>= next = err failure
ok value >>= next = next value

infixl 5 ◌>>◌
abbrev pub ◌>>◌ {ℓ} : {Y : Type ℓ} → Result (Unit {0}) → Result Y → Result Y
check >> rest = check >>= λ _. rest

pub Result-cases {ℓ} :
    {A : Type ℓ} (r : Result A) → ((a : A) × (r ≡ ok a)) ⊎ ((e : VecLiteError) × (r ≡ err e))
Result-cases (err failure) = inr (failure, refl)
Result-cases (ok value) = inl (value, refl)

pub ok_inj {ℓ} : {A : Type ℓ} {a b : A} → ok a ≡ ok b → a ≡ b
ok_inj h = cc

-- What stands before `?` in code that succeeds has succeeded.
pub >>=-eq-ok {κ ℓ} :
    {X : Type κ} {Y : Type ℓ} (first : Result X) (next : X → Result Y) {out : Y}
    (h : (first >>= next) ≡ ok out)
    → (value : X) × (first ≡ ok value) × (next value ≡ ok out)
>>=-eq-ok (err failure) next h = cc
>>=-eq-ok (ok value) next h = (value, refl, h)

-- The other way.
pub >>=-ok {κ ℓ} :
    {X : Type κ} {Y : Type ℓ} (first : Result X) (value : X) (next : X → Result Y)
    → first ≡ ok value
    → (first >>= next) ≡ next value
>>=-ok first value next h = ap (λ r. r >>= next) h
