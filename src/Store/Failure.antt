-- ===== src/Store/Failure.antt =====
-- `LocalStoreError`, and results that may carry it. An operation of the store is a function
-- `LocalStore → Result (A × LocalStore)`: an error drops the transaction, so the store that was
-- given stays as it is.
use skill_hive.Prelude.{String, ◌<>◌, ◌≡◌, refl, ap, Bool, true, false, is_blank}

pub data LocalStoreError : Type 0 where
  database : LocalStoreError
  non_utf8_path : LocalStoreError
  invalid_persisted_state : String → LocalStoreError
  invalid_input : String → LocalStoreError
  skill_not_found : String → LocalStoreError
  outbox_claim_lost : String → LocalStoreError

-- `Result<T, LocalStoreError>`
pub data Result {ℓ} (T : Type ℓ) : Type ℓ where
  err : (error : LocalStoreError) → Result T
  ok : (value : T) → Result T

-- The operator `?`: the first error ends the operation.
infixl 5 ◌>>=◌
abbrev pub ◌>>=◌ {ℓ κ} : {T : Type ℓ} {S : Type κ} → Result T → (T → Result S) → Result S
err error >>= rest = err error
ok value >>= rest = rest value

-- `check?;`
infixl 5 ◌>>◌
abbrev pub ◌>>◌ {κ} : {S : Type κ} → Result (Unit {0}) → Result S → Result S
check >> rest = check >>= λ passed. rest

-- `if test { return Err(e) }`
abbrev pub reject_if : Bool → LocalStoreError → Result (Unit {0})
reject_if true e = err e
reject_if false e = ok tt

unfoldable pub validate_non_empty : String → String → Result (Unit {0})
unfolding is_blank
validate_non_empty field value =
    reject_if (is_blank value) (invalid_input (field <> " must not be empty"))

-- A chain that succeeded, taken apart at its first operation.
pub >>=-eq-ok {ℓ κ} :
    {T : Type ℓ} {S : Type κ} (first : Result T) (rest : T → Result S) {last : S}
    → (first >>= rest) ≡ ok last
    → (value : T) × (first ≡ ok value) × (rest value ≡ ok last)
>>=-eq-ok (err error) rest done = cc
>>=-eq-ok (ok value) rest done = (value, refl, done)

pub >>-eq-ok {κ} :
    {S : Type κ} (check : Result (Unit {0})) (rest : Result S) {last : S}
    → (check >> rest) ≡ ok last
    → rest ≡ ok last
>>-eq-ok (err error) rest done = cc
>>-eq-ok (ok passed) rest done = done

abbrev ok_or {ℓ} : {A : Type ℓ} → A → Result A → A
ok_or a (ok b) = b
ok_or a (err e) = a

pub ok-injective {ℓ} : {A : Type ℓ} {a b : A} → ok a ≡ ok b → a ≡ b
ok-injective {a} h = ap (ok_or a) h

-- The parts of what a chain returns at its end.
pub ok_parts {ℓ κ} :
    {A : Type ℓ} {B : Type κ} {a a' : A} {b b' : B}
    → ◌≡◌ {A = Result (A × B)} (ok (a, b)) (ok (a', b'))
    → (a ≡ a') × (b ≡ b')
ok_parts h = let e = ok-injective h in (ap (λ r. r.0) e, ap (λ r. r.1) e)

pub reject_if-passed {ℓ} :
    {B : Type ℓ} (b : Bool) (e : LocalStoreError) (r : Result B) {x : B}
    → (reject_if b e >> r) ≡ ok x
    → b ≡ false
reject_if-passed true e r h = cc
reject_if-passed false e r h = refl
