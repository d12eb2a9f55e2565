-- ===== src/Base/Result.antt =====
-- backend/app/common/errors.py: a business error, and functions that may raise it.
use Prim.Native.Nat.{ℕ}
use Prim.Native.String.{String}
use mathlib.Core.Path.{◌≡◌, refl, subst}
use mathlib.Core.Bool.{Bool, true, false}

-- `details` is never read by the modelled code.
pub record AppError : Type 0 where
  pub code : String
  pub message : String
  pub status_code : ℕ

pub data Result {ℓ} (A : Type ℓ) : Type ℓ where
  ok : A → Result A
  err : AppError → Result A

infixl 5 ◌>>◌ ◌>>=◌
abbrev pub ◌>>=◌ {ℓ κ} : {A : Type ℓ} {B : Type κ} → Result A → (A → Result B) → Result B
err raised >>= next = err raised
ok value >>= next = next value

abbrev pub ◌>>◌ {ℓ κ} : {A : Type ℓ} {B : Type κ} → Result A → Result B → Result B
m >> k = m >>= λ _. k

abbrev pub raise {ℓ} : {A : Type ℓ} → String → String → ℕ → Result A
raise code message status = err (record { code = code; message = message; status_code = status })

-- `if test: raise error`
abbrev pub refuse_if : Bool → String → String → ℕ → Result (Unit {0})
refuse_if true code message status = raise code message status
refuse_if false code message status = ok tt

abbrev pub is_ok {ℓ} : {A : Type ℓ} → Result A → Bool
is_ok (ok a) = true
is_ok (err e) = false

-- Inversion of a successful bind.
pub >>=-eq-ok {ℓ κ} :
    {A : Type ℓ} {B : Type κ} (m : Result A) (next : A → Result B) {b : B}
    → (m >>= next) ≡ ok b
    → (value : A) × (m ≡ ok value) × (next value ≡ ok b)
>>=-eq-ok (err raised) next h = cc
>>=-eq-ok (ok value) next h = (value, refl, h)

-- A guard that let the call pass.
pub refuse_if-eq-ok {ℓ} :
    {A : Type ℓ} (test : Bool) (code message : String) (status : ℕ) (m : Result A) {a : A}
    → (refuse_if test code message status >> m) ≡ ok a
    → (test ≡ false) × (m ≡ ok a)
refuse_if-eq-ok true code message status m h = cc
refuse_if-eq-ok false code message status m h = (refl, h)

pub ok-injective {ℓ} : {A : Type ℓ} {a b : A} → ok a ≡ ok b → a ≡ b
ok-injective h = cc

-- If `m` returns, its value has the property.
pub data Returns {A : Type 0} (P : A → Type 0) : Result A → Type 0 where
  returns : (a : A) → P a → Returns P (ok a)
  fails : (e : AppError) → Returns P (err e)

pub Returns-of :
    {A : Type 0} (P : A → Type 0) (m : Result A) → ((a : A) → m ≡ ok a → P a) → Returns P m
Returns-of P (ok a) h = returns a (h a refl)
Returns-of P (err e) h = fails e

Returns-value : {A : Type 0} (P : A → Type 0) {m : Result A} {a : A} → Returns P m → m ≡ ok a → P a
Returns-value P (returns b p) h = subst P (ok-injective h) p
Returns-value P (fails e) h = cc

pub Returns-at : {A : Type 0} {P : A → Type 0} (m : Result A) {a : A} → Returns P m → m ≡ ok a → P a
Returns-at {P = P} m r h = Returns-value P r h

pub Returns-bind :
    {A B : Type 0} {Q : A → Type 0} {P : B → Type 0} (m : Result A) (f : A → Result B)
    → Returns Q m
    → ((a : A) → Q a → Returns P (f a))
    → Returns P (m >>= f)
Returns-bind m f (returns a q) k = k a q
Returns-bind m f (fails e) k = fails e

pub Returns-bind_any :
    {A B : Type 0} {P : B → Type 0} (m : Result A) (f : A → Result B)
    → ((a : A) → Returns P (f a))
    → Returns P (m >>= f)
Returns-bind_any (ok a) f k = k a
Returns-bind_any (err e) f k = fails e
