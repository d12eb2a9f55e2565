-- ===== src/Base/Outcome.antt =====
-- A value, or an exception of a given type.
use mathlib.Core.Path.{◌≡◌, refl}
use mathlib.Core.Bool.{Bool, true, false}

pub data Outcome (E A : Type 0) : Type 0 where
  done : A → Outcome E A
  failed : E → Outcome E A

infixl 5 ◌>>=◌ ◌>>◌
abbrev pub ◌>>=◌ : {E A B : Type 0} → Outcome E A → (A → Outcome E B) → Outcome E B
done a >>= f = f a
failed e >>= f = failed e

abbrev pub ◌>>◌ : {E A B : Type 0} → Outcome E A → Outcome E B → Outcome E B
m >> k = m >>= λ _. k

-- `if test: raise error`
abbrev pub fail_if : {E : Type 0} → Bool → E → Outcome E (Unit {0})
fail_if true e = failed e
fail_if false e = done tt

-- `try … except … raise`: another exception in place of the first.
abbrev pub map_error : {E E' A : Type 0} → (E → E') → Outcome E A → Outcome E' A
map_error f (done a) = done a
map_error f (failed e) = failed (f e)

pub >>=-eq-done :
    {E A B : Type 0} (m : Outcome E A) (f : A → Outcome E B) {b : B}
    → (m >>= f) ≡ done b
    → (a : A) × (m ≡ done a) × (f a ≡ done b)
>>=-eq-done (done a) f h = (a, refl, h)
>>=-eq-done (failed e) f h = cc

pub fail_if-eq-done :
    {E A : Type 0} (test : Bool) (e : E) (m : Outcome E A) {a : A}
    → (fail_if test e >> m) ≡ done a
    → (test ≡ false) × (m ≡ done a)
fail_if-eq-done true e m h = cc
fail_if-eq-done false e m h = (refl, h)

pub done-injective : {E A : Type 0} {a b : A} → ◌≡◌ {A = Outcome E A} (done a) (done b) → a ≡ b
done-injective h = cc

pub map_error-eq-done :
    {E E' A : Type 0} (f : E → E') (m : Outcome E A) {a : A} → map_error f m ≡ done a → m ≡ done a
map_error-eq-done f (done b) h = cc
map_error-eq-done f (failed e) h = cc
