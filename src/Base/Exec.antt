-- ===== src/Base/Exec.antt =====
-- Code that changes a state and may raise: what was written before a raise stays written.
use mathlib.Core.Path.{◌≡◌, refl, ◌∙◌}
use ai_test.Base.Outcome.{Outcome, done, failed}

abbrev pub Exec : Type 0 → Type 0 → Type 0 → Type 0
Exec S E A = S → Outcome E A × S

module _ {S E A : Type 0} where
  unfoldable pub pure : A → Exec S E A
  pure a s = (done a, s)

  unfoldable pub lift : Outcome E A → Exec S E A
  lift m s = (m, s)

  unfoldable pub gets : (S → A) → Exec S E A
  gets f s = (done (f s), s)

module _ {S E : Type 0} where
  unfoldable pub modify : (S → S) → Exec S E (Unit {0})
  modify f s = (done tt, f s)

module _ {S E A B : Type 0} where
  abbrev pub continue : Outcome E A → (A → Exec S E B) → Exec S E B
  continue (done a) f s = f a s
  continue (failed e) f s = (failed e, s)

  infixl 5 ◌>>=◌ ◌>>◌
  -- Opening this opens the actions above too.
  unfoldable pub ◌>>=◌ : Exec S E A → (A → Exec S E B) → Exec S E B
  unfolding pure lift gets modify
  ◌>>=◌ m f s = let (r, s') = m s in continue r f s'

  abbrev pub ◌>>◌ : Exec S E A → Exec S E B → Exec S E B
  m >> n = m >>= λ _. n

-- An action keeps what a function reads of the state, whether it returns or raises.
pub record Keeps {S E A B : Type 0} (view : S → B) (m : Exec S E A) : Type 0 where
  pub at : (s : S) → view (m s).1 ≡ view s

module _ {S E A B : Type 0} (view : S → B) where
  pub Keeps-pure : (a : A) → Keeps {E = E} view (pure a)
  unfolding pure
  Keeps-pure a = record { at = λ s. refl }

  pub Keeps-lift : (m : Outcome E A) → Keeps view (lift m)
  unfolding lift
  Keeps-lift m = record { at = λ s. refl }

  pub Keeps-gets : (f : S → A) → Keeps {E = E} view (gets f)
  unfolding gets
  Keeps-gets f = record { at = λ s. refl }

module _ {S E B : Type 0} (view : S → B) where
  pub Keeps-modify : (f : S → S) → ((s : S) → view (f s) ≡ view s) → Keeps {E = E} view (modify f)
  unfolding modify
  Keeps-modify f h = record { at = h }

module _ {S E A C B : Type 0} (view : S → B) where
  Keeps-continue :
      (r : Outcome E A) (f : A → Exec S E C)
      → ((a : A) → Keeps view (f a))
      → (s : S) → view (continue r f s).1 ≡ view s
  Keeps-continue (done a) f k s = (k a).at s
  Keeps-continue (failed e) f k s = refl

  pub Keeps-bind :
      (m : Exec S E A) (f : A → Exec S E C)
      → Keeps view m
      → ((a : A) → Keeps view (f a))
      → Keeps view (m >>= f)
  unfolding ◌>>=◌
  Keeps-bind m f h k = record { at = λ s. let (r, s') = m s in Keeps-continue r f k s' ∙ h.at s }
