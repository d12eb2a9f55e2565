-- ===== src/Template/Scan.antt =====
-- The scan of a text for variables, and the full match.
use ai_test.Base.{
  ℕ, zero, suc, ◌≤◌, inl, inr, Option-cases, String, Char, ◌-◌, ◌≡◌, refl, none, some, [], ◌∷◌,
  arith, if◌then◌else◌,
}
use ai_test.Base.Text
use ai_test.Template.{Variable, match_variable, full_match, variable, scan}

-- Nothing is left to scan where the last match covers the rest of the text.
scan_covered : (n : ℕ) (s : String) → Text.length s ≤ n → scan n s ≡ []
unfolding scan Text.length
scan_covered zero String.[] h = refl
scan_covered (suc n) String.[] h = refl
scan_covered zero (String.◌∷◌ c s) h = absurd (omega arith)
scan_covered (suc n) (String.◌∷◌ c s) h = scan_covered n s (omega arith)

last_match :
    (v w : Variable) (rest s : String)
    → (if Text.is_empty rest then some w else none) ≡ some v
    → variable w ∷ scan (Text.length s - Text.length rest) s ≡ variable v ∷ []
unfolding Text.length
last_match v w String.[] s h = ground (arith, scan_covered (Text.length s - 0) s)
last_match v w (String.◌∷◌ c rest) s h = cc

scan_cons-full_match :
    (c : Char) (s : String) (v : Variable)
    → full_match (String.◌∷◌ c s) ≡ some v
    → scan zero (String.◌∷◌ c s) ≡ variable v ∷ []
unfolding full_match scan
scan_cons-full_match c s v h = elim (Option-cases (match_variable (String.◌∷◌ c s))) [
  | inl e ↦ ground arith
  | inr (m, e) ↦ let (w, rest) = m in ground (arith, last_match v w rest s)
]

-- A text that is one variable is scanned as that variable and nothing else.
pub scan-full_match :
    (s : String) (v : Variable) → full_match s ≡ some v → scan zero s ≡ variable v ∷ []
unfolding full_match scan Text.length match_variable Text.strip_prefix
scan-full_match String.[] v h = cc
scan-full_match (String.◌∷◌ c s) v h = scan_cons-full_match c s v h
