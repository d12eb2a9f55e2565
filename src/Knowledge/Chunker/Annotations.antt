-- ===== src/Knowledge/Chunker/Annotations.antt =====
-- The end of an SQL annotation (`_annotation_end`).
use ai_test.Base.{
  ◌-◌, ◌==◌, Bool, code, if◌then◌else◌, refl, sym, subst, ◌∙◌, ℕ, zero, suc, ◌<◌, ◌≤◌, ◌≡◌, String,
  Char, true, false, Option, none, some, arith, inl, inr, Bool-cases,
}
use ai_test.Base.Text
use ai_test.Knowledge.Chunker.{
  Position, advance, closes, annotation_length, opening, annotation_end,
}

-- The depth of the parentheses outside strings at the end of a text.
unfoldable depth_after : Position → String → ℕ
unfolding advance
depth_after p String.[] = p.depth
depth_after p (String.◌∷◌ c s) = depth_after (advance p c) s

-- Where a text is read: outside of strings, inside one, or inside one just after a backslash.
pub data Place : Type 0 where
  outside inside escaping : Place

abbrev starts_string : Char → Bool
starts_string c = code c == b'"'

abbrev starts_escape : Char → Bool
starts_escape c = code c == 92

-- The characters of a text outside of its strings. A quote ends a string, unless a backslash that is
-- not escaped itself stands before it.
unfoldable pub plain : Place → String → String
plain place String.[] = String.[]
plain outside (String.◌∷◌ c s) =
    let in_string = plain inside s in
    let after = plain outside s in if starts_string c then in_string else String.◌∷◌ c after
plain inside (String.◌∷◌ c s) =
    let in_string = plain inside s in
    let after = plain outside s in
    let next = plain escaping s in
    if starts_string c then after else if starts_escape c then next else in_string
plain escaping (String.◌∷◌ c s) = plain inside s

-- How many parentheses are open behind a text, if so many were open before it.
unfoldable pub level : ℕ → String → ℕ
level d String.[] = d
level d (String.◌∷◌ c s) =
    level (if code c == b'(' then suc d else if code c == b')' then d - 1 else d) s

-- The parentheses outside of strings that are open behind a text.
abbrev pub open_parentheses : String → ℕ
open_parentheses s = level 0 (plain outside s)

-- The first prefix in which no parenthesis is open, if there is one; `least` is the length from which
-- on prefixes count.
pub data Ends (depth : String → ℕ) (s : String) (least : ℕ) : Option ℕ → Type 0 where
  found :
      (n : ℕ)
      → 0 < n
      → n ≤ Text.length s
      → depth (Text.take n s) ≡ 0
      → ((m : ℕ) → least ≤ m → m < n → 0 < depth (Text.take m s))
      → Ends depth s least (some n)
  unclosed : ((m : ℕ) → least ≤ m → 0 < depth (Text.take m s)) → Ends depth s least none

Ends-same :
    (f g : String → ℕ) (s : String) (least : ℕ) (o : Option ℕ)
    → ((t : String) → f t ≡ g t)
    → Ends f s least o
    → Ends g s least o
Ends-same f g s least o same (found n a b e h) =
    found n a b (sym (same _) ∙ e) (λ m l k. subst (λ d. 0 < d) (same _) (h m l k))
Ends-same f g s least o same (unclosed h) = unclosed (λ m l. subst (λ d. 0 < d) (same _) (h m l))

abbrev position : ℕ → Place → Position
position d outside = record { depth = d; in_string = false; escaped = false }
position d inside = record { depth = d; in_string = true; escaped = false }
position d escaping = record { depth = d; in_string = true; escaped = true }

depth_after-level :
    (place : Place) (d : ℕ) (s : String)
    → depth_after (position d place) s ≡ level d (plain place s)
unfolding depth_after plain level advance
depth_after-level outside d String.[] = refl
depth_after-level inside d String.[] = refl
depth_after-level escaping d String.[] = refl
depth_after-level outside d (String.◌∷◌ c s) = ground (
  arith,
  depth_after-level inside d s,
  depth_after-level outside (suc d) s,
  depth_after-level outside (d - 1) s,
  depth_after-level outside d s,
)
depth_after-level inside d (String.◌∷◌ c s) = ground (
  arith,
  depth_after-level outside d s,
  depth_after-level escaping d s,
  depth_after-level inside d s,
)
depth_after-level escaping d (String.◌∷◌ c s) = ground (arith, depth_after-level inside d s)

advance-closing : (p : Position) (c : Char) → closes p c ≡ true → (advance p c).depth ≡ 0
unfolding advance closes
advance-closing p c h = ground arith

advance-inside :
    (p : Position) (c : Char) → 0 < p.depth → closes p c ≡ false → 0 < (advance p c).depth
unfolding advance closes
advance-inside p c d h = ground arith

prefixes-inside :
    (p : Position) (c : Char) (s : String) (bound : ℕ)
    → 0 < p.depth
    → ((m : ℕ) → 0 ≤ m → m < bound → 0 < depth_after (advance p c) (Text.take m s))
    → (m : ℕ) → m < suc bound
    → 0 < depth_after p (Text.take m (String.◌∷◌ c s))
unfolding depth_after Text.take
prefixes-inside p c s bound d h zero l = d
prefixes-inside p c s bound d h (suc m) l = h m (omega arith) (omega (arith, l))

abbrev longer : Option ℕ → Option ℕ
longer none = none
longer (some n) = some (suc n)

longer-Ends :
    (p : Position) (c : Char) (s : String) (o : Option ℕ)
    → 0 < p.depth
    → Ends (depth_after (advance p c)) s 0 o
    → Ends (depth_after p) (String.◌∷◌ c s) 0 (longer o)
unfolding depth_after Text.take Text.length
longer-Ends p c s o d (found n a b e h) =
    found (suc n) (omega arith) (omega (arith, b)) e (λ m z. prefixes-inside p c s n d h m)
longer-Ends p c s o d (unclosed h) =
    unclosed (λ m z. prefixes-inside p c s m d (λ k a b. h k a) m (omega arith))

closed_now-Ends :
    (p : Position) (c : Char) (s : String)
    → 0 < p.depth
    → closes p c ≡ true
    → Ends (depth_after p) (String.◌∷◌ c s) 0 (some 1)
unfolding depth_after Text.take Text.length
closed_now-Ends p c s d e =
    found 1 (omega arith) (omega arith) (advance-closing p c e)
      (λ m z. prefixes-inside p c s 0 d (λ k a b. absurd (omega (arith, b))) m)

annotation_length-Ends :
    (p : Position) (s : String) → 0 < p.depth → Ends (depth_after p) s 0 (annotation_length p s)
unfolding annotation_length depth_after Text.take
annotation_length-Ends p String.[] d = unclosed (elim [ zero ↦ λ l. d | suc m ↦ λ l. d ])
annotation_length-Ends p (String.◌∷◌ c s) d = elim (Bool-cases (closes p c)) [
  | inl e ↦ rw e (closed_now-Ends p c s d e)
  | inr e ↦
      rw e (longer-Ends p c s _ d (annotation_length-Ends (advance p c) s (advance-inside p c d e)))
]

after_opening-Ends :
    (s : String) (o : Option ℕ)
    → Ends (depth_after (advance opening "(")) s 0 o
    → Ends (depth_after opening) (String.◌∷◌ "(" s) 1 (longer o)
unfolding depth_after Text.take Text.length
after_opening-Ends s o (found n a b e h) = found (suc n) (omega arith) (omega (arith, b)) e (elim [
  | zero ↦ λ l k. absurd (omega (arith, l))
  | suc m ↦ λ l k. h m (omega arith) (omega (arith, k))
])
after_opening-Ends s o (unclosed h) =
    unclosed (elim [ zero ↦ λ l. absurd (omega (arith, l)) | suc m ↦ λ l. h m (omega arith) ])

-- From an opening parenthesis on, `_annotation_end` gives the end of the shortest non-empty prefix
-- in which all parentheses outside strings are closed, and `None` exactly if there is none. A quote
-- behind an unescaped backslash does not end a string.
pub annotation_end_lem :
    (s : String) → Ends open_parentheses (String.◌∷◌ "(" s) 1 (annotation_end (String.◌∷◌ "(" s))
unfolding annotation_end annotation_length advance closes
annotation_end_lem s =
    Ends-same (depth_after opening) open_parentheses _ _ _ (depth_after-level outside 0)
      (after_opening-Ends s _ (annotation_length-Ends (advance opening "(") s (omega arith)))
