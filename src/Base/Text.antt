-- ===== src/Base/Text.antt =====
-- Python's string operations, on the native text as a list of characters.
use Prim.Native.Nat.{ℕ, zero, suc, ◌+◌}
use Prim.Native.Char.{Char, code}
use Prim.Native.String.{String, ◌++◌ as ◌<>◌}
use mathlib.Core.Path.{◌≡◌, ap, sym, ◌∙◌}
use mathlib.Core.Logic.{inl, inr}
use mathlib.Core.Bool.{Bool, true, false, ◌&&◌, ◌||◌}
use mathlib.Core.Option.{Option, none, some}
use mathlib.Core.List.{List, [], ◌∷◌}
use native.Mathlib.Omega.{arith}
use text.Mathlib.Text.{◌==◌ as str_eq}
use text.Mathlib.TextEquality.{eq_iff}
use text.Mathlib.TextLemmas.{nil-append, cons-append}
use ai_test.Base.Tests.{◌==◌, leb, if◌then◌else◌, Bool-cases}

abbrev pub same_char : Char → Char → Bool
same_char c d = code c == code d

-- `not s`
abbrev pub is_empty : String → Bool
is_empty String.[] = true
is_empty (String.◌∷◌ c s) = false

-- `len(s)` counts code points.
unfoldable pub length : String → ℕ
length String.[] = 0
length (String.◌∷◌ c s) = suc (length s)

-- `s[n:]`
unfoldable pub drop : ℕ → String → String
drop zero s = s
drop (suc n) String.[] = String.[]
drop (suc n) (String.◌∷◌ c s) = drop n s

-- `s[:n]`
unfoldable pub take : ℕ → String → String
take zero s = String.[]
take (suc n) String.[] = String.[]
take (suc n) (String.◌∷◌ c s) = String.◌∷◌ c (take n s)

-- The rest of the text behind a prefix.
unfoldable pub strip_prefix : String → String → Option String
strip_prefix String.[] s = some s
strip_prefix (String.◌∷◌ p ps) String.[] = none
strip_prefix (String.◌∷◌ p ps) (String.◌∷◌ c s) =
    let rest = strip_prefix ps s in if same_char p c then rest else none

-- `s.startswith(p)`
unfoldable pub starts_with : String → String → Bool
unfolding strip_prefix
starts_with s p = elim (strip_prefix p s) [ none ↦ false | some _ ↦ true ]

-- `s.endswith(p)`
unfoldable pub ends_with : String → String → Bool
ends_with String.[] p = is_empty p
ends_with (String.◌∷◌ c s) p = str_eq (String.◌∷◌ c s) p || ends_with s p

unfoldable pub reverse_onto : String → String → String
reverse_onto String.[] acc = acc
reverse_onto (String.◌∷◌ c s) acc = reverse_onto s (String.◌∷◌ c acc)

unfoldable pub reverse : String → String
unfolding reverse_onto
reverse s = reverse_onto s String.[]

-- `p in s`
unfoldable pub contains : String → String → Bool
unfolding starts_with
contains p String.[] = starts_with String.[] p
contains p (String.◌∷◌ c s) = starts_with (String.◌∷◌ c s) p || contains p s

-- `str.isspace` of one character.
unfoldable pub is_space : Char → Bool
is_space ch =
    let c = code ch in
    (leb 9 c && leb c 13)
    || (leb 28 c && leb c 32)
    || c == 0x85
    || c == 0xa0
    || c == 0x1680
    || (leb 0x2000 c && leb c 0x200a)
    || c == 0x2028
    || c == 0x2029
    || c == 0x202f
    || c == 0x205f
    || c == 0x3000

unfoldable pub strip_left : (Char → Bool) → String → String
strip_left p String.[] = String.[]
strip_left p (String.◌∷◌ c s) = let rest = strip_left p s in if p c then rest else String.◌∷◌ c s

unfoldable pub strip_right : (Char → Bool) → String → String
unfolding strip_left reverse
strip_right p s = reverse (strip_left p (reverse s))

-- `s.strip()`
unfoldable pub strip : String → String
unfolding is_space strip_right strip_left
strip s = strip_right is_space (strip_left is_space s)

abbrev begin_part : Char → List String → List String
begin_part c [] = String.◌∷◌ c "" ∷ []
begin_part c (part ∷ parts) = String.◌∷◌ c part ∷ parts

-- `s.split(a)` for a single character.
unfoldable pub split_char : Char → String → List String
split_char a String.[] = "" ∷ []
split_char a (String.◌∷◌ c s) =
    let rest = split_char a s in if same_char c a then "" ∷ rest else begin_part c rest

-- `sep.join(parts)`
unfoldable pub join : String → List String → String
join sep [] = ""
join sep (part ∷ []) = part
join sep (part ∷ next ∷ parts) = part <> sep <> join sep (next ∷ parts)

-- `s.replace(a, b)` for single characters.
unfoldable pub replace_char : Char → Char → String → String
replace_char a b String.[] = String.[]
replace_char a b (String.◌∷◌ c s) = String.◌∷◌ (if same_char c a then b else c) (replace_char a b s)

-- `[A-Za-z]` and `[A-Za-z0-9]` in the patterns of the source.
abbrev pub is_letter : Char → Bool
is_letter ch =
    (leb b'A' (code ch) && leb (code ch) b'Z') || (leb b'a' (code ch) && leb (code ch) b'z')

abbrev pub is_digit : Char → Bool
is_digit ch = leb b'0' (code ch) && leb (code ch) b'9'

pub length-take-drop : (n : ℕ) (s : String) → length (take n s) + length (drop n s) ≡ length s
unfolding length take drop
length-take-drop zero s = omega arith
length-take-drop (suc n) String.[] = omega arith
length-take-drop (suc n) (String.◌∷◌ c s) = omega (arith, length-take-drop n s)

-- A text that ends with another one is something before it, and it.
pub ends_with-append : (s p : String) → ends_with s p ≡ true → (front : String) × (s ≡ front <> p)
unfolding ends_with
ends_with-append String.[] String.[] h = ("", sym (nil-append ""))
ends_with-append String.[] (String.◌∷◌ c p) h = cc
ends_with-append (String.◌∷◌ c s) p h = elim (Bool-cases (str_eq (String.◌∷◌ c s) p)) [
  | inl e ↦ ("", (eq_iff (String.◌∷◌ c s) p).0 e ∙ sym (nil-append p))
  | inr e ↦
      let (front, q) = ends_with-append s p (rw e at h) in
      (String.◌∷◌ c front, ap (String.◌∷◌ c) q ∙ sym (cons-append c front p))
]
