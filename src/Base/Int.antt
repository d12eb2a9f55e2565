-- ===== src/Base/Int.antt =====
-- Python's integers.
use Prim.Native.Nat.{ℕ, suc, ◌+◌, compare, Ordering}
use mathlib.Core.Bool.{Bool, true, false}

-- `negsuc n` is -(n + 1).
pub data ℤ : Type 0 where
  pos : ℕ → ℤ
  negsuc : ℕ → ℤ

abbrev pub pos_part : ℤ → ℕ
pos_part (pos n) = n
pos_part (negsuc n) = 0

abbrev pub neg_part : ℤ → ℕ
neg_part (pos n) = 0
neg_part (negsuc n) = suc n

abbrev pub leb_ℤ : ℤ → ℤ → Bool
leb_ℤ a b = elim (compare (pos_part a + neg_part b) (pos_part b + neg_part a)) [
  | Ordering.gt ↦ false
  | _ ↦ true
]

abbrev pub ltb_ℤ : ℤ → ℤ → Bool
ltb_ℤ a b = elim (compare (pos_part a + neg_part b) (pos_part b + neg_part a)) [
  | Ordering.lt ↦ true
  | _ ↦ false
]

abbrev pub eqb_ℤ : ℤ → ℤ → Bool
eqb_ℤ a b = elim (compare (pos_part a + neg_part b) (pos_part b + neg_part a)) [
  | Ordering.eq ↦ true
  | _ ↦ false
]
