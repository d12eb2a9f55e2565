-- ===== src/Base/Dict.antt =====
-- Python's `dict` with text keys, in insertion order.
use mathlib.Core.Path.{◌≡◌, refl}
use mathlib.Core.Bool.{Bool, false, ◌||◌}
use mathlib.Core.Option.{Option, none, some}
use mathlib.Core.List.{List, [], ◌∷◌}
use native.Mathlib.Omega.{arith}
use Prim.Native.String.{String}
use text.Mathlib.Text.{◌==◌}
use text.Mathlib.TextEquality.{eq_iff}
use ai_test.Base.Tests.{if◌then◌else◌}

abbrev pub Dict {ℓ} : Type ℓ → Type ℓ
Dict V = List (String × V)

-- `x in xs` for a list or a set of texts.
abbrev pub mem : String → List String → Bool
mem k [] = false
mem k (j ∷ ks) = k == j || mem k ks

module _ {ℓ} {V : Type ℓ} where
  -- `d.get(k)`
  unfoldable pub get : Dict V → String → Option V
  get [] k = none
  get ((j, v) ∷ d) k = if j == k then some v else get d k

  -- `d[k] = v`: a key that is there keeps its place.
  unfoldable pub put : Dict V → String → V → Dict V
  put [] k v = (k, v) ∷ []
  put ((j, w) ∷ d) k v = if j == k then (j, v) ∷ d else (j, w) ∷ put d k v

  -- `{**d, **e}` and `d | e`
  unfoldable pub merge : Dict V → Dict V → Dict V
  unfolding put
  merge d [] = d
  merge d ((k, v) ∷ e) = merge (put d k v) e

  unfoldable pub keys : Dict V → List String
  keys [] = []
  keys ((k, v) ∷ d) = k ∷ keys d

  pub get-put :
      (d : Dict V) (k j : String) (v : V) → get (put d k v) j ≡ (if k == j then some v else get d j)
  unfolding get put
  get-put [] k j v = refl
  get-put ((i, w) ∷ d) k j v = ground (arith, eq_iff k j, eq_iff i k, eq_iff i j, get-put d k j v)

  pub mem-keys-put :
      (d : Dict V) (k j : String) (v : V) → mem j (keys (put d k v)) ≡ (j == k || mem j (keys d))
  unfolding keys put
  mem-keys-put [] k j v = ground arith
  mem-keys-put ((i, w) ∷ d) k j v =
      ground (arith, eq_iff i k, eq_iff j i, eq_iff j k, mem-keys-put d k j v)
