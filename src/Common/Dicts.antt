-- ===== src/Common/Dicts.antt =====
-- String-keyed objects (`Record<string, V>`) and maps, as association lists in insertion order.
-- Reading an absent key gives `none`; writing a present key keeps its place.
use Prim.Native.String.{String}
use mathlib.Core.Path.{◌≡◌, refl}
use mathlib.Core.Bool.{Bool, false, ◌||◌}
use mathlib.Core.Option.{Option, none, some}
use mathlib.Core.List.{List, [], ◌∷◌}
use native.Mathlib.Omega.{arith}
use text.Mathlib.TextEquality.{eq_iff}
use g_manager.Common.Tests.{◌===◌, if◌then◌else◌}

abbrev pub Dict {ℓ} : Type ℓ → Type ℓ
Dict V = List (String × V)

module _ {ℓ} {V : Type ℓ} where
  unfoldable pub lookup : String → Dict V → Option V
  lookup id [] = none
  lookup id ((key, value) ∷ more) = if key === id then some value else lookup id more

  unfoldable pub insert : String → V → Dict V → Dict V
  insert id value [] = (id, value) ∷ []
  insert id value ((key, old) ∷ more) =
      if key === id then (id, value) ∷ more else (key, old) ∷ insert id value more

  -- `delete object[id]`.
  unfoldable pub remove : String → Dict V → Dict V
  remove id [] = []
  remove id ((key, old) ∷ more) =
      let rest = remove id more in if key === id then rest else (key, old) ∷ rest

  pub lookup-insert :
      (id other : String) (value : V) (d : Dict V)
      → lookup other (insert id value d) ≡ (if id === other then some value else lookup other d)
  unfolding insert lookup
  lookup-insert id other value [] = refl
  lookup-insert id other value ((key, old) ∷ more) =
      ground
        (arith, lookup-insert id other value more, eq_iff key id, eq_iff key other, eq_iff id other)

  pub lookup-remove :
      (id other : String) (d : Dict V)
      → lookup other (remove id d) ≡ (if id === other then none else lookup other d)
  unfolding remove lookup
  lookup-remove id other [] = ground arith
  lookup-remove id other ((key, old) ∷ more) =
      ground (arith, lookup-remove id other more, eq_iff key id, eq_iff key other, eq_iff id other)

-- `includes`, and membership of a Set of texts.
abbrev pub includes : List String → String → Bool
includes [] k = false
includes (x ∷ xs) k = x === k || includes xs k
