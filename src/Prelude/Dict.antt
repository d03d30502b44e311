-- ===== src/Prelude/Dict.antt =====
-- A map keyed by numbers as an association list.
use Prim.Native.Nat.{ℕ}
use mathlib.Core.Path.{◌≡◌, refl}
use mathlib.Core.List.{List, [], ◌∷◌}
use mathlib.Core.Option.{Option, none, some}
use native.Mathlib.Omega.{arith}
use sakura_intern_team_e.Prelude.Tests.{◌==◌, if◌then◌else◌}

module _ {ℓ} {V : Type ℓ} where
  unfoldable pub lookup : ℕ → List (ℕ × V) → Option V
  lookup key ((at, value) ∷ entries) = if at == key then some value else lookup key entries
  lookup key [] = none

  -- `m[key] = value`
  unfoldable pub insert : ℕ → V → List (ℕ × V) → List (ℕ × V)
  insert key value ((at, old) ∷ entries) =
      if at == key then (key, value) ∷ entries else (at, old) ∷ insert key value entries
  insert key value [] = (key, value) ∷ []

  -- `delete(m, key)`
  unfoldable pub erase : ℕ → List (ℕ × V) → List (ℕ × V)
  erase key ((at, value) ∷ entries) =
      let others = erase key entries in if at == key then others else (at, value) ∷ others
  erase key [] = []

  pub lookup-insert :
      (key other : ℕ) (value : V) (entries : List (ℕ × V))
      → lookup other (insert key value entries)
        ≡ (if key == other then some value else lookup other entries)
  unfolding lookup insert
  lookup-insert key other value (entry ∷ entries) =
      ground (arith, lookup-insert key other value entries)
  lookup-insert key other value [] = refl

  pub lookup-erase :
      (key other : ℕ) (entries : List (ℕ × V))
      → lookup other (erase key entries) ≡ (if key == other then none else lookup other entries)
  unfolding lookup erase
  lookup-erase key other (entry ∷ entries) = ground (arith, lookup-erase key other entries)
  lookup-erase key other [] = ground arith
