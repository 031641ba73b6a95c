-- ===== src/Base/GoMap.antt =====
-- Go's `map[string]V` as an association list. A write to a key that is present replaces its value
-- in place, so no key stands twice in a map that was built by writes. Go does not fix the order of
-- `range`; where the program's result depends on it, the program sorts.
use Prim.Native.String.{String}
use mathlib.Core.Path.{◌≡◌, refl}
use mathlib.Core.Logic.{◌≢◌}
use mathlib.Core.Option.{Option, none, some, get_or}
use mathlib.Core.List.{List, [], ◌∷◌, map}
use native.Mathlib.Omega.{arith}
use text.Mathlib.Text.{◌==◌}
use text.Mathlib.TextEquality.{eq_iff}
use text.Mathlib.TextPositions.{eq_refl}
use model_interface_gateway.Base.Tests.{if◌then◌else◌, eq-false_of_ne}

abbrev pub GoMap {ℓ} : Type ℓ → Type ℓ
GoMap V = List (String × V)

module _ {ℓ} {V : Type ℓ} where
  -- `m[k]` with its second result: `none` for a missing key.
  unfoldable pub lookup : String → GoMap V → Option V
  lookup key [] = none
  lookup key ((found, value) ∷ rest) = if found == key then some value else lookup key rest

  -- `m[k]` alone: the zero value for a missing key.
  abbrev pub lookup_or : V → String → GoMap V → V
  lookup_or d k m = get_or (lookup k m) d

  -- `m[k] = v`.
  unfoldable pub insert : String → V → GoMap V → GoMap V
  insert key new [] = (key, new) ∷ []
  insert key new ((found, old) ∷ rest) =
      if found == key then (key, new) ∷ rest else (found, old) ∷ insert key new rest

  -- `delete(m, k)`.
  unfoldable pub remove : String → GoMap V → GoMap V
  remove k [] = []
  remove k ((j, w) ∷ m) = let rest = remove k m in if j == k then rest else (j, w) ∷ rest

  -- The values, in the order that `range` happens to take.
  abbrev pub values : GoMap V → List V
  values = map (λ e. e.1)

  pub lookup-insert :
      (key asked : String) (new : V) (m : GoMap V)
      → lookup asked (insert key new m) ≡ (if key == asked then some new else lookup asked m)
  unfolding insert lookup
  lookup-insert key asked new [] = refl
  lookup-insert key asked new ((found, old) ∷ rest) = ground (
    arith,
    lookup-insert key asked new rest,
    eq_iff found asked,
    eq_iff found key,
    eq_iff key asked,
  )

  pub lookup-remove :
      (k j : String) (m : GoMap V) → lookup j (remove k m) ≡ (if k == j then none else lookup j m)
  unfolding lookup remove
  lookup-remove k j [] = ground arith
  lookup-remove k j ((i, w) ∷ m) =
      ground (arith, lookup-remove k j m, eq_iff i k, eq_iff i j, eq_iff k j)

  pub lookup-insert_self : (k : String) (v : V) (m : GoMap V) → lookup k (insert k v m) ≡ some v
  lookup-insert_self k v m = simp (lookup-insert, eq_refl)

  pub lookup-insert_ne :
      (k j : String) (v : V) (m : GoMap V) → k ≢ j → lookup j (insert k v m) ≡ lookup j m
  lookup-insert_ne k j v m h = rw (lookup-insert k j v m, eq-false_of_ne k j h) refl

  pub lookup-remove_self : (k : String) (m : GoMap V) → lookup k (remove k m) ≡ none
  lookup-remove_self k m = simp (lookup-remove, eq_refl)

  pub lookup-remove_ne : (k j : String) (m : GoMap V) → k ≢ j → lookup j (remove k m) ≡ lookup j m
  lookup-remove_ne k j m h = rw (lookup-remove k j m, eq-false_of_ne k j h) refl

pub ruleset map_laws = (lookup-insert, lookup-remove)
