-- ===== src/Base/Sort.antt =====
-- Go's `sort.Slice` and `slices.Sort`, by their contract: a permutation of the slice in which no entry
-- stands behind a greater one. Go does not say how equal entries are ordered; here they keep their
-- order, which only matters where the program sorts entries that the order does not tell apart.
use Prim.Native.Nat.{suc}
use Prim.Native.String.{String}
use mathlib.Core.Path.{◌≡◌, refl}
use mathlib.Core.Bool.{Bool, true, false}
use mathlib.Core.List.{List, [], ◌∷◌, Perm}
use mathlib.Core.List.Perm
use native.Mathlib.Omega.{arith}
use mathlib.Core.Logic.{inl, inr}
use model_interface_gateway.Base.Tests.{if◌then◌else◌, Bool-cases}
use model_interface_gateway.Base.Lists.{All, length, count_by}

module _ {ℓ} {A : Type ℓ} (less : A → A → Bool) where
  unfoldable pub insert_sorted : A → List A → List A
  insert_sorted x [] = x ∷ []
  insert_sorted x (y ∷ ys) =
      let rest = insert_sorted x ys in if less y x then y ∷ rest else x ∷ y ∷ ys

  unfoldable pub sort_by : List A → List A
  unfolding insert_sorted
  sort_by [] = []
  sort_by (x ∷ xs) = insert_sorted x (sort_by xs)

  insert_sorted-perm : (x : A) (ys : List A) → Perm (insert_sorted x ys) (x ∷ ys)
  unfolding insert_sorted
  insert_sorted-perm x [] = Perm.refl _
  insert_sorted-perm x (y ∷ ys) = elim (Bool-cases (less y x)) [
    | inl before ↦ rw before (Perm.trans (Perm.cons y (insert_sorted-perm x ys)) (Perm.swap x y ys))
    | inr behind ↦ rw behind (Perm.refl _)
  ]

  pub sort_by-perm : (xs : List A) → Perm (sort_by xs) xs
  unfolding sort_by
  sort_by-perm [] = Perm.refl []
  sort_by-perm (x ∷ xs) =
      Perm.trans (insert_sorted-perm x (sort_by xs)) (Perm.cons x (sort_by-perm xs))

  insert_sorted-All {κ} :
      (P : A → Type κ) (x : A) (ys : List A) → P x → All P ys → All P (insert_sorted x ys)
  unfolding insert_sorted
  insert_sorted-All P x [] h k = (h, tt)
  insert_sorted-All P x (y ∷ ys) h (k, ks) = elim (Bool-cases (less y x)) [
    | inl before ↦ rw before (k, insert_sorted-All P x ys h ks)
    | inr behind ↦ rw behind (h, (k, ks))
  ]

  pub sort_by-All {κ} : (P : A → Type κ) (xs : List A) → All P xs → All P (sort_by xs)
  unfolding sort_by
  sort_by-All P [] h = tt
  sort_by-All P (x ∷ xs) (h, hs) = insert_sorted-All P x (sort_by xs) h (sort_by-All P xs hs)

  insert_sorted-length : (x : A) (ys : List A) → length (insert_sorted x ys) ≡ suc (length ys)
  unfolding insert_sorted
  insert_sorted-length x [] = refl
  insert_sorted-length x (y ∷ ys) = ground (arith, insert_sorted-length x ys)

  insert_sorted-count_by :
      (key : A → String) (k : String) (x : A) (ys : List A)
      → count_by key k (insert_sorted x ys) ≡ count_by key k (x ∷ ys)
  unfolding insert_sorted
  insert_sorted-count_by key k x [] = refl
  insert_sorted-count_by key k x (y ∷ ys) = ground (arith, insert_sorted-count_by key k x ys)

  pub sort_by-count_by :
      (key : A → String) (k : String) (xs : List A)
      → count_by key k (sort_by xs) ≡ count_by key k xs
  unfolding sort_by
  sort_by-count_by key k [] = refl
  sort_by-count_by key k (x ∷ xs) =
      ground (arith, insert_sorted-count_by key k x (sort_by xs), sort_by-count_by key k xs)

  pub sort_by-length : (xs : List A) → length (sort_by xs) ≡ length xs
  unfolding sort_by
  sort_by-length [] = refl
  sort_by-length (x ∷ xs) = omega (arith, insert_sorted-length x (sort_by xs), sort_by-length xs)

  -- No entry is less than one in front of it.
  abbrev pub IsSorted : List A → Type ℓ
  IsSorted [] = Unit
  IsSorted (x ∷ xs) = All (λ y. less y x ≡ false) xs × IsSorted xs

module _ {ℓ} {A : Type ℓ} (less : A → A → Bool)
    (asymm : (x y : A) → less x y ≡ true → less y x ≡ false)
    (trans : (x y z : A) → less y x ≡ false → less z y ≡ false → less z x ≡ false) where
  All-behind :
      (x y : A) (ys : List A)
      → less y x ≡ false
      → All (λ z. less z y ≡ false) ys
      → All (λ z. less z x ≡ false) ys
  All-behind x y [] h k = tt
  All-behind x y (z ∷ zs) h (k, ks) = (trans x y z h k, All-behind x y zs h ks)

  All-insert_sorted :
      (x y : A) (ys : List A)
      → less x y ≡ false
      → All (λ z. less z y ≡ false) ys
      → All (λ z. less z y ≡ false) (insert_sorted less x ys)
  unfolding insert_sorted
  All-insert_sorted x y [] h k = (h, tt)
  All-insert_sorted x y (z ∷ zs) h (k, ks) = elim (Bool-cases (less z x)) [
    | inl before ↦ rw before (k, All-insert_sorted x y zs h ks)
    | inr behind ↦ rw behind (h, (k, ks))
  ]

  insert_sorted-IsSorted :
      (x : A) (ys : List A) → IsSorted less ys → IsSorted less (insert_sorted less x ys)
  unfolding insert_sorted
  insert_sorted-IsSorted x [] h = (tt, tt)
  insert_sorted-IsSorted x (y ∷ ys) (h, hs) = elim (Bool-cases (less y x)) [
    | inl before ↦
        rw before (All-insert_sorted x y ys (asymm y x before) h, insert_sorted-IsSorted x ys hs)
    | inr behind ↦ rw behind ((behind, All-behind x y ys behind h), (h, hs))
  ]

  pub sort_by-IsSorted : (xs : List A) → IsSorted less (sort_by less xs)
  unfolding sort_by
  sort_by-IsSorted [] = tt
  sort_by-IsSorted (x ∷ xs) = insert_sorted-IsSorted x (sort_by less xs) (sort_by-IsSorted xs)
