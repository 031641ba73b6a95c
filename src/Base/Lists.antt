-- ===== src/Base/Lists.antt =====
-- Lists measured by native numbers, under the library's names, and a Boolean search.
use Prim.Native.Nat.{ℕ, zero, suc, ◌+◌, ◌-◌, ◌≤◌}
use mathlib.Core.Path.{◌≡◌, refl, ap}
use mathlib.Core.List.{List, [], ◌∷◌, ◌++◌, map}
use native.Mathlib.Omega.{arith}
use Prim.Native.String.{String}
use text.Mathlib.Text.{◌==◌}
use model_interface_gateway.Base.Tests.{if◌then◌else◌}

module _ {ℓ} {A : Type ℓ} where
  abbrev pub length : List A → ℕ
  length [] = 0
  length (x ∷ xs) = suc (length xs)

  abbrev pub drop : ℕ → List A → List A
  drop zero xs = xs
  drop (suc n) [] = []
  drop (suc n) (x ∷ xs) = drop n xs

  pub length-append : (xs ys : List A) → length (xs ++ ys) ≡ length xs + length ys
  length-append [] ys = omega arith
  length-append (x ∷ xs) ys = omega (arith, length-append xs ys)

  pub drop-append : (n : ℕ) (xs ys : List A) → n ≤ length xs → drop n (xs ++ ys) ≡ drop n xs ++ ys
  drop-append zero xs ys h = refl
  drop-append (suc n) [] ys h = elim h [ ]
  drop-append (suc n) (x ∷ xs) ys h = drop-append n xs ys (omega arith)

  pub length-drop : (n : ℕ) (xs : List A) → length (drop n xs) ≡ length xs - n
  length-drop zero xs = omega arith
  length-drop (suc n) [] = omega arith
  length-drop (suc n) (x ∷ xs) = omega (arith, length-drop n xs)

module _ {ℓ κ} {A : Type ℓ} where
  -- A predicate on every entry of a list.
  abbrev pub All : (A → Type κ) → List A → Type κ
  All P [] = Unit
  All P (x ∷ xs) = P x × All P xs

  pub All-append : (P : A → Type κ) (xs ys : List A) → All P xs → All P ys → All P (xs ++ ys)
  All-append P [] ys hx hy = hy
  All-append P (x ∷ xs) ys hx hy = (hx.0, All-append P xs ys hx.1 hy)

pub length-map {ℓ κ} :
    {A : Type ℓ} {B : Type κ} (f : A → B) (xs : List A) → length (map f xs) ≡ length xs
length-map f [] = refl
length-map f (x ∷ xs) = ap suc (length-map f xs)

-- How many entries of a list have the key `k`.
abbrev pub count_by {ℓ} : {A : Type ℓ} → (A → String) → String → List A → ℕ
count_by key k [] = 0
count_by key k (x ∷ xs) = let rest = count_by key k xs in if key x == k then suc rest else rest

module _ {ℓ} {A : Type ℓ} (key : A → String) (k : String) where
  pub count_by-append :
      (xs ys : List A) → count_by key k (xs ++ ys) ≡ count_by key k xs + count_by key k ys
  count_by-append [] ys = omega arith
  count_by-append (x ∷ xs) ys = ground (arith, count_by-append xs ys)

  pub count_by-le-length : (xs : List A) → count_by key k xs ≤ length xs
  count_by-le-length [] = omega arith
  count_by-le-length (x ∷ xs) = ground (arith, count_by-le-length xs)

-- The first list is the second without some of its entries.
pub data IsSubsequence {ℓ} {A : Type ℓ} : List A → List A → Type ℓ where
  done : IsSubsequence [] []
  skip : {x : A} {xs ys : List A} → IsSubsequence xs ys → IsSubsequence xs (x ∷ ys)
  keep : {x : A} {xs ys : List A} → IsSubsequence xs ys → IsSubsequence (x ∷ xs) (x ∷ ys)

module _ {ℓ} {A : Type ℓ} where
  pub IsSubsequence-refl : (xs : List A) → IsSubsequence xs xs
  IsSubsequence-refl [] = done
  IsSubsequence-refl (x ∷ xs) = keep (IsSubsequence-refl xs)

  -- What is missing from a list may be missing from a longer one.
  pub IsSubsequence-insert :
      (xs : List A) (y : A) (ys : List A) {zs : List A}
      → IsSubsequence zs (xs ++ ys)
      → IsSubsequence zs (xs ++ y ∷ ys)
  IsSubsequence-insert [] y ys h = skip h
  IsSubsequence-insert (x ∷ xs) y ys (skip h) = skip (IsSubsequence-insert xs y ys h)
  IsSubsequence-insert (x ∷ xs) y ys (keep h) = keep (IsSubsequence-insert xs y ys h)

  -- One entry more at the end of the longer list, or of both.
  pub IsSubsequence-skip_last :
      (x : A) {xs ys : List A} → IsSubsequence xs ys → IsSubsequence xs (ys ++ x ∷ [])
  IsSubsequence-skip_last x done = skip done
  IsSubsequence-skip_last x (skip h) = skip (IsSubsequence-skip_last x h)
  IsSubsequence-skip_last x (keep h) = keep (IsSubsequence-skip_last x h)

  pub IsSubsequence-keep_last :
      (x : A) {xs ys : List A} → IsSubsequence xs ys → IsSubsequence (xs ++ x ∷ []) (ys ++ x ∷ [])
  IsSubsequence-keep_last x done = keep done
  IsSubsequence-keep_last x (skip h) = skip (IsSubsequence-keep_last x h)
  IsSubsequence-keep_last x (keep h) = keep (IsSubsequence-keep_last x h)

  -- More in front of both lists.
  pub IsSubsequence-append :
      (xs : List A) {ys zs : List A} → IsSubsequence ys zs → IsSubsequence (xs ++ ys) (xs ++ zs)
  IsSubsequence-append [] h = h
  IsSubsequence-append (x ∷ xs) h = keep (IsSubsequence-append xs h)

pub IsSubsequence-map {ℓ κ} :
    {A : Type ℓ} {B : Type κ} (f : A → B) {xs ys : List A}
    → IsSubsequence xs ys
    → IsSubsequence (map f xs) (map f ys)
IsSubsequence-map f done = done
IsSubsequence-map f (skip h) = skip (IsSubsequence-map f h)
IsSubsequence-map f (keep h) = keep (IsSubsequence-map f h)
