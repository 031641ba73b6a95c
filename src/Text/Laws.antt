-- ===== src/Text/Laws.antt =====
-- Trimming is idempotent, and joining undoes splitting.
use Prim.Native.Char.{Char, code}
use Prim.Native.String
use Prim.Native.String.{[], ◌∷◌}
use mathlib.Core.List.{[], ◌∷◌}
use text.Mathlib.TextEquality.{Char-path}
use text.Mathlib.TextLemmas.{nil-append, cons-append}
use model_interface_gateway.Base.{
  ℕ, String, ◌≡◌, ◌≢◌, refl, ap, false, List, arith, All, Bool-cases, inl, inr, eqb, eqb→eq, sym,
}
use model_interface_gateway.Text.{
  is_space, trim_left, trim_right, keep_left, trim_space, push_head, split_at, join,
}

pub cons-ne_nil : (c : Char) (s : String) → String.◌∷◌ c s ≢ ""
cons-ne_nil c s e = cc

pub append-ne_nil : (c : Char) (s t : String) → String.◌++◌ (c ∷ s) t ≢ ""
append-ne_nil c s t = rw (cons-append c s t) (cons-ne_nil c _)

-- The first character is no space.
abbrev NoSpaceFirst : String → Type 0
NoSpaceFirst [] = Unit
NoSpaceFirst (c ∷ s) = is_space c ≡ false

trim_left-NoSpaceFirst : (s : String) → NoSpaceFirst (trim_left s)
unfolding trim_left
trim_left-NoSpaceFirst [] = tt
trim_left-NoSpaceFirst (c ∷ s) = elim (Bool-cases (is_space c)) [
  | inl space ↦ rw space (trim_left-NoSpaceFirst s)
  | inr other ↦ rw other other
]

trim_left_of_NoSpaceFirst : (s : String) → NoSpaceFirst s → trim_left s ≡ s
unfolding trim_left
trim_left_of_NoSpaceFirst [] h = refl
trim_left_of_NoSpaceFirst (c ∷ s) h = ground arith

keep_left-NoSpaceFirst : (c : Char) (s : String) → is_space c ≡ false → NoSpaceFirst (keep_left c s)
keep_left-NoSpaceFirst c [] h = rw h h
keep_left-NoSpaceFirst c (d ∷ s) h = h

trim_right-NoSpaceFirst : (s : String) → NoSpaceFirst s → NoSpaceFirst (trim_right s)
unfolding trim_right
trim_right-NoSpaceFirst [] h = tt
trim_right-NoSpaceFirst (c ∷ s) h = keep_left-NoSpaceFirst c (trim_right s) h

trim_right-keep_left :
    (c : Char) (s : String) → trim_right s ≡ s → trim_right (keep_left c s) ≡ keep_left c s
unfolding trim_right
trim_right-keep_left c [] h = elim (Bool-cases (is_space c)) [
  | inl space ↦ rw space
  | inr other ↦ rw other (rw other)
]
trim_right-keep_left c (d ∷ s) h = ap (keep_left c) h

trim_right_idem : (s : String) → trim_right (trim_right s) ≡ trim_right s
unfolding trim_right
trim_right_idem [] = refl
trim_right_idem (c ∷ s) = trim_right-keep_left c (trim_right s) (trim_right_idem s)

-- Trimming a second time changes nothing.
pub trim_space_idem : (s : String) → trim_space (trim_space s) ≡ trim_space s
unfolding trim_space
trim_space_idem s =
    rw (trim_left_of_NoSpaceFirst _ (trim_right-NoSpaceFirst _ (trim_left-NoSpaceFirst s)))
      (trim_right_idem (trim_left s))

-- No character of the text is the separator.
abbrev pub Lacks : ℕ → String → Type 0
Lacks sep [] = Unit
Lacks sep (c ∷ s) = (code c ≢ sep) × Lacks sep s

push_head-All :
    (sep : ℕ) (c : Char) (ps : List String)
    → code c ≢ sep
    → All (Lacks sep) ps
    → All (Lacks sep) (push_head c ps)
push_head-All sep c [] h k = ((h, tt), tt)
push_head-All sep c (p ∷ ps) h (k, ks) = ((h, k), ks)

-- No part holds the separator.
pub split_at-Lacks : (sep : ℕ) (s : String) → All (Lacks sep) (split_at sep s)
unfolding split_at
split_at-Lacks sep [] = (tt, tt)
split_at-Lacks sep (c ∷ s) =
    ground (arith, split_at-Lacks sep s, push_head-All sep c (split_at sep s))

-- There is at least one part.
abbrev pub NonEmpty : List String → Type 0
NonEmpty [] = ⊥
NonEmpty (p ∷ ps) = Unit

push_head-NonEmpty : (c : Char) (ps : List String) → NonEmpty (push_head c ps)
push_head-NonEmpty c [] = tt
push_head-NonEmpty c (p ∷ ps) = tt

pub split_at-NonEmpty : (sep : ℕ) (s : String) → NonEmpty (split_at sep s)
unfolding split_at
split_at-NonEmpty sep [] = tt
split_at-NonEmpty sep (c ∷ s) = ground (arith, push_head-NonEmpty c (split_at sep s))

join-push_head :
    (sep : String) (c : Char) (ps : List String)
    → NonEmpty ps
    → join sep (push_head c ps) ≡ c ∷ join sep ps
unfolding join
join-push_head sep c [] h = elim h [ ]
join-push_head sep c (p ∷ []) h = refl
join-push_head sep c (p ∷ q ∷ ps) h = cons-append c p _

join-cons_nil :
    (sep : String) (ps : List String)
    → NonEmpty ps
    → join sep ([] ∷ ps) ≡ String.◌++◌ sep (join sep ps)
unfolding join
join-cons_nil sep [] h = elim h [ ]
join-cons_nil sep (p ∷ ps) h = nil-append _

-- Joining the parts again with the separator gives the text back.
pub join-split_at : (sep : Char) (s : String) → join (sep ∷ []) (split_at (code sep) s) ≡ s
unfolding split_at
join-split_at sep [] = unfold join in refl
join-split_at sep (c ∷ s) = elim (Bool-cases (eqb (code c) (code sep))) [
  | inl same ↦
      rw
        (
          same,
          join-cons_nil (sep ∷ []) (split_at (code sep) s) (split_at-NonEmpty (code sep) s),
          join-split_at sep s,
          cons-append,
          nil-append,
        )
        (ap (λ (x : Char). x ∷ s) (Char-path sep c (sym (eqb→eq _ _ same))))
  | inr other ↦ rw (
    other,
    join-push_head (sep ∷ []) c (split_at (code sep) s) (split_at-NonEmpty (code sep) s),
    join-split_at sep s,
  )
]
