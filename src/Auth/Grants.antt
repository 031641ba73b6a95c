-- ===== src/Auth/Grants.antt =====
-- auth.go: which scopes a token gives, and what they let through.
use mathlib.Core.List.{Memᴰ}
use model_interface_gateway.Base.{
  String, ◌≡◌, ◌≢◌, ◌⊎◌, ◌↔◌, refl, ap, inl, inr, true, List, [], ◌∷◌, Option, none, some, map,
  arith, eq_iff, eq_cases, Option-cases, sym,
}
use model_interface_gateway.Base.GoMap.{GoMap, lookup, insert, lookup-insert}
use model_interface_gateway.Text.{fields, trim_space}
use model_interface_gateway.Types.{Value}
use model_interface_gateway.Types.Json.{
  null, boolean, number, text, array, object, strings, Items, nil, cons,
}
use model_interface_gateway.Auth.Claims.{
  Scopes, add_all, texts, scope_words, scope_items, scopes_from_claims,
}
use model_interface_gateway.Auth.{Principal, holds_any, has_any_scope}

-- One of the required scopes is among the scopes.
abbrev pub HoldsOne : Scopes → List String → Type 0
HoldsOne scopes required = (scope : String) × Memᴰ scope required × (lookup scope scopes ≢ none)

holds_any_sound :
    (scopes : Scopes) (required : List String)
    → holds_any scopes required ≡ true
    → HoldsOne scopes required
unfolding holds_any
holds_any_sound scopes [] h = cc
holds_any_sound scopes (scope ∷ required) h = elim (Option-cases (lookup scope scopes)) [
  | inl missing ↦
      let (s, m, k) = holds_any_sound scopes required (rw (missing, holds_any) at h) in
      (s, Memᴰ.tail m, k)
  | inr (u, found) ↦ (scope, Memᴰ.head refl, λ e. cc)
]

holds_any_complete :
    {scope : String} (scopes : Scopes) (required : List String)
    → Memᴰ scope required
    → lookup scope scopes ≢ none
    → holds_any scopes required ≡ true
unfolding holds_any
holds_any_complete scopes [] m k = elim m [ ]
holds_any_complete scopes (scope ∷ required) (Memᴰ.head e) k = ground arith
holds_any_complete scopes (scope ∷ required) (Memᴰ.tail m) k =
    ground (arith, holds_any_complete scopes required m k)

-- An authenticated principal is let through exactly by a scope that it holds, unless no scope is
-- required.
pub has_any_scope_iff :
    (p : Principal) (required : List String)
    → p.authenticated ≡ true
    → (has_any_scope p required ≡ true) ↔ ((required ≡ []) ⊎ HoldsOne p.scopes required)
unfolding has_any_scope
has_any_scope_iff p [] known = (λ h. inl refl, λ h. ground arith)
has_any_scope_iff p (scope ∷ required) known = (
  λ h. inr (holds_any_sound p.scopes (scope ∷ required) (rw known at h)),
  λ h. elim h [
    | inl e ↦ cc
    | inr (s, m, k) ↦ rw known (holds_any_complete p.scopes (scope ∷ required) m k)
  ],
)

mem-cons_cases : {s x : String} {l : List String} → Memᴰ s (x ∷ l) → (s ≡ x) ⊎ Memᴰ s l
mem-cons_cases (Memᴰ.head e) = inl e
mem-cons_cases (Memᴰ.tail m) = inr m

lookup-insert-tt :
    (x s : String) (out : Scopes)
    → ((s ≡ x) ⊎ (lookup s out ≡ some tt))
    → lookup s (insert x tt out) ≡ some tt
lookup-insert-tt x s out h = rw (lookup-insert x s tt out) (ground (arith, eq_iff x s))

lookup-insert-tt_cases :
    (x s : String) (out : Scopes) {l : List String}
    → lookup s (insert x tt out) ≡ some tt
    → (lookup s out ≡ some tt) ⊎ Memᴰ s (x ∷ l)
lookup-insert-tt_cases x s out h = elim (eq_cases x s) [
  | inl same ↦ inr (Memᴰ.head (sym same))
  | inr other ↦ inl (rw (lookup-insert x s tt out, other) at h)
]

lookup-add_all_iff :
    (s : String) (l : List String) (out : Scopes)
    → (lookup s (add_all l out) ≡ some tt) ↔ ((lookup s out ≡ some tt) ⊎ Memᴰ s l)
unfolding add_all
lookup-add_all_iff s [] out = (λ h. inl h, λ h. elim h [ inl e ↦ e | inr m ↦ elim m [ ] ])
lookup-add_all_iff s (x ∷ l) out =
    let (to, from) = lookup-add_all_iff s l (insert x tt out) in
    (
      λ h. elim (to h) [ inl e ↦ lookup-insert-tt_cases x s out e | inr m ↦ inr (Memᴰ.tail m) ],
      λ h. elim h [
        | inl e ↦ from (inl (lookup-insert-tt x s out (inr e)))
        | inr m ↦ elim (mem-cons_cases m) [
          | inl same ↦ from (inl (lookup-insert-tt x s out (inl same)))
          | inr later ↦ from (inr later)
        ]
      ],
    )

-- The claim "scope" is a text that has `s` among its words.
abbrev pub NamedInText : String → Option Value → Type 0
NamedInText s claim = (words : String) × (claim ≡ some (text words)) × Memᴰ s (fields words)

abbrev HasItem : Value → Items → Type 0
HasItem v nil = ⊥
HasItem v (cons found items) = (v ≡ found) ⊎ HasItem v items

-- The claim "scopes" is an array with an item that is a text, or a `[]string` with a text, and `s` is
-- that text once trimmed.
abbrev pub NamedInArray : String → Option Value → Type 0
NamedInArray s claim =
    ((items : Items) × (item : String) × (claim ≡ some (array items))
      × HasItem (text item) items
      × (s ≡ trim_space item))
    ⊎ ((scopes : List String) × (item : String) × (claim ≡ some (strings scopes))
        × Memᴰ item scopes
        × (s ≡ trim_space item))

scope_words-named :
    (s : String) (claim : Option Value) → Memᴰ s (scope_words claim) → NamedInText s claim
scope_words-named s none m = elim m [ ]
scope_words-named s (some (text words)) m = (words, refl, m)
scope_words-named s (some null) m = elim m [ ]
scope_words-named s (some (boolean b)) m = elim m [ ]
scope_words-named s (some (number n)) m = elim m [ ]
scope_words-named s (some (array items)) m = elim m [ ]
scope_words-named s (some (object members)) m = elim m [ ]
scope_words-named s (some (strings scopes)) m = elim m [ ]

named-scope_words :
    (s : String) (claim : Option Value) → NamedInText s claim → Memᴰ s (scope_words claim)
named-scope_words s claim (words, is_text, m) = rw is_text m

mem-map_cases :
    {A B : Type 0} {b : B} (f : A → B) (xs : List A)
    → Memᴰ b (map f xs)
    → (a : A) × Memᴰ a xs × (b ≡ f a)
mem-map_cases f [] m = elim m [ ]
mem-map_cases f (x ∷ xs) (Memᴰ.head e) = (x, Memᴰ.head refl, e)
mem-map_cases f (x ∷ xs) (Memᴰ.tail m) =
    let (a, has, same) = mem-map_cases f xs m in (a, Memᴰ.tail has, same)

mem-map : {A B : Type 0} {a : A} {xs : List A} (f : A → B) → Memᴰ a xs → Memᴰ (f a) (map f xs)
mem-map f (Memᴰ.head e) = Memᴰ.head (ap f e)
mem-map f (Memᴰ.tail m) = Memᴰ.tail (mem-map f m)

texts-HasItem :
    (s : String) (items : Items)
    → Memᴰ s (texts items)
    → (item : String) × HasItem (text item) items × (s ≡ trim_space item)
unfolding texts
texts-HasItem s nil m = elim m [ ]
texts-HasItem s (cons (text t) items) m = elim (mem-cons_cases m) [
  | inl same ↦ (t, inl refl, same)
  | inr later ↦ let (item, has, trims) = texts-HasItem s items later in (item, inr has, trims)
]
texts-HasItem s (cons null items) m =
    let (item, has, trims) = texts-HasItem s items m in (item, inr has, trims)
texts-HasItem s (cons (boolean b) items) m =
    let (item, has, trims) = texts-HasItem s items m in (item, inr has, trims)
texts-HasItem s (cons (number n) items) m =
    let (item, has, trims) = texts-HasItem s items m in (item, inr has, trims)
texts-HasItem s (cons (array inner) items) m =
    let (item, has, trims) = texts-HasItem s items m in (item, inr has, trims)
texts-HasItem s (cons (object members) items) m =
    let (item, has, trims) = texts-HasItem s items m in (item, inr has, trims)
texts-HasItem s (cons (strings scopes) items) m =
    let (item, has, trims) = texts-HasItem s items m in (item, inr has, trims)

-- A further item does not take texts away.
mem-texts_cons :
    (s : String) (v : Value) (items : Items) → Memᴰ s (texts items) → Memᴰ s (texts (cons v items))
unfolding texts
mem-texts_cons s (text t) items m = Memᴰ.tail m
mem-texts_cons s null items m = m
mem-texts_cons s (boolean b) items m = m
mem-texts_cons s (number n) items m = m
mem-texts_cons s (array inner) items m = m
mem-texts_cons s (object members) items m = m
mem-texts_cons s (strings scopes) items m = m

HasItem-texts :
    (item : String) (items : Items)
    → HasItem (text item) items
    → Memᴰ (trim_space item) (texts items)
unfolding texts
HasItem-texts item nil h = absurd h
HasItem-texts item (cons v items) (inl same) = rw (← same) (Memᴰ.head refl)
HasItem-texts item (cons v items) (inr h) = mem-texts_cons _ v items (HasItem-texts item items h)

scope_items-named :
    (s : String) (claim : Option Value) → Memᴰ s (scope_items claim) → NamedInArray s claim
scope_items-named s none m = elim m [ ]
scope_items-named s (some (array items)) m =
    let (item, has, trims) = texts-HasItem s items m in inl (items, item, refl, has, trims)
scope_items-named s (some (strings scopes)) m =
    let (item, has, trims) = mem-map_cases trim_space scopes m in
    inr (scopes, item, refl, has, trims)
scope_items-named s (some (text words)) m = elim m [ ]
scope_items-named s (some null) m = elim m [ ]
scope_items-named s (some (boolean b)) m = elim m [ ]
scope_items-named s (some (number n)) m = elim m [ ]
scope_items-named s (some (object members)) m = elim m [ ]

named-scope_items :
    (s : String) (claim : Option Value) → NamedInArray s claim → Memᴰ s (scope_items claim)
named-scope_items s claim (inl (items, item, is_array, has, trims)) =
    rw (is_array, trims) (HasItem-texts item items has)
named-scope_items s claim (inr (scopes, item, are_texts, has, trims)) =
    rw (are_texts, trims) (mem-map trim_space has)

-- A token gives a scope exactly if its claim "scope" is a text with that scope among its words, which
-- are set apart by white space, or its claim "scopes" is an array with a text that is the scope once it
-- is trimmed.
pub scopes_from_claims_iff :
    (s : String) (claims : GoMap Value)
    → (lookup s (scopes_from_claims claims) ≡ some tt)
      ↔ (NamedInText s (lookup "scope" claims) ⊎ NamedInArray s (lookup "scopes" claims))
unfolding scopes_from_claims
scopes_from_claims_iff s claims =
    let claim = lookup "scope" claims in
    let claim' = lookup "scopes" claims in
    let (to, from) = lookup-add_all_iff s (scope_items claim') (add_all (scope_words claim) []) in
    let (to', from') = lookup-add_all_iff s (scope_words claim) [] in
    (
      λ h. elim (to h) [
        | inl e ↦ elim (to' e) [
          | inl none_yet ↦ absurd (ground arith)
          | inr m ↦ inl (scope_words-named s claim m)
        ]
        | inr m ↦ inr (scope_items-named s claim' m)
      ],
      λ h. elim h [
        | inl m ↦ from (inl (from' (inr (named-scope_words s claim m))))
        | inr m ↦ from (inr (named-scope_items s claim' m))
      ],
    )
