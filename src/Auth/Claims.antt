-- ===== src/Auth/Claims.antt =====
-- auth.go: what the program reads from the claims of a token.
use model_interface_gateway.Base.{String, List, [], ◌∷◌, map, Option, some}
use model_interface_gateway.Base.GoMap.{GoMap, lookup, insert}
use model_interface_gateway.Text.{trim_space, fields_from, fields}
use model_interface_gateway.Types.{Value}
use model_interface_gateway.Types.Json.{text, array, strings, Items, nil, cons}

-- `map[string]struct{}`
abbrev pub Scopes : Type 0
Scopes = GoMap (Unit {0})

-- A claim that is a text, trimmed; the fallback for any other.
abbrev claim_text : Option Value → String → String
claim_text (some (text s)) fallback = trim_space s
claim_text _ fallback = fallback

-- `asStringClaim`
unfoldable pub as_string_claim : GoMap Value → String → String → String
unfolding lookup trim_space
as_string_claim claims key fallback = claim_text (lookup key claims) fallback

unfoldable pub add_all : List String → Scopes → Scopes
unfolding insert
add_all [] out = out
add_all (scope ∷ scopes) out = add_all scopes (insert scope tt out)

-- The texts among the items of an array, trimmed.
unfoldable pub texts : Items → List String
unfolding trim_space
texts nil = []
texts (cons (text s) items) = trim_space s ∷ texts items
texts (cons _ items) = texts items

-- The words of the claim "scope".
abbrev pub scope_words : Option Value → List String
scope_words (some (text s)) = fields s
scope_words _ = []

-- The texts of the claim "scopes".
abbrev pub scope_items : Option Value → List String
scope_items (some (array items)) = texts items
scope_items (some (strings scopes)) = map trim_space scopes
scope_items _ = []

-- `scopesFromClaims`
unfoldable pub scopes_from_claims : GoMap Value → Scopes
unfolding lookup fields_from texts add_all
scopes_from_claims claims =
    add_all (scope_items (lookup "scopes" claims))
      (add_all (scope_words (lookup "scope" claims)) [])
