-- ===== src/Types/Json.antt =====
-- Decoded JSON, `interface{}` and `map[string]interface{}` in the code. A number is kept as the text
-- of its literal: the code never computes with one. `strings` is a `[]string`, which the code puts into
-- a meta map and no decoder makes.
use model_interface_gateway.Base.{String, Bool, List, [], ◌∷◌, Option, none, some}
use model_interface_gateway.Base.GoMap.{GoMap}

mutual
  pub data Value : Type 0 where
    null : Value
    boolean : Bool → Value
    number : String → Value
    text : String → Value
    array : Items → Value
    object : Members → Value
    strings : List String → Value

  pub data Items : Type 0 where
    nil : Items
    cons : Value → Items → Items

  pub data Members : Type 0 where
    end : Members
    member : String → Value → Members → Members

-- A `map[string]interface{}`, which may be nil.
abbrev pub Payload : Type 0
Payload = Option (GoMap Value)

abbrev pub items_of : List String → Items
items_of [] = nil
items_of (s ∷ ss) = cons (text s) (items_of ss)

abbrev pub members_of : GoMap Value → Members
members_of [] = end
members_of ((k, v) ∷ m) = member k v (members_of m)

-- A map as a value; a nil map is encoded as `null`.
abbrev pub payload_value : Payload → Value
payload_value none = null
payload_value (some m) = object (members_of m)

-- The entries of a map that may be nil: reading a nil map finds nothing.
abbrev pub entries : Payload → GoMap Value
entries none = []
entries (some m) = m
