-- ===== src/Text.antt =====
-- What the program uses of Go's packages strings, strconv, encoding/hex and sort, over the code
-- points of a text. Go's texts are bytes: the two agree on well-formed UTF-8, which is what the JSON
-- and protobuf decoders hand over. The laws are in `Text/Laws` and `Text/Order`.
pub mod Laws
pub mod Order
pub mod Decimal
use Prim.Native.Char.{Char, char, code, nul, IsScalar}
use Prim.Native.Nat.{compare, Ordering}
use Prim.Native.String
use Prim.Native.String.{[], ◌∷◌}
use mathlib.Core.List.{[], ◌∷◌}
use mathlib.Core.Logic.{dite}
use native.Mathlib.Decide.{dec_lt}
use model_interface_gateway.Base.Int.{ℤ, pos, negsuc, max_int64}
use model_interface_gateway.Base.{
  ℕ, zero, suc, String, ◌+◌, ◌*◌, Option, some, none, ◌-◌, ◌/◌, ◌%◌, ◌<◌, ◌≡◌, refl, Bool, true,
  false, ◌&&◌, ◌||◌, List, arith, ltb, leb, eqb, ◌==◌, if◌then◌else◌,
}

-- unicode.IsSpace
unfoldable pub is_space : Char → Bool
is_space c =
    let n = code c in
    leb 9 n && leb n 13
    || eqb n 32
    || eqb n 0x85
    || eqb n 0xa0
    || eqb n 0x1680
    || leb 0x2000 n && leb n 0x200a
    || eqb n 0x2028
    || eqb n 0x2029
    || eqb n 0x202f
    || eqb n 0x205f
    || eqb n 0x3000

unfoldable pub trim_left : String → String
trim_left [] = []
trim_left (c ∷ s) = let rest = trim_left s in if is_space c then rest else c ∷ s

-- A space in front of what is left after the spaces at the end are gone.
abbrev pub keep_left : Char → String → String
keep_left c [] = if is_space c then [] else c ∷ []
keep_left c (d ∷ s) = c ∷ d ∷ s

unfoldable pub trim_right : String → String
trim_right [] = []
trim_right (c ∷ s) = keep_left c (trim_right s)

-- strings.TrimSpace
unfoldable pub trim_space : String → String
unfolding trim_left trim_right
trim_space s = trim_right (trim_left s)

compare-lt : (n m : ℕ) → n < m → compare n m ≡ Ordering.lt
compare-lt n m h = ground arith

pub IsScalar-below : (n : ℕ) → n < 55296 → IsScalar n
IsScalar-below n h = rw (compare-lt n 55296 h) tt

-- The character with a number below the surrogates.
unfoldable pub of_code : ℕ → Char
unfolding dec_lt
of_code n = dite (dec_lt n 55296) (λ h. char n (IsScalar-below n h)) (λ _. nul)

-- unicode.ToLower where its answer is an ASCII letter: the capitals A to Z, U+0130 (to i) and U+212A
-- (to k). Other characters stand for themselves: the program compares the result with ASCII words
-- alone, and no other character has an ASCII lower case.
unfoldable pub lower_char : Char → Char
unfolding of_code
lower_char c =
    let n = code c in
    if leb b'A' n && leb n b'Z'
    then of_code (n + 32)
    else if eqb n 0x130
    then of_code b'i'
    else if eqb n 0x212a
    then of_code b'k'
    else c

-- strings.ToLower, as far as a comparison with an ASCII word sees it.
unfoldable pub to_lower : String → String
unfolding lower_char
to_lower [] = []
to_lower (c ∷ s) = lower_char c ∷ to_lower s

-- strings.HasPrefix
unfoldable pub has_prefix : String → String → Bool
has_prefix s [] = true
has_prefix [] (d ∷ t) = false
has_prefix (c ∷ s) (d ∷ t) = eqb (code c) (code d) && has_prefix s t

-- strings.Contains
unfoldable pub contains : String → String → Bool
unfolding has_prefix
contains [] t = has_prefix [] t
contains (c ∷ s) t = has_prefix (c ∷ s) t || contains s t

abbrev drop_chars : ℕ → String → String
drop_chars zero s = s
drop_chars (suc n) [] = []
drop_chars (suc n) (c ∷ s) = drop_chars n s

-- strings.TrimPrefix
unfoldable pub trim_prefix : String → String → String
unfolding has_prefix
trim_prefix s t = if has_prefix s t then drop_chars (String.count t) s else s

-- The first `n` characters, `s[:n]` of an ASCII text that is long enough.
unfoldable pub take_chars : ℕ → String → String
take_chars zero s = []
take_chars (suc n) [] = []
take_chars (suc n) (c ∷ s) = c ∷ take_chars n s

-- strings.TrimRight with one character to cut.
unfoldable pub trim_right_char : ℕ → String → String
trim_right_char cut [] = []
trim_right_char cut (c ∷ s) =
    let rest = trim_right_char cut s in
    elim rest [ [] ↦ if eqb (code c) cut then [] else c ∷ [] | d ∷ t ↦ c ∷ d ∷ t ]

-- One character in front of the first part.
abbrev pub push_head : Char → List String → List String
push_head c [] = (c ∷ []) ∷ []
push_head c (p ∷ ps) = (c ∷ p) ∷ ps

-- strings.Split at a separator of one character.
unfoldable pub split_at : ℕ → String → List String
split_at sep [] = [] ∷ []
split_at sep (c ∷ s) =
    let rest = split_at sep s in if eqb (code c) sep then [] ∷ rest else push_head c rest

-- strings.Join
unfoldable pub join : String → List String → String
join sep [] = []
join sep (p ∷ []) = p
join sep (p ∷ q ∷ ps) = String.◌++◌ p (String.◌++◌ sep (join sep (q ∷ ps)))

-- strings.ReplaceAll of one character by one.
unfoldable pub replace_char : ℕ → Char → String → String
replace_char from to [] = []
replace_char from to (c ∷ s) =
    let rest = replace_char from to s in if eqb (code c) from then to ∷ rest else c ∷ rest

-- strings.Fields: the parts between runs of spaces. The flag says that the character before was no
-- space, so that the next one goes on with the first part.
unfoldable pub fields_from : String → Bool × List String
fields_from [] = (false, [])
fields_from (c ∷ s) =
    let (inside, parts) = fields_from s in
    if is_space c
    then (false, parts)
    else (true, if inside then push_head c parts else (c ∷ []) ∷ parts)

abbrev pub fields : String → List String
fields s = (fields_from s).1

-- The order `<` of Go's texts.
unfoldable pub str_lt : String → String → Bool
str_lt [] [] = false
str_lt [] (d ∷ t) = true
str_lt (c ∷ s) [] = false
str_lt (c ∷ s) (d ∷ t) = ltb (code c) (code d) || eqb (code c) (code d) && str_lt s t

-- One digit of hexadecimal or decimal.
unfoldable pub digit : ℕ → Char
unfolding of_code
digit n = if ltb n 10 then of_code (n + b'0') else of_code (n - 10 + b'a')

-- hex.EncodeToString
unfoldable pub hex_encode : List ℕ → String
unfolding digit
hex_encode [] = []
hex_encode (b ∷ bs) = digit (b / 16 % 16) ∷ digit (b % 16) ∷ hex_encode bs

-- One character as `strconv.Quote` writes it. Characters past ASCII stay as they are, which is right
-- for those that are printable.
unfoldable pub quote_char : Char → String
unfolding digit of_code
quote_char c =
    let n = code c in
    if eqb n b'"'
    then "\\\""
    else if eqb n 92
    then "\\\\"
    else if eqb n 7
    then "\\a"
    else if eqb n 8
    then "\\b"
    else if eqb n 12
    then "\\f"
    else if eqb n 10
    then "\\n"
    else if eqb n 13
    then "\\r"
    else if eqb n 9
    then "\\t"
    else if eqb n 11
    then "\\v"
    else if ltb n 32 || eqb n 127
    then String.◌++◌ "\\x" (digit (n / 16) ∷ digit (n % 16) ∷ [])
    else c ∷ []

unfoldable pub quote_body : String → String
unfolding quote_char
quote_body [] = "\""
quote_body (c ∷ s) = String.◌++◌ (quote_char c) (quote_body s)

-- `%q`, strconv.Quote
unfoldable pub quote : String → String
unfolding quote_body
quote s = String.◌++◌ "\"" (quote_body s)

-- The decimal digits in front of `rest`, with fuel for each.
unfoldable pub decimal_from : ℕ → ℕ → String → String
decimal_from zero n rest = rest
decimal_from (suc fuel) n rest =
    let more = decimal_from fuel (n / 10) (digit (n % 10) ∷ rest) in
    if ltb n 10 then digit n ∷ rest else more

-- strconv.Itoa of a number that is not negative; it has at most `n + 1` digits.
abbrev pub decimal : ℕ → String
decimal n = decimal_from (suc n) n []

-- The number that a row of decimal digits stands for.
unfoldable pub parse_digits : ℕ → String → Option ℕ
parse_digits n [] = some n
parse_digits n (c ∷ s) =
    let d = code c in
    let rest = parse_digits (n * 10 + (d - b'0')) s in
    if leb b'0' d && leb d b'9' then rest else none

-- The value of a row of digits that is not empty, with the sign that stood in front of it.
abbrev pub digits_value : Bool → String → Option ℤ
digits_value negative [] = none
digits_value negative (c ∷ s) = elim (parse_digits 0 (c ∷ s)) [
  | none ↦ none
  | some zero ↦ some (pos 0)
  | some (suc n) ↦
      if leb n (if negative then max_int64 else max_int64 - 1)
      then some (if negative then negsuc n else pos (suc n))
      else none
]

-- strconv.Atoi: a sign or none, then digits, in the range of `int`.
unfoldable pub atoi : String → Option ℤ
atoi [] = none
atoi (c ∷ s) =
    if eqb (code c) b'-'
    then digits_value true s
    else if eqb (code c) b'+'
    then digits_value false s
    else digits_value false (c ∷ s)

tests :
    (trim_space " \t a b \n" ≡ "a b")
    × (to_lower "HtTp" ≡ "http")
    × (contains "a.b" "." ≡ true)
    × (trim_prefix "Bearer x" "Bearer " ≡ "x")
    × (split_at b'.' "a..b" ≡ "a" ∷ "" ∷ "b" ∷ [])
    × (join "." ("a" ∷ "" ∷ "b" ∷ []) ≡ "a..b")
    × (fields "  a bc  d " ≡ "a" ∷ "bc" ∷ "d" ∷ [])
    × (hex_encode (0 ∷ 255 ∷ 26 ∷ []) ≡ "00ff1a")
    × (decimal 1907 ≡ "1907")
    × (parse_digits 0 "007" ≡ some 7)
    × (atoi "-3" ≡ some (negsuc 2))
    × (atoi "9223372036854775808" ≡ none)
    × (quote "a\t" ≡ "\"a\\t\"")
    × (replace_char b' ' (of_code b'_') "a b" ≡ "a_b")
    × (str_lt "ab" "b" ≡ true)
unfolding is_space trim_space to_lower contains trim_prefix split_at join fields_from hex_encode
    digit decimal_from quote atoi parse_digits replace_char str_lt
tests = (refl, refl, refl, refl, refl, refl, refl, refl, refl, refl, refl, refl, refl, refl, refl)
