-- ===== src/GoText/Query.antt =====
-- What the code uses of net/url, encoding/hex and strconv.FormatInt: ParseQuery, with the fields in
-- the order of the text, DecodeString, and the digits of a number. The limit of later versions of
-- net/url on the number of fields is left out.
use servekit.Prelude.{
  ℕ, zero, suc, ◌+◌, ◌-◌, ◌*◌, ◌/◌, ◌%◌, Option, none, some, List, [], ◌∷◌, ◌++◌, ltb, ◌==◌,
  if◌then◌else◌, any, is_empty, Bytes, ◌^◌, ◌<◌, ◌≡◌, ap, arith, Bool-cases, inl, inr,
}
use servekit.GoText.{in_range}

unfoldable pub unhex : ℕ → Option ℕ
unfolding in_range
unhex c =
    if in_range b'0' b'9' c
    then some (c - b'0')
    else if in_range b'a' b'f' c
    then some (c - b'a' + 10)
    else if in_range b'A' b'F' c
    then some (c - b'A' + 10)
    else none

abbrev pub add_byte : ℕ → Option Bytes → Option Bytes
add_byte c none = none
add_byte c (some s) = some (c ∷ s)

-- Where url.QueryUnescape stands: outside an escape, after its percent sign, after its first digit.
pub data Escape : Type 0 where
  outside : Escape
  percent : Escape
  half : ℕ → Escape

unfoldable pub unescape : Escape → Bytes → Option Bytes
unescape outside [] = some []
unescape percent [] = none
unescape (half h) [] = none
unescape outside (c ∷ s) =
    let rest = unescape outside s in
    let escaped = unescape percent s in
    if c == b'%' then escaped else add_byte (if c == b'+' then b' ' else c) rest
unescape percent (c ∷ s) = elim (unhex c) [ none ↦ none | some h ↦ unescape (half h) s ]
unescape (half h) (c ∷ s) =
    let rest = unescape outside s in
    elim (unhex c) [ none ↦ none | some l ↦ add_byte (h * 16 + l) rest ]

-- strings.Cut(s, sep), sep one byte
unfoldable pub cut : ℕ → Bytes → Bytes × Bytes
cut sep [] = ([], [])
cut sep (c ∷ s) = let rest = cut sep s in if c == sep then ([], s) else (c ∷ rest.0, rest.1)

abbrev pub add_first : ℕ → List Bytes → List Bytes
add_first c [] = (c ∷ []) ∷ []
add_first c (s ∷ rest) = (c ∷ s) ∷ rest

-- The parts between the separators.
unfoldable pub split_on : ℕ → Bytes → List Bytes
split_on sep [] = [] ∷ []
split_on sep (c ∷ s) = let rest = split_on sep s in if c == sep then [] ∷ rest else add_first c rest

pub record Field : Type 0 where
  pub name : Bytes
  pub value : Bytes

abbrev pub make_field : Option Bytes → Option Bytes → Option Field
make_field none v = none
make_field (some k) none = none
make_field (some k) (some v) = some (record { name = k; value = v })

unfoldable pub parse_field : Bytes → Option Field
unfolding unhex unescape cut
parse_field part =
    let kv = cut b'=' part in
    if any (λ c. c == b';') part
    then none
    else make_field (unescape outside kv.0) (unescape outside kv.1)

abbrev pub add_field : Option Field → Option (List Field) → Option (List Field)
add_field none rest = none
add_field (some f) none = none
add_field (some f) (some rest) = some (f ∷ rest)

unfoldable pub parse_fields : List Bytes → Option (List Field)
unfolding parse_field
parse_fields [] = some []
parse_fields (part ∷ parts) =
    let rest = parse_fields parts in
    if is_empty part then rest else add_field (parse_field part) rest

-- url.ParseQuery; `none` if any part of the text is malformed.
unfoldable pub parse_query : Bytes → Option (List Field)
unfolding split_on parse_fields
parse_query s = parse_fields (split_on b'&' s)

-- hex.DecodeString, with the digit that is still to be paired.
unfoldable pub hex_from : Option ℕ → Bytes → Option Bytes
unfolding unhex
hex_from none [] = some []
hex_from (some h) [] = none
hex_from none (c ∷ s) = elim (unhex c) [ none ↦ none | some h ↦ hex_from (some h) s ]
hex_from (some h) (c ∷ s) =
    let rest = hex_from none s in
    elim (unhex c) [ none ↦ none | some l ↦ add_byte (h * 16 + l) rest ]

unfoldable pub hex_decode : Bytes → Option Bytes
unfolding hex_from
hex_decode s = hex_from none s

-- The decimal digits of n, at most `most` of them.
unfoldable pub decimal : ℕ → ℕ → Bytes
decimal zero n = []
decimal (suc most) n =
    let rest = decimal most (n / 10) in
    if ltb n 10 then (b'0' + n) ∷ [] else rest ++ ((b'0' + n % 10) ∷ [])

-- A number below 10 ^ k has at most k digits, and more room changes nothing.
decimal_enough : (k n : ℕ) → n < 10 ^ suc k → decimal (suc (suc k)) n ≡ decimal (suc k) n
unfolding decimal
decimal_enough zero n h = ground arith
decimal_enough (suc k) n h = elim (Bool-cases (ltb n 10)) [
  | inl e ↦ rw e
  | inr e ↦
      let ih = decimal_enough k (n / 10) (omega arith) in
      rw e (ap (λ s. s ++ ((b'0' + n % 10) ∷ [])) ih)
]
