-- ===== src/GoText/Escape.antt =====
-- url.QueryEscape, and that ParseQuery reads back what it wrote.
use servekit.Prelude.{
  ℕ, ◌+◌, ◌*◌, ◌-◌, ◌/◌, ◌%◌, ◌<◌, ◌≡◌, refl, sym, ap, ◌∙◌, Bool, true, false, ◌||◌, Option, none,
  some, [], ◌∷◌, ◌++◌, arith, ltb, ◌==◌, if◌then◌else◌, any, All, Bytes, Bool-cases, inl, inr,
  ==_iff,
}
use servekit.GoText.{in_range}
use servekit.GoText.Query.{unhex, add_byte, outside, percent, half, unescape, split_on}

unfoldable pub is_unreserved : ℕ → Bool
unfolding in_range
is_unreserved c =
    in_range b'a' b'z' c
    || in_range b'A' b'Z' c
    || in_range b'0' b'9' c
    || c == b'-'
    || c == b'_'
    || c == b'.'
    || c == b'~'

unfoldable pub hex_digit : ℕ → ℕ
hex_digit n = if ltb n 10 then b'0' + n else b'A' + (n - 10)

unfoldable pub escape_byte : ℕ → Bytes
unfolding is_unreserved hex_digit
escape_byte c =
    if is_unreserved c
    then c ∷ []
    else if c == b' '
    then b'+' ∷ []
    else b'%' ∷ hex_digit (c / 16) ∷ hex_digit (c % 16) ∷ []

unfoldable pub query_escape : Bytes → Bytes
unfolding escape_byte
query_escape [] = []
query_escape (c ∷ s) = escape_byte c ++ query_escape s

unhex-hex_digit : (n : ℕ) → n < 16 → unhex (hex_digit n) ≡ some n
unfolding unhex hex_digit in_range
unhex-hex_digit n h = ground arith

-- No byte that is left as it is has a meaning in a query.
not_special :
    (c : ℕ)
    → is_unreserved c ≡ true
    → ((c == b'%') ≡ false) × ((c == b'+') ≡ false) × ((c == b'&') ≡ false) × ((c == b';') ≡ false)
unfolding is_unreserved in_range
not_special c h = (ground arith, ground arith, ground arith, ground arith)

unescape_percent :
    (a b h l : ℕ) (s : Bytes)
    → unhex a ≡ some h
    → unhex b ≡ some l
    → unescape outside (b'%' ∷ a ∷ b ∷ s) ≡ add_byte (h * 16 + l) (unescape outside s)
unfolding unescape
unescape_percent a b h l s p q =
    let first : unescape percent (a ∷ b ∷ s) ≡ unescape (half h) (b ∷ s) =
      ap (λ (o : Option ℕ). elim o [ none ↦ none | some x ↦ unescape (half x) (b ∷ s) ]) p in
    let second : unescape (half h) (b ∷ s) ≡ add_byte (h * 16 + l) (unescape outside s) =
      ap
        (λ (o : Option ℕ). elim o [
          | none ↦ none
          | some x ↦ add_byte (h * 16 + x) (unescape outside s)
        ])
        q in
    first ∙ second

unescape_plain :
    (c : ℕ) (s : Bytes)
    → is_unreserved c ≡ true
    → unescape outside (c ∷ s) ≡ add_byte c (unescape outside s)
unfolding unescape
unescape_plain c s h = let n = not_special c h in rw (n.0, n.1) refl

unescape_plus : (s : Bytes) → unescape outside (b'+' ∷ s) ≡ add_byte b' ' (unescape outside s)
unfolding unescape
unescape_plus s = refl

escape_byte_percent :
    (c : ℕ)
    → is_unreserved c ≡ false
    → (c == b' ') ≡ false
    → escape_byte c ≡ b'%' ∷ hex_digit (c / 16) ∷ hex_digit (c % 16) ∷ []
unfolding escape_byte
escape_byte_percent c e f = rw (e, f) refl

escape_byte_space :
    (c : ℕ) → is_unreserved c ≡ false → (c == b' ') ≡ true → escape_byte c ≡ b'+' ∷ []
unfolding escape_byte
escape_byte_space c e f = rw (e, f) refl

escape_byte_plain : (c : ℕ) → is_unreserved c ≡ true → escape_byte c ≡ c ∷ []
unfolding escape_byte
escape_byte_plain c e = rw e refl

unescape-escape_byte :
    (c : ℕ) (s : Bytes)
    → c < 256
    → unescape outside (escape_byte c ++ s) ≡ add_byte c (unescape outside s)
unescape-escape_byte c s h = elim (Bool-cases (is_unreserved c)) [
  | inl e ↦ rw (escape_byte_plain c e) (unescape_plain c s e)
  | inr e ↦ elim (Bool-cases (c == b' ')) [
    | inl f ↦
        rw (escape_byte_space c e f)
          (unescape_plus s ∙ ap (λ x. add_byte x (unescape outside s)) (sym ((==_iff c b' ').0 f)))
    | inr f ↦ rw (escape_byte_percent c e f) (
        unescape_percent (hex_digit (c / 16)) (hex_digit (c % 16)) (c / 16) (c % 16) s
          (unhex-hex_digit (c / 16) (omega arith)) (unhex-hex_digit (c % 16) (omega arith))
        ∙ ap (λ x. add_byte x (unescape outside s)) (omega arith))
  ]
]

-- url.QueryUnescape reads back what url.QueryEscape wrote.
pub unescape-query_escape :
    (s : Bytes) → All (λ c. c < 256) s → unescape outside (query_escape s) ≡ some s
unfolding query_escape unescape
unescape-query_escape [] h = refl
unescape-query_escape (c ∷ s) h =
    unescape-escape_byte c (query_escape s) h.0 ∙ ap (add_byte c) (unescape-query_escape s h.1)

-- A byte that ends no field of a query, and that a field may hold.
unfoldable pub IsClean : ℕ → Type 0
IsClean c = ((c == b'&') ≡ false) × ((c == b';') ≡ false)

hex_digit-IsClean : (n : ℕ) → n < 16 → IsClean (hex_digit n)
unfolding IsClean hex_digit
hex_digit-IsClean n h = (ground arith, ground arith)

escape_byte-IsClean : (c : ℕ) → c < 256 → All IsClean (escape_byte c)
unfolding IsClean
escape_byte-IsClean c h = elim (Bool-cases (is_unreserved c)) [
  | inl e ↦ let n = not_special c e in rw (escape_byte_plain c e) ((n.2, n.3), tt)
  | inr e ↦ elim (Bool-cases (c == b' ')) [
    | inl f ↦ rw (escape_byte_space c e f) ((refl, refl), tt)
    | inr f ↦ rw (escape_byte_percent c e f) (
      (refl, refl),
      (hex_digit-IsClean (c / 16) (omega arith), (hex_digit-IsClean (c % 16) (omega arith), tt)),
    )
  ]
]

All-append : (s t : Bytes) → All IsClean s → All IsClean t → All IsClean (s ++ t)
All-append [] t p q = q
All-append (c ∷ s) t p q = (p.0, All-append s t p.1 q)

pub query_escape-IsClean : (s : Bytes) → All (λ c. c < 256) s → All IsClean (query_escape s)
unfolding query_escape
query_escape-IsClean [] h = tt
query_escape-IsClean (c ∷ s) h =
    All-append (escape_byte c) (query_escape s) (escape_byte-IsClean c h.0)
      (query_escape-IsClean s h.1)

pub split_on_clean : (s : Bytes) → All IsClean s → split_on b'&' s ≡ s ∷ []
unfolding split_on IsClean
split_on_clean [] h = refl
split_on_clean (c ∷ s) h = rw h.0.0 (rw (split_on_clean s h.1) refl)

pub split_on-append :
    (s t : Bytes) → All IsClean s → split_on b'&' (s ++ (b'&' ∷ t)) ≡ s ∷ split_on b'&' t
unfolding split_on IsClean
split_on-append [] t h = refl
split_on-append (c ∷ s) t h = rw h.0.0 (rw (split_on-append s t h.1) refl)

pub no_semicolon : (s : Bytes) → All IsClean s → any (λ c. c == b';') s ≡ false
unfolding IsClean
no_semicolon [] h = refl
no_semicolon (c ∷ s) h = rw h.0.1 (no_semicolon s h.1)
