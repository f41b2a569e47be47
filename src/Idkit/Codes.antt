-- ===== src/Idkit/Codes.antt =====
-- idkit/id.go: which codes `ValidateDigiCode` accepts, and that it accepts those of `DigiCode`.
use servekit.Prelude.{
  ℕ, zero, suc, ◌+◌, ◌-◌, ◌≤◌, ◌<◌, ◌≡◌, refl, sym, ap, ap₂, subst, ◌∙◌, ◌↔◌, ◌⊎◌, inl, inr, Bool,
  true, false, not, ◌&&◌, ◌||◌, Option, none, some, List, [], ◌∷◌, Bytes, length, all, All,
  if◌then◌else◌, ◌==◌, arith,
}
use servekit.GoText.{
  runes, runes_from, rune_count, in_range, rune_error, decode_rune, length-runes_from,
  ascii_of_runes, runes_of_ascii,
}
use servekit.GoText.Query.{decimal}
use servekit.Idkit.{
  write_digit, digi_code_from, digi_code, validate_digi_code, invalid_id, IsNumberTest, DrawsBelow,
}

IsSingle : ℕ → Type 0
IsSingle r = (r < 0x80) ⊎ (r ≡ rune_error)

and_both : (a b : Bool) → (a && b) ≡ true → (a ≡ true) × (b ≡ true)
and_both true true h = (refl, refl)
and_both true false h = absurd cc
and_both false b h = absurd cc

counts : (s : Bytes) → runes s ≡ s → rune_count s ≡ length s
unfolding rune_count
counts s e = ap length e

-- A rune takes more than one byte of the string, or it is ASCII or stands for an invalid byte.
decode_rune_width :
    (b : ℕ) (s : Bytes)
    → ((decode_rune (b ∷ s)).1 ≡ 1) × IsSingle (decode_rune (b ∷ s)).0
      ⊎ (2 ≤ (decode_rune (b ∷ s)).1) × (1 ≤ length s)
unfolding decode_rune IsSingle
decode_rune_width b [] = ground arith
decode_rune_width b (c ∷ s) = ground arith

length-runes_from_less :
    (k : ℕ) (s : Bytes) → 1 ≤ k → 1 ≤ length s → length (runes_from k s) < length s
unfolding runes_from
length-runes_from_less zero s h l = omega arith
length-runes_from_less (suc k) [] h l = omega arith
length-runes_from_less (suc k) (b ∷ s) h l = omega (arith, length-runes_from k s)

-- A string with as many runes as bytes has no rune of several bytes.
runes-IsSingle : (s : Bytes) → rune_count s ≡ length s → All IsSingle (runes s)
unfolding rune_count runes runes_from
runes-IsSingle [] h = tt
runes-IsSingle (b ∷ s) h = elim (decode_rune_width b s) [
  | inl v ↦
      let h2 = subst (λ n. suc (length (runes_from (n - 1) s)) ≡ suc (length s)) v.0 h in
      (
        v.1,
        subst (λ n. All IsSingle (runes_from (n - 1) s)) (sym v.0) (runes-IsSingle s (omega arith)),
      )
  | inr v ↦ absurd (
      let less = length-runes_from_less ((decode_rune (b ∷ s)).1 - 1) s (omega arith) v.1 in
      omega arith)
]

single_number :
    (is_number : ℕ → Bool)
    → IsNumberTest is_number
    → (r : ℕ) → IsSingle r
    → is_number r ≡ true
    → in_range b'0' b'9' r ≡ true
unfolding IsSingle
single_number is_number t r (inl lt) e = sym (t.0 r lt) ∙ e
single_number is_number t r (inr q) e =
    absurd (let no = subst (λ c. is_number c ≡ true) q e in let f = t.1 in cc)

singles_digits :
    (is_number : ℕ → Bool)
    → IsNumberTest is_number
    → (rs : List ℕ) → All IsSingle rs
    → all is_number rs ≡ true
    → All (λ r. in_range b'0' b'9' r ≡ true) rs
singles_digits is_number t [] h e = tt
singles_digits is_number t (r ∷ rs) h e =
    let (e1, e2) = and_both (is_number r) (all is_number rs) e in
    (single_number is_number t r h.0 e1, singles_digits is_number t rs h.1 e2)

digits_small : (rs : List ℕ) → All (λ r. in_range b'0' b'9' r ≡ true) rs → All (λ r. r < 0x80) rs
unfolding in_range
digits_small [] h = tt
digits_small (r ∷ rs) h = (let k = h.0 in ground arith, digits_small rs h.1)

numbers_of_digits :
    (is_number : ℕ → Bool)
    → IsNumberTest is_number
    → (rs : List ℕ) → All (λ r. in_range b'0' b'9' r ≡ true) rs
    → all is_number rs ≡ true
numbers_of_digits is_number t [] h = refl
numbers_of_digits is_number t (r ∷ rs) h =
    let small = (digits_small (r ∷ rs) h).0 in
    rw (t.0 r small ∙ h.0) (numbers_of_digits is_number t rs h.1)

-- What is accepted, by the tests of the source.
accepts_iff :
    (l n : ℕ) (b : Bool)
    → ((if not (l == 6) || not (n == 6)
          then some invalid_id
          else if not b
          then some invalid_id
          else none)
        ≡ none)
      ↔ ((l ≡ 6) × (n ≡ 6) × (b ≡ true))
accepts_iff l n b = ground arith

-- ValidateDigiCode accepts a text exactly if it is six ASCII digits.
pub validate_digi_code_iff :
    (is_number : ℕ → Bool)
    → IsNumberTest is_number
    → (code : Bytes)
    → (validate_digi_code is_number code ≡ none)
      ↔ ((length code ≡ 6) × All (λ c. in_range b'0' b'9' c ≡ true) code)
unfolding validate_digi_code
validate_digi_code_iff is_number t code = (
  λ h.
      let (l, n, b) =
        (accepts_iff (length code) (rune_count code) (all is_number (runes code))).0 h in
      let digits = singles_digits is_number t (runes code) (runes-IsSingle code (n ∙ sym l)) b in
      let same = ascii_of_runes code (digits_small (runes code) digits) in
      (l, subst (λ rs. All (λ c. in_range b'0' b'9' c ≡ true) rs) same digits),
  λ v.
      let same = runes_of_ascii code (digits_small code v.1) in
      (accepts_iff (length code) (rune_count code) (all is_number (runes code))).1 (
        (
          v.0,
          counts code same ∙ v.0,
          ap (all is_number) same ∙ numbers_of_digits is_number t code v.1,
        )),
)

IsCodeOf : ℕ → Bytes → Type 0
IsCodeOf k code = (length code ≡ k) × All (λ c. in_range b'0' b'9' c ≡ true) code

one_digit : (d : ℕ) → d < 10 → decimal 19 d ≡ (b'0' + d) ∷ []
unfolding decimal
one_digit d h = ground arith

write_digit-IsCodeOf :
    (d k : ℕ) (code : Bytes)
    → d < 10
    → IsCodeOf k code
    → (c : Bytes) × (write_digit (some d) (some code) ≡ some c) × IsCodeOf (suc k) c
unfolding write_digit IsCodeOf in_range
write_digit-IsCodeOf d k code lt h =
    ((b'0' + d) ∷ code, rw (one_digit d lt), (ap suc h.0, (ground arith, h.1)))

digi_code_from-IsCodeOf :
    (rand_int : ℕ → ℕ → Option ℕ)
    → DrawsBelow rand_int
    → (i k : ℕ) → (code : Bytes) × (digi_code_from rand_int i k ≡ some code) × IsCodeOf k code
unfolding digi_code_from IsCodeOf
digi_code_from-IsCodeOf rand_int h i zero = ([], refl, (refl, tt))
digi_code_from-IsCodeOf rand_int h i (suc k) =
    let (d, drawn, lt) = h i 10 (omega arith) in
    let (code, rest, digits) = digi_code_from-IsCodeOf rand_int h (i + 1) k in
    let (c, written, all_digits) = write_digit-IsCodeOf d k code lt digits in
    (c, ap₂ write_digit drawn rest ∙ written, all_digits)

-- If each call of rand.Int returns a number below its bound, DigiCode returns a code, and
-- ValidateDigiCode accepts it.
pub digi_code-validated :
    (is_number : ℕ → Bool)
    → IsNumberTest is_number
    → (rand_int : ℕ → ℕ → Option ℕ) → DrawsBelow rand_int
    → (code : Bytes) × (digi_code rand_int ≡ some code) × (validate_digi_code is_number code ≡ none)
unfolding digi_code IsCodeOf
digi_code-validated is_number t rand_int h =
    let (code, made, digits) = digi_code_from-IsCodeOf rand_int h 0 6 in
    (code, made, (validate_digi_code_iff is_number t code).1 digits)
