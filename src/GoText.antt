-- ===== src/GoText.antt =====
-- Go's `unicode/utf8` and `strings` over byte strings, as far as the packages of the repository
-- call them: the runes of a string (an invalid byte counts as one rune), white space, lower case.
pub mod Query
pub mod Trim
pub mod Escape
use Prim.Native.Char.{code}
use Prim.Native.String.{String}
use servekit.Prelude.{
  ℕ, zero, suc, ◌+◌, ◌-◌, ◌*◌, ◌≤◌, ◌<◌, ◌≡◌, refl, Bool, ◌&&◌, ◌||◌, List, [], ◌∷◌, arith, ltb,
  leb, ◌==◌, if◌then◌else◌, length, all, All, Bytes, subst, Option, none, some, true, false, ℤ, pos,
  sub_ℕ, int64_half, IsInt64,
}

-- The bytes of an ASCII literal.
abbrev pub ascii : String → Bytes
ascii String.[] = []
ascii (String.◌∷◌ c s) = code c ∷ ascii s

unfoldable pub in_range : ℕ → ℕ → ℕ → Bool
in_range lo hi c = leb lo c && leb c hi

-- A byte past the end reads as 0, which continues no sequence.
byte_at : Bytes → ℕ → ℕ
byte_at [] i = 0
byte_at (b ∷ s) zero = b
byte_at (b ∷ s) (suc i) = byte_at s i

abbrev pub rune_error : ℕ
rune_error = 0xFFFD

-- The range of the second byte after the first byte `b`.
second_lo : ℕ → ℕ
second_lo b = if b == 0xE0 then 0xA0 else if b == 0xF0 then 0x90 else 0x80

second_hi : ℕ → ℕ
second_hi b = if b == 0xED then 0x9F else if b == 0xF4 then 0x8F else 0xBF

-- utf8.DecodeRuneInString: the first rune and how many bytes it takes.
unfoldable pub decode_rune : Bytes → ℕ × ℕ
unfolding byte_at in_range second_lo second_hi
decode_rune s =
    let a = byte_at s 0 in
    let b = byte_at s 1 in
    let c = byte_at s 2 in
    let d = byte_at s 3 in
    let second = in_range (second_lo a) (second_hi a) b in
    let third = in_range 0x80 0xBF c in
    let fourth = in_range 0x80 0xBF d in
    if ltb a 0x80
    then (a, 1)
    else if in_range 0xC2 0xDF a && second
    then ((a - 0xC0) * 64 + (b - 0x80), 2)
    else if in_range 0xE0 0xEF a && (second && third)
    then ((a - 0xE0) * 4096 + (b - 0x80) * 64 + (c - 0x80), 3)
    else if in_range 0xF0 0xF4 a && (second && (third && fourth))
    then ((a - 0xF0) * 262144 + (b - 0x80) * 4096 + (c - 0x80) * 64 + (d - 0x80), 4)
    else (rune_error, 1)

-- `for _, r := range s`, with the number of bytes of the last rune that are still to be passed.
unfoldable pub runes_from : ℕ → Bytes → List ℕ
runes_from k [] = []
runes_from zero (b ∷ s) = let d = decode_rune (b ∷ s) in d.0 ∷ runes_from (d.1 - 1) s
runes_from (suc k) (b ∷ s) = runes_from k s

unfoldable pub runes : Bytes → List ℕ
unfolding runes_from
runes s = runes_from 0 s

-- utf8.RuneCountInString
unfoldable pub rune_count : Bytes → ℕ
rune_count s = length (runes s)

-- unicode.IsSpace
unfoldable pub is_space : ℕ → Bool
unfolding in_range
is_space c =
    in_range 0x09 0x0D c
    || c == 0x20
    || c == 0x85
    || c == 0xA0
    || c == 0x1680
    || in_range 0x2000 0x200A c
    || c == 0x2028
    || c == 0x2029
    || c == 0x202F
    || c == 0x205F
    || c == 0x3000

-- strings.TrimSpace(s) == ""
unfoldable pub is_blank : Bytes → Bool
is_blank s = all is_space (runes s)

pub length-runes_from : (k : ℕ) (s : Bytes) → length (runes_from k s) ≤ length s
unfolding runes_from
length-runes_from k [] = omega arith
length-runes_from zero (b ∷ s) = omega (arith, length-runes_from ((decode_rune (b ∷ s)).1 - 1) s)
length-runes_from (suc k) (b ∷ s) = omega (arith, length-runes_from k s)

pub rune_count-le-length : (s : Bytes) → rune_count s ≤ length s
unfolding rune_count runes
rune_count-le-length s = length-runes_from 0 s

decode_rune_ascii : (b : ℕ) (s : Bytes) → b < 0x80 → decode_rune (b ∷ s) ≡ (b, 1)
unfolding decode_rune
decode_rune_ascii b s h = ground arith

-- ASCII text is its own list of runes.
pub runes_of_ascii : (s : Bytes) → All (λ b. b < 0x80) s → runes s ≡ s
unfolding runes
runes_of_ascii [] h = refl
runes_of_ascii (b ∷ s) h = rw (decode_rune_ascii b s h.0) (rw (runes_of_ascii s h.1))

-- strconv.ParseInt(s, 10, 64)
unfoldable pub digits_from : ℕ → Bytes → Option ℕ
unfolding in_range
digits_from n [] = some n
digits_from n (c ∷ s) =
    let rest = digits_from (n * 10 + (c - b'0')) s in if in_range b'0' b'9' c then rest else none

unfoldable pub parse_digits : Bytes → Option ℕ
unfolding digits_from
parse_digits [] = none
parse_digits (c ∷ s) = digits_from 0 (c ∷ s)

unfoldable pub to_int64 : Bool → Option ℕ → Option ℤ
to_int64 negative none = none
to_int64 true (some n) = if ltb int64_half n then none else some (sub_ℕ 0 n)
to_int64 false (some n) = if ltb n int64_half then some (pos n) else none

unfoldable pub parse_int : Bytes → Option ℤ
unfolding parse_digits to_int64
parse_int [] = none
parse_int (c ∷ s) =
    if c == b'-'
    then to_int64 true (parse_digits s)
    else if c == b'+'
    then to_int64 false (parse_digits s)
    else to_int64 false (parse_digits (c ∷ s))

to_int64-IsInt64 :
    (negative : Bool) (o : Option ℕ) (a : ℤ) → to_int64 negative o ≡ some a → IsInt64 a
unfolding to_int64
to_int64-IsInt64 negative none a h = ground arith
to_int64-IsInt64 true (some n) a h = ground arith
to_int64-IsInt64 false (some n) a h = ground arith

pub parse_int-IsInt64 : (s : Bytes) (a : ℤ) → parse_int s ≡ some a → IsInt64 a
unfolding parse_int
parse_int-IsInt64 [] a h = ground arith
parse_int-IsInt64 (c ∷ s) a h = ground (
  arith,
  to_int64-IsInt64 true (parse_digits s) a,
  to_int64-IsInt64 false (parse_digits s) a,
  to_int64-IsInt64 false (parse_digits (c ∷ s)) a,
)

decode_rune_small :
    (b : ℕ) (s : Bytes)
    → (decode_rune (b ∷ s)).0 < 0x80
    → (b < 0x80) × (decode_rune (b ∷ s) ≡ (b, 1))
unfolding decode_rune
decode_rune_small b s h = ground arith

-- If all runes are ASCII, they are the bytes.
pub ascii_of_runes : (s : Bytes) → All (λ r. r < 0x80) (runes s) → runes s ≡ s
unfolding runes
ascii_of_runes [] h = refl
ascii_of_runes (b ∷ s) h =
    let (lt, e) = decode_rune_small b s h.0 in
    rw e (
      rw (
        ascii_of_runes s
          (subst (λ (d : ℕ × ℕ). All (λ r. r < 0x80) (runes_from (d.1 - 1) s)) e h.1)))
