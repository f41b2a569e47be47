-- ===== src/Idkit.antt =====
-- idkit/id.go: `DigiCode` and `ValidateDigiCode`. rand.Int and unicode.IsNumber are parameters.
pub mod Codes
mod Examples
use servekit.Prelude.{
  ℕ, zero, suc, ◌+◌, ◌<◌, ◌≡◌, Bool, true, false, not, ◌||◌, Option, none, some, List, [], ◌∷◌,
  ◌++◌, Bytes, length, all, if◌then◌else◌, ◌==◌,
}
use servekit.GoText.{runes, rune_count, in_range, rune_error}
use servekit.GoText.Query.{decimal}

abbrev pub digi_code_len : ℕ
digi_code_len = 6

abbrev pub digi_code_max_n : ℕ
digi_code_max_n = 9

-- b.WriteString(strconv.FormatInt(n, 10)); an int64 has at most 19 digits.
unfoldable pub write_digit : Option ℕ → Option Bytes → Option Bytes
write_digit none code = none
write_digit (some d) none = none
write_digit (some d) (some code) = some (decimal 19 d ++ code)

-- `rand_int i bound` is what the i-th call of rand.Int returns for this bound; an error is `none`,
-- and makes DigiCode panic.
unfoldable pub digi_code_from : (ℕ → ℕ → Option ℕ) → ℕ → ℕ → Option Bytes
unfolding write_digit
digi_code_from rand_int i zero = some []
digi_code_from rand_int i (suc k) =
    write_digit (rand_int i (digi_code_max_n + 1)) (digi_code_from rand_int (i + 1) k)

-- DigiCode; a panic is `none`.
unfoldable pub digi_code : (ℕ → ℕ → Option ℕ) → Option Bytes
unfolding digi_code_from
digi_code rand_int = digi_code_from rand_int 0 digi_code_len

pub data IdError : Type 0 where
  invalid_id : IdError

unfoldable pub validate_digi_code : (ℕ → Bool) → Bytes → Option IdError
validate_digi_code is_number code =
    if not (length code == digi_code_len) || not (rune_count code == digi_code_len)
    then some invalid_id
    else if not (all is_number (runes code))
    then some invalid_id
    else none

-- What unicode.IsNumber answers for ASCII and for the rune of an invalid byte.
abbrev pub IsNumberTest : (ℕ → Bool) → Type 0
IsNumberTest is_number =
    ((c : ℕ) → c < 0x80 → is_number c ≡ in_range b'0' b'9' c) × (is_number rune_error ≡ false)

-- Each call of rand.Int returns a number below its bound.
abbrev pub DrawsBelow : (ℕ → ℕ → Option ℕ) → Type 0
DrawsBelow rand_int =
    (i bound : ℕ) → 0 < bound → (d : ℕ) × (rand_int i bound ≡ some d) × (d < bound)
