-- ===== src/Idkit/Examples.antt =====
-- Concrete codes of idkit.
use servekit.Prelude.{
  ◌↔◌, length, All, true, ℕ, ◌≡◌, refl, Bool, Option, none, some, arith, Bytes, ltb, if◌then◌else◌,
}
use servekit.GoText.{ascii, in_range}
use servekit.GoText.Query.{decimal}
use servekit.Idkit.{digi_code, validate_digi_code, invalid_id, IsNumberTest, DrawsBelow}
use servekit.Idkit.Codes.{digi_code-validated, validate_digi_code_iff}

-- unicode.IsNumber for ASCII.
abbrev ascii_number : ℕ → Bool
ascii_number c = in_range b'0' b'9' c

ascii_number-IsNumberTest : IsNumberTest ascii_number
unfolding in_range
ascii_number-IsNumberTest = (λ c h. refl, refl)

-- Draws that count up, as far as the bound allows.
abbrev counting : ℕ → ℕ → Option ℕ
counting i bound = some (if ltb i bound then i else 0)

counting-DrawsBelow : DrawsBelow counting
counting-DrawsBelow i bound h = (if ltb i bound then i else 0, refl, ground arith)

counted_code : digi_code counting ≡ some (ascii "012345")
unfolding digi_code decimal
counted_code = refl

five_digits_refused : validate_digi_code ascii_number (ascii "01234") ≡ some invalid_id
unfolding validate_digi_code
five_digits_refused = refl

digi_code-validated_example :
    (code : Bytes) × (digi_code counting ≡ some code)
    × (validate_digi_code ascii_number code ≡ none)
digi_code-validated_example =
    digi_code-validated ascii_number ascii_number-IsNumberTest counting counting-DrawsBelow

validate_digi_code_iff_example :
    (validate_digi_code ascii_number (ascii "012345") ≡ none)
    ↔ ((length (ascii "012345") ≡ 6) × All (λ c. in_range b'0' b'9' c ≡ true) (ascii "012345"))
validate_digi_code_iff_example =
    validate_digi_code_iff ascii_number ascii_number-IsNumberTest (ascii "012345")
