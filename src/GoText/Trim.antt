-- ===== src/GoText/Trim.antt =====
-- What the code uses of strings.TrimRight, strings.TrimSpace, strings.HasPrefix and io.LimitReader.
use servekit.Prelude.{
  ℕ, zero, suc, ◌-◌, Bool, true, false, ◌&&◌, [], ◌∷◌, ◌==◌, if◌then◌else◌, is_empty, Bytes,
}
use servekit.GoText.{decode_rune, is_space}

-- strings.TrimRight(s, cutset), the cutset one byte
unfoldable pub trim_right : ℕ → Bytes → Bytes
trim_right c [] = []
trim_right c (b ∷ s) =
    let rest = trim_right c s in if is_empty rest && (b == c) then [] else b ∷ rest

-- The text from its first rune that is no space on, with the bytes of a rune still to be passed.
unfoldable pub trim_left_space : ℕ → Bytes → Bytes
unfolding decode_rune is_space
trim_left_space k [] = []
trim_left_space zero (b ∷ s) =
    let d = decode_rune (b ∷ s) in
    let rest = trim_left_space (d.1 - 1) s in if is_space d.0 then rest else b ∷ s
trim_left_space (suc k) (b ∷ s) = trim_left_space k s

-- The text up to its last rune that is no space, with the bytes still to be passed of a rune and
-- whether it is a space.
unfoldable pub trim_right_space : ℕ → Bool → Bytes → Bytes
unfolding decode_rune is_space
trim_right_space k space [] = []
trim_right_space zero space (b ∷ s) =
    let d = decode_rune (b ∷ s) in
    let rest = trim_right_space (d.1 - 1) (is_space d.0) s in
    if is_empty rest && is_space d.0 then [] else b ∷ rest
trim_right_space (suc k) space (b ∷ s) =
    let rest = trim_right_space k space s in if is_empty rest && space then [] else b ∷ rest

-- strings.TrimSpace
unfoldable pub trim_space : Bytes → Bytes
unfolding trim_left_space trim_right_space
trim_space s = trim_right_space 0 false (trim_left_space 0 s)

-- strings.HasPrefix(s, prefix)
unfoldable pub has_prefix : Bytes → Bytes → Bool
has_prefix s [] = true
has_prefix [] (c ∷ prefix) = false
has_prefix (b ∷ s) (c ∷ prefix) = (b == c) && has_prefix s prefix

-- The first n bytes.
unfoldable pub take : ℕ → Bytes → Bytes
take zero s = []
take (suc n) [] = []
take (suc n) (b ∷ s) = b ∷ take n s
