-- ===== src/Litekit/Modes/Parsing.antt =====
-- Which modes dbkit/litekit/conn.go reads from text, and what it writes into the connection string.
use mathlib.Core.List.{append_assoc, append-nil}
use servekit.Prelude.{
  ℕ, ◌≡◌, ◌↔◌, refl, ◌≤◌, false, some, List, [], ◌∷◌, ◌++◌, map, arith, Bytes, bytes_eq,
  bytes_eq_sound,
}
use servekit.GoText.{ascii, runes}
use servekit.Litekit.Modes.{
  JournalMode, delete, unknown_journal, AccessMode, read_write_create, read_only, read_write,
  in_memory, unknown_access, journal_string, access_string, parsed, unsupported, to_lower, lowered,
  journal_mode_from_string, access_mode_from_string, conn_ok, conn_err, conn_string, access_param,
  journal_param, unsupported_access_mode, unsupported_journal_mode,
}

-- unicode.ToLower makes no ASCII capital of a rune past ASCII.
abbrev pub LowersToNoCapital : (ℕ → ℕ) → Type 0
LowersToNoCapital lower_rune =
    (c : ℕ) → 0x80 ≤ c → ¬ ((b'A' ≤ lower_rune c) × (lower_rune c ≤ b'Z'))

abbrev IsNoCapital : ℕ → Type 0
IsNoCapital c = ¬ ((b'A' ≤ c) × (c ≤ b'Z'))

module _ (lower_rune : ℕ → ℕ) (no_capital : LowersToNoCapital lower_rune) where
  to_lower-IsNoCapital : (c : ℕ) → IsNoCapital (to_lower lower_rune c)
  unfolding to_lower
  to_lower-IsNoCapital c h = ground (arith, λ (p : 0x80 ≤ c). no_capital c p)

  no_match :
      (s : List ℕ) (c : ℕ) (t : List ℕ)
      → b'A' ≤ c
      → c ≤ b'Z'
      → bytes_eq (map (to_lower lower_rune) s) (c ∷ t) ≡ false
  no_match [] c t lo hi = refl
  no_match (x ∷ s) c t lo hi = ground (arith, to_lower-IsNoCapital x)

-- No text is read as a journal mode: the text is lowered, and the names that it is compared with are
-- in capitals. `JournalModeFromString` returns Delete and an error, whatever its argument.
pub journal_mode_never_read :
    (lower_rune : ℕ → ℕ)
    → LowersToNoCapital lower_rune
    → (mode : Bytes) → journal_mode_from_string lower_rune mode ≡ unsupported delete
unfolding journal_mode_from_string journal_string lowered
journal_mode_never_read lower_rune no_capital mode =
    let differs = λ (c : ℕ) (t : List ℕ). no_match lower_rune no_capital (runes mode) c t in
    rw (
      differs b'W' (ascii "AL") (omega arith) (omega arith),
      differs b'D' (ascii "ELETE") (omega arith) (omega arith),
      differs b'M' (ascii "EMORY") (omega arith) (omega arith),
      differs b'O' (ascii "FF") (omega arith) (omega arith),
      differs b'P' (ascii "ERSIST") (omega arith) (omega arith),
      differs b'T' (ascii "RUNCATE") (omega arith) (omega arith),
    )

abbrev pub IsKnownAccess : AccessMode → Type 0
IsKnownAccess (unknown_access n) = ⊥
IsKnownAccess m = Unit

abbrev pub IsKnownJournal : JournalMode → Type 0
IsKnownJournal (unknown_journal n) = ⊥
IsKnownJournal m = Unit

-- A text is read as one of the four access modes exactly if it is the name of that mode, in letters
-- of either case.
access_mode_read_iff :
    (lower_rune : ℕ → ℕ) (mode : Bytes) (m : AccessMode)
    → IsKnownAccess m
    → (access_mode_from_string lower_rune mode ≡ parsed m)
      ↔ (lowered lower_rune mode ≡ access_string m)
unfolding access_mode_from_string access_string
access_mode_read_iff lower_rune mode read_write_create k = (
  λ h. bytes_eq_sound (lowered lower_rune mode) (ascii "rwc") (ground arith),
  λ e. rw (e, access_mode_from_string),
)
access_mode_read_iff lower_rune mode read_only k = (
  λ h. bytes_eq_sound (lowered lower_rune mode) (ascii "ro") (ground arith),
  λ e. rw (e, access_mode_from_string),
)
access_mode_read_iff lower_rune mode read_write k = (
  λ h. bytes_eq_sound (lowered lower_rune mode) (ascii "rw") (ground arith),
  λ e. rw (e, access_mode_from_string),
)
access_mode_read_iff lower_rune mode in_memory k = (
  λ h. bytes_eq_sound (lowered lower_rune mode) (ascii "memory") (ground arith),
  λ e. rw (e, access_mode_from_string),
)
access_mode_read_iff lower_rune mode (unknown_access n) k = absurd k

access_param_known :
    (m : AccessMode) → IsKnownAccess m → access_param m ≡ some (ascii "mode=" ++ access_string m)
unfolding access_param
access_param_known read_write_create k = refl
access_param_known (unknown_access n) k = absurd k
access_param_known m k = refl

journal_param_known :
    (m : JournalMode)
    → IsKnownJournal m
    → journal_param m ≡ some (ascii "_journal=" ++ journal_string m)
unfolding journal_param
journal_param_known delete k = refl
journal_param_known (unknown_journal n) k = absurd k
journal_param_known m k = refl

-- With known modes the connection string is `file:PATH?mode=ACCESS&_journal=JOURNAL`.
conn_string_known :
    (path : Bytes) (a : AccessMode) (j : JournalMode)
    → IsKnownAccess a
    → IsKnownJournal j
    → conn_string path a j
      ≡ conn_ok (
          (ascii "file:" ++ path)
          ++ (ascii "?mode=" ++ (access_string a ++ (ascii "&_journal=" ++ journal_string j))))
unfolding conn_string
conn_string_known path a j k l =
    rw (access_param_known a k, journal_param_known j l) (simp (append_assoc, append-nil))

-- With an access mode that is none of the constants, and else with such a journal mode, there is no
-- connection string but the error that names the mode.
conn_string_unknown :
    (path : Bytes) (a : AccessMode) (j : JournalMode) (n : ℕ)
    → IsKnownAccess a
    → (conn_string path (unknown_access n) j ≡ conn_err unsupported_access_mode)
      × (conn_string path a (unknown_journal n) ≡ conn_err unsupported_journal_mode)
unfolding conn_string
conn_string_unknown path a j n k = (refl, rw (access_param_known a k))
