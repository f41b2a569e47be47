-- ===== src/Litekit/Modes.antt =====
-- dbkit/litekit/conn.go: the journal and access modes as text, and the connection string.
pub mod Parsing
use servekit.Prelude.{
  ℕ, suc, ◌+◌, ◌-◌, ◌≡◌, Bool, true, false, not, Option, none, some, List, [], ◌∷◌, ◌++◌, map, ltb,
  ◌==◌, if◌then◌else◌, length, Bytes, bytes_eq,
}
use servekit.GoText.{ascii, runes, in_range}

-- A byte; `unknown_journal` is one that no constant has.
pub data JournalMode : Type 0 where
  delete : JournalMode
  truncate : JournalMode
  persist : JournalMode
  memory : JournalMode
  wal : JournalMode
  off : JournalMode
  unknown_journal : ℕ → JournalMode

pub data AccessMode : Type 0 where
  read_write_create : AccessMode
  read_only : AccessMode
  read_write : AccessMode
  in_memory : AccessMode
  unknown_access : ℕ → AccessMode

-- `String` of either type: a missing key of the map gives "".
unfoldable pub journal_string : JournalMode → Bytes
journal_string delete = ascii "DELETE"
journal_string truncate = ascii "TRUNCATE"
journal_string persist = ascii "PERSIST"
journal_string memory = ascii "MEMORY"
journal_string wal = ascii "WAL"
journal_string off = ascii "OFF"
journal_string (unknown_journal n) = []

unfoldable pub access_string : AccessMode → Bytes
access_string read_write_create = ascii "rwc"
access_string read_only = ascii "ro"
access_string read_write = ascii "rw"
access_string in_memory = ascii "memory"
access_string (unknown_access n) = []

-- The mode and whether the error ErrUnsupportedAccessMode or ErrUnsupportedJournalMode comes with it.
pub data Parsed {ℓ} (A : Type ℓ) : Type ℓ where
  parsed : A → Parsed A
  unsupported : A → Parsed A

-- unicode.ToLower, given what it does past ASCII.
module _ (lower_rune : ℕ → ℕ) where
  unfoldable pub to_lower : ℕ → ℕ
  unfolding in_range
  to_lower c = if in_range b'A' b'Z' c then c + 32 else if ltb c 0x80 then c else lower_rune c

  -- strings.ToLower, as runes: a text is one of the ASCII constants below if its runes are.
  unfoldable pub lowered : Bytes → List ℕ
  unfolding to_lower
  lowered s = map to_lower (runes s)

  unfoldable pub journal_mode_from_string : Bytes → Parsed JournalMode
  journal_mode_from_string mode =
      let s = lowered mode in
      if bytes_eq s (journal_string wal)
      then parsed wal
      else if bytes_eq s (journal_string delete)
      then parsed delete
      else if bytes_eq s (journal_string memory)
      then parsed memory
      else if bytes_eq s (journal_string off)
      then parsed off
      else if bytes_eq s (journal_string persist)
      then parsed persist
      else if bytes_eq s (journal_string truncate)
      then parsed truncate
      else unsupported delete

  unfoldable pub access_mode_from_string : Bytes → Parsed AccessMode
  access_mode_from_string mode =
      let s = lowered mode in
      if bytes_eq s (access_string in_memory)
      then parsed in_memory
      else if bytes_eq s (access_string read_write_create)
      then parsed read_write_create
      else if bytes_eq s (access_string read_write)
      then parsed read_write
      else if bytes_eq s (access_string read_only)
      then parsed read_only
      else unsupported read_write_create

pub data ConnError : Type 0 where
  unsupported_access_mode : ConnError
  unsupported_journal_mode : ConnError

pub data ConnString : Type 0 where
  conn_ok : Bytes → ConnString
  conn_err : ConnError → ConnString

-- What a switch over the constants lets through, as a parameter of the string.
unfoldable pub access_param : AccessMode → Option Bytes
access_param (unknown_access n) = none
access_param m = some (ascii "mode=" ++ access_string m)

unfoldable pub journal_param : JournalMode → Option Bytes
journal_param (unknown_journal n) = none
journal_param m = some (ascii "_journal=" ++ journal_string m)

-- The loop over the parameters, from the i-th of n on.
unfoldable pub write_params : ℕ → ℕ → List Bytes → Bytes
write_params n i [] = []
write_params n i (p ∷ ps) =
    (p ++ (if i == (n - 1) then [] else ascii "&")) ++ write_params n (suc i) ps

unfoldable pub build_string : Bytes → List Bytes → Bytes
unfolding write_params
build_string path params =
    (ascii "file:" ++ path)
    ++ ((if ltb 0 (length params) then ascii "?" else []) ++ write_params (length params) 0 params)

unfoldable pub with_params : Bytes → Option Bytes → Option Bytes → ConnString
unfolding build_string
with_params path none journal = conn_err unsupported_access_mode
with_params path (some a) none = conn_err unsupported_journal_mode
with_params path (some a) (some j) = conn_ok (build_string path (a ∷ j ∷ []))

unfoldable pub conn_string : Bytes → AccessMode → JournalMode → ConnString
unfolding with_params access_param journal_param
conn_string path access journal = with_params path (access_param access) (journal_param journal)
