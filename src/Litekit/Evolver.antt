-- ===== src/Litekit/Evolver.antt =====
-- dbkit/litekit/schema_evolution.go: loading the mutations and applying them in a transaction. The
-- SQL engine is a parameter: `exec` runs a script on the schema, or fails. A script is taken not to
-- touch the table `schema_version`. What a transaction that failed leaves is a parameter as well:
-- SQLite rolls back in every journal mode but Off.
pub mod Loading
pub mod Runs
pub mod Outcomes
pub mod Pending
pub mod Migrations
use servekit.Prelude.{
  ℕ, ◌≡◌, zero, suc, ◌+◌, Bool, true, false, not, ◌&&◌, ◌||◌, Option, none, some, List, [], ◌∷◌,
  ltb, leb, ◌==◌, if◌then◌else◌, ℤ, pos, leb_ℤ, ltb_ℤ, Bytes, bytes_eq, ◌⊎◌, inl, inr,
}
use servekit.GoText.{ascii}

pub record Mutation : Type 0 where
  pub version : ℤ
  pub changes : Bytes

-- A directory entry: its name, whether `Info` succeeds, and what `ReadFile` gives.
pub record Entry : Type 0 where
  pub name : Bytes
  pub has_info : Bool
  pub content : Option Bytes

-- i.Name() <= j.Name(), byte by byte
unfoldable pub name_leb : Bytes → Bytes → Bool
name_leb [] t = true
name_leb (x ∷ s) [] = false
name_leb (x ∷ s) (y ∷ t) = ltb x y || ((x == y) && name_leb s t)

unfoldable pub insert_entry : Entry → List Entry → List Entry
insert_entry e [] = e ∷ []
insert_entry e (f ∷ fs) = if name_leb e.name f.name then e ∷ f ∷ fs else f ∷ insert_entry e fs

-- slices.SortFunc by name; the names of a directory differ, so the order is unique.
unfoldable pub sort_entries : List Entry → List Entry
unfolding insert_entry
sort_entries [] = []
sort_entries (e ∷ es) = insert_entry e (sort_entries es)

-- strings.HasSuffix
unfoldable pub has_suffix : Bytes → Bytes → Bool
has_suffix [] suffix = bytes_eq [] suffix
has_suffix (c ∷ s) suffix = bytes_eq (c ∷ s) suffix || has_suffix s suffix

pub data Load : Type 0 where
  loaded : List Mutation → Load
  info_failed : Load
  read_failed : Bytes → Load

unfoldable pub add_mutation : Mutation → Load → Load
add_mutation m (loaded ms) = loaded (m ∷ ms)
add_mutation m info_failed = info_failed
add_mutation m (read_failed name) = read_failed name

unfoldable pub load_content : ℕ → Entry → Option Bytes → Load → Load
unfolding add_mutation
load_content i e none rest = read_failed e.name
load_content i e (some changes) rest =
    add_mutation (record { version = pos (i + 1); changes = changes }) rest

-- The loop over the sorted entries, from the i-th on.
unfoldable pub load_from : ℕ → List Entry → Load
unfolding load_content
load_from i [] = loaded []
load_from i (e ∷ es) =
    let rest = load_from (suc i) es in
    if not e.has_info
    then info_failed
    else if has_suffix e.name (ascii ".sql")
    then load_content i e e.content rest
    else rest

pub data Failure : Type 0 where
  check_table_failed : Failure
  create_table_failed : Failure
  select_failed : Failure
  read_dir_failed : Failure
  load_info_failed : Failure
  load_read_failed : Bytes → Failure
  backup_failed : Failure
  begin_failed : Failure
  apply_failed : Mutation → Failure
  update_version_failed : Mutation → Failure
  commit_failed : Failure

-- The table `schema_version`: it is missing, it has no row, or its row holds a version.
pub data Table : Type 0 where
  no_table : Table
  no_row : Table
  row : ℤ → Table

pub record Database (S : Type 0) : Type 0 where
  pub schema : S
  pub table : Table

-- The script `schema` of three statements, which run one by one and in no transaction: all of them
-- run, or the table is not created, or the index or the row is not.
pub data Create : Type 0 where
  all_created : Create
  table_not_created : Create
  index_not_created : Create
  row_not_created : Create

-- Which calls of the database and the file system succeed, in the order of `MutateSchema`.
pub record Calls : Type 0 where
  pub check_table : Bool
  pub create_table : Create
  pub select_version : Bool
  -- fs.ReadDir
  pub entries : Option (List Entry)
  pub backup : Bool
  pub begin : Bool
  pub update_version : Mutation → Bool
  pub commit : Bool

-- The error that is returned, and the database that is left. A rollback that fails as well adds to
-- the error.
pub record Report (S : Type 0) : Type 0 where
  pub failure : Option Failure
  pub database : Database S

-- The state inside the transaction, or the step that failed.
pub data Tx (S : Type 0) : Type 0 where
  open_at : S → ℤ → Tx S
  aborted : Failure → Tx S

unfoldable pub load_mutations : Option (List Entry) → Load ⊎ Failure
load_mutations none = inr read_dir_failed
load_mutations (some es) = inl (load_from 0 (sort_entries es))

-- `left_by f db` is what a transaction on `db` leaves that failed with `f`, after its rollback.
module _ {S : Type 0} (exec : Bytes → S → Option S) (left_by : Failure → Database S → Database S)
    (calls : Calls) where
  unfoldable pub update_in : Mutation → Option S → Tx S
  update_in m none = aborted (apply_failed m)
  update_in m (some schema) =
      if calls.update_version m then open_at schema m.version else aborted (update_version_failed m)

  -- The loop over the mutations, with the version `from` that was read before the transaction.
  unfoldable pub apply_mutations : ℤ → List Mutation → Tx S → Tx S
  unfolding update_in
  apply_mutations from [] tx = tx
  apply_mutations from (m ∷ ms) (aborted f) = aborted f
  apply_mutations from (m ∷ ms) (open_at schema version) = apply_mutations from ms (
      if ltb_ℤ from (pos 0) || leb_ℤ m.version from
      then open_at schema version
      else update_in m (exec m.changes schema))

  unfoldable pub finish : Database S → Tx S → Report S
  finish db (aborted f) = record { failure = some f; database = left_by f db }
  finish db (open_at schema version) =
      if calls.commit
      then record { failure = none; database = record { schema = schema; table = row version } }
      else record { failure = some commit_failed; database = left_by commit_failed db }

  unfoldable pub transact : Database S → ℤ → List Mutation → Report S
  unfolding finish
  transact db from ms =
      if not calls.begin
      then record { failure = some begin_failed; database = db }
      else finish db (apply_mutations from ms (open_at db.schema from))

  -- `backup_first` is `backupBeforeMutations`.
  unfoldable pub with_mutations : Bool → Database S → ℤ → Load ⊎ Failure → Report S
  unfolding transact
  with_mutations backup_first db from (inr f) = record { failure = some f; database = db }
  with_mutations backup_first db from (inl info_failed) = record {
    failure = some load_info_failed;
    database = db;
  }
  with_mutations backup_first db from (inl (read_failed name)) = record {
    failure = some (load_read_failed name);
    database = db;
  }
  with_mutations backup_first db from (inl (loaded ms)) =
      if backup_first && not calls.backup
      then record { failure = some backup_failed; database = db }
      else transact db from ms

  -- The version is that of the row, and with no row the select fails.
  unfoldable pub with_table : Bool → Database S → Table → Report S
  unfolding with_mutations load_mutations
  with_table backup_first db no_table = record { failure = some select_failed; database = db }
  with_table backup_first db no_row = record { failure = some select_failed; database = db }
  with_table backup_first db (row from) =
      if not calls.select_version
      then record { failure = some select_failed; database = db }
      else with_mutations backup_first db from (load_mutations calls.entries)

  -- The table is created, or the failing script leaves what its first statements did.
  unfoldable pub create : Bool → Database S → Create → Report S
  unfolding with_table
  create backup_first db all_created =
      with_table backup_first (record db { table = row (pos 0) }) (row (pos 0))
  create backup_first db table_not_created = record {
    failure = some create_table_failed;
    database = db;
  }
  create backup_first db index_not_created = record {
    failure = some create_table_failed;
    database = record db { table = no_row };
  }
  create backup_first db row_not_created = record {
    failure = some create_table_failed;
    database = record db { table = no_row };
  }

  -- ensureSchemaVersionTable, and then the rest.
  unfoldable pub ensure_table : Bool → Database S → Table → Report S
  unfolding create
  ensure_table backup_first db no_table = create backup_first db calls.create_table
  ensure_table backup_first db no_row = with_table backup_first db no_row
  ensure_table backup_first db (row from) = with_table backup_first db (row from)

  unfoldable pub mutate_schema : Bool → Database S → Report S
  unfolding ensure_table
  mutate_schema backup_first db =
      if not calls.check_table
      then record { failure = some check_table_failed; database = db }
      else ensure_table backup_first db db.table

-- A transaction that failed leaves the database as it was, as SQLite documents it for every journal
-- mode but Off.
abbrev pub RollsBack : {S : Type 0} → (Failure → Database S → Database S) → Type 0
RollsBack {S = S} left_by = (f : Failure) (db : Database S) → left_by f db ≡ db
