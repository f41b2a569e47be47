-- ===== src/Litekit/Examples.antt =====
-- Concrete modes and migrations of dbkit/litekit.
use servekit.Prelude.{
  ℕ, ◌≡◌, refl, true, false, Option, none, some, List, [], ◌∷◌, arith, ◌⊎◌, inl, pos, Bytes,
}
use servekit.GoText.{ascii}
use servekit.Litekit.Modes.{delete, unsupported, journal_mode_from_string}
use servekit.Litekit.Modes.Parsing.{LowersToNoCapital, journal_mode_never_read}
use servekit.Litekit.Evolver.{
  Mutation, Entry, loaded, Failure, Database, Calls, load_mutations, load_from, sort_entries,
  mutate_schema, no_table, select_failed, all_created, no_row, row_not_created, RollsBack,
  apply_mutations, name_leb, has_suffix,
}
use servekit.Litekit.Evolver.Loading.{Ascending, load_from-Ascending}
use servekit.Litekit.Evolver.Runs.{IsKept}
use servekit.Litekit.Evolver.Migrations.{IsMigrated, migrates_or_keeps, second_run_keeps}

-- A lowering that changes no rune past ASCII.
abbrev same_rune : ℕ → ℕ
same_rune c = c

same_rune-LowersToNoCapital : LowersToNoCapital same_rune
same_rune-LowersToNoCapital c h k = omega arith

journal_mode_never_read_example :
    journal_mode_from_string same_rune (ascii "WAL") ≡ unsupported delete
journal_mode_never_read_example =
    journal_mode_never_read same_rune same_rune-LowersToNoCapital (ascii "WAL")

abbrev entry_of : Bytes → Bytes → Entry
entry_of name content = record { name = name; has_info = true; content = some content }

abbrev directory : List Entry
directory =
    entry_of (ascii "2.sql") (ascii "B")
    ∷ entry_of (ascii "notes") []
    ∷ entry_of (ascii "1.sql") (ascii "A")
    ∷ []

abbrev all_succeed : Calls
all_succeed = record {
  check_table = true;
  create_table = all_created;
  select_version = true;
  entries = some directory;
  backup = true;
  begin = true;
  update_version = λ m. true;
  commit = true;
}

-- A schema is the list of the scripts that ran.
abbrev run_script : Bytes → List Bytes → Option (List Bytes)
run_script changes schema = some (changes ∷ schema)

abbrev empty_database : Database (List Bytes)
empty_database = record { schema = []; table = no_table }

-- A transaction that failed leaves the database before it.
abbrev rolled_back : Failure → Database (List Bytes) → Database (List Bytes)
rolled_back f db = db

rolled_back-RollsBack : RollsBack rolled_back
rolled_back-RollsBack f db = refl

-- When the row is not created, the empty table is left, and the next run fails.
half_created :
    let r =
      mutate_schema run_script rolled_back
        (record all_succeed { create_table = row_not_created })
        false
        empty_database in
    (r.database.table ≡ no_row)
    × ((mutate_schema run_script rolled_back all_succeed false r.database).failure
        ≡ some select_failed)
unfolding mutate_schema
half_created = (refl, refl)

load_from-Ascending_example : Ascending (pos 0) (
    record { version = pos 1; changes = ascii "A" }
    ∷ record { version = pos 3; changes = ascii "B" }
    ∷ [])
unfolding load_from has_suffix
load_from-Ascending_example =
    load_from-Ascending 0
      (entry_of (ascii "1.sql") (ascii "A")
        ∷ entry_of (ascii "a") []
        ∷ entry_of (ascii "b.sql") (ascii "B")
        ∷ [])
      (record { version = pos 1; changes = ascii "A" }
        ∷ record { version = pos 3; changes = ascii "B" }
        ∷ [])
      refl

migrates_or_keeps_example :
    let r = mutate_schema run_script rolled_back all_succeed true empty_database in
    ((f : Failure) × (r.failure ≡ some f) × IsKept empty_database r.database)
    ⊎ ((ms : List Mutation) × (r.failure ≡ none)
        × (load_mutations (some directory) ≡ inl (loaded ms))
        × IsMigrated run_script ms empty_database r.database)
migrates_or_keeps_example =
    migrates_or_keeps run_script rolled_back all_succeed rolled_back-RollsBack true empty_database

second_run_keeps_example :
    (mutate_schema run_script rolled_back all_succeed false
      (mutate_schema run_script rolled_back all_succeed true empty_database).database).database
    ≡ (mutate_schema run_script rolled_back all_succeed true empty_database).database
unfolding mutate_schema apply_mutations load_from has_suffix sort_entries name_leb
second_run_keeps_example =
    second_run_keeps run_script rolled_back all_succeed all_succeed rolled_back-RollsBack true false
      empty_database refl refl
