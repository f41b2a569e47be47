-- ===== src/Litekit/Evolver/Runs.antt =====
-- What one run of `MutateSchema` of dbkit/litekit/schema_evolution.go does to the database.
use servekit.Prelude.{
  ◌≡◌, refl, Bool, true, false, not, ◌||◌, ◌&&◌, Option, none, some, List, [], ◌∷◌, ℤ, pos, ltb_ℤ,
  leb_ℤ, if◌then◌else◌, Bytes, Bool-cases, inl, inr, ◌⊎◌,
}
use servekit.Litekit.Evolver.{
  Mutation, Load, loaded, info_failed, read_failed, Failure, Database, Calls, Report, Tx, open_at,
  aborted, load_mutations, apply_mutations, finish, transact, with_mutations, with_table, Table,
  no_table, no_row, row, Create, all_created, RollsBack, commit_failed, begin_failed,
  load_info_failed, load_read_failed, backup_failed, select_failed,
}

-- The mutations that a database at this version still lacks.
abbrev pub is_pending : ℤ → Mutation → Bool
is_pending from m = not (ltb_ℤ from (pos 0) || leb_ℤ m.version from)

unfoldable pub pending : ℤ → List Mutation → List Mutation
pending from [] = []
pending from (m ∷ ms) = if is_pending from m then m ∷ pending from ms else pending from ms

unfoldable pub last_version : ℤ → List Mutation → ℤ
last_version version [] = version
last_version version (m ∷ ms) = last_version m.version ms

-- The version that a run starts from; a missing table is created at version 0.
abbrev pub version_or_zero : Table → ℤ
version_or_zero no_table = pos 0
version_or_zero no_row = pos 0
version_or_zero (row v) = v

-- The table as a run without an error found it, or made it.
abbrev pub HasVersion : Table → Create → Type 0
HasVersion no_table c = c ≡ all_created
HasVersion no_row c = ⊥
HasVersion (row v) c = Unit

module _ {S : Type 0} (exec : Bytes → S → Option S) where
  -- The scripts of the mutations, run one after the other.
  abbrev pub run_all : List Mutation → S → Option S
  run_all [] schema = some schema
  run_all (m ∷ ms) schema = elim (exec m.changes schema) [ none ↦ none | some s ↦ run_all ms s ]

module _ {S : Type 0} (exec : Bytes → S → Option S)
    (left_by : Failure → Database S → Database S) where
  -- A run that succeeds, step by step.
  pub record Success (calls : Calls) (backup_first : Bool) (db : Database S) : Type 0 where
    pub mutations : List Mutation
    pub final_schema : S
    pub final_version : ℤ
    pub checked : calls.check_table ≡ true
    pub created : HasVersion db.table calls.create_table
    pub selected : calls.select_version ≡ true
    pub read : load_mutations calls.entries ≡ inl (loaded mutations)
    pub backed_up : (backup_first && not calls.backup) ≡ false
    pub begun : calls.begin ≡ true
    pub applied :
        apply_mutations exec left_by calls
          (version_or_zero db.table)
          mutations
          (open_at db.schema (version_or_zero db.table))
        ≡ open_at final_schema final_version
    pub committed : calls.commit ≡ true

-- The database that a run with an error may leave.
abbrev pub IsKept : {S : Type 0} → Database S → Database S → Type 0
IsKept db left =
    (left.schema ≡ db.schema)
    × ((left.table ≡ db.table)
        ⊎ ((db.table ≡ no_table) × ((left.table ≡ no_row) ⊎ (left.table ≡ row (pos 0)))))

abbrev pub Failed : {S : Type 0} → Database S → Report S → Type 0
Failed db r = (f : Failure) × (r.failure ≡ some f) × (r.database ≡ db)

abbrev pub Done : {S : Type 0} → S → ℤ → Report S → Type 0
Done s v r = (r.failure ≡ none) × (r.database ≡ record { schema = s; table = row v })

module _ {S : Type 0} (exec : Bytes → S → Option S) (left_by : Failure → Database S → Database S)
    (calls : Calls) (rolls_back : RollsBack left_by) where
  finish_cases :
      (db : Database S) (tx : Tx S)
      → Failed db (finish exec left_by calls db tx)
        ⊎ ((s : S) × (v : ℤ) × (tx ≡ open_at s v)
            × (calls.commit ≡ true)
            × Done s v (finish exec left_by calls db tx))
  unfolding finish
  finish_cases db (aborted g) = inl (g, refl, rolls_back g db)
  finish_cases db (open_at s v) = elim (Bool-cases calls.commit) [
    | inl e ↦ inr (s, v, refl, e, (rw e, rw e))
    | inr e ↦ inl (commit_failed, rw e, rw e (rolls_back commit_failed db))
  ]

  transact_cases :
      (db : Database S) (from : ℤ) (ms : List Mutation)
      → Failed db (transact exec left_by calls db from ms)
        ⊎ ((s : S) × (v : ℤ) × (calls.begin ≡ true)
            × (apply_mutations exec left_by calls from ms (open_at db.schema from) ≡ open_at s v)
            × (calls.commit ≡ true)
            × Done s v (transact exec left_by calls db from ms))
  unfolding transact
  transact_cases db from ms = elim (Bool-cases calls.begin) [
    | inl e ↦
        elim (finish_cases db
          (apply_mutations exec left_by calls from ms (open_at db.schema from))) [
            | inl (f, p, q) ↦ inl (f, simp e p, simp e q)
            | inr (s, v, a, c, d) ↦ inr (s, v, e, a, c, (simp e d.0, simp e d.1))
          ]
    | inr e ↦ inl (begin_failed, simp e, simp e)
  ]

  -- The steps after the version was read.
  abbrev pub Rest : Bool → Database S → ℤ → Report S → Type 0
  Rest backup_first db from r =
      (ms : List Mutation) × (s : S) × (v : ℤ) × (load_mutations calls.entries ≡ inl (loaded ms))
      × ((backup_first && not calls.backup) ≡ false)
      × (calls.begin ≡ true)
      × (apply_mutations exec left_by calls from ms (open_at db.schema from) ≡ open_at s v)
      × (calls.commit ≡ true)
      × Done s v r

  with_mutations_cases :
      (backup_first : Bool) (db : Database S) (from : ℤ) (l : Load ⊎ Failure)
      → load_mutations calls.entries ≡ l
      → Failed db (with_mutations exec left_by calls backup_first db from l)
        ⊎ Rest backup_first db from (with_mutations exec left_by calls backup_first db from l)
  unfolding with_mutations
  with_mutations_cases backup_first db from (inr g) h = inl (g, refl, refl)
  with_mutations_cases backup_first db from (inl info_failed) h = inl (load_info_failed, refl, refl)
  with_mutations_cases backup_first db from (inl (read_failed n)) h =
      inl (load_read_failed n, refl, refl)
  with_mutations_cases backup_first db from (inl (loaded ms)) h =
      elim (Bool-cases (backup_first && not calls.backup)) [
        | inl e ↦ inl (backup_failed, simp e, simp e)
        | inr e ↦ elim (transact_cases db from ms) [
          | inl (f, p, q) ↦ inl (f, simp e p, simp e q)
          | inr (s, v, b, a, c, d) ↦ inr (ms, s, v, h, e, b, a, c, (simp e d.0, simp e d.1))
        ]
      ]

  pub with_row_cases :
      (backup_first : Bool) (db : Database S) (from : ℤ)
      → Failed db (with_table exec left_by calls backup_first db (row from))
        ⊎ ((calls.select_version ≡ true)
            × Rest backup_first db from (with_table exec left_by calls backup_first db (row from)))
  unfolding with_table
  with_row_cases backup_first db from = elim (Bool-cases calls.select_version) [
    | inl e ↦ elim (with_mutations_cases backup_first db from (load_mutations calls.entries) refl) [
      | inl (f, p, q) ↦ inl (f, simp e p, simp e q)
      | inr (ms, s, v, h, k, b, a, c, d) ↦
          inr (e, (ms, s, v, h, k, b, a, c, (simp e d.0, simp e d.1)))
    ]
    | inr e ↦ inl (select_failed, simp e, simp e)
  ]
