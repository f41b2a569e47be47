-- ===== src/Litekit/Evolver/Outcomes.antt =====
-- How one run of `MutateSchema` of dbkit/litekit/schema_evolution.go ends.
use servekit.Prelude.{
  ◌≡◌, refl, Bool, true, Option, some, pos, Bytes, Bool-cases, inl, inr, ◌⊎◌, subst, sym, ap,
}
use servekit.Litekit.Evolver.{
  Failure, Database, Calls, Report, open_at, apply_mutations, with_table, Table, no_table, no_row,
  row, Create, all_created, table_not_created, index_not_created, row_not_created, create,
  RollsBack, ensure_table, mutate_schema, select_failed, create_table_failed, check_table_failed,
}
use servekit.Litekit.Evolver.Runs.{
  IsKept, Failed, Done, Success, HasVersion, version_or_zero, Rest, with_row_cases,
}

module _ {S : Type 0} (exec : Bytes → S → Option S) (left_by : Failure → Database S → Database S)
    (calls : Calls) (rolls_back : RollsBack left_by) where
  -- What `MutateSchema` leaves: it fails and keeps the database, but for a table made before, or it
  -- succeeds.
  abbrev pub Outcome : Bool → Database S → Report S → Type 0
  Outcome backup_first db r =
      ((f : Failure) × (r.failure ≡ some f) × IsKept db r.database)
      ⊎ ((w : Success exec left_by calls backup_first db) × Done w.final_schema w.final_version r)

  Success-of :
      (backup_first : Bool) (db : Database S) (base : Database S) (r : Report S)
      → calls.check_table ≡ true
      → HasVersion db.table calls.create_table
      → base.schema ≡ db.schema
      → calls.select_version ≡ true
      → Rest exec left_by calls rolls_back backup_first base (version_or_zero db.table) r
      → (w : Success exec left_by calls backup_first db) × Done w.final_schema w.final_version r
  Success-of backup_first db base r checked created same selected (ms, s, v, h, k, b, a, c, d) = (
    record {
      mutations = ms;
      final_schema = s;
      final_version = v;
      checked = checked;
      created = created;
      selected = selected;
      read = h;
      backed_up = k;
      begun = b;
      applied =
          subst
            (λ x.
              apply_mutations exec left_by calls (version_or_zero db.table) ms
                (open_at x (version_or_zero db.table))
              ≡ open_at s v)
            same a;
      committed = c;
    },
    d,
  )

  Outcome-failed :
      (backup_first : Bool) (db : Database S) (r : Report S)
      → Failed db r
      → Outcome backup_first db r
  Outcome-failed backup_first db r (f, p, q) =
      inl (f, p, (ap (λ (d : Database S). d.schema) q, inl (ap (λ (d : Database S). d.table) q)))

  create_cases :
      (backup_first : Bool) (db : Database S) (c : Create)
      → db.table ≡ no_table
      → calls.create_table ≡ c
      → calls.check_table ≡ true
      → Outcome backup_first db (create exec left_by calls backup_first db c)
  unfolding create
  create_cases backup_first db all_created h k t =
      let base = record db { table = row (pos 0) } in
      elim (with_row_cases exec left_by calls rolls_back backup_first base (pos 0)) [
        | inl (f, p, q) ↦ inl (
          f,
          p,
          (ap (λ (d : Database S). d.schema) q, inr (h, inr (ap (λ (d : Database S). d.table) q))),
        )
        | inr (selected, rest) ↦ inr (
            Success-of backup_first db base _ t
              (subst (λ x. HasVersion x calls.create_table) (sym h) k) refl selected
              (subst
                (λ x.
                  Rest exec left_by calls rolls_back backup_first base (version_or_zero x)
                    (with_table exec left_by calls backup_first base (row (pos 0))))
                (sym h) rest))
      ]
  create_cases backup_first db table_not_created h k t =
      Outcome-failed backup_first db _ (create_table_failed, refl, refl)
  create_cases backup_first db index_not_created h k t =
      inl (create_table_failed, refl, (refl, inr (h, inl refl)))
  create_cases backup_first db row_not_created h k t =
      inl (create_table_failed, refl, (refl, inr (h, inl refl)))

  ensure_cases :
      (backup_first : Bool) (db : Database S) (o : Table)
      → db.table ≡ o
      → calls.check_table ≡ true
      → Outcome backup_first db (ensure_table exec left_by calls backup_first db o)
  unfolding ensure_table with_table
  ensure_cases backup_first db no_table h t =
      create_cases backup_first db calls.create_table h refl t
  ensure_cases backup_first db no_row h t =
      Outcome-failed backup_first db _ (select_failed, refl, refl)
  ensure_cases backup_first db (row from) h t =
      elim (with_row_cases exec left_by calls rolls_back backup_first db from) [
        | inl failed ↦ Outcome-failed backup_first db _ failed
        | inr (selected, rest) ↦ inr (
            Success-of backup_first db db _ t
              (subst (λ x. HasVersion x calls.create_table) (sym h) tt) refl selected
              (subst
                (λ x.
                  Rest exec left_by calls rolls_back backup_first db (version_or_zero x)
                    (with_table exec left_by calls backup_first db (row from)))
                (sym h) rest))
      ]

  pub mutate_cases :
      (backup_first : Bool) (db : Database S)
      → Outcome backup_first db (mutate_schema exec left_by calls backup_first db)
  unfolding mutate_schema
  mutate_cases backup_first db = elim (Bool-cases calls.check_table) [
    | inl e ↦ simp e (ensure_cases backup_first db db.table refl e)
    | inr e ↦ inl (check_table_failed, simp e, (simp e, inl (simp e)))
  ]
