-- ===== src/Litekit/Evolver/Migrations.antt =====
-- What `MutateSchema` of dbkit/litekit/schema_evolution.go promises: it is atomic, it applies what is
-- pending, and a second run changes nothing.
use servekit.Prelude.{
  ◌≡◌, refl, Bool, true, false, ◌||◌, Option, none, some, List, [], ◌∷◌, arith, ℤ, pos, ltb_ℤ,
  leb_ℤ, if◌then◌else◌, Bytes, Bool-cases, Option-cases, inl, inr, ◌⊎◌, subst, sym, ap, ◌∙◌,
}
use servekit.Litekit.Evolver.{
  Mutation, Entry, Load, loaded, Failure, Database, Calls, Tx, open_at, aborted, row, RollsBack,
  load_mutations, sort_entries, apply_failed, update_version_failed, update_in, apply_mutations,
  mutate_schema,
}
use servekit.Litekit.Evolver.Loading.{Ascending, load_from-Ascending}
use servekit.Litekit.Evolver.Pending.{pending-drained}
use servekit.Litekit.Evolver.Outcomes.{mutate_cases}
use servekit.Litekit.Evolver.Runs.{
  is_pending, pending, last_version, version_or_zero, run_all, IsKept,
}

module _ {S : Type 0} (exec : Bytes → S → Option S) (left_by : Failure → Database S → Database S)
    (calls : Calls) where
  apply-aborted :
      (from : ℤ) (ms : List Mutation) (f : Failure)
      → apply_mutations exec left_by calls from ms (aborted f) ≡ aborted f
  unfolding apply_mutations
  apply-aborted from [] f = refl
  apply-aborted from (m ∷ ms) f = refl

  aborted-not-open :
      (f : Failure) (s : S) (v : ℤ) → (tx : Tx S) → tx ≡ aborted f → ¬ (tx ≡ open_at s v)
  aborted-not-open f s v tx g h = cc

  -- What one mutation does to the open transaction.
  abbrev step : ℤ → Mutation → S → ℤ → Tx S
  step from m schema version =
      if ltb_ℤ from (pos 0) || leb_ℤ m.version from
      then open_at schema version
      else update_in exec left_by calls m (exec m.changes schema)

  step_cases :
      (from : ℤ) (m : Mutation) (schema : S) (version : ℤ)
      → ((is_pending from m ≡ false) × (step from m schema version ≡ open_at schema version))
        ⊎ (((s : S) × (is_pending from m ≡ true)
              × (exec m.changes schema ≡ some s)
              × (step from m schema version ≡ open_at s m.version))
            ⊎ ((f : Failure) × (step from m schema version ≡ aborted f)))
  unfolding update_in
  step_cases from m schema version =
      elim (Bool-cases (ltb_ℤ from (pos 0) || leb_ℤ m.version from)) [
        | inl e ↦ inl (rw e, rw e)
        | inr e ↦ inr (elim (Option-cases (exec m.changes schema)) [
          | inl k ↦ inr (apply_failed m, simp (e, k))
          | inr (s, k) ↦ elim (Bool-cases (calls.update_version m)) [
            | inl u ↦ inl (s, rw e, k, simp (e, k, u))
            | inr u ↦ inr (update_version_failed m, simp (e, k, u))
          ]
        ])
      ]

  -- A transaction that is not aborted has run the pending scripts in order.
  apply-pending :
      (from : ℤ) (ms : List Mutation) (schema s : S) (version v : ℤ)
      → apply_mutations exec left_by calls from ms (open_at schema version) ≡ open_at s v
      → (run_all exec (pending from ms) schema ≡ some s)
        × (v ≡ last_version version (pending from ms))
  unfolding apply_mutations pending last_version
  apply-pending from [] schema s version v h = (ground arith, ground arith)
  apply-pending from (m ∷ ms) schema s version v h = elim (step_cases from m schema version) [
    | inl (e, k) ↦
        let (p, q) =
          apply-pending from ms schema s version v
            (subst (λ tx. apply_mutations exec left_by calls from ms tx ≡ open_at s v) k h) in
        (simp e p, simp e q)
    | inr (inl (s1, e, x, k)) ↦
        let (p, q) =
          apply-pending from ms s1 s m.version v
            (subst (λ tx. apply_mutations exec left_by calls from ms tx ≡ open_at s v) k h) in
        (simp (e, x) p, simp e q)
    | inr (inr (f, k)) ↦ absurd (
        aborted-not-open f s v _ (apply-aborted from ms f)
          (subst (λ tx. apply_mutations exec left_by calls from ms tx ≡ open_at s v) k h))
  ]

-- A database with the mutations that it lacked at `from`, all run in order.
abbrev pub IsMigrated :
    {S : Type 0} → (Bytes → S → Option S) → List Mutation → Database S → Database S → Type 0
IsMigrated exec ms db left =
    let from = version_or_zero db.table in
    (run_all exec (pending from ms) db.schema ≡ some left.schema)
    × (left.table ≡ row (last_version from (pending from ms)))

module _ {S : Type 0} (exec : Bytes → S → Option S) (left_by : Failure → Database S → Database S)
    (calls : Calls) (rolls_back : RollsBack left_by) where
  -- If a transaction that failed leaves the database as it was, `MutateSchema` is atomic. When it
  -- returns an error the schema is as before, and the table schema_version is too, unless it was
  -- missing and now has no row or the version 0. When it returns no error the directory was loaded,
  -- the pending mutations have all run, in order, on the schema before, and the version is that of
  -- the last of them.
  pub migrates_or_keeps :
      (backup_first : Bool) (db : Database S)
      → let r = mutate_schema exec left_by calls backup_first db in
        ((f : Failure) × (r.failure ≡ some f) × IsKept db r.database)
        ⊎ ((ms : List Mutation) × (r.failure ≡ none)
            × (load_mutations calls.entries ≡ inl (loaded ms))
            × IsMigrated exec ms db r.database)
  migrates_or_keeps backup_first db =
      elim (mutate_cases exec left_by calls rolls_back backup_first db) [
        | inl x ↦ inl x
        | inr (w, d) ↦
            let from = version_or_zero db.table in
            let (p, q) =
              apply-pending exec left_by calls from w.mutations db.schema w.final_schema from
                w.final_version w.applied in
            inr (
              w.mutations,
              d.0,
              w.read,
              (
                p ∙ ap (λ (x : Database S). some x.schema) (sym d.1),
                ap (λ (x : Database S). x.table) d.1 ∙ ap row q,
              ),
            )
      ]

load_mutations-Ascending :
    (entries : Option (List Entry)) (ms : List Mutation)
    → load_mutations entries ≡ inl (loaded ms)
    → Ascending (pos 0) ms
unfolding load_mutations
load_mutations-Ascending none ms h = absurd (cc)
load_mutations-Ascending (some es) ms h = load_from-Ascending 0 (sort_entries es) ms (cc)

Database-path : {S : Type 0} {x y : Database S} → x.schema ≡ y.schema → x.table ≡ y.table → x ≡ y
Database-path p q = λ i. record { schema = p i; table = q i }

some-injective {ℓ} : {A : Type ℓ} {a b : A} → some a ≡ some b → a ≡ b
some-injective p = cc

loaded_unique :
    (l : Load ⊎ Failure) (xs ys : List Mutation)
    → l ≡ inl (loaded xs)
    → l ≡ inl (loaded ys)
    → xs ≡ ys
loaded_unique l xs ys p q = cc

-- A database that holds the last version stays as it is when its mutations are loaded again.
IsMigrated-again :
    {S : Type 0} (exec : Bytes → S → Option S) (ms : List Mutation) (db left last : Database S)
    → Ascending (pos 0) ms
    → IsMigrated exec ms db left
    → IsMigrated exec ms left last
    → last ≡ left
IsMigrated-again exec ms db left last a (p, q) (p2, q2) =
    let none_left : pending (version_or_zero left.table) ms ≡ [] =
      subst (λ v. pending (version_or_zero v) ms ≡ []) (sym q)
        (pending-drained (version_or_zero db.table) (pos 0) ms a) in
    Database-path (some-injective (sym p2 ∙ ap (λ l. run_all exec l left.schema) none_left)) (
      q2
      ∙ ap (λ l. row (last_version (version_or_zero left.table) l)) none_left
      ∙ unfold last_version in ap (λ v. row (version_or_zero v)) q ∙ sym q)

module _ {S : Type 0} (exec : Bytes → S → Option S) (left_by : Failure → Database S → Database S)
    (calls again : Calls) (rolls_back : RollsBack left_by) where
  -- If a transaction that failed leaves the database as it was: after a run of `MutateSchema` without
  -- an error, another run on the same directory leaves the database as it is, whether it succeeds or
  -- fails, and whether either makes a backup.
  pub second_run_keeps :
      (backup_first backup_again : Bool) (db : Database S)
      → again.entries ≡ calls.entries
      → (mutate_schema exec left_by calls backup_first db).failure ≡ none
      → (mutate_schema exec left_by again backup_again
          (mutate_schema exec left_by calls backup_first db).database).database
        ≡ (mutate_schema exec left_by calls backup_first db).database
  second_run_keeps backup_first backup_again db same ok =
      elim (migrates_or_keeps exec left_by calls rolls_back backup_first db) [
        | inl (f, p, k) ↦ absurd (cc)
        | inr (ms, p, r, m) ↦
            let left = (mutate_schema exec left_by calls backup_first db).database in
            let last = (mutate_schema exec left_by again backup_again left).database in
            elim (migrates_or_keeps exec left_by again rolls_back backup_again left) [
              | inl (f, g, (s, inl v)) ↦ Database-path s v
              | inl (f, g, (s, inr (gone, v))) ↦ absurd (cc)
              | inr (ms2, g, r2, m2) ↦
                  IsMigrated-again exec ms db left last
                    (load_mutations-Ascending calls.entries ms r) m
                    (subst (λ l. IsMigrated exec l left last)
                      (loaded_unique _ ms2 ms r2 (ap load_mutations same ∙ r)) m2)
            ]
      ]
