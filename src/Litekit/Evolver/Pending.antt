-- ===== src/Litekit/Evolver/Pending.antt =====
-- Which mutations dbkit/litekit/schema_evolution.go still has to apply after a run.
use servekit.Prelude.{
  ◌≡◌, refl, true, false, List, [], ◌∷◌, arith, ℤ, pos, ltb_ℤ, ◌<ℤ◌, ◌≤ℤ◌, Bool-cases, inl, inr,
  subst, sym,
}
use servekit.Litekit.Evolver.{Mutation}
use servekit.Litekit.Evolver.Loading.{Ascending}
use servekit.Litekit.Evolver.Runs.{is_pending, pending, last_version}

pending-negative : (from : ℤ) (ms : List Mutation) → from <ℤ pos 0 → pending from ms ≡ []
unfolding pending
pending-negative from [] h = refl
pending-negative from (m ∷ ms) h = let ih = pending-negative from ms h in ground arith

pending-above :
    (from w : ℤ) (ms : List Mutation)
    → pos 0 ≤ℤ from
    → from ≤ℤ w
    → Ascending w ms
    → pending from ms ≡ ms
unfolding pending
pending-above from w [] n h a = refl
pending-above from w (m ∷ ms) n h a =
    let ih = pending-above from m.version ms n (omega arith) a.1 in let above = a.0 in ground arith

last_version-above : (w : ℤ) (ms : List Mutation) → Ascending w ms → w ≤ℤ last_version w ms
unfolding last_version
last_version-above w [] a = omega arith
last_version-above w (m ∷ ms) a =
    let ih = last_version-above m.version ms a.1 in let above = a.0 in omega arith

last_version-pending :
    (from w : ℤ) (ms : List Mutation)
    → pos 0 ≤ℤ from
    → Ascending w ms
    → from ≤ℤ last_version from (pending from ms)
unfolding pending last_version
last_version-pending from w [] n a = omega arith
last_version-pending from w (m ∷ ms) n a = elim (Bool-cases (is_pending from m)) [
  | inl e ↦
      let p = pending-above from m.version ms n (ground arith) a.1 in
      let ih = last_version-above m.version ms a.1 in
      let q : from ≤ℤ last_version m.version ms = ground arith in simp (e, p) q
  | inr e ↦ let ih = last_version-pending from m.version ms n a.1 in simp e ih
]

pending-skip :
    (from : ℤ) (m : Mutation) (ms : List Mutation)
    → is_pending from m ≡ false
    → pending from (m ∷ ms) ≡ pending from ms
unfolding pending
pending-skip from m ms e = rw e

pending-take :
    (from : ℤ) (m : Mutation) (ms : List Mutation)
    → is_pending from m ≡ true
    → pending from ms ≡ ms
    → pending from (m ∷ ms) ≡ m ∷ ms
unfolding pending
pending-take from m ms e p = simp (e, p)

-- From a version that is not pending for the first, the first is skipped.
drained-cons :
    (v : ℤ) (m : Mutation) (ms : List Mutation)
    → m.version ≤ℤ v
    → pending v ms ≡ []
    → pending v (m ∷ ms) ≡ []
unfolding pending
drained-cons v m ms h p = ground arith

-- A run from the version that a run has reached has nothing to apply.
pub pending-drained :
    (from w : ℤ) (ms : List Mutation)
    → Ascending w ms
    → pending (last_version from (pending from ms)) ms ≡ []
unfolding last_version
pending-drained from w [] a = unfold pending in refl
pending-drained from w (m ∷ ms) a = elim (Bool-cases (ltb_ℤ from (pos 0))) [
  | inl neg ↦
      let p = pending-negative from (m ∷ ms) (ground arith) in
      subst (λ x. pending (last_version from x) (m ∷ ms) ≡ []) (sym p) p
  | inr n ↦ elim (Bool-cases (is_pending from m)) [
    | inl e ↦
        let p = pending-above from m.version ms (ground arith) (ground arith) a.1 in
        let own = pending-above m.version m.version ms (ground arith) (omega arith) a.1 in
        subst (λ x. pending (last_version from x) (m ∷ ms) ≡ []) (sym (pending-take from m ms e p))
          (drained-cons (last_version from (m ∷ ms)) m ms (last_version-above m.version ms a.1) (
            subst (λ x. pending (last_version m.version x) ms ≡ []) own
              (pending-drained m.version m.version ms a.1)))
    | inr e ↦
        let up = last_version-pending from m.version ms (ground arith) a.1 in
        subst (λ x. pending (last_version from x) (m ∷ ms) ≡ []) (sym (pending-skip from m ms e))
          (drained-cons (last_version from (pending from ms)) m ms (ground arith)
            (pending-drained from m.version ms a.1))
  ]
]
