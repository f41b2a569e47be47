-- ===== src/Litekit/Evolver/Loading.antt =====
-- The versions that dbkit/litekit/schema_evolution.go gives to the mutations it loads.
use servekit.Prelude.{
  ℕ, suc, ◌+◌, ◌≡◌, refl, Option, none, some, List, [], ◌∷◌, arith, ℤ, pos, ◌<ℤ◌, ◌≤ℤ◌, Bytes, inl,
  inr, ◌⊎◌, subst, sym,
}
use servekit.Litekit.Evolver.{
  Mutation, Entry, Load, loaded, info_failed, read_failed, add_mutation, load_content, load_from,
}

-- Each version is above the one before it, and the first above `from`.
abbrev pub Ascending : ℤ → List Mutation → Type 0
Ascending from [] = Unit
Ascending from (m ∷ ms) = (from <ℤ m.version) × Ascending m.version ms

Ascending-mono : (a b : ℤ) (ms : List Mutation) → a ≤ℤ b → Ascending b ms → Ascending a ms
Ascending-mono a b [] h k = tt
Ascending-mono a b (m ∷ ms) h k = (omega arith, k.1)

add_mutation-loaded :
    (m : Mutation) (l : Load) (ms : List Mutation)
    → add_mutation m l ≡ loaded ms
    → (rest : List Mutation) × (l ≡ loaded rest) × (ms ≡ m ∷ rest)
unfolding add_mutation
add_mutation-loaded m (loaded rest) ms h = (rest, refl, ground arith)
add_mutation-loaded m info_failed ms h = absurd (ground arith)
add_mutation-loaded m (read_failed n) ms h = absurd (ground arith)

load_content-loaded :
    (i : ℕ) (e : Entry) (c : Option Bytes) (l : Load) (ms : List Mutation)
    → load_content i e c l ≡ loaded ms
    → (m : Mutation) × (rest : List Mutation) × (m.version ≡ pos (i + 1))
      × (l ≡ loaded rest)
      × (ms ≡ m ∷ rest)
unfolding load_content
load_content-loaded i e none l ms h = absurd (ground arith)
load_content-loaded i e (some changes) l ms h =
    let m : Mutation = record { version = pos (i + 1); changes = changes } in
    let (rest, p, q) = add_mutation-loaded m l ms h in (m, rest, refl, p, q)

load_from-cons :
    (i : ℕ) (e : Entry) (es : List Entry) (ms : List Mutation)
    → load_from i (e ∷ es) ≡ loaded ms
    → (load_from (suc i) es ≡ loaded ms)
      ⊎ (load_content i e e.content (load_from (suc i) es) ≡ loaded ms)
unfolding load_from
load_from-cons i e es ms h = ground arith

-- Loaded mutations have ascending versions, from i + 1 on.
pub load_from-Ascending :
    (i : ℕ) (es : List Entry) (ms : List Mutation)
    → load_from i es ≡ loaded ms
    → Ascending (pos i) ms
load_from-Ascending i [] ms h =
    subst (Ascending (pos i)) {x = []} (unfold load_from in ground arith) tt
load_from-Ascending i (e ∷ es) ms h = elim (load_from-cons i e es ms h) [
  | inl k ↦
      Ascending-mono (pos i) (pos (suc i)) ms (omega arith) (load_from-Ascending (suc i) es ms k)
  | inr k ↦
      let (m, rest, v, p, q) = load_content-loaded i e e.content (load_from (suc i) es) ms k in
      let above = load_from-Ascending (suc i) es rest p in
      subst (Ascending (pos i)) (sym q) (
        subst (λ w. pos i <ℤ w) (sym v) (omega arith),
        Ascending-mono m.version (pos (suc i)) rest
            (subst (λ w. w ≤ℤ pos (suc i)) (sym v) (omega arith)) above,
      )
]
