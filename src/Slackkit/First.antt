-- ===== src/Slackkit/First.antt =====
-- Which error the checks of slackkit/slack.go report.
use servekit.Prelude.{
  ℕ, suc, ◌+◌, ◌≤◌, ◌<◌, ◌≡◌, refl, Option, none, some, List, [], ◌∷◌, ◌++◌, arith, length, All,
  ◌⊎◌, Option-cases, Bool-cases, ltb, inl, inr, ap, ◌∙◌,
}
use servekit.Slackkit.Blocks.{Block, Notification}
use servekit.Slackkit.Validate.{validate_block, validate}
use servekit.Slackkit.Checks.{Invalid, too_many_blocks, at_block, first_invalid, max_message_blocks}
use servekit.Slackkit.Valid.{block_iff}
use servekit.Slackkit.Shapes.{IsBlockAs}

-- The first item that a check refuses: those before it pass.
pub record IsFirst {A : Type 0} (check : A → Option Invalid) (xs : List A) (i : ℕ) (e : Invalid)
    : Type 0 where
  pub before : List A
  pub item : A
  pub after : List A
  pub split : xs ≡ before ++ (item ∷ after)
  pub place : i ≡ length before
  pub passed : All (λ x. check x ≡ none) before
  pub refused : check item ≡ some e

pub first_invalid-IsFirst :
    {A : Type 0} (check : A → Option Invalid) (at_place : ℕ → Invalid → Invalid) (i : ℕ)
    (xs : List A) (e : Invalid)
    → first_invalid check at_place i xs ≡ some e
    → (j : ℕ) × (cause : Invalid) × (e ≡ at_place (i + j) cause) × IsFirst check xs j cause
unfolding first_invalid
first_invalid-IsFirst check at_place i [] e h = absurd cc
first_invalid-IsFirst {A} check at_place i (x ∷ xs) e h = elim (Option-cases (check x)) [
  | inl fine ↦
      let ih = first_invalid-IsFirst check at_place (suc i) xs e (ground arith) in
      let rest : IsFirst check xs ih.0 ih.1 = ih.3 in
      (
        suc ih.0,
        ih.1,
        ih.2 ∙ ap (λ j. at_place j ih.1) (omega arith),
        record {
          before = x ∷ rest.before;
          item = rest.item;
          after = rest.after;
          split = ap (λ ys. x ∷ ys) rest.split;
          place = omega (arith, rest.place);
          passed = (fine, rest.passed);
          refused = rest.refused;
        },
      )
  | inr (cause, bad) ↦ (
    0,
    cause,
    grind arith,
    record {
      before = [];
      item = x;
      after = xs;
      split = refl;
      place = refl;
      passed = tt;
      refused = bad;
    },
  )
]

All-blocks :
    (bs : List Block) → All (λ b. validate_block b ≡ none) bs → All (λ b. IsBlockAs b.kind b) bs
All-blocks [] h = tt
All-blocks (b ∷ bs) h = ((block_iff b).0 h.0, All-blocks bs h.1)

-- An error of a notification is that it has more than 50 blocks, or it names a block and what is
-- wrong with it: the blocks before that one are well formed, and that one has this error.
pub validate_first_error :
    (n : Notification) (e : Invalid)
    → validate n ≡ some e
    → ((e ≡ too_many_blocks) × (50 < length n.blocks))
      ⊎ ((i : ℕ) × (cause : Invalid) × (before : List Block) × (b : Block) × (after : List Block)
          × (e ≡ at_block i cause)
          × (n.blocks ≡ before ++ (b ∷ after))
          × (i ≡ length before)
          × (length n.blocks ≤ 50)
          × All (λ b. IsBlockAs b.kind b) before
          × (validate_block b ≡ some cause))
unfolding validate
validate_first_error n e h = elim (Bool-cases (ltb max_message_blocks (length n.blocks))) [
  | inl many ↦ inl (grind arith, ground arith)
  | inr few ↦
      let found = first_invalid-IsFirst validate_block at_block 0 n.blocks e (ground arith) in
      let first : IsFirst validate_block n.blocks found.0 found.1 = found.3 in
      inr (
        found.0,
        found.1,
        first.before,
        first.item,
        first.after,
        found.2 ∙ ap (λ j. at_block j found.1) (omega arith),
        first.split,
        first.place,
        ground arith,
        All-blocks first.before first.passed,
        first.refused,
      )
]
