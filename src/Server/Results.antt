-- ===== src/Server/Results.antt =====
-- What `Serve` of server.go returns.
use mathlib.Core.List.{Permᴰ}
use mathlib.Core.List.Permᴰ
use mathlib.Core.List.Permᴰ.{nil, cons, swap, trans}
use servekit.Prelude.{
  ℕ, ◌≡◌, refl, sym, ap, ◌∙◌, ◌↔◌, Bool, true, false, ◌||◌, Option, none, some, List, [], ◌∷◌,
  Bytes, All, subst,
}
use servekit.ErrGroup.{ErrGroup, first_error}
use servekit.Server.{Server, ServeError, listener_failed, wrapped, returns, all_returned, serve}

or_false : (a : Bool) → a || false ≡ a
or_false true = refl
or_false false = refl

module _ {L : Type 0} (group : ErrGroup ServeError) (run : L → Bool → Option ℕ)
    (parent : Bytes → Bool) where
  returns_of :
      (entry : Bytes × L) (g : group.Group) (o : Option ℕ)
      → run entry.1 (parent entry.0 || group.canceled g) ≡ o
      → returns group run parent entry g ≡ group.returned (wrapped entry.0 o) g
  unfolding returns
  returns_of entry g o e = ap (λ x. group.returned (wrapped entry.0 x) g) e

  failed_wait :
      (name : Bytes) (o : Option ℕ) (g : group.Group) (w : ServeError)
      → group.wait g ≡ some w
      → group.wait (group.returned (wrapped name o) g) ≡ some w
  unfolding wrapped
  failed_wait name none g w h = group.wait-returned_none g ∙ h
  failed_wait name (some k) g w h =
      group.wait-returned_some g (listener_failed name k)
      ∙ ap (λ o. first_error o (listener_failed name k)) h

  -- A group that has an error keeps it.
  stays_failed :
      (entries : List (Bytes × L)) (g : group.Group) (w : ServeError)
      → group.wait g ≡ some w
      → group.wait (all_returned group run parent entries g) ≡ some w
  unfolding all_returned returns
  stays_failed [] g w h = h
  stays_failed (entry ∷ entries) g w h =
      stays_failed entries (returns group run parent entry g) w
        (failed_wait entry.0 (run entry.1 (parent entry.0 || group.canceled g)) g w h)

  -- The listener returns no error, in a context that only the caller may have canceled.
  abbrev pub Fine : Bytes × L → Type 0
  Fine entry = run entry.1 (parent entry.0) ≡ none

  only_caller :
      (entry : Bytes × L) (g : group.Group)
      → group.canceled g ≡ false
      → run entry.1 (parent entry.0 || group.canceled g) ≡ run entry.1 (parent entry.0)
  only_caller entry g c =
      ap (run entry.1) (ap (λ b. parent entry.0 || b) c ∙ or_false (parent entry.0))

  -- One more listener, by what it returns.
  one_more :
      (name : Bytes) (o : Option ℕ) (entries : List (Bytes × L)) (g : group.Group)
      → group.wait g ≡ none
      → (o ≡ none
          → (group.wait (all_returned group run parent entries (group.returned none g)) ≡ none)
            ↔ All Fine entries)
      → (group.wait (all_returned group run parent entries (group.returned (wrapped name o) g))
          ≡ none)
        ↔ ((o ≡ none) × All Fine entries)
  unfolding wrapped
  one_more name none entries g w rest =
      let same = rest refl in (λ h. (refl, same.0 h), λ v. same.1 v.1)
  one_more name (some k) entries g w rest =
      let noted =
        group.wait-returned_some g (listener_failed name k)
        ∙ ap (λ o. first_error o (listener_failed name k)) w in
      let failed =
        stays_failed entries (group.returned (some (listener_failed name k)) g)
          (listener_failed name k) noted in
      (λ h. absurd (let x = sym failed ∙ h in cc), λ v. absurd (let x = v.0 in cc))

  All-Fine_iff :
      (entries : List (Bytes × L)) (g : group.Group)
      → group.canceled g ≡ false
      → group.wait g ≡ none
      → (group.wait (all_returned group run parent entries g) ≡ none) ↔ All Fine entries
  unfolding all_returned
  All-Fine_iff [] g c w = (λ h. tt, λ v. w)
  All-Fine_iff (entry ∷ entries) g c w =
      let step = one_more entry.0 (run entry.1 (parent entry.0)) entries g w (λ e.
        All-Fine_iff entries (group.returned none g) (group.canceled-returned_none g ∙ c)
          (group.wait-returned_none g ∙ w)) in
      subst
        (λ x.
          (group.wait (all_returned group run parent entries x) ≡ none)
          ↔ All Fine (entry ∷ entries))
        (sym (returns_of entry g (run entry.1 (parent entry.0)) (only_caller entry g c))) step

All-Perm : {A : Type 0} (P : A → Type 0) {xs ys : List A} → Permᴰ xs ys → All P xs → All P ys
All-Perm P nil h = tt
All-Perm P (cons e d) h = (subst P e h.0, All-Perm P d h.1)
All-Perm P (swap e d) h = (subst P d h.1.0, (subst P e h.0, h.1.1))
All-Perm P (trans d e) h = All-Perm P e (All-Perm P d h)

-- In whichever order the listeners of a server return: Serve returns no error exactly if Serve of
-- every one of them returns none in its context, which then no other listener has canceled.
pub serve_fine_iff :
    {L : Type 0} (group : ErrGroup ServeError) (run : L → Bool → Option ℕ) (parent : Bytes → Bool)
    (order : List (Bytes × L) → List (Bytes × L)) (s : Server L)
    → Permᴰ (order s.listeners) s.listeners
    → (serve group run parent order s ≡ none)
      ↔ All (λ entry. run entry.1 (parent entry.0) ≡ none) s.listeners
unfolding serve
serve_fine_iff group run parent order s perm =
    let fine =
      All-Fine_iff group run parent (order s.listeners) group.with_context
        group.canceled-with_context group.wait-with_context in
    (
      λ h. All-Perm (λ entry. run entry.1 (parent entry.0) ≡ none) perm (fine.0 h),
      λ v. fine.1 (All-Perm (λ entry. run entry.1 (parent entry.0) ≡ none) (Permᴰ.symm perm) v),
    )
