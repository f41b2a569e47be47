-- ===== src/Jwtkit/Refines.antt =====
-- The provider of authkit/jwtkit/jwks.go implements its specification.
use servekit.Prelude.{
  ℕ, ◌-◌, ◌≡◌, refl, sym, ap, ap₂, ◌∙◌, subst, Bool, true, false, Option, none, some, List, [], ◌∷◌,
  if◌then◌else◌, Bytes, ℤ, pos, ltb_ℤ,
}
use servekit.Jwtkit.Token.{JwtLibrary, not_refreshed, Result, err}
use servekit.Jwtkit.Keys.{Key, lookup, add_keys, Fetched}
use servekit.Jwtkit.Provider.{
  Provider, Refreshed, kept, renewed, is_fresh, renew, after_fetch, refresh, Called, called,
  panicked, verifier_of, cached_verifier, verifier_after, get_verifier, new_jwks_provider,
  empty_provider,
}
use servekit.Jwtkit.Documents.{
  Document, Spec, answer, spec_stored, spec_get_verifier, Represents, Agrees, lookup_document,
}

module _ (lib : JwtLibrary) (convert : Bytes → Bytes → Option lib.PublicKey) where
  module _ (p : Provider lib) (d : Document) (now : ℕ) (kid : Bytes)
      (v : Represents lib convert p d) where
    answer-Agrees :
        Agrees lib convert (cached_verifier lib convert p kid) (answer lib convert d kid)
    unfolding Agrees cached_verifier answer
    answer-Agrees = (
      v,
      ap (λ o. verifier_of lib convert o kid)
          (ap (lookup kid) v.cached ∙ lookup_document convert kid d.keys),
    )

    failed-Agrees :
        (failed : Bool) (store : Option (List Key))
        → Agrees lib convert
            (verifier_after lib convert
              (after_fetch lib convert p now (record { store = store; failed = failed }))
              kid)
            (if failed
              then some (record d { held = store }, err not_refreshed)
              else spec_stored lib convert d now kid store)
    unfolding Agrees after_fetch renew verifier_after spec_stored answer cached_verifier
    failed-Agrees true store = (
      record {
        same_store = refl;
        cached = v.cached;
        fetched = v.fetched;
        same_interval = v.same_interval;
      },
      refl,
    )
    failed-Agrees false none = tt
    failed-Agrees false (some keys) = (
      record { same_store = refl; cached = refl; fetched = refl; same_interval = v.same_interval },
      ap (λ o. verifier_of lib convert o kid) (lookup_document convert kid keys),
    )

    fetched-Agrees :
        (fresh : Bool) (f : Fetched)
        → Agrees lib convert
            (verifier_after lib convert
              (if fresh then kept p else after_fetch lib convert p now f)
              kid)
            (if fresh
              then answer lib convert d kid
              else if f.failed
              then some (record d { held = f.store }, err not_refreshed)
              else spec_stored lib convert d now kid f.store)
    unfolding verifier_after
    fetched-Agrees true f = answer-Agrees
    fetched-Agrees false f = failed-Agrees f.failed f.store

    get_verifier-Agrees :
        (fetch : Option (List Key) → Fetched)
        → Agrees lib convert
            (get_verifier lib convert fetch p now kid)
            (spec_get_verifier lib convert fetch d now kid)
    unfolding get_verifier refresh spec_get_verifier is_fresh
    get_verifier-Agrees fetch =
        let young = ltb_ℤ (pos (now - d.fetched_at)) d.interval in
        let spec = spec_get_verifier lib convert fetch d now kid in
        let concrete : Bool → Fetched → Called lib convert (Result lib.Verifier) = λ b f.
          verifier_after lib convert (if b then kept p else after_fetch lib convert p now f) kid in
        let fresh_eq : is_fresh lib p.last_fetch p.refresh_interval now ≡ young =
          ap (λ l. is_fresh lib l p.refresh_interval now) v.fetched
          ∙ ap (λ i. ltb_ℤ (pos (now - d.fetched_at)) i) v.same_interval in
        let same : concrete (is_fresh lib p.last_fetch p.refresh_interval now) (fetch p.store)
            ≡ concrete young (fetch d.held) =
          ap (λ b. concrete b (fetch p.store)) fresh_eq
          ∙ ap (λ s. concrete young (fetch s)) v.same_store in
        subst (λ c. Agrees lib convert c spec) (sym same) (fetched-Agrees young (fetch d.held))

-- A call of getVerifier: its time, what the endpoint answers then, and the key ID.
pub record Call : Type 0 where
  pub now : ℕ
  pub fetch : Option (List Key) → Fetched
  pub kid : Bytes

module _ (lib : JwtLibrary) (convert : Bytes → Bytes → Option lib.PublicKey) where
  abbrev pub Answer : Type 0
  Answer = Option (Result lib.Verifier)

  -- The answers to calls, one after the other; none is a panic, after which no call follows.
  unfoldable pub answers : List Call → Provider lib → List Answer
  answers [] p = []
  answers (c ∷ calls) p = elim (get_verifier lib convert c.fetch p c.now c.kid) [
    | called q r ↦ some r ∷ answers calls q
    | panicked ↦ none ∷ []
  ]

  unfoldable pub spec_answers : List Call → Document → List Answer
  spec_answers [] d = []
  spec_answers (c ∷ calls) d = elim (spec_get_verifier lib convert c.fetch d c.now c.kid) [
    | none ↦ none ∷ []
    | some s ↦ some s.1 ∷ spec_answers calls s.0
  ]

  answers_agree :
      (calls : List Call)
      → ((p : Provider lib) (d : Document)
          → Represents lib convert p d
          → answers calls p ≡ spec_answers calls d)
      → (r : Called lib convert (Result lib.Verifier)) (s : Spec lib convert)
      → Agrees lib convert r s
      → (elim r [ called q x ↦ some x ∷ answers calls q | panicked ↦ none ∷ [] ])
        ≡ (elim s [ none ↦ none ∷ [] | some t ↦ some t.1 ∷ spec_answers calls t.0 ])
  unfolding Agrees
  answers_agree calls ih (called q x) none a = absurd a
  answers_agree calls ih (called q x) (some (e, y)) a = ap₂ (λ u us. some u ∷ us) a.1 (ih q e a.0)
  answers_agree calls ih panicked none a = refl
  answers_agree calls ih panicked (some t) a = absurd a

  answers-spec_answers :
      (calls : List Call) (p : Provider lib) (d : Document)
      → Represents lib convert p d
      → answers calls p ≡ spec_answers calls d
  unfolding answers spec_answers
  answers-spec_answers [] p d v = refl
  answers-spec_answers (c ∷ calls) p d v =
      answers_agree calls (answers-spec_answers calls)
        (get_verifier lib convert c.fetch p c.now c.kid)
        (spec_get_verifier lib convert c.fetch d c.now c.kid)
        (get_verifier-Agrees lib convert p d c.now c.kid v c.fetch)

renewed_injective :
    (lib : JwtLibrary) {p q : Provider lib} (r : Refreshed lib)
    → r ≡ renewed p
    → r ≡ renewed q
    → p ≡ q
renewed_injective lib r h k = cc

-- Whatever the endpoint answers, a provider made at some time from a first document of keys answers
-- any calls of getVerifier as the specification does from that document: from the keys that the key
-- store held after the last fetch without an error, fetched again when that is as old as the
-- interval, and from no other keys. A fetch may leave keys in the store that it got before.
pub provider-refines :
    (lib : JwtLibrary) (convert : Bytes → Bytes → Option lib.PublicKey)
    (fetch : Option (List Key) → Fetched) (interval : ℤ) (now : ℕ) (keys : List Key)
    (p : Provider lib) (calls : List Call)
    → fetch none ≡ record { store = some keys; failed = false }
    → new_jwks_provider lib convert fetch interval now ≡ renewed p
    → answers lib convert calls p
      ≡ spec_answers lib convert calls
          (record { held = some keys; keys = keys; fetched_at = now; interval = interval })
unfolding new_jwks_provider refresh is_fresh empty_provider after_fetch renew
provider-refines lib convert fetch interval now keys p calls f h =
    let d : Document = record {
      held = some keys;
      keys = keys;
      fetched_at = now;
      interval = interval;
    } in
    let q : Provider lib = record {
      store = some keys;
      cache = add_keys convert keys [];
      refresh_interval = interval;
      last_fetch = some now;
    } in
    let first : new_jwks_provider lib convert fetch interval now ≡ renewed q =
      ap (after_fetch lib convert (empty_provider lib convert interval) now) f in
    let same : q ≡ p =
      renewed_injective lib (new_jwks_provider lib convert fetch interval now) first h in
    let v : Represents lib convert q d = record {
      same_store = refl;
      cached = refl;
      fetched = refl;
      same_interval = refl;
    } in
    subst (λ x. answers lib convert calls x ≡ spec_answers lib convert calls d) same
      (answers-spec_answers lib convert calls q d v)
