-- ===== src/Jwtkit/Documents.antt =====
-- What the provider of authkit/jwtkit/jwks.go promises: it answers from the keys that its key store
-- held after the last fetch without an error. The specification keeps them, and no cache.
use servekit.Prelude.{
  ℕ, ◌-◌, ◌≡◌, refl, ap, ◌∙◌, Bool, true, false, ◌&&◌, Option, none, some, List, [], ◌∷◌,
  if◌then◌else◌, Bytes, bytes_eq, ℤ, pos, ltb_ℤ, Bool-cases, inl, inr,
}
use servekit.GoText.{ascii}
use servekit.Jwtkit.Token.{JwtLibrary, not_refreshed, Result, err}
use servekit.Jwtkit.Keys.{Key, lookup, put, add_keys, Fetched}
use servekit.Jwtkit.Provider.{Provider, Called, called, panicked, verifier_of}

abbrev first_some : {A : Type 0} → Option A → Option A → Option A
first_some none b = b
first_some (some a) b = some a

first_some_assoc :
    {A : Type 0} (a b c : Option A) → first_some a (first_some b c) ≡ first_some (first_some a b) c
first_some_assoc none b c = refl
first_some_assoc (some a) b c = refl

lookup_added :
    {PublicKey : Type 0} (rsa : Bool) (kid k : Bytes) (o : Option PublicKey)
    (cache : List (Bytes × PublicKey))
    → lookup kid (if rsa then put k o cache else cache)
      ≡ first_some (if rsa && bytes_eq k kid then o else none) (lookup kid cache)
unfolding lookup put
lookup_added false kid k o cache = refl
lookup_added true kid k none cache = elim (Bool-cases (bytes_eq k kid)) [
  | inl e ↦ rw e refl
  | inr e ↦ rw e refl
]
lookup_added true kid k (some pk) cache = elim (Bool-cases (bytes_eq k kid)) [
  | inl e ↦ rw e refl
  | inr e ↦ rw e refl
]

module _ {PublicKey : Type 0} (convert : Bytes → Bytes → Option PublicKey) where
  -- The key that an entry of the document gives for a key ID.
  unfoldable pub key_for : Bytes → Key → Option PublicKey
  key_for kid key =
      if bytes_eq key.kty (ascii "RSA") && bytes_eq key.kid kid then convert key.e key.n else none

  -- The last RSA key of the document with the ID and with numbers that can be decoded.
  unfoldable pub last_key : Bytes → List Key → Option PublicKey
  last_key kid [] = none
  last_key kid (key ∷ keys) = first_some (last_key kid keys) (key_for kid key)

  lookup-add_keys :
      (kid : Bytes) (keys : List Key) (cache : List (Bytes × PublicKey))
      → lookup kid (add_keys convert keys cache) ≡ first_some (last_key kid keys) (lookup kid cache)
  unfolding add_keys last_key key_for
  lookup-add_keys kid [] cache = refl
  lookup-add_keys kid (key ∷ keys) cache =
      let rsa = bytes_eq key.kty (ascii "RSA") in
      let o = convert key.e key.n in
      let added = if rsa then put key.kid o cache else cache in
      lookup-add_keys kid keys added
      ∙ (ap (first_some (last_key kid keys)) (lookup_added rsa kid key.kid o cache)
          ∙ first_some_assoc (last_key kid keys) (key_for kid key) (lookup kid cache))

  first_some-none : (o : Option PublicKey) → first_some o none ≡ o
  first_some-none none = refl
  first_some-none (some pk) = refl

  pub lookup_document :
      (kid : Bytes) (keys : List Key) → lookup kid (add_keys convert keys []) ≡ last_key kid keys
  unfolding lookup
  lookup_document kid keys = lookup-add_keys kid keys [] ∙ first_some-none (last_key kid keys)

-- The specification's state: the key store, its keys after the last fetch without an error, and when
-- that was.
pub record Document : Type 0 where
  pub held : Option (List Key)
  pub keys : List Key
  pub fetched_at : ℕ
  pub interval : ℤ

module _ (lib : JwtLibrary) (convert : Bytes → Bytes → Option lib.PublicKey) where
  -- What a call of the specification gives; none is a panic.
  abbrev pub Spec : Type 0
  Spec = Option (Document × Result lib.Verifier)

  -- The answer from a document.
  unfoldable pub answer : Document → Bytes → Spec
  answer d kid = some (d, verifier_of lib convert (last_key convert kid d.keys) kid)

  unfoldable pub spec_stored : Document → ℕ → Bytes → Option (List Key) → Spec
  unfolding answer
  spec_stored d now kid none = none
  spec_stored d now kid (some keys) =
      answer (record d { held = some keys; keys = keys; fetched_at = now }) kid

  -- A document younger than the interval answers; else another is fetched, and its failure is the
  -- answer.
  unfoldable pub spec_get_verifier : (Option (List Key) → Fetched) → Document → ℕ → Bytes → Spec
  unfolding answer spec_stored
  spec_get_verifier fetch d now kid =
      let f = fetch d.held in
      if ltb_ℤ (pos (now - d.fetched_at)) d.interval
      then answer d kid
      else if f.failed
      then some (record d { held = f.store }, err not_refreshed)
      else spec_stored d now kid f.store

  -- The provider holds what the specification does, and the cache of its keys.
  pub record Represents (p : Provider lib) (d : Document) : Type 0 where
    pub same_store : p.store ≡ d.held
    pub cached : p.cache ≡ add_keys convert d.keys []
    pub fetched : p.last_fetch ≡ some d.fetched_at
    pub same_interval : p.refresh_interval ≡ d.interval

  -- Both panic, or both return the same and go on in states that match.
  unfoldable pub Agrees : Called lib convert (Result lib.Verifier) → Spec → Type 0
  Agrees (called p r) (some (d, r')) = Represents p d × (r ≡ r')
  Agrees panicked none = Unit
  Agrees _ _ = ⊥
