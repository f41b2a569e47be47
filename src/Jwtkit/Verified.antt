-- ===== src/Jwtkit/Verified.antt =====
-- What a token is that the provider of authkit/jwtkit/jwks.go accepts.
use servekit.Prelude.{
  ℕ, ◌≤◌, ◌≡◌, refl, sym, ap, ◌∙◌, subst, true, Option, none, some, List, [], ◌∷◌, arith, length,
  Bytes, Option-cases, inl, inr,
}
use servekit.Jwtkit.Token.{
  JwtLibrary, TokenError, Result, ok, err, Token, validate, token_unless, decoded, parsed,
}
use servekit.Jwtkit.Keys.{Key, lookup, Fetched}
use servekit.Jwtkit.Provider.{
  Provider, Refreshed, kept, renewed, refresh_failed, crashed, Called, called, panicked,
  verifier_of, cached_verifier, verifier_after, refresh, get_verifier, parse_with, parse_after,
  parse_header, parse_verify_jwks,
}

-- Claims that hold at a time, of a text whose signature a verifier accepts.
pub record IsSound (lib : JwtLibrary) (v : lib.Verifier) (text : Bytes) (now : ℕ) (t : Token lib)
    : Type 0 where
  pub verified : lib.parse text v ≡ some t.raw
  pub read : lib.decode_claims t.raw ≡ some t.claims
  pub not_expired : lib.valid_expires_at t.claims now ≡ true
  pub begun : lib.valid_not_before t.claims now ≡ true
  pub was_issued : lib.valid_issued_at t.claims now ≡ true

module _ (lib : JwtLibrary) where
  Claimed : lib.Claims → ℕ → Type 0
  Claimed c now =
      (lib.valid_expires_at c now ≡ true)
      × (lib.valid_not_before c now ≡ true)
      × (lib.valid_issued_at c now ≡ true)

  Claimed-of : (c : lib.Claims) (now : ℕ) → validate lib c now ≡ none → Claimed c now
  unfolding validate Claimed
  Claimed-of c now h = (ground arith, ground arith, ground arith)

  token_unless-ok :
      (e : Option TokenError) (s t : Token lib) → token_unless lib e s ≡ ok t → (e ≡ none) × (s ≡ t)
  unfolding token_unless
  token_unless-ok none s t h = (refl, cc)
  token_unless-ok (some e) s t h = absurd cc

  decoded-ok :
      (o : Option lib.Claims) (raw : lib.Raw) (now : ℕ) (t : Token lib)
      → decoded lib o raw now ≡ ok t
      → (o ≡ some t.claims) × (raw ≡ t.raw) × Claimed t.claims now
  unfolding decoded
  decoded-ok none raw now t h = absurd cc
  decoded-ok (some c) raw now t h =
      let s : Token lib = record { claims = c; raw = raw } in
      let v = token_unless-ok (validate lib c now) s t h in
      let same = ap (λ (x : Token lib). x.claims) v.1 in
      (
        ap some same,
        ap (λ (x : Token lib). x.raw) v.1,
        subst (λ x. Claimed x now) same (Claimed-of c now v.0),
      )

  parsed-ok :
      (o : Option lib.Raw) (now : ℕ) (t : Token lib)
      → parsed lib o now ≡ ok t
      → (o ≡ some t.raw) × (lib.decode_claims t.raw ≡ some t.claims) × Claimed t.claims now
  unfolding parsed
  parsed-ok none now t h = absurd cc
  parsed-ok (some raw) now t h =
      let v = decoded-ok (lib.decode_claims raw) raw now t h in
      (ap some v.1, sym (ap lib.decode_claims v.1) ∙ v.0, v.2)

module _ (lib : JwtLibrary) (convert : Bytes → Bytes → Option lib.PublicKey) where
  -- The verifier was made of the key that the cache has for the ID.
  KeyOf : Provider lib → Bytes → lib.Verifier → Type 0
  KeyOf p kid v =
      (pk : lib.PublicKey) × (lookup kid p.cache ≡ some pk) × (lib.new_verifier pk ≡ some v)

  verifier_of-ok :
      (o : Option lib.PublicKey) (kid : Bytes) (v : lib.Verifier)
      → verifier_of lib convert o kid ≡ ok v
      → (pk : lib.PublicKey) × (o ≡ some pk) × (lib.new_verifier pk ≡ some v)
  unfolding verifier_of
  verifier_of-ok none kid v h = absurd cc
  verifier_of-ok (some pk) kid v h = elim (Option-cases (lib.new_verifier pk)) [
    | inl e ↦ absurd (grind arith)
    | inr (w, e) ↦ (pk, refl, grind arith)
  ]

  called-injective :
      {A : Type 0} (c : Called lib convert A) {p q : Provider lib} {a b : A}
      → c ≡ called p a
      → c ≡ called q b
      → (p ≡ q) × (a ≡ b)
  called-injective c h k = (cc, cc)

  cached-KeyOf :
      (p q : Provider lib) (kid : Bytes) (v : lib.Verifier)
      → cached_verifier lib convert p kid ≡ called q (ok v)
      → KeyOf q kid v
  unfolding cached_verifier KeyOf
  cached-KeyOf p q kid v h =
      let e = called-injective (cached_verifier lib convert p kid) refl h in
      subst (λ x. KeyOf x kid v) e.0 (verifier_of-ok (lookup kid p.cache) kid v e.1)

  verifier_after-KeyOf :
      (r : Refreshed lib) (q : Provider lib) (kid : Bytes) (v : lib.Verifier)
      → verifier_after lib convert r kid ≡ called q (ok v)
      → KeyOf q kid v
  unfolding verifier_after
  verifier_after-KeyOf (kept p) q kid v h = cached-KeyOf p q kid v h
  verifier_after-KeyOf (renewed p) q kid v h = cached-KeyOf p q kid v h
  verifier_after-KeyOf (refresh_failed p) q kid v h = absurd cc
  verifier_after-KeyOf crashed q kid v h = absurd cc

  parse_after-ok :
      (c : Called lib convert (Result lib.Verifier)) (text : Bytes) (now : ℕ) (q : Provider lib)
      (t : Token lib)
      → parse_after lib convert c text now ≡ called q (ok t)
      → (v : lib.Verifier) × (c ≡ called q (ok v)) × (parsed lib (lib.parse text v) now ≡ ok t)
  unfolding parse_after parse_with
  parse_after-ok (called p (err e)) text now q t h = absurd cc
  parse_after-ok (called p (ok v)) text now q t h =
      let e = called-injective (called p (parsed lib (lib.parse text v) now)) refl h in
      (v, ap (λ x. called x (ok v)) e.0, e.1)
  parse_after-ok panicked text now q t h = absurd cc

  header-ok :
      (fetch : Option (List Key) → Fetched) (p : Provider lib) (now : ℕ) (text kid : Bytes)
      (q : Provider lib) (t : Token lib)
      → parse_header lib convert fetch p now text (some kid) ≡ called q (ok t)
      → (1 ≤ length kid)
        × (parse_after lib convert (get_verifier lib convert fetch p now kid) text now
            ≡ called q (ok t))
  unfolding parse_header
  header-ok fetch p now text [] q t h = absurd cc
  header-ok fetch p now text (c ∷ kid) q t h = (omega arith, h)

-- A token that ParseVerify of a JWKSProvider returns has a key ID in its header that is not empty;
-- its signature was verified with the key that the provider then has cached for this ID; and its
-- claims hold at the time of the call: not expired, begun, and issued.
pub parse_verify_jwks-IsSound :
    (lib : JwtLibrary) (convert : Bytes → Bytes → Option lib.PublicKey)
    (fetch : Option (List Key) → Fetched) (p q : Provider lib) (now : ℕ) (text : Bytes)
    (t : Token lib)
    → parse_verify_jwks lib convert fetch p now text ≡ called q (ok t)
    → (kid : Bytes) × (pk : lib.PublicKey) × (v : lib.Verifier) × (lib.header_key_id text
        ≡ some kid)
      × (1 ≤ length kid)
      × (lookup kid q.cache ≡ some pk)
      × (lib.new_verifier pk ≡ some v)
      × IsSound lib v text now t
unfolding parse_verify_jwks get_verifier KeyOf Claimed
parse_verify_jwks-IsSound lib convert fetch p q now text t h =
    elim (Option-cases (lib.header_key_id text)) [
      | inl e ↦ absurd (let x = sym (ap (parse_header lib convert fetch p now text) e) ∙ h in cc)
      | inr (kid, e) ↦
          let x = sym (ap (parse_header lib convert fetch p now text) e) ∙ h in
          let y = header-ok lib convert fetch p now text kid q t x in
          let after = refresh lib convert fetch p now in
          let a =
            parse_after-ok lib convert (get_verifier lib convert fetch p now kid) text now q t
              y.1 in
          let key = verifier_after-KeyOf lib convert after q kid a.0 a.1 in
          let s = parsed-ok lib (lib.parse text a.0) now t a.2 in
          (
            kid,
            key.0,
            a.0,
            e,
            y.0,
            key.1,
            key.2,
            record {
              verified = s.0;
              read = s.1;
              not_expired = s.2.0;
              begun = s.2.1;
              was_issued = s.2.2;
            },
          )
    ]
