-- ===== src/Jwtkit/Examples.antt =====
-- A concrete provider and token of authkit/jwtkit.
use servekit.Prelude.{
  ℕ, ◌≤◌, ◌≡◌, refl, true, false, Option, none, some, List, [], ◌∷◌, ltb, length, Bytes, ℤ, pos,
}
use servekit.GoText.{ascii}
use servekit.Jwtkit.Token.{JwtLibrary, ok, Token}
use servekit.Jwtkit.Keys.{Key, lookup, Fetched, convert_key, fetch_jwks}
use servekit.Jwtkit.Provider.{
  Provider, renewed, called, new_jwks_provider, parse_verify_jwks, crashed,
}
use servekit.Jwtkit.Refines.{Call, answers, spec_answers, provider-refines}
use servekit.Jwtkit.Verified.{IsSound, parse_verify_jwks-IsSound}

-- A token is its text, its claims are the time when it expires, and a key is its modulus.
abbrev plain_jwt : JwtLibrary
plain_jwt = record {
  Raw = Bytes;
  Claims = ℕ;
  Verifier = Bytes;
  PublicKey = Bytes;
  parse = λ text v. some text;
  header_key_id = λ text. some (ascii "k1");
  decode_claims = λ raw. some (length raw);
  valid_expires_at = λ c now. ltb now c;
  valid_not_before = λ c now. true;
  valid_issued_at = λ c now. true;
  new_verifier = λ pk. some pk;
  build = λ c. none;
}

-- Base64 that changes nothing, and keys that forget their exponent.
abbrev plain_base64 : Bytes → Option Bytes
plain_base64 s = some s

abbrev modulus_of : ℕ → ℤ → Bytes
modulus_of n e = n ∷ []

abbrev modulus_only : Bytes → Bytes → Option Bytes
unfolding convert_key
modulus_only e n = convert_key plain_base64 modulus_of e n

abbrev rsa_key : Bytes → Bytes → Key
rsa_key kid n = record {
  usage = [];
  kty = ascii "RSA";
  kid = kid;
  alg = [];
  n = n;
  e = ascii "AQAB";
}

abbrev keys : List Key
keys = rsa_key (ascii "k1") (b'o' ∷ []) ∷ rsa_key (ascii "k1") (b'n' ∷ []) ∷ []

abbrev endpoint : Option (List Key) → Fetched
unfolding fetch_jwks
endpoint = fetch_jwks (record {
  can_request = true;
  response =
      some
        (record { status = 200; decode = λ store. record { store = some keys; failed = false } });
})

abbrev broken_endpoint : Option (List Key) → Fetched
unfolding fetch_jwks
broken_endpoint = fetch_jwks (record { can_request = true; response = none })

-- The body `null` decodes to a nil key store.
null_crashes :
    new_jwks_provider plain_jwt modulus_only
      (λ store. record { store = none; failed = false })
      (pos 100)
      5
    ≡ crashed
unfolding new_jwks_provider
null_crashes = refl

abbrev provider : Provider plain_jwt
provider = record {
  store = some keys;
  cache = (ascii "k1", b'n' ∷ []) ∷ (ascii "k1", b'o' ∷ []) ∷ [];
  refresh_interval = pos 100;
  last_fetch = some 5;
}

makes_provider : new_jwks_provider plain_jwt modulus_only endpoint (pos 100) 5 ≡ renewed provider
unfolding new_jwks_provider endpoint modulus_only
makes_provider = refl

abbrev calls : List Call
calls =
    record { now = 50; fetch = broken_endpoint; kid = ascii "k1" }
    ∷ record { now = 200; fetch = broken_endpoint; kid = ascii "k1" }
    ∷ record { now = 210; fetch = endpoint; kid = ascii "k2" }
    ∷ []

endpoint_gives : endpoint none ≡ record { store = some keys; failed = false }
unfolding endpoint
endpoint_gives = refl

provider-refines_example :
    answers plain_jwt modulus_only calls provider
    ≡ spec_answers plain_jwt modulus_only calls
        (record { held = some keys; keys = keys; fetched_at = 5; interval = pos 100 })
provider-refines_example =
    provider-refines plain_jwt modulus_only endpoint (pos 100) 5 keys provider calls endpoint_gives
      makes_provider

abbrev text : Bytes
text = ascii "a.b.c"

abbrev token : Token plain_jwt
token = record { claims = 5; raw = text }

accepts :
    parse_verify_jwks plain_jwt modulus_only broken_endpoint
      (record provider { last_fetch = some 1 })
      4
      text
    ≡ called (record provider { last_fetch = some 1 }) (ok token)
unfolding parse_verify_jwks
accepts = refl

parse_verify_jwks-IsSound_example :
    (kid : Bytes) × (pk : Bytes) × (v : Bytes) × (plain_jwt.header_key_id text ≡ some kid)
    × (1 ≤ length kid)
    × (lookup kid provider.cache ≡ some pk)
    × (plain_jwt.new_verifier pk ≡ some v)
    × IsSound plain_jwt v text 4 token
parse_verify_jwks-IsSound_example =
    parse_verify_jwks-IsSound plain_jwt modulus_only broken_endpoint
      (record provider { last_fetch = some 1 }) (record provider { last_fetch = some 1 }) 4 text
      token accepts
