-- ===== src/Jwtkit/Keys.antt =====
-- authkit/jwtkit/jwks.go: the keys of a document, the cache that is made of them, and fetching.
use servekit.Prelude.{
  ℕ, ◌+◌, ◌*◌, ◌==◌, ℤ, pos, wrap64, Bool, true, Option, none, some, List, [], ◌∷◌, if◌then◌else◌,
  Bytes, bytes_eq,
}
use servekit.GoText.{ascii}

pub record Key : Type 0 where
  pub usage : Bytes
  pub kty : Bytes
  pub kid : Bytes
  pub alg : Bytes
  pub n : Bytes
  pub e : Bytes

module _ {PublicKey : Type 0} where
  -- A map from key IDs: the first entry counts.
  unfoldable pub lookup : Bytes → List (Bytes × PublicKey) → Option PublicKey
  lookup kid [] = none
  lookup kid (entry ∷ cache) =
      let rest = lookup kid cache in if bytes_eq entry.0 kid then some entry.1 else rest

  unfoldable pub put :
      Bytes → Option PublicKey → List (Bytes × PublicKey) → List (Bytes × PublicKey)
  put kid none cache = cache
  put kid (some pk) cache = (kid, pk) ∷ cache

  -- The loop of `refresh`: keys of other types, and those that cannot be converted, are passed over.
  unfoldable pub add_keys :
      (Bytes → Bytes → Option PublicKey)
      → List Key
      → List (Bytes × PublicKey)
      → List (Bytes × PublicKey)
  unfolding put
  add_keys convert [] cache = cache
  add_keys convert (key ∷ keys) cache =
      add_keys convert keys
        (if bytes_eq key.kty (ascii "RSA") then put key.kid (convert key.e key.n) cache else cache)

-- big.Int.SetBytes
unfoldable pub number_from : ℕ → Bytes → ℕ
number_from n [] = n
number_from n (b ∷ s) = number_from (n * 256 + b) s

unfoldable pub made_key :
    {PublicKey : Type 0} → (ℕ → ℤ → PublicKey) → Option Bytes → Option Bytes → Option PublicKey
unfolding number_from
made_key rsa none n = none
made_key rsa (some e) none = none
made_key rsa (some e) (some n) = some (rsa (number_from 0 n) (wrap64 (pos (number_from 0 e))))

-- `convertKey`, with base64.RawURLEncoding.DecodeString and the type of keys as parameters; the
-- exponent is the low 64 bits of its number.
unfoldable pub convert_key :
    {PublicKey : Type 0}
    → (Bytes → Option Bytes)
    → (ℕ → ℤ → PublicKey)
    → Bytes
    → Bytes
    → Option PublicKey
unfolding made_key
convert_key decode rsa e n = made_key rsa (decode e) (decode n)

-- What `fetchJWKS` leaves in the key store, a pointer, and whether it fails.
pub record Fetched : Type 0 where
  pub store : Option (List Key)
  pub failed : Bool

-- An endpoint's response: its status, and json.Decoder on its body and the key store that is there.
pub record JwksResponse : Type 0 where
  pub status : ℕ
  pub decode : Option (List Key) → Fetched

-- Whether the request can be made, and what http.Client.Do gives; an error, and a nil response, are
-- `none`.
pub record Endpoint : Type 0 where
  pub can_request : Bool
  pub response : Option JwksResponse

unfoldable pub decode_response : Option JwksResponse → Option (List Key) → Fetched
decode_response none store = record { store = store; failed = true }
decode_response (some r) store =
    if r.status == 200 then r.decode store else record { store = store; failed = true }

-- `fetchJWKS`
unfoldable pub fetch_jwks : Endpoint → Option (List Key) → Fetched
unfolding decode_response
fetch_jwks e store =
    if e.can_request
    then decode_response e.response store
    else record { store = store; failed = true }
