-- ===== src/Tgkit/InitData/Signed.antt =====
-- What the validator of signatures of tgkit/miniapp_auth.go lets through.
use servekit.Prelude.{◌≡◌, refl, Bool, true, Option, none, some, List, arith, ℤ, length, Bytes}
use servekit.GoText.{ascii}
use servekit.GoText.Query.{Field}
use servekit.Tgkit.InitData.{Checked, good, bad, get, parse_values}
use servekit.Tgkit.InitData.Validate.{
  SignatureValidator, InitData, validate_signature_at, decode_signature, or_else, check_signature,
  signed_message, verify_signature, validate_signature,
}
use servekit.Tgkit.InitData.Authentic.{IsReadFrom, with_fields-good}

-- A signature of 64 bytes that the key verifies on the bot and all fields but the hash and itself.
pub record IsSigned (raw_url url : Bytes → Option Bytes) (verify : Bytes → Bytes → Bytes → Bool)
    (v : SignatureValidator) (fields : List Field) : Type 0 where
  pub signature : Bytes
  pub decoded :
      or_else (raw_url (get (ascii "signature") fields)) (url (get (ascii "signature") fields))
      ≡ some signature
  pub whole : length signature ≡ 64
  pub verified : verify v.public_key (signed_message v.bot_id fields) signature ≡ true

check_signature-good :
    (o : Option Bytes) (s : Bytes) → check_signature o ≡ good s → (o ≡ some s) × (length s ≡ 64)
unfolding check_signature
check_signature-good none s h = absurd (ground arith)
check_signature-good (some r) s h = (ground arith, ground arith)

decode_signature-good :
    (raw_url url : Bytes → Option Bytes) (value s : Bytes)
    → decode_signature raw_url url value ≡ good s
    → check_signature (or_else (raw_url value) (url value)) ≡ good s
unfolding decode_signature
decode_signature-good raw_url url value s h = ground arith

verify_signature-none :
    (verify : Bytes → Bytes → Bytes → Bool) (key message : Bytes) (c : Checked Bytes)
    → verify_signature verify key message c ≡ none
    → (s : Bytes) × (c ≡ good s) × (verify key message s ≡ true)
unfolding verify_signature
verify_signature-none verify key message (bad e) h = absurd (ground arith)
verify_signature-none verify key message (good s) h = (s, refl, ground arith)

validate_signature-none :
    (raw_url url : Bytes → Option Bytes) (verify : Bytes → Bytes → Bytes → Bool)
    (v : SignatureValidator) (fields : List Field)
    → validate_signature raw_url url verify fields v.bot_id v.public_key ≡ none
    → IsSigned raw_url url verify v fields
unfolding validate_signature
validate_signature-none raw_url url verify v fields h =
    let value = get (ascii "signature") fields in
    let (s, p, k) =
      verify_signature-none verify v.public_key (signed_message v.bot_id fields)
        (decode_signature raw_url url value) h in
    let (d, l) =
      check_signature-good (or_else (raw_url value) (url value)) s
        (decode_signature-good raw_url url value s p) in
    record { signature = s; decoded = d; whole = l; verified = k }

-- Init data that a MiniAppSignatureValidator accepts was read from a text of at most 16384 bytes with
-- no field twice; the public key verifies its signature of 64 bytes on the bot's ID and all fields but
-- the hash and the signature; its date
-- is positive, at most 30 seconds ahead of `now`, and at most the validator's age old.
pub validate_signature_at-IsSigned :
    {User Chat : Type 0} (json_user : Bytes → Option User) (json_chat : Bytes → Option Chat)
    (raw_url url : Bytes → Option Bytes) (verify : Bytes → Bytes → Bytes → Bool)
    (v : SignatureValidator) (raw : Bytes) (now : ℤ) (d : InitData User Chat)
    → validate_signature_at json_user json_chat raw_url url verify v raw now ≡ good d
    → IsReadFrom raw now v.max_age d × IsSigned raw_url url verify v d.fields
unfolding validate_signature_at
validate_signature_at-IsSigned json_user json_chat raw_url url verify v raw now d h =
    let (r, checked) =
      with_fields-good json_user json_chat
        (λ fields. validate_signature raw_url url verify fields v.bot_id v.public_key) raw now
        v.max_age d (parse_values raw) h refl in
    (r, validate_signature-none raw_url url verify v d.fields checked)
