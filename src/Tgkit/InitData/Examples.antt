-- ===== src/Tgkit/InitData/Examples.antt =====
-- Concrete init data of tgkit/miniapp_auth.go.
use servekit.Prelude.{
  ℕ, zero, suc, refl, Bool, Option, none, some, [], ◌∷◌, ◌++◌, ltb, ℤ, pos, length, Bytes,
}
use servekit.Prelude.Int.{◌+ℤ◌, wrap64}
use servekit.GoText.{ascii, parse_int}
use servekit.GoText.Query.{parse_query, hex_decode, decimal}
use servekit.Tgkit.InitData.{
  get, check_auth_date, data_check_string, parse_values, validate_auth_date,
}
use servekit.Tgkit.InitData.Validate.{
  Validator, SignatureValidator, InitData, validate_at, validate_signature_at,
}
use servekit.Tgkit.InitData.Authentic.{IsReadFrom, IsAuthentic, validate_at-IsAuthentic}
use servekit.Tgkit.InitData.Signed.{IsSigned, validate_signature_at-IsSigned}

-- A stand-in for HMAC: 32 zeros, whatever the key and the message.
abbrev zeros : ℕ → Bytes
zeros zero = []
zeros (suc n) = 0 ∷ zeros n

abbrev toy_hmac : Bytes → Bytes → Bytes
toy_hmac key message = zeros 32

abbrev validator : Validator
validator = record { bot_token = ascii "12:ab"; max_age = pos 300000000000 }

abbrev zero_hash : Bytes
zero_hash = ascii "0000000000000000000000000000000000000000000000000000000000000000"

abbrev raw : Bytes
raw = ascii "user=Ann+B%21&auth_date=1000&hash=" ++ zero_hash

-- A JSON decoder that keeps the length of the text.
abbrev json_length : Bytes → Option ℕ
json_length s = some (length s)

-- Ten seconds after the date.
abbrev now : ℤ
now = pos 62135597810000000000

abbrev accepted : InitData ℕ ℕ
accepted = record {
  user = some 6;
  receiver = none;
  chat = none;
  can_send_after = pos 0;
  auth_date = pos 62135597800000000000;
  fields =
      record { name = ascii "user"; value = ascii "Ann B!" }
      ∷ record { name = ascii "auth_date"; value = ascii "1000" }
      ∷ record { name = ascii "hash"; value = zero_hash }
      ∷ [];
  raw = raw;
}

validate_at-IsAuthentic_example :
    IsReadFrom raw now (pos 300000000000) accepted
    × IsAuthentic toy_hmac (ascii "12:ab") accepted.fields
unfolding validate_at parse_values parse_query hex_decode get check_auth_date parse_int
    validate_auth_date ◌+ℤ◌ wrap64
validate_at-IsAuthentic_example =
    validate_at-IsAuthentic json_length json_length toy_hmac validator raw now accepted refl

abbrev text_signature : Bytes
text_signature = ascii "AAAAAAAAAAAAAAAAAAAAAAAAAAAAAAAAAAAAAAAAAAAAAAAAAAAAAAAAAAAAAAAA"

abbrev signed_raw : Bytes
signed_raw = ascii "auth_date=1000&signature=" ++ text_signature

abbrev third_party : SignatureValidator
third_party = record { bot_id = pos 42; public_key = 7 ∷ []; max_age = pos 300000000000 }

-- Stand-ins for base64, which keep the text, and for Ed25519, which looks at the message alone.
abbrev keep_text : Bytes → Option Bytes
keep_text s = some s

abbrev toy_verify : Bytes → Bytes → Bytes → Bool
toy_verify key message signature = ltb 10 (length message)

abbrev accepted_signed : InitData ℕ ℕ
accepted_signed = record {
  user = none;
  receiver = none;
  chat = none;
  can_send_after = pos 0;
  auth_date = pos 62135597800000000000;
  fields =
      record { name = ascii "auth_date"; value = ascii "1000" }
      ∷ record { name = ascii "signature"; value = text_signature }
      ∷ [];
  raw = signed_raw;
}

validate_signature_at-IsSigned_example :
    IsReadFrom signed_raw now (pos 300000000000) accepted_signed
    × IsSigned keep_text keep_text toy_verify third_party accepted_signed.fields
unfolding validate_signature_at parse_values parse_query get decimal data_check_string
    check_auth_date parse_int validate_auth_date ◌+ℤ◌ wrap64
validate_signature_at-IsSigned_example =
    validate_signature_at-IsSigned json_length json_length keep_text keep_text toy_verify
      third_party signed_raw now accepted_signed refl
