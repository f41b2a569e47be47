-- ===== src/Tgkit/InitData/Validate.antt =====
-- tgkit/miniapp_auth.go: the validators of init data. HMAC-SHA-256, Ed25519, base64 and JSON are
-- parameters.
use mathlib.Core.Option
use servekit.Prelude.{
  ℕ, ◌+◌, Bool, not, Option, none, some, List, [], ◌∷◌, ◌++◌, ◌==◌, if◌then◌else◌, ℤ, pos, negsuc,
  leb_ℤ, ltb_ℤ, wrap64, length, is_empty, Bytes, bytes_eq,
}
use servekit.GoText.{ascii, is_blank, parse_int}
use servekit.GoText.Query.{Field, hex_decode, decimal}
use servekit.Tgkit.InitData.{
  InitError, empty_bot_token, bad_max_age, bad_bot_id, bad_environment, malformed_hash,
  hash_mismatch, missing_signature, malformed_signature, signature_mismatch, bad_can_send_after,
  bad_user, bad_receiver, bad_chat, Checked, good, bad, get, parse_values, data_check_string,
  seconds_ns, check_auth_date, validate_auth_date,
}

abbrev pub web_app_data_key : Bytes
web_app_data_key = ascii "WebAppData"

pub record Validator : Type 0 where
  pub bot_token : Bytes
  pub max_age : ℤ

unfoldable pub new_validator : Bytes → ℤ → Checked Validator
new_validator bot_token max_age =
    if is_blank bot_token
    then bad empty_bot_token
    else if leb_ℤ max_age (pos 0)
    then bad bad_max_age
    else good (record { bot_token = bot_token; max_age = max_age })

pub record SignatureValidator : Type 0 where
  pub bot_id : ℤ
  pub public_key : Bytes
  pub max_age : ℤ

-- A MiniAppEnvironment is a uint8. The constants are hexadecimal, so decoding them does not fail.
unfoldable pub public_key_hex : ℕ → Option Bytes
public_key_hex environment =
    if environment == 0
    then some (ascii "e7bf03a2fa4602af4580703d88dda5bb59f32ed8b02a56c187fe7d34caed242d")
    else if environment == 1
    then some (ascii "40055058a4ee38156a06562e52eece92a771bcd8346a8c4615cb7376eddf72ec")
    else none

unfoldable pub with_key : ℤ → ℤ → Option Bytes → Checked SignatureValidator
with_key bot_id max_age none = bad bad_environment
with_key bot_id max_age (some key) =
    good (record { bot_id = bot_id; public_key = key; max_age = max_age })

unfoldable pub new_signature_validator : ℤ → ℕ → ℤ → Checked SignatureValidator
unfolding with_key public_key_hex
new_signature_validator bot_id environment max_age =
    if leb_ℤ bot_id (pos 0)
    then bad bad_bot_id
    else if leb_ℤ max_age (pos 0)
    then bad bad_max_age
    else with_key bot_id max_age (Option.bind (public_key_hex environment) hex_decode)

-- strconv.FormatInt(id, 10); an int64 has at most 19 digits.
unfoldable pub format_int : ℤ → Bytes
format_int (pos n) = decimal 19 n
format_int (negsuc n) = b'-' ∷ decimal 19 (n + 1)

unfoldable pub check_can_send_after : Option ℤ → Checked ℤ
unfolding seconds_ns
check_can_send_after none = bad bad_can_send_after
check_can_send_after (some s) =
    if ltb_ℤ s (pos 0) then bad bad_can_send_after else good (wrap64 (seconds_ns s))

unfoldable pub parse_optional_seconds : Bytes → Checked ℤ
unfolding check_can_send_after
parse_optional_seconds value =
    if is_empty value then good (pos 0) else check_can_send_after (parse_int value)

-- The checks of `receivedHash`.
unfoldable pub compare_hash : Option Bytes → Bytes → Option InitError
compare_hash none digest = some malformed_hash
compare_hash (some received) digest =
    if not (length received == 32)
    then some malformed_hash
    else if bytes_eq received digest
    then none
    else some hash_mismatch

-- `hmac key message` is HMAC-SHA-256.
unfoldable pub validate_hash : (Bytes → Bytes → Bytes) → List Field → Bytes → Option InitError
unfolding compare_hash
validate_hash hmac fields bot_token =
    compare_hash (hex_decode (get (ascii "hash") fields))
      (hmac (hmac web_app_data_key bot_token) (data_check_string (ascii "hash" ∷ []) fields))

unfoldable pub or_else : Option Bytes → Option Bytes → Option Bytes
or_else none o = o
or_else (some s) o = some s

unfoldable pub check_signature : Option Bytes → Checked Bytes
check_signature none = bad malformed_signature
check_signature (some s) = if length s == 64 then good s else bad malformed_signature

-- `raw_url` and `url` are base64.RawURLEncoding and base64.URLEncoding.
unfoldable pub decode_signature :
    (Bytes → Option Bytes) → (Bytes → Option Bytes) → Bytes → Checked Bytes
unfolding or_else check_signature
decode_signature raw_url url value =
    if is_empty value
    then bad missing_signature
    else check_signature (or_else (raw_url value) (url value))

-- The message that Telegram signs.
unfoldable pub signed_message : ℤ → List Field → Bytes
unfolding format_int
signed_message bot_id fields =
    (format_int bot_id ++ (b':' ∷ (web_app_data_key ++ (10 ∷ []))))
    ++ data_check_string (ascii "hash" ∷ ascii "signature" ∷ []) fields

unfoldable pub verify_signature :
    (Bytes → Bytes → Bytes → Bool) → Bytes → Bytes → Checked Bytes → Option InitError
verify_signature verify key message (bad e) = some e
verify_signature verify key message (good signature) =
    if verify key message signature then none else some signature_mismatch

unfoldable pub validate_signature :
    (Bytes → Option Bytes)
    → (Bytes → Option Bytes)
    → (Bytes → Bytes → Bytes → Bool)
    → List Field
    → ℤ
    → Bytes
    → Option InitError
unfolding verify_signature decode_signature signed_message
validate_signature raw_url url verify fields bot_id key =
    verify_signature verify key (signed_message bot_id fields)
      (decode_signature raw_url url (get (ascii "signature") fields))

-- The texts of the fields that are copied are read from `fields`.
pub record InitData (User Chat : Type 0) : Type 0 where
  pub user : Option User
  pub receiver : Option User
  pub chat : Option Chat
  pub can_send_after : ℤ
  pub auth_date : ℤ
  pub fields : List Field
  pub raw : Bytes

unfoldable pub decode_optional :
    {A : Type 0} → (Bytes → Option A) → InitError → Bytes → Checked (Option A)
decode_optional json e value =
    if is_empty value
    then good none
    else elim (json value) [ none ↦ bad e | some a ↦ good (some a) ]

unfoldable pub unless_error : {A : Type 0} → Option InitError → Checked A → Checked A
unless_error none r = r
unless_error (some e) r = bad e

-- `decodeMiniAppInitData`, one step after the other.
module _ {User Chat : Type 0} (json_user : Bytes → Option User) (json_chat : Bytes → Option Chat)
    (raw : Bytes) (fields : List Field) where
  unfoldable pub with_chat :
      ℤ → ℤ → Option User → Option User → Checked (Option Chat) → Checked (InitData User Chat)
  with_chat t after user receiver (bad e) = bad e
  with_chat t after user receiver (good chat) = good (record {
    user = user;
    receiver = receiver;
    chat = chat;
    can_send_after = after;
    auth_date = t;
    fields = fields;
    raw = raw;
  })

  unfoldable pub with_receiver :
      ℤ → ℤ → Option User → Checked (Option User) → Checked (InitData User Chat)
  unfolding with_chat decode_optional
  with_receiver t after user (bad e) = bad e
  with_receiver t after user (good receiver) =
      with_chat t after user receiver
        (decode_optional json_chat bad_chat (get (ascii "chat") fields))

  unfoldable pub with_user : ℤ → ℤ → Checked (Option User) → Checked (InitData User Chat)
  unfolding with_receiver decode_optional
  with_user t after (bad e) = bad e
  with_user t after (good user) =
      with_receiver t after user
        (decode_optional json_user bad_receiver (get (ascii "receiver") fields))

  unfoldable pub with_after : ℤ → Checked ℤ → Checked (InitData User Chat)
  unfolding with_user decode_optional
  with_after t (bad e) = bad e
  with_after t (good after) =
      with_user t after (decode_optional json_user bad_user (get (ascii "user") fields))

  unfoldable pub with_auth_date : ℤ → ℤ → Checked ℤ → Checked (InitData User Chat)
  unfolding with_after unless_error parse_optional_seconds
  with_auth_date now max_age (bad e) = bad e
  with_auth_date now max_age (good t) =
      unless_error (validate_auth_date t now max_age)
        (with_after t (parse_optional_seconds (get (ascii "can_send_after") fields)))

  unfoldable pub decode_init_data : ℤ → ℤ → Checked (InitData User Chat)
  unfolding with_auth_date
  decode_init_data now max_age =
      with_auth_date now max_age (check_auth_date (parse_int (get (ascii "auth_date") fields)))

module _ {User Chat : Type 0} (json_user : Bytes → Option User)
    (json_chat : Bytes → Option Chat) where
  -- What follows the fields, by how they are authenticated.
  unfoldable pub with_fields :
      (List Field → Option InitError)
      → Bytes
      → ℤ
      → ℤ
      → Checked (List Field)
      → Checked (InitData User Chat)
  unfolding unless_error decode_init_data
  with_fields check raw now max_age (bad e) = bad e
  with_fields check raw now max_age (good fields) =
      unless_error (check fields) (decode_init_data json_user json_chat raw fields now max_age)

  -- `ValidateAt` of a MiniAppValidator.
  unfoldable pub validate_at :
      (Bytes → Bytes → Bytes) → Validator → Bytes → ℤ → Checked (InitData User Chat)
  unfolding with_fields validate_hash
  validate_at hmac v raw now =
      with_fields (λ fields. validate_hash hmac fields v.bot_token) raw now v.max_age
        (parse_values raw)

  -- `ValidateAt` of a MiniAppSignatureValidator.
  unfoldable pub validate_signature_at :
      (Bytes → Option Bytes)
      → (Bytes → Option Bytes)
      → (Bytes → Bytes → Bytes → Bool)
      → SignatureValidator
      → Bytes
      → ℤ
      → Checked (InitData User Chat)
  unfolding with_fields validate_signature
  validate_signature_at raw_url url verify v raw now =
      with_fields (λ fields. validate_signature raw_url url verify fields v.bot_id v.public_key) raw
        now v.max_age (parse_values raw)

-- What the middleware does with a request, by what validating its header gave.
pub data Handled (A : Type 0) : Type 0 where
  unauthorized_401 : Handled A
  next_with : A → Handled A

unfoldable pub mini_app_middleware : {A : Type 0} → (Bytes → Checked A) → Bytes → Handled A
mini_app_middleware validate header = elim (validate header) [
  | bad e ↦ unauthorized_401
  | good a ↦ next_with a
]
