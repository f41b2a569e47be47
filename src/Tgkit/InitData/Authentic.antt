-- ===== src/Tgkit/InitData/Authentic.antt =====
-- What the validators of tgkit/miniapp_auth.go let through.
use servekit.Prelude.{
  ◌≡◌, refl, ◌≤◌, false, Option, none, some, List, [], ◌∷◌, arith, ℤ, pos, ◌≤ℤ◌, ◌<ℤ◌, ◌+ℤ◌, length,
  Bytes, bytes_eq_sound, subst, sym, ap, ◌∙◌,
}
use servekit.GoText.{ascii, parse_int}
use servekit.GoText.Query.{Field, parse_query, hex_decode}
use servekit.Tgkit.InitData.{
  InitError, Checked, good, bad, get, parse_values, check_duplicates, has_duplicates,
  data_check_string, unix, check_auth_date, validate_auth_date, sub_time, future_clock_skew,
}
use servekit.Tgkit.InitData.Validate.{
  web_app_data_key, Validator, compare_hash, validate_hash, InitData, with_chat, with_receiver,
  with_user, with_after, with_auth_date, with_fields, unless_error, decode_init_data, validate_at,
}

unless_error-good :
    {A : Type 0} (o : Option InitError) (r : Checked A) (a : A)
    → unless_error o r ≡ good a
    → (o ≡ none) × (r ≡ good a)
unfolding unless_error
unless_error-good none r a h = (refl, h)
unless_error-good (some e) r a h = absurd (ground arith)

-- The date is a positive number of Unix seconds, not more than 30 seconds ahead of `now`,
-- and its age at `now` is at most `max_age`.
pub record IsFresh (fields : List Field) (now max_age auth_date : ℤ) : Type 0 where
  pub unix_seconds : ℤ
  pub written : parse_int (get (ascii "auth_date") fields) ≡ some unix_seconds
  pub positive : pos 0 <ℤ unix_seconds
  pub is_unix : auth_date ≡ unix unix_seconds
  pub not_future : auth_date ≤ℤ (now +ℤ future_clock_skew)
  pub not_expired : sub_time now auth_date ≤ℤ max_age

check_auth_date-good :
    (o : Option ℤ) (t : ℤ)
    → check_auth_date o ≡ good t
    → (s : ℤ) × (o ≡ some s) × (pos 0 <ℤ s) × (t ≡ unix s)
unfolding check_auth_date
check_auth_date-good none t h = absurd (ground arith)
check_auth_date-good (some s) t h = (s, refl, ground arith, ground arith)

validate_auth_date-none :
    (t now max_age : ℤ)
    → validate_auth_date t now max_age ≡ none
    → (t ≤ℤ (now +ℤ future_clock_skew)) × (sub_time now t ≤ℤ max_age)
unfolding validate_auth_date
validate_auth_date-none t now max_age h = (ground arith, ground arith)

module _ {User Chat : Type 0} (json_user : Bytes → Option User) (json_chat : Bytes → Option Chat)
    (raw : Bytes) (fields : List Field) (d : InitData User Chat) where
  -- What the data was made of.
  abbrev IsMadeOf : ℤ → Type 0
  IsMadeOf t = (d.raw ≡ raw) × (d.fields ≡ fields) × (d.auth_date ≡ t)

  with_chat-good :
      (t after : ℤ) (user receiver : Option User) (c : Checked (Option Chat))
      → with_chat json_user json_chat raw fields t after user receiver c ≡ good d
      → IsMadeOf t
  unfolding with_chat
  with_chat-good t after user receiver (bad e) h = absurd (ground arith)
  with_chat-good t after user receiver (good chat) h = (ground arith, ground arith, ground arith)

  with_receiver-good :
      (t after : ℤ) (user : Option User) (c : Checked (Option User))
      → with_receiver json_user json_chat raw fields t after user c ≡ good d
      → IsMadeOf t
  unfolding with_receiver
  with_receiver-good t after user (bad e) h = absurd (ground arith)
  with_receiver-good t after user (good receiver) h = with_chat-good t after user receiver _ h

  with_user-good :
      (t after : ℤ) (c : Checked (Option User))
      → with_user json_user json_chat raw fields t after c ≡ good d
      → IsMadeOf t
  unfolding with_user
  with_user-good t after (bad e) h = absurd (ground arith)
  with_user-good t after (good user) h = with_receiver-good t after user _ h

  with_after-good :
      (t : ℤ) (c : Checked ℤ) → with_after json_user json_chat raw fields t c ≡ good d → IsMadeOf t
  unfolding with_after
  with_after-good t (bad e) h = absurd (ground arith)
  with_after-good t (good after) h = with_user-good t after _ h

  with_auth_date-good :
      (now max_age : ℤ) (c : Checked ℤ)
      → with_auth_date json_user json_chat raw fields now max_age c ≡ good d
      → (t : ℤ) × (c ≡ good t) × (validate_auth_date t now max_age ≡ none) × IsMadeOf t
  unfolding with_auth_date
  with_auth_date-good now max_age (bad e) h = absurd (ground arith)
  with_auth_date-good now max_age (good t) h =
      let (window, k) = unless_error-good (validate_auth_date t now max_age) _ d h in
      (t, refl, window, with_after-good t _ k)

  decode-good :
      (now max_age : ℤ)
      → decode_init_data json_user json_chat raw fields now max_age ≡ good d
      → (d.raw ≡ raw) × (d.fields ≡ fields) × IsFresh fields now max_age d.auth_date
  unfolding decode_init_data
  decode-good now max_age h =
      let date = parse_int (get (ascii "auth_date") fields) in
      let (t, c, window, (r, f, e)) = with_auth_date-good now max_age (check_auth_date date) h in
      let (s, p, positive, u) = check_auth_date-good date t c in
      let (future, age) = validate_auth_date-none t now max_age window in
      (
        r,
        f,
        record {
          unix_seconds = s;
          written = p;
          positive = positive;
          is_unix = e ∙ u;
          not_future = subst (λ x. x ≤ℤ (now +ℤ future_clock_skew)) (sym e) future;
          not_expired = subst (λ x. sub_time now x ≤ℤ max_age) (sym e) age;
        },
      )

-- The text has at most 16384 bytes, and no field comes twice.
parse_values-good :
    (raw : Bytes) (fields : List Field)
    → parse_values raw ≡ good fields
    → (length raw ≤ 16384) × (has_duplicates fields ≡ false)
unfolding parse_values check_duplicates
parse_values-good raw fields h = (ground arith, once (parse_query raw) (ground arith))
  where
    once :
        (o : Option (List Field)) → check_duplicates o ≡ good fields → has_duplicates fields ≡ false
    once none k = absurd (ground arith)
    once (some fs) k = ground arith

-- The fields that were read from a text of at most 16384 bytes, each once, with a date that is fresh.
pub record IsReadFrom {User Chat : Type 0} (raw : Bytes) (now max_age : ℤ) (d : InitData User Chat)
    : Type 0 where
  pub kept : d.raw ≡ raw
  pub fields_read : parse_values raw ≡ good d.fields
  pub short : length raw ≤ 16384
  pub each_once : has_duplicates d.fields ≡ false
  pub fresh : IsFresh d.fields now max_age d.auth_date

module _ {User Chat : Type 0} (json_user : Bytes → Option User) (json_chat : Bytes → Option Chat)
    (check : List Field → Option InitError) (raw : Bytes) (now max_age : ℤ)
    (d : InitData User Chat) where
  pub with_fields-good :
      (c : Checked (List Field))
      → with_fields json_user json_chat check raw now max_age c ≡ good d
      → parse_values raw ≡ c
      → IsReadFrom raw now max_age d × (check d.fields ≡ none)
  unfolding with_fields
  with_fields-good (bad e) h p = absurd (ground arith)
  with_fields-good (good fields) h p =
      let (checked, k) = unless_error-good (check fields) _ d h in
      let (r, f, fresh) = decode-good json_user json_chat raw fields d now max_age k in
      let q : parse_values raw ≡ good d.fields = p ∙ ap good (sym f) in
      let (short, once) = parse_values-good raw d.fields q in
      (
        record {
          kept = r;
          fields_read = q;
          short = short;
          each_once = once;
          fresh = subst (λ x. IsFresh x now max_age d.auth_date) (sym f) fresh;
        },
        subst (λ x. check x ≡ none) (sym f) checked,
      )

-- The hash in the fields is the HMAC, under the key derived from the token, of all other fields.
pub record IsAuthentic (hmac : Bytes → Bytes → Bytes) (bot_token : Bytes) (fields : List Field)
    : Type 0 where
  pub received : Bytes
  pub received_hex : hex_decode (get (ascii "hash") fields) ≡ some received
  pub whole : length received ≡ 32
  pub matches :
      received
      ≡ hmac (hmac web_app_data_key bot_token) (data_check_string (ascii "hash" ∷ []) fields)

compare_hash-none :
    (o : Option Bytes) (digest : Bytes)
    → compare_hash o digest ≡ none
    → (received : Bytes) × (o ≡ some received) × (length received ≡ 32) × (received ≡ digest)
unfolding compare_hash
compare_hash-none none digest h = absurd (ground arith)
compare_hash-none (some received) digest h =
    (received, refl, ground arith, bytes_eq_sound received digest (ground arith))

validate_hash-none :
    (hmac : Bytes → Bytes → Bytes) (fields : List Field) (bot_token : Bytes)
    → validate_hash hmac fields bot_token ≡ none
    → IsAuthentic hmac bot_token fields
unfolding validate_hash
validate_hash-none hmac fields bot_token h =
    let (received, p, l, e) = compare_hash-none (hex_decode (get (ascii "hash") fields)) _ h in
    record { received = received; received_hex = p; whole = l; matches = e }

-- Init data that a MiniAppValidator accepts was read from a text of at most 16384 bytes with
-- no field twice; its hash is 32 bytes in
-- hexadecimal and the HMAC of all its other fields under the key derived from the bot token; its
-- date is positive, at most 30 seconds ahead of `now`, and at most the validator's age old.
pub validate_at-IsAuthentic :
    {User Chat : Type 0} (json_user : Bytes → Option User) (json_chat : Bytes → Option Chat)
    (hmac : Bytes → Bytes → Bytes) (v : Validator) (raw : Bytes) (now : ℤ) (d : InitData User Chat)
    → validate_at json_user json_chat hmac v raw now ≡ good d
    → IsReadFrom raw now v.max_age d × IsAuthentic hmac v.bot_token d.fields
unfolding validate_at
validate_at-IsAuthentic json_user json_chat hmac v raw now d h =
    let (r, checked) =
      with_fields-good json_user json_chat (λ fields. validate_hash hmac fields v.bot_token) raw now
        v.max_age d (parse_values raw) h refl in
    (r, validate_hash-none hmac d.fields v.bot_token checked)
