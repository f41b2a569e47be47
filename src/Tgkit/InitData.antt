-- ===== src/Tgkit/InitData.antt =====
-- tgkit/miniapp_auth.go: the fields of init data, its check string and its times. A time is its nanoseconds since the year 1, a duration its nanoseconds.
pub mod Validate
pub mod Authentic
pub mod Signed
mod Examples
use mathlib.Core.Option
use servekit.Prelude.{
  ℕ, zero, suc, ◌+◌, ◌*◌, Bool, true, false, not, ◌&&◌, ◌||◌, Option, none, some, List, [], ◌∷◌,
  ◌++◌, ltb, ◌==◌, if◌then◌else◌, ℤ, pos, negsuc, ◌+ℤ◌, leb_ℤ, ltb_ℤ, wrap64, int64_half, length,
  is_empty, any, Bytes, bytes_eq,
}
use servekit.GoText.{ascii, is_blank, parse_int}
use servekit.GoText.Query.{Field, parse_query, hex_decode, decimal}

pub data InitError : Type 0 where
  -- ErrInvalidMiniAppInitData, by message
  empty_bot_token : InitError
  bad_max_age : InitError
  bad_bot_id : InitError
  bad_environment : InitError
  empty_value : InitError
  too_long : InitError
  bad_query : InitError
  duplicate_field : InitError
  malformed_hash : InitError
  hash_mismatch : InitError
  missing_signature : InitError
  malformed_signature : InitError
  signature_mismatch : InitError
  bad_auth_date : InitError
  bad_can_send_after : InitError
  bad_user : InitError
  bad_receiver : InitError
  bad_chat : InitError
  -- ErrFutureMiniAppInitData, ErrExpiredMiniAppInitData
  future_data : InitError
  expired_data : InitError

pub data Checked {ℓ} (A : Type ℓ) : Type ℓ where
  good : A → Checked A
  bad : InitError → Checked A

abbrev pub max_init_data_bytes : ℕ
max_init_data_bytes = 16384

abbrev pub second : ℕ
second = 1000000000

abbrev pub future_clock_skew : ℤ
future_clock_skew = pos (30 * second)

-- values.Get(name): "" if it is missing
unfoldable pub get : Bytes → List Field → Bytes
get name [] = []
get name (f ∷ fs) = if bytes_eq f.name name then f.value else get name fs

unfoldable pub has_field : Bytes → List Field → Bool
has_field name fs = any (λ (f : Field). bytes_eq f.name name) fs

unfoldable pub has_duplicates : List Field → Bool
unfolding has_field
has_duplicates [] = false
has_duplicates (f ∷ fs) = has_field f.name fs || has_duplicates fs

unfoldable pub check_duplicates : Option (List Field) → Checked (List Field)
unfolding has_duplicates
check_duplicates none = bad bad_query
check_duplicates (some fs) = if has_duplicates fs then bad duplicate_field else good fs

unfoldable pub parse_values : Bytes → Checked (List Field)
unfolding check_duplicates
parse_values raw =
    if is_empty raw
    then bad empty_value
    else if ltb max_init_data_bytes (length raw)
    then bad too_long
    else check_duplicates (parse_query raw)

-- The order of slices.Sort on strings.
unfoldable pub key_leb : Bytes → Bytes → Bool
key_leb [] t = true
key_leb (x ∷ s) [] = false
key_leb (x ∷ s) (y ∷ t) = ltb x y || ((x == y) && key_leb s t)

unfoldable pub insert_field : Field → List Field → List Field
unfolding key_leb
insert_field f [] = f ∷ []
insert_field f (g ∷ gs) = if key_leb f.name g.name then f ∷ g ∷ gs else g ∷ insert_field f gs

-- The fields that are not excluded, by name.
unfoldable pub sorted_fields : List Bytes → List Field → List Field
unfolding insert_field
sorted_fields excluded [] = []
sorted_fields excluded (f ∷ fs) =
    let rest = sorted_fields excluded fs in
    if any (λ name. bytes_eq name f.name) excluded then rest else insert_field f rest

-- strings.Join of the fields, with newlines
unfoldable pub join_fields : List Field → Bytes
join_fields [] = []
join_fields (f ∷ []) = f.name ++ (b'=' ∷ f.value)
join_fields (f ∷ g ∷ gs) = f.name ++ (b'=' ∷ (f.value ++ (10 ∷ join_fields (g ∷ gs))))

unfoldable pub data_check_string : List Bytes → List Field → Bytes
unfolding sorted_fields join_fields
data_check_string excluded fs = join_fields (sorted_fields excluded fs)

-- The seconds of a time from Unix seconds, and `authDate` in nanoseconds since the year 1: the sum
-- wraps around.
unfoldable pub seconds_ns : ℤ → ℤ
seconds_ns (pos n) = pos (n * second)
seconds_ns (negsuc n) = negsuc (n * second + 999999999)

unfoldable pub unix : ℤ → ℤ
unfolding seconds_ns
unix s = seconds_ns (wrap64 (s +ℤ pos 62135596800))

unfoldable pub check_auth_date : Option ℤ → Checked ℤ
unfolding unix
check_auth_date none = bad bad_auth_date
check_auth_date (some s) = if leb_ℤ s (pos 0) then bad bad_auth_date else good (unix s)

unfoldable pub negated : ℤ → ℤ
negated (pos zero) = pos 0
negated (pos (suc n)) = negsuc n
negated (negsuc n) = pos (suc n)

-- now.Sub(t), which stops at the bounds of a Duration
unfoldable pub sub_time : ℤ → ℤ → ℤ
unfolding negated
sub_time now t =
    let d = now +ℤ negated t in
    if leb_ℤ (pos int64_half) d
    then pos 9223372036854775807
    else if ltb_ℤ d (negsuc 9223372036854775807)
    then negsuc 9223372036854775807
    else d

unfoldable pub validate_auth_date : ℤ → ℤ → ℤ → Option InitError
unfolding sub_time
validate_auth_date auth_date now max_age =
    if ltb_ℤ (now +ℤ future_clock_skew) auth_date
    then some future_data
    else if ltb_ℤ max_age (sub_time now auth_date)
    then some expired_data
    else none
