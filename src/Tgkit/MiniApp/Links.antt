-- ===== src/Tgkit/MiniApp/Links.antt =====
-- The start parameter of a link of tgkit/miniapp.go is read back from its query.
use servekit.Prelude.{
  ◌≤◌, ◌<◌, ◌≡◌, refl, true, false, not, ◌&&◌, some, List, [], ◌∷◌, ◌++◌, arith, length, is_empty,
  All, Bytes, ◌⊎◌, inl, inr,
}
use servekit.GoText.{ascii}
use servekit.GoText.Query.{Field, parse_field, parse_fields, parse_query}
use servekit.GoText.Escape.{
  query_escape, unescape-query_escape, IsClean, query_escape-IsClean, split_on_clean,
  split_on-append, no_semicolon,
}
use servekit.Tgkit.MiniApp.{
  done, MiniAppMode, mode_default, mode_compact, other_mode, valid_bot_username,
  valid_mini_app_short_name, username_of, start_part, mode_part, raw_query, link_path, link_string,
  is_known, join_query, mini_app_link,
}

abbrev pub start_field : Bytes → Field
start_field start = record { name = ascii "startapp"; value = start }

unfoldable pub mode_fields : MiniAppMode → List Field
mode_fields mode_compact = record { name = ascii "mode"; value = ascii "compact" } ∷ []
mode_fields _ = []

-- "startapp=" and the escaped parameter
unfoldable pub start_text : Bytes → Bytes
start_text start = ascii "startapp=" ++ query_escape start

parse_field-start_text :
    (start : Bytes)
    → All (λ c. c < 256) start
    → parse_field (start_text start) ≡ some (start_field start)
unfolding parse_field start_text
parse_field-start_text start h =
    let clean = no_semicolon (query_escape start) (query_escape-IsClean start h) in
    let back = unescape-query_escape start h in rw (clean, back) refl

start_text-IsClean : (start : Bytes) → All (λ c. c < 256) start → All IsClean (start_text start)
unfolding start_text IsClean
start_text-IsClean start h =
    let e : IsClean 0 = (refl, refl) in
    (e, (e, (e, (e, (e, (e, (e, (e, (e, query_escape-IsClean start h)))))))))

-- A field of a query, without a second one and before another.
parse_one :
    (s : Bytes) (f : Field)
    → All IsClean s
    → is_empty s ≡ false
    → parse_field s ≡ some f
    → parse_query s ≡ some (f ∷ [])
unfolding parse_query parse_fields
parse_one s f clean e p = rw (split_on_clean s clean, e, p) refl

parse_two :
    (s t : Bytes) (f : Field) (rest : List Field)
    → All IsClean s
    → is_empty s ≡ false
    → parse_field s ≡ some f
    → parse_query t ≡ some rest
    → parse_query (s ++ (b'&' ∷ t)) ≡ some (f ∷ rest)
unfolding parse_query parse_fields
parse_two s t f rest clean e p q = rw (split_on-append s t clean, e, p, q) refl

mode_parsed : parse_query (ascii "mode=compact") ≡ some (mode_fields mode_compact)
unfolding parse_query mode_fields
mode_parsed = refl

-- The query of a link with a start parameter.
raw_query-parsed :
    (short_name start : Bytes) (mode : MiniAppMode)
    → 1 ≤ length start
    → All (λ c. c < 256) start
    → parse_query (raw_query short_name start mode) ≡ some (start_field start ∷ mode_fields mode)
unfolding raw_query start_part mode_part join_query mode_fields start_text
raw_query-parsed short_name [] mode n h = absurd (omega arith)
raw_query-parsed short_name (c ∷ start) mode_default n h =
    parse_one (start_text (c ∷ start)) (start_field (c ∷ start)) (start_text-IsClean (c ∷ start) h)
      refl (parse_field-start_text (c ∷ start) h)
raw_query-parsed short_name (c ∷ start) (other_mode m) n h =
    parse_one (start_text (c ∷ start)) (start_field (c ∷ start)) (start_text-IsClean (c ∷ start) h)
      refl (parse_field-start_text (c ∷ start) h)
raw_query-parsed short_name (c ∷ start) mode_compact n h =
    parse_two (start_text (c ∷ start)) (ascii "mode=compact") (start_field (c ∷ start))
      (mode_fields mode_compact) (start_text-IsClean (c ∷ start) h) refl
      (parse_field-start_text (c ∷ start) h) mode_parsed

raw_query_starts :
    (short_name start : Bytes) (mode : MiniAppMode)
    → 1 ≤ length start
    → is_empty (raw_query short_name start mode) ≡ false
unfolding raw_query start_part mode_part join_query
raw_query_starts short_name [] mode n = absurd (omega arith)
raw_query_starts short_name (c ∷ start) mode_default n = refl
raw_query_starts short_name (c ∷ start) (other_mode m) n = refl
raw_query_starts short_name (c ∷ start) mode_compact n = refl

short_fine :
    (short_name : Bytes)
    → (short_name ≡ []) ⊎ (valid_mini_app_short_name short_name ≡ true)
    → (not (is_empty short_name) && not (valid_mini_app_short_name short_name)) ≡ false
short_fine [] s = refl
short_fine (c ∷ short_name) (inl e) = absurd cc
short_fine (c ∷ short_name) (inr e) = rw e refl

-- With a valid username, a short name that is empty or valid, a known mode and a start parameter
-- that is not empty, MiniAppLink makes a link to t.me with a query that url.ParseQuery reads as this
-- start parameter, followed by the compact mode if that was asked for.
pub mini_app_link-parsed :
    (name short_name start : Bytes) (mode : MiniAppMode)
    → valid_bot_username (username_of name) ≡ true
    → (short_name ≡ []) ⊎ (valid_mini_app_short_name short_name ≡ true)
    → is_known mode ≡ true
    → 1 ≤ length start
    → All (λ c. c < 256) start
    → (query : Bytes) × (mini_app_link name short_name start mode
        ≡ done
            (ascii "https://t.me" ++ (link_path (username_of name) short_name ++ (b'?' ∷ query))))
      × (parse_query query ≡ some (start_field start ∷ mode_fields mode))
unfolding mini_app_link link_string
mini_app_link-parsed name short_name start mode u s k n h =
    let starts = raw_query_starts short_name start mode n in
    (
      raw_query short_name start mode,
      rw (u, short_fine short_name s, k, starts) refl,
      raw_query-parsed short_name start mode n h,
    )
