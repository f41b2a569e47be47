-- ===== src/Tgkit/MiniApp/Examples.antt =====
-- A concrete link of tgkit/miniapp.go.
use servekit.Prelude.{◌≡◌, refl, true, some, [], ◌∷◌, ◌++◌, arith, Bytes, inl}
use servekit.GoText.{ascii}
use servekit.GoText.Query.{parse_query}
use servekit.Tgkit.MiniApp.{
  done, failed, bad_username, mode_default, mode_compact, valid_bot_username, username_of, is_known,
  link_path, mini_app_link,
}
use servekit.Tgkit.MiniApp.Links.{start_field, mode_fields, mini_app_link-parsed}

abbrev shop : Bytes
shop = ascii " @shopbot"

abbrev start : Bytes
start = ascii "a b&c"

shop_link :
    mini_app_link shop [] start mode_compact
    ≡ done (ascii "https://t.me/shopbot?startapp=a+b%26c&mode=compact")
unfolding mini_app_link
shop_link = refl

main_link : mini_app_link shop [] [] mode_default ≡ done (ascii "https://t.me/shopbot?startapp")
unfolding mini_app_link
main_link = refl

no_bot : mini_app_link (ascii "@shop") [] [] mode_default ≡ failed bad_username
unfolding mini_app_link
no_bot = refl

shop_valid : valid_bot_username (username_of shop) ≡ true
unfolding valid_bot_username username_of
shop_valid = refl

compact_known : is_known mode_compact ≡ true
unfolding is_known
compact_known = refl

mini_app_link-parsed_example :
    (query : Bytes) × (mini_app_link shop [] start mode_compact
      ≡ done (ascii "https://t.me" ++ (link_path (username_of shop) [] ++ (b'?' ∷ query))))
    × (parse_query query ≡ some (start_field start ∷ mode_fields mode_compact))
mini_app_link-parsed_example =
    mini_app_link-parsed shop [] start mode_compact shop_valid (inl refl) compact_known
      (omega arith) (omega arith, (omega arith, (omega arith, (omega arith, (omega arith, tt)))))
