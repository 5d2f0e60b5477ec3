-- ===== src/Auth/Tests/SessionCookie.antt =====
-- A session cookie in a header with two others.
use kovcheg.Base.{◌≡◌, refl, ◌++◌, [], ◌∷◌, true, some, none, ok, all}
use kovcheg.Text.{Text, codes, text_discrete}
use kovcheg.Text.Whitespace.{trim, is_whitespace}
use kovcheg.Text.Splitting.{join, split, index_of, is_base64url}
use kovcheg.Text.Numerals.{decimal}
use kovcheg.Dict.{get, set}
use kovcheg.Auth.SessionCookie.{
  SessionCookieOptions, is_session_token, issue, read, clear, serialize, parse_cookie_header,
  read_parts, read_part, add_cookie, production,
}
use kovcheg.Auth.SessionCookie.RoundTrip.{kept_pair, is_other_pair, read-issue}

abbrev options : SessionCookieOptions
options = record { absolute_lifetime_ms = 2592000000; environment = production; secure = true }

abbrev token : Text
token = codes "abcdefghijklmnopqrstuvwxyz_-0123"

is_token : is_session_token token ≡ true
unfolding is_base64url
is_token = refl

all_other : all (is_other_pair options) (codes "theme=dark" ∷ []) ≡ true
unfolding index_of trim is_whitespace text_discrete
all_other = refl

read-issue_example :
    (set_cookie : Text) × (issue options token ≡ ok set_cookie)
    × (read options (
          some (
            join (codes "; ") (
              (codes "theme=dark" ∷ [])
              ++ (kept_pair set_cookie ∷ codes "__Host-kovcheg_session=forged" ∷ []))))
        ≡ some token)
read-issue_example =
    read-issue options token (codes "theme=dark" ∷ []) (codes "__Host-kovcheg_session=forged" ∷ [])
      is_token all_other refl

issued :
    issue options token
    ≡ ok (
        codes
          "__Host-kovcheg_session=abcdefghijklmnopqrstuvwxyz_-0123; Path=/; HttpOnly; SameSite=Lax; Max-Age=2592000; Secure")
unfolding issue serialize join decimal is_base64url
issued = refl

cleared : read options (some (kept_pair (clear options))) ≡ none
unfolding clear read kept_pair serialize join decimal is_base64url parse_cookie_header split
    read_parts read_part add_cookie get set text_discrete index_of trim is_whitespace
cleared = refl
