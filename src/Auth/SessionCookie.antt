-- ===== src/Auth/SessionCookie.antt =====
-- apps/auth/src/a2/session-cookie.ts: the cookie that carries a session token.
pub mod Parts
pub mod RoundTrip
use kovcheg.Base.{
  ◌||◌, ℕ, suc, ◌+◌, ◌/◌, Bool, true, false, ◌&&◌, not, Option, none, some, List, [], ◌∷◌, ◌++◌,
  Result, ok, err, ltb, ◌==◌, length, if◌then◌else◌,
}
use kovcheg.Text.{Text, codes}
use kovcheg.Text.Whitespace.{trim}
use kovcheg.Text.Splitting.{index_of, take, drop, split, join, is_base64url, matches_class}
use kovcheg.Text.Numerals.{decimal}
use kovcheg.Dict.{Dict, get, has, set}
use kovcheg.Auth.Service.Policy.{AuthErrorCode}

pub data Environment : Type 0 where
  development production test : Environment

pub record SessionCookieOptions : Type 0 where
  pub absolute_lifetime_ms : ℕ
  pub environment : Environment
  pub secure : Bool

-- `part.slice(0, separator).trim()`, and the empty text where the source goes on to the next part
abbrev pub part_name : Text → Text
part_name part = elim (index_of b'=' part) [
  | none ↦ []
  | some separator ↦ trim (take separator part)
]

-- The first value of a name stays.
unfoldable pub add_cookie : Text → Text → Dict Text → Dict Text
add_cookie name value cookies =
    if ltb 0 (length name) && not (has name cookies) then set name value cookies else cookies

-- The body of the loop, after `const separator = part.indexOf('=')`.
abbrev pub read_part_at : Text → Dict Text → Option ℕ → Dict Text
read_part_at part cookies none = cookies
read_part_at part cookies (some separator) =
    if ltb separator 1
    then cookies
    else add_cookie (part_name part) (trim (drop (suc separator) part)) cookies

unfoldable pub read_part : Text → Dict Text → Dict Text
read_part part cookies = read_part_at part cookies (index_of b'=' part)

unfoldable pub read_parts : List Text → Dict Text → Dict Text
read_parts [] cookies = cookies
read_parts (part ∷ parts) cookies = read_parts parts (read_part part cookies)

unfoldable pub parse_cookie_header : Option Text → Dict Text
parse_cookie_header none = []
parse_cookie_header (some header) = read_parts (split b';' header) []

-- `/^[A-Za-z0-9_-]{32,512}$/`
abbrev pub is_session_token : Text → Bool
is_session_token = matches_class is_base64url 32 512

abbrev pub cookie_name : SessionCookieOptions → Text
cookie_name options =
    if options.secure then codes "__Host-kovcheg_session" else codes "kovcheg_session"

-- `Math.ceil(options.absoluteLifetimeMs / 1000)`
abbrev pub max_age_seconds : SessionCookieOptions → ℕ
max_age_seconds options = (options.absolute_lifetime_ms + 999) / 1000

-- `Number.MAX_SAFE_INTEGER`
abbrev maximum_safe_integer : ℕ
maximum_safe_integer = 9007199254740991

-- The checks of the constructor.
unfoldable pub new_session_cookie : SessionCookieOptions → Result AuthErrorCode SessionCookieOptions
new_session_cookie options =
    if options.absolute_lifetime_ms == 0 || ltb maximum_safe_integer options.absolute_lifetime_ms
    then err AuthErrorCode.invalid_input
    else elim options.environment [
      | production ↦ if options.secure then ok options else err AuthErrorCode.invalid_input
      | development ↦ ok options
      | test ↦ ok options
    ]

unfoldable pub serialize : SessionCookieOptions → Text → ℕ → Text
serialize options value max_age = join (codes "; ") (
    (cookie_name options ++ (b'=' ∷ value))
    ∷ codes "Path=/"
    ∷ codes "HttpOnly"
    ∷ codes "SameSite=Lax"
    ∷ (codes "Max-Age=" ++ decimal max_age)
    ∷ (if options.secure then codes "Secure" ∷ [] else []))

unfoldable pub clear : SessionCookieOptions → Text
unfolding serialize
clear options = serialize options [] 0

unfoldable pub issue : SessionCookieOptions → Text → Result AuthErrorCode Text
issue options session_token =
    if is_session_token session_token
    then ok (serialize options session_token (max_age_seconds options))
    else err AuthErrorCode.invalid_input

-- `token !== undefined && pattern.test(token) ? token : null`
abbrev pub valid_or_null : Option Text → Option Text
valid_or_null none = none
valid_or_null (some token) = if is_session_token token then some token else none

unfoldable pub read : SessionCookieOptions → Option Text → Option Text
read options header = valid_or_null (get (cookie_name options) (parse_cookie_header header))
