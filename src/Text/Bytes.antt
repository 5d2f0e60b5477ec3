-- ===== src/Text/Bytes.antt =====
-- `Buffer.from(text, 'utf8')` and `buffer.toString('base64url')`, over lists of byte values.
use kovcheg.Base.{
  ℕ, ◌+◌, ◌-◌, ◌*◌, ◌/◌, ◌%◌, ◌≡◌, refl, Bool, true, false, ◌&&◌, List, [], ◌∷◌, ltb, leb, ◌==◌,
  if◌then◌else◌,
}
use kovcheg.Text.{Text, codes, text_discrete}

is_high_surrogate : ℕ → Bool
is_high_surrogate u = leb 0xd800 u && ltb u 0xdc00

is_low_surrogate : ℕ → Bool
is_low_surrogate u = leb 0xdc00 u && ltb u 0xe000

-- The bytes of one code point, before those of the rest.
utf8_point : ℕ → List ℕ → List ℕ
utf8_point c rest =
    if ltb c 0x80
    then c ∷ rest
    else if ltb c 0x800
    then (0xc0 + c / 64) ∷ (0x80 + c % 64) ∷ rest
    else if ltb c 0x10000
    then (0xe0 + c / 4096) ∷ (0x80 + c / 64 % 64) ∷ (0x80 + c % 64) ∷ rest
    else (0xf0 + c / 262144)
      ∷ (0x80 + c / 4096 % 64)
      ∷ (0x80 + c / 64 % 64)
      ∷ (0x80 + c % 64)
      ∷ rest

-- The code points of a string. A surrogate with no partner becomes U+FFFD.
points : Text → List ℕ
unfolding is_high_surrogate is_low_surrogate
points [] = []
points (u ∷ []) =
    (if is_high_surrogate u then 0xfffd else if is_low_surrogate u then 0xfffd else u) ∷ []
points (u ∷ v ∷ rest) =
    let alone = points (v ∷ rest) in
    let paired = points rest in
    if is_high_surrogate u && is_low_surrogate v
    then (0x10000 + (u - 0xd800) * 1024 + (v - 0xdc00)) ∷ paired
    else (if is_high_surrogate u then 0xfffd else if is_low_surrogate u then 0xfffd else u) ∷ alone

utf8_points : List ℕ → List ℕ
unfolding utf8_point
utf8_points [] = []
utf8_points (c ∷ cs) = utf8_point c (utf8_points cs)

unfoldable pub utf8 : Text → List ℕ
unfolding points utf8_points
utf8 t = utf8_points (points t)

-- `timingSafeEqual`, on buffers of one length
abbrev pub bytes_eq : List ℕ → List ℕ → Bool
bytes_eq a b = elim (text_discrete a b) [ yes _ ↦ true | no _ ↦ false ]

-- The base64url digit of a value below 64.
unfoldable pub base64url_digit : ℕ → ℕ
base64url_digit d =
    if ltb d 26
    then b'A' + d
    else if ltb d 52
    then b'a' + (d - 26)
    else if ltb d 62
    then b'0' + (d - 52)
    else if ltb d 63
    then b'-'
    else b'_'

unfoldable pub base64url : List ℕ → Text
unfolding base64url_digit
base64url [] = []
base64url (a ∷ []) = base64url_digit (a / 4) ∷ base64url_digit (a % 4 * 16) ∷ []
base64url (a ∷ b ∷ []) =
    base64url_digit (a / 4)
    ∷ base64url_digit (a % 4 * 16 + b / 16)
    ∷ base64url_digit (b % 16 * 4)
    ∷ []
base64url (a ∷ b ∷ c ∷ rest) =
    base64url_digit (a / 4)
    ∷ base64url_digit (a % 4 * 16 + b / 16)
    ∷ base64url_digit (b % 16 * 4 + c / 64)
    ∷ base64url_digit (c % 64)
    ∷ base64url rest

-- The value of a base64url digit.
unfoldable pub base64url_value : ℕ → ℕ
base64url_value u =
    if leb b'A' u && leb u b'Z'
    then u - b'A'
    else if leb b'a' u && leb u b'z'
    then u - b'a' + 26
    else if leb b'0' u && leb u b'9'
    then u - b'0' + 52
    else if u == b'-'
    then 62
    else 63

-- `Buffer.from(text, 'base64url')`, on a text of base64url digits. Bits that fill no byte are left.
unfoldable pub base64url_bytes : Text → List ℕ
unfolding base64url_value
base64url_bytes [] = []
base64url_bytes (a ∷ []) = []
base64url_bytes (a ∷ b ∷ []) = (base64url_value a * 4 + base64url_value b / 16) ∷ []
base64url_bytes (a ∷ b ∷ c ∷ []) =
    (base64url_value a * 4 + base64url_value b / 16)
    ∷ (base64url_value b % 16 * 16 + base64url_value c / 4)
    ∷ []
base64url_bytes (a ∷ b ∷ c ∷ d ∷ rest) =
    (base64url_value a * 4 + base64url_value b / 16)
    ∷ (base64url_value b % 16 * 16 + base64url_value c / 4)
    ∷ (base64url_value c % 4 * 64 + base64url_value d)
    ∷ base64url_bytes rest

utf8_two_bytes : utf8 (0x41 ∷ 0xe9 ∷ []) ≡ 0x41 ∷ 0xc3 ∷ 0xa9 ∷ []
unfolding utf8
utf8_two_bytes = refl

utf8_pair : utf8 (0xd83d ∷ 0xde00 ∷ []) ≡ 0xf0 ∷ 0x9f ∷ 0x98 ∷ 0x80 ∷ []
unfolding utf8
utf8_pair = refl

base64url_hello : base64url (codes "hello?>") ≡ codes "aGVsbG8_Pg"
unfolding base64url
base64url_hello = refl
