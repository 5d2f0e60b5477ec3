-- ===== src/Text/Base64.antt =====
-- Bytes are read back from their base64url.
use kovcheg.Base.{
  ℕ, ◌+◌, ◌*◌, ◌/◌, ◌%◌, ◌≤◌, ◌<◌, ◌≡◌, refl, ap, ◌∙◌, Bool, true, List, [], ◌∷◌, arith, ltb, all,
  all-cons, all-cons_intro, length, ltb→lt,
}
use kovcheg.Text.{Text}
use kovcheg.Text.Bytes.{base64url, base64url_bytes, base64url_digit, base64url_value}
use kovcheg.Text.Splitting.{is_base64url}

base64url_value-digit : (d : ℕ) → d < 64 → base64url_value (base64url_digit d) ≡ d
unfolding base64url_value base64url_digit
base64url_value-digit d h = ground (arith, h)

base64url_digit-plain : (d : ℕ) → d < 64 → is_base64url (base64url_digit d) ≡ true
unfolding is_base64url base64url_digit
base64url_digit-plain d h = ground (arith, h)

abbrev pub is_byte : ℕ → Bool
is_byte b = ltb b 256

below : (b : ℕ) → is_byte b ≡ true → b < 256
below b h = ltb→lt b 256 h

-- The first byte of two digits, of three, and the last of four.
first_byte :
    (a x : ℕ)
    → a < 256
    → x < 16
    → base64url_value (base64url_digit (a / 4)) * 4
        + base64url_value (base64url_digit (a % 4 * 16 + x)) / 16
      ≡ a
first_byte a x h k = omega (
  arith,
  h,
  k,
  base64url_value-digit (a / 4) (omega (arith, h)),
  base64url_value-digit (a % 4 * 16 + x) (omega (arith, h, k)),
)

middle_byte :
    (a b x : ℕ)
    → a < 256
    → b < 256
    → x < 4
    → base64url_value (base64url_digit (a % 4 * 16 + b / 16)) % 16 * 16
        + base64url_value (base64url_digit (b % 16 * 4 + x)) / 4
      ≡ b
middle_byte a b x h k l = omega (
  arith,
  h,
  k,
  l,
  base64url_value-digit (a % 4 * 16 + b / 16) (omega (arith, h, k)),
  base64url_value-digit (b % 16 * 4 + x) (omega (arith, k, l)),
)

first_byte_alone :
    (a : ℕ)
    → a < 256
    → base64url_value (base64url_digit (a / 4)) * 4
        + base64url_value (base64url_digit (a % 4 * 16)) / 16
      ≡ a
first_byte_alone a h = omega (
  arith,
  h,
  base64url_value-digit (a / 4) (omega (arith, h)),
  base64url_value-digit (a % 4 * 16) (omega (arith, h)),
)

middle_byte_alone :
    (a b : ℕ)
    → a < 256
    → b < 256
    → base64url_value (base64url_digit (a % 4 * 16 + b / 16)) % 16 * 16
        + base64url_value (base64url_digit (b % 16 * 4)) / 4
      ≡ b
middle_byte_alone a b h k = omega (
  arith,
  h,
  k,
  base64url_value-digit (a % 4 * 16 + b / 16) (omega (arith, h, k)),
  base64url_value-digit (b % 16 * 4) (omega (arith, k)),
)

last_byte :
    (b c : ℕ)
    → b < 256
    → c < 256
    → base64url_value (base64url_digit (b % 16 * 4 + c / 64)) % 4 * 64
        + base64url_value (base64url_digit (c % 64))
      ≡ c
last_byte b c h k = omega (
  arith,
  h,
  k,
  base64url_value-digit (b % 16 * 4 + c / 64) (omega (arith, h, k)),
  base64url_value-digit (c % 64) (omega (arith, k)),
)

same_cons : {x y : ℕ} {xs ys : List ℕ} → x ≡ y → xs ≡ ys → x ∷ xs ≡ y ∷ ys
same_cons {y = y} {xs = xs} p q = ap (λ z. z ∷ xs) p ∙ ap (λ zs. y ∷ zs) q

-- A digit in front of digits.
digit_cons :
    (d : ℕ) (ds : Text)
    → d < 64
    → all is_base64url ds ≡ true
    → all is_base64url (base64url_digit d ∷ ds) ≡ true
digit_cons d ds h k =
    all-cons_intro is_base64url (base64url_digit d) ds (base64url_digit-plain d h) k

pub base64url_bytes-base64url :
    (bytes : List ℕ) → all is_byte bytes ≡ true → base64url_bytes (base64url bytes) ≡ bytes
unfolding base64url base64url_bytes
base64url_bytes-base64url [] h = refl
base64url_bytes-base64url (a ∷ []) h =
    same_cons (first_byte_alone a (below a (all-cons is_byte a [] h).0)) refl
base64url_bytes-base64url (a ∷ b ∷ []) h =
    let (ha, hb) = all-cons is_byte a (b ∷ []) h in
    let la = below a ha in
    let lb = below b (all-cons is_byte b [] hb).0 in
    same_cons (first_byte a (b / 16) la (omega (arith, lb)))
      (same_cons (middle_byte_alone a b la lb) refl)
base64url_bytes-base64url (a ∷ b ∷ c ∷ rest) h =
    let (ha, hb) = all-cons is_byte a (b ∷ c ∷ rest) h in
    let (kb, hc) = all-cons is_byte b (c ∷ rest) hb in
    let (kc, hrest) = all-cons is_byte c rest hc in
    let la = below a ha in
    let lb = below b kb in
    let lc = below c kc in
    same_cons (first_byte a (b / 16) la (omega (arith, lb))) (
      same_cons (middle_byte a b (c / 64) la lb (omega (arith, lc)))
        (same_cons (last_byte b c lb lc) (base64url_bytes-base64url rest hrest)))

pub base64url-plain_digits :
    (bytes : List ℕ) → all is_byte bytes ≡ true → all is_base64url (base64url bytes) ≡ true
unfolding base64url
base64url-plain_digits [] h = refl
base64url-plain_digits (a ∷ []) h =
    let la = below a (all-cons is_byte a [] h).0 in
    digit_cons (a / 4) (base64url_digit (a % 4 * 16) ∷ []) (omega (arith, la))
      (digit_cons (a % 4 * 16) [] (omega (arith, la)) refl)
base64url-plain_digits (a ∷ b ∷ []) h =
    let (ha, hb) = all-cons is_byte a (b ∷ []) h in
    let la = below a ha in
    let lb = below b (all-cons is_byte b [] hb).0 in
    digit_cons (a / 4) (base64url_digit (a % 4 * 16 + b / 16) ∷ base64url_digit (b % 16 * 4) ∷ [])
      (omega (arith, la))
      (digit_cons (a % 4 * 16 + b / 16) (base64url_digit (b % 16 * 4) ∷ []) (omega (arith, la, lb))
        (digit_cons (b % 16 * 4) [] (omega (arith, lb)) refl))
base64url-plain_digits (a ∷ b ∷ c ∷ rest) h =
    let (ha, hb) = all-cons is_byte a (b ∷ c ∷ rest) h in
    let (kb, hc) = all-cons is_byte b (c ∷ rest) hb in
    let (kc, hrest) = all-cons is_byte c rest hc in
    let la = below a ha in
    let lb = below b kb in
    let lc = below c kc in
    let end = base64url_digit (c % 64) ∷ base64url rest in
    let tail = base64url_digit (b % 16 * 4 + c / 64) ∷ end in
    digit_cons (a / 4) (base64url_digit (a % 4 * 16 + b / 16) ∷ tail) (omega (arith, la)) (
      digit_cons (a % 4 * 16 + b / 16) tail (omega (arith, la, lb)) (
        digit_cons (b % 16 * 4 + c / 64) end (omega (arith, lb, lc)) (
          digit_cons (c % 64) (base64url rest) (omega (arith, lc))
            (base64url-plain_digits rest hrest))))

pub length-base64url :
    (bytes : List ℕ)
    → (3 * length (base64url bytes) ≤ 4 * length bytes + 2)
      × (length bytes ≤ length (base64url bytes))
unfolding base64url
length-base64url [] = (omega arith, omega arith)
length-base64url (a ∷ []) = (omega arith, omega arith)
length-base64url (a ∷ b ∷ []) = (omega arith, omega arith)
length-base64url (a ∷ b ∷ c ∷ rest) =
    let (few, many) = length-base64url rest in (omega (arith, few), omega (arith, many))
