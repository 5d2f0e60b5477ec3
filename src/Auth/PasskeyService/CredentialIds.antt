-- ===== src/Auth/PasskeyService/CredentialIds.antt =====
-- The ids of credentials: what a client sends for a credential is read back as its bytes.
use kovcheg.Base.{ℕ, ◌≤◌, ◌≡◌, Bool, true, some, List, arith, length, all}
use kovcheg.Text.{Text}
use kovcheg.Text.Bytes.{base64url}
use kovcheg.Text.Base64.{
  is_byte, base64url_bytes-base64url, base64url-plain_digits, length-base64url,
}
use kovcheg.Text.Splitting.{is_base64url, matches_class}
use kovcheg.Auth.PasskeyService.Inputs.{credential_id}

matches_class-intro :
    (class : ℕ → Bool) (least most : ℕ) (t : Text)
    → all class t ≡ true
    → least ≤ length t
    → length t ≤ most
    → matches_class class least most t ≡ true
matches_class-intro class least most t h k l = ground (arith, h, k, l)

-- The id of a credential is read back from its base64url: every sequence of one to 1024 bytes passes
-- the pattern and the bounds, and comes out as it is.
pub credential_id-base64url :
    (bytes : List ℕ)
    → all is_byte bytes ≡ true
    → 1 ≤ length bytes
    → length bytes ≤ 1024
    → credential_id (base64url bytes) ≡ some bytes
unfolding credential_id
credential_id-base64url bytes h least most =
    let (few, many) = length-base64url bytes in
    let shaped : matches_class is_base64url 1 1366 (base64url bytes) ≡ true =
      matches_class-intro is_base64url 1 1366 (base64url bytes) (base64url-plain_digits bytes h)
        (omega (arith, many, least)) (omega (arith, few, most)) in
    ground (arith, shaped, base64url_bytes-base64url bytes h, least, most)
