-- ===== src/Auth/PasskeyService/Inputs.antt =====
-- The checks of what a client sends to the passkey service.
use kovcheg.Base.{
  ℕ, Bool, false, ◌&&◌, ◌||◌, not, List, [], ◌∷◌, ◌++◌, Option, none, some, Result, ok, err, ltb,
  leb, ◌==◌, length, if◌then◌else◌,
}
use kovcheg.Text.{Text, codes}
use kovcheg.Text.Bytes.{utf8, bytes_eq, base64url_bytes}
use kovcheg.Text.Whitespace.{trim}
use kovcheg.Text.Splitting.{is_base64url, matches_class}
use kovcheg.Auth.Service.Policy.{AuthPolicy, AuthErrorCode, ServiceError, auth, is_positive_integer}
use kovcheg.Auth.Service.Limits.{Limit}
use kovcheg.Auth.PasskeyService.World.{
  PasskeyRequestContext, CredentialResponse, PasskeyDependencies,
}

abbrev pub invalid_passkey : ServiceError
invalid_passkey = auth AuthErrorCode.invalid_passkey

abbrev pub is_challenge : Text → Bool
is_challenge = matches_class is_base64url 1 1366

unfoldable pub normalized_dimension : Text → Result ServiceError Text
normalized_dimension value =
    let normalized = trim value in
    if ltb (length normalized) 1 || ltb 256 (length normalized)
    then err (auth AuthErrorCode.invalid_input)
    else ok normalized

-- Buffers of different lengths are unequal, and `timingSafeEqual` compares the others.
unfoldable pub safe_equal : Text → Text → Bool
safe_equal left right =
    (length (utf8 left) == length (utf8 right)) && bytes_eq (utf8 left) (utf8 right)

unfoldable pub credential_id : Text → Option (List ℕ)
credential_id value =
    if not (matches_class is_base64url 1 1366 value)
    then none
    else let decoded = base64url_bytes value in
      if ltb (length decoded) 1 || ltb 1024 (length decoded) then none else some decoded

-- 64 * 1024
abbrev credential_response_limit : ℕ
credential_response_limit = 65536

unfoldable pub safe_credential_response : CredentialResponse → Bool
safe_credential_response value = if not value.is_object then false else elim value.json [
  | none ↦ false
  | some text ↦ leb (length (utf8 text)) credential_response_limit
]

-- The checks of the constructor.
unfoldable pub validate_passkey_policy : AuthPolicy → Result ServiceError (Unit {0})
validate_passkey_policy policy =
    if not (is_positive_integer policy.passkey.challenge_ttl_ms)
      || not (is_positive_integer policy.passkey.timeout_ms)
      || ltb policy.passkey.challenge_ttl_ms policy.passkey.timeout_ms
    then err (auth AuthErrorCode.invalid_input)
    else ok tt

module _ {L C : Type 0} (d : PasskeyDependencies L C) where
  unfoldable pub client_context_key : PasskeyRequestContext → Result ServiceError Text
  client_context_key context = elim (normalized_dimension context.fingerprint) [
    | err e ↦ err e
    | ok fingerprint ↦ elim (normalized_dimension context.network_address) [
      | err e ↦ err e
      | ok network_address ↦
          ok (
            d.rate_limit_key (codes "passkey-client-context")
              (network_address ++ (0 ∷ fingerprint)))
    ]
  ]

  -- `begins` is `stage === 'begin'`.
  unfoldable pub authentication_limits :
      Bool → PasskeyRequestContext → Result ServiceError (List Limit)
  authentication_limits begins context = elim (normalized_dimension context.fingerprint) [
    | err e ↦ err e
    | ok fingerprint ↦ elim (normalized_dimension context.network_address) [
      | err e ↦ err e
      | ok network_address ↦
          let rates = d.policy.rate_limits in
          let stage = if begins then codes "begin" else codes "finish" in
          ok (
            record {
              key =
                  d.rate_limit_key
                    (codes "passkey-authentication-" ++ stage ++ codes "-fingerprint") fingerprint;
              rule =
                  if begins
                  then rates.passkey_authentication_begin_by_fingerprint
                  else rates.passkey_authentication_finish_by_fingerprint;
            }
            ∷ record {
              key =
                  d.rate_limit_key (codes "passkey-authentication-" ++ stage ++ codes "-network")
                    network_address;
              rule =
                  if begins
                  then rates.passkey_authentication_begin_by_network
                  else rates.passkey_authentication_finish_by_network;
            }
            ∷ [])
    ]
  ]
