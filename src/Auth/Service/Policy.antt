-- ===== src/Auth/Service/Policy.antt =====
-- `AuthPolicy`, the errors of the service, and the checks of its constructor.
use kovcheg.Base.{ℕ, Bool, ◌&&◌, List, [], ◌∷◌, ltb, leb, if◌then◌else◌, all, Result, ok, err}
use kovcheg.Auth.Types.{RateLimitRule, RepositoryError}

pub data AuthErrorCode : Type 0 where
  conflict forbidden invalid_input invalid_or_expired_challenge : AuthErrorCode
  invalid_passkey invalid_session not_found rate_limited unavailable : AuthErrorCode

-- What a method of the service throws: an `AuthError`, or an error of the repository that it lets
-- through.
pub data ServiceError : Type 0 where
  auth : AuthErrorCode → ServiceError
  repository : RepositoryError → ServiceError

pub record ChallengePolicy : Type 0 where
  pub code_digits : ℕ
  pub max_attempts : ℕ
  pub response_minimum_ms : ℕ
  pub resend_cooldown_ms : ℕ
  pub ttl_ms : ℕ

pub record RateLimits : Type 0 where
  pub challenge_by_email : RateLimitRule
  pub challenge_by_fingerprint : RateLimitRule
  pub challenge_by_network : RateLimitRule
  pub passkey_authentication_begin_by_fingerprint : RateLimitRule
  pub passkey_authentication_begin_by_network : RateLimitRule
  pub passkey_authentication_finish_by_fingerprint : RateLimitRule
  pub passkey_authentication_finish_by_network : RateLimitRule
  pub passkey_registration_begin_by_session : RateLimitRule
  pub passkey_registration_finish_by_session : RateLimitRule
  pub verify_by_challenge : RateLimitRule
  pub verify_by_network : RateLimitRule

pub record SessionPolicy : Type 0 where
  pub absolute_lifetime_ms : ℕ
  pub idle_lifetime_ms : ℕ

pub record PasskeyPolicy : Type 0 where
  pub challenge_ttl_ms : ℕ
  pub timeout_ms : ℕ

pub record AuthPolicy : Type 0 where
  pub challenge : ChallengePolicy
  pub passkey : PasskeyPolicy
  pub rate_limits : RateLimits
  pub session : SessionPolicy

-- `Number.isSafeInteger(value) && value > 0`, for a whole number that is not negative
unfoldable pub is_positive_integer : ℕ → Bool
is_positive_integer value = leb value 9007199254740991 && ltb 0 value

abbrev pub rules : RateLimits → List RateLimitRule
rules r =
    r.challenge_by_email ∷ r.challenge_by_fingerprint ∷ r.challenge_by_network
    ∷ r.passkey_authentication_begin_by_fingerprint ∷ r.passkey_authentication_begin_by_network
    ∷ r.passkey_authentication_finish_by_fingerprint ∷ r.passkey_authentication_finish_by_network
    ∷ r.passkey_registration_begin_by_session ∷ r.passkey_registration_finish_by_session
    ∷ r.verify_by_challenge ∷ r.verify_by_network ∷ []

abbrev pub is_positive_rule : RateLimitRule → Bool
is_positive_rule rule = is_positive_integer rule.limit && is_positive_integer rule.window_ms

-- The loop over the rate limits finds nothing.
unfoldable pub are_positive_rules : RateLimits → Bool
unfolding is_positive_integer
are_positive_rules r = all is_positive_rule (rules r)

-- The constructor accepts the policy and the delivery timeout.
unfoldable pub validate_policy : AuthPolicy → ℕ → Result ServiceError (Unit {0})
unfolding is_positive_integer are_positive_rules
validate_policy policy delivery_timeout_ms =
    if is_positive_integer policy.challenge.code_digits
      && is_positive_integer policy.challenge.max_attempts
      && is_positive_integer policy.challenge.response_minimum_ms
      && is_positive_integer policy.challenge.resend_cooldown_ms
      && is_positive_integer policy.challenge.ttl_ms
      && is_positive_integer policy.session.absolute_lifetime_ms
      && is_positive_integer policy.session.idle_lifetime_ms
    then if ltb policy.session.absolute_lifetime_ms policy.session.idle_lifetime_ms
      then err (auth invalid_input)
      else if are_positive_rules policy.rate_limits
      then if is_positive_integer delivery_timeout_ms then ok tt else err (auth invalid_input)
      else err (auth invalid_input)
    else err (auth invalid_input)
