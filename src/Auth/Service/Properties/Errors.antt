-- ===== src/Auth/Service/Properties/Errors.antt =====
-- What the policy that the constructor accepts guarantees, and the errors that callers see.
use kovcheg.Base.{
  Bool, true, false, ◌&&◌, ltb, if◌then◌else◌, ℕ, ◌≤◌, ◌<◌, ◌≡◌, ◌≢◌, ok, err, arith, result,
  Result,
}
use kovcheg.Text.{Text}
use kovcheg.Auth.Types.{RepositoryError, FunctionalGrant, AccountStatus, DomainStatus}
use kovcheg.Auth.Service.Policy.{
  AuthPolicy, ServiceError, auth, repository, validate_policy, are_positive_rules,
  is_positive_integer, invalid_input,
}
use kovcheg.Auth.Service.World.{
  World, Dependencies, administrative_answer, map_administrative_error,
}
use kovcheg.Auth.Service.Administration.{
  AccountInput, AuthorizationMutationInput, create_account, grant_functional_grant,
  revoke_functional_grant, revoke_all_sessions, revoke_session, set_account_status,
  set_domain_status, update_account, security_reset_auth_access,
}

mapped : (e e' : RepositoryError) → map_administrative_error e ≢ repository e'
unfolding map_administrative_error
mapped RepositoryError.authorization e' h = absurd (ground arith)
mapped RepositoryError.conflict e' h = absurd (ground arith)
mapped RepositoryError.not_found e' h = absurd (ground arith)

caught_lem :
    {A : Type 0} (r : Result ServiceError A) (e : RepositoryError)
    → administrative_answer r ≢ err (repository e)
unfolding administrative_answer
caught_lem (ok a) e h = absurd (ground arith)
caught_lem (err (auth code)) e h = absurd (ground arith)
caught_lem (err (repository e')) e h = mapped e' e (ground arith)

positive : (n : ℕ) → is_positive_integer n ≡ true → 0 < n
unfolding is_positive_integer
positive n h = ground arith

not_less : (a b : ℕ) → ltb a b ≡ false → b ≤ a
not_less a b h = ground arith

-- What the tests of an accepted policy answered.
accepted_tests :
    (a b c d e f g x y z : Bool)
    → (if a && b && c && d && e && f && g
        then if x
          then err (auth invalid_input)
          else if y
          then if z then ok tt else err (auth invalid_input)
          else err (auth invalid_input)
        else err (auth invalid_input))
      ≡ ok tt
    → (b ≡ true) × (c ≡ true) × (e ≡ true) × (g ≡ true) × (x ≡ false)
accepted_tests a b c d e f g x y z h =
    (ground arith, ground arith, ground arith, ground arith, ground arith)

-- An accepted policy has positive lifetimes, attempts and cooldown, and sessions whose idle lifetime
-- is at most the absolute one.
pub validate_policy-bounds :
    (policy : AuthPolicy) (delivery_timeout_ms : ℕ)
    → validate_policy policy delivery_timeout_ms ≡ ok tt
    → (0 < policy.challenge.max_attempts)
      × (0 < policy.challenge.response_minimum_ms)
      × (0 < policy.challenge.ttl_ms)
      × (0 < policy.session.idle_lifetime_ms)
      × (policy.session.idle_lifetime_ms ≤ policy.session.absolute_lifetime_ms)
unfolding validate_policy
validate_policy-bounds policy delivery_timeout_ms h =
    let c = policy.challenge in
    let l = policy.session in
    let (attempts, response, ttl, idle, order) =
      accepted_tests (is_positive_integer c.code_digits) (is_positive_integer c.max_attempts)
        (is_positive_integer c.response_minimum_ms) (is_positive_integer c.resend_cooldown_ms)
        (is_positive_integer c.ttl_ms) (is_positive_integer l.absolute_lifetime_ms)
        (is_positive_integer l.idle_lifetime_ms) (ltb l.absolute_lifetime_ms l.idle_lifetime_ms)
        (are_positive_rules policy.rate_limits) (is_positive_integer delivery_timeout_ms) h in
    (
      positive c.max_attempts attempts,
      positive c.response_minimum_ms response,
      positive c.ttl_ms ttl,
      positive l.idle_lifetime_ms idle,
      not_less l.absolute_lifetime_ms l.idle_lifetime_ms order,
    )

module _ {L : Type 0} (d : Dependencies L) (token : Text) (now : ℕ) where
  -- No administrative method lets an error of the repository through: it is answered as one of the
  -- codes of the service, whatever the input and the state are.
  pub administrative_errors_mapped :
      (user_id session_id : Text) (input : AccountInput) (mutation : AuthorizationMutationInput)
      (grant : FunctionalGrant) (status : AccountStatus) (domain_status : DomainStatus)
      (w : World L) (e : RepositoryError)
      → (result (create_account d token now input user_id w) ≢ err (repository e))
        × (result (grant_functional_grant d token now user_id grant mutation w)
            ≢ err (repository e))
        × (result (revoke_functional_grant d token now user_id grant mutation w)
            ≢ err (repository e))
        × (result (revoke_all_sessions d token now user_id w) ≢ err (repository e))
        × (result (revoke_session d token now user_id session_id w) ≢ err (repository e))
        × (result (set_account_status d token now user_id status w) ≢ err (repository e))
        × (result (set_domain_status d token now user_id domain_status mutation w)
            ≢ err (repository e))
        × (result (update_account d token now user_id input w) ≢ err (repository e))
        × (result (security_reset_auth_access d token now user_id w) ≢ err (repository e))
  unfolding create_account grant_functional_grant revoke_functional_grant revoke_all_sessions
      revoke_session set_account_status set_domain_status update_account security_reset_auth_access
  administrative_errors_mapped user_id session_id input mutation grant status domain_status w e = (
    caught_lem _ e,
    caught_lem _ e,
    caught_lem _ e,
    caught_lem _ e,
    caught_lem _ e,
    caught_lem _ e,
    caught_lem _ e,
    caught_lem _ e,
    caught_lem _ e,
  )
