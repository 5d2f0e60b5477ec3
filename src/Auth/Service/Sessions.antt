-- ===== src/Auth/Service/Sessions.antt =====
-- The methods of `AuthService` that anybody may call.
use kovcheg.Base.{
  ℕ, ◌+◌, min, Bool, true, false, ◌||◌, List, [], ◌∷◌, ◌++◌, Option, none, some, ok, err, ltb,
  length, if◌then◌else◌, ◌>>=◌, ◌>>◌, pure, throw, throw_if,
}
use kovcheg.Text.{Text, codes}
use kovcheg.Text.Whitespace.{trim}
use kovcheg.Auth.Types.{
  SessionPrincipal, SessionRecordInput, ChallengeRecordInput, BootstrapAdministratorInput,
  AccountRecord, RepositoryError, issued, neutral, authenticated, invalid,
}
use kovcheg.Auth.Repository.Administration.{bootstrap_administrator}
use kovcheg.Auth.Repository.Sessions.{
  authenticate_session, validate_session, create_oidc_session, revoke_session_by_verifier,
}
use kovcheg.Auth.Repository.Challenges.{
  issue_email_challenge, consume_challenge_and_create_session, invalidate_challenge,
}
use kovcheg.Auth.Service.Policy.{AuthErrorCode, auth, repository}
use kovcheg.Auth.Service.Inputs.{
  normalize_email_submission, normalize_email, normalize_display_name,
  normalize_rate_limit_dimension, candidate_code,
}
use kovcheg.Auth.Service.World.{World, Dependencies, Service, Delivery, call, given}
use kovcheg.Auth.Service.Limits.{Limit, consume_rate_limits, consume_neutral_challenge_rate_limits}

pub record ChallengeRequestInput : Type 0 where
  pub email : Text
  pub fingerprint : Text
  pub network_address : Text

pub record ChallengeVerificationInput : Type 0 where
  pub challenge_id : Text
  pub code : Text
  pub network_address : Text

-- `next` and `status` have one value each.
pub record EmailChallengeResponse : Type 0 where
  pub challenge_id : Text
  pub email : Text

pub record AuthenticatedSession : Type 0 where
  pub absolute_expires_at : ℕ
  pub idle_expires_at : ℕ
  pub session_id : Text
  pub session_token : Text
  pub user_id : Text

-- What a call draws from the clock and the random source. The clock is read again for the limits.
pub record ChallengeDraws : Type 0 where
  pub now : ℕ
  pub limits_now : ℕ
  pub challenge_id : Text
  pub code : Text

pub record SessionDraws : Type 0 where
  pub now : ℕ
  pub limits_now : ℕ
  pub session_token : Text
  pub session_id : Text

abbrev pub principal_or_throw : {L : Type 0} → Option SessionPrincipal → Service L SessionPrincipal
principal_or_throw none = throw (auth AuthErrorCode.invalid_session)
principal_or_throw (some principal) = pure principal

abbrev pub created_or_throw :
    {L : Type 0} → Bool → AuthenticatedSession → Service L AuthenticatedSession
created_or_throw true answer = pure answer
created_or_throw false answer = throw (auth AuthErrorCode.invalid_session)

-- The `catch` of `bootstrapAdministrator`.
abbrev pub bootstrap_caught : {L A : Type 0} → Service L A → Service L A
bootstrap_caught m w =
    let (result, w') = m w in
    (
      elim result [
        | ok a ↦ ok a
        | err (repository RepositoryError.conflict) ↦ err (auth AuthErrorCode.conflict)
        | err other ↦ err other
      ],
      w',
    )

module _ {L : Type 0} (d : Dependencies L) where
  unfoldable pub authenticate : Text → ℕ → Service L SessionPrincipal
  authenticate session_token now = do
    found ← call (authenticate_session (d.session_token_verifier session_token) now)
    principal_or_throw found

  unfoldable pub validate : Text → ℕ → Service L SessionPrincipal
  validate session_token now = do
    found ← call (validate_session (d.session_token_verifier session_token) now)
    principal_or_throw found

  unfoldable pub bootstrap : BootstrapAdministratorInput → Service L (AccountRecord × Bool)
  bootstrap input = do
    display_name ← given (normalize_display_name input.display_name)
    email ← given (normalize_email d.to_lower_case input.email)
    throw_if
        (ltb (length (trim input.bootstrap_id)) 16 || ltb 200 (length (trim input.bootstrap_id)))
        (auth AuthErrorCode.invalid_input)
    bootstrap_caught (
        call (
          bootstrap_administrator (record {
            bootstrap_id = trim input.bootstrap_id;
            display_name = display_name;
            email = email;
            user_id = input.user_id;
          })))

  -- The session that is put into the repository.
  abbrev pub session_record : SessionDraws → SessionRecordInput
  session_record draws = record {
    absolute_expires_at = draws.now + d.policy.session.absolute_lifetime_ms;
    idle_lifetime_ms = d.policy.session.idle_lifetime_ms;
    issued_at = draws.now;
    session_id = draws.session_id;
    token_verifier = d.session_token_verifier draws.session_token;
  }

  -- The session that is answered.
  abbrev pub session_answer : SessionDraws → Text → AuthenticatedSession
  session_answer draws user_id = record {
    absolute_expires_at = draws.now + d.policy.session.absolute_lifetime_ms;
    idle_expires_at =
        draws.now + min d.policy.session.idle_lifetime_ms d.policy.session.absolute_lifetime_ms;
    session_id = draws.session_id;
    session_token = draws.session_token;
    user_id = user_id;
  }

  unfoldable pub create_oidc : Text → Text → SessionDraws → Service L AuthenticatedSession
  create_oidc access_token account_id draws = do
    throw_if (ltb (length access_token) 16 || ltb 4096 (length access_token))
        (auth AuthErrorCode.invalid_session)
    created ← call (
        create_oidc_session account_id (session_record draws)
          (d.session_token_verifier access_token))
    created_or_throw created (session_answer draws account_id)

  unfoldable pub logout : Text → ℕ → Service L Bool
  logout session_token now =
      call (revoke_session_by_verifier (d.session_token_verifier session_token) now)

  abbrev pub request_limits : Text → Text → Text → List Limit
  request_limits email fingerprint network_address =
      record {
        key = d.rate_limit_key (codes "challenge-email") email;
        rule = d.policy.rate_limits.challenge_by_email;
      }
      ∷ record {
        key = d.rate_limit_key (codes "challenge-fingerprint") fingerprint;
        rule = d.policy.rate_limits.challenge_by_fingerprint;
      }
      ∷ record {
        key = d.rate_limit_key (codes "challenge-network") network_address;
        rule = d.policy.rate_limits.challenge_by_network;
      }
      ∷ []

  abbrev pub new_record : ChallengeDraws → ChallengeRecordInput
  new_record draws = record {
    challenge_id = draws.challenge_id;
    code_verifier = d.challenge_code_verifier draws.challenge_id draws.code;
    expires_at = draws.now + d.policy.challenge.ttl_ms;
    issued_at = draws.now;
    max_attempts = d.policy.challenge.max_attempts;
  }

  -- `void this.deliverChallenge(…)`: the delivery is under way, and nobody waits for it.
  abbrev start_delivery : ChallengeDraws → Text → Text → World L → World L
  start_delivery draws challenge_id recipient w = record w {
    deliveries =
        w.deliveries
        ++ record {
          message = record {
            challenge_id = challenge_id;
            code = draws.code;
            expires_at = draws.now + d.policy.challenge.ttl_ms;
            recipient = recipient;
          };
          issued_at = draws.now;
        }
          ∷ [];
  }

  unfoldable pub issue_and_deliver : ChallengeDraws → Text → Service L (Unit {0})
  issue_and_deliver draws email = do
    result ←
        call (issue_email_challenge (new_record draws) email d.policy.challenge.resend_cooldown_ms)
    elim result [
      | issued challenge_id recipient ↦ λ w. (ok tt, start_delivery draws challenge_id recipient w)
      | neutral ↦ pure tt
    ]

  unfoldable pub request_email_challenge :
      ChallengeRequestInput → ChallengeDraws → Service L EmailChallengeResponse
  request_email_challenge input draws = do
    email ← given (normalize_email_submission d.to_lower_case input.email)
    fingerprint ← given (normalize_rate_limit_dimension input.fingerprint)
    network_address ← given (normalize_rate_limit_dimension input.network_address)
    passed ←
        consume_neutral_challenge_rate_limits d
          (request_limits email.normalized_email fingerprint network_address) draws.limits_now true
    if passed then issue_and_deliver draws email.normalized_email else pure tt
    pure (record { challenge_id = draws.challenge_id; email = email.display_email })

  -- The end of `deliverChallenge`: the message was sent in time, or the challenge is invalidated.
  unfoldable pub finish_delivery : Bool → Delivery → World L → World L
  finish_delivery sent delivery w =
      if sent
      then w
      else (call (invalidate_challenge delivery.message.challenge_id delivery.issued_at) w).1

  abbrev pub verify_limits : Text → Text → List Limit
  verify_limits challenge_id network_address =
      record {
        key = d.rate_limit_key (codes "verify-challenge") challenge_id;
        rule = d.policy.rate_limits.verify_by_challenge;
      }
      ∷ record {
        key = d.rate_limit_key (codes "verify-network") network_address;
        rule = d.policy.rate_limits.verify_by_network;
      }
      ∷ []

  unfoldable pub verify_email_challenge :
      ChallengeVerificationInput → SessionDraws → Service L AuthenticatedSession
  verify_email_challenge input draws = do
    network_address ← given (normalize_rate_limit_dimension input.network_address)
    consume_rate_limits d (verify_limits input.challenge_id network_address) draws.limits_now
    result ← call (
        consume_challenge_and_create_session
          (d.challenge_code_verifier input.challenge_id (candidate_code input.code))
          input.challenge_id draws.now (session_record draws))
    elim result [
      | invalid ↦ throw (auth AuthErrorCode.invalid_or_expired_challenge)
      | authenticated principal ↦ pure (session_answer draws principal.user_id)
    ]
