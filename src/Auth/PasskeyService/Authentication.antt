-- ===== src/Auth/PasskeyService/Authentication.antt =====
-- `beginAuthentication` and `finishAuthentication`.
use kovcheg.Base.{
  ℕ, ◌+◌, min, true, false, ◌||◌, not, Option, none, some, ◌>>=◌, ◌>>◌, pure, throw, throw_if,
  if◌then◌else◌,
}
use kovcheg.Text.{Text, text_eq}
use kovcheg.Auth.Types.{SessionRecordInput, AuthPasskeySignCountStatus, AuthPasskeyCredential}
use kovcheg.Auth.Repository.Passkeys.{
  PasskeyLogin, CompletePasskeyLoginResult, complete_passkey_login, read_passkey_by_credential_id,
}
use kovcheg.Auth.Service.Policy.{AuthErrorCode, auth}
use kovcheg.Auth.PasskeyService.World.{
  PasskeyRequestContext, AuthenticationCeremony, authenticating, PasskeyAuthenticationVerification,
  PasskeyDependencies, PasskeyMethod, ask, Expected,
}
use kovcheg.Auth.PasskeyService.Inputs.{
  invalid_passkey, is_challenge, safe_equal, credential_id, safe_credential_response,
  client_context_key, authentication_limits,
}
use kovcheg.Auth.PasskeyService.Steps.{
  checked, passkey_caught, consume_passkey_rate_limits, take_authentication, put_ceremony,
}
use kovcheg.Auth.PasskeyService.Registration.{PasskeyOptionsResponse, PasskeyFinishInput}

pub record LoginDraws : Type 0 where
  pub now : ℕ
  pub limits_now : ℕ
  pub session_token : Text
  pub session_id : Text

pub record PasskeyAuthenticationResult : Type 0 where
  pub absolute_expires_at : ℕ
  pub idle_expires_at : ℕ
  pub session_id : Text
  pub session_token : Text
  pub sign_count_status : AuthPasskeySignCountStatus
  pub user_id : Text

-- `if (value === null) throw invalidPasskey();`
abbrev pub present : {L C A : Type 0} → Option A → PasskeyMethod L C A
present none = throw invalid_passkey
present (some a) = pure a

abbrev pub verified_authentication :
    {L C : Type 0}
    → Option PasskeyAuthenticationVerification
    → PasskeyMethod L C PasskeyAuthenticationVerification
verified_authentication none = throw invalid_passkey
verified_authentication (some verified) =
    if verified.user_verified then pure verified else throw invalid_passkey

-- `completed === null || completed.accountId !== … || completed.sessionId !== …`
abbrev pub completed_or_throw :
    {L C : Type 0}
    → Text
    → Text
    → Option CompletePasskeyLoginResult
    → PasskeyMethod L C CompletePasskeyLoginResult
completed_or_throw account_id session_id none = throw invalid_passkey
completed_or_throw account_id session_id (some completed) =
    if not (text_eq completed.account_id account_id)
      || not (text_eq completed.session_id session_id)
    then throw invalid_passkey
    else pure completed

module _ {L C : Type 0} (d : PasskeyDependencies L C) where
  unfoldable pub begin_authentication :
      PasskeyRequestContext → ℕ → Text → ℕ → PasskeyMethod L C PasskeyOptionsResponse
  begin_authentication context limits_now uuid seed = do
    limits ← checked (authentication_limits d true context)
    consume_passkey_rate_limits d limits limits_now
    let options =
        d.webauthn.generate_authentication_options
          (record { rp_id = d.configuration.rp_id; timeout_ms = d.policy.passkey.timeout_ms }) seed
    throw_if (not (is_challenge options.challenge)) (auth AuthErrorCode.unavailable)
    key ← checked (client_context_key d context)
    put_ceremony d uuid
        (authenticating (record { challenge = options.challenge; client_context_key = key }))
    pure (record { ceremony_id = uuid; options = options })

  -- The session that is opened.
  abbrev pub login_session : LoginDraws → SessionRecordInput
  login_session draws = record {
    absolute_expires_at = draws.now + d.policy.session.absolute_lifetime_ms;
    idle_lifetime_ms = d.policy.session.idle_lifetime_ms;
    issued_at = draws.now;
    session_id = draws.session_id;
    token_verifier = d.session_token_verifier draws.session_token;
  }

  abbrev pub login_input :
      AuthPasskeyCredential → PasskeyAuthenticationVerification → LoginDraws → PasskeyLogin
  login_input credential verified draws = record {
    credential_id = credential.credential_id;
    expected_sign_count = credential.sign_count;
    now = draws.now;
    observed_backup_eligible = verified.backup_eligible;
    observed_backup_state = verified.backup_state;
    observed_sign_count = verified.observed_sign_count;
    session = login_session draws;
    user_verified = verified.user_verified;
  }

  abbrev pub login_answer : LoginDraws → CompletePasskeyLoginResult → PasskeyAuthenticationResult
  login_answer draws completed = record {
    absolute_expires_at = draws.now + d.policy.session.absolute_lifetime_ms;
    idle_expires_at =
        draws.now + min d.policy.session.idle_lifetime_ms d.policy.session.absolute_lifetime_ms;
    session_id = draws.session_id;
    session_token = draws.session_token;
    sign_count_status = completed.sign_count_status;
    user_id = completed.account_id;
  }

  -- What the assertion of a ceremony has to show.
  abbrev pub expected_assertion : AuthenticationCeremony → PasskeyFinishInput → Expected
  expected_assertion ceremony input = record {
    challenge = ceremony.challenge;
    origins = d.configuration.origins;
    rp_id = d.configuration.rp_id;
    response = input.response;
  }

  -- The part of `finishAuthentication` after the ceremony is checked, up to the verified assertion.
  unfoldable pub verify_assertion :
      PasskeyFinishInput
      → LoginDraws
      → AuthenticationCeremony
      → PasskeyMethod L C (AuthPasskeyCredential × PasskeyAuthenticationVerification)
  verify_assertion input draws ceremony = do
    decoded ← present (credential_id input.response.id)
    listed ← ask (read_passkey_by_credential_id decoded draws.now)
    credential ← present listed
    verified ←
        verified_authentication
          (d.webauthn.verify_authentication credential (expected_assertion ceremony input))
    pure (credential, verified)

  -- The `try` block of `finishAuthentication`.
  unfoldable pub open_session :
      LoginDraws
      → AuthPasskeyCredential × PasskeyAuthenticationVerification
      → PasskeyMethod L C PasskeyAuthenticationResult
  open_session draws (credential, verified) = passkey_caught (do
    answer ← ask (complete_passkey_login (login_input credential verified draws))
    completed ← completed_or_throw credential.account_id draws.session_id answer
    pure (login_answer draws completed))

  unfoldable pub finish_authentication :
      PasskeyFinishInput
      → PasskeyRequestContext
      → LoginDraws
      → PasskeyMethod L C PasskeyAuthenticationResult
  finish_authentication input context draws = do
    throw_if (not (safe_credential_response input.response)) invalid_passkey
    limits ← checked (authentication_limits d false context)
    consume_passkey_rate_limits d limits draws.limits_now
    ceremony ← take_authentication d input.ceremony_id
    key ← checked (client_context_key d context)
    throw_if (not (safe_equal ceremony.client_context_key key)) invalid_passkey
    assertion ← verify_assertion input draws ceremony
    open_session draws assertion
