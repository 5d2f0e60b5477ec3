-- ===== src/Auth/PasskeyService/Registration.antt =====
-- `beginRegistration` and `finishRegistration`.
use kovcheg.Base.{
  ℕ, ◌||◌, not, Option, none, some, [], ◌∷◌, ◌>>=◌, ◌>>◌, pure, throw, throw_if, if◌then◌else◌,
}
use kovcheg.Text.{Text, codes, text_eq}
use kovcheg.Auth.Types.{SessionPrincipal, AccountRecord}
use kovcheg.Auth.Repository.State.{is_active}
use kovcheg.Auth.Repository.Administration.{find_account_by_id}
use kovcheg.Auth.Repository.Sessions.{validate_session}
use kovcheg.Auth.Repository.Passkeys.{PasskeyRegistration, register_passkey}
use kovcheg.Auth.Service.Policy.{AuthErrorCode, auth}
use kovcheg.Auth.PasskeyService.World.{
  PasskeyRequestContext, CredentialResponse, CredentialOptions, registering,
  PasskeyRegistrationVerification, PasskeyDependencies, PasskeyMethod, ask,
}
use kovcheg.Auth.PasskeyService.Inputs.{
  invalid_passkey, is_challenge, safe_equal, safe_credential_response, client_context_key,
}
use kovcheg.Auth.PasskeyService.Steps.{
  checked, passkey_caught, consume_passkey_rate_limits, take_registration, put_ceremony,
}

-- What a call draws from the clock (which is read again for the limits), the random source and the
-- WebAuthn library.
pub record RegistrationDraws : Type 0 where
  pub now : ℕ
  pub limits_now : ℕ
  pub uuid : Text
  pub seed : ℕ

pub record PasskeyOptionsResponse : Type 0 where
  pub ceremony_id : Text
  pub options : CredentialOptions

pub record PasskeyFinishInput : Type 0 where
  pub ceremony_id : Text
  pub response : CredentialResponse

abbrev pub valid_session :
    {L C : Type 0} → Option SessionPrincipal → PasskeyMethod L C SessionPrincipal
valid_session none = throw (auth AuthErrorCode.invalid_session)
valid_session (some principal) = pure principal

abbrev pub active_account : {L C : Type 0} → Option AccountRecord → PasskeyMethod L C AccountRecord
active_account none = throw (auth AuthErrorCode.invalid_session)
active_account (some account) =
    if is_active account.status then pure account else throw (auth AuthErrorCode.invalid_session)

abbrev pub verified_registration :
    {L C : Type 0}
    → Option PasskeyRegistrationVerification
    → PasskeyMethod L C PasskeyRegistrationVerification
verified_registration none = throw invalid_passkey
verified_registration (some verified) =
    if verified.user_verified then pure verified else throw invalid_passkey

-- The input of `registerPasskey`.
abbrev pub registration_input :
    Text → RegistrationDraws → PasskeyRegistrationVerification → PasskeyRegistration
registration_input session_verifier draws verified = record {
  actor_session_verifier = session_verifier;
  aaguid = verified.aaguid;
  attestation_format = verified.attestation_format;
  backup_eligible = verified.backup_eligible;
  backup_state = verified.backup_state;
  credential_id = verified.credential_id;
  now = draws.now;
  passkey_id = draws.uuid;
  public_key = verified.public_key;
  sign_count = verified.sign_count;
  transports = verified.transports;
  user_verified = verified.user_verified;
}

module _ {L C : Type 0} (d : PasskeyDependencies L C) where
  abbrev pub registration_options :
      SessionPrincipal → AccountRecord → RegistrationDraws → CredentialOptions
  registration_options principal account draws =
      d.webauthn.generate_registration_options
        (record {
          account_id = principal.user_id;
          account_label = account.display_name;
          rp_id = d.configuration.rp_id;
          rp_name = d.configuration.rp_name;
          timeout_ms = d.policy.passkey.timeout_ms;
        })
        draws.seed

  unfoldable pub begin_registration :
      Text → PasskeyRequestContext → RegistrationDraws → PasskeyMethod L C PasskeyOptionsResponse
  begin_registration session_token context draws = do
    let session_verifier = d.session_token_verifier session_token
    consume_passkey_rate_limits d
        (record {
          key = d.rate_limit_key (codes "passkey-registration-begin-session") session_verifier;
          rule = d.policy.rate_limits.passkey_registration_begin_by_session;
        }
          ∷ [])
        draws.limits_now
    valid ← ask (validate_session session_verifier draws.now)
    principal ← valid_session valid
    listed ← ask (find_account_by_id principal.user_id)
    account ← active_account listed
    let options = registration_options principal account draws
    throw_if (not (is_challenge options.challenge)) (auth AuthErrorCode.unavailable)
    key ← checked (client_context_key d context)
    put_ceremony d draws.uuid (
        registering (record {
          account_id = principal.user_id;
          challenge = options.challenge;
          client_context_key = key;
          session_verifier = session_verifier;
        }))
    pure (record { ceremony_id = draws.uuid; options = options })

  -- The part of `finishRegistration` from `takeCeremony` on. The answer is the passkey's id.
  unfoldable pub register_verified :
      Text
      → PasskeyFinishInput
      → PasskeyRequestContext
      → RegistrationDraws
      → SessionPrincipal
      → PasskeyMethod L C Text
  register_verified session_verifier input context draws principal = do
    ceremony ← take_registration d input.ceremony_id
    throw_if
        (not (text_eq ceremony.account_id principal.user_id)
          || not (safe_equal ceremony.session_verifier session_verifier))
        invalid_passkey
    key ← checked (client_context_key d context)
    throw_if (not (safe_equal ceremony.client_context_key key)) invalid_passkey
    verified ← verified_registration (
        d.webauthn.verify_registration (record {
          challenge = ceremony.challenge;
          origins = d.configuration.origins;
          rp_id = d.configuration.rp_id;
          response = input.response;
        }))
    passkey_caught (do
      registered ← ask (register_passkey (registration_input session_verifier draws verified))
      throw_if
          (not (text_eq registered.0 principal.user_id) || not (text_eq registered.1 draws.uuid))
          (auth AuthErrorCode.unavailable)
      pure draws.uuid)

  unfoldable pub finish_registration :
      Text → PasskeyFinishInput → PasskeyRequestContext → RegistrationDraws → PasskeyMethod L C Text
  finish_registration session_token input context draws = do
    throw_if (not (safe_credential_response input.response)) invalid_passkey
    let session_verifier = d.session_token_verifier session_token
    consume_passkey_rate_limits d
        (record {
          key = d.rate_limit_key (codes "passkey-registration-finish-session") session_verifier;
          rule = d.policy.rate_limits.passkey_registration_finish_by_session;
        }
          ∷ [])
        draws.limits_now
    valid ← ask (validate_session session_verifier draws.now)
    principal ← valid_session valid
    register_verified session_verifier input context draws principal
