-- ===== src/Auth/PasskeyService/Errors/Methods.antt =====
-- None of the repository's errors is let through by a method of the passkey service.
use kovcheg.Base.{
  ℕ, ◌≢◌, refl, true, false, pure, throw_if, ◌>>=◌, ◌>>◌, arith, not, ◌||◌, List, [], ◌∷◌, result,
  bind-Throws, then-Throws, err, Throws,
}
use kovcheg.Text.{Text, codes, text_eq}
use kovcheg.Auth.Types.{SessionPrincipal, RepositoryError, AuthPasskeyCredential}
use kovcheg.Auth.Repository.State.{Repository}
use kovcheg.Auth.Repository.Administration.{find_account_by_id}
use kovcheg.Auth.Repository.Sessions.{validate_session}
use kovcheg.Auth.Repository.Passkeys.{register_passkey, read_passkey_by_credential_id}
use kovcheg.Auth.Service.Policy.{AuthErrorCode, auth, repository}
use kovcheg.Auth.PasskeyService.World.{
  AuthenticationCeremony, registering, authenticating, PasskeyRequestContext, PasskeyDependencies,
  PasskeyWorld, PasskeyAuthenticationVerification, ask,
}
use kovcheg.Auth.PasskeyService.Inputs.{
  is_challenge, credential_id, safe_equal, safe_credential_response,
}
use kovcheg.Auth.PasskeyService.Registration.{
  RegistrationDraws, PasskeyFinishInput, registration_input, registration_options,
  begin_registration, register_verified, finish_registration,
}
use kovcheg.Auth.PasskeyService.Authentication.{
  LoginDraws, begin_authentication, verify_assertion, open_session, expected_assertion,
  finish_authentication,
}
use kovcheg.Auth.PasskeyService.Errors.{
  IsAuth, IsSafe, throw_if-IsSafe, pure-IsSafe, limits-IsSafe, put_ceremony-IsSafe, ask-IsSafe,
  caught-IsSafe, take_registration-IsSafe, take_authentication-IsSafe, present-IsSafe,
  valid_session-IsSafe, active_account-IsSafe, verified_registration-IsSafe,
  verified_authentication-IsSafe, client_context_key-IsSafe, authentication_limits-IsSafe,
}

-- The reads of the repository do not throw.
validate_session-ok :
    (verifier : Text) (now : ℕ) (r : Repository) (e : RepositoryError)
    → result (validate_session verifier now r) ≢ err e
unfolding validate_session
validate_session-ok verifier now r e h = ground arith

find_account_by_id-ok :
    (id : Text) (r : Repository) (e : RepositoryError) → result (find_account_by_id id r) ≢ err e
unfolding find_account_by_id
find_account_by_id-ok id r e h = ground arith

read_passkey-ok :
    (id : List ℕ) (now : ℕ) (r : Repository) (e : RepositoryError)
    → result (read_passkey_by_credential_id id now r) ≢ err e
unfolding read_passkey_by_credential_id
read_passkey-ok id now r e h = ground arith

module _ {L C : Type 0} (d : PasskeyDependencies L C) where
  verify_assertion-IsSafe :
      (input : PasskeyFinishInput) (draws : LoginDraws) (c : AuthenticationCeremony)
      → IsSafe d (verify_assertion d input draws c)
  unfolding verify_assertion
  verify_assertion-IsSafe input draws c =
      bind-Throws IsAuth _ _ (present-IsSafe d (credential_id input.response.id)) (λ decoded.
        bind-Throws IsAuth _ _
          (ask-IsSafe d (read_passkey_by_credential_id decoded draws.now)
            (read_passkey-ok decoded draws.now))
          (λ listed. bind-Throws IsAuth _ _ (present-IsSafe d listed) (λ credential.
            bind-Throws IsAuth _ _
              (verified_authentication-IsSafe d
                (d.webauthn.verify_authentication credential (expected_assertion d c input)))
              (λ verified. pure-IsSafe d (credential, verified)))))

  open_session-IsSafe :
      (draws : LoginDraws) (a : AuthPasskeyCredential × PasskeyAuthenticationVerification)
      → IsSafe d (open_session d draws a)
  unfolding open_session
  open_session-IsSafe draws (credential, verified) = caught-IsSafe d _

  finish_authentication-IsSafe :
      (input : PasskeyFinishInput) (context : PasskeyRequestContext) (draws : LoginDraws)
      → IsSafe d (finish_authentication d input context draws)
  unfolding finish_authentication
  finish_authentication-IsSafe input context draws =
      then-Throws IsAuth _ _ (throw_if-IsSafe d (not (safe_credential_response input.response)) _) (
        bind-Throws IsAuth _ _ (authentication_limits-IsSafe d false context) (λ limits.
          then-Throws IsAuth _ _ (limits-IsSafe d limits draws.limits_now) (
            bind-Throws IsAuth _ _ (take_authentication-IsSafe d input.ceremony_id) (λ ceremony.
              bind-Throws IsAuth _ _ (client_context_key-IsSafe d context) (λ key.
                then-Throws IsAuth _ _
                  (throw_if-IsSafe d (not (safe_equal ceremony.client_context_key key)) _)
                  (bind-Throws IsAuth _ _ (verify_assertion-IsSafe input draws ceremony)
                    (open_session-IsSafe draws)))))))

  begin_authentication-IsSafe :
      (context : PasskeyRequestContext) (now : ℕ) (uuid : Text) (seed : ℕ)
      → IsSafe d (begin_authentication d context now uuid seed)
  unfolding begin_authentication
  begin_authentication-IsSafe context now uuid seed =
      let options =
        d.webauthn.generate_authentication_options
          (record { rp_id = d.configuration.rp_id; timeout_ms = d.policy.passkey.timeout_ms })
          seed in
      bind-Throws IsAuth _ _ (authentication_limits-IsSafe d true context) (λ limits.
        then-Throws IsAuth _ _ (limits-IsSafe d limits now) (
          then-Throws IsAuth _ _ (throw_if-IsSafe d (not (is_challenge options.challenge)) _) (
            bind-Throws IsAuth _ _ (client_context_key-IsSafe d context) (λ key.
              then-Throws IsAuth _ _
                (put_ceremony-IsSafe d uuid (
                  authenticating
                    (record { challenge = options.challenge; client_context_key = key })))
                (pure-IsSafe d ((record { ceremony_id = uuid; options = options })))))))

  begin_registration-IsSafe :
      (token : Text) (context : PasskeyRequestContext) (draws : RegistrationDraws)
      → IsSafe d (begin_registration d token context draws)
  unfolding begin_registration
  begin_registration-IsSafe token context draws =
      let verifier = d.session_token_verifier token in
      then-Throws IsAuth _ _
        (limits-IsSafe d
          (record {
            key = d.rate_limit_key (codes "passkey-registration-begin-session") verifier;
            rule = d.policy.rate_limits.passkey_registration_begin_by_session;
          }
            ∷ [])
          draws.limits_now)
        (bind-Throws IsAuth _ _
          (ask-IsSafe d (validate_session verifier draws.now)
            (validate_session-ok verifier draws.now))
          (λ valid. bind-Throws IsAuth _ _ (valid_session-IsSafe d valid) (λ principal.
            bind-Throws IsAuth _ _
              (ask-IsSafe d (find_account_by_id principal.user_id)
                (find_account_by_id-ok principal.user_id))
              (λ listed. bind-Throws IsAuth _ _ (active_account-IsSafe d listed) (λ account.
                let options = registration_options d principal account draws in
                then-Throws IsAuth _ _ (throw_if-IsSafe d (not (is_challenge options.challenge)) _)
                  (bind-Throws IsAuth _ _ (client_context_key-IsSafe d context) (λ key.
                    then-Throws IsAuth _ _
                      (put_ceremony-IsSafe d draws.uuid (
                        registering (record {
                          account_id = principal.user_id;
                          challenge = options.challenge;
                          client_context_key = key;
                          session_verifier = verifier;
                        })))
                      (pure-IsSafe d
                        ((record { ceremony_id = draws.uuid; options = options }))))))))))

  register_verified-IsSafe :
      (verifier : Text) (input : PasskeyFinishInput) (context : PasskeyRequestContext)
      (draws : RegistrationDraws) (principal : SessionPrincipal)
      → IsSafe d (register_verified d verifier input context draws principal)
  unfolding register_verified
  register_verified-IsSafe verifier input context draws principal =
      bind-Throws IsAuth _ _ (take_registration-IsSafe d input.ceremony_id) (λ ceremony.
        then-Throws IsAuth _ _
          (throw_if-IsSafe d
            (not (text_eq ceremony.account_id principal.user_id)
              || not (safe_equal ceremony.session_verifier verifier))
            _)
          (bind-Throws IsAuth _ _ (client_context_key-IsSafe d context) (λ key.
            then-Throws IsAuth _ _
              (throw_if-IsSafe d (not (safe_equal ceremony.client_context_key key)) _)
              (bind-Throws IsAuth _ _
                (verified_registration-IsSafe d (
                  d.webauthn.verify_registration (record {
                    challenge = ceremony.challenge;
                    origins = d.configuration.origins;
                    rp_id = d.configuration.rp_id;
                    response = input.response;
                  })))
                (λ verified. caught-IsSafe d (do
                  registered ← ask (register_passkey (registration_input verifier draws verified))
                  throw_if
                      (not (text_eq registered.0 principal.user_id)
                        || not (text_eq registered.1 draws.uuid))
                      (auth AuthErrorCode.unavailable)
                  pure draws.uuid))))))

  finish_registration-IsSafe :
      (token : Text) (input : PasskeyFinishInput) (context : PasskeyRequestContext)
      (draws : RegistrationDraws)
      → IsSafe d (finish_registration d token input context draws)
  unfolding finish_registration
  finish_registration-IsSafe token input context draws =
      let verifier = d.session_token_verifier token in
      then-Throws IsAuth _ _ (throw_if-IsSafe d (not (safe_credential_response input.response)) _) (
        then-Throws IsAuth _ _
          (limits-IsSafe d
            (record {
              key = d.rate_limit_key (codes "passkey-registration-finish-session") verifier;
              rule = d.policy.rate_limits.passkey_registration_finish_by_session;
            }
              ∷ [])
            draws.limits_now)
          (bind-Throws IsAuth _ _
            (ask-IsSafe d (validate_session verifier draws.now)
              (validate_session-ok verifier draws.now))
            (λ valid.
              bind-Throws IsAuth _ _ (valid_session-IsSafe d valid)
                (λ principal. register_verified-IsSafe verifier input context draws principal))))

  -- No method of the passkey service throws an error of the repository: what the repository throws in
  -- registering a passkey and in completing a login is mapped to a code of the service, its reads do
  -- not throw, and every check of the service throws a code of its own.
  pub passkey_methods-hide_repository_errors :
      (token : Text) (context : PasskeyRequestContext) (input : PasskeyFinishInput)
      (registration : RegistrationDraws) (login : LoginDraws) (now : ℕ) (uuid : Text) (seed : ℕ)
      (w : PasskeyWorld L C) (x : RepositoryError)
      → result (begin_registration d token context registration w) ≢ err (repository x)
        × result (finish_registration d token input context registration w) ≢ err (repository x)
        × result (begin_authentication d context now uuid seed w) ≢ err (repository x)
        × result (finish_authentication d input context login w) ≢ err (repository x)
  unfolding Throws
  passkey_methods-hide_repository_errors token context input registration login now uuid seed w x =
      (
        λ h. begin_registration-IsSafe token context registration w (repository x) h x refl,
        λ h. finish_registration-IsSafe token input context registration w (repository x) h x refl,
        λ h. begin_authentication-IsSafe context now uuid seed w (repository x) h x refl,
        λ h. finish_authentication-IsSafe input context login w (repository x) h x refl,
      )
