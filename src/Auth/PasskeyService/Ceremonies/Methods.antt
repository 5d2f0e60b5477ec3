-- ===== src/Auth/PasskeyService/Ceremonies/Methods.antt =====
-- A ceremony that is gone stays gone over the methods of the passkey service.
use kovcheg.Base.{
  ℕ, ◌≢◌, true, false, not, Option, List, [], ◌∷◌, ◌||◌, Keeps, bind-Keeps, then-Keeps, pure-Keeps,
  throw_if-Keeps,
}
use kovcheg.Text.{Text, codes, text_eq}
use kovcheg.Auth.Types.{SessionPrincipal, AuthPasskeyCredential}
use kovcheg.Auth.Repository.Administration.{find_account_by_id}
use kovcheg.Auth.Repository.Sessions.{validate_session}
use kovcheg.Auth.Repository.Passkeys.{
  complete_passkey_login, register_passkey, read_passkey_by_credential_id,
}
use kovcheg.Auth.Service.Policy.{AuthErrorCode, auth}
use kovcheg.Auth.PasskeyService.World.{
  PasskeyCeremonyState, AuthenticationCeremony, registering, authenticating, PasskeyRequestContext,
  PasskeyDependencies, PasskeyWorld, PasskeyAuthenticationVerification,
}
use kovcheg.Auth.PasskeyService.Inputs.{
  invalid_passkey, is_challenge, credential_id, safe_equal, safe_credential_response,
  client_context_key, authentication_limits,
}
use kovcheg.Auth.PasskeyService.Registration.{
  RegistrationDraws, PasskeyFinishInput, registration_input, registration_options,
  begin_registration, register_verified, finish_registration,
}
use kovcheg.Auth.PasskeyService.Authentication.{
  LoginDraws, begin_authentication, verify_assertion, open_session, login_answer, login_input,
  expected_assertion, finish_authentication,
}
use kovcheg.Auth.PasskeyService.Ceremonies.{
  IsCeremonyStore, PasskeyCall, AllBeginOther, passkey_step, run_passkeys,
}
use kovcheg.Auth.PasskeyService.Ceremonies.Parts.{
  IsGone, limits-Keeps, take_registration-Keeps, take_authentication-Keeps, put_ceremony-Keeps,
  ask-Keeps, checked-Keeps, caught-Keeps, present-Keeps, valid_session-Keeps, active_account-Keeps,
  verified_registration-Keeps, verified_authentication-Keeps, completed_or_throw-Keeps,
}

module _ {L C : Type 0} (d : PasskeyDependencies L C)
    (content : Text → C → Option PasskeyCeremonyState)
    (laws : IsCeremonyStore d.ceremony_store content) (id : Text) where
  abbrev Gone : PasskeyWorld L C → Type 0
  Gone = IsGone d content laws id

  verify_assertion-Keeps :
      (input : PasskeyFinishInput) (draws : LoginDraws) (c : AuthenticationCeremony)
      → Keeps Gone (verify_assertion d input draws c)
  unfolding verify_assertion
  verify_assertion-Keeps input draws c =
      bind-Keeps Gone _ _ (present-Keeps d content laws id (credential_id input.response.id))
        (λ decoded.
          bind-Keeps Gone _ _
            (ask-Keeps d content laws id (read_passkey_by_credential_id decoded draws.now))
            (λ listed. bind-Keeps Gone _ _ (present-Keeps d content laws id listed) (λ credential.
              bind-Keeps Gone _ _
                (verified_authentication-Keeps d content laws id
                  (d.webauthn.verify_authentication credential (expected_assertion d c input)))
                (λ verified. pure-Keeps _ _ Gone (credential, verified)))))

  open_session-Keeps :
      (draws : LoginDraws) (a : AuthPasskeyCredential × PasskeyAuthenticationVerification)
      → Keeps Gone (open_session d draws a)
  unfolding open_session
  open_session-Keeps draws (credential, verified) = caught-Keeps d content laws id _ (
      bind-Keeps Gone _ _
        (ask-Keeps d content laws id
          (complete_passkey_login (login_input d credential verified draws)))
        (λ answer.
          bind-Keeps Gone _ _
            (completed_or_throw-Keeps d content laws id credential.account_id draws.session_id
              answer)
            (λ completed. pure-Keeps _ _ Gone (login_answer d draws completed))))

  finish_authentication-Keeps :
      (input : PasskeyFinishInput) (context : PasskeyRequestContext) (draws : LoginDraws)
      → Keeps Gone (finish_authentication d input context draws)
  unfolding finish_authentication
  finish_authentication-Keeps input context draws =
      then-Keeps Gone _ _
        (throw_if-Keeps Gone (not (safe_credential_response input.response)) invalid_passkey)
        (bind-Keeps Gone _ _
          (checked-Keeps d content laws id (authentication_limits d false context))
          (λ limits. then-Keeps Gone _ _ (limits-Keeps d content laws id limits draws.limits_now) (
            bind-Keeps Gone _ _ (take_authentication-Keeps d content laws id input.ceremony_id)
              (λ ceremony.
                bind-Keeps Gone _ _ (checked-Keeps d content laws id (client_context_key d context))
                  (λ key.
                    then-Keeps Gone _ _
                      (throw_if-Keeps Gone (not (safe_equal ceremony.client_context_key key))
                        invalid_passkey)
                      (bind-Keeps Gone _ _ (verify_assertion-Keeps input draws ceremony)
                        (open_session-Keeps draws)))))))

  begin_authentication-Keeps :
      (context : PasskeyRequestContext) (now : ℕ) (uuid : Text) (seed : ℕ)
      → id ≢ uuid
      → Keeps Gone (begin_authentication d context now uuid seed)
  unfolding begin_authentication
  begin_authentication-Keeps context now uuid seed fresh =
      let options =
        d.webauthn.generate_authentication_options
          (record { rp_id = d.configuration.rp_id; timeout_ms = d.policy.passkey.timeout_ms })
          seed in
      bind-Keeps Gone _ _ (checked-Keeps d content laws id (authentication_limits d true context))
        (λ limits. then-Keeps Gone _ _ (limits-Keeps d content laws id limits now) (
          then-Keeps Gone _ _
            (throw_if-Keeps Gone (not (is_challenge options.challenge))
              (auth AuthErrorCode.unavailable))
            (bind-Keeps Gone _ _ (checked-Keeps d content laws id (client_context_key d context))
              (λ key.
                then-Keeps Gone _ _
                  (put_ceremony-Keeps d content laws id uuid
                    (authenticating
                      (record { challenge = options.challenge; client_context_key = key }))
                    fresh)
                  (pure-Keeps _ _ Gone ((record { ceremony_id = uuid; options = options })))))))

  begin_registration-Keeps :
      (token : Text) (context : PasskeyRequestContext) (draws : RegistrationDraws)
      → id ≢ draws.uuid
      → Keeps Gone (begin_registration d token context draws)
  unfolding begin_registration
  begin_registration-Keeps token context draws fresh =
      let verifier = d.session_token_verifier token in
      then-Keeps Gone _ _
        (limits-Keeps d content laws id
          (record {
            key = d.rate_limit_key (codes "passkey-registration-begin-session") verifier;
            rule = d.policy.rate_limits.passkey_registration_begin_by_session;
          }
            ∷ [])
          draws.limits_now)
        (bind-Keeps Gone _ _ (ask-Keeps d content laws id (validate_session verifier draws.now))
          (λ valid. bind-Keeps Gone _ _ (valid_session-Keeps d content laws id valid) (λ principal.
            bind-Keeps Gone _ _ (ask-Keeps d content laws id (find_account_by_id principal.user_id))
              (λ listed.
                bind-Keeps Gone _ _ (active_account-Keeps d content laws id listed) (λ account.
                  let options = registration_options d principal account draws in
                  then-Keeps Gone _ _
                    (throw_if-Keeps Gone (not (is_challenge options.challenge))
                      (auth AuthErrorCode.unavailable))
                    (bind-Keeps Gone _ _
                      (checked-Keeps d content laws id (client_context_key d context))
                      (λ key.
                        then-Keeps Gone _ _
                          (put_ceremony-Keeps d content laws id draws.uuid
                            (registering (record {
                              account_id = principal.user_id;
                              challenge = options.challenge;
                              client_context_key = key;
                              session_verifier = verifier;
                            }))
                            fresh)
                          (pure-Keeps _ _ Gone
                            ((record { ceremony_id = draws.uuid; options = options }))))))))))

  register_verified-Keeps :
      (verifier : Text) (input : PasskeyFinishInput) (context : PasskeyRequestContext)
      (draws : RegistrationDraws) (principal : SessionPrincipal)
      → Keeps Gone (register_verified d verifier input context draws principal)
  unfolding register_verified
  register_verified-Keeps verifier input context draws principal =
      bind-Keeps Gone _ _ (take_registration-Keeps d content laws id input.ceremony_id) (λ ceremony.
        then-Keeps Gone _ _
          (throw_if-Keeps Gone
            (not (text_eq ceremony.account_id principal.user_id)
              || not (safe_equal ceremony.session_verifier verifier))
            invalid_passkey)
          (bind-Keeps Gone _ _ (checked-Keeps d content laws id (client_context_key d context))
            (λ key.
              then-Keeps Gone _ _
                (throw_if-Keeps Gone (not (safe_equal ceremony.client_context_key key))
                  invalid_passkey)
                (bind-Keeps Gone _ _
                  (verified_registration-Keeps d content laws id (
                    d.webauthn.verify_registration (record {
                      challenge = ceremony.challenge;
                      origins = d.configuration.origins;
                      rp_id = d.configuration.rp_id;
                      response = input.response;
                    })))
                  (λ verified. caught-Keeps d content laws id _ (
                    bind-Keeps Gone _ _
                      (ask-Keeps d content laws id
                        (register_passkey (registration_input verifier draws verified)))
                      (λ registered.
                        then-Keeps Gone _ _
                          (throw_if-Keeps Gone
                            (not (text_eq registered.0 principal.user_id)
                              || not (text_eq registered.1 draws.uuid))
                            (auth AuthErrorCode.unavailable))
                          (pure-Keeps _ _ Gone draws.uuid))))))))

  finish_registration-Keeps :
      (token : Text) (input : PasskeyFinishInput) (context : PasskeyRequestContext)
      (draws : RegistrationDraws)
      → Keeps Gone (finish_registration d token input context draws)
  unfolding finish_registration
  finish_registration-Keeps token input context draws =
      let verifier = d.session_token_verifier token in
      then-Keeps Gone _ _
        (throw_if-Keeps Gone (not (safe_credential_response input.response)) invalid_passkey)
        (then-Keeps Gone _ _
          (limits-Keeps d content laws id
            (record {
              key = d.rate_limit_key (codes "passkey-registration-finish-session") verifier;
              rule = d.policy.rate_limits.passkey_registration_finish_by_session;
            }
              ∷ [])
            draws.limits_now)
          (bind-Keeps Gone _ _ (ask-Keeps d content laws id (validate_session verifier draws.now))
            (λ valid.
              bind-Keeps Gone _ _ (valid_session-Keeps d content laws id valid)
                (λ principal. register_verified-Keeps verifier input context draws principal))))

  passkey_step-Keeps :
      (w : PasskeyWorld L C) (call : PasskeyCall) (calls : List PasskeyCall)
      → AllBeginOther id (call ∷ calls)
      → Gone w
      → Gone (passkey_step d w call) × AllBeginOther id calls
  unfolding passkey_step AllBeginOther Keeps
  passkey_step-Keeps w (PasskeyCall.begins_registration token context draws) calls (fresh, h) p =
      (begin_registration-Keeps token context draws fresh w p, h)
  passkey_step-Keeps w (PasskeyCall.finishes_registration token input context draws) calls h p =
      (finish_registration-Keeps token input context draws w p, h)
  passkey_step-Keeps w (PasskeyCall.begins_authentication context now uuid seed) calls (fresh, h)
        p =
      (begin_authentication-Keeps context now uuid seed fresh w p, h)
  passkey_step-Keeps w (PasskeyCall.finishes_authentication input context draws) calls h p =
      (finish_authentication-Keeps input context draws w p, h)

  -- A ceremony that is gone stays gone.
  pub run_passkeys-IsGone :
      (w : PasskeyWorld L C) (calls : List PasskeyCall)
      → AllBeginOther id calls
      → Gone w
      → Gone (run_passkeys d w calls)
  unfolding run_passkeys
  run_passkeys-IsGone w [] h p = p
  run_passkeys-IsGone w (call ∷ calls) h p =
      let (q, others) = passkey_step-Keeps w call calls h p in
      run_passkeys-IsGone (passkey_step d w call) calls others q
