-- ===== src/Auth/PasskeyService/Ceremonies.antt =====
-- The calls of the passkey service, and the promise of a ceremony store.
pub mod Parts
pub mod Methods
use kovcheg.Base.{
  ℕ, ◌≡◌, ◌≢◌, true, false, not, Option, none, some, List, [], ◌∷◌, Result, ◌||◌, after, Keeps,
  bind-Keeps, then-Keeps, pure-Keeps, throw-Keeps, if-both, throw_if-Keeps,
}
use kovcheg.Text.{Text, codes, text_eq}
use kovcheg.Auth.Types.{SessionPrincipal, AccountRecord, AuthPasskeyCredential, RateLimitDecision}
use kovcheg.Auth.Repository.State.{Method, is_active}
use kovcheg.Auth.Repository.Administration.{find_account_by_id}
use kovcheg.Auth.Repository.Sessions.{validate_session}
use kovcheg.Auth.Repository.Passkeys.{
  CompletePasskeyLoginResult, complete_passkey_login, register_passkey,
  read_passkey_by_credential_id,
}
use kovcheg.Auth.Service.Policy.{AuthErrorCode, ServiceError, auth}
use kovcheg.Auth.Service.Limits.{Limit}
use kovcheg.Auth.PasskeyService.World.{
  PasskeyCeremonyState, PasskeyCeremonyStore, TakePasskeyCeremonyResult, PutPasskeyCeremonyResult,
  stored, put_unavailable, AuthenticationCeremony, registering, authenticating, found,
  PasskeyRequestContext, PasskeyDependencies, PasskeyWorld, PasskeyMethod, ask,
  PasskeyRegistrationVerification, PasskeyAuthenticationVerification,
}
use kovcheg.Auth.PasskeyService.Inputs.{
  invalid_passkey, is_challenge, credential_id, safe_equal, safe_credential_response,
  client_context_key, authentication_limits,
}
use kovcheg.Auth.PasskeyService.Steps.{
  checked, passkey_caught, consume_passkey_rate_limits, taken, take_registration,
  take_authentication, put_ceremony, registration_ceremony, limit_decided, put_answered,
  authentication_ceremony,
}
use kovcheg.Auth.PasskeyService.Registration.{
  RegistrationDraws, PasskeyFinishInput, registration_input, registration_options, valid_session,
  active_account, verified_registration, begin_registration, register_verified, finish_registration,
}
use kovcheg.Auth.PasskeyService.Authentication.{
  LoginDraws, present, verified_authentication, completed_or_throw, begin_authentication,
  verify_assertion, open_session, login_answer, login_input, expected_assertion,
  finish_authentication,
}

-- What a store promises, where `content` says which ceremony it holds under an id. A ceremony that is
-- taken is gone, and only a `put` under its own id brings one to an id that has none.
pub record IsCeremonyStore {C : Type 0} (store : PasskeyCeremonyStore C)
    (content : Text → C → Option PasskeyCeremonyState) : Type 0 where
  pub take-found :
      (id : Text) (c : C) (s : PasskeyCeremonyState)
      → (store.take id c).0 ≡ found s
      → content id c ≡ some s
  pub take-gone :
      (id : Text) (c : C) (s : PasskeyCeremonyState)
      → (store.take id c).0 ≡ found s
      → content id (store.take id c).1 ≡ none
  pub take-none :
      (id other : Text) (c : C) → content id c ≡ none → content id (store.take other c).1 ≡ none
  pub put-other :
      (id other : Text) (s : PasskeyCeremonyState) (ttl : ℕ) (c : C)
      → id ≢ other
      → content id c ≡ none
      → content id (store.put other s ttl c).1 ≡ none

pub data PasskeyCall : Type 0 where
  begins_registration : Text → PasskeyRequestContext → RegistrationDraws → PasskeyCall
  finishes_registration :
      Text → PasskeyFinishInput → PasskeyRequestContext → RegistrationDraws → PasskeyCall
  begins_authentication : PasskeyRequestContext → ℕ → Text → ℕ → PasskeyCall
  finishes_authentication : PasskeyFinishInput → PasskeyRequestContext → LoginDraws → PasskeyCall

-- No ceremony is begun under the id: the random source has not given it again.
unfoldable pub AllBeginOther : Text → List PasskeyCall → Type 0
AllBeginOther id [] = Unit {0}
AllBeginOther id (PasskeyCall.begins_registration token context draws ∷ calls) =
    (id ≢ draws.uuid) × AllBeginOther id calls
AllBeginOther id (PasskeyCall.finishes_registration token input context draws ∷ calls) =
    AllBeginOther id calls
AllBeginOther id (PasskeyCall.begins_authentication context now uuid seed ∷ calls) =
    (id ≢ uuid) × AllBeginOther id calls
AllBeginOther id (PasskeyCall.finishes_authentication input context draws ∷ calls) =
    AllBeginOther id calls

module _ {L C : Type 0} (d : PasskeyDependencies L C) where
  unfoldable pub passkey_step : PasskeyWorld L C → PasskeyCall → PasskeyWorld L C
  passkey_step w (PasskeyCall.begins_registration token context draws) =
      after (begin_registration d token context draws w)
  passkey_step w (PasskeyCall.finishes_registration token input context draws) =
      after (finish_registration d token input context draws w)
  passkey_step w (PasskeyCall.begins_authentication context now uuid seed) =
      after (begin_authentication d context now uuid seed w)
  passkey_step w (PasskeyCall.finishes_authentication input context draws) =
      after (finish_authentication d input context draws w)

  unfoldable pub run_passkeys : PasskeyWorld L C → List PasskeyCall → PasskeyWorld L C
  run_passkeys w [] = w
  run_passkeys w (call ∷ calls) = run_passkeys (passkey_step w call) calls
