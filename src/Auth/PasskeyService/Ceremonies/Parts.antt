-- ===== src/Auth/PasskeyService/Ceremonies/Parts.antt =====
-- A ceremony that is gone stays gone over the parts of the methods.
use kovcheg.Base.{
  ℕ, ◌≡◌, ◌≢◌, Option, none, some, List, [], ◌∷◌, Result, Keeps, bind-Keeps, pure-Keeps,
  throw-Keeps, if-both,
}
use kovcheg.Text.{Text}
use kovcheg.Auth.Types.{SessionPrincipal, AccountRecord, RateLimitDecision}
use kovcheg.Auth.Repository.State.{Method, is_active}
use kovcheg.Auth.Repository.Passkeys.{CompletePasskeyLoginResult}
use kovcheg.Auth.Service.Policy.{ServiceError}
use kovcheg.Auth.Service.Limits.{Limit}
use kovcheg.Auth.PasskeyService.World.{
  PasskeyCeremonyState, TakePasskeyCeremonyResult, PutPasskeyCeremonyResult, stored,
  put_unavailable, registering, authenticating, found, PasskeyDependencies, PasskeyWorld,
  PasskeyMethod, ask, PasskeyRegistrationVerification, PasskeyAuthenticationVerification,
}
use kovcheg.Auth.PasskeyService.Steps.{
  checked, passkey_caught, consume_passkey_rate_limits, taken, take_registration,
  take_authentication, put_ceremony, registration_ceremony, limit_decided, put_answered,
  authentication_ceremony,
}
use kovcheg.Auth.PasskeyService.Registration.{valid_session, active_account, verified_registration}
use kovcheg.Auth.PasskeyService.Authentication.{
  present, verified_authentication, completed_or_throw,
}
use kovcheg.Auth.PasskeyService.Ceremonies.{IsCeremonyStore}

module _ {L C : Type 0} (d : PasskeyDependencies L C)
    (content : Text → C → Option PasskeyCeremonyState)
    (laws : IsCeremonyStore d.ceremony_store content) (id : Text) where
  abbrev pub IsGone : PasskeyWorld L C → Type 0
  IsGone w = content id w.ceremonies ≡ none

  pub limit_decided-Keeps :
      (a : RateLimitDecision) (rest : PasskeyMethod L C (Unit {0}))
      → Keeps IsGone rest
      → Keeps IsGone (limit_decided a rest)
  unfolding Keeps
  limit_decided-Keeps RateLimitDecision.allowed rest k w p = k w p
  limit_decided-Keeps RateLimitDecision.limited rest k w p = p
  limit_decided-Keeps RateLimitDecision.unavailable rest k w p = p

  pub limits-Keeps :
      (ls : List Limit) (now : ℕ) → Keeps IsGone (consume_passkey_rate_limits d ls now)
  unfolding Keeps consume_passkey_rate_limits
  limits-Keeps [] now w p = p
  limits-Keeps (l ∷ ls) now w p =
      limit_decided-Keeps _ (consume_passkey_rate_limits d ls now) (limits-Keeps ls now) _ p

  pub taken-Keeps : (other : Text) → Keeps IsGone (taken d other)
  unfolding Keeps
  taken-Keeps other w p = laws.take-none id other w.ceremonies p

  pub registration_ceremony-Keeps :
      (a : TakePasskeyCeremonyResult) → Keeps IsGone (registration_ceremony {L = L} a)
  unfolding Keeps
  registration_ceremony-Keeps TakePasskeyCeremonyResult.unavailable w p = p
  registration_ceremony-Keeps TakePasskeyCeremonyResult.missing w p = p
  registration_ceremony-Keeps (found (authenticating c)) w p = p
  registration_ceremony-Keeps (found (registering c)) w p = p

  pub authentication_ceremony-Keeps :
      (a : TakePasskeyCeremonyResult) → Keeps IsGone (authentication_ceremony {L = L} a)
  unfolding Keeps
  authentication_ceremony-Keeps TakePasskeyCeremonyResult.unavailable w p = p
  authentication_ceremony-Keeps TakePasskeyCeremonyResult.missing w p = p
  authentication_ceremony-Keeps (found (authenticating c)) w p = p
  authentication_ceremony-Keeps (found (registering c)) w p = p

  pub take_registration-Keeps : (other : Text) → Keeps IsGone (take_registration d other)
  unfolding take_registration
  take_registration-Keeps other =
      bind-Keeps IsGone (taken d other) registration_ceremony (taken-Keeps other)
        registration_ceremony-Keeps

  pub take_authentication-Keeps : (other : Text) → Keeps IsGone (take_authentication d other)
  unfolding take_authentication
  take_authentication-Keeps other =
      bind-Keeps IsGone (taken d other) authentication_ceremony (taken-Keeps other)
        authentication_ceremony-Keeps

  pub put_answered-Keeps : (a : PutPasskeyCeremonyResult) → Keeps IsGone (put_answered {L = L} a)
  unfolding Keeps
  put_answered-Keeps stored w p = p
  put_answered-Keeps put_unavailable w p = p

  pub put_ceremony-Keeps :
      (other : Text) (s : PasskeyCeremonyState) → id ≢ other → Keeps IsGone (put_ceremony d other s)
  unfolding Keeps put_ceremony
  put_ceremony-Keeps other s h w p =
      put_answered-Keeps _ _
        (laws.put-other id other s d.policy.passkey.challenge_ttl_ms w.ceremonies h p)

  -- A repository call and a check do not touch the ceremonies.
  pub ask-Keeps : {A : Type 0} (m : Method A) → Keeps IsGone (ask {L = L} {C = C} m)
  unfolding Keeps
  ask-Keeps m w p = p

  pub checked-Keeps :
      {A : Type 0} (r : Result ServiceError A) → Keeps IsGone (checked {L = L} {C = C} r)
  unfolding Keeps
  checked-Keeps r w p = p

  pub caught-Keeps :
      {A : Type 0} (m : PasskeyMethod L C A) → Keeps IsGone m → Keeps IsGone (passkey_caught m)
  unfolding Keeps
  caught-Keeps m k w p = k w p

  pub present-Keeps : {A : Type 0} (a : Option A) → Keeps IsGone (present {L = L} {C = C} a)
  unfolding Keeps
  present-Keeps none w p = p
  present-Keeps (some a) w p = p

  pub valid_session-Keeps :
      (a : Option SessionPrincipal) → Keeps IsGone (valid_session {L = L} {C = C} a)
  valid_session-Keeps none = throw-Keeps _ _ IsGone _
  valid_session-Keeps (some a) = pure-Keeps _ _ IsGone a

  pub active_account-Keeps :
      (a : Option AccountRecord) → Keeps IsGone (active_account {L = L} {C = C} a)
  active_account-Keeps none = throw-Keeps _ _ IsGone _
  active_account-Keeps (some a) =
      if-both (Keeps IsGone) (is_active a.status) (pure-Keeps _ _ IsGone a)
        (throw-Keeps _ _ IsGone _)

  pub verified_registration-Keeps :
      (a : Option PasskeyRegistrationVerification)
      → Keeps IsGone (verified_registration {L = L} {C = C} a)
  verified_registration-Keeps none = throw-Keeps _ _ IsGone _
  verified_registration-Keeps (some a) =
      if-both (Keeps IsGone) a.user_verified (pure-Keeps _ _ IsGone a) (throw-Keeps _ _ IsGone _)

  pub verified_authentication-Keeps :
      (a : Option PasskeyAuthenticationVerification)
      → Keeps IsGone (verified_authentication {L = L} {C = C} a)
  verified_authentication-Keeps none = throw-Keeps _ _ IsGone _
  verified_authentication-Keeps (some a) =
      if-both (Keeps IsGone) a.user_verified (pure-Keeps _ _ IsGone a) (throw-Keeps _ _ IsGone _)

  pub completed_or_throw-Keeps :
      (account_id session_id : Text) (a : Option CompletePasskeyLoginResult)
      → Keeps IsGone (completed_or_throw {L = L} {C = C} account_id session_id a)
  completed_or_throw-Keeps account_id session_id none = throw-Keeps _ _ IsGone _
  completed_or_throw-Keeps account_id session_id (some a) =
      if-both (Keeps IsGone) _ (throw-Keeps _ _ IsGone _) (pure-Keeps _ _ IsGone a)
