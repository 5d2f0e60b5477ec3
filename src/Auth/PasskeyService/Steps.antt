-- ===== src/Auth/PasskeyService/Steps.antt =====
-- The private methods of `PasskeyService`.
use kovcheg.Base.{ℕ, List, [], ◌∷◌, Result, ok, err, ◌>>=◌, pure, throw}
use kovcheg.Text.{Text}
use kovcheg.Auth.Types.{RepositoryError, RateLimitDecision}
use kovcheg.Auth.Service.Policy.{AuthErrorCode, ServiceError, auth, repository}
use kovcheg.Auth.Service.Limits.{Limit, limit_call}
use kovcheg.Auth.PasskeyService.World.{
  PasskeyCeremonyState, TakePasskeyCeremonyResult, RegistrationCeremony, AuthenticationCeremony,
  registering, authenticating, found, PutPasskeyCeremonyResult, stored, put_unavailable,
  PasskeyDependencies, PasskeyMethod,
}
use kovcheg.Auth.PasskeyService.Inputs.{invalid_passkey}

-- A value or the error of a check.
abbrev pub checked : {L C A : Type 0} → Result ServiceError A → PasskeyMethod L C A
checked result w = (result, w)

unfoldable pub map_repository_failure : ServiceError → ServiceError
map_repository_failure (repository RepositoryError.authorization) = invalid_passkey
map_repository_failure (repository RepositoryError.conflict) = invalid_passkey
map_repository_failure (repository RepositoryError.not_found) = invalid_passkey
map_repository_failure (auth e) = auth e

unfoldable pub passkey_answer : {A : Type 0} → Result ServiceError A → Result ServiceError A
passkey_answer (ok a) = ok a
passkey_answer (err e) = err (map_repository_failure e)

-- `try { … } catch (error) { this.mapRepositoryFailure(error); }`
abbrev pub passkey_caught : {L C A : Type 0} → PasskeyMethod L C A → PasskeyMethod L C A
passkey_caught m w = let (answer, w') = m w in (passkey_answer answer, w')

-- What the loop over the limits does on a decision; the rest is what is after it.
abbrev pub limit_decided :
    {L C : Type 0} → RateLimitDecision → PasskeyMethod L C (Unit {0}) → PasskeyMethod L C (Unit {0})
limit_decided RateLimitDecision.allowed rest = rest
limit_decided RateLimitDecision.limited rest = throw invalid_passkey
limit_decided RateLimitDecision.unavailable rest = throw (auth AuthErrorCode.unavailable)

abbrev pub put_answered : {L C : Type 0} → PutPasskeyCeremonyResult → PasskeyMethod L C (Unit {0})
put_answered stored = pure tt
put_answered put_unavailable = throw (auth AuthErrorCode.unavailable)

-- What `takeCeremony` makes of the answer of the store.
abbrev pub registration_ceremony :
    {L C : Type 0} → TakePasskeyCeremonyResult → PasskeyMethod L C RegistrationCeremony
registration_ceremony TakePasskeyCeremonyResult.unavailable = throw (auth AuthErrorCode.unavailable)
registration_ceremony TakePasskeyCeremonyResult.missing = throw invalid_passkey
registration_ceremony (found (authenticating c)) = throw invalid_passkey
registration_ceremony (found (registering c)) = pure c

abbrev pub authentication_ceremony :
    {L C : Type 0} → TakePasskeyCeremonyResult → PasskeyMethod L C AuthenticationCeremony
authentication_ceremony TakePasskeyCeremonyResult.unavailable =
    throw (auth AuthErrorCode.unavailable)
authentication_ceremony TakePasskeyCeremonyResult.missing = throw invalid_passkey
authentication_ceremony (found (registering c)) = throw invalid_passkey
authentication_ceremony (found (authenticating c)) = pure c

module _ {L C : Type 0} (d : PasskeyDependencies L C) where
  -- The first limit that does not let the attempt through ends the loop.
  unfoldable pub consume_passkey_rate_limits : List Limit → ℕ → PasskeyMethod L C (Unit {0})
  consume_passkey_rate_limits [] now w = (ok tt, w)
  consume_passkey_rate_limits (l ∷ ls) now w =
      let (decision, state) = d.consume (limit_call l now) w.limiter in
      limit_decided decision (consume_passkey_rate_limits ls now) (record w { limiter = state })

  -- `this.dependencies.ceremonyStore.take(ceremonyId)`
  abbrev pub taken : Text → PasskeyMethod L C TakePasskeyCeremonyResult
  taken ceremony_id w =
      let (answer, store) = d.ceremony_store.take ceremony_id w.ceremonies in
      (ok answer, record w { ceremonies = store })

  -- `takeCeremony(ceremonyId, 'registration')`
  unfoldable pub take_registration : Text → PasskeyMethod L C RegistrationCeremony
  take_registration ceremony_id = do answer ← taken ceremony_id; registration_ceremony answer

  -- `takeCeremony(ceremonyId, 'authentication')`
  unfoldable pub take_authentication : Text → PasskeyMethod L C AuthenticationCeremony
  take_authentication ceremony_id = do answer ← taken ceremony_id; authentication_ceremony answer

  -- `this.dependencies.ceremonyStore.put(…) !== 'stored'`
  unfoldable pub put_ceremony : Text → PasskeyCeremonyState → PasskeyMethod L C (Unit {0})
  put_ceremony ceremony_id ceremony w =
      let (answer, store) =
        d.ceremony_store.put ceremony_id ceremony d.policy.passkey.challenge_ttl_ms w.ceremonies in
      put_answered answer (record w { ceremonies = store })
