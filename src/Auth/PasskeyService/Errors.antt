-- ===== src/Auth/PasskeyService/Errors.antt =====
-- What the parts of the passkey methods throw.
pub mod Methods
use kovcheg.Base.{
  ℕ, length, ltb, refl, ◌||◌, true, false, if◌then◌else◌, ◌≡◌, ◌≢◌, subst, Bool, not, Option, none,
  some, List, [], ◌∷◌, Result, ok, err, result, Result-cases, inl, inr, Throws, bind-Throws,
  throw_if-Throws, ok-err, same_error, if-both, pure, throw, throw_if, arith,
}
use kovcheg.Text.{Text}
use kovcheg.Text.Whitespace.{trim}
use kovcheg.Auth.Types.{RepositoryError, RateLimitDecision, SessionPrincipal, AccountRecord}
use kovcheg.Auth.Repository.State.{Repository, Method, is_active}
use kovcheg.Auth.Service.Policy.{AuthErrorCode, ServiceError, auth, repository}
use kovcheg.Auth.Service.Limits.{Limit}
use kovcheg.Auth.PasskeyService.World.{
  PasskeyCeremonyState, TakePasskeyCeremonyResult, PutPasskeyCeremonyResult, stored,
  put_unavailable, registering, authenticating, found, PasskeyDependencies, PasskeyWorld,
  PasskeyMethod, PasskeyRequestContext, ask, PasskeyRegistrationVerification,
  PasskeyAuthenticationVerification,
}
use kovcheg.Auth.PasskeyService.Inputs.{
  normalized_dimension, client_context_key, authentication_limits,
}
use kovcheg.Auth.PasskeyService.Steps.{
  checked, passkey_caught, passkey_answer, map_repository_failure, consume_passkey_rate_limits,
  taken, take_registration, take_authentication, put_ceremony, registration_ceremony, limit_decided,
  put_answered, authentication_ceremony,
}
use kovcheg.Auth.PasskeyService.Registration.{valid_session, active_account, verified_registration}
use kovcheg.Auth.PasskeyService.Authentication.{present, verified_authentication}

-- The error has a code of the service, and is none of the repository's.
abbrev pub IsAuth : ServiceError → Type 0
IsAuth e = (x : RepositoryError) → e ≢ repository x

auth-IsAuth : (code : AuthErrorCode) → IsAuth (auth code)
auth-IsAuth code x h = absurd (ground arith)

module _ {L C : Type 0} (d : PasskeyDependencies L C) where
  abbrev pub IsSafe : {A : Type 0} → PasskeyMethod L C A → Type 0
  IsSafe m = Throws IsAuth m

  throw-IsSafe : (A : Type 0) (code : AuthErrorCode) → IsSafe (throw {A = A} (auth code))
  unfolding Throws
  throw-IsSafe A code w e h = subst IsAuth (same_error (auth code) e h) (auth-IsAuth code)

  pub pure-IsSafe : {A : Type 0} (a : A) → IsSafe (pure a)
  unfolding Throws
  pure-IsSafe a w e h = absurd (ok-err a e h)

  pub throw_if-IsSafe : (b : Bool) (code : AuthErrorCode) → IsSafe (throw_if b (auth code))
  throw_if-IsSafe b code =
      throw_if-Throws (PasskeyWorld L C) IsAuth b (auth code) (auth-IsAuth code)

  limit_decided-IsSafe :
      (a : RateLimitDecision) (rest : PasskeyMethod L C (Unit {0}))
      → IsSafe rest
      → IsSafe (limit_decided a rest)
  limit_decided-IsSafe RateLimitDecision.allowed rest k = k
  limit_decided-IsSafe RateLimitDecision.limited rest k = throw-IsSafe _ _
  limit_decided-IsSafe RateLimitDecision.unavailable rest k = throw-IsSafe _ _

  pub limits-IsSafe : (ls : List Limit) (now : ℕ) → IsSafe (consume_passkey_rate_limits d ls now)
  unfolding Throws consume_passkey_rate_limits
  limits-IsSafe [] now w e h = absurd (ok-err tt e h)
  limits-IsSafe (l ∷ ls) now w e h =
      limit_decided-IsSafe _ (consume_passkey_rate_limits d ls now) (limits-IsSafe ls now) _ e h

  taken-IsSafe : (id : Text) → IsSafe (taken d id)
  unfolding Throws
  taken-IsSafe id w e h = absurd (ok-err _ e h)

  registration_ceremony-IsSafe : (a : TakePasskeyCeremonyResult) → IsSafe (registration_ceremony a)
  registration_ceremony-IsSafe TakePasskeyCeremonyResult.unavailable = throw-IsSafe _ _
  registration_ceremony-IsSafe TakePasskeyCeremonyResult.missing = throw-IsSafe _ _
  registration_ceremony-IsSafe (found (authenticating c)) = throw-IsSafe _ _
  registration_ceremony-IsSafe (found (registering c)) = pure-IsSafe c

  authentication_ceremony-IsSafe :
      (a : TakePasskeyCeremonyResult) → IsSafe (authentication_ceremony a)
  authentication_ceremony-IsSafe TakePasskeyCeremonyResult.unavailable = throw-IsSafe _ _
  authentication_ceremony-IsSafe TakePasskeyCeremonyResult.missing = throw-IsSafe _ _
  authentication_ceremony-IsSafe (found (registering c)) = throw-IsSafe _ _
  authentication_ceremony-IsSafe (found (authenticating c)) = pure-IsSafe c

  put_answered-IsSafe : (a : PutPasskeyCeremonyResult) → IsSafe (put_answered a)
  put_answered-IsSafe stored = pure-IsSafe tt
  put_answered-IsSafe put_unavailable = throw-IsSafe _ _

  pub put_ceremony-IsSafe : (id : Text) (s : PasskeyCeremonyState) → IsSafe (put_ceremony d id s)
  unfolding put_ceremony Throws
  put_ceremony-IsSafe id s w e h = put_answered-IsSafe _ _ e h

  -- A repository call that never throws.
  pub ask-IsSafe :
      {A : Type 0} (m : Method A)
      → ((r : Repository) (x : RepositoryError) → result (m r) ≢ err x)
      → IsSafe (ask m)
  unfolding Throws
  ask-IsSafe m never w e h = elim (Result-cases (result (m w.repository))) [
    | inl (a, k) ↦ absurd (ground arith)
    | inr (x, k) ↦ absurd (never w.repository x k)
  ]

  -- What the `try` blocks throw is mapped.
  mapped-IsAuth : (e : ServiceError) → IsAuth (map_repository_failure e)
  unfolding map_repository_failure
  mapped-IsAuth (repository RepositoryError.authorization) = auth-IsAuth _
  mapped-IsAuth (repository RepositoryError.conflict) = auth-IsAuth _
  mapped-IsAuth (repository RepositoryError.not_found) = auth-IsAuth _
  mapped-IsAuth (auth e) = auth-IsAuth e

  answer-IsAuth :
      {A : Type 0} (r : Result ServiceError A) (e : ServiceError)
      → passkey_answer r ≡ err e
      → IsAuth e
  unfolding passkey_answer
  answer-IsAuth (ok a) e h = absurd (ok-err a e h)
  answer-IsAuth (err x) e h = subst IsAuth (same_error _ e h) (mapped-IsAuth x)

  pub caught-IsSafe : {A : Type 0} (m : PasskeyMethod L C A) → IsSafe (passkey_caught m)
  unfolding Throws
  caught-IsSafe m w e h = answer-IsAuth (result (m w)) e h

  pub take_registration-IsSafe : (id : Text) → IsSafe (take_registration d id)
  unfolding take_registration
  take_registration-IsSafe id =
      bind-Throws IsAuth (taken d id) registration_ceremony (taken-IsSafe id)
        registration_ceremony-IsSafe

  pub take_authentication-IsSafe : (id : Text) → IsSafe (take_authentication d id)
  unfolding take_authentication
  take_authentication-IsSafe id =
      bind-Throws IsAuth (taken d id) authentication_ceremony (taken-IsSafe id)
        authentication_ceremony-IsSafe

  pub present-IsSafe : {A : Type 0} (a : Option A) → IsSafe (present a)
  present-IsSafe none = throw-IsSafe _ _
  present-IsSafe (some a) = pure-IsSafe a

  pub valid_session-IsSafe : (a : Option SessionPrincipal) → IsSafe (valid_session a)
  valid_session-IsSafe none = throw-IsSafe _ _
  valid_session-IsSafe (some a) = pure-IsSafe a

  pub active_account-IsSafe : (a : Option AccountRecord) → IsSafe (active_account a)
  active_account-IsSafe none = throw-IsSafe _ _
  active_account-IsSafe (some a) =
      if-both IsSafe (is_active a.status) (pure-IsSafe a) (throw-IsSafe _ _)

  pub verified_registration-IsSafe :
      (a : Option PasskeyRegistrationVerification) → IsSafe (verified_registration a)
  verified_registration-IsSafe none = throw-IsSafe _ _
  verified_registration-IsSafe (some a) =
      if-both IsSafe a.user_verified (pure-IsSafe a) (throw-IsSafe _ _)

  pub verified_authentication-IsSafe :
      (a : Option PasskeyAuthenticationVerification) → IsSafe (verified_authentication a)
  verified_authentication-IsSafe none = throw-IsSafe _ _
  verified_authentication-IsSafe (some a) =
      if-both IsSafe a.user_verified (pure-IsSafe a) (throw-IsSafe _ _)

  -- The checks of a request's context fail on an input that is not valid.
  dimension_if-IsAuth :
      (b : Bool) (t : Text) (e : ServiceError)
      → (if b then err (auth AuthErrorCode.invalid_input) else ok t) ≡ err e
      → IsAuth e
  dimension_if-IsAuth true t e h = subst IsAuth (same_error _ e h) (auth-IsAuth _)
  dimension_if-IsAuth false t e h = absurd (ok-err t e h)

  dimension-IsAuth : (t : Text) (e : ServiceError) → normalized_dimension t ≡ err e → IsAuth e
  unfolding normalized_dimension
  dimension-IsAuth t e h =
      dimension_if-IsAuth (ltb (length (trim t)) 1 || ltb 256 (length (trim t))) (trim t) e h

  chained-IsAuth :
      {A B : Type 0} (r : Result ServiceError A) (f : A → Result ServiceError B)
      → ((e : ServiceError) → r ≡ err e → IsAuth e)
      → ((a : A) (e : ServiceError) → f a ≡ err e → IsAuth e)
      → (e : ServiceError) → elim r [ err x ↦ err x | ok a ↦ f a ] ≡ err e
      → IsAuth e
  chained-IsAuth (ok a) f k l e h = l a e h
  chained-IsAuth (err x) f k l e h = subst IsAuth (same_error x e h) (k x refl)

  dimensions-IsAuth :
      {B : Type 0} (context : PasskeyRequestContext) (f : Text → Text → B) (e : ServiceError)
      → elim (normalized_dimension context.fingerprint) [
        | err x ↦ err x
        | ok a ↦ elim (normalized_dimension context.network_address) [
          | err x ↦ err x
          | ok b ↦ ok (f a b)
        ]
      ]
        ≡ err e
      → IsAuth e
  dimensions-IsAuth context f e h =
      chained-IsAuth (normalized_dimension context.fingerprint)
        (λ a. elim (normalized_dimension context.network_address) [
          | err x ↦ err x
          | ok b ↦ ok (f a b)
        ])
        (dimension-IsAuth context.fingerprint)
        (λ a.
          chained-IsAuth (normalized_dimension context.network_address) (λ b. ok (f a b))
            (dimension-IsAuth context.network_address) (λ b e k. absurd (ok-err (f a b) e k)))
        e h

  pub client_context_key-IsSafe :
      (context : PasskeyRequestContext) → IsSafe (checked (client_context_key d context))
  unfolding Throws client_context_key
  client_context_key-IsSafe context w e h = dimensions-IsAuth context _ e h

  pub authentication_limits-IsSafe :
      (begins : Bool) (context : PasskeyRequestContext)
      → IsSafe (checked (authentication_limits d begins context))
  unfolding Throws authentication_limits
  authentication_limits-IsSafe begins context w e h = dimensions-IsAuth context _ e h
