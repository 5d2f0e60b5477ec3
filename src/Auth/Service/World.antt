-- ===== src/Auth/Service/World.antt =====
-- What the service works with: its repository, the state of the rate limiter and the deliveries under
-- way, and the parts that it is given.
use kovcheg.Base.{ℕ, List, Action, Result, ok, err}
use kovcheg.Text.{Text}
use kovcheg.Auth.Types.{RateLimitDecision, RepositoryError}
use kovcheg.Auth.Repository.State.{Repository, Method}
use kovcheg.Auth.RateLimiter.{LimitCall}
use kovcheg.Auth.Service.Policy.{AuthPolicy, AuthErrorCode, ServiceError, auth, repository}

pub record EmailChallengeMessage : Type 0 where
  pub challenge_id : Text
  pub code : Text
  pub expires_at : ℕ
  pub recipient : Text

-- A delivery that was started and has not ended, with the time that it was started at.
pub record Delivery : Type 0 where
  pub message : EmailChallengeMessage
  pub issued_at : ℕ

-- `L` is the state of the rate limiter.
pub record World (L : Type 0) : Type 0 where
  pub repository : Repository
  pub limiter : L
  pub deliveries : List Delivery

-- `AuthServiceDependencies`, less those that a call draws from (`clock` and `random`: their values
-- are arguments of the methods). The three keyed hashes are `AuthCrypto`'s.
pub record Dependencies (L : Type 0) : Type 0 where
  pub policy : AuthPolicy
  pub consume : LimitCall → L → RateLimitDecision × L
  pub challenge_code_verifier : Text → Text → Text
  pub rate_limit_key : Text → Text → Text
  pub session_token_verifier : Text → Text
  pub to_lower_case : Text → Text

abbrev pub Service : Type 0 → Type 0 → Type 0
Service L A = Action (World L) ServiceError A

module _ {L A : Type 0} where
  -- `await this.dependencies.repository.method(…)`, where nothing catches
  abbrev pub call : Method A → Service L A
  call m w =
      let (result, r) = m w.repository in
      (elim result [ ok a ↦ ok a | err e ↦ err (repository e) ], record w { repository = r })

  -- A value or the error of a normaliser.
  abbrev pub given : Result ServiceError A → Service L A
  given result w = (result, w)

-- `mapAdministrativeError`, on the errors of the repository
unfoldable pub map_administrative_error : RepositoryError → ServiceError
map_administrative_error RepositoryError.authorization = auth AuthErrorCode.forbidden
map_administrative_error RepositoryError.conflict = auth AuthErrorCode.conflict
map_administrative_error RepositoryError.not_found = auth AuthErrorCode.not_found

unfoldable pub administrative_answer : {A : Type 0} → Result ServiceError A → Result ServiceError A
administrative_answer (ok a) = ok a
administrative_answer (err (repository e)) = err (map_administrative_error e)
administrative_answer (err (auth e)) = err (auth e)

-- `try { … } catch (error) { this.mapAdministrativeError(error); }`
abbrev pub caught : {L A : Type 0} → Service L A → Service L A
caught m w = let (answer, w') = m w in (administrative_answer answer, w')
