-- ===== src/Auth/PasskeyService/World.antt =====
-- What the passkey service works with: the repository, the state of the rate limiter and the pending
-- ceremonies, and the parts that it is given.
use kovcheg.Base.{ℕ, Bool, List, Option, Action, ok, err}
use kovcheg.Text.{Text}
use kovcheg.Auth.Types.{RateLimitDecision, AuthPasskeyTransport, AuthPasskeyCredential}
use kovcheg.Auth.Repository.State.{Repository, Method}
use kovcheg.Auth.RateLimiter.{LimitCall}
use kovcheg.Auth.Service.Policy.{AuthPolicy, ServiceError, repository}

pub record RegistrationCeremony : Type 0 where
  pub account_id : Text
  pub challenge : Text
  pub client_context_key : Text
  pub session_verifier : Text

pub record AuthenticationCeremony : Type 0 where
  pub challenge : Text
  pub client_context_key : Text

pub data PasskeyCeremonyState : Type 0 where
  registering : RegistrationCeremony → PasskeyCeremonyState
  authenticating : AuthenticationCeremony → PasskeyCeremonyState

pub data TakePasskeyCeremonyResult : Type 0 where
  found : PasskeyCeremonyState → TakePasskeyCeremonyResult
  missing unavailable : TakePasskeyCeremonyResult

pub data PutPasskeyCeremonyResult : Type 0 where
  stored put_unavailable : PutPasskeyCeremonyResult

-- `PasskeyRequestContext`, less the correlation id, which the local repository ignores
pub record PasskeyRequestContext : Type 0 where
  pub fingerprint : Text
  pub network_address : Text

-- A credential response as the client sent it: whether it is an object that is no array, what
-- `JSON.stringify` gives for it, if that does not throw, and its `id`.
pub record CredentialResponse : Type 0 where
  pub is_object : Bool
  pub json : Option Text
  pub id : Text

-- The options that the WebAuthn library makes, of which the service reads the challenge.
pub record CredentialOptions : Type 0 where
  pub challenge : Text
  pub json : Text

pub record PasskeyRegistrationVerification : Type 0 where
  pub aaguid : Text
  pub attestation_format : Text
  pub backup_eligible : Bool
  pub backup_state : Bool
  pub credential_id : List ℕ
  pub public_key : List ℕ
  pub sign_count : ℕ
  pub transports : List AuthPasskeyTransport
  pub user_verified : Bool

pub record PasskeyAuthenticationVerification : Type 0 where
  pub backup_eligible : Bool
  pub backup_state : Bool
  pub observed_sign_count : ℕ
  pub user_verified : Bool

pub record RegistrationOptionsInput : Type 0 where
  pub account_id : Text
  pub account_label : Text
  pub rp_id : Text
  pub rp_name : Text
  pub timeout_ms : ℕ

pub record AuthenticationOptionsInput : Type 0 where
  pub rp_id : Text
  pub timeout_ms : ℕ

pub record Expected : Type 0 where
  pub challenge : Text
  pub origins : List Text
  pub rp_id : Text
  pub response : CredentialResponse

-- `WebAuthnServer`. The options depend on a value that the library draws.
pub record WebAuthnServer : Type 0 where
  pub generate_registration_options : RegistrationOptionsInput → ℕ → CredentialOptions
  pub generate_authentication_options : AuthenticationOptionsInput → ℕ → CredentialOptions
  pub verify_registration : Expected → Option PasskeyRegistrationVerification
  pub verify_authentication :
      AuthPasskeyCredential → Expected → Option PasskeyAuthenticationVerification

-- `PasskeyCeremonyStore`, on stores of the type `C`
pub record PasskeyCeremonyStore (C : Type 0) : Type 0 where
  pub put : Text → PasskeyCeremonyState → ℕ → C → PutPasskeyCeremonyResult × C
  pub take : Text → C → TakePasskeyCeremonyResult × C

pub record PasskeyConfiguration : Type 0 where
  pub origins : List Text
  pub rp_id : Text
  pub rp_name : Text

-- `PasskeyServiceDependencies`, less those that a call draws from (`clock` and `random`).
pub record PasskeyDependencies (L C : Type 0) : Type 0 where
  pub ceremony_store : PasskeyCeremonyStore C
  pub configuration : PasskeyConfiguration
  pub consume : LimitCall → L → RateLimitDecision × L
  pub policy : AuthPolicy
  pub rate_limit_key : Text → Text → Text
  pub session_token_verifier : Text → Text
  pub webauthn : WebAuthnServer

pub record PasskeyWorld (L C : Type 0) : Type 0 where
  pub repository : Repository
  pub limiter : L
  pub ceremonies : C

abbrev pub PasskeyMethod : Type 0 → Type 0 → Type 0 → Type 0
PasskeyMethod L C A = Action (PasskeyWorld L C) ServiceError A

-- `await this.dependencies.repository.method(…)`
abbrev pub ask : {L C A : Type 0} → Method A → PasskeyMethod L C A
ask m w =
    let (result, r) = m w.repository in
    (elim result [ ok a ↦ ok a | err e ↦ err (repository e) ], record w { repository = r })
