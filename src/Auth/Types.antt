-- ===== src/Auth/Types.antt =====
-- The records of apps/auth/src/a2/contracts.ts and ports.ts, with the names that they take from
-- packages/contracts/src/principal-authorization.ts. Times and lifetimes are whole milliseconds.
use kovcheg.Base.{ℕ, Bool, List}
use kovcheg.Text.{Text}

pub data DomainStatus : Type 0 where
  incubator_participant disciple : DomainStatus

pub data FunctionalGrant : Type 0 where
  warrior platform_administrator chronicler editor technical_administrator : FunctionalGrant

unfoldable pub FunctionalGrant-discrete : Discrete FunctionalGrant
FunctionalGrant-discrete = hlevel

abbrev pub grant_eq : FunctionalGrant → FunctionalGrant → Bool
grant_eq a b = elim (FunctionalGrant-discrete a b) [ yes _ ↦ Bool.true | no _ ↦ Bool.false ]

pub data AccountStatus : Type 0 where
  active deactivated : AccountStatus

pub data MaterialCapabilityAction : Type 0 where
  create edit publish : MaterialCapabilityAction

pub record MaterialCapability : Type 0 where
  pub actions : List MaterialCapabilityAction
  pub material_type : Text

pub record AdministrativeCapabilities : Type 0 where
  pub can_manage_accounts : Bool
  pub can_manage_domain_status : Bool
  pub can_manage_functional_grants : Bool
  pub can_manage_platform_administrators : Bool

pub record DiagnosticCapabilities : Type 0 where
  pub can_read_build_and_migration_versions : Bool
  pub can_read_health_and_readiness : Bool
  pub can_read_queue_and_technical_state : Bool
  pub can_read_sanitized_diagnostics : Bool

-- `CurrentPrincipalAuthorization`, less the fields whose type has one value: `accountAccess`,
-- `accountStatus`, `contractVersion` and `sessionStatus`. `sensitiveCapabilities` has one field,
-- which stands here.
pub record SessionPrincipal : Type 0 where
  pub administrative_capabilities : AdministrativeCapabilities
  pub diagnostic_capabilities : DiagnosticCapabilities
  pub domain_status : DomainStatus
  pub functional_grants : List FunctionalGrant
  pub is_server_owner : Bool
  pub material_capabilities : List MaterialCapability
  pub can_perform_sensitive_actions : Bool
  pub session_id : Text
  pub user_id : Text

-- `accountAccess` has one value, `member`.
pub record AccountRecord : Type 0 where
  pub display_name : Text
  pub domain_status : DomainStatus
  pub email : Text
  pub functional_grants : List FunctionalGrant
  pub status : AccountStatus
  pub user_id : Text

pub record BootstrapAdministratorInput : Type 0 where
  pub bootstrap_id : Text
  pub display_name : Text
  pub email : Text
  pub user_id : Text

pub record ChallengeRecordInput : Type 0 where
  pub challenge_id : Text
  pub code_verifier : Text
  pub expires_at : ℕ
  pub issued_at : ℕ
  pub max_attempts : ℕ

pub record SessionRecordInput : Type 0 where
  pub absolute_expires_at : ℕ
  pub idle_lifetime_ms : ℕ
  pub issued_at : ℕ
  pub session_id : Text
  pub token_verifier : Text

pub data AuthPasskeyTransport : Type 0 where
  ble hybrid internal nfc smart_card usb : AuthPasskeyTransport

pub data AuthPasskeySignCountStatus : Type 0 where
  advanced not_advanced not_supported regressed : AuthPasskeySignCountStatus

pub record AuthPasskeyCredential : Type 0 where
  pub aaguid : Text
  pub account_id : Text
  pub attestation_format : Text
  pub credential_id : List ℕ
  pub last_backup_eligible : Bool
  pub last_backup_state : Bool
  pub passkey_id : Text
  pub public_key : List ℕ
  pub registered_backup_eligible : Bool
  pub registered_backup_state : Bool
  pub sign_count : ℕ
  pub transports : List AuthPasskeyTransport

pub record AuthSecurityResetResult : Type 0 where
  pub invalidated_challenge_count : ℕ
  pub revoked_application_session_count : ℕ
  pub revoked_passkey_count : ℕ

-- The three error classes of the repository.
pub data RepositoryError : Type 0 where
  conflict authorization not_found : RepositoryError

pub data IssueChallengeResult : Type 0 where
  issued : Text → Text → IssueChallengeResult
  neutral : IssueChallengeResult

pub data ConsumeChallengeResult : Type 0 where
  authenticated : SessionPrincipal → ConsumeChallengeResult
  invalid : ConsumeChallengeResult

pub record RateLimitRule : Type 0 where
  pub limit : ℕ
  pub window_ms : ℕ

pub data RateLimitDecision : Type 0 where
  allowed limited unavailable : RateLimitDecision
