-- ===== src/Auth/Repository/State.antt =====
-- The maps that `LocalAuthRepository` keeps, and the helpers above the class.
-- An account is one object that two maps refer to. It stands in `accountsById` from its creation
-- on, under a `userId` that never changes, so the reference that `accountsByEmail` holds is
-- modelled by that id, and read through `accounts_by_id`. Likewise `passkeysByCredentialId`.
use kovcheg.Base.{
  ℕ, Bool, true, false, ◌&&◌, List, [], ◌∷◌, Option, none, some, if◌then◌else◌, Action, length,
  ◌==◌,
}
use kovcheg.Text.{Text, codes, text_eq}
use kovcheg.Text.Bytes.{utf8, bytes_eq}
use kovcheg.Dict.{Dict, get}
use kovcheg.Auth.Types.{
  DomainStatus, FunctionalGrant, platform_administrator, technical_administrator, grant_eq,
  AccountStatus, active, deactivated, AccountRecord, SessionPrincipal, ChallengeRecordInput,
  SessionRecordInput, AuthPasskeyTransport, RepositoryError,
}

pub record StoredAccount : Type 0 where
  pub display_name : Text
  pub domain_status : DomainStatus
  pub email : Text
  pub functional_grants : List FunctionalGrant
  pub is_server_owner : Bool
  pub status : AccountStatus
  pub user_id : Text

pub record StoredChallenge : Type 0 where
  pub input : ChallengeRecordInput
  pub open input use *
  pub account_id : Text
  pub attempts : ℕ
  pub invalidated_at : Option ℕ
  pub used_at : Option ℕ

pub record StoredSession : Type 0 where
  pub input : SessionRecordInput
  pub open input use *
  pub account_id : Text
  pub idle_expires_at : ℕ
  pub last_seen_at : ℕ
  pub revoked_at : Option ℕ
  pub source_oidc_token_verifier : Option Text

pub record StoredPasskey : Type 0 where
  pub aaguid : Text
  pub account_id : Text
  pub attestation_format : Text
  pub credential_id : List ℕ
  pub created_at : ℕ
  pub last_backup_eligible : Bool
  pub last_backup_state : Bool
  pub last_used_at : Option ℕ
  pub passkey_id : Text
  pub public_key : List ℕ
  pub registered_backup_eligible : Bool
  pub registered_backup_state : Bool
  pub revoked_at : Option ℕ
  pub sign_count : ℕ
  pub transports : List AuthPasskeyTransport

pub record Repository : Type 0 where
  pub accounts_by_email : Dict Text
  pub accounts_by_id : Dict StoredAccount
  pub bootstrap_accounts : Dict Text
  pub challenges : Dict StoredChallenge
  pub latest_challenge_at : Dict ℕ
  pub passkeys_by_credential_id : Dict Text
  pub passkeys_by_id : Dict StoredPasskey
  pub sessions_by_verifier : Dict StoredSession

-- The maps as they are initialised.
abbrev pub empty_repository : Repository
empty_repository = record {
  accounts_by_email = [];
  accounts_by_id = [];
  bootstrap_accounts = [];
  challenges = [];
  latest_challenge_at = [];
  passkeys_by_credential_id = [];
  passkeys_by_id = [];
  sessions_by_verifier = [];
}

-- The constructor, from `NODE_ENV`: it throws in production.
unfoldable pub new_local_auth_repository : Option Text → Option Repository
new_local_auth_repository none = some empty_repository
new_local_auth_repository (some environment) =
    if text_eq environment (codes "production") then none else some empty_repository

-- A method of the repository.
abbrev pub Method : Type 0 → Type 0
Method A = Action Repository RepositoryError A

abbrev pub is_active : AccountStatus → Bool
is_active active = true
is_active deactivated = false

-- `functionalGrants.includes(grant)`
unfoldable pub includes_grant : FunctionalGrant → List FunctionalGrant → Bool
includes_grant grant [] = false
includes_grant grant (g ∷ gs) = if grant_eq g grant then true else includes_grant grant gs

-- A read through the reference in `accountsByEmail`.
abbrev pub account_by_email : Text → Repository → Option StoredAccount
account_by_email email r = elim (get email r.accounts_by_email) [
  | none ↦ none
  | some id ↦ get id r.accounts_by_id
]

-- A read through the reference in `passkeysByCredentialId`.
abbrev pub passkey_by_credential_key : Text → Repository → Option StoredPasskey
passkey_by_credential_key key r = elim (get key r.passkeys_by_credential_id) [
  | none ↦ none
  | some id ↦ get id r.passkeys_by_id
]

unfoldable pub clone_account : StoredAccount → AccountRecord
clone_account account = record {
  display_name = account.display_name;
  domain_status = account.domain_status;
  email = account.email;
  functional_grants = account.functional_grants;
  status = account.status;
  user_id = account.user_id;
}

unfoldable pub session_principal : StoredAccount → StoredSession → SessionPrincipal
session_principal account session =
    let is_administrator = includes_grant platform_administrator account.functional_grants in
    let is_technical_administrator =
      includes_grant technical_administrator account.functional_grants in
    record {
      administrative_capabilities = record {
        can_manage_accounts = is_administrator;
        can_manage_domain_status = is_administrator;
        can_manage_functional_grants = is_administrator;
        can_manage_platform_administrators = account.is_server_owner;
      };
      diagnostic_capabilities = record {
        can_read_build_and_migration_versions = is_technical_administrator;
        can_read_health_and_readiness = is_technical_administrator;
        can_read_queue_and_technical_state = is_technical_administrator;
        can_read_sanitized_diagnostics = is_technical_administrator;
      };
      domain_status = account.domain_status;
      functional_grants = account.functional_grants;
      is_server_owner = account.is_server_owner;
      material_capabilities = [];
      can_perform_sensitive_actions = false;
      session_id = session.session_id;
      user_id = account.user_id;
    }

unfoldable pub safe_verifier_equal : Text → Text → Bool
safe_verifier_equal left right =
    let left_bytes = utf8 left in
    let right_bytes = utf8 right in
    (length left_bytes == length right_bytes) && bytes_eq left_bytes right_bytes
