-- ===== src/Auth/Service/Administration.antt =====
-- The administrative methods of `AuthService`. Each takes the token of the administrator and the
-- time, and passes on what the repository answers, with its errors mapped.
use kovcheg.Base.{ℕ, Bool, ◌>>=◌}
use kovcheg.Text.{Text}
use kovcheg.Auth.Types.{
  DomainStatus, FunctionalGrant, AccountStatus, AccountRecord, AuthSecurityResetResult,
}
use kovcheg.Auth.Repository.Administration.{
  admin_security_reset_auth_access, create_account_as_administrator,
  grant_functional_grant_as_administrator, revoke_functional_grant_as_administrator,
  set_account_status_as_administrator, set_domain_status_as_administrator,
  update_account_as_administrator,
}
use kovcheg.Auth.Repository.Sessions.{
  revoke_all_sessions_as_administrator, revoke_session_as_administrator,
}
use kovcheg.Auth.Service.Inputs.{
  normalize_email, normalize_display_name, normalize_authorization_reason,
  normalize_authorization_version,
}
use kovcheg.Auth.Service.World.{Dependencies, Service, call, given, caught}

pub record AccountInput : Type 0 where
  pub display_name : Text
  pub email : Text

pub record AuthorizationMutationInput : Type 0 where
  pub reason : Text
  pub version : ℕ

module _ {L : Type 0} (d : Dependencies L) (administrator_session_token : Text) (now : ℕ) where
  abbrev actor : Text
  actor = d.session_token_verifier administrator_session_token

  unfoldable pub create_account : AccountInput → Text → Service L AccountRecord
  create_account input user_id = caught (do
    display_name ← given (normalize_display_name input.display_name)
    email ← given (normalize_email d.to_lower_case input.email)
    call (create_account_as_administrator actor now display_name email user_id))

  unfoldable pub grant_functional_grant :
      Text → FunctionalGrant → AuthorizationMutationInput → Service L AccountRecord
  grant_functional_grant user_id grant input = caught (do
    reason ← given (normalize_authorization_reason d.to_lower_case input.reason)
    version ← given (normalize_authorization_version input.version)
    call (grant_functional_grant_as_administrator actor now user_id grant))

  unfoldable pub revoke_functional_grant :
      Text → FunctionalGrant → AuthorizationMutationInput → Service L AccountRecord
  revoke_functional_grant user_id grant input = caught (do
    reason ← given (normalize_authorization_reason d.to_lower_case input.reason)
    version ← given (normalize_authorization_version input.version)
    call (revoke_functional_grant_as_administrator actor now user_id grant))

  unfoldable pub revoke_all_sessions : Text → Service L ℕ
  revoke_all_sessions user_id =
      caught (call (revoke_all_sessions_as_administrator actor now user_id))

  unfoldable pub revoke_session : Text → Text → Service L Bool
  revoke_session user_id session_id =
      caught (call (revoke_session_as_administrator actor now user_id session_id))

  unfoldable pub set_account_status : Text → AccountStatus → Service L AccountRecord
  set_account_status user_id status =
      caught (call (set_account_status_as_administrator actor now user_id status))

  unfoldable pub set_domain_status :
      Text → DomainStatus → AuthorizationMutationInput → Service L AccountRecord
  set_domain_status user_id domain_status input = caught (do
    reason ← given (normalize_authorization_reason d.to_lower_case input.reason)
    version ← given (normalize_authorization_version input.version)
    call (set_domain_status_as_administrator actor now user_id domain_status))

  unfoldable pub update_account : Text → AccountInput → Service L AccountRecord
  update_account user_id input = caught (do
    display_name ← given (normalize_display_name input.display_name)
    email ← given (normalize_email d.to_lower_case input.email)
    call (update_account_as_administrator actor now user_id display_name email))

  unfoldable pub security_reset_auth_access : Text → Service L AuthSecurityResetResult
  security_reset_auth_access account_id =
      caught (call (admin_security_reset_auth_access actor account_id now))
