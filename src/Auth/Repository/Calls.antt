-- ===== src/Auth/Repository/Calls.antt =====
-- `ExclusiveQueue`, and the calls that `LocalAuthRepository` puts on it. Each operation starts when
-- the one before it has returned or thrown, so a history of the repository is a list of calls.
use kovcheg.Base.{ℕ, List, [], ◌∷◌, after}
use kovcheg.Text.{Text}
use kovcheg.Auth.Types.{
  DomainStatus, FunctionalGrant, AccountStatus, BootstrapAdministratorInput, ChallengeRecordInput,
  SessionRecordInput,
}
use kovcheg.Auth.Repository.State.{Repository}
use kovcheg.Auth.Repository.Administration.{
  admin_security_reset_auth_access, bootstrap_administrator, create_account_as_administrator,
  find_account_by_id, grant_functional_grant_as_administrator,
  revoke_functional_grant_as_administrator, set_account_status_as_administrator,
  set_domain_status_as_administrator, update_account_as_administrator,
}
use kovcheg.Auth.Repository.Sessions.{
  authenticate_session, validate_session, create_oidc_session, revoke_all_sessions_as_administrator,
  revoke_session_as_administrator, revoke_session_by_verifier,
}
use kovcheg.Auth.Repository.Challenges.{
  issue_email_challenge, consume_challenge_and_create_session, invalidate_challenge,
}
use kovcheg.Auth.Repository.Passkeys.{
  PasskeyLogin, PasskeyRegistration, complete_passkey_login, read_passkey_by_credential_id,
  register_passkey,
}

pub data Call : Type 0 where
  authenticate : Text → ℕ → Call
  validate : Text → ℕ → Call
  open_oidc : Text → SessionRecordInput → Text → Call
  revoke_all : Text → ℕ → Text → Call
  revoke_one : Text → ℕ → Text → Text → Call
  log_out : Text → ℕ → Call
  reset_access : Text → Text → ℕ → Call
  bootstrap : BootstrapAdministratorInput → Call
  create_account : Text → ℕ → Text → Text → Text → Call
  find_account : Text → Call
  grant_grant : Text → ℕ → Text → FunctionalGrant → Call
  revoke_grant : Text → ℕ → Text → FunctionalGrant → Call
  set_status : Text → ℕ → Text → AccountStatus → Call
  set_domain : Text → ℕ → Text → DomainStatus → Call
  update_account : Text → ℕ → Text → Text → Text → Call
  issue : ChallengeRecordInput → Text → ℕ → Call
  consume : Text → Text → ℕ → SessionRecordInput → Call
  invalidate : Text → ℕ → Call
  log_in_passkey : PasskeyLogin → Call
  read_passkey : List ℕ → ℕ → Call
  add_passkey : PasskeyRegistration → Call

-- `run` of the queue on one operation: what it leaves is the state for the next, also if it threw.
unfoldable pub step : Repository → Call → Repository
step r (Call.authenticate verifier now) = after (authenticate_session verifier now r)
step r (Call.validate verifier now) = after (validate_session verifier now r)
step r (Call.open_oidc account_id session source) =
    after (create_oidc_session account_id session source r)
step r (Call.revoke_all actor now user_id) =
    after (revoke_all_sessions_as_administrator actor now user_id r)
step r (Call.revoke_one actor now user_id session_id) =
    after (revoke_session_as_administrator actor now user_id session_id r)
step r (Call.log_out verifier now) = after (revoke_session_by_verifier verifier now r)
step r (Call.reset_access actor account_id now) =
    after (admin_security_reset_auth_access actor account_id now r)
step r (Call.bootstrap input) = after (bootstrap_administrator input r)
step r (Call.create_account actor now name email user_id) =
    after (create_account_as_administrator actor now name email user_id r)
step r (Call.find_account user_id) = after (find_account_by_id user_id r)
step r (Call.grant_grant actor now user_id grant) =
    after (grant_functional_grant_as_administrator actor now user_id grant r)
step r (Call.revoke_grant actor now user_id grant) =
    after (revoke_functional_grant_as_administrator actor now user_id grant r)
step r (Call.set_status actor now user_id status) =
    after (set_account_status_as_administrator actor now user_id status r)
step r (Call.set_domain actor now user_id status) =
    after (set_domain_status_as_administrator actor now user_id status r)
step r (Call.update_account actor now user_id name email) =
    after (update_account_as_administrator actor now user_id name email r)
step r (Call.issue challenge email cooldown) =
    after (issue_email_challenge challenge email cooldown r)
step r (Call.consume candidate challenge_id now session) =
    after (consume_challenge_and_create_session candidate challenge_id now session r)
step r (Call.invalidate challenge_id now) = after (invalidate_challenge challenge_id now r)
step r (Call.log_in_passkey login) = after (complete_passkey_login login r)
step r (Call.read_passkey credential_id now) =
    after (read_passkey_by_credential_id credential_id now r)
step r (Call.add_passkey input) = after (register_passkey input r)

unfoldable pub run : Repository → List Call → Repository
run r [] = r
run r (c ∷ cs) = run (step r c) cs
