-- ===== src/Auth/Repository/Closure.antt =====
-- The one rule of the repository's invariants. What every write of a method keeps, under the
-- conditions that the method has tested before the write, every call and every history keeps.
use kovcheg.Base.{ℕ, ◌+◌, ◌≡◌, false, ◌&&◌, none, some, List, [], ◌∷◌, arith}
use kovcheg.Text.{Text}
use kovcheg.Text.Bytes.{base64url}
use kovcheg.Dict.{get, set, some_value, update_values, update_first}
use kovcheg.Auth.Types.{
  FunctionalGrant, platform_administrator, grant_eq, active, deactivated, DomainStatus,
  BootstrapAdministratorInput, ChallengeRecordInput, SessionRecordInput,
}
use kovcheg.Auth.Repository.State.{
  StoredAccount, StoredSession, StoredChallenge, StoredPasskey, Repository, account_by_email,
  passkey_by_credential_key,
}
use kovcheg.Auth.Repository.Administration.{
  touched, put_session, is_live_challenge_of, invalidate_challenge_if, is_live_session_of,
  revoke_session_if, revoke_access, with_status, with_grant, without_grant, bootstrapped,
  new_account, is_taken, is_nonempty, find_account_by_id,
}
use kovcheg.Auth.Repository.Sessions.{
  opened, is_from_source, is_live_session_with, validate_session,
}
use kovcheg.Auth.Repository.Challenges.{put_challenge, new_challenge}
use kovcheg.Auth.Repository.Passkeys.{
  PasskeyLogin, PasskeyRegistration, used_passkey, registered, read_passkey_by_credential_id,
}
use kovcheg.Auth.Repository.Calls.{Call, step, run}
use kovcheg.Auth.Repository.Cases.Guards.{IsAdministratorSession}
use kovcheg.Auth.Repository.Cases.Methods.{
  IsActiveAccount, IsAnswerable, authenticate_cases, log_out_cases, open_oidc_cases, issue_cases,
  consume_cases, invalidate_cases, log_in_passkey_cases, add_passkey_cases,
}
use kovcheg.Auth.Repository.Cases.Administrative.{
  put_account, put_new_account, put_renamed, reset_access_cases, revoke_all_cases, revoke_one_cases,
  create_account_cases, set_status_cases, set_domain_cases, update_account_cases, grant_grant_cases,
  revoke_grant_cases, bootstrap_cases,
}

-- `Issued` says which ids new challenges may have.
pub record IsClosed (Issued : Text → Type 0) (P : Repository → Type 0) : Type 0 where
  pub revoke_session :
      (r : Repository) (k : Text) (now : ℕ) (s : StoredSession)
      → P r
      → get k r.sessions_by_verifier ≡ some s
      → s.revoked_at ≡ none
      → P (put_session k (record s { revoked_at = some now }) r)
  pub touch_session :
      (r : Repository) (k : Text) (now : ℕ) (s : StoredSession)
      → P r
      → get k r.sessions_by_verifier ≡ some s
      → s.revoked_at ≡ none
      → P (put_session k (touched now s) r)
  pub revoke_all :
      (r : Repository) (id : Text) (now : ℕ)
      → P r
      → P (record r {
        sessions_by_verifier =
            update_values (revoke_session_if (is_live_session_of id) now) r.sessions_by_verifier;
      })
  pub revoke_one :
      (r : Repository) (id session_id : Text) (now : ℕ)
      → P r
      → P (record r {
        sessions_by_verifier =
            update_first
              (is_live_session_with id session_id)
              (revoke_session_if (is_live_session_with id session_id) now)
              r.sessions_by_verifier;
      })
  pub open_oidc :
      (r : Repository) (id : Text) (a : StoredAccount) (input : SessionRecordInput) (source : Text)
      → P r
      → IsActiveAccount r id a
      → some_value (is_from_source source) r.sessions_by_verifier ≡ false
      → get input.token_verifier r.sessions_by_verifier ≡ none
      → P (
          put_session input.token_verifier (opened input a.user_id input.issued_at (some source)) r)
  pub open_email :
      (r : Repository) (id : Text) (now : ℕ) (c : StoredChallenge) (a : StoredAccount)
      (input : SessionRecordInput)
      → P r
      → IsAnswerable r id now c
      → IsActiveAccount r c.account_id a
      → get input.token_verifier r.sessions_by_verifier ≡ none
      → P (
          put_session input.token_verifier
            (opened input a.user_id input.issued_at none)
            (put_challenge id (record c { used_at = some now }) r))
  pub open_passkey :
      (r : Repository) (login : PasskeyLogin) (p : StoredPasskey) (a : StoredAccount)
      → P r
      → passkey_by_credential_key (base64url login.credential_id) r ≡ some p
      → p.revoked_at ≡ none
      → p.sign_count ≡ login.expected_sign_count
      → IsActiveAccount r p.account_id a
      → get login.session.token_verifier r.sessions_by_verifier ≡ none
      → P (
          put_session login.session.token_verifier
            (opened login.session p.account_id login.now none)
            (record r {
              passkeys_by_id = set p.passkey_id (used_passkey login p) r.passkeys_by_id;
            }))
  pub issue :
      (r : Repository) (challenge : ChallengeRecordInput) (email : Text) (a : StoredAccount)
      → Issued challenge.challenge_id
      → P r
      → account_by_email email r ≡ some a
      → a.status ≡ active
      → P (record r {
        challenges = set challenge.challenge_id (new_challenge challenge a.user_id) (
            update_values
              (invalidate_challenge_if (is_live_challenge_of a.user_id) challenge.issued_at)
              r.challenges);
        latest_challenge_at = set a.user_id challenge.issued_at r.latest_challenge_at;
      })
  pub fail_challenge :
      (r : Repository) (id : Text) (now : ℕ) (c : StoredChallenge)
      → P r
      → IsAnswerable r id now c
      → P (put_challenge id (record c { attempts = c.attempts + 1 }) r)
  pub drop_challenge :
      (r : Repository) (id : Text) (now : ℕ) (c : StoredChallenge)
      → P r
      → get id r.challenges ≡ some c
      → c.used_at ≡ none
      → P (put_challenge id (record c { invalidated_at = some now }) r)
  pub add_passkey :
      (r : Repository) (input : PasskeyRegistration) (id : Text) (a : StoredAccount)
      → P r
      → IsActiveAccount r id a
      → get (base64url input.credential_id) r.passkeys_by_credential_id ≡ none
      → get input.passkey_id r.passkeys_by_id ≡ none
      → P (record r {
        passkeys_by_credential_id =
            set (base64url input.credential_id) input.passkey_id r.passkeys_by_credential_id;
        passkeys_by_id = set input.passkey_id (registered input a.user_id) r.passkeys_by_id;
      })
  pub bootstrap :
      (r : Repository) (input : BootstrapAdministratorInput)
      → P r
      → get input.bootstrap_id r.bootstrap_accounts ≡ none
      → get input.user_id r.accounts_by_id ≡ none
      → get input.email r.accounts_by_email ≡ none
      → (is_nonempty r.accounts_by_id && is_nonempty r.bootstrap_accounts) ≡ false
      → P (record (put_new_account (bootstrapped input) r) {
        bootstrap_accounts = set input.bootstrap_id input.user_id r.bootstrap_accounts;
      })
  pub create_account :
      (r : Repository) (display_name email user_id : Text)
      → P r
      → get user_id r.accounts_by_id ≡ none
      → get email r.accounts_by_email ≡ none
      → P (put_new_account (new_account display_name email user_id) r)
  pub activate :
      (r : Repository) (id : Text) (a : StoredAccount)
      → P r
      → get id r.accounts_by_id ≡ some a
      → P (with_status id active a r)
  pub deactivate :
      (r : Repository) (id : Text) (a : StoredAccount) (now : ℕ)
      → P r
      → get id r.accounts_by_id ≡ some a
      → P (revoke_access id now (with_status id deactivated a r))
  pub reset_access : (r : Repository) (id : Text) (now : ℕ) → P r → P (revoke_access id now r)
  pub set_domain :
      (r : Repository) (id : Text) (a : StoredAccount) (status : DomainStatus)
      → P r
      → get id r.accounts_by_id ≡ some a
      → P (put_account id (record a { domain_status = status }) r)
  pub rename :
      (r : Repository) (id : Text) (a : StoredAccount) (display_name email : Text)
      → P r
      → get id r.accounts_by_id ≡ some a
      → is_taken email a r ≡ false
      → P (put_renamed id display_name email a r)
  pub grant :
      (r : Repository) (id : Text) (a : StoredAccount) (g : FunctionalGrant)
      → P r
      → get id r.accounts_by_id ≡ some a
      → P (put_account id (with_grant g a) r)
  pub ungrant :
      (r : Repository) (id : Text) (a : StoredAccount) (g : FunctionalGrant)
      → P r
      → get id r.accounts_by_id ≡ some a
      → (grant_eq g platform_administrator && a.is_server_owner) ≡ false
      → P (put_account id (without_grant g a) r)

-- What a call says of the id of the challenge that it issues.
abbrev pub IssuesOnly : (Text → Type 0) → Call → Type 0
IssuesOnly Issued (Call.issue challenge email cooldown) = Issued challenge.challenge_id
IssuesOnly Issued _ = Unit {0}

abbrev pub AllIssueOnly : (Text → Type 0) → List Call → Type 0
AllIssueOnly Issued [] = Unit {0}
AllIssueOnly Issued (c ∷ cs) = IssuesOnly Issued c × AllIssueOnly Issued cs

module _ {Issued : Text → Type 0} {P : Repository → Type 0} (closed : IsClosed Issued P) where
  acting :
      (r : Repository) (verifier : Text) (now : ℕ)
      → P r
      → (s : StoredSession) (a : StoredAccount) → IsAdministratorSession r verifier now s a
      → P (put_session verifier (touched now s) r)
  acting r verifier now h s a admin =
      closed.touch_session r verifier now s h admin.found admin.is_live

  pub step-closed : (r : Repository) (c : Call) → IssuesOnly Issued c → P r → P (step r c)
  unfolding step
  step-closed r (Call.authenticate verifier now) _ h =
      authenticate_cases P r verifier now h (λ s e. closed.revoke_session r verifier now s h e)
        (λ s e. closed.touch_session r verifier now s h e)
  step-closed r (Call.validate verifier now) _ h = unfold validate_session in ground arith
  step-closed r (Call.open_oidc id input source) _ h =
      open_oidc_cases P r id input source h (λ a e. closed.open_oidc r id a input source h e)
  step-closed r (Call.revoke_all actor now id) _ h =
      revoke_all_cases P r actor now h (acting r actor now h) id
        λ s a account e e'. closed.revoke_all _ id now (acting r actor now h s a e)
  step-closed r (Call.revoke_one actor now id session_id) _ h =
      revoke_one_cases P r actor now h (acting r actor now h) id session_id
        λ s a account e e'. closed.revoke_one _ id session_id now (acting r actor now h s a e)
  step-closed r (Call.log_out verifier now) _ h =
      log_out_cases P r verifier now h (λ s e. closed.revoke_session r verifier now s h e)
  step-closed r (Call.reset_access actor id now) _ h =
      reset_access_cases P r actor now h (acting r actor now h) id
        λ s a account e e'. closed.reset_access _ id now (acting r actor now h s a e)
  step-closed r (Call.bootstrap input) _ h =
      bootstrap_cases P r input h (closed.bootstrap r input h)
  step-closed r (Call.create_account actor now name email id) _ h =
      create_account_cases P r actor now h (acting r actor now h) name email id
        λ s a e. closed.create_account _ name email id (acting r actor now h s a e)
  step-closed r (Call.find_account id) _ h = unfold find_account_by_id in ground arith
  step-closed r (Call.grant_grant actor now id g) _ h =
      grant_grant_cases P r actor now h (acting r actor now h) id g
        λ s a account e e' may. closed.grant _ id account g (acting r actor now h s a e) e'
  step-closed r (Call.revoke_grant actor now id g) _ h =
      revoke_grant_cases P r actor now h (acting r actor now h) id g
        λ s a account e e' may. closed.ungrant _ id account g (acting r actor now h s a e) e'
  step-closed r (Call.set_status actor now id status) _ h =
      set_status_cases P r actor now h (acting r actor now h) id status
        (λ s a account e e' on. closed.activate _ id account (acting r actor now h s a e) e')
        (λ s a account e e' off. closed.deactivate _ id account now (acting r actor now h s a e) e')
  step-closed r (Call.set_domain actor now id status) _ h =
      set_domain_cases P r actor now h (acting r actor now h) id status
        λ s a account e e'. closed.set_domain _ id account status (acting r actor now h s a e) e'
  step-closed r (Call.update_account actor now id name email) _ h =
      update_account_cases P r actor now h (acting r actor now h) id name email
        λ s a account e e'. closed.rename _ id account name email (acting r actor now h s a e) e'
  step-closed r (Call.issue challenge email cooldown) fresh h =
      issue_cases P r challenge email cooldown h (λ a e. closed.issue r challenge email a fresh h e)
  step-closed r (Call.consume candidate id now input) _ h =
      consume_cases P r candidate id now input h (λ c e. closed.fail_challenge r id now c h e)
        (λ c e. closed.drop_challenge r id now c h e.found e.is_unused)
        (λ c a e. closed.open_email r id now c a input h e)
  step-closed r (Call.invalidate id now) _ h =
      invalidate_cases P r id now h (λ c e. closed.drop_challenge r id now c h e)
  step-closed r (Call.log_in_passkey login) _ h =
      log_in_passkey_cases P r login h (λ p a e. closed.open_passkey r login p a h e)
  step-closed r (Call.read_passkey id now) _ h =
      unfold read_passkey_by_credential_id in ground arith
  step-closed r (Call.add_passkey input) _ h =
      add_passkey_cases P r input h (λ s a e e'. closed.add_passkey r input s.account_id a h e')

  pub run-closed : (r : Repository) (cs : List Call) → AllIssueOnly Issued cs → P r → P (run r cs)
  unfolding run
  run-closed r [] _ h = h
  run-closed r (c ∷ cs) only h = run-closed (step r c) cs only.1 (step-closed r c only.0 h)

abbrev pub Any : Text → Type 0
Any id = Unit {0}

-- Where any id may be issued, the condition on a history is void.
pub AllIssueAny : (cs : List Call) → AllIssueOnly Any cs
AllIssueAny [] = tt
AllIssueAny (Call.issue challenge email cooldown ∷ cs) = (tt, AllIssueAny cs)
AllIssueAny (c ∷ cs) = (tt, AllIssueAny cs)
