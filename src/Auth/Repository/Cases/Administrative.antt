-- ===== src/Auth/Repository/Cases/Administrative.antt =====
-- The rules of the administrative methods and of the bootstrap. Each starts from the state in which
-- the guard has touched the actor's session.
use kovcheg.Base.{ℕ, ◌≡◌, inl, inr, false, none, some, arith, Option-cases, after, not, ◌&&◌}
use kovcheg.Text.{Text}
use kovcheg.Dict.{get, set, delete, update_values, update_first}
use kovcheg.Auth.Types.{
  FunctionalGrant, platform_administrator, grant_eq, AccountStatus, active, deactivated,
  DomainStatus, BootstrapAdministratorInput,
}
use kovcheg.Auth.Repository.State.{StoredAccount, StoredSession, Repository}
use kovcheg.Auth.Repository.Administration.{
  touched, put_session, require_account, admin_security_reset_auth_access, bootstrap_administrator,
  create_account_as_administrator, grant_functional_grant_as_administrator,
  revoke_functional_grant_as_administrator, set_account_status_as_administrator,
  set_domain_status_as_administrator, update_account_as_administrator, revoke_access, with_status,
  with_grant, without_grant, bootstrapped, new_account, is_taken, is_live_session_of,
  revoke_session_if, is_nonempty,
}
use kovcheg.Auth.Repository.Sessions.{
  revoke_all_sessions_as_administrator, revoke_session_as_administrator, is_live_session_with,
}
use kovcheg.Auth.Repository.Cases.Guards.{IsAdministratorSession, require_administrator_outcome}

abbrev pub put_account : Text → StoredAccount → Repository → Repository
put_account user_id account r = record r { accounts_by_id = set user_id account r.accounts_by_id }

abbrev pub put_new_account : StoredAccount → Repository → Repository
put_new_account account r = record r {
  accounts_by_email = set account.email account.user_id r.accounts_by_email;
  accounts_by_id = set account.user_id account r.accounts_by_id;
}

abbrev pub put_renamed : Text → Text → Text → StoredAccount → Repository → Repository
put_renamed user_id display_name email account r = record r {
  accounts_by_email = set email account.user_id (delete account.email r.accounts_by_email);
  accounts_by_id =
      set user_id (record account { email = email; display_name = display_name }) r.accounts_by_id;
}

-- The account may not be granted or refused by the actor.
abbrev pub MayChange : FunctionalGrant → StoredAccount → Type 0
MayChange grant actor = (grant_eq grant platform_administrator && not actor.is_server_owner) ≡ false

module _ (P : Repository → Type 0) (r : Repository) (verifier : Text) (now : ℕ) (refused : P r)
    (touch : (s : StoredSession) (a : StoredAccount)
      → IsAdministratorSession r verifier now s a
      → P (put_session verifier (touched now s) r)) where
  pub reset_access_cases :
      (account_id : Text)
      → ((s : StoredSession) (a account : StoredAccount)
          → IsAdministratorSession r verifier now s a
          → get account_id r.accounts_by_id ≡ some account
          → P (revoke_access account_id now (put_session verifier (touched now s) r)))
      → P (after (admin_security_reset_auth_access verifier account_id now r))
  unfolding admin_security_reset_auth_access require_account
  reset_access_cases account_id write = elim (require_administrator_outcome r verifier now) [
    | inl e ↦ ground arith
    | inr (s, a, h, e) ↦ elim (Option-cases (get account_id r.accounts_by_id)) [
      | inl e' ↦ ground (arith, touch s a h)
      | inr (account, e') ↦ ground (arith, touch s a h, write s a account h)
    ]
  ]

  pub revoke_all_cases :
      (user_id : Text)
      → ((s : StoredSession) (a account : StoredAccount)
          → IsAdministratorSession r verifier now s a
          → get user_id r.accounts_by_id ≡ some account
          → let r1 = put_session verifier (touched now s) r in
            P (record r1 {
              sessions_by_verifier =
                  update_values
                    (revoke_session_if (is_live_session_of user_id) now)
                    r1.sessions_by_verifier;
            }))
      → P (after (revoke_all_sessions_as_administrator verifier now user_id r))
  unfolding revoke_all_sessions_as_administrator require_account
  revoke_all_cases user_id write = elim (require_administrator_outcome r verifier now) [
    | inl e ↦ ground arith
    | inr (s, a, h, e) ↦ elim (Option-cases (get user_id r.accounts_by_id)) [
      | inl e' ↦ ground (arith, touch s a h)
      | inr (account, e') ↦ ground (arith, touch s a h, write s a account h)
    ]
  ]

  pub revoke_one_cases :
      (user_id session_id : Text)
      → ((s : StoredSession) (a account : StoredAccount)
          → IsAdministratorSession r verifier now s a
          → get user_id r.accounts_by_id ≡ some account
          → let r1 = put_session verifier (touched now s) r in
            P (record r1 {
              sessions_by_verifier =
                  update_first
                    (is_live_session_with user_id session_id)
                    (revoke_session_if (is_live_session_with user_id session_id) now)
                    r1.sessions_by_verifier;
            }))
      → P (after (revoke_session_as_administrator verifier now user_id session_id r))
  unfolding revoke_session_as_administrator require_account
  revoke_one_cases user_id session_id write = elim (require_administrator_outcome r verifier now) [
    | inl e ↦ ground arith
    | inr (s, a, h, e) ↦ elim (Option-cases (get user_id r.accounts_by_id)) [
      | inl e' ↦ ground (arith, touch s a h)
      | inr (account, e') ↦ ground (arith, touch s a h, write s a account h)
    ]
  ]

  pub create_account_cases :
      (display_name email user_id : Text)
      → ((s : StoredSession) (a : StoredAccount)
          → IsAdministratorSession r verifier now s a
          → get user_id r.accounts_by_id ≡ none
          → get email r.accounts_by_email ≡ none
          → P (
              put_new_account
                (new_account display_name email user_id)
                (put_session verifier (touched now s) r)))
      → P (after (create_account_as_administrator verifier now display_name email user_id r))
  unfolding create_account_as_administrator
  create_account_cases display_name email user_id write =
      elim (require_administrator_outcome r verifier now) [
        | inl e ↦ ground arith
        | inr (s, a, h, e) ↦ ground (arith, touch s a h, write s a h)
      ]

  pub set_status_cases :
      (user_id : Text) (status : AccountStatus)
      → ((s : StoredSession) (a account : StoredAccount)
          → IsAdministratorSession r verifier now s a
          → get user_id r.accounts_by_id ≡ some account
          → status ≡ active
          → P (with_status user_id active account (put_session verifier (touched now s) r)))
      → ((s : StoredSession) (a account : StoredAccount)
          → IsAdministratorSession r verifier now s a
          → get user_id r.accounts_by_id ≡ some account
          → status ≡ deactivated
          → P (
              revoke_access user_id now
                (with_status user_id deactivated account (put_session verifier (touched now s) r))))
      → P (after (set_account_status_as_administrator verifier now user_id status r))
  unfolding set_account_status_as_administrator require_account
  set_status_cases user_id status activated dropped =
      elim (require_administrator_outcome r verifier now) [
        | inl e ↦ ground arith
        | inr (s, a, h, e) ↦ elim (Option-cases (get user_id r.accounts_by_id)) [
          | inl e' ↦ ground (arith, touch s a h)
          | inr (account, e') ↦
              ground (arith, touch s a h, activated s a account h, dropped s a account h)
        ]
      ]

  pub set_domain_cases :
      (user_id : Text) (status : DomainStatus)
      → ((s : StoredSession) (a account : StoredAccount)
          → IsAdministratorSession r verifier now s a
          → get user_id r.accounts_by_id ≡ some account
          → P (
              put_account user_id
                (record account { domain_status = status })
                (put_session verifier (touched now s) r)))
      → P (after (set_domain_status_as_administrator verifier now user_id status r))
  unfolding set_domain_status_as_administrator require_account
  set_domain_cases user_id status write = elim (require_administrator_outcome r verifier now) [
    | inl e ↦ ground arith
    | inr (s, a, h, e) ↦ elim (Option-cases (get user_id r.accounts_by_id)) [
      | inl e' ↦ ground (arith, touch s a h)
      | inr (account, e') ↦ ground (arith, touch s a h, write s a account h)
    ]
  ]

  pub update_account_cases :
      (user_id display_name email : Text)
      → ((s : StoredSession) (a account : StoredAccount)
          → IsAdministratorSession r verifier now s a
          → get user_id r.accounts_by_id ≡ some account
          → is_taken email account r ≡ false
          → P (
              put_renamed user_id display_name email account
                (put_session verifier (touched now s) r)))
      → P (after (update_account_as_administrator verifier now user_id display_name email r))
  unfolding update_account_as_administrator require_account
  update_account_cases user_id display_name email write =
      elim (require_administrator_outcome r verifier now) [
        | inl e ↦ ground arith
        | inr (s, a, h, e) ↦ elim (Option-cases (get user_id r.accounts_by_id)) [
          | inl e' ↦ ground (arith, touch s a h)
          | inr (account, e') ↦ ground (arith, touch s a h, write s a account h)
        ]
      ]

  pub grant_grant_cases :
      (user_id : Text) (grant : FunctionalGrant)
      → ((s : StoredSession) (a account : StoredAccount)
          → IsAdministratorSession r verifier now s a
          → get user_id r.accounts_by_id ≡ some account
          → MayChange grant a
          → P (
              put_account user_id
                (with_grant grant account)
                (put_session verifier (touched now s) r)))
      → P (after (grant_functional_grant_as_administrator verifier now user_id grant r))
  unfolding grant_functional_grant_as_administrator require_account
  grant_grant_cases user_id grant write = elim (require_administrator_outcome r verifier now) [
    | inl e ↦ ground arith
    | inr (s, a, h, e) ↦ elim (Option-cases (get user_id r.accounts_by_id)) [
      | inl e' ↦ ground (arith, touch s a h)
      | inr (account, e') ↦ ground (arith, touch s a h, write s a account h)
    ]
  ]

  pub revoke_grant_cases :
      (user_id : Text) (grant : FunctionalGrant)
      → ((s : StoredSession) (a account : StoredAccount)
          → IsAdministratorSession r verifier now s a
          → get user_id r.accounts_by_id ≡ some account
          → MayChange grant a
          → (grant_eq grant platform_administrator && account.is_server_owner) ≡ false
          → P (
              put_account user_id
                (without_grant grant account)
                (put_session verifier (touched now s) r)))
      → P (after (revoke_functional_grant_as_administrator verifier now user_id grant r))
  unfolding revoke_functional_grant_as_administrator require_account
  revoke_grant_cases user_id grant write = elim (require_administrator_outcome r verifier now) [
    | inl e ↦ ground arith
    | inr (s, a, h, e) ↦ elim (Option-cases (get user_id r.accounts_by_id)) [
      | inl e' ↦ ground (arith, touch s a h)
      | inr (account, e') ↦ ground (arith, touch s a h, write s a account h)
    ]
  ]

module _ (P : Repository → Type 0) (r : Repository) where
  pub bootstrap_cases :
      (input : BootstrapAdministratorInput)
      → P r
      → (get input.bootstrap_id r.bootstrap_accounts ≡ none
          → get input.user_id r.accounts_by_id ≡ none
          → get input.email r.accounts_by_email ≡ none
          → (is_nonempty r.accounts_by_id && is_nonempty r.bootstrap_accounts) ≡ false
          → P (record (put_new_account (bootstrapped input) r) {
            bootstrap_accounts = set input.bootstrap_id input.user_id r.bootstrap_accounts;
          }))
      → P (after (bootstrap_administrator input r))
  unfolding bootstrap_administrator
  bootstrap_cases input same write =
      elim (Option-cases (get input.bootstrap_id r.bootstrap_accounts)) [
        | inl e ↦ ground (arith, write e)
        | inr (id, e) ↦ elim (Option-cases (get id r.accounts_by_id)) [
          | inl e' ↦ ground arith
          | inr (a, e') ↦ ground arith
        ]
      ]
