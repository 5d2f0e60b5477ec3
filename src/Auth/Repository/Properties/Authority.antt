-- ===== src/Auth/Repository/Properties/Authority.antt =====
-- Who may administer, and what an administrator's revocations achieve.
use kovcheg.Base.{
  ℕ, ◌≡◌, subst, none, arith, true, false, ok, err, result, after, Option-cases, inl, inr, is_some,
}
use kovcheg.Text.{Text}
use kovcheg.Dict.{get}
use kovcheg.Dict.Evolution.{AllValues, AllValues-map}
use kovcheg.Auth.Types.{
  FunctionalGrant, platform_administrator, FunctionalGrant-discrete, AccountStatus, DomainStatus,
  RepositoryError, authorization, AuthSecurityResetResult, AccountRecord, deactivated,
}
use kovcheg.Auth.Repository.State.{StoredAccount, Repository}
use kovcheg.Auth.Repository.Administration.{
  require_administrator, require_account, admin_security_reset_auth_access,
  create_account_as_administrator, grant_functional_grant_as_administrator,
  revoke_functional_grant_as_administrator, set_account_status_as_administrator,
  set_domain_status_as_administrator, update_account_as_administrator, revoke_access,
  revoke_session_if, revoke_passkey_if, invalidate_challenge_if, put_session, touched, with_status,
}
use kovcheg.Auth.Repository.Sessions.{
  revoke_all_sessions_as_administrator, revoke_session_as_administrator,
}
use kovcheg.Auth.Repository.Cases.Guards.{require_administrator_outcome}

-- Without a session that passes the administrative guard every administrative method throws the
-- authorization error and writes nothing.
pub administration_is_guarded :
    (r : Repository) (verifier : Text) (now : ℕ) (e : RepositoryError)
    (id session_id name email : Text) (g : FunctionalGrant) (status : AccountStatus)
    (domain : DomainStatus)
    → result (require_administrator verifier now r) ≡ err e
    → (admin_security_reset_auth_access verifier id now r ≡ (err authorization, r))
      × (create_account_as_administrator verifier now name email id r ≡ (err authorization, r))
      × (grant_functional_grant_as_administrator verifier now id g r ≡ (err authorization, r))
      × (revoke_functional_grant_as_administrator verifier now id g r ≡ (err authorization, r))
      × (set_account_status_as_administrator verifier now id status r ≡ (err authorization, r))
      × (set_domain_status_as_administrator verifier now id domain r ≡ (err authorization, r))
      × (update_account_as_administrator verifier now id name email r ≡ (err authorization, r))
      × (revoke_all_sessions_as_administrator verifier now id r ≡ (err authorization, r))
      × (revoke_session_as_administrator verifier now id session_id r ≡ (err authorization, r))
unfolding admin_security_reset_auth_access create_account_as_administrator
    grant_functional_grant_as_administrator revoke_functional_grant_as_administrator
    set_account_status_as_administrator set_domain_status_as_administrator
    update_account_as_administrator revoke_all_sessions_as_administrator
    revoke_session_as_administrator
administration_is_guarded r verifier now e id session_id name email g status domain refused =
    elim (require_administrator_outcome r verifier now) [
      | inl out ↦ (
        ground arith,
        ground arith,
        ground arith,
        ground arith,
        ground arith,
        ground arith,
        ground arith,
        ground arith,
        ground arith,
      )
      | inr (s, a, h, out) ↦ absurd (ground arith)
    ]

-- An administrator who does not own the server can neither appoint a platform administrator nor
-- dismiss one: both throw, and the accounts stay as they are.
pub only_owner_appoints :
    (r q : Repository) (verifier : Text) (now : ℕ) (id : Text) (a : StoredAccount)
    → require_administrator verifier now r ≡ (ok a, q)
    → a.is_server_owner ≡ false
    → (grant_functional_grant_as_administrator verifier now id platform_administrator r
        ≡ (err authorization, q))
      × (revoke_functional_grant_as_administrator verifier now id platform_administrator r
          ≡ (err authorization, q))
      × (q.accounts_by_id ≡ r.accounts_by_id)
unfolding grant_functional_grant_as_administrator revoke_functional_grant_as_administrator
    FunctionalGrant-discrete
only_owner_appoints r q verifier now id a passed plain =
    elim (require_administrator_outcome r verifier now) [
      | inl out ↦ absurd (ground arith)
      | inr (s, b, h, out) ↦ (ground arith, ground arith, ground arith)
    ]

-- Nothing that an account could enter by is left.
pub record IsLockedOut (id : Text) (r : Repository) : Type 0 where
  pub sessions :
      AllValues (λ k s. s.account_id ≡ id → is_some s.revoked_at ≡ true) r.sessions_by_verifier
  pub challenges :
      AllValues
        (λ k c. c.account_id ≡ id → c.invalidated_at ≡ none → is_some c.used_at ≡ true)
        r.challenges
  pub passkeys : AllValues (λ k p. p.account_id ≡ id → is_some p.revoked_at ≡ true) r.passkeys_by_id

revoke_access-IsLockedOut :
    (id : Text) (now : ℕ) (r : Repository) → IsLockedOut id (revoke_access id now r)
unfolding revoke_session_if invalidate_challenge_if revoke_passkey_if
revoke_access-IsLockedOut id now r = record {
  sessions =
      AllValues-map (λ k s. Unit {0}) (λ k s. s.account_id ≡ id → is_some s.revoked_at ≡ true) _
        r.sessions_by_verifier (λ k s any same. ground arith) (λ k s e. tt);
  challenges =
      AllValues-map (λ k s. Unit {0})
        (λ k c. c.account_id ≡ id → c.invalidated_at ≡ none → is_some c.used_at ≡ true) _
        r.challenges (λ k c any same valid. ground arith) (λ k c e. tt);
  passkeys =
      AllValues-map (λ k p. Unit {0}) (λ k p. p.account_id ≡ id → is_some p.revoked_at ≡ true) _
        r.passkeys_by_id (λ k p any same. ground arith) (λ k p e. tt);
}

-- A security reset that succeeds leaves the account with no live session, no open challenge and no
-- live passkey.
pub security_reset_locks_out :
    (r : Repository) (verifier id : Text) (now : ℕ) (counts : AuthSecurityResetResult)
    → result (admin_security_reset_auth_access verifier id now r) ≡ ok counts
    → IsLockedOut id (after (admin_security_reset_auth_access verifier id now r))
unfolding admin_security_reset_auth_access require_account
security_reset_locks_out r verifier id now counts e =
    elim (require_administrator_outcome r verifier now) [
      | inl out ↦ absurd (ground arith)
      | inr (s, a, h, out) ↦ elim (Option-cases (get id r.accounts_by_id)) [
        | inl missing ↦ absurd (ground arith)
        | inr (b, found) ↦
            subst (IsLockedOut id) (ground arith)
              (revoke_access-IsLockedOut id now (put_session verifier (touched now s) r))
      ]
    ]

-- A deactivation that succeeds leaves the account with no live session, no open challenge and no live
-- passkey.
pub deactivation_locks_out :
    (r : Repository) (verifier id : Text) (now : ℕ) (account : AccountRecord)
    → result (set_account_status_as_administrator verifier now id deactivated r) ≡ ok account
    → IsLockedOut id (after (set_account_status_as_administrator verifier now id deactivated r))
unfolding set_account_status_as_administrator require_account
deactivation_locks_out r verifier id now account e =
    elim (require_administrator_outcome r verifier now) [
      | inl out ↦ absurd (ground arith)
      | inr (s, a, h, out) ↦ elim (Option-cases (get id r.accounts_by_id)) [
        | inl missing ↦ absurd (ground arith)
        | inr (b, found) ↦ subst (IsLockedOut id) (ground arith) (
            revoke_access-IsLockedOut id now
              (with_status id deactivated b (put_session verifier (touched now s) r)))
      ]
    ]
