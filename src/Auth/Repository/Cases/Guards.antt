-- ===== src/Auth/Repository/Cases/Guards.antt =====
-- The guard of the administrative methods.
use kovcheg.Base.{
  ℕ, ◌≤◌, ◌<◌, ◌≡◌, ◌⊎◌, inl, inr, Bool, true, ◌&&◌, ◌||◌, not, none, some, arith, Option-cases,
  Bool-cases, ok, err, is_some, ltb, leb,
}
use kovcheg.Text.{Text}
use kovcheg.Dict.{get}
use kovcheg.Auth.Types.{platform_administrator, active, authorization}
use kovcheg.Auth.Repository.State.{
  StoredAccount, StoredSession, Repository, is_active, includes_grant,
}
use kovcheg.Auth.Repository.Administration.{touched, put_session, require_administrator}

-- The guard's two conditions, as one test.
abbrev is_admitted : ℕ → StoredSession → StoredAccount → Bool
is_admitted now s a =
    not (
      is_some s.revoked_at
      || ltb now s.issued_at
      || leb s.idle_expires_at now
      || leb s.absolute_expires_at now)
    && is_active a.status
    && includes_grant platform_administrator a.functional_grants

-- What a session and its account satisfy when the guard lets a call through.
pub record IsAdministratorSession (r : Repository) (verifier : Text) (now : ℕ) (s : StoredSession)
    (a : StoredAccount) : Type 0 where
  pub found : get verifier r.sessions_by_verifier ≡ some s
  pub is_live : s.revoked_at ≡ none
  pub is_started : s.issued_at ≤ now
  pub is_in_use : now < s.idle_expires_at
  pub is_unexpired : now < s.absolute_expires_at
  pub owner : get s.account_id r.accounts_by_id ≡ some a
  pub owner_active : a.status ≡ active
  pub owner_grant : includes_grant platform_administrator a.functional_grants ≡ true

-- The guard throws and writes nothing, or it touches the session and returns its account.
pub require_administrator_outcome :
    (r : Repository) (verifier : Text) (now : ℕ)
    → (require_administrator verifier now r ≡ (err authorization, r))
      ⊎ ((s : StoredSession) × (a : StoredAccount) × IsAdministratorSession r verifier now s a
          × (require_administrator verifier now r ≡ (ok a, put_session verifier (touched now s) r)))
unfolding require_administrator
require_administrator_outcome r verifier now =
    elim (Option-cases (get verifier r.sessions_by_verifier)) [
      | inl e ↦ inl (ground arith)
      | inr (s, e) ↦ elim (Option-cases (get s.account_id r.accounts_by_id)) [
        | inl e' ↦ inl (ground arith)
        | inr (a, e') ↦ elim (Bool-cases (is_admitted now s a)) [
          | inl h ↦ inr (s, a, ground arith, ground arith)
          | inr h ↦ inl (ground arith)
        ]
      ]
    ]
