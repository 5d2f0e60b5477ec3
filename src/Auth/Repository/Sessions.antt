-- ===== src/Auth/Repository/Sessions.antt =====
-- The session methods of `LocalAuthRepository`.
use kovcheg.Base.{
  ℕ, ◌+◌, min, Bool, true, false, ◌&&◌, ◌||◌, not, Option, none, some, if◌then◌else◌, is_some, ltb,
  leb, ok, err, ◌>>◌,
}
use kovcheg.Text.{Text, text_eq}
use kovcheg.Dict.{get, has, update_values, update_first, count_values, some_value}
use kovcheg.Auth.Types.{SessionPrincipal, SessionRecordInput, conflict}
use kovcheg.Auth.Repository.State.{StoredSession, Method, is_active, session_principal}
use kovcheg.Auth.Repository.Administration.{
  touched, put_session, require_administrator, require_account, is_live_session_of,
  revoke_session_if,
}

unfoldable pub authenticate_session : Text → ℕ → Method (Option SessionPrincipal)
authenticate_session token_verifier now r = elim (get token_verifier r.sessions_by_verifier) [
  | none ↦ (ok none, r)
  | some session ↦
      if is_some session.revoked_at
      then (ok none, r)
      else elim (get session.account_id r.accounts_by_id) [
        | none ↦ (ok none, put_session token_verifier (record session { revoked_at = some now }) r)
        | some account ↦
            if not (is_active account.status)
              || leb session.absolute_expires_at now
              || leb session.idle_expires_at now
            then (ok none, put_session token_verifier (record session { revoked_at = some now }) r)
            else (
              ok (some (session_principal account (touched now session))),
              put_session token_verifier (touched now session) r,
            )
      ]
]

unfoldable pub validate_session : Text → ℕ → Method (Option SessionPrincipal)
validate_session token_verifier now r = elim (get token_verifier r.sessions_by_verifier) [
  | none ↦ (ok none, r)
  | some session ↦
      if is_some session.revoked_at
      then (ok none, r)
      else elim (get session.account_id r.accounts_by_id) [
        | none ↦ (ok none, r)
        | some account ↦
            if not (is_active account.status)
              || ltb now session.issued_at
              || leb session.absolute_expires_at now
              || leb session.idle_expires_at now
            then (ok none, r)
            else (ok (some (session_principal account session)), r)
      ]
]

-- The session object that a successful authentication stores. `seen` is the time from which the
-- idle lifetime runs.
abbrev pub opened : SessionRecordInput → Text → ℕ → Option Text → StoredSession
opened input account_id seen source = record {
  input = input;
  account_id = account_id;
  idle_expires_at = min input.absolute_expires_at (seen + input.idle_lifetime_ms);
  last_seen_at = seen;
  revoked_at = none;
  source_oidc_token_verifier = source;
}

-- `session.sourceOidcTokenVerifier === verifier`
abbrev pub is_from_source : Text → StoredSession → Bool
is_from_source verifier session = elim session.source_oidc_token_verifier [
  | none ↦ false
  | some source ↦ text_eq source verifier
]

abbrev pub has_session_id : Text → StoredSession → Bool
has_session_id session_id session = text_eq session.session_id session_id

unfoldable pub create_oidc_session : Text → SessionRecordInput → Text → Method Bool
create_oidc_session account_id input source_token_verifier r =
    elim (get account_id r.accounts_by_id) [
      | none ↦ (ok false, r)
      | some account ↦
          if not (is_active account.status)
            || some_value (is_from_source source_token_verifier) r.sessions_by_verifier
          then (ok false, r)
          else if has input.token_verifier r.sessions_by_verifier
              || some_value (has_session_id input.session_id) r.sessions_by_verifier
          then (err conflict, r)
          else (
            ok true,
            put_session input.token_verifier
                (opened input account.user_id input.issued_at (some source_token_verifier)) r,
          )
    ]

unfoldable pub revoke_all_sessions_as_administrator : Text → ℕ → Text → Method ℕ
revoke_all_sessions_as_administrator actor_session_verifier now user_id = do
  require_administrator actor_session_verifier now
  require_account user_id
  λ r. (
    ok (count_values (is_live_session_of user_id) r.sessions_by_verifier),
    record r {
      sessions_by_verifier =
          update_values (revoke_session_if (is_live_session_of user_id) now) r.sessions_by_verifier;
    },
  )

abbrev pub is_live_session_with : Text → Text → StoredSession → Bool
is_live_session_with user_id session_id session =
    text_eq session.account_id user_id
    && text_eq session.session_id session_id
    && not (is_some session.revoked_at)

-- The loop returns at the first session that it revokes.
unfoldable pub revoke_session_as_administrator : Text → ℕ → Text → Text → Method Bool
revoke_session_as_administrator actor_session_verifier now user_id session_id = do
  require_administrator actor_session_verifier now
  require_account user_id
  λ r. (
    ok (some_value (is_live_session_with user_id session_id) r.sessions_by_verifier),
    record r {
      sessions_by_verifier =
          update_first (is_live_session_with user_id session_id)
            (revoke_session_if (is_live_session_with user_id session_id) now)
            r.sessions_by_verifier;
    },
  )

unfoldable pub revoke_session_by_verifier : Text → ℕ → Method Bool
revoke_session_by_verifier token_verifier now r = elim (get token_verifier r.sessions_by_verifier) [
  | none ↦ (ok false, r)
  | some session ↦
      if is_some session.revoked_at
      then (ok false, r)
      else (ok true, put_session token_verifier (record session { revoked_at = some now }) r)
]
