-- ===== src/Auth/Repository/Cases/Methods.antt =====
-- The rules of the methods that write to sessions, challenges and passkeys on their own authority.
use kovcheg.Base.{ℕ, ◌+◌, ◌<◌, ◌≡◌, inl, inr, false, none, some, arith, Option-cases, after}
use kovcheg.Text.{Text}
use kovcheg.Text.Bytes.{base64url}
use kovcheg.Dict.{get, set, some_value, update_values}
use kovcheg.Auth.Types.{ChallengeRecordInput, SessionRecordInput, active}
use kovcheg.Auth.Repository.State.{
  StoredAccount, StoredSession, StoredChallenge, StoredPasskey, Repository, account_by_email,
  passkey_by_credential_key,
}
use kovcheg.Auth.Repository.Administration.{
  touched, put_session, is_live_challenge_of, invalidate_challenge_if,
}
use kovcheg.Auth.Repository.Sessions.{
  authenticate_session, create_oidc_session, revoke_session_by_verifier, opened, is_from_source,
}
use kovcheg.Auth.Repository.Challenges.{
  issue_email_challenge, consume_challenge_and_create_session, invalidate_challenge, put_challenge,
  new_challenge,
}
use kovcheg.Auth.Repository.Passkeys.{
  PasskeyLogin, PasskeyRegistration, complete_passkey_login, register_passkey, used_passkey,
  registered,
}

-- An active account that the repository holds.
pub record IsActiveAccount (r : Repository) (id : Text) (a : StoredAccount) : Type 0 where
  pub found : get id r.accounts_by_id ≡ some a
  pub is_in_force : a.status ≡ active

-- A challenge that can still be answered.
pub record IsAnswerable (r : Repository) (challenge_id : Text) (now : ℕ) (c : StoredChallenge)
    : Type 0 where
  pub found : get challenge_id r.challenges ≡ some c
  pub is_valid : c.invalidated_at ≡ none
  pub is_unused : c.used_at ≡ none
  pub is_unexpired : now < c.expires_at
  pub is_open : c.attempts < c.max_attempts

module _ (P : Repository → Type 0) (r : Repository) where
  pub authenticate_cases :
      (verifier : Text) (now : ℕ)
      → P r
      → ((s : StoredSession)
          → get verifier r.sessions_by_verifier ≡ some s
          → s.revoked_at ≡ none
          → P (put_session verifier (record s { revoked_at = some now }) r))
      → ((s : StoredSession)
          → get verifier r.sessions_by_verifier ≡ some s
          → s.revoked_at ≡ none
          → P (put_session verifier (touched now s) r))
      → P (after (authenticate_session verifier now r))
  unfolding authenticate_session
  authenticate_cases verifier now same revoke touch =
      elim (Option-cases (get verifier r.sessions_by_verifier)) [
        | inl e ↦ ground arith
        | inr (s, e) ↦ ground (arith, revoke s e, touch s e)
      ]

  pub log_out_cases :
      (verifier : Text) (now : ℕ)
      → P r
      → ((s : StoredSession)
          → get verifier r.sessions_by_verifier ≡ some s
          → s.revoked_at ≡ none
          → P (put_session verifier (record s { revoked_at = some now }) r))
      → P (after (revoke_session_by_verifier verifier now r))
  unfolding revoke_session_by_verifier
  log_out_cases verifier now same revoke =
      elim (Option-cases (get verifier r.sessions_by_verifier)) [
        | inl e ↦ ground arith
        | inr (s, e) ↦ ground (arith, revoke s e)
      ]

  pub open_oidc_cases :
      (account_id : Text) (input : SessionRecordInput) (source : Text)
      → P r
      → ((a : StoredAccount)
          → IsActiveAccount r account_id a
          → some_value (is_from_source source) r.sessions_by_verifier ≡ false
          → get input.token_verifier r.sessions_by_verifier ≡ none
          → P (
              put_session input.token_verifier
                (opened input a.user_id input.issued_at (some source))
                r))
      → P (after (create_oidc_session account_id input source r))
  unfolding create_oidc_session
  open_oidc_cases account_id input source same open_session =
      elim (Option-cases (get account_id r.accounts_by_id)) [
        | inl e ↦ ground arith
        | inr (a, e) ↦ ground (arith, λ (h : IsActiveAccount r account_id a). open_session a h)
      ]

  pub issue_cases :
      (challenge : ChallengeRecordInput) (email : Text) (cooldown : ℕ)
      → P r
      → ((a : StoredAccount)
          → account_by_email email r ≡ some a
          → a.status ≡ active
          → P (record r {
            challenges = set challenge.challenge_id (new_challenge challenge a.user_id) (
                update_values
                  (invalidate_challenge_if (is_live_challenge_of a.user_id) challenge.issued_at)
                  r.challenges);
            latest_challenge_at = set a.user_id challenge.issued_at r.latest_challenge_at;
          }))
      → P (after (issue_email_challenge challenge email cooldown r))
  unfolding issue_email_challenge
  issue_cases challenge email cooldown same send = elim (Option-cases (account_by_email email r)) [
    | inl e ↦ ground arith
    | inr (a, e) ↦ ground (arith, send a e)
  ]

  pub consume_cases :
      (candidate challenge_id : Text) (now : ℕ) (input : SessionRecordInput)
      → P r
      → ((c : StoredChallenge)
          → IsAnswerable r challenge_id now c
          → P (put_challenge challenge_id (record c { attempts = c.attempts + 1 }) r))
      → ((c : StoredChallenge)
          → IsAnswerable r challenge_id now c
          → P (put_challenge challenge_id (record c { invalidated_at = some now }) r))
      → ((c : StoredChallenge) (a : StoredAccount)
          → IsAnswerable r challenge_id now c
          → IsActiveAccount r c.account_id a
          → get input.token_verifier r.sessions_by_verifier ≡ none
          → P (
              put_session input.token_verifier
                (opened input a.user_id input.issued_at none)
                (put_challenge challenge_id (record c { used_at = some now }) r)))
      → P (after (consume_challenge_and_create_session candidate challenge_id now input r))
  unfolding consume_challenge_and_create_session
  consume_cases candidate challenge_id now input same failed dropped consumed =
      elim (Option-cases (get challenge_id r.challenges)) [
        | inl e ↦ ground arith
        | inr (c, e) ↦ elim (Option-cases (get c.account_id r.accounts_by_id)) [
          | inl e' ↦ ground (
            arith,
            λ (h : IsAnswerable r challenge_id now c). failed c h,
            λ (h : IsAnswerable r challenge_id now c). dropped c h,
          )
          | inr (a, e') ↦ ground (
            arith,
            λ (h : IsAnswerable r challenge_id now c). failed c h,
            λ (h : IsAnswerable r challenge_id now c). dropped c h,
            λ (h : IsAnswerable r challenge_id now c) (h' : IsActiveAccount r c.account_id a).
                consumed c a h h',
          )
        ]
      ]

  pub invalidate_cases :
      (challenge_id : Text) (now : ℕ)
      → P r
      → ((c : StoredChallenge)
          → get challenge_id r.challenges ≡ some c
          → c.used_at ≡ none
          → P (put_challenge challenge_id (record c { invalidated_at = some now }) r))
      → P (after (invalidate_challenge challenge_id now r))
  unfolding invalidate_challenge
  invalidate_cases challenge_id now same dropped =
      elim (Option-cases (get challenge_id r.challenges)) [
        | inl e ↦ ground arith
        | inr (c, e) ↦ ground (arith, dropped c e)
      ]

  pub log_in_passkey_cases :
      (login : PasskeyLogin)
      → P r
      → ((p : StoredPasskey) (a : StoredAccount)
          → passkey_by_credential_key (base64url login.credential_id) r ≡ some p
          → p.revoked_at ≡ none
          → p.sign_count ≡ login.expected_sign_count
          → IsActiveAccount r p.account_id a
          → get login.session.token_verifier r.sessions_by_verifier ≡ none
          → P (
              put_session login.session.token_verifier
                (opened login.session p.account_id login.now none)
                (record r {
                  passkeys_by_id = set p.passkey_id (used_passkey login p) r.passkeys_by_id;
                })))
      → P (after (complete_passkey_login login r))
  unfolding complete_passkey_login
  log_in_passkey_cases login same log_in =
      elim (Option-cases (passkey_by_credential_key (base64url login.credential_id) r)) [
        | inl e ↦ ground arith
        | inr (p, e) ↦ elim (Option-cases (get p.account_id r.accounts_by_id)) [
          | inl e' ↦ ground arith
          | inr (a, e') ↦ ground (arith, log_in p a e)
        ]
      ]

  pub add_passkey_cases :
      (input : PasskeyRegistration)
      → P r
      → ((s : StoredSession) (a : StoredAccount)
          → get input.actor_session_verifier r.sessions_by_verifier ≡ some s
          → IsActiveAccount r s.account_id a
          → get (base64url input.credential_id) r.passkeys_by_credential_id ≡ none
          → get input.passkey_id r.passkeys_by_id ≡ none
          → P (record r {
            passkeys_by_credential_id =
                set (base64url input.credential_id) input.passkey_id r.passkeys_by_credential_id;
            passkeys_by_id = set input.passkey_id (registered input a.user_id) r.passkeys_by_id;
          }))
      → P (after (register_passkey input r))
  unfolding register_passkey
  add_passkey_cases input same add =
      elim (Option-cases (get input.actor_session_verifier r.sessions_by_verifier)) [
        | inl e ↦ ground arith
        | inr (s, e) ↦ elim (Option-cases (get s.account_id r.accounts_by_id)) [
          | inl e' ↦ ground arith
          | inr (a, e') ↦ ground (arith, add s a e)
        ]
      ]
