-- ===== src/Auth/Repository/Properties/Validation.antt =====
-- What a successful authentication rests on, and how the two ways to check a session agree.
use kovcheg.Base.{
  ℕ, ◌+◌, ◌<◌, ◌≡◌, refl, none, some, arith, ok, result, after, Option-cases, inl, inr, min,
}
use kovcheg.Text.{Text}
use kovcheg.Dict.{get, get-set_self}
use kovcheg.Auth.Types.{SessionPrincipal, SessionRecordInput, authenticated, active}
use kovcheg.Auth.Repository.State.{StoredSession, StoredAccount, Repository, session_principal}
use kovcheg.Auth.Repository.Administration.{put_session}
use kovcheg.Auth.Repository.Sessions.{authenticate_session, validate_session, opened}
use kovcheg.Auth.Repository.Challenges.{consume_challenge_and_create_session}
use kovcheg.Auth.Repository.Invariants.WellFormed.{IsWellFormed}

-- A session that is in force at `now`, and its account.
pub record IsInForce (r : Repository) (verifier : Text) (now : ℕ) (s : StoredSession)
    (a : StoredAccount) : Type 0 where
  pub found : get verifier r.sessions_by_verifier ≡ some s
  pub is_live : s.revoked_at ≡ none
  pub is_in_use : now < s.idle_expires_at
  pub is_unexpired : now < s.absolute_expires_at
  pub owner : get s.account_id r.accounts_by_id ≡ some a
  pub owner_active : a.status ≡ active

-- A token that authenticates belongs to a live session of an active account, before both deadlines;
-- the answer is that account's principal; and the only write is to the session: it was seen at
-- `now`, and its idle deadline moves to `now` plus the idle lifetime, at most to the absolute
-- deadline.
pub authenticate_session-IsInForce :
    (r : Repository) (verifier : Text) (now : ℕ) (p : SessionPrincipal)
    → result (authenticate_session verifier now r) ≡ ok (some p)
    → (s : StoredSession) × (a : StoredAccount) × IsInForce r verifier now s a
      × (p ≡ session_principal a s)
      × (after (authenticate_session verifier now r)
          ≡ put_session verifier
              (record s {
                last_seen_at = now;
                idle_expires_at = min s.absolute_expires_at (now + s.idle_lifetime_ms);
              })
              r)
unfolding authenticate_session session_principal
authenticate_session-IsInForce r verifier now p h =
    elim (Option-cases (get verifier r.sessions_by_verifier)) [
      | inl missing ↦ absurd (ground arith)
      | inr (s, e) ↦ elim (Option-cases (get s.account_id r.accounts_by_id)) [
        | inl missing ↦ absurd (ground arith)
        | inr (a, e') ↦ (s, a, ground arith, ground arith, ground arith)
      ]
    ]

-- The check that does not touch the session agrees with the one that does: where it accepts a token
-- it changes nothing, and authentication at the same time accepts the token with the same principal.
pub validate_session-authenticate_session :
    (r : Repository) (verifier : Text) (now : ℕ) (p : SessionPrincipal)
    → result (validate_session verifier now r) ≡ ok (some p)
    → (after (validate_session verifier now r) ≡ r)
      × (result (authenticate_session verifier now r) ≡ ok (some p))
unfolding validate_session authenticate_session session_principal
validate_session-authenticate_session r verifier now p h =
    elim (Option-cases (get verifier r.sessions_by_verifier)) [
      | inl missing ↦ absurd (ground arith)
      | inr (s, e) ↦ elim (Option-cases (get s.account_id r.accounts_by_id)) [
        | inl missing ↦ absurd (ground arith)
        | inr (a, e') ↦ (ground arith, ground arith)
      ]
    ]

-- A code that is accepted opens a session that is in force at once, for the account that the answer
-- names, if its lifetimes have not run out already. The repository is well formed.
pub consume_challenge-IsInForce :
    (r : Repository) (candidate id : Text) (now : ℕ) (input : SessionRecordInput)
    (p : SessionPrincipal)
    → IsWellFormed r
    → now < input.absolute_expires_at
    → now < input.issued_at + input.idle_lifetime_ms
    → result (consume_challenge_and_create_session candidate id now input r) ≡ ok (authenticated p)
    → (a : StoredAccount) × IsInForce
        (after (consume_challenge_and_create_session candidate id now input r))
        input.token_verifier
        now
        (opened input a.user_id input.issued_at none)
        a
      × (p ≡ session_principal a (opened input a.user_id input.issued_at none))
unfolding consume_challenge_and_create_session
consume_challenge-IsInForce r candidate id now input p h absolute idle e =
    elim (Option-cases (get id r.challenges)) [
      | inl missing ↦ absurd (ground arith)
      | inr (c, found) ↦ elim (Option-cases (get c.account_id r.accounts_by_id)) [
        | inl missing ↦ absurd (ground arith)
        | inr (a, owner) ↦
            let s : StoredSession = opened input a.user_id input.issued_at none in
            (
              a,
              record {
                found = ground (arith, get-set_self input.token_verifier s r.sessions_by_verifier);
                is_live = refl;
                is_in_use = ground arith;
                is_unexpired = absolute;
                owner = ground (arith, h.accounts c.account_id a owner);
                owner_active = ground arith;
              },
              ground arith,
            )
      ]
    ]
