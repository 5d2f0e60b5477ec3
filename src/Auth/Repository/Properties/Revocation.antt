-- ===== src/Auth/Repository/Properties/Revocation.antt =====
-- A session that is revoked or has run out authenticates nobody, whatever happens afterwards.
use kovcheg.Base.{
  ℕ, ◌≤◌, ◌≡◌, refl, ◌∙◌, none, some, arith, List, true, false, ok, err, result, after,
  Option-cases, inl, inr,
}
use kovcheg.Text.{Text}
use kovcheg.Dict.{get, some_value-false, get-set_self}
use kovcheg.Auth.Types.{SessionRecordInput, authorization}
use kovcheg.Auth.Repository.State.{StoredSession, Repository}
use kovcheg.Auth.Repository.Administration.{require_administrator}
use kovcheg.Auth.Repository.Sessions.{
  authenticate_session, validate_session, revoke_session_by_verifier, create_oidc_session,
  is_from_source, opened,
}
use kovcheg.Auth.Repository.Calls.{Call, run, step}
use kovcheg.Auth.Repository.Closure.{step-closed}
use kovcheg.Auth.Repository.Invariants.WellFormed.{IsWellFormed, IsWellFormed-closed}
use kovcheg.Auth.Repository.Evolution.Histories.{run-Evolution}

-- What a shut session is answered with: nothing, and no write.
abbrev pub IsShutOut : Text → ℕ → Repository → Type 0
IsShutOut verifier now r =
    (authenticate_session verifier now r ≡ (ok none, r))
    × (validate_session verifier now r ≡ (ok none, r))
    × (require_administrator verifier now r ≡ (err authorization, r))

revoked-IsShutOut :
    (r : Repository) (verifier : Text) (now t : ℕ) (s : StoredSession)
    → get verifier r.sessions_by_verifier ≡ some s
    → s.revoked_at ≡ some t
    → IsShutOut verifier now r
unfolding authenticate_session validate_session require_administrator
revoked-IsShutOut r verifier now t s e dead = (ground arith, ground arith, ground arith)

-- In a well-formed repository: once a stored session is revoked, after any further calls its token
-- is refused: it neither authenticates, nor validates, nor passes the administrative guard, at any
-- time, and these attempts write nothing.
pub revoked_stays_out :
    (r : Repository) (cs : List Call) (verifier : Text) (now t : ℕ) (s : StoredSession)
    → IsWellFormed r
    → get verifier r.sessions_by_verifier ≡ some s
    → s.revoked_at ≡ some t
    → IsShutOut verifier now (run r cs)
revoked_stays_out r cs verifier now t s h e dead =
    let (s', e', later) = (run-Evolution r cs h).sessions verifier s e in
    revoked-IsShutOut (run r cs) verifier now t s' e' (later.stays_revoked t dead)

-- The state after a log-out that says it revoked something holds the session, revoked.
log_out-revokes :
    (r : Repository) (verifier : Text) (t : ℕ)
    → result (revoke_session_by_verifier verifier t r) ≡ ok true
    → (s : StoredSession) × (get verifier
          (after (revoke_session_by_verifier verifier t r)).sessions_by_verifier
        ≡ some s)
      × (s.revoked_at ≡ some t)
unfolding revoke_session_by_verifier
log_out-revokes r verifier t e = elim (Option-cases (get verifier r.sessions_by_verifier)) [
  | inl missing ↦ absurd (ground arith)
  | inr (s, found) ↦ (
    record s { revoked_at = some t },
    ground (arith, get-set_self verifier (record s { revoked_at = some t }) r.sessions_by_verifier),
    refl,
  )
]

-- If a log-out at time `t` from a well-formed repository answers that it revoked the session, then
-- after any further calls the token neither authenticates, nor validates, nor passes the
-- administrative guard, and these attempts write nothing.
pub logged_out_stays_out :
    (r : Repository) (cs : List Call) (verifier : Text) (t now : ℕ)
    → IsWellFormed r
    → result (revoke_session_by_verifier verifier t r) ≡ ok true
    → IsShutOut verifier now (run (after (revoke_session_by_verifier verifier t r)) cs)
unfolding step
logged_out_stays_out r cs verifier t now h e =
    let (s, found, dead) = log_out-revokes r verifier t e in
    revoked_stays_out (after (revoke_session_by_verifier verifier t r)) cs verifier now t s
      (step-closed IsWellFormed-closed r (Call.log_out verifier t) tt h) found dead

expired-IsShutOut :
    (r : Repository) (verifier : Text) (now : ℕ) (s : StoredSession)
    → get verifier r.sessions_by_verifier ≡ some s
    → s.absolute_expires_at ≤ now
    → (result (authenticate_session verifier now r) ≡ ok none)
      × (validate_session verifier now r ≡ (ok none, r))
      × (require_administrator verifier now r ≡ (err authorization, r))
unfolding authenticate_session validate_session require_administrator
expired-IsShutOut r verifier now s e late =
    elim (Option-cases (get s.account_id r.accounts_by_id)) [
      | inl missing ↦ (ground arith, ground arith, ground arith)
      | inr (a, found) ↦ (ground arith, ground arith, ground arith)
    ]

-- In a well-formed repository: a token is refused from its session's absolute deadline on, after
-- any calls: no amount of use prolongs it. (An attempt to authenticate with it may still mark the
-- session as revoked.)
pub expired_stays_out :
    (r : Repository) (cs : List Call) (verifier : Text) (now : ℕ) (s : StoredSession)
    → IsWellFormed r
    → get verifier r.sessions_by_verifier ≡ some s
    → s.absolute_expires_at ≤ now
    → (result (authenticate_session verifier now (run r cs)) ≡ ok none)
      × (validate_session verifier now (run r cs) ≡ (ok none, run r cs))
      × (require_administrator verifier now (run r cs) ≡ (err authorization, run r cs))
expired_stays_out r cs verifier now s h e late =
    let (s', e', later) = (run-Evolution r cs h).sessions verifier s e in
    expired-IsShutOut (run r cs) verifier now s' e' (ground (arith, later.same_input))

oidc_opens :
    (r : Repository) (id source : Text) (input : SessionRecordInput)
    → result (create_oidc_session id input source r) ≡ ok true
    → (s : StoredSession) × (get input.token_verifier
          (after (create_oidc_session id input source r)).sessions_by_verifier
        ≡ some s)
      × (s.source_oidc_token_verifier ≡ some source)
unfolding create_oidc_session
oidc_opens r id source input e = elim (Option-cases (get id r.accounts_by_id)) [
  | inl missing ↦ absurd (ground arith)
  | inr (a, found) ↦ (
    opened input a.user_id input.issued_at (some source),
    ground (
      arith,
      get-set_self input.token_verifier (opened input a.user_id input.issued_at (some source))
          r.sessions_by_verifier,
    ),
    refl,
  )
]

used_source_refused :
    (r : Repository) (k id source : Text) (input : SessionRecordInput) (s : StoredSession)
    → get k r.sessions_by_verifier ≡ some s
    → s.source_oidc_token_verifier ≡ some source
    → create_oidc_session id input source r ≡ (ok false, r)
unfolding create_oidc_session
used_source_refused r k id source input s e from = elim (Option-cases (get id r.accounts_by_id)) [
  | inl missing ↦ ground arith
  | inr (a, found) ↦
      ground (arith, some_value-false (is_from_source source) k s r.sessions_by_verifier)
]

-- An OIDC token opens at most one application session: once it has opened one, from a well-formed
-- repository, every later attempt with it is refused and writes nothing, whatever the account, and
-- whatever happened in between.
pub oidc_replay_refused :
    (r : Repository) (cs : List Call) (id id' source : Text) (input input' : SessionRecordInput)
    → IsWellFormed r
    → result (create_oidc_session id input source r) ≡ ok true
    → let q = run (after (create_oidc_session id input source r)) cs in
      create_oidc_session id' input' source q ≡ (ok false, q)
unfolding step
oidc_replay_refused r cs id id' source input input' h e =
    let (s, found, from) = oidc_opens r id source input e in
    let (s', e', later) =
      (run-Evolution (after (create_oidc_session id input source r)) cs
          (step-closed IsWellFormed-closed r (Call.open_oidc id input source) tt h)).sessions
        input.token_verifier s found in
    used_source_refused _ input.token_verifier id' source input' s' e' (later.same_source ∙ from)
