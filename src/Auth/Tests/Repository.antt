-- ===== src/Auth/Tests/Repository.antt =====
-- The theorems on the repository at the office.
use kovcheg.Base.{
  ◌+◌, min, ◌≡◌, refl, false, List, [], ◌∷◌, none, some, ok, err, result, after, arith,
}
use kovcheg.Text.{codes, text_discrete}
use kovcheg.Text.Bytes.{utf8}
use kovcheg.Dict.{get, set, count_values, some_value}
use kovcheg.Auth.Types.{
  SessionPrincipal, FunctionalGrant-discrete, editor, disciple, platform_administrator,
  authorization, invalid, deactivated,
}
use kovcheg.Auth.Repository.State.{
  includes_grant, clone_account, session_principal, safe_verifier_equal, Repository, StoredAccount,
}
use kovcheg.Auth.Repository.Administration.{
  require_administrator, require_account, put_session, admin_security_reset_auth_access,
  create_account_as_administrator, grant_functional_grant_as_administrator,
  revoke_functional_grant_as_administrator, set_account_status_as_administrator,
  set_domain_status_as_administrator, update_account_as_administrator, with_grant,
}
use kovcheg.Auth.Repository.Sessions.{
  authenticate_session, validate_session, create_oidc_session, revoke_session_by_verifier,
  revoke_all_sessions_as_administrator, revoke_session_as_administrator, opened,
}
use kovcheg.Auth.Repository.Challenges.{consume_challenge_and_create_session}
use kovcheg.Auth.Repository.Calls.{Call, step, run}
use kovcheg.Auth.Repository.Properties.Revocation.{
  IsShutOut, revoked_stays_out, logged_out_stays_out, expired_stays_out, oidc_replay_refused,
}
use kovcheg.Auth.Repository.Properties.OneTimeCodes.{
  challenge_works_once, guessing_is_bounded, wrong_guesses, is_wrong_guess,
}
use kovcheg.Auth.Repository.Properties.Validation.{
  IsInForce, authenticate_session-IsInForce, validate_session-authenticate_session,
  consume_challenge-IsInForce,
}
use kovcheg.Auth.Repository.Properties.Authority.{
  administration_is_guarded, only_owner_appoints, IsLockedOut, security_reset_locks_out,
  deactivation_locks_out,
}
use kovcheg.Auth.Repository.Invariants.WellFormed.{run-IsWellFormed}
use kovcheg.Auth.Tests.Data.{
  office_state, office_state-IsWellFormed, bob, bob_session, bob_challenge, session_input,
}

-- What Bob does after his session was shut.
abbrev knocks : List Call
knocks =
    Call.authenticate (codes "t2") 6
    ∷ Call.consume (codes "v9") (codes "c2") 7 (session_input (codes "s3") (codes "t3") 7)
    ∷ []

logged_out_stays_out_example :
    IsShutOut
      (codes "t2")
      9
      (run (after (revoke_session_by_verifier (codes "t2") 5 office_state)) knocks)
unfolding revoke_session_by_verifier get text_discrete
logged_out_stays_out_example =
    logged_out_stays_out office_state knocks (codes "t2") 5 9 office_state-IsWellFormed refl

expired_stays_out_example :
    (result (authenticate_session (codes "t2") 1000 (run office_state knocks)) ≡ ok none)
    × (validate_session (codes "t2") 1000 (run office_state knocks)
        ≡ (ok none, run office_state knocks))
    × (require_administrator (codes "t2") 1000 (run office_state knocks)
        ≡ (err authorization, run office_state knocks))
unfolding get text_discrete
expired_stays_out_example =
    expired_stays_out office_state knocks (codes "t2") 1000 bob_session office_state-IsWellFormed
      refl (omega arith)

abbrev shut_office : Repository
shut_office = run office_state (Call.log_out (codes "t2") 5 ∷ [])

revoked_stays_out_example : IsShutOut (codes "t2") 9 (run shut_office knocks)
unfolding run step revoke_session_by_verifier get set text_discrete
revoked_stays_out_example =
    revoked_stays_out shut_office knocks (codes "t2") 9 5
      (record bob_session { revoked_at = some 5 })
      (run-IsWellFormed office_state (Call.log_out (codes "t2") 5 ∷ []) office_state-IsWellFormed)
      refl refl

oidc_replay_refused_example :
    let q =
      run
        (after (
          create_oidc_session
            (codes "alice")
            (session_input (codes "s4") (codes "t4") 5)
            (codes "token")
            office_state))
        knocks in
    create_oidc_session (codes "bob") (session_input (codes "s5") (codes "t5") 8) (codes "token") q
    ≡ (ok false, q)
unfolding create_oidc_session get set some_value text_discrete
oidc_replay_refused_example =
    oidc_replay_refused office_state knocks (codes "alice") (codes "bob") (codes "token")
      (session_input (codes "s4") (codes "t4") 5) (session_input (codes "s5") (codes "t5") 8)
      office_state-IsWellFormed refl

abbrev bob_opened : SessionPrincipal
bob_opened =
    session_principal bob (opened (session_input (codes "s3") (codes "t3") 5) (codes "bob") 5 none)

challenge_works_once_example :
    let q =
      run
        (after (
          consume_challenge_and_create_session
            (codes "v2")
            (codes "c2")
            5
            (session_input (codes "s3") (codes "t3") 5)
            office_state))
        knocks in
    consume_challenge_and_create_session
      (codes "v2")
      (codes "c2")
      9
      (session_input (codes "s6") (codes "t6") 9)
      q
    ≡ (ok invalid, q)
unfolding consume_challenge_and_create_session get set safe_verifier_equal utf8 text_discrete
challenge_works_once_example =
    challenge_works_once office_state knocks (codes "c2") (codes "v2") (codes "v2") 5 9
      (session_input (codes "s3") (codes "t3") 5) (session_input (codes "s6") (codes "t6") 9)
      bob_opened refl (tt, (tt, tt))

-- As many wrong guesses as the challenge allows.
abbrev guesses : List Call
guesses =
    Call.consume (codes "v7") (codes "c2") 6 (session_input (codes "s3") (codes "t3") 6)
    ∷ Call.consume (codes "v8") (codes "c2") 7 (session_input (codes "s3") (codes "t3") 7)
    ∷ []

two_guesses : wrong_guesses bob_challenge.input guesses ≡ 2
unfolding wrong_guesses is_wrong_guess safe_verifier_equal utf8 text_discrete
two_guesses = refl

guessing_is_bounded_example :
    consume_challenge_and_create_session
      (codes "v2")
      (codes "c2")
      9
      (session_input (codes "s6") (codes "t6") 9)
      (run office_state guesses)
    ≡ (ok invalid, run office_state guesses)
unfolding get text_discrete
guessing_is_bounded_example =
    guessing_is_bounded office_state guesses bob_challenge (codes "v2") 9
      (session_input (codes "s6") (codes "t6") 9) refl (tt, (tt, tt)) (omega (arith, two_guesses))

authenticate_session-IsInForce_example :
    (s : _) × (a : _) × IsInForce office_state (codes "t2") 6 s a
    × (session_principal bob bob_session ≡ session_principal a s)
    × (after (authenticate_session (codes "t2") 6 office_state)
        ≡ put_session
            (codes "t2")
            (record s {
              last_seen_at = 6;
              idle_expires_at = min s.absolute_expires_at (6 + s.idle_lifetime_ms);
            })
            office_state)
unfolding authenticate_session get text_discrete session_principal
authenticate_session-IsInForce_example =
    authenticate_session-IsInForce office_state (codes "t2") 6 (session_principal bob bob_session)
      refl

validate_session-authenticate_session_example :
    (after (validate_session (codes "t2") 6 office_state) ≡ office_state)
    × (result (authenticate_session (codes "t2") 6 office_state)
        ≡ ok (some (session_principal bob bob_session)))
unfolding validate_session get text_discrete
validate_session-authenticate_session_example =
    validate_session-authenticate_session office_state (codes "t2") 6
      (session_principal bob bob_session) refl

consume_challenge-IsInForce_example :
    (a : StoredAccount) × IsInForce
      (after (
        consume_challenge_and_create_session
          (codes "v2")
          (codes "c2")
          5
          (session_input (codes "s3") (codes "t3") 5)
          office_state))
      (codes "t3")
      5
      (opened (session_input (codes "s3") (codes "t3") 5) a.user_id 5 none)
      a
    × (bob_opened
        ≡ session_principal a (opened (session_input (codes "s3") (codes "t3") 5) a.user_id 5 none))
unfolding consume_challenge_and_create_session get set safe_verifier_equal utf8 text_discrete
consume_challenge-IsInForce_example =
    consume_challenge-IsInForce office_state (codes "v2") (codes "c2") 5
      (session_input (codes "s3") (codes "t3") 5) bob_opened office_state-IsWellFormed (omega arith)
      (omega arith) refl

-- Bob is no administrator.
administration_is_guarded_example :
    let r = office_state in
    let out = authorization in
    (admin_security_reset_auth_access (codes "t2") (codes "alice") 6 r ≡ (err out, r))
    × (create_account_as_administrator (codes "t2") 6 (codes "Eve") (codes "e@x") (codes "alice") r
        ≡ (err out, r))
    × (grant_functional_grant_as_administrator (codes "t2") 6 (codes "alice") editor r
        ≡ (err out, r))
    × (revoke_functional_grant_as_administrator (codes "t2") 6 (codes "alice") editor r
        ≡ (err out, r))
    × (set_account_status_as_administrator (codes "t2") 6 (codes "alice") deactivated r
        ≡ (err out, r))
    × (set_domain_status_as_administrator (codes "t2") 6 (codes "alice") disciple r ≡ (err out, r))
    × (update_account_as_administrator (codes "t2") 6 (codes "alice") (codes "Eve") (codes "e@x") r
        ≡ (err out, r))
    × (revoke_all_sessions_as_administrator (codes "t2") 6 (codes "alice") r ≡ (err out, r))
    × (revoke_session_as_administrator (codes "t2") 6 (codes "alice") (codes "s1") r ≡ (err out, r))
unfolding require_administrator get text_discrete includes_grant
administration_is_guarded_example =
    administration_is_guarded office_state (codes "t2") 6 authorization (codes "alice") (codes "s1")
      (codes "Eve") (codes "e@x") editor deactivated disciple refl

-- Bob becomes an administrator, and does not own the server.
abbrev raised : Repository
raised =
    run office_state (Call.grant_grant (codes "t1") 5 (codes "bob") platform_administrator ∷ [])

only_owner_appoints_example :
    let q = after (require_administrator (codes "t2") 6 raised) in
    (grant_functional_grant_as_administrator
        (codes "t2")
        6
        (codes "bob")
        platform_administrator
        raised
      ≡ (err authorization, q))
    × (revoke_functional_grant_as_administrator
          (codes "t2")
          6
          (codes "bob")
          platform_administrator
          raised
        ≡ (err authorization, q))
    × (q.accounts_by_id ≡ raised.accounts_by_id)
unfolding run step grant_functional_grant_as_administrator require_administrator require_account get
    set text_discrete includes_grant with_grant FunctionalGrant-discrete clone_account
only_owner_appoints_example =
    only_owner_appoints raised (after (require_administrator (codes "t2") 6 raised)) (codes "t2") 6
      (codes "bob") (record bob { functional_grants = platform_administrator ∷ [] }) refl refl

security_reset_locks_out_example :
    IsLockedOut
      (codes "bob")
      (after (admin_security_reset_auth_access (codes "t1") (codes "bob") 6 office_state))
unfolding admin_security_reset_auth_access require_administrator require_account get set
    count_values text_discrete includes_grant FunctionalGrant-discrete
security_reset_locks_out_example =
    security_reset_locks_out office_state (codes "t1") (codes "bob") 6
      (record {
        invalidated_challenge_count = 1;
        revoked_application_session_count = 1;
        revoked_passkey_count = 0;
      })
      refl

deactivation_locks_out_example : IsLockedOut (codes "bob") (
    after
      (set_account_status_as_administrator (codes "t1") 6 (codes "bob") deactivated office_state))
unfolding set_account_status_as_administrator require_administrator require_account get set
    text_discrete includes_grant FunctionalGrant-discrete
deactivation_locks_out_example =
    deactivation_locks_out office_state (codes "t1") (codes "bob") 6
      (clone_account (record bob { status = deactivated })) refl
