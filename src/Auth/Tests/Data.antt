-- ===== src/Auth/Tests/Data.antt =====
-- A small office: its owner Alice, who has logged in and created Bob's account, and Bob, who has
-- logged in too.
use kovcheg.Base.{ℕ, ◌≡◌, refl, subst, List, [], ◌∷◌, none, some}
use kovcheg.Text.{Text, codes, text_discrete}
use kovcheg.Text.Bytes.{utf8}
use kovcheg.Dict.{get, set, update_values, some_value}
use kovcheg.Auth.Types.{
  BootstrapAdministratorInput, ChallengeRecordInput, SessionRecordInput, FunctionalGrant-discrete,
}
use kovcheg.Auth.Repository.State.{
  StoredAccount, StoredSession, StoredChallenge, Repository, empty_repository, includes_grant,
  clone_account, session_principal, safe_verifier_equal,
}
use kovcheg.Auth.Repository.Administration.{
  bootstrap_administrator, create_account_as_administrator, require_administrator,
  invalidate_challenge_if, bootstrapped, new_account,
}
use kovcheg.Auth.Repository.Challenges.{issue_email_challenge, consume_challenge_and_create_session}
use kovcheg.Auth.Repository.Sessions.{create_oidc_session}
use kovcheg.Auth.Repository.Calls.{Call, step, run}
use kovcheg.Auth.Repository.Invariants.WellFormed.{IsWellFormed, run-IsWellFormed}
use kovcheg.Auth.Repository.Invariants.Addresses.{empty-IsIndexed}

abbrev pub owner_input : BootstrapAdministratorInput
owner_input = record {
  bootstrap_id = codes "boot";
  display_name = codes "Alice";
  email = codes "a@x";
  user_id = codes "alice";
}

abbrev pub challenge_input : Text → Text → ℕ → ChallengeRecordInput
challenge_input id verifier issued_at = record {
  challenge_id = id;
  code_verifier = verifier;
  expires_at = 600;
  issued_at = issued_at;
  max_attempts = 2;
}

abbrev pub session_input : Text → Text → ℕ → SessionRecordInput
session_input id verifier issued_at = record {
  absolute_expires_at = 1000;
  idle_lifetime_ms = 100;
  issued_at = issued_at;
  session_id = id;
  token_verifier = verifier;
}

-- Bob's challenge is open, and Bob has another session.
abbrev pub script : List Call
script =
    Call.bootstrap owner_input
    ∷ Call.issue (challenge_input (codes "c1") (codes "v1") 0) (codes "a@x") 10
    ∷ Call.consume (codes "v1") (codes "c1") 1 (session_input (codes "s1") (codes "t1") 1)
    ∷ Call.create_account (codes "t1") 2 (codes "Bob") (codes "b@x") (codes "bob")
    ∷ Call.open_oidc (codes "bob") (session_input (codes "s2") (codes "t2") 3) (codes "oidc")
    ∷ Call.issue (challenge_input (codes "c2") (codes "v2") 4) (codes "b@x") 10
    ∷ []

abbrev pub office : Repository
office = run empty_repository script

pub office-IsWellFormed : IsWellFormed office
office-IsWellFormed = run-IsWellFormed empty_repository script empty-IsIndexed.0

abbrev pub bob : StoredAccount
bob = new_account (codes "Bob") (codes "b@x") (codes "bob")

abbrev pub bob_session : StoredSession
bob_session = record {
  input = session_input (codes "s2") (codes "t2") 3;
  account_id = codes "bob";
  idle_expires_at = 103;
  last_seen_at = 3;
  revoked_at = none;
  source_oidc_token_verifier = some (codes "oidc");
}

abbrev pub bob_challenge : StoredChallenge
bob_challenge = record {
  input = challenge_input (codes "c2") (codes "v2") 4;
  account_id = codes "bob";
  attempts = 0;
  invalidated_at = none;
  used_at = none;
}

-- The office, written out.
abbrev pub office_state : Repository
office_state = record {
  accounts_by_email = (codes "a@x", codes "alice") ∷ (codes "b@x", codes "bob") ∷ [];
  accounts_by_id = (codes "alice", bootstrapped owner_input) ∷ (codes "bob", bob) ∷ [];
  bootstrap_accounts = (codes "boot", codes "alice") ∷ [];
  challenges =
      (
        codes "c1",
        record {
          input = challenge_input (codes "c1") (codes "v1") 0;
          account_id = codes "alice";
          attempts = 0;
          invalidated_at = none;
          used_at = some 1;
        },
      )
      ∷ (codes "c2", bob_challenge)
      ∷ [];
  latest_challenge_at = (codes "alice", 0) ∷ (codes "bob", 4) ∷ [];
  passkeys_by_credential_id = [];
  passkeys_by_id = [];
  sessions_by_verifier =
      (
        codes "t1",
        record {
          input = session_input (codes "s1") (codes "t1") 1;
          account_id = codes "alice";
          idle_expires_at = 102;
          last_seen_at = 2;
          revoked_at = none;
          source_oidc_token_verifier = none;
        },
      )
      ∷ (codes "t2", bob_session)
      ∷ [];
}

pub office_is : office ≡ office_state
unfolding run step bootstrap_administrator issue_email_challenge
    consume_challenge_and_create_session create_oidc_session create_account_as_administrator
    require_administrator get set update_values some_value invalidate_challenge_if
    safe_verifier_equal utf8 text_discrete clone_account session_principal includes_grant
    FunctionalGrant-discrete
office_is = refl

pub office_state-IsWellFormed : IsWellFormed office_state
office_state-IsWellFormed = subst IsWellFormed office_is office-IsWellFormed
