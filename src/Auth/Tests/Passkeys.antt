-- ===== src/Auth/Tests/Passkeys.antt =====
-- The theorems on passkey logins at the office, where Bob registers a passkey.
use kovcheg.Base.{◌≡◌, ◌≢◌, refl, List, [], ◌∷◌, true, none, some, ok, result, after, arith, max}
use kovcheg.Text.{codes, text_discrete}
use kovcheg.Text.Bytes.{base64url}
use kovcheg.Dict.{get, set, some_value}
use kovcheg.Auth.Types.{advanced, internal}
use kovcheg.Auth.Repository.State.{StoredAccount, StoredPasskey, Repository}
use kovcheg.Auth.Repository.Sessions.{opened}
use kovcheg.Auth.Repository.Passkeys.{
  PasskeyLogin, PasskeyRegistration, CompletePasskeyLoginResult, complete_passkey_login,
  used_passkey, sign_count_status, register_passkey,
}
use kovcheg.Auth.Repository.Calls.{Call, step, run}
use kovcheg.Auth.Repository.Invariants.WellFormed.{IsWellFormed, run-IsWellFormed}
use kovcheg.Auth.Repository.Properties.Validation.{IsInForce}
use kovcheg.Auth.Repository.Properties.PasskeyLogins.{
  IsUsed, passkey_login-IsInForce, stale_passkey_login_refused,
}
use kovcheg.Auth.Tests.Data.{office_state, office_state-IsWellFormed, session_input}

abbrev registration : PasskeyRegistration
registration = record {
  actor_session_verifier = codes "t2";
  aaguid = codes "aaguid";
  attestation_format = codes "none";
  backup_eligible = true;
  backup_state = true;
  credential_id = 1 ∷ 2 ∷ 3 ∷ [];
  now = 10;
  passkey_id = codes "p1";
  public_key = 7 ∷ [];
  sign_count = 4;
  transports = internal ∷ [];
  user_verified = true;
}

abbrev setup : List Call
setup = Call.add_passkey registration ∷ []

abbrev pub keyed_office : Repository
keyed_office = run office_state setup

pub keyed_office-IsWellFormed : IsWellFormed keyed_office
keyed_office-IsWellFormed = run-IsWellFormed office_state setup office_state-IsWellFormed

abbrev login : PasskeyLogin
login = record {
  credential_id = 1 ∷ 2 ∷ 3 ∷ [];
  expected_sign_count = 4;
  now = 20;
  observed_backup_eligible = true;
  observed_backup_state = true;
  observed_sign_count = 5;
  session = session_input (codes "s8") (codes "t8") 20;
  user_verified = true;
}

abbrev again : PasskeyLogin
again = record login { now = 30; session = session_input (codes "s9") (codes "t9") 30 }

abbrev answer : CompletePasskeyLoginResult
answer = record { account_id = codes "bob"; session_id = codes "s8"; sign_count_status = advanced }

answered : result (complete_passkey_login login keyed_office) ≡ ok (some answer)
unfolding run step register_passkey complete_passkey_login sign_count_status get set some_value
    text_discrete base64url
answered = refl

passkey_login-IsInForce_example :
    (id : _) × (p : StoredPasskey) × (a : StoredAccount) × IsUsed keyed_office login answer id p
    × IsInForce
        (after (complete_passkey_login login keyed_office))
        (codes "t8")
        20
        (opened login.session (codes "bob") 20 none)
        a
    × ((used_passkey login p).sign_count ≡ max 4 5)
passkey_login-IsInForce_example =
    passkey_login-IsInForce keyed_office login answer keyed_office-IsWellFormed (omega arith)
      (omega arith) answered

stale_passkey_login_refused_example :
    result (
      complete_passkey_login again (
        run
          (after (complete_passkey_login login keyed_office))
          (Call.authenticate (codes "t8") 25 ∷ [])))
    ≢ ok (some answer)
stale_passkey_login_refused_example =
    stale_passkey_login_refused keyed_office (Call.authenticate (codes "t8") 25 ∷ []) login again
      answer answer keyed_office-IsWellFormed answered (omega arith) refl refl
