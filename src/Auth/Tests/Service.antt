-- ===== src/Auth/Tests/Service.antt =====
-- The theorems on the service at the office. The keyed hashes are stood for by concatenation.
use kovcheg.Base.{
  ltb, ◌+◌, ◌≡◌, ◌≢◌, refl, true, false, List, [], ◌∷◌, ◌++◌, ok, err, result, after,
}
use kovcheg.Text.{codes, text_discrete}
use kovcheg.Text.Bytes.{utf8}
use kovcheg.Text.Whitespace.{trim, is_whitespace, trim_start}
use kovcheg.Dict.{get, set, some_value}
use kovcheg.Auth.Types.{
  FunctionalGrant-discrete, RateLimitRule, conflict, invalid, editor, disciple, deactivated,
}
use kovcheg.Auth.Repository.State.{
  Repository, StoredSession, StoredAccount, empty_repository, safe_verifier_equal,
  session_principal, includes_grant,
}
use kovcheg.Auth.Repository.Administration.{require_administrator, require_account}
use kovcheg.Auth.Repository.Sessions.{revoke_session_as_administrator}
use kovcheg.Auth.Repository.Challenges.{consume_challenge_and_create_session}
use kovcheg.Auth.Repository.Calls.{Call, run}
use kovcheg.Auth.Repository.Properties.Validation.{IsInForce}
use kovcheg.Auth.RateLimiter.{Attempts, consume, in_window}
use kovcheg.Auth.Service.Policy.{
  AuthPolicy, repository, validate_policy, are_positive_rules, is_positive_integer,
}
use kovcheg.Auth.Service.Inputs.{normalize_rate_limit_dimension, candidate_code}
use kovcheg.Auth.Service.World.{World, Dependencies, Delivery, administrative_answer}
use kovcheg.Auth.Service.Limits.{consume_rate_limits, neutral_delay, timeout_ms}
use kovcheg.Auth.Service.Sessions.{
  ChallengeRequestInput, ChallengeVerificationInput, AuthenticatedSession, ChallengeDraws,
  SessionDraws, request_email_challenge, verify_email_challenge, finish_delivery,
}
use kovcheg.Auth.Service.Administration.{
  AccountInput, AuthorizationMutationInput, create_account, grant_functional_grant,
  revoke_functional_grant, revoke_all_sessions, revoke_session, set_account_status,
  set_domain_status, update_account, security_reset_auth_access,
}
use kovcheg.Auth.Service.Properties.Revocations.{live_sessions, revoke_session-live_sessions}
use kovcheg.Auth.Service.Properties.Errors.{administrative_errors_mapped}
use kovcheg.Auth.Service.Properties.Challenges.{
  request_discloses_nothing, failed_delivery_shuts, verify-opened,
}
use kovcheg.Auth.Tests.Data.{office_state, office_state-IsWellFormed, bob_challenge, session_input}

abbrev rule : RateLimitRule
rule = record { limit = 5; window_ms = 60 }

abbrev pub policy : AuthPolicy
policy = record {
  challenge = record {
    code_digits = 6;
    max_attempts = 2;
    response_minimum_ms = 250;
    resend_cooldown_ms = 10;
    ttl_ms = 600;
  };
  passkey = record { challenge_ttl_ms = 300; timeout_ms = 60 };
  rate_limits = record {
    challenge_by_email = rule;
    challenge_by_fingerprint = rule;
    challenge_by_network = rule;
    verify_by_challenge = rule;
    verify_by_network = rule;
    passkey_authentication_begin_by_fingerprint = rule;
    passkey_authentication_begin_by_network = rule;
    passkey_authentication_finish_by_fingerprint = rule;
    passkey_authentication_finish_by_network = rule;
    passkey_registration_begin_by_session = rule;
    passkey_registration_finish_by_session = rule;
  };
  session = record { absolute_lifetime_ms = 1000; idle_lifetime_ms = 100 };
}

abbrev service : Dependencies Attempts
service = record {
  policy = policy;
  consume = consume;
  challenge_code_verifier = λ challenge_id code. codes "v2";
  rate_limit_key = λ scope value. scope ++ value;
  session_token_verifier = λ token. codes "#" ++ token;
  to_lower_case = λ text. text;
}

abbrev world : Repository → World Attempts
world r = record { repository = r; limiter = []; deliveries = [] }

abbrev request : ChallengeRequestInput
request = record {
  email = codes " b@x";
  fingerprint = codes "device";
  network_address = codes "10.0.0.1";
}

abbrev challenge_draws : ChallengeDraws
challenge_draws = record {
  now = 30;
  limits_now = 30;
  challenge_id = codes "c3";
  code = codes "123456";
}

-- Bob has an account in the one world, and nobody has one in the other.
request_discloses_nothing_example :
    result (request_email_challenge service request challenge_draws (world office_state))
    ≡ result (request_email_challenge service request challenge_draws (world empty_repository))
request_discloses_nothing_example =
    request_discloses_nothing service request challenge_draws (world office_state)
      (world empty_repository) refl

abbrev delivery : Delivery
delivery = record {
  message = record {
    challenge_id = codes "c2";
    code = codes "123456";
    expires_at = 600;
    recipient = codes "b@x";
  };
  issued_at = 4;
}

abbrev later_calls : List Call
later_calls = Call.authenticate (codes "t2") 6 ∷ []

failed_delivery_shuts_example :
    let r =
      run (finish_delivery service false delivery (world office_state)).repository later_calls in
    consume_challenge_and_create_session
      (codes "v2")
      (codes "c2")
      9
      (session_input (codes "s3") (codes "t3") 9)
      r
    ≡ (ok invalid, r)
unfolding get text_discrete
failed_delivery_shuts_example =
    failed_delivery_shuts service (world office_state) delivery later_calls bob_challenge
      (codes "v2") 9 (session_input (codes "s3") (codes "t3") 9) refl (tt, tt)

abbrev verification : ChallengeVerificationInput
verification = record {
  challenge_id = codes "c2";
  code = codes "123456";
  network_address = codes "10.0.0.1";
}

abbrev session_draws : SessionDraws
session_draws = record {
  now = 9;
  limits_now = 9;
  session_token = codes "token";
  session_id = codes "s3";
}

abbrev opened_session : AuthenticatedSession
opened_session = record {
  absolute_expires_at = 1009;
  idle_expires_at = 109;
  session_id = codes "s3";
  session_token = codes "token";
  user_id = codes "bob";
}

verify-opened_example :
    (s : StoredSession) × (a : StoredAccount) × IsInForce
      (after
        (verify_email_challenge service verification session_draws (world office_state))).repository
      (codes "#token")
      9
      s
      a
    × (s.idle_expires_at ≡ 109)
    × (s.absolute_expires_at ≡ 1009)
    × (s.session_id ≡ codes "s3")
    × (a.user_id ≡ codes "bob")
unfolding verify_email_challenge validate_policy are_positive_rules is_positive_integer
    normalize_rate_limit_dimension candidate_code consume_rate_limits consume in_window
    consume_challenge_and_create_session get set safe_verifier_equal utf8 text_discrete
    session_principal trim trim_start is_whitespace
verify-opened_example =
    verify-opened service (world office_state) verification session_draws opened_session 5000 refl
      office_state-IsWellFormed refl

abbrev account_input : AccountInput
account_input = record { display_name = codes "Bob"; email = codes "b@x" }

abbrev mutation : AuthorizationMutationInput
mutation = record { reason = codes "review"; version = 1 }

-- The service with verifiers that are the tokens, so that the administrator's token is known.
abbrev open_service : Dependencies Attempts
open_service = record service { session_token_verifier = λ token. token }

administrative_errors_mapped_example :
    let w = world office_state in
    let out = repository conflict in
    (result (create_account open_service (codes "t1") 6 account_input (codes "bob") w) ≢ err out)
    × (result (grant_functional_grant open_service (codes "t1") 6 (codes "bob") editor mutation w)
        ≢ err out)
    × (result (revoke_functional_grant open_service (codes "t1") 6 (codes "bob") editor mutation w)
        ≢ err out)
    × (result (revoke_all_sessions open_service (codes "t1") 6 (codes "bob") w) ≢ err out)
    × (result (revoke_session open_service (codes "t1") 6 (codes "bob") (codes "s2") w) ≢ err out)
    × (result (set_account_status open_service (codes "t1") 6 (codes "bob") deactivated w)
        ≢ err out)
    × (result (set_domain_status open_service (codes "t1") 6 (codes "bob") disciple mutation w)
        ≢ err out)
    × (result (update_account open_service (codes "t1") 6 (codes "bob") account_input w) ≢ err out)
    × (result (security_reset_auth_access open_service (codes "t1") 6 (codes "bob") w) ≢ err out)
administrative_errors_mapped_example =
    administrative_errors_mapped open_service (codes "t1") 6 (codes "bob") (codes "s2")
      account_input mutation editor deactivated disciple (world office_state) conflict

-- The timer waits for 239 of the 239.5 milliseconds.
truncated : timeout_ms 1000 (neutral_delay 1000 250 260500) ≡ 239
unfolding timeout_ms neutral_delay
truncated = refl

-- Bob's session is found: the ids stand where the repository expects them.
session_revoked :
    result
      (revoke_session open_service (codes "t1") 6 (codes "bob") (codes "s2") (world office_state))
    ≡ ok true
unfolding revoke_session revoke_session_as_administrator require_administrator require_account set
    get some_value text_discrete includes_grant FunctionalGrant-discrete administrative_answer
session_revoked = refl

revoke_session-live_sessions_example :
    (true ≡ ltb 0 (live_sessions (codes "bob") (codes "s2") office_state))
    × (live_sessions (codes "bob") (codes "s2") office_state
        ≡ 1
          + live_sessions
              (codes "bob")
              (codes "s2")
              (after (
                revoke_session open_service
                  (codes "t1")
                  6
                  (codes "bob")
                  (codes "s2")
                  (world office_state))).repository)
revoke_session-live_sessions_example =
    revoke_session-live_sessions open_service (codes "t1") 6 (codes "bob") (codes "s2")
      (world office_state) true session_revoked
