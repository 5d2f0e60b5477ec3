-- ===== src/Auth/Tests/PasskeyService.antt =====
-- Bob logs in with his passkey. The store of ceremonies is a `Map`, the keyed hashes are stood for by
-- concatenation, and every assertion is verified.
use kovcheg.Base.{
  ℕ, List, ◌≡◌, ◌≢◌, refl, true, Option, none, some, [], ◌∷◌, ◌++◌, ok, err, result, after, arith,
  if◌then◌else◌,
}
use kovcheg.Text.{codes, text_discrete}
use kovcheg.Text.Bytes.{base64url, base64url_bytes, utf8}
use kovcheg.Text.Whitespace.{trim, is_whitespace}
use kovcheg.Text.Splitting.{is_base64url}
use kovcheg.Dict.{Dict, get, set, has, delete, get-set, get-delete, some_value}
use kovcheg.Auth.Types.{AuthPasskeyCredential, RepositoryError, advanced}
use kovcheg.Auth.Service.Policy.{repository}
use kovcheg.Auth.Repository.State.{StoredAccount, StoredPasskey}
use kovcheg.Auth.Repository.Sessions.{opened}
use kovcheg.Auth.Repository.Passkeys.{
  complete_passkey_login, read_passkey_by_credential_id, register_passkey, sign_count_status,
}
use kovcheg.Auth.Repository.Calls.{step, run}
use kovcheg.Auth.Repository.Properties.Validation.{IsInForce}
use kovcheg.Auth.RateLimiter.{Attempts, consume, in_window}
use kovcheg.Auth.Tests.Service.{policy}
use kovcheg.Auth.Tests.Passkeys.{keyed_office, keyed_office-IsWellFormed}
use kovcheg.Auth.PasskeyService.CredentialIds.{credential_id-base64url}
use kovcheg.Auth.PasskeyService.Errors.Methods.{passkey_methods-hide_repository_errors}
use kovcheg.Auth.PasskeyService.Logins.{IsStoredCredential}
use kovcheg.Auth.PasskeyService.World.{
  PasskeyCeremonyState, PasskeyCeremonyStore, TakePasskeyCeremonyResult, AuthenticationCeremony,
  authenticating, found, missing, stored, put_unavailable, PasskeyRequestContext,
  PasskeyDependencies, PasskeyWorld, PasskeyAuthenticationVerification,
}
use kovcheg.Auth.PasskeyService.Registration.{
  RegistrationDraws, begin_registration, finish_registration,
}
use kovcheg.Auth.PasskeyService.Inputs.{
  safe_equal, credential_id, safe_credential_response, normalized_dimension, client_context_key,
  authentication_limits,
}
use kovcheg.Auth.PasskeyService.Steps.{
  consume_passkey_rate_limits, take_authentication, put_ceremony, passkey_answer,
}
use kovcheg.Auth.PasskeyService.Registration.{PasskeyFinishInput}
use kovcheg.Auth.PasskeyService.Authentication.{
  LoginDraws, PasskeyAuthenticationResult, begin_authentication, verify_assertion, open_session,
  finish_authentication, login_session,
}
use kovcheg.Auth.PasskeyService.Ceremonies.{
  IsCeremonyStore, PasskeyCall, AllBeginOther, run_passkeys,
}
use kovcheg.Auth.PasskeyService.Properties.{ceremony_single_use, finish_authentication-IsInForce}

abbrev Ceremonies : Type 0
Ceremonies = Dict PasskeyCeremonyState

abbrev taken_from : Option PasskeyCeremonyState → TakePasskeyCeremonyResult
taken_from none = missing
taken_from (some s) = found s

abbrev store : PasskeyCeremonyStore Ceremonies
store = record {
  put = λ id s ttl c. if has id c then (put_unavailable, c) else (stored, set id s c);
  take = λ id c. (taken_from (get id c), delete id c);
}

taken_from-found :
    (o : Option PasskeyCeremonyState) (s : PasskeyCeremonyState)
    → taken_from o ≡ found s
    → o ≡ some s
taken_from-found none s h = absurd (ground arith)
taken_from-found (some t) s h = ground arith

store-IsCeremonyStore : IsCeremonyStore store get
store-IsCeremonyStore = record {
  take-found = λ id c s h. taken_from-found (get id c) s h;
  take-gone = λ id c s h. ground (arith, get-delete id id c);
  take-none = λ id other c h. ground (arith, get-delete id other c);
  put-other = λ id other s ttl c fresh h. ground (arith, get-set id other s c);
}

abbrev observed : PasskeyAuthenticationVerification
observed = record {
  backup_eligible = true;
  backup_state = true;
  observed_sign_count = 5;
  user_verified = true;
}

abbrev passkeys : PasskeyDependencies Attempts Ceremonies
passkeys = record {
  ceremony_store = store;
  configuration = record { origins = []; rp_id = codes "kovcheg"; rp_name = codes "Kovcheg" };
  consume = consume;
  policy = policy;
  rate_limit_key = λ scope value. scope ++ value;
  session_token_verifier = λ token. codes "#" ++ token;
  webauthn = record {
    generate_registration_options = λ input seed. record { challenge = codes "r1"; json = [] };
    generate_authentication_options = λ input seed. record { challenge = codes "a1"; json = [] };
    verify_registration = λ expected. none;
    verify_authentication = λ credential expected. some observed;
  };
}

abbrev device : PasskeyRequestContext
device = record { fingerprint = codes "device"; network_address = codes "10.0.0.1" }

abbrev ceremony : AuthenticationCeremony
ceremony = record {
  challenge = codes "a1";
  client_context_key = codes "passkey-client-context10.0.0.1" ++ (0 ∷ codes "device");
}

abbrev waiting : PasskeyWorld Attempts Ceremonies
waiting = record {
  repository = keyed_office;
  limiter = [];
  ceremonies = (codes "k1", authenticating ceremony) ∷ [];
}

begun :
    (after (
      begin_authentication passkeys device 20
        (codes "k1")
        0
        (record { repository = keyed_office; limiter = []; ceremonies = [] }))).ceremonies
    ≡ waiting.ceremonies
unfolding begin_authentication consume_passkey_rate_limits authentication_limits client_context_key
    normalized_dimension put_ceremony get set text_discrete consume in_window trim is_whitespace
    is_base64url
begun = refl

abbrev assertion : PasskeyFinishInput
assertion = record {
  ceremony_id = codes "k1";
  response = record { is_object = true; json = some (codes "response"); id = codes "AQID" };
}

abbrev draws : LoginDraws
draws = record { now = 20; limits_now = 20; session_token = codes "t8"; session_id = codes "s8" }

abbrev answer : PasskeyAuthenticationResult
answer = record {
  absolute_expires_at = 1020;
  idle_expires_at = 120;
  session_id = codes "s8";
  session_token = codes "t8";
  sign_count_status = advanced;
  user_id = codes "bob";
}

finished : result (finish_authentication passkeys assertion device draws waiting) ≡ ok answer
unfolding finish_authentication consume_passkey_rate_limits authentication_limits client_context_key
    normalized_dimension take_authentication get set delete text_discrete consume in_window trim
    is_whitespace is_base64url safe_equal safe_credential_response credential_id base64url_bytes
    utf8 base64url verify_assertion open_session passkey_answer complete_passkey_login
    read_passkey_by_credential_id register_passkey sign_count_status some_value run step
finished = refl

ceremony_single_use_example :
    result (
      finish_authentication passkeys assertion device
        (record draws { now = 30 })
        (run_passkeys passkeys
          (after (finish_authentication passkeys assertion device draws waiting))
          (PasskeyCall.begins_authentication device 25 (codes "k2") 0 ∷ [])))
    ≢ ok answer
unfolding AllBeginOther
ceremony_single_use_example =
    ceremony_single_use passkeys get waiting assertion assertion device device draws
      (record draws { now = 30 }) (PasskeyCall.begins_authentication device 25 (codes "k2") 0 ∷ [])
      answer answer store-IsCeremonyStore finished (ground arith, tt) refl

finish_authentication-IsInForce_example :
    (a : StoredAccount) × (c : AuthenticationCeremony) × (bytes : List ℕ)
    × (credential : AuthPasskeyCredential) × (p : StoredPasskey)
    × (verified : PasskeyAuthenticationVerification) × (credential_id (codes "AQID") ≡ some bytes)
    × IsStoredCredential keyed_office bytes credential p
    × IsInForce
        (after (finish_authentication passkeys assertion device draws waiting)).repository
        (codes "#t8")
        20
        (opened (login_session passkeys draws) (codes "bob") 20 none)
        a
    × ((opened (login_session passkeys draws) (codes "bob") 20 none).idle_expires_at
        ≡ answer.idle_expires_at)
    × ((opened (login_session passkeys draws) (codes "bob") 20 none).absolute_expires_at
        ≡ answer.absolute_expires_at)
    × (credential.account_id ≡ codes "bob")
    × (taken_from (get (codes "k1") waiting.ceremonies) ≡ found (authenticating c))
    × (some observed ≡ some verified)
    × (verified.user_verified ≡ true)
finish_authentication-IsInForce_example =
    finish_authentication-IsInForce passkeys waiting assertion device draws answer
      keyed_office-IsWellFormed (omega arith) (omega arith) finished

credential_id-base64url_example : credential_id (base64url (1 ∷ 2 ∷ 3 ∷ [])) ≡ some (1 ∷ 2 ∷ 3 ∷ [])
credential_id-base64url_example =
    credential_id-base64url (1 ∷ 2 ∷ 3 ∷ []) refl (omega arith) (omega arith)

abbrev registration : RegistrationDraws
registration = record { now = 20; limits_now = 20; uuid = codes "k3"; seed = 0 }

passkey_methods-hide_repository_errors_example :
    result (begin_registration passkeys (codes "t8") device registration waiting)
      ≢ err (repository RepositoryError.conflict)
    × result (finish_registration passkeys (codes "t8") assertion device registration waiting)
      ≢ err (repository RepositoryError.conflict)
    × result (begin_authentication passkeys device 20 (codes "k2") 0 waiting)
      ≢ err (repository RepositoryError.conflict)
    × result (finish_authentication passkeys assertion device draws waiting)
      ≢ err (repository RepositoryError.conflict)
passkey_methods-hide_repository_errors_example =
    passkey_methods-hide_repository_errors passkeys (codes "t8") device assertion registration draws
      20 (codes "k2") 0 waiting RepositoryError.conflict
