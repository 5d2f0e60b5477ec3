-- ===== src/Auth/Repository/Administration.antt =====
-- The account methods of `LocalAuthRepository`, and the two guards that the administrative methods
-- share. Arguments that the class ignores (`correlationId`, `reason`, `version`) are left out.
use kovcheg.Base.{
  ℕ, ◌+◌, min, Bool, true, false, ◌&&◌, ◌||◌, not, [], ◌∷◌, ◌++◌, Option, none, some, if◌then◌else◌,
  is_some, ltb, leb, ok, err, keep, ◌>>=◌, ◌>>◌, throw_if,
}
use kovcheg.Text.{Text, text_eq}
use kovcheg.Dict.{Dict, get, has, set, delete, update_values, count_values}
use kovcheg.Auth.Types.{
  DomainStatus, incubator_participant, FunctionalGrant, platform_administrator, grant_eq,
  AccountStatus, active, deactivated, AccountRecord, AuthSecurityResetResult,
  BootstrapAdministratorInput, conflict, authorization, not_found,
}
use kovcheg.Auth.Repository.State.{
  StoredAccount, StoredChallenge, StoredSession, StoredPasskey, Repository, Method, is_active,
  includes_grant, account_by_email, clone_account,
}

-- `session.lastSeenAt = now; session.idleExpiresAt = Math.min(…)`
abbrev pub touched : ℕ → StoredSession → StoredSession
touched now session = record session {
  last_seen_at = now;
  idle_expires_at = min session.absolute_expires_at (now + session.idle_lifetime_ms);
}

abbrev pub put_session : Text → StoredSession → Repository → Repository
put_session verifier session r = record r {
  sessions_by_verifier = set verifier session r.sessions_by_verifier;
}

unfoldable pub require_administrator : Text → ℕ → Method StoredAccount
require_administrator actor_session_verifier now r =
    elim (get actor_session_verifier r.sessions_by_verifier) [
      | none ↦ (err authorization, r)
      | some session ↦
          if is_some session.revoked_at
            || ltb now session.issued_at
            || leb session.idle_expires_at now
            || leb session.absolute_expires_at now
          then (err authorization, r)
          else elim (get session.account_id r.accounts_by_id) [
            | none ↦ (err authorization, r)
            | some account ↦
                if not (is_active account.status)
                  || not (includes_grant platform_administrator account.functional_grants)
                then (err authorization, r)
                else (ok account, put_session actor_session_verifier (touched now session) r)
          ]
    ]

unfoldable pub require_account : Text → Method StoredAccount
require_account user_id r = elim (get user_id r.accounts_by_id) [
  | none ↦ (err not_found, r)
  | some account ↦ (ok account, r)
]

-- The loops that revoke what is live and belongs to an account.
abbrev pub is_live_session_of : Text → StoredSession → Bool
is_live_session_of account_id session =
    text_eq session.account_id account_id && not (is_some session.revoked_at)

abbrev pub is_live_challenge_of : Text → StoredChallenge → Bool
is_live_challenge_of account_id challenge =
    text_eq challenge.account_id account_id
    && not (is_some challenge.invalidated_at)
    && not (is_some challenge.used_at)

abbrev pub is_live_passkey_of : Text → StoredPasskey → Bool
is_live_passkey_of account_id passkey =
    text_eq passkey.account_id account_id && not (is_some passkey.revoked_at)

unfoldable pub revoke_session_if : (StoredSession → Bool) → ℕ → StoredSession → StoredSession
revoke_session_if p now session =
    if p session then record session { revoked_at = some now } else session

unfoldable pub invalidate_challenge_if :
    (StoredChallenge → Bool) → ℕ → StoredChallenge → StoredChallenge
invalidate_challenge_if p now challenge =
    if p challenge then record challenge { invalidated_at = some now } else challenge

unfoldable pub revoke_passkey_if : (StoredPasskey → Bool) → ℕ → StoredPasskey → StoredPasskey
revoke_passkey_if p now passkey =
    if p passkey then record passkey { revoked_at = some now } else passkey

-- All three loops, as deactivation and the security reset run them.
abbrev pub revoke_access : Text → ℕ → Repository → Repository
revoke_access account_id now r = record r {
  challenges =
      update_values (invalidate_challenge_if (is_live_challenge_of account_id) now) r.challenges;
  passkeys_by_id =
      update_values (revoke_passkey_if (is_live_passkey_of account_id) now) r.passkeys_by_id;
  sessions_by_verifier =
      update_values (revoke_session_if (is_live_session_of account_id) now) r.sessions_by_verifier;
}

unfoldable pub admin_security_reset_auth_access : Text → Text → ℕ → Method AuthSecurityResetResult
admin_security_reset_auth_access actor_session_verifier account_id now = do
  require_administrator actor_session_verifier now
  require_account account_id
  λ r. (
    ok (record {
      invalidated_challenge_count = count_values (is_live_challenge_of account_id) r.challenges;
      revoked_application_session_count =
          count_values (is_live_session_of account_id) r.sessions_by_verifier;
      revoked_passkey_count = count_values (is_live_passkey_of account_id) r.passkeys_by_id;
    }),
    revoke_access account_id now r,
  )

-- `map.size > 0`
abbrev pub is_nonempty : {V : Type 0} → Dict V → Bool
is_nonempty [] = false
is_nonempty (x ∷ d) = true

-- The account objects that the class creates.
abbrev pub bootstrapped : BootstrapAdministratorInput → StoredAccount
bootstrapped input = record {
  display_name = input.display_name;
  domain_status = incubator_participant;
  email = input.email;
  functional_grants = platform_administrator ∷ [];
  is_server_owner = true;
  status = active;
  user_id = input.user_id;
}

abbrev pub new_account : Text → Text → Text → StoredAccount
new_account display_name email user_id = record {
  display_name = display_name;
  domain_status = incubator_participant;
  email = email;
  functional_grants = [];
  is_server_owner = false;
  status = active;
  user_id = user_id;
}

-- `if (!account.functionalGrants.includes(grant)) account.functionalGrants.push(grant)`
unfoldable pub with_grant : FunctionalGrant → StoredAccount → StoredAccount
with_grant grant account =
    if includes_grant grant account.functional_grants
    then account
    else record account { functional_grants = account.functional_grants ++ grant ∷ [] }

-- `account.functionalGrants.filter((grant) => grant !== input.grant)`
unfoldable pub without_grant : FunctionalGrant → StoredAccount → StoredAccount
without_grant grant account = record account {
  functional_grants = keep (λ g. not (grant_eq g grant)) account.functional_grants;
}

-- The object under `userId` after an assignment to its fields.
abbrev pub store_account : Text → StoredAccount → Method AccountRecord
store_account user_id account r =
    (ok (clone_account account), record r { accounts_by_id = set user_id account r.accounts_by_id })

abbrev pub with_status : Text → AccountStatus → StoredAccount → Repository → Repository
with_status user_id status account r = record r {
  accounts_by_id = set user_id (record account { status = status }) r.accounts_by_id;
}

-- The answer to a bootstrap: the account, and `created`.
unfoldable pub bootstrap_administrator : BootstrapAdministratorInput → Method (AccountRecord × Bool)
bootstrap_administrator input r = elim (get input.bootstrap_id r.bootstrap_accounts) [
  | some bootstrapped_user_id ↦ elim (get bootstrapped_user_id r.accounts_by_id) [
    | none ↦ (err conflict, r)
    | some account ↦
        if not (text_eq account.user_id input.user_id) || not (text_eq account.email input.email)
        then (err conflict, r)
        else (ok (clone_account account, false), r)
  ]
  | none ↦
      if has input.user_id r.accounts_by_id || has input.email r.accounts_by_email
      then (err conflict, r)
      else if is_nonempty r.accounts_by_id && is_nonempty r.bootstrap_accounts
      then (err conflict, r)
      else (
        ok (clone_account (bootstrapped input), true),
        record r {
          accounts_by_email = set input.email input.user_id r.accounts_by_email;
          accounts_by_id = set input.user_id (bootstrapped input) r.accounts_by_id;
          bootstrap_accounts = set input.bootstrap_id input.user_id r.bootstrap_accounts;
        },
      )
]

unfoldable pub create_account_as_administrator :
    Text → ℕ → Text → Text → Text → Method AccountRecord
create_account_as_administrator actor_session_verifier now display_name email user_id = do
  require_administrator actor_session_verifier now
  λ r.
      if has user_id r.accounts_by_id || has email r.accounts_by_email then (err conflict, r) else (
        ok (clone_account (new_account display_name email user_id)),
        record r {
          accounts_by_email = set email user_id r.accounts_by_email;
          accounts_by_id = set user_id (new_account display_name email user_id) r.accounts_by_id;
        },
      )

unfoldable pub find_account_by_id : Text → Method (Option AccountRecord)
find_account_by_id user_id r = elim (get user_id r.accounts_by_id) [
  | none ↦ (ok none, r)
  | some account ↦ (ok (some (clone_account account)), r)
]

unfoldable pub grant_functional_grant_as_administrator :
    Text → ℕ → Text → FunctionalGrant → Method AccountRecord
grant_functional_grant_as_administrator actor_session_verifier now user_id grant = do
  actor ← require_administrator actor_session_verifier now
  throw_if (grant_eq grant platform_administrator && not actor.is_server_owner) authorization
  account ← require_account user_id
  store_account user_id (with_grant grant account)

unfoldable pub revoke_functional_grant_as_administrator :
    Text → ℕ → Text → FunctionalGrant → Method AccountRecord
revoke_functional_grant_as_administrator actor_session_verifier now user_id grant = do
  actor ← require_administrator actor_session_verifier now
  throw_if (grant_eq grant platform_administrator && not actor.is_server_owner) authorization
  account ← require_account user_id
  throw_if (grant_eq grant platform_administrator && account.is_server_owner) conflict
  store_account user_id (without_grant grant account)

unfoldable pub set_account_status_as_administrator :
    Text → ℕ → Text → AccountStatus → Method AccountRecord
set_account_status_as_administrator actor_session_verifier now user_id status = do
  require_administrator actor_session_verifier now
  account ← require_account user_id
  λ r. (
    ok (clone_account (record account { status = status })),
    elim status [
      | active ↦ with_status user_id active account r
      | deactivated ↦ revoke_access user_id now (with_status user_id deactivated account r)
    ],
  )

unfoldable pub set_domain_status_as_administrator :
    Text → ℕ → Text → DomainStatus → Method AccountRecord
set_domain_status_as_administrator actor_session_verifier now user_id domain_status = do
  require_administrator actor_session_verifier now
  account ← require_account user_id
  store_account user_id (record account { domain_status = domain_status })

-- The owner of an address is another account.
abbrev pub is_taken : Text → StoredAccount → Repository → Bool
is_taken email account r = elim (account_by_email email r) [
  | none ↦ false
  | some owner ↦ not (text_eq owner.user_id account.user_id)
]

unfoldable pub update_account_as_administrator :
    Text → ℕ → Text → Text → Text → Method AccountRecord
update_account_as_administrator actor_session_verifier now user_id display_name email = do
  require_administrator actor_session_verifier now
  account ← require_account user_id
  λ r. if is_taken email account r then (err conflict, r) else (
    ok (clone_account (record account { email = email; display_name = display_name })),
    record r {
      accounts_by_email = set email account.user_id (delete account.email r.accounts_by_email);
      accounts_by_id =
          set user_id (record account { email = email; display_name = display_name })
            r.accounts_by_id;
    },
  )
