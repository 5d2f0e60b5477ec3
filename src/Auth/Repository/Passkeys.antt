-- ===== src/Auth/Repository/Passkeys.antt =====
-- The passkey methods of `LocalAuthRepository`.
use kovcheg.Base.{
  ℕ, max, Bool, false, ◌&&◌, ◌||◌, not, List, Option, none, some, if◌then◌else◌, is_some, ltb, leb,
  ◌==◌, ok, err,
}
use kovcheg.Text.{Text}
use kovcheg.Text.Bytes.{base64url}
use kovcheg.Dict.{get, has, set, some_value}
use kovcheg.Auth.Types.{
  SessionRecordInput, AuthPasskeyTransport, AuthPasskeySignCountStatus, advanced, not_advanced,
  not_supported, regressed, AuthPasskeyCredential, conflict, authorization,
}
use kovcheg.Auth.Repository.State.{
  StoredPasskey, Repository, Method, is_active, passkey_by_credential_key,
}
use kovcheg.Auth.Repository.Administration.{put_session}
use kovcheg.Auth.Repository.Sessions.{opened, has_session_id}

-- The input of `completePasskeyLogin`, less the ids that the class ignores.
pub record PasskeyLogin : Type 0 where
  pub credential_id : List ℕ
  pub expected_sign_count : ℕ
  pub now : ℕ
  pub observed_backup_eligible : Bool
  pub observed_backup_state : Bool
  pub observed_sign_count : ℕ
  pub session : SessionRecordInput
  pub user_verified : Bool

-- `reused` is always `false`.
pub record CompletePasskeyLoginResult : Type 0 where
  pub account_id : Text
  pub session_id : Text
  pub sign_count_status : AuthPasskeySignCountStatus

-- The input of `registerPasskey`, less the correlation id that the class ignores.
pub record PasskeyRegistration : Type 0 where
  pub actor_session_verifier : Text
  pub aaguid : Text
  pub attestation_format : Text
  pub backup_eligible : Bool
  pub backup_state : Bool
  pub credential_id : List ℕ
  pub now : ℕ
  pub passkey_id : Text
  pub public_key : List ℕ
  pub sign_count : ℕ
  pub transports : List AuthPasskeyTransport
  pub user_verified : Bool

unfoldable pub sign_count_status : ℕ → ℕ → AuthPasskeySignCountStatus
sign_count_status stored observed =
    if (stored == 0) && (observed == 0)
    then not_supported
    else if ltb stored observed
    then advanced
    else if observed == stored
    then not_advanced
    else regressed

-- The passkey object after a login.
abbrev pub used_passkey : PasskeyLogin → StoredPasskey → StoredPasskey
used_passkey login passkey = record passkey {
  sign_count = max passkey.sign_count login.observed_sign_count;
  last_backup_eligible = login.observed_backup_eligible;
  last_backup_state = login.observed_backup_state;
  last_used_at = some login.now;
}

-- `passkey === undefined ? undefined : this.accountsById.get(passkey.accountId)`, as a test that the
-- account is there and active
abbrev pub has_active_account : Text → Repository → Bool
has_active_account account_id r = elim (get account_id r.accounts_by_id) [
  | none ↦ false
  | some account ↦ is_active account.status
]

unfoldable pub complete_passkey_login : PasskeyLogin → Method (Option CompletePasskeyLoginResult)
complete_passkey_login login r =
    elim (passkey_by_credential_key (base64url login.credential_id) r) [
      | none ↦ (ok none, r)
      | some passkey ↦
          if is_some passkey.revoked_at
            || not (has_active_account passkey.account_id r)
            || not login.user_verified
          then (ok none, r)
          else if not (passkey.sign_count == login.expected_sign_count)
          then (err conflict, r)
          else if has login.session.token_verifier r.sessions_by_verifier
              || some_value (has_session_id login.session.session_id) r.sessions_by_verifier
          then (err conflict, r)
          else (
            ok (
                some (record {
                  account_id = passkey.account_id;
                  session_id = login.session.session_id;
                  sign_count_status =
                      sign_count_status passkey.sign_count login.observed_sign_count;
                })),
            put_session login.session.token_verifier
                (opened login.session passkey.account_id login.now none)
                (record r {
                  passkeys_by_id =
                      set passkey.passkey_id (used_passkey login passkey) r.passkeys_by_id;
                }),
          )
    ]

unfoldable pub read_passkey_by_credential_id : List ℕ → ℕ → Method (Option AuthPasskeyCredential)
read_passkey_by_credential_id credential_id now r =
    elim (passkey_by_credential_key (base64url credential_id) r) [
      | none ↦ (ok none, r)
      | some passkey ↦
          if is_some passkey.revoked_at
            || ltb now passkey.created_at
            || not (has_active_account passkey.account_id r)
          then (ok none, r)
          else (
            ok (
                some (record {
                  aaguid = passkey.aaguid;
                  account_id = passkey.account_id;
                  attestation_format = passkey.attestation_format;
                  credential_id = passkey.credential_id;
                  last_backup_eligible = passkey.last_backup_eligible;
                  last_backup_state = passkey.last_backup_state;
                  passkey_id = passkey.passkey_id;
                  public_key = passkey.public_key;
                  registered_backup_eligible = passkey.registered_backup_eligible;
                  registered_backup_state = passkey.registered_backup_state;
                  sign_count = passkey.sign_count;
                  transports = passkey.transports;
                })),
            r,
          )
    ]

abbrev pub registered : PasskeyRegistration → Text → StoredPasskey
registered input account_id = record {
  aaguid = input.aaguid;
  account_id = account_id;
  attestation_format = input.attestation_format;
  credential_id = input.credential_id;
  created_at = input.now;
  last_backup_eligible = input.backup_eligible;
  last_backup_state = input.backup_state;
  last_used_at = none;
  passkey_id = input.passkey_id;
  public_key = input.public_key;
  registered_backup_eligible = input.backup_eligible;
  registered_backup_state = input.backup_state;
  revoked_at = none;
  sign_count = input.sign_count;
  transports = input.transports;
}

-- The answer is the account's id and the passkey's.
unfoldable pub register_passkey : PasskeyRegistration → Method (Text × Text)
register_passkey input r = elim (get input.actor_session_verifier r.sessions_by_verifier) [
  | none ↦ (err authorization, r)
  | some session ↦
      if is_some session.revoked_at
        || ltb input.now session.issued_at
        || leb session.idle_expires_at input.now
        || leb session.absolute_expires_at input.now
      then (err authorization, r)
      else elim (get session.account_id r.accounts_by_id) [
        | none ↦ (err authorization, r)
        | some account ↦
            if not (is_active account.status) || not input.user_verified
            then (err authorization, r)
            else if has (base64url input.credential_id) r.passkeys_by_credential_id
                || has input.passkey_id r.passkeys_by_id
            then (err conflict, r)
            else (
              ok (account.user_id, input.passkey_id),
              record r {
                passkeys_by_credential_id =
                    set (base64url input.credential_id) input.passkey_id
                      r.passkeys_by_credential_id;
                passkeys_by_id =
                    set input.passkey_id (registered input account.user_id) r.passkeys_by_id;
              },
            )
      ]
]
