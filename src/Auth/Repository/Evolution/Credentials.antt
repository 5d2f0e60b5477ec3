-- ===== src/Auth/Repository/Evolution/Credentials.antt =====
-- A credential stays registered for the passkey that it was registered for.
use kovcheg.Base.{◌≡◌, some, arith, List}
use kovcheg.Text.{Text}
use kovcheg.Text.Bytes.{base64url}
use kovcheg.Dict.{get, get-set}
use kovcheg.Auth.Repository.State.{Repository}
use kovcheg.Auth.Repository.Calls.{Call, run}
use kovcheg.Auth.Repository.Closure.{IsClosed, Any, AllIssueAny, run-closed}

module _ (key id : Text) where
  abbrev IsListed : Repository → Type 0
  IsListed r = get key r.passkeys_by_credential_id ≡ some id

  IsListed-closed : IsClosed Any IsListed
  IsListed-closed = record {
    revoke_session = λ r k now s h e live. h;
    touch_session = λ r k now s h e live. h;
    revoke_all = λ r id now h. h;
    revoke_one = λ r id session_id now h. h;
    open_oidc = λ r id a input source h e fresh free. h;
    open_email = λ r id now c a input h e e' free. h;
    open_passkey = λ r login p a h found live count e free. h;
    issue = λ r challenge email a other h found on. h;
    fail_challenge = λ r id now c h e. h;
    drop_challenge = λ r id now c h e unused. h;
    add_passkey = λ r input id a h e free free'. ground (
      arith,
      get-set key (base64url input.credential_id) input.passkey_id r.passkeys_by_credential_id,
    );
    bootstrap = λ r input h e e' e'' first. h;
    create_account = λ r name email id h e e'. h;
    activate = λ r id a h e. h;
    deactivate = λ r id a now h e. h;
    reset_access = λ r id now h. h;
    set_domain = λ r id a status h e. h;
    rename = λ r id a name email h e free. h;
    grant = λ r id a g h e. h;
    ungrant = λ r id a g h e kept. h;
  }

  pub run-IsListed :
      (r : Repository) (cs : List Call)
      → get key r.passkeys_by_credential_id ≡ some id
      → get key (run r cs).passkeys_by_credential_id ≡ some id
  run-IsListed r cs h = run-closed IsListed-closed r cs (AllIssueAny cs) h
