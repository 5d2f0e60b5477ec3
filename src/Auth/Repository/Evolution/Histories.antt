-- ===== src/Auth/Repository/Evolution/Histories.antt =====
-- Over any history the stored sessions, passkeys and accounts move along the relations only.
use kovcheg.Base.{◌≡◌, refl, some, arith, List, Option-cases, inl, inr}
use kovcheg.Text.{Text}
use kovcheg.Text.Bytes.{base64url}
use kovcheg.Dict.{get}
use kovcheg.Dict.Evolution.{Evolves-update_first}
use kovcheg.Auth.Types.{deactivated}
use kovcheg.Auth.Repository.State.{StoredPasskey, Repository, passkey_by_credential_key}
use kovcheg.Auth.Repository.Administration.{with_status, new_account, bootstrapped}
use kovcheg.Auth.Repository.Sessions.{is_live_session_with}
use kovcheg.Auth.Repository.Passkeys.{PasskeyLogin, used_passkey}
use kovcheg.Auth.Repository.Calls.{Call, run}
use kovcheg.Auth.Repository.Closure.{IsClosed, Any, AllIssueAny, run-closed}
use kovcheg.Auth.Repository.Invariants.WellFormed.{IsWellFormed, IsWellFormed-closed}
use kovcheg.Auth.Repository.Evolution.Relations.{
  SessionLater, SessionLater-refl, PasskeyLater, Evolution, Evolution-refl, Evolution-trans,
}
use kovcheg.Auth.Repository.Evolution.Writes.{
  revoke_session_if-later, with_grant-later, without_grant-later, with_sessions, put_session_later,
  put_session_new, put_account_later, put_account_new, put_passkey-PasskeyLater, put_passkey_new,
  with_accounts, with_challenges, revoke_sessions_later, revoke_access_later,
}

used_passkey-later :
    (login : PasskeyLogin) (p : StoredPasskey) → PasskeyLater p (used_passkey login p)
used_passkey-later login p = record {
  same_account = refl;
  same_passkey = refl;
  same_credential = refl;
  same_key = refl;
  counter_grows = omega arith;
  stays_revoked = λ t e. e;
}

-- A passkey that is found by its credential stands under its own id.
passkey_by_credential_key-keyed :
    (r : Repository) (key : Text) (p : StoredPasskey)
    → IsWellFormed r
    → passkey_by_credential_key key r ≡ some p
    → get p.passkey_id r.passkeys_by_id ≡ some p
passkey_by_credential_key-keyed r key p h e =
    elim (Option-cases (get key r.passkeys_by_credential_id)) [
      | inl missing ↦ ground arith
      | inr (id, found) ↦ ground (arith, h.passkeys id p)
    ]

module _ (r0 : Repository) where
  abbrev HasEvolved : Repository → Type 0
  HasEvolved r = IsWellFormed r × Evolution r0 r

  onwards : (r r' : Repository) → HasEvolved r → IsWellFormed r' → Evolution r r' → HasEvolved r'
  onwards r r' h fits later = (fits, Evolution-trans r0 r r' h.1 later)

  HasEvolved-closed : IsClosed Any HasEvolved
  HasEvolved-closed = record {
    revoke_session = λ r k now s h e live.
        onwards r _ h (w.revoke_session r k now s h.0 e live)
          (put_session_later r k s _ e (ground arith));
    touch_session = λ r k now s h e live.
        onwards r _ h (w.touch_session r k now s h.0 e live)
          (put_session_later r k s _ e (ground arith));
    revoke_all = λ r id now h.
        onwards r _ h (w.revoke_all r id now h.0)
          (with_sessions r _ (revoke_sessions_later r _ now (λ s e. ground arith)));
    revoke_one = λ r id session_id now h. onwards r _ h (w.revoke_one r id session_id now h.0) (
        with_sessions r _ (
          Evolves-update_first SessionLater SessionLater-refl _ _ r.sessions_by_verifier (
            revoke_session_if-later (is_live_session_with id session_id) now
              (λ s e. ground arith))));
    open_oidc = λ r id a input source h e fresh free.
        onwards r _ h (w.open_oidc r id a input source h.0 e fresh free)
          (put_session_new r _ _ free);
    open_email = λ r id now c a input h e e' free.
        onwards r _ h (w.open_email r id now c a input h.0 e e' free) (record {
          sessions = (put_session_new r _ _ free).sessions;
          passkeys = (Evolution-refl r).passkeys;
          accounts = (Evolution-refl r).accounts;
        });
    open_passkey = λ r login p a h found live count e free.
        onwards r _ h (w.open_passkey r login p a h.0 found live count e free) (record {
          sessions = (put_session_new r _ _ free).sessions;
          passkeys =
              (put_passkey-PasskeyLater r p.passkey_id p (used_passkey login p)
                (passkey_by_credential_key-keyed r (base64url login.credential_id) p h.0 found)
                (used_passkey-later login p)).passkeys;
          accounts = (Evolution-refl r).accounts;
        });
    issue = λ r challenge email a any h found on.
        onwards r _ h (w.issue r challenge email a any h.0 found on) (with_challenges r _ _);
    fail_challenge =
        λ r id now c h e. onwards r _ h (w.fail_challenge r id now c h.0 e) (with_challenges r _ _);
    drop_challenge = λ r id now c h e unused.
        onwards r _ h (w.drop_challenge r id now c h.0 e unused) (with_challenges r _ _);
    add_passkey = λ r input id a h e free free'.
        onwards r _ h (w.add_passkey r input id a h.0 e free free') (record {
          sessions = (Evolution-refl r).sessions;
          passkeys = put_passkey_new r _ _ free';
          accounts = (Evolution-refl r).accounts;
        });
    bootstrap = λ r input h e e' e'' first.
        onwards r _ h (w.bootstrap r input h.0 e e' e'' first)
          (with_accounts r _ _ _ (put_account_new r (bootstrapped input) e').accounts);
    create_account = λ r name email id h e e'.
        onwards r _ h (w.create_account r name email id h.0 e e')
          (put_account_new r (new_account name email id) e);
    activate = λ r id a h e.
        onwards r _ h (w.activate r id a h.0 e) (put_account_later r id a _ e (ground arith));
    deactivate = λ r id a now h e. onwards r _ h (w.deactivate r id a now h.0 e) (
        Evolution-trans r (with_status id deactivated a r) _
          (put_account_later r id a _ e (ground arith)) (revoke_access_later _ id now));
    reset_access =
        λ r id now h. onwards r _ h (w.reset_access r id now h.0) (revoke_access_later r id now);
    set_domain = λ r id a status h e.
        onwards r _ h (w.set_domain r id a status h.0 e)
          (put_account_later r id a _ e (ground arith));
    rename = λ r id a name email h e free.
        onwards r _ h (w.rename r id a name email h.0 e free)
          (with_accounts r _ _ _ (put_account_later r id a _ e (ground arith)).accounts);
    grant = λ r id a g h e.
        onwards r _ h (w.grant r id a g h.0 e)
          (put_account_later r id a _ e (with_grant-later g a));
    ungrant = λ r id a g h e kept.
        onwards r _ h (w.ungrant r id a g h.0 e kept)
          (put_account_later r id a _ e (without_grant-later g a kept));
  }
    where
      w : IsClosed Any IsWellFormed
      w = IsWellFormed-closed

-- From a well-formed repository, no history removes or renames a session, a passkey or an account, opens a session again that was
-- revoked, lowers a passkey's counter, or takes the administration from a server owner.
pub run-Evolution : (r : Repository) (cs : List Call) → IsWellFormed r → Evolution r (run r cs)
run-Evolution r cs h =
    (run-closed (HasEvolved-closed r) r cs (AllIssueAny cs) (h, Evolution-refl r)).1
