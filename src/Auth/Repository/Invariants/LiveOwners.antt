-- ===== src/Auth/Repository/Invariants/LiveOwners.antt =====
-- Whatever could let somebody in belongs to an active account.
use kovcheg.Base.{◌≡◌, refl, ◌∙◌, some, List, arith, Option-cases, inl, inr}
use kovcheg.Text.{Text}
use kovcheg.Dict.{Dict, get, set}
use kovcheg.Auth.Types.{active, deactivated, FunctionalGrant}
use kovcheg.Auth.Repository.State.{StoredAccount, Repository, account_by_email}
use kovcheg.Auth.Repository.Administration.{
  with_grant, without_grant, is_live_session_of, new_account, bootstrapped,
}
use kovcheg.Auth.Repository.Sessions.{is_live_session_with}
use kovcheg.Auth.Repository.Challenges.{new_challenge}
use kovcheg.Auth.Repository.Calls.{Call, run}
use kovcheg.Auth.Repository.Closure.{IsClosed, Any, AllIssueAny, run-closed}
use kovcheg.Auth.Repository.Invariants.WellFormed.{IsWellFormed, IsWellFormed-closed}
use kovcheg.Auth.Repository.Invariants.Owners.{
  HasActive, HasLiveOwners, HasActive-set, HasActive-set_new, HasActive-set_ne,
}
use kovcheg.Auth.Repository.Invariants.OwnerWrites.{
  owners_kept, session_kept, challenge_kept, passkey_kept, sessions_revoked, session_revoked,
  challenge_issued, access_revoked, IsActiveAccount-HasActive,
}

account_by_email-HasActive :
    (r : Repository) (email : Text) (a : StoredAccount)
    → IsWellFormed r
    → account_by_email email r ≡ some a
    → a.status ≡ active
    → HasActive a.user_id r.accounts_by_id
account_by_email-HasActive r email a w e on = elim (Option-cases (get email r.accounts_by_email)) [
  | inl missing ↦ absurd (ground arith)
  | inr (id, found) ↦ (a, ground (arith, w.accounts id a), on)
]

with_grant-status : (g : FunctionalGrant) (a : StoredAccount) → (with_grant g a).status ≡ a.status
unfolding with_grant
with_grant-status g a = ground arith

without_grant-status :
    (g : FunctionalGrant) (a : StoredAccount) → (without_grant g a).status ≡ a.status
unfolding without_grant
without_grant-status g a = refl

abbrev pub IsSafe : Repository → Type 0
IsSafe r = IsWellFormed r × HasLiveOwners r

-- A write of one account that leaves it as active as it was.
account_kept :
    (r : Repository) (id : Text) (a a' : StoredAccount) (e : Dict Text)
    → HasLiveOwners r
    → get id r.accounts_by_id ≡ some a
    → (a.status ≡ active → a'.status ≡ active)
    → HasLiveOwners
        (record r { accounts_by_email = e; accounts_by_id = set id a' r.accounts_by_id })
account_kept r id a a' e h found stays =
    owners_kept r h (set id a' r.accounts_by_id) e r.bootstrap_accounts
      (HasActive-set r.accounts_by_id id a a' found stays)

IsSafe-closed : IsClosed Any IsSafe
IsSafe-closed = record {
  revoke_session = λ r k now s h e live. (
    w.revoke_session r k now s h.0 e live,
    session_kept r h.1 k _ (λ shut. absurd (ground arith)),
  );
  touch_session = λ r k now s h e live.
      (w.touch_session r k now s h.0 e live, session_kept r h.1 k _ (h.1.sessions k s e));
  revoke_all =
      λ r id now h. (w.revoke_all r id now h.0, sessions_revoked r h.1 (is_live_session_of id) now);
  revoke_one = λ r id session_id now h. (
    w.revoke_one r id session_id now h.0,
    session_revoked r h.1 (is_live_session_with id session_id) now,
  );
  open_oidc = λ r id a input source h e fresh free. (
    w.open_oidc r id a input source h.0 e fresh free,
    session_kept r h.1 _ _ (λ live. IsActiveAccount-HasActive r id a h.0 e),
  );
  open_email = λ r id now c a input h e e' free. (
    w.open_email r id now c a input h.0 e e' free,
    session_kept (record r { challenges = _ })
        (challenge_kept r h.1 id _ (λ valid used. absurd (ground arith))) _ _
        (λ live. IsActiveAccount-HasActive r c.account_id a h.0 e'),
  );
  open_passkey = λ r login p a h found live count e free. (
    w.open_passkey r login p a h.0 found live count e free,
    session_kept (record r { passkeys_by_id = _ })
        (passkey_kept r h.1 p.passkey_id _ _ (λ live. (a, e.found, e.is_in_force))) _ _
        (λ live. (a, e.found, e.is_in_force)),
  );
  issue = λ r challenge email a any h found on. (
    w.issue r challenge email a any h.0 found on,
    challenge_issued r h.1 _ _ _ (new_challenge challenge a.user_id) _
        (λ valid fresh. account_by_email-HasActive r email a h.0 found on),
  );
  fail_challenge = λ r id now c h e.
      (w.fail_challenge r id now c h.0 e, challenge_kept r h.1 id _ (h.1.challenges id c e.found));
  drop_challenge = λ r id now c h e unused. (
    w.drop_challenge r id now c h.0 e unused,
    challenge_kept r h.1 id _ (λ valid fresh. absurd (ground arith)),
  );
  add_passkey = λ r input id a h e free free'. (
    w.add_passkey r input id a h.0 e free free',
    passkey_kept r h.1 _ _ _ (λ live. IsActiveAccount-HasActive r id a h.0 e),
  );
  bootstrap = λ r input h e e' e'' first. (
    w.bootstrap r input h.0 e e' e'' first,
    owners_kept r h.1 _ _ _
        (HasActive-set_new r.accounts_by_id input.user_id (bootstrapped input) e'),
  );
  create_account = λ r name email id h e e'. (
    w.create_account r name email id h.0 e e',
    owners_kept r h.1 _ _ _ (HasActive-set_new r.accounts_by_id id (new_account name email id) e),
  );
  activate = λ r id a h e. (w.activate r id a h.0 e, account_kept r id a _ _ h.1 e (λ on. refl));
  deactivate = λ r id a now h e. (
    w.deactivate r id a now h.0 e,
    access_revoked r h.1 id now _
        (HasActive-set_ne r.accounts_by_id id (record a { status = deactivated })),
  );
  reset_access = λ r id now h. (
    w.reset_access r id now h.0,
    access_revoked r h.1 id now r.accounts_by_id (λ j other on. on),
  );
  set_domain = λ r id a status h e.
      (w.set_domain r id a status h.0 e, account_kept r id a _ _ h.1 e (λ on. on));
  rename = λ r id a name email h e free.
      (w.rename r id a name email h.0 e free, account_kept r id a _ _ h.1 e (λ on. on));
  grant = λ r id a g h e.
      (w.grant r id a g h.0 e, account_kept r id a _ _ h.1 e (λ on. with_grant-status g a ∙ on));
  ungrant = λ r id a g h e kept. (
    w.ungrant r id a g h.0 e kept,
    account_kept r id a _ _ h.1 e (λ on. without_grant-status g a ∙ on),
  );
}
  where
    w : IsClosed Any IsWellFormed
    w = IsWellFormed-closed

-- Each session that is not revoked, each challenge that is neither used nor invalidated, and each
-- passkey that is not revoked, belongs to an account that is stored and active: if this holds of a
-- well-formed repository, it holds after every history.
pub run-HasLiveOwners : (r : Repository) (cs : List Call) → IsSafe r → HasLiveOwners (run r cs)
run-HasLiveOwners r cs h = (run-closed IsSafe-closed r cs (AllIssueAny cs) h).1
