-- ===== src/Auth/Repository/Invariants/WellFormed.antt =====
-- The keys of the maps agree with their values, and deadlines and counters stay within bounds.
use kovcheg.Base.{ℕ, ◌≤◌, ◌≡◌, refl, ◌∙◌, Bool, List, arith, Option}
use kovcheg.Text.{Text}
use kovcheg.Dict.{set}
use kovcheg.Dict.Evolution.{
  AllValues, AllValues-set, AllValues-update_values, AllValues-update_first,
}
use kovcheg.Auth.Types.{SessionRecordInput, FunctionalGrant}
use kovcheg.Auth.Repository.State.{
  StoredAccount, StoredSession, StoredChallenge, StoredPasskey, Repository,
}
use kovcheg.Auth.Repository.Administration.{
  put_session, revoke_session_if, revoke_passkey_if, invalidate_challenge_if, with_grant,
  without_grant, revoke_access,
}
use kovcheg.Auth.Repository.Sessions.{opened}
use kovcheg.Auth.Repository.Challenges.{put_challenge}
use kovcheg.Auth.Repository.Passkeys.{used_passkey}
use kovcheg.Auth.Repository.Cases.Administrative.{put_account}
use kovcheg.Auth.Repository.Calls.{Call, run}
use kovcheg.Auth.Repository.Closure.{IsClosed, Any, AllIssueAny, run-closed}

-- A session stands under its verifier, and its idle deadline is not after its absolute one.
pub record SessionFits (k : Text) (s : StoredSession) : Type 0 where
  pub keyed : s.token_verifier ≡ k
  pub bounded : s.idle_expires_at ≤ s.absolute_expires_at

-- A challenge stands under its id, and has not more failed attempts than it allows.
pub record ChallengeFits (k : Text) (c : StoredChallenge) : Type 0 where
  pub keyed : c.challenge_id ≡ k
  pub bounded : c.attempts ≤ c.max_attempts

pub record IsWellFormed (r : Repository) : Type 0 where
  pub accounts : AllValues (λ k a. a.user_id ≡ k) r.accounts_by_id
  pub passkeys : AllValues (λ k p. p.passkey_id ≡ k) r.passkeys_by_id
  pub sessions : AllValues SessionFits r.sessions_by_verifier
  pub challenges : AllValues ChallengeFits r.challenges

revoke_session_if-Fits :
    (p : StoredSession → Bool) (now : ℕ) (k : Text) (s : StoredSession)
    → SessionFits k s
    → SessionFits k (revoke_session_if p now s)
unfolding revoke_session_if
revoke_session_if-Fits p now k s h = ground arith

invalidate_challenge_if-Fits :
    (p : StoredChallenge → Bool) (now : ℕ) (k : Text) (c : StoredChallenge)
    → ChallengeFits k c
    → ChallengeFits k (invalidate_challenge_if p now c)
unfolding invalidate_challenge_if
invalidate_challenge_if-Fits p now k c h = ground arith

revoke_passkey_if-keyed :
    (p : StoredPasskey → Bool) (now : ℕ) (k : Text) (v : StoredPasskey)
    → v.passkey_id ≡ k
    → (revoke_passkey_if p now v).passkey_id ≡ k
unfolding revoke_passkey_if
revoke_passkey_if-keyed p now k v h = ground arith

with_grant-keyed : (g : FunctionalGrant) (a : StoredAccount) → (with_grant g a).user_id ≡ a.user_id
unfolding with_grant
with_grant-keyed g a = ground arith

without_grant-keyed :
    (g : FunctionalGrant) (a : StoredAccount) → (without_grant g a).user_id ≡ a.user_id
unfolding without_grant
without_grant-keyed g a = refl

module _ (r : Repository) (h : IsWellFormed r) where
  put_session-Fits :
      (k : Text) (s : StoredSession) → SessionFits k s → IsWellFormed (put_session k s r)
  put_session-Fits k s fits = record {
    accounts = h.accounts;
    passkeys = h.passkeys;
    challenges = h.challenges;
    sessions = AllValues-set SessionFits k s r.sessions_by_verifier fits h.sessions;
  }

  put_challenge-Fits :
      (k : Text) (c : StoredChallenge) → ChallengeFits k c → IsWellFormed (put_challenge k c r)
  put_challenge-Fits k c fits = record {
    accounts = h.accounts;
    passkeys = h.passkeys;
    sessions = h.sessions;
    challenges = AllValues-set ChallengeFits k c r.challenges fits h.challenges;
  }

  put_account-keyed :
      (k : Text) (a : StoredAccount) → a.user_id ≡ k → IsWellFormed (put_account k a r)
  put_account-keyed k a keyed = record {
    passkeys = h.passkeys;
    sessions = h.sessions;
    challenges = h.challenges;
    accounts = AllValues-set (λ k a. a.user_id ≡ k) k a r.accounts_by_id keyed h.accounts;
  }

  revoke_access-Fits : (id : Text) (now : ℕ) → IsWellFormed (revoke_access id now r)
  revoke_access-Fits id now = record {
    accounts = h.accounts;
    passkeys =
        AllValues-update_values (λ k p. p.passkey_id ≡ k) _ r.passkeys_by_id
          (revoke_passkey_if-keyed _ now) h.passkeys;
    sessions =
        AllValues-update_values SessionFits _ r.sessions_by_verifier (revoke_session_if-Fits _ now)
          h.sessions;
    challenges =
        AllValues-update_values ChallengeFits _ r.challenges (invalidate_challenge_if-Fits _ now)
          h.challenges;
  }

opened-Fits :
    (input : SessionRecordInput) (account_id : Text) (seen : ℕ) (source : Option Text)
    → SessionFits input.token_verifier (opened input account_id seen source)
opened-Fits input account_id seen source = record { keyed = refl; bounded = omega arith }

pub IsWellFormed-closed : IsClosed Any IsWellFormed
IsWellFormed-closed = record {
  revoke_session =
      λ r k now s h e live. put_session-Fits r h k _ (ground (arith, h.sessions k s e));
  touch_session = λ r k now s h e live. put_session-Fits r h k _ (ground (arith, h.sessions k s e));
  revoke_all = λ r id now h. record {
    accounts = h.accounts;
    passkeys = h.passkeys;
    challenges = h.challenges;
    sessions =
        AllValues-update_values SessionFits _ r.sessions_by_verifier (revoke_session_if-Fits _ now)
          h.sessions;
  };
  revoke_one = λ r id session_id now h. record {
    accounts = h.accounts;
    passkeys = h.passkeys;
    challenges = h.challenges;
    sessions =
        AllValues-update_first SessionFits _ _ r.sessions_by_verifier (revoke_session_if-Fits _ now)
          h.sessions;
  };
  open_oidc =
      λ r id a input source h e fresh free. put_session-Fits r h _ _ (opened-Fits input _ _ _);
  open_email = λ r id now c a input h e e' free.
      put_session-Fits _ (put_challenge-Fits r h id _ (ground (arith, h.challenges id c e.found))) _
        _ (opened-Fits input _ _ _);
  open_passkey = λ r login p a h found live count e free.
      put_session-Fits
        (record r { passkeys_by_id = set p.passkey_id (used_passkey login p) r.passkeys_by_id })
        (record {
          accounts = h.accounts;
          sessions = h.sessions;
          challenges = h.challenges;
          passkeys = AllValues-set (λ k p. p.passkey_id ≡ k) _ _ r.passkeys_by_id refl h.passkeys;
        })
        _ _ (opened-Fits login.session _ _ _);
  issue = λ r challenge email a any h found on. record {
    accounts = h.accounts;
    passkeys = h.passkeys;
    sessions = h.sessions;
    challenges =
        AllValues-set ChallengeFits challenge.challenge_id _ _
          (record { keyed = refl; bounded = omega arith })
          (AllValues-update_values ChallengeFits _ r.challenges (invalidate_challenge_if-Fits _ _)
            h.challenges);
  };
  fail_challenge =
      λ r id now c h e. put_challenge-Fits r h id _ (ground (arith, h.challenges id c e.found));
  drop_challenge =
      λ r id now c h e unused. put_challenge-Fits r h id _ (ground (arith, h.challenges id c e));
  add_passkey = λ r input id a h e free free'. record {
    accounts = h.accounts;
    sessions = h.sessions;
    challenges = h.challenges;
    passkeys = AllValues-set (λ k p. p.passkey_id ≡ k) _ _ r.passkeys_by_id refl h.passkeys;
  };
  bootstrap = λ r input h e e' e'' first. record {
    passkeys = h.passkeys;
    sessions = h.sessions;
    challenges = h.challenges;
    accounts = AllValues-set (λ k a. a.user_id ≡ k) _ _ r.accounts_by_id refl h.accounts;
  };
  create_account = λ r name email id h e e'. record {
    passkeys = h.passkeys;
    sessions = h.sessions;
    challenges = h.challenges;
    accounts = AllValues-set (λ k a. a.user_id ≡ k) _ _ r.accounts_by_id refl h.accounts;
  };
  activate = λ r id a h e. put_account-keyed r h id _ (h.accounts id a e);
  deactivate = λ r id a now h e.
      revoke_access-Fits _ (put_account-keyed r h id _ (h.accounts id a e)) id now;
  reset_access = λ r id now h. revoke_access-Fits r h id now;
  set_domain = λ r id a status h e. put_account-keyed r h id _ (h.accounts id a e);
  rename = λ r id a name email h e free. record {
    passkeys = h.passkeys;
    sessions = h.sessions;
    challenges = h.challenges;
    accounts =
        AllValues-set (λ k a. a.user_id ≡ k) id _ r.accounts_by_id (h.accounts id a e) h.accounts;
  };
  grant = λ r id a g h e. put_account-keyed r h id _ (with_grant-keyed g a ∙ h.accounts id a e);
  ungrant =
      λ r id a g h e kept. put_account-keyed r h id _ (without_grant-keyed g a ∙ h.accounts id a e);
}

-- From a repository where it is so, every history keeps each object under its own key, the idle
-- deadline of each session at or before its absolute one, and the failed attempts of each challenge at
-- or below its maximum.
pub run-IsWellFormed : (r : Repository) (cs : List Call) → IsWellFormed r → IsWellFormed (run r cs)
run-IsWellFormed r cs = run-closed IsWellFormed-closed r cs (AllIssueAny cs)
