-- ===== src/Auth/Repository/Invariants/OwnerWrites.antt =====
-- The writes to one map keep what belongs to an active account so.
use kovcheg.Base.{ℕ, ◌≢◌, Bool, arith}
use kovcheg.Text.{Text}
use kovcheg.Dict.{Dict, set, update_values, update_first}
use kovcheg.Dict.Evolution.{AllValues, AllValues-set, AllValues-map, AllValues-update_first}
use kovcheg.Auth.Repository.State.{
  StoredAccount, StoredSession, StoredChallenge, StoredPasskey, Repository,
}
use kovcheg.Auth.Repository.Administration.{
  put_session, revoke_session_if, invalidate_challenge_if, revoke_access, is_live_session_of,
  is_live_challenge_of, is_live_passkey_of,
}
use kovcheg.Auth.Repository.Cases.Methods.{IsActiveAccount}
use kovcheg.Auth.Repository.Invariants.WellFormed.{IsWellFormed}
use kovcheg.Auth.Repository.Invariants.Owners.{
  HasActive, SessionOwned, ChallengeOwned, PasskeyOwned, HasLiveOwners, revoke_session_if-Owned,
  invalidate_challenge_if-Owned, revoke_passkey_if-Owned,
}

module _ (r : Repository) (h : HasLiveOwners r) where
  -- A write to accounts that leaves every account as active as it was.
  pub owners_kept :
      (accounts : Dict StoredAccount) (e b : Dict Text)
      → ((j : Text) → HasActive j r.accounts_by_id → HasActive j accounts)
      → HasLiveOwners
          (record r { accounts_by_email = e; accounts_by_id = accounts; bootstrap_accounts = b })
  owners_kept accounts e b on = record {
    sessions = λ k s f live. on s.account_id (h.sessions k s f live);
    challenges = λ k c f open_still unused. on c.account_id (h.challenges k c f open_still unused);
    passkeys = λ k p f live. on p.account_id (h.passkeys k p f live);
  }

  pub session_kept :
      (k : Text) (s : StoredSession)
      → SessionOwned r.accounts_by_id k s
      → HasLiveOwners (put_session k s r)
  session_kept k s owned = record {
    sessions =
        AllValues-set (SessionOwned r.accounts_by_id) k s r.sessions_by_verifier owned h.sessions;
    challenges = h.challenges;
    passkeys = h.passkeys;
  }

  pub challenges_kept :
      (d : Dict StoredChallenge) (times : Dict ℕ)
      → AllValues (ChallengeOwned r.accounts_by_id) d
      → HasLiveOwners (record r { challenges = d; latest_challenge_at = times })
  challenges_kept d times owned = record {
    sessions = h.sessions;
    challenges = owned;
    passkeys = h.passkeys;
  }

  pub challenge_kept :
      (id : Text) (c : StoredChallenge)
      → ChallengeOwned r.accounts_by_id id c
      → HasLiveOwners (record r { challenges = set id c r.challenges })
  challenge_kept id c owned =
      challenges_kept _ _
        (AllValues-set (ChallengeOwned r.accounts_by_id) id c r.challenges owned h.challenges)

  pub passkey_kept :
      (id : Text) (p : StoredPasskey) (ids : Dict Text)
      → PasskeyOwned r.accounts_by_id id p
      → HasLiveOwners
          (record r { passkeys_by_credential_id = ids; passkeys_by_id = set id p r.passkeys_by_id })
  passkey_kept id p ids owned = record {
    sessions = h.sessions;
    challenges = h.challenges;
    passkeys = AllValues-set (PasskeyOwned r.accounts_by_id) id p r.passkeys_by_id owned h.passkeys;
  }

  pub sessions_revoked :
      (p : StoredSession → Bool) (now : ℕ)
      → HasLiveOwners (record r {
        sessions_by_verifier = update_values (revoke_session_if p now) r.sessions_by_verifier;
      })
  sessions_revoked p now = record {
    sessions =
        AllValues-map (SessionOwned r.accounts_by_id) (SessionOwned r.accounts_by_id) _
          r.sessions_by_verifier
          (λ k s.
            revoke_session_if-Owned r.accounts_by_id r.accounts_by_id p now k s
              (λ live miss on. on))
          h.sessions;
    challenges = h.challenges;
    passkeys = h.passkeys;
  }

  pub session_revoked :
      (p : StoredSession → Bool) (now : ℕ)
      → HasLiveOwners (record r {
        sessions_by_verifier = update_first p (revoke_session_if p now) r.sessions_by_verifier;
      })
  session_revoked p now = record {
    sessions =
        AllValues-update_first (SessionOwned r.accounts_by_id) p _ r.sessions_by_verifier
          (λ k s.
            revoke_session_if-Owned r.accounts_by_id r.accounts_by_id p now k s
              (λ live miss on. on))
          h.sessions;
    challenges = h.challenges;
    passkeys = h.passkeys;
  }

  pub challenge_issued :
      (p : StoredChallenge → Bool) (now : ℕ) (id : Text) (c : StoredChallenge) (times : Dict ℕ)
      → ChallengeOwned r.accounts_by_id id c
      → HasLiveOwners (record r {
        challenges = set id c (update_values (invalidate_challenge_if p now) r.challenges);
        latest_challenge_at = times;
      })
  challenge_issued p now id c times owned = challenges_kept _ times (
      AllValues-set (ChallengeOwned r.accounts_by_id) id c _ owned (
        AllValues-map (ChallengeOwned r.accounts_by_id) (ChallengeOwned r.accounts_by_id) _
          r.challenges
          (λ k v.
            invalidate_challenge_if-Owned r.accounts_by_id r.accounts_by_id p now k v
              (λ open_still fresh miss on. on))
          h.challenges))

  -- The three revoking loops make up for what the account in question loses.
  pub access_revoked :
      (id : Text) (now : ℕ) (accounts : Dict StoredAccount)
      → ((j : Text) → j ≢ id → HasActive j r.accounts_by_id → HasActive j accounts)
      → HasLiveOwners (revoke_access id now (record r { accounts_by_id = accounts }))
  access_revoked id now accounts others = record {
    sessions =
        AllValues-map (SessionOwned r.accounts_by_id) (SessionOwned accounts) _
          r.sessions_by_verifier
          (λ k s.
            revoke_session_if-Owned r.accounts_by_id accounts (is_live_session_of id) now k s
              (λ live miss. others s.account_id (λ same. ground arith)))
          h.sessions;
    challenges =
        AllValues-map (ChallengeOwned r.accounts_by_id) (ChallengeOwned accounts) _ r.challenges
          (λ k c.
            invalidate_challenge_if-Owned r.accounts_by_id accounts (is_live_challenge_of id) now k
              c (λ open_still fresh miss. others c.account_id (λ same. ground arith)))
          h.challenges;
    passkeys =
        AllValues-map (PasskeyOwned r.accounts_by_id) (PasskeyOwned accounts) _ r.passkeys_by_id
          (λ k v.
            revoke_passkey_if-Owned r.accounts_by_id accounts (is_live_passkey_of id) now k v
              (λ live miss. others v.account_id (λ same. ground arith)))
          h.passkeys;
  }

pub IsActiveAccount-HasActive :
    (r : Repository) (id : Text) (a : StoredAccount)
    → IsWellFormed r
    → IsActiveAccount r id a
    → HasActive a.user_id r.accounts_by_id
IsActiveAccount-HasActive r id a w e = (a, ground (arith, w.accounts id a e.found), e.is_in_force)
