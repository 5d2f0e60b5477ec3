-- ===== src/Auth/Repository/Evolution/Writes.antt =====
-- Each write of a method moves the stored objects along the relations.
use kovcheg.Base.{
  ℕ, ◌≡◌, refl, Bool, true, false, ◌&&◌, not, none, some, List, [], ◌∷◌, ◌++◌, keep, arith,
}
use kovcheg.Text.{Text}
use kovcheg.Dict.{Dict, get, set, update_values}
use kovcheg.Dict.Evolution.{
  Evolves, Evolves-refl, Evolves-set_new, Evolves-set_later, Evolves-update_values,
}
use kovcheg.Auth.Types.{FunctionalGrant, platform_administrator, grant_eq}
use kovcheg.Auth.Repository.State.{
  StoredAccount, StoredSession, StoredPasskey, StoredChallenge, Repository, includes_grant,
}
use kovcheg.Auth.Repository.Administration.{
  put_session, revoke_session_if, revoke_passkey_if, revoke_access, is_live_session_of,
  is_live_passkey_of, with_grant, without_grant,
}
use kovcheg.Auth.Repository.Cases.Administrative.{put_account, put_new_account}
use kovcheg.Auth.Repository.Evolution.Relations.{
  SessionLater, SessionLater-refl, PasskeyLater, PasskeyLater-refl, AccountLater, AccountLater-refl,
  Evolution,
}

-- A loop that revokes sessions that are live leaves the others as they are.
pub revoke_session_if-later :
    (p : StoredSession → Bool) (now : ℕ)
    → ((s : StoredSession) → p s ≡ true → s.revoked_at ≡ none)
    → (s : StoredSession) → SessionLater s (revoke_session_if p now s)
unfolding revoke_session_if
revoke_session_if-later p now live s = record {
  same_input = ground arith;
  same_account = ground arith;
  same_source = ground arith;
  stays_revoked = λ t e. ground (arith, live s);
}

pub revoke_passkey_if-later :
    (p : StoredPasskey → Bool) (now : ℕ)
    → ((k : StoredPasskey) → p k ≡ true → k.revoked_at ≡ none)
    → (k : StoredPasskey) → PasskeyLater k (revoke_passkey_if p now k)
unfolding revoke_passkey_if
revoke_passkey_if-later p now live k = record {
  same_account = ground arith;
  same_passkey = ground arith;
  same_credential = ground arith;
  same_key = ground arith;
  counter_grows = ground arith;
  stays_revoked = λ t e. ground (arith, live k);
}

includes_grant-append :
    (g h : FunctionalGrant) (gs : List FunctionalGrant)
    → includes_grant g gs ≡ true
    → includes_grant g (gs ++ h ∷ []) ≡ true
unfolding includes_grant
includes_grant-append g h [] e = ground arith
includes_grant-append g h (x ∷ gs) e = ground (arith, includes_grant-append g h gs)

includes_grant-keep :
    (g h : FunctionalGrant) (gs : List FunctionalGrant)
    → grant_eq h g ≡ false
    → includes_grant g gs ≡ true
    → includes_grant g (keep (λ x. not (grant_eq x h)) gs) ≡ true
unfolding includes_grant
includes_grant-keep g h [] ne e = ground arith
includes_grant-keep g h (x ∷ gs) ne e = ground (arith, includes_grant-keep g h gs ne)

pub with_grant-later : (g : FunctionalGrant) (a : StoredAccount) → AccountLater a (with_grant g a)
unfolding with_grant
with_grant-later g a = record {
  same_user = ground arith;
  same_owner = ground arith;
  owner_stays =
      λ o h. ground (arith, includes_grant-append platform_administrator g a.functional_grants h);
}

-- A grant may be taken away unless it is the administration grant of a server owner.
pub without_grant-later :
    (g : FunctionalGrant) (a : StoredAccount)
    → (grant_eq g platform_administrator && a.is_server_owner) ≡ false
    → AccountLater a (without_grant g a)
unfolding without_grant
without_grant-later g a kept = record {
  same_user = refl;
  same_owner = refl;
  owner_stays =
      λ o h. includes_grant-keep platform_administrator g a.functional_grants (ground arith) h;
}

module _ (r : Repository) where
  pub with_sessions :
      (d : Dict StoredSession)
      → Evolves SessionLater r.sessions_by_verifier d
      → Evolution r (record r { sessions_by_verifier = d })
  with_sessions d later = record {
    sessions = later;
    passkeys = Evolves-refl PasskeyLater PasskeyLater-refl r.passkeys_by_id;
    accounts = Evolves-refl AccountLater AccountLater-refl r.accounts_by_id;
  }

  pub put_session_later :
      (verifier : Text) (s s' : StoredSession)
      → get verifier r.sessions_by_verifier ≡ some s
      → SessionLater s s'
      → Evolution r (put_session verifier s' r)
  put_session_later verifier s s' found later =
      with_sessions _ (Evolves-set_later SessionLater SessionLater-refl verifier s s' _ found later)

  pub put_session_new :
      (verifier : Text) (s : StoredSession)
      → get verifier r.sessions_by_verifier ≡ none
      → Evolution r (put_session verifier s r)
  put_session_new verifier s free =
      with_sessions _ (Evolves-set_new SessionLater SessionLater-refl verifier s _ free)

  pub with_challenges :
      (d : Dict StoredChallenge) (times : Dict ℕ)
      → Evolution r (record r { challenges = d; latest_challenge_at = times })
  with_challenges d times = record {
    sessions = Evolves-refl SessionLater SessionLater-refl r.sessions_by_verifier;
    passkeys = Evolves-refl PasskeyLater PasskeyLater-refl r.passkeys_by_id;
    accounts = Evolves-refl AccountLater AccountLater-refl r.accounts_by_id;
  }

  pub with_accounts :
      (e b : Dict Text) (d : Dict StoredAccount)
      → Evolves AccountLater r.accounts_by_id d
      → Evolution r (record r { accounts_by_email = e; accounts_by_id = d; bootstrap_accounts = b })
  with_accounts e b d later = record {
    sessions = Evolves-refl SessionLater SessionLater-refl r.sessions_by_verifier;
    passkeys = Evolves-refl PasskeyLater PasskeyLater-refl r.passkeys_by_id;
    accounts = later;
  }

  pub put_account_later :
      (user_id : Text) (a a' : StoredAccount)
      → get user_id r.accounts_by_id ≡ some a
      → AccountLater a a'
      → Evolution r (put_account user_id a' r)
  put_account_later user_id a a' found later = record {
    sessions = Evolves-refl SessionLater SessionLater-refl r.sessions_by_verifier;
    passkeys = Evolves-refl PasskeyLater PasskeyLater-refl r.passkeys_by_id;
    accounts = Evolves-set_later AccountLater AccountLater-refl user_id a a' _ found later;
  }

  pub put_account_new :
      (a : StoredAccount)
      → get a.user_id r.accounts_by_id ≡ none
      → Evolution r (put_new_account a r)
  put_account_new a free = record {
    sessions = Evolves-refl SessionLater SessionLater-refl r.sessions_by_verifier;
    passkeys = Evolves-refl PasskeyLater PasskeyLater-refl r.passkeys_by_id;
    accounts = Evolves-set_new AccountLater AccountLater-refl a.user_id a _ free;
  }

  pub put_passkey-PasskeyLater :
      (id : Text) (k k' : StoredPasskey)
      → get id r.passkeys_by_id ≡ some k
      → PasskeyLater k k'
      → Evolution r (record r { passkeys_by_id = set id k' r.passkeys_by_id })
  put_passkey-PasskeyLater id k k' found later = record {
    sessions = Evolves-refl SessionLater SessionLater-refl r.sessions_by_verifier;
    passkeys = Evolves-set_later PasskeyLater PasskeyLater-refl id k k' _ found later;
    accounts = Evolves-refl AccountLater AccountLater-refl r.accounts_by_id;
  }

  pub put_passkey_new :
      (id : Text) (k : StoredPasskey)
      → get id r.passkeys_by_id ≡ none
      → Evolves PasskeyLater r.passkeys_by_id (set id k r.passkeys_by_id)
  put_passkey_new id k free = Evolves-set_new PasskeyLater PasskeyLater-refl id k _ free

  pub revoke_sessions_later :
      (p : StoredSession → Bool) (now : ℕ)
      → ((s : StoredSession) → p s ≡ true → s.revoked_at ≡ none)
      → Evolves SessionLater r.sessions_by_verifier
          (update_values (revoke_session_if p now) r.sessions_by_verifier)
  revoke_sessions_later p now live =
      Evolves-update_values SessionLater SessionLater-refl (revoke_session_if p now) _
        (revoke_session_if-later p now live)

  pub revoke_access_later :
      (account_id : Text) (now : ℕ) → Evolution r (revoke_access account_id now r)
  revoke_access_later account_id now = record {
    sessions = revoke_sessions_later (is_live_session_of account_id) now (λ s h. ground arith);
    passkeys =
        Evolves-update_values PasskeyLater PasskeyLater-refl
          (revoke_passkey_if (is_live_passkey_of account_id) now) _
          (revoke_passkey_if-later (is_live_passkey_of account_id) now (λ k h. ground arith));
    accounts = Evolves-refl AccountLater AccountLater-refl r.accounts_by_id;
  }
