-- ===== src/Auth/Repository/Properties/PasskeyLogins.antt =====
-- What a passkey login opens, and that a login which expects an older counter is refused.
use kovcheg.Base.{
  ◌<◌, ◌≡◌, ◌≢◌, refl, none, some, arith, List, [], ◌∷◌, ok, result, after, Option-cases, inl, inr,
  max,
}
use kovcheg.Text.{Text}
use kovcheg.Text.Bytes.{base64url}
use kovcheg.Dict.{get, get-set_self}
use kovcheg.Auth.Repository.State.{StoredAccount, StoredPasskey, Repository}
use kovcheg.Auth.Repository.Sessions.{opened}
use kovcheg.Auth.Repository.Passkeys.{
  PasskeyLogin, CompletePasskeyLoginResult, complete_passkey_login, used_passkey,
}
use kovcheg.Auth.Repository.Calls.{Call, step, run}
use kovcheg.Auth.Repository.Closure.{step-closed}
use kovcheg.Auth.Repository.Evolution.Histories.{run-Evolution}
use kovcheg.Auth.Repository.Evolution.Credentials.{run-IsListed}
use kovcheg.Auth.Repository.Invariants.WellFormed.{
  IsWellFormed, IsWellFormed-closed, run-IsWellFormed,
}
use kovcheg.Auth.Repository.Properties.Validation.{IsInForce}

-- The passkey that a login with the result `x` used.
pub record IsUsed (r : Repository) (login : PasskeyLogin) (x : CompletePasskeyLoginResult)
    (id : Text) (p : StoredPasskey) : Type 0 where
  pub listed : get (base64url login.credential_id) r.passkeys_by_credential_id ≡ some id
  pub found : get id r.passkeys_by_id ≡ some p
  pub is_live : p.revoked_at ≡ none
  pub counted : p.sign_count ≡ login.expected_sign_count
  pub owner : x.account_id ≡ p.account_id
  pub left :
      get id (after (complete_passkey_login login r)).passkeys_by_id ≡ some (used_passkey login p)

login-IsUsed :
    (r : Repository) (login : PasskeyLogin) (x : CompletePasskeyLoginResult)
    → IsWellFormed r
    → result (complete_passkey_login login r) ≡ ok (some x)
    → (id : Text) × (p : StoredPasskey) × IsUsed r login x id p
unfolding complete_passkey_login
login-IsUsed r login x h e =
    elim (Option-cases (get (base64url login.credential_id) r.passkeys_by_credential_id)) [
      | inl missing ↦ absurd (ground arith)
      | inr (id, listed) ↦ elim (Option-cases (get id r.passkeys_by_id)) [
        | inl missing ↦ absurd (ground arith)
        | inr (p, found) ↦ (
          id,
          p,
          record {
            listed = listed;
            found = found;
            is_live = ground arith;
            counted = ground arith;
            owner = ground arith;
            left = ground (
              arith,
              h.passkeys id p found,
              get-set_self id (used_passkey login p) r.passkeys_by_id,
            );
          },
        )
      ]
    ]

login-listed :
    (r : Repository) (login : PasskeyLogin) (key id : Text)
    → get key r.passkeys_by_credential_id ≡ some id
    → get key (after (complete_passkey_login login r)).passkeys_by_credential_id ≡ some id
unfolding step run
login-listed r login key id h = run-IsListed key id r (Call.log_in_passkey login ∷ []) h

-- A login with a passkey opens a session that is in force at once, for the account of a passkey that
-- is not revoked; the answer names that account, and the stored counter becomes the larger of the old
-- one and the observed one. The repository is well formed, and the lifetimes have not run out already.
pub passkey_login-IsInForce :
    (r : Repository) (login : PasskeyLogin) (x : CompletePasskeyLoginResult)
    → IsWellFormed r
    → login.now < login.session.absolute_expires_at
    → 0 < login.session.idle_lifetime_ms
    → result (complete_passkey_login login r) ≡ ok (some x)
    → (id : Text) × (p : StoredPasskey) × (a : StoredAccount) × IsUsed r login x id p
      × IsInForce
          (after (complete_passkey_login login r))
          login.session.token_verifier
          login.now
          (opened login.session x.account_id login.now none)
          a
      × ((used_passkey login p).sign_count
          ≡ max login.expected_sign_count login.observed_sign_count)
unfolding complete_passkey_login
passkey_login-IsInForce r login x h absolute idle e =
    let (id, p, used) = login-IsUsed r login x h e in
    let s = opened login.session x.account_id login.now none in
    elim (Option-cases (get p.account_id r.accounts_by_id)) [
      | inl missing ↦ absurd (ground (arith, used))
      | inr (a, owner) ↦ (
        id,
        p,
        a,
        used,
        record {
          found =
              ground
                (arith, used, get-set_self login.session.token_verifier s r.sessions_by_verifier);
          is_live = refl;
          is_in_use = ground arith;
          is_unexpired = absolute;
          owner = ground (arith, used);
          owner_active = ground (arith, used);
        },
        ground (arith, used),
      )
    ]

-- After a login that raised the passkey's counter, and after any calls of the repository, no login
-- with the same credential succeeds that still expects the counter which the first one expected. The
-- repository is well formed.
pub stale_passkey_login_refused :
    (r : Repository) (cs : List Call) (login login' : PasskeyLogin)
    (x y : CompletePasskeyLoginResult)
    → IsWellFormed r
    → result (complete_passkey_login login r) ≡ ok (some x)
    → login.expected_sign_count < login.observed_sign_count
    → login'.credential_id ≡ login.credential_id
    → login'.expected_sign_count ≡ login.expected_sign_count
    → result (complete_passkey_login login' (run (after (complete_passkey_login login r)) cs))
      ≢ ok (some y)
unfolding step
stale_passkey_login_refused r cs login login' x y h e raised same old again =
    let (id, p, used) = login-IsUsed r login x h e in
    let q = after (complete_passkey_login login r) in
    let h' = step-closed IsWellFormed-closed r (Call.log_in_passkey login) tt h in
    let (p', found', later) =
      (run-Evolution q cs h').passkeys id (used_passkey login p) used.left in
    let listed' =
      run-IsListed (base64url login.credential_id) id q cs
        (login-listed r login (base64url login.credential_id) id used.listed) in
    let (id', p'', used') = login-IsUsed (run q cs) login' y (run-IsWellFormed q cs h') again in
    absurd (ground (arith, used', later.counter_grows, used.counted))
