-- ===== src/Auth/Repository/Evolution/Relations.antt =====
-- The relations along which the stored objects move.
use kovcheg.Base.{ℕ, ◌≤◌, ◌≡◌, refl, ◌∙◌, true, some, is_some, arith}
use kovcheg.Dict.Evolution.{Evolves, Evolves-refl, EvolvesAt-trans}
use kovcheg.Auth.Types.{platform_administrator}
use kovcheg.Auth.Repository.State.{
  StoredAccount, StoredSession, StoredPasskey, StoredChallenge, Repository, includes_grant,
}

-- A session keeps what it was opened with, and its revocation with its time.
pub record SessionLater (s s' : StoredSession) : Type 0 where
  pub same_input : s'.input ≡ s.input
  pub same_account : s'.account_id ≡ s.account_id
  pub same_source : s'.source_oidc_token_verifier ≡ s.source_oidc_token_verifier
  pub stays_revoked : (t : ℕ) → s.revoked_at ≡ some t → s'.revoked_at ≡ some t

pub SessionLater-refl : (s : StoredSession) → SessionLater s s
SessionLater-refl s = record {
  same_input = refl;
  same_account = refl;
  same_source = refl;
  stays_revoked = λ t e. e;
}

pub SessionLater-trans :
    (a b c : StoredSession) → SessionLater a b → SessionLater b c → SessionLater a c
SessionLater-trans a b c p q = record {
  same_input = q.same_input ∙ p.same_input;
  same_account = q.same_account ∙ p.same_account;
  same_source = q.same_source ∙ p.same_source;
  stays_revoked = λ t e. q.stays_revoked t (p.stays_revoked t e);
}

-- A passkey keeps its key and its owner; its counter does not fall.
pub record PasskeyLater (p p' : StoredPasskey) : Type 0 where
  pub same_account : p'.account_id ≡ p.account_id
  pub same_passkey : p'.passkey_id ≡ p.passkey_id
  pub same_credential : p'.credential_id ≡ p.credential_id
  pub same_key : p'.public_key ≡ p.public_key
  pub counter_grows : p.sign_count ≤ p'.sign_count
  pub stays_revoked : (t : ℕ) → p.revoked_at ≡ some t → p'.revoked_at ≡ some t

pub PasskeyLater-refl : (p : StoredPasskey) → PasskeyLater p p
PasskeyLater-refl p = record {
  same_account = refl;
  same_passkey = refl;
  same_credential = refl;
  same_key = refl;
  counter_grows = omega arith;
  stays_revoked = λ t e. e;
}

pub PasskeyLater-trans :
    (a b c : StoredPasskey) → PasskeyLater a b → PasskeyLater b c → PasskeyLater a c
PasskeyLater-trans a b c p q = record {
  same_account = q.same_account ∙ p.same_account;
  same_passkey = q.same_passkey ∙ p.same_passkey;
  same_credential = q.same_credential ∙ p.same_credential;
  same_key = q.same_key ∙ p.same_key;
  counter_grows = omega arith;
  stays_revoked = λ t e. q.stays_revoked t (p.stays_revoked t e);
}

-- An account keeps its id and its ownership of the server, and an owner stays an administrator.
pub record AccountLater (a a' : StoredAccount) : Type 0 where
  pub same_user : a'.user_id ≡ a.user_id
  pub same_owner : a'.is_server_owner ≡ a.is_server_owner
  pub owner_stays :
      a.is_server_owner ≡ true
      → includes_grant platform_administrator a.functional_grants ≡ true
      → includes_grant platform_administrator a'.functional_grants ≡ true

pub AccountLater-refl : (a : StoredAccount) → AccountLater a a
AccountLater-refl a = record { same_user = refl; same_owner = refl; owner_stays = λ o h. h }

pub AccountLater-trans :
    (a b c : StoredAccount) → AccountLater a b → AccountLater b c → AccountLater a c
AccountLater-trans a b c p q = record {
  same_user = q.same_user ∙ p.same_user;
  same_owner = q.same_owner ∙ p.same_owner;
  owner_stays = λ o h. q.owner_stays (p.same_owner ∙ o) (p.owner_stays o h);
}

-- A challenge keeps what it was issued with; it stays used, it stays invalidated, and its failed
-- attempts are not forgotten.
pub record ChallengeLater (c c' : StoredChallenge) : Type 0 where
  pub same_input : c'.input ≡ c.input
  pub same_account : c'.account_id ≡ c.account_id
  pub attempts_grow : c.attempts ≤ c'.attempts
  pub stays_used : (t : ℕ) → c.used_at ≡ some t → c'.used_at ≡ some t
  pub stays_invalidated : is_some c.invalidated_at ≡ true → is_some c'.invalidated_at ≡ true

pub ChallengeLater-refl : (c : StoredChallenge) → ChallengeLater c c
ChallengeLater-refl c = record {
  same_input = refl;
  same_account = refl;
  attempts_grow = omega arith;
  stays_used = λ t e. e;
  stays_invalidated = λ h. h;
}

pub ChallengeLater-trans :
    (a b c : StoredChallenge) → ChallengeLater a b → ChallengeLater b c → ChallengeLater a c
ChallengeLater-trans a b c p q = record {
  same_input = q.same_input ∙ p.same_input;
  same_account = q.same_account ∙ p.same_account;
  attempts_grow = omega arith;
  stays_used = λ t e. q.stays_used t (p.stays_used t e);
  stays_invalidated = λ h. q.stays_invalidated (p.stays_invalidated h);
}

-- The three maps from which nothing is ever removed.
pub record Evolution (r r' : Repository) : Type 0 where
  pub sessions : Evolves SessionLater r.sessions_by_verifier r'.sessions_by_verifier
  pub passkeys : Evolves PasskeyLater r.passkeys_by_id r'.passkeys_by_id
  pub accounts : Evolves AccountLater r.accounts_by_id r'.accounts_by_id

pub Evolution-refl : (r : Repository) → Evolution r r
Evolution-refl r = record {
  sessions = Evolves-refl SessionLater SessionLater-refl r.sessions_by_verifier;
  passkeys = Evolves-refl PasskeyLater PasskeyLater-refl r.passkeys_by_id;
  accounts = Evolves-refl AccountLater AccountLater-refl r.accounts_by_id;
}

pub Evolution-trans : (a b c : Repository) → Evolution a b → Evolution b c → Evolution a c
Evolution-trans a b c p q = record {
  sessions =
      λ k. EvolvesAt-trans SessionLater SessionLater-trans k _ _ _ (p.sessions k) (q.sessions k);
  passkeys =
      λ k. EvolvesAt-trans PasskeyLater PasskeyLater-trans k _ _ _ (p.passkeys k) (q.passkeys k);
  accounts =
      λ k. EvolvesAt-trans AccountLater AccountLater-trans k _ _ _ (p.accounts k) (q.accounts k);
}
