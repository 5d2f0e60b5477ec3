-- ===== src/Auth/Repository/Invariants/Owners.antt =====
-- What it is that sessions, challenges and passkeys belong to an active account.
use kovcheg.Base.{ℕ, ◌≡◌, ◌≢◌, Bool, false, none, some, arith, Bool-cases, inl, inr}
use kovcheg.Text.{Text, text_discrete}
use kovcheg.Dict.{Dict, get, set, get-set}
use kovcheg.Dict.Evolution.{AllValues}
use kovcheg.Auth.Types.{active}
use kovcheg.Auth.Repository.State.{
  StoredAccount, StoredSession, StoredChallenge, StoredPasskey, Repository,
}
use kovcheg.Auth.Repository.Administration.{
  revoke_session_if, revoke_passkey_if, invalidate_challenge_if,
}

abbrev pub HasActive : Text → Dict StoredAccount → Type 0
HasActive id accounts = (a : StoredAccount) × (get id accounts ≡ some a) × (a.status ≡ active)

abbrev pub SessionOwned : Dict StoredAccount → Text → StoredSession → Type 0
SessionOwned accounts k s = s.revoked_at ≡ none → HasActive s.account_id accounts

abbrev pub ChallengeOwned : Dict StoredAccount → Text → StoredChallenge → Type 0
ChallengeOwned accounts k c =
    c.invalidated_at ≡ none → c.used_at ≡ none → HasActive c.account_id accounts

abbrev pub PasskeyOwned : Dict StoredAccount → Text → StoredPasskey → Type 0
PasskeyOwned accounts k p = p.revoked_at ≡ none → HasActive p.account_id accounts

-- Each live session, open challenge and live passkey belongs to an active account.
pub record HasLiveOwners (r : Repository) : Type 0 where
  pub sessions : AllValues (SessionOwned r.accounts_by_id) r.sessions_by_verifier
  pub challenges : AllValues (ChallengeOwned r.accounts_by_id) r.challenges
  pub passkeys : AllValues (PasskeyOwned r.accounts_by_id) r.passkeys_by_id

-- An account that is written with the status it had keeps every account as active as it was.
pub HasActive-set :
    (accounts : Dict StoredAccount) (id : Text) (a a' : StoredAccount)
    → get id accounts ≡ some a
    → (a.status ≡ active → a'.status ≡ active)
    → (j : Text) → HasActive j accounts
    → HasActive j (set id a' accounts)
HasActive-set accounts id a a' found stays j (b, e, on) = elim (text_discrete j id) [
  | yes same ↦ (a', ground (arith, get-set j id a' accounts), stays (ground arith))
  | no other ↦ (b, ground (arith, get-set j id a' accounts), on)
]

pub HasActive-set_new :
    (accounts : Dict StoredAccount) (id : Text) (a : StoredAccount)
    → get id accounts ≡ none
    → (j : Text) → HasActive j accounts
    → HasActive j (set id a accounts)
HasActive-set_new accounts id a free j (b, e, on) = (b, ground (arith, get-set j id a accounts), on)

pub HasActive-set_ne :
    (accounts : Dict StoredAccount) (id : Text) (a : StoredAccount) (j : Text)
    → j ≢ id
    → HasActive j accounts
    → HasActive j (set id a accounts)
HasActive-set_ne accounts id a j other (b, e, on) = (b, ground (arith, get-set j id a accounts), on)

-- What a revoking loop leaves live was live before, and is not of the account that it revokes.
module _ (accounts accounts' : Dict StoredAccount) where
  pub revoke_session_if-Owned :
      (p : StoredSession → Bool) (now : ℕ) (k : Text) (s : StoredSession)
      → (s.revoked_at ≡ none
          → p s ≡ false
          → HasActive s.account_id accounts
          → HasActive s.account_id accounts')
      → SessionOwned accounts k s
      → SessionOwned accounts' k (revoke_session_if p now s)
  unfolding revoke_session_if
  revoke_session_if-Owned p now k s on owned live = elim (Bool-cases (p s)) [
    | inl hit ↦ absurd (ground arith)
    | inr miss ↦
        let still : s.revoked_at ≡ none = ground arith in rw miss (on still miss (owned still))
  ]

  pub invalidate_challenge_if-Owned :
      (p : StoredChallenge → Bool) (now : ℕ) (k : Text) (c : StoredChallenge)
      → (c.invalidated_at ≡ none
          → c.used_at ≡ none
          → p c ≡ false
          → HasActive c.account_id accounts
          → HasActive c.account_id accounts')
      → ChallengeOwned accounts k c
      → ChallengeOwned accounts' k (invalidate_challenge_if p now c)
  unfolding invalidate_challenge_if
  invalidate_challenge_if-Owned p now k c on owned live unused = elim (Bool-cases (p c)) [
    | inl hit ↦ absurd (ground arith)
    | inr miss ↦
        let open_still : c.invalidated_at ≡ none = ground arith in
        let fresh : c.used_at ≡ none = ground arith in
        rw miss (on open_still fresh miss (owned open_still fresh))
  ]

  pub revoke_passkey_if-Owned :
      (p : StoredPasskey → Bool) (now : ℕ) (k : Text) (v : StoredPasskey)
      → (v.revoked_at ≡ none
          → p v ≡ false
          → HasActive v.account_id accounts
          → HasActive v.account_id accounts')
      → PasskeyOwned accounts k v
      → PasskeyOwned accounts' k (revoke_passkey_if p now v)
  unfolding revoke_passkey_if
  revoke_passkey_if-Owned p now k v on owned live = elim (Bool-cases (p v)) [
    | inl hit ↦ absurd (ground arith)
    | inr miss ↦
        let still : v.revoked_at ≡ none = ground arith in rw miss (on still miss (owned still))
  ]
