-- ===== src/Auth/Repository/Invariants/Addresses.antt =====
-- `accountsByEmail` is exactly the index of the accounts by address.
use kovcheg.Base.{◌≡◌, ◌≢◌, refl, sym, subst, ◌∙◌, none, some, arith, List, false}
use kovcheg.Text.{Text, text_discrete}
use kovcheg.Dict.{Dict, get, set, delete, get-set, get-delete}
use kovcheg.Auth.Types.{FunctionalGrant}
use kovcheg.Auth.Repository.State.{StoredAccount, Repository, empty_repository}
use kovcheg.Auth.Repository.Administration.{
  with_grant, without_grant, is_taken, bootstrapped, new_account,
}
use kovcheg.Auth.Repository.Cases.Administrative.{put_renamed}
use kovcheg.Auth.Repository.Calls.{Call, run}
use kovcheg.Auth.Repository.Closure.{IsClosed, Any, AllIssueAny, run-closed}
use kovcheg.Auth.Repository.Invariants.WellFormed.{IsWellFormed, IsWellFormed-closed}

-- Each account is found by its address, and each address in the index is that of its account.
pub record IsIndex (by_email : Dict Text) (accounts : Dict StoredAccount) : Type 0 where
  pub listed :
      (id : Text) (a : StoredAccount) → get id accounts ≡ some a → get a.email by_email ≡ some id
  pub found :
      (email id : Text)
      → get email by_email ≡ some id
      → (a : StoredAccount) × (get id accounts ≡ some a) × (a.email ≡ email)

abbrev pub IsIndexed : Repository → Type 0
IsIndexed r = IsWellFormed r × IsIndex r.accounts_by_email r.accounts_by_id

-- An account is written without a change of its address.
IsIndex-same :
    (by_email : Dict Text) (accounts : Dict StoredAccount) (id : Text) (a a' : StoredAccount)
    → IsIndex by_email accounts
    → get id accounts ≡ some a
    → a'.email ≡ a.email
    → IsIndex by_email (set id a' accounts)
IsIndex-same by_email accounts id a a' h e same = record {
  listed = λ j b f. elim (text_discrete j id) [
    | yes this ↦ ground (arith, get-set j id a' accounts, h.listed id a e)
    | no other ↦ h.listed j b (ground (arith, get-set j id a' accounts))
  ];
  found = λ email j f.
      let (b, f', of_email) = h.found email j f in
      elim (text_discrete j id) [
        | yes this ↦ (a', ground (arith, get-set j id a' accounts), ground arith)
        | no other ↦ (b, ground (arith, get-set j id a' accounts), of_email)
      ];
}

-- A new account with a free id and a free address.
IsIndex-new :
    (by_email : Dict Text) (accounts : Dict StoredAccount) (a : StoredAccount)
    → IsIndex by_email accounts
    → get a.user_id accounts ≡ none
    → get a.email by_email ≡ none
    → IsIndex (set a.email a.user_id by_email) (set a.user_id a accounts)
IsIndex-new by_email accounts a h free unused = record {
  listed = λ j b f. elim (text_discrete j a.user_id) [
    | yes this ↦
        ground (arith, get-set j a.user_id a accounts, get-set b.email a.email a.user_id by_email)
    | no other ↦ ground (
      arith,
      get-set j a.user_id a accounts,
      get-set b.email a.email a.user_id by_email,
      h.listed j b,
    )
  ];
  found = λ email j f. elim (text_discrete email a.email) [
    | yes this ↦ (
      a,
      ground (arith, get-set j a.user_id a accounts, get-set email a.email a.user_id by_email),
      sym this,
    )
    | no other ↦
        let (b, f', of_email) =
          h.found email j (ground (arith, get-set email a.email a.user_id by_email)) in
        (b, ground (arith, get-set j a.user_id a accounts), of_email)
  ];
}

-- An account moves to an address that is free or its own.
IsIndex-renamed :
    (by_email : Dict Text) (accounts : Dict StoredAccount) (id email : Text) (a a' : StoredAccount)
    → IsIndex by_email accounts
    → get id accounts ≡ some a
    → a'.email ≡ email
    → ((j : Text) → get email by_email ≡ some j → j ≡ id)
    → IsIndex (set email id (delete a.email by_email)) (set id a' accounts)
IsIndex-renamed by_email accounts id email a a' h e to_email free = record {
  listed = λ j b f. elim (text_discrete j id) [
    | yes this ↦
        ground (arith, get-set j id a' accounts, get-set b.email email id (delete a.email by_email))
    | no other ↦
        let f' : get j accounts ≡ some b = ground (arith, get-set j id a' accounts) in
        let old = h.listed j b f' in
        ground (
          arith,
          get-set b.email email id (delete a.email by_email),
          get-delete b.email a.email by_email,
          h.listed id a e,
          free j,
        )
  ];
  found = λ address j f. elim (text_discrete address email) [
    | yes this ↦ (
      a',
      ground (arith, get-set j id a' accounts, get-set address email id (delete a.email by_email)),
      to_email ∙ sym this,
    )
    | no other ↦
        let f' : get address by_email ≡ some j = ground (
          arith,
          get-set address email id (delete a.email by_email),
          get-delete address a.email by_email,
        ) in
        let moved : address ≢ a.email = λ same. ground (
          arith,
          get-set address email id (delete a.email by_email),
          get-delete address a.email by_email,
        ) in
        let (b, f'', of_email) = h.found address j f' in
        (b, ground (arith, get-set j id a' accounts), of_email)
  ];
}

-- The test of `updateAccountAsAdministrator` leaves an address that is free or the account's own.
is_taken-free :
    (r : Repository) (email id : Text) (a : StoredAccount)
    → IsIndexed r
    → get id r.accounts_by_id ≡ some a
    → is_taken email a r ≡ false
    → (j : Text) → get email r.accounts_by_email ≡ some j
    → j ≡ id
is_taken-free r email id a h e free j f =
    let (b, f', of_email) = h.1.found email j f in
    ground (arith, h.0.accounts j b f', h.0.accounts id a e)

with_grant-email : (g : FunctionalGrant) (a : StoredAccount) → (with_grant g a).email ≡ a.email
unfolding with_grant
with_grant-email g a = ground arith

without_grant-email :
    (g : FunctionalGrant) (a : StoredAccount) → (without_grant g a).email ≡ a.email
unfolding without_grant
without_grant-email g a = refl

IsIndexed-closed : IsClosed Any IsIndexed
IsIndexed-closed = record {
  revoke_session = λ r k now s h e live. (w.revoke_session r k now s h.0 e live, h.1);
  touch_session = λ r k now s h e live. (w.touch_session r k now s h.0 e live, h.1);
  revoke_all = λ r id now h. (w.revoke_all r id now h.0, h.1);
  revoke_one = λ r id session_id now h. (w.revoke_one r id session_id now h.0, h.1);
  open_oidc =
      λ r id a input source h e fresh free. (w.open_oidc r id a input source h.0 e fresh free, h.1);
  open_email =
      λ r id now c a input h e e' free. (w.open_email r id now c a input h.0 e e' free, h.1);
  open_passkey = λ r login p a h found live count e free.
      (w.open_passkey r login p a h.0 found live count e free, h.1);
  issue = λ r challenge email a any h found on. (w.issue r challenge email a any h.0 found on, h.1);
  fail_challenge = λ r id now c h e. (w.fail_challenge r id now c h.0 e, h.1);
  drop_challenge = λ r id now c h e unused. (w.drop_challenge r id now c h.0 e unused, h.1);
  add_passkey = λ r input id a h e free free'. (w.add_passkey r input id a h.0 e free free', h.1);
  bootstrap = λ r input h e e' e'' first.
      (w.bootstrap r input h.0 e e' e'' first, IsIndex-new _ _ (bootstrapped input) h.1 e' e'');
  create_account = λ r name email id h e e'. (
    w.create_account r name email id h.0 e e',
    IsIndex-new _ _ (new_account name email id) h.1 e e',
  );
  activate = λ r id a h e. (w.activate r id a h.0 e, IsIndex-same _ _ id a _ h.1 e refl);
  deactivate =
      λ r id a now h e. (w.deactivate r id a now h.0 e, IsIndex-same _ _ id a _ h.1 e refl);
  reset_access = λ r id now h. (w.reset_access r id now h.0, h.1);
  set_domain =
      λ r id a status h e. (w.set_domain r id a status h.0 e, IsIndex-same _ _ id a _ h.1 e refl);
  rename = λ r id a name email h e free.
      (w.rename r id a name email h.0 e free, renamed r id a name email h e free);
  grant = λ r id a g h e.
      (w.grant r id a g h.0 e, IsIndex-same _ _ id a _ h.1 e (with_grant-email g a));
  ungrant = λ r id a g h e kept.
      (w.ungrant r id a g h.0 e kept, IsIndex-same _ _ id a _ h.1 e (without_grant-email g a));
}
  where
    w : IsClosed Any IsWellFormed
    w = IsWellFormed-closed

    renamed :
        (r : Repository) (id : Text) (a : StoredAccount) (name email : Text)
        → IsIndexed r
        → get id r.accounts_by_id ≡ some a
        → is_taken email a r ≡ false
        → IsIndex
            (put_renamed id name email a r).accounts_by_email
            (put_renamed id name email a r).accounts_by_id
    renamed r id a name email h e free =
        subst
          (λ x.
            IsIndex (set email x (delete a.email r.accounts_by_email))
              (put_renamed id name email a r).accounts_by_id)
          (sym (h.0.accounts id a e))
          (IsIndex-renamed r.accounts_by_email r.accounts_by_id id email a
            (record a { email = email; display_name = name }) h.1 e refl
            (is_taken-free r email id a h e free))

-- From a well-formed repository where they agree, the address index and the accounts agree after every
-- history: an address finds an account that has it, and each account is found by its current address,
-- also after it was changed.
pub run-IsIndexed : (r : Repository) (cs : List Call) → IsIndexed r → IsIndexed (run r cs)
run-IsIndexed r cs = run-closed IsIndexed-closed r cs (AllIssueAny cs)

pub empty-IsIndexed : IsIndexed empty_repository
unfolding get
empty-IsIndexed = (
  record {
    accounts = λ k v e. absurd (ground arith);
    passkeys = λ k v e. absurd (ground arith);
    sessions = λ k v e. absurd (ground arith);
    challenges = λ k v e. absurd (ground arith);
  },
  record { listed = λ id a e. absurd (ground arith); found = λ email id e. absurd (ground arith) },
)

-- From the empty repository no history makes two accounts with one address.
pub addresses_unique :
    (cs : List Call) (i j : Text) (a b : StoredAccount)
    → get i (run empty_repository cs).accounts_by_id ≡ some a
    → get j (run empty_repository cs).accounts_by_id ≡ some b
    → a.email ≡ b.email
    → i ≡ j
addresses_unique cs i j a b e f same =
    let h = run-IsIndexed empty_repository cs empty-IsIndexed in
    ground (arith, h.1.listed i a e, h.1.listed j b f)
