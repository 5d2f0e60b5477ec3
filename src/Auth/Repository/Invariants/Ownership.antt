-- ===== src/Auth/Repository/Invariants/Ownership.antt =====
-- There is one server owner at most, the bootstrapped account, and it stays a platform
-- administrator.
use kovcheg.Base.{◌≡◌, refl, sym, some, arith, List, [], ◌∷◌, true, false, ◌&&◌, ◌∙◌}
use kovcheg.Text.{Text}
use kovcheg.Dict.{Dict, get, set}
use kovcheg.Dict.Evolution.{AllValues, AllValues-set}
use kovcheg.Auth.Types.{
  platform_administrator, BootstrapAdministratorInput, deactivated, FunctionalGrant-discrete,
}
use kovcheg.Auth.Repository.State.{StoredAccount, Repository, includes_grant, empty_repository}
use kovcheg.Auth.Repository.Administration.{bootstrapped, new_account, is_nonempty}
use kovcheg.Auth.Repository.Calls.{Call, run}
use kovcheg.Auth.Repository.Closure.{IsClosed, Any, AllIssueAny, run-closed}
use kovcheg.Auth.Repository.Evolution.Relations.{AccountLater}
use kovcheg.Auth.Repository.Evolution.Writes.{with_grant-later, without_grant-later}

-- An owner is the one bootstrapped account, and a platform administrator.
abbrev pub OwnerBound : Dict Text → Text → StoredAccount → Type 0
OwnerBound bootstraps id a =
    a.is_server_owner ≡ true
    → (b : Text) × (bootstraps ≡ (b, id) ∷ [])
      × (includes_grant platform_administrator a.functional_grants ≡ true)

pub record HasOneOwner (r : Repository) : Type 0 where
  pub owners : AllValues (OwnerBound r.bootstrap_accounts) r.accounts_by_id
  pub founded : is_nonempty r.bootstrap_accounts ≡ true → is_nonempty r.accounts_by_id ≡ true

is_nonempty-set : {V : Type 0} (k : Text) (v : V) (d : Dict V) → is_nonempty (set k v d) ≡ true
unfolding set
is_nonempty-set k v [] = refl
is_nonempty-set k v ((j, w) ∷ d) = ground arith

OwnerBound-later :
    (bootstraps : Dict Text) (id : Text) (a a' : StoredAccount)
    → AccountLater a a'
    → OwnerBound bootstraps id a
    → OwnerBound bootstraps id a'
OwnerBound-later bootstraps id a a' later bound owns =
    let owned : a.is_server_owner ≡ true = sym later.same_owner ∙ owns in
    let (b, only, granted) = bound owned in (b, only, later.owner_stays owned granted)

account_later :
    (r : Repository) (id : Text) (a a' : StoredAccount) (e : Dict Text)
    → HasOneOwner r
    → get id r.accounts_by_id ≡ some a
    → AccountLater a a'
    → HasOneOwner (record r { accounts_by_email = e; accounts_by_id = set id a' r.accounts_by_id })
account_later r id a a' e h found later = record {
  owners =
      AllValues-set (OwnerBound r.bootstrap_accounts) id a' r.accounts_by_id
        (OwnerBound-later r.bootstrap_accounts id a a' later (h.owners id a found)) h.owners;
  founded = λ some_bootstrap. is_nonempty-set id a' r.accounts_by_id;
}

bootstrap-HasOneOwner :
    (r : Repository) (input : BootstrapAdministratorInput) (e : Dict Text) (bootstraps : Dict Text)
    → bootstraps ≡ r.bootstrap_accounts
    → HasOneOwner r
    → (is_nonempty r.accounts_by_id && is_nonempty bootstraps) ≡ false
    → HasOneOwner (record r {
      accounts_by_email = e;
      accounts_by_id = set input.user_id (bootstrapped input) r.accounts_by_id;
      bootstrap_accounts = set input.bootstrap_id input.user_id bootstraps;
    })
unfolding set includes_grant FunctionalGrant-discrete
bootstrap-HasOneOwner r input e [] same h first = record {
  owners =
      AllValues-set (OwnerBound ((input.bootstrap_id, input.user_id) ∷ [])) input.user_id
        (bootstrapped input) r.accounts_by_id (λ owns. (input.bootstrap_id, refl, refl))
        (λ k a found owns.
          let (b, only, granted) = h.owners k a found owns in absurd (ground arith));
  founded = λ some_bootstrap. is_nonempty-set input.user_id (bootstrapped input) r.accounts_by_id;
}
bootstrap-HasOneOwner r input e (x ∷ d) same h first =
    let founded : is_nonempty r.accounts_by_id ≡ true = h.founded (ground arith) in
    absurd (ground arith)

HasOneOwner-closed : IsClosed Any HasOneOwner
HasOneOwner-closed = record {
  revoke_session = λ r k now s h e live. record { owners = h.owners; founded = h.founded };
  touch_session = λ r k now s h e live. record { owners = h.owners; founded = h.founded };
  revoke_all = λ r id now h. record { owners = h.owners; founded = h.founded };
  revoke_one = λ r id session_id now h. record { owners = h.owners; founded = h.founded };
  open_oidc =
      λ r id a input source h e fresh free. record { owners = h.owners; founded = h.founded };
  open_email = λ r id now c a input h e e' free. record { owners = h.owners; founded = h.founded };
  open_passkey =
      λ r login p a h found live count e free. record { owners = h.owners; founded = h.founded };
  issue = λ r challenge email a any h found on. record { owners = h.owners; founded = h.founded };
  fail_challenge = λ r id now c h e. record { owners = h.owners; founded = h.founded };
  drop_challenge = λ r id now c h e unused. record { owners = h.owners; founded = h.founded };
  add_passkey = λ r input id a h e free free'. record { owners = h.owners; founded = h.founded };
  bootstrap =
      λ r input h e e' e'' first. bootstrap-HasOneOwner r input _ r.bootstrap_accounts refl h first;
  create_account = λ r name email id h e e'. record {
    owners =
        AllValues-set (OwnerBound r.bootstrap_accounts) id (new_account name email id)
          r.accounts_by_id (λ owns. absurd (ground arith)) h.owners;
    founded = λ some_bootstrap. is_nonempty-set id (new_account name email id) r.accounts_by_id;
  };
  activate = λ r id a h e. account_later r id a _ _ h e (ground arith);
  deactivate = λ r id a now h e.
      let h' =
        account_later r id a (record a { status = deactivated }) r.accounts_by_email h e
          (ground arith) in
      record { owners = h'.owners; founded = h'.founded };
  reset_access = λ r id now h. record { owners = h.owners; founded = h.founded };
  set_domain = λ r id a status h e. account_later r id a _ _ h e (ground arith);
  rename = λ r id a name email h e free. account_later r id a _ _ h e (ground arith);
  grant = λ r id a g h e. account_later r id a _ _ h e (with_grant-later g a);
  ungrant = λ r id a g h e kept. account_later r id a _ _ h e (without_grant-later g a kept);
}

pub empty-HasOneOwner : HasOneOwner empty_repository
unfolding get
empty-HasOneOwner = record {
  owners = λ k a e. absurd (ground arith);
  founded = λ h. absurd (ground arith);
}

-- From the empty repository no history makes two server owners; and the one there may be, whatever
-- anybody does to its account, has the platform administrator grant.
pub server_owner_unique :
    (cs : List Call) (i j : Text) (a b : StoredAccount)
    → get i (run empty_repository cs).accounts_by_id ≡ some a
    → get j (run empty_repository cs).accounts_by_id ≡ some b
    → a.is_server_owner ≡ true
    → b.is_server_owner ≡ true
    → (i ≡ j) × (includes_grant platform_administrator a.functional_grants ≡ true)
server_owner_unique cs i j a b e f owns_a owns_b =
    let h = run-closed HasOneOwner-closed empty_repository cs (AllIssueAny cs) empty-HasOneOwner in
    let (x, only_a, granted) = h.owners i a e owns_a in
    let (y, only_b, granted') = h.owners j b f owns_b in (ground arith, granted)
