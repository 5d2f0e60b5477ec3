-- ===== src/Auth/PasskeyService/Logins.antt =====
-- What an authentication that returned has done.
use kovcheg.Base.{
  same_answer, Bool-cases, ℕ, ◌≡◌, refl, sym, ap, ◌∙◌, subst, true, false, not, none, some, List,
  [], ◌∷◌, ok, result, after, arith, bind-ok, ok-err, ◌||◌, inl, inr, Option-cases, Result-cases,
}
use kovcheg.Text.{Text, text_eq, text_eq→eq}
use kovcheg.Text.Bytes.{base64url}
use kovcheg.Dict.{get}
use kovcheg.Auth.Types.{RateLimitDecision, AuthPasskeyCredential}
use kovcheg.Auth.Repository.State.{Repository, StoredPasskey}
use kovcheg.Auth.Repository.Passkeys.{
  CompletePasskeyLoginResult, complete_passkey_login, read_passkey_by_credential_id,
}
use kovcheg.Auth.Service.Limits.{Limit}
use kovcheg.Auth.PasskeyService.World.{
  TakePasskeyCeremonyResult, AuthenticationCeremony, registering, authenticating, found,
  PasskeyRequestContext, PasskeyDependencies, PasskeyWorld, PasskeyMethod,
  PasskeyAuthenticationVerification,
}
use kovcheg.Auth.PasskeyService.Inputs.{
  credential_id, safe_equal, safe_credential_response, client_context_key, authentication_limits,
}
use kovcheg.Auth.PasskeyService.Steps.{
  passkey_answer, consume_passkey_rate_limits, taken, take_authentication, authentication_ceremony,
  limit_decided,
}
use kovcheg.Auth.PasskeyService.Registration.{PasskeyFinishInput}
use kovcheg.Auth.PasskeyService.Authentication.{
  LoginDraws, PasskeyAuthenticationResult, verify_assertion, open_session, finish_authentication,
  login_answer, login_input, expected_assertion,
}

-- A credential is what is stored of a passkey that is not revoked, listed under the bytes of its id.
pub record IsStoredCredential (r : Repository) (bytes : List ℕ) (credential : AuthPasskeyCredential)
    (p : StoredPasskey) : Type 0 where
  pub id : Text
  pub listed : get (base64url bytes) r.passkeys_by_credential_id ≡ some id
  pub stored : get id r.passkeys_by_id ≡ some p
  pub is_live : p.revoked_at ≡ none
  pub public_key : credential.public_key ≡ p.public_key
  pub credential_id : credential.credential_id ≡ p.credential_id
  pub sign_count : credential.sign_count ≡ p.sign_count
  pub owner : credential.account_id ≡ p.account_id

pub read-IsStoredCredential :
    (bytes : List ℕ) (now : ℕ) (r : Repository) (credential : AuthPasskeyCredential)
    → result (read_passkey_by_credential_id bytes now r) ≡ ok (some credential)
    → (p : StoredPasskey) × IsStoredCredential r bytes credential p
unfolding read_passkey_by_credential_id
read-IsStoredCredential bytes now r credential h =
    elim (Option-cases (get (base64url bytes) r.passkeys_by_credential_id)) [
      | inl missing ↦ absurd (ground arith)
      | inr (id, listed) ↦ elim (Option-cases (get id r.passkeys_by_id)) [
        | inl missing ↦ absurd (ground arith)
        | inr (p, stored) ↦ (
          p,
          record {
            id = id;
            listed = listed;
            stored = stored;
            is_live = ground arith;
            public_key = ground arith;
            credential_id = ground arith;
            sign_count = ground arith;
            owner = ground arith;
          },
        )
      ]
    ]

module _ {L C : Type 0} (d : PasskeyDependencies L C) where
  -- The limits leave the repository and the ceremonies.
  record IsLimited (w v : PasskeyWorld L C) : Type 0 where
    repository : v.repository ≡ w.repository
    ceremonies : v.ceremonies ≡ w.ceremonies

  limits-IsLimited :
      (w : PasskeyWorld L C) (ls : List Limit) (now : ℕ) (v : PasskeyWorld L C)
      → IsLimited w v
      → IsLimited w (after (consume_passkey_rate_limits d ls now v))
  unfolding consume_passkey_rate_limits
  limits-IsLimited w [] now v p = p
  limits-IsLimited w (l ∷ ls) now v p =
      decided-IsLimited _ _ (λ u q. limits-IsLimited w ls now u q) _
        (record { repository = p.repository; ceremonies = p.ceremonies })
    where
      decided-IsLimited :
          (a : RateLimitDecision) (rest : PasskeyMethod L C (Unit {0}))
          → ((u : PasskeyWorld L C) → IsLimited w u → IsLimited w (after (rest u)))
          → (u : PasskeyWorld L C) → IsLimited w u
          → IsLimited w (after (limit_decided a rest u))
      decided-IsLimited RateLimitDecision.allowed rest k u q = k u q
      decided-IsLimited RateLimitDecision.limited rest k u q = q
      decided-IsLimited RateLimitDecision.unavailable rest k u q = q

  ceremony-found :
      (a : TakePasskeyCeremonyResult) (w : PasskeyWorld L C) (c : AuthenticationCeremony)
      → result (authentication_ceremony a w) ≡ ok c
      → (a ≡ found (authenticating c)) × (after (authentication_ceremony a w) ≡ w)
  ceremony-found TakePasskeyCeremonyResult.unavailable w c h = absurd (ok-err c _ (sym h))
  ceremony-found TakePasskeyCeremonyResult.missing w c h = absurd (ok-err c _ (sym h))
  ceremony-found (found (registering a)) w c h = absurd (ok-err c _ (sym h))
  ceremony-found (found (authenticating a)) w c h =
      (ap (λ b. found (authenticating b)) (same_answer a c h), refl)

  read-same :
      (bytes : List ℕ) (now : ℕ) (r : Repository)
      → after (read_passkey_by_credential_id bytes now r) ≡ r
  unfolding read_passkey_by_credential_id
  read-same bytes now r = ground arith

  -- A ceremony that was taken.
  take-found :
      (id : Text) (w : PasskeyWorld L C) (c : AuthenticationCeremony)
      → result (take_authentication d id w) ≡ ok c
      → ((d.ceremony_store.take id w.ceremonies).0 ≡ found (authenticating c))
        × (after (take_authentication d id w)
            ≡ record w { ceremonies = (d.ceremony_store.take id w.ceremonies).1 })
  unfolding take_authentication
  take-found id w c h =
      let (a, e, k, l) = bind-ok (taken d id) authentication_ceremony w c h in
      let store = (d.ceremony_store.take id w.ceremonies).1 in
      let (f, g) =
        ceremony-found (d.ceremony_store.take id w.ceremonies).0 (record w { ceremonies = store }) c
          h in
      (f, g)

  -- What the assertion of a login showed.
  pub record IsAssertion (input : PasskeyFinishInput) (draws : LoginDraws)
      (c : AuthenticationCeremony) (w : PasskeyWorld L C) (credential : AuthPasskeyCredential)
      (verified : PasskeyAuthenticationVerification) : Type 0 where
    pub bytes : List ℕ
    pub decoded : credential_id input.response.id ≡ some bytes
    pub listed :
        result (read_passkey_by_credential_id bytes draws.now w.repository) ≡ ok (some credential)
    pub accepted :
        d.webauthn.verify_authentication credential (expected_assertion d c input) ≡ some verified
    pub user_verified : verified.user_verified ≡ true

  assertion-IsAssertion :
      (input : PasskeyFinishInput) (draws : LoginDraws) (c : AuthenticationCeremony)
      (w : PasskeyWorld L C) (credential : AuthPasskeyCredential)
      (verified : PasskeyAuthenticationVerification)
      → result (verify_assertion d input draws c w) ≡ ok (credential, verified)
      → IsAssertion input draws c w credential verified
        × (after (verify_assertion d input draws c w) ≡ w)
  unfolding verify_assertion
  assertion-IsAssertion input draws c w credential verified h =
      elim (Option-cases (credential_id input.response.id)) [
        | inl missing ↦ absurd (ground arith)
        | inr (bytes, decoded) ↦
            let r = w.repository in
            elim (Result-cases (result (read_passkey_by_credential_id bytes draws.now r))) [
              | inr (x, e) ↦ absurd (ground arith)
              | inl (none, e) ↦ absurd (ground arith)
              | inl (some found_credential, e) ↦
                  elim (Option-cases (
                    d.webauthn.verify_authentication found_credential
                      (expected_assertion d c input))) [
                        | inl rejected ↦ absurd (ground arith)
                        | inr (v, accepted) ↦ elim (Bool-cases v.user_verified) [
                          | inr unverified ↦ absurd (ground arith)
                          | inl user_verified ↦ (
                            record {
                              bytes = bytes;
                              decoded = decoded;
                              listed = ground arith;
                              accepted = ground arith;
                              user_verified = ground arith;
                            },
                            ground (arith, read-same bytes draws.now r),
                          )
                        ]
                      ]
            ]
      ]

  -- What the repository answered to a login.
  pub record IsCompleted (draws : LoginDraws) (credential : AuthPasskeyCredential)
      (verified : PasskeyAuthenticationVerification) (w : PasskeyWorld L C)
      (x : PasskeyAuthenticationResult) : Type 0 where
    pub completed : CompletePasskeyLoginResult
    pub accepted :
        result (complete_passkey_login (login_input d credential verified draws) w.repository)
        ≡ ok (some completed)
    pub answered : login_answer d draws completed ≡ x
    pub owner : completed.account_id ≡ credential.account_id
    pub left : after (open_session d draws (credential, verified) w) ≡ record w {
      repository =
          after (complete_passkey_login (login_input d credential verified draws) w.repository);
    }

  session-IsCompleted :
      (draws : LoginDraws) (credential : AuthPasskeyCredential)
      (verified : PasskeyAuthenticationVerification) (w : PasskeyWorld L C)
      (x : PasskeyAuthenticationResult)
      → result (open_session d draws (credential, verified) w) ≡ ok x
      → IsCompleted draws credential verified w x
  unfolding open_session passkey_answer
  session-IsCompleted draws credential verified w x h =
      let login = login_input d credential verified draws in
      elim (Result-cases (result (complete_passkey_login login w.repository))) [
        | inr (e, k) ↦ absurd (ground arith)
        | inl (none, k) ↦ absurd (ground arith)
        | inl (some completed, k) ↦
            elim (Bool-cases (
              not (text_eq completed.account_id credential.account_id)
              || not (text_eq completed.session_id draws.session_id))) [
                | inl other ↦ absurd (ground arith)
                | inr same ↦ record {
                  completed = completed;
                  accepted = k;
                  answered = ground arith;
                  owner = text_eq→eq completed.account_id credential.account_id (ground arith);
                  left = ground arith;
                }
              ]
      ]

  -- What an authentication that returned has done.
  pub record IsLogin (input : PasskeyFinishInput) (context : PasskeyRequestContext)
      (draws : LoginDraws) (w : PasskeyWorld L C) (x : PasskeyAuthenticationResult) : Type 0 where
    pub ceremony : AuthenticationCeremony
    pub key : Text
    pub credential : AuthPasskeyCredential
    pub verified : PasskeyAuthenticationVerification
    pub last : PasskeyWorld L C
    pub pending :
        (d.ceremony_store.take input.ceremony_id w.ceremonies).0 ≡ found (authenticating ceremony)
    pub keyed : client_context_key d context ≡ ok key
    pub same_client : safe_equal ceremony.client_context_key key ≡ true
    pub same_repository : last.repository ≡ w.repository
    pub taken_from : last.ceremonies ≡ (d.ceremony_store.take input.ceremony_id w.ceremonies).1
    pub assertion : IsAssertion input draws ceremony last credential verified
    pub completed : IsCompleted draws credential verified last x
    pub left :
        after (finish_authentication d input context draws w)
        ≡ after (open_session d draws (credential, verified) last)

  pub finish-IsLogin :
      (input : PasskeyFinishInput) (context : PasskeyRequestContext) (draws : LoginDraws)
      (w : PasskeyWorld L C) (x : PasskeyAuthenticationResult)
      → result (finish_authentication d input context draws w) ≡ ok x
      → IsLogin input context draws w x
  unfolding finish_authentication
  finish-IsLogin input context draws w x h =
      elim (Bool-cases (safe_credential_response input.response)) [
        | inr unsafe ↦ absurd (ground arith)
        | inl safe ↦ elim (Result-cases (authentication_limits d false context)) [
          | inr (e, k) ↦ absurd (ground arith)
          | inl (limits, k1) ↦
              let m2 = consume_passkey_rate_limits d limits draws.limits_now in
              let v = after (m2 w) in
              let within =
                limits-IsLimited w limits draws.limits_now w
                  (record { repository = refl; ceremonies = refl }) in
              elim (Result-cases (result (m2 w))) [
                | inr (e, k) ↦ absurd (ground arith)
                | inl (_, k2) ↦
                    elim (Result-cases (result (take_authentication d input.ceremony_id v))) [
                      | inr (e, k) ↦ absurd (ground arith)
                      | inl (ceremony, k3) ↦
                          let u = after (take_authentication d input.ceremony_id v) in
                          let (pending, emptied) = take-found input.ceremony_id v ceremony k3 in
                          elim (Result-cases (client_context_key d context)) [
                            | inr (e, k) ↦ absurd (ground arith)
                            | inl (key, k4) ↦
                                elim (Bool-cases (safe_equal ceremony.client_context_key key)) [
                                  | inr other ↦ absurd (ground arith)
                                  | inl same_client ↦
                                      elim (Result-cases
                                        (result (verify_assertion d input draws ceremony u))) [
                                          | inr (e, k) ↦ absurd (ground arith)
                                          | inl ((credential, verified), k5) ↦
                                              let (assertion, still) =
                                                assertion-IsAssertion input draws ceremony u
                                                  credential verified k5 in
                                              let rest =
                                                open_session d draws (credential, verified) in
                                              let opens : result (
                                                    rest (
                                                      after (
                                                        verify_assertion d input draws ceremony u)))
                                                  ≡ ok x =
                                                ground arith in
                                              let ends : after
                                                    (finish_authentication d input context draws w)
                                                  ≡ after (
                                                      rest (
                                                        after (
                                                          verify_assertion d input draws ceremony
                                                            u))) =
                                                ground arith in
                                              record {
                                                ceremony = ceremony;
                                                key = key;
                                                credential = credential;
                                                verified = verified;
                                                last = u;
                                                pending =
                                                    subst
                                                      (λ c.
                                                        (d.ceremony_store.take input.ceremony_id
                                                          c).0
                                                        ≡ found (authenticating ceremony))
                                                      within.ceremonies pending;
                                                keyed = k4;
                                                same_client = same_client;
                                                same_repository =
                                                    ap (λ z. z.repository) emptied
                                                    ∙ within.repository;
                                                taken_from =
                                                    ap (λ z. z.ceremonies) emptied
                                                    ∙ ap
                                                        (λ c.
                                                          (d.ceremony_store.take input.ceremony_id
                                                            c).1)
                                                        within.ceremonies;
                                                assertion = assertion;
                                                completed =
                                                    session-IsCompleted draws credential verified u
                                                      x
                                                      (subst (λ z. result (rest z) ≡ ok x) still
                                                        opens);
                                                left = ends ∙ ap (λ z. after (rest z)) still;
                                              }
                                        ]
                                ]
                          ]
                    ]
              ]
        ]
      ]
