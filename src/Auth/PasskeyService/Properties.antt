-- ===== src/Auth/PasskeyService/Properties.antt =====
-- What the callers of the passkey service rely on.
use kovcheg.Base.{
  ℕ, ◌<◌, ◌≡◌, ◌≢◌, sym, ap, ◌∙◌, subst, subst₂, true, Option, none, some, List, ok, result, after,
  arith,
}
use kovcheg.Text.{Text}
use kovcheg.Auth.Types.{AuthPasskeyCredential}
use kovcheg.Auth.Repository.State.{StoredAccount, StoredPasskey}
use kovcheg.Auth.Repository.Sessions.{opened}
use kovcheg.Auth.Repository.Passkeys.{complete_passkey_login, read_passkey_by_credential_id}
use kovcheg.Auth.Repository.Invariants.WellFormed.{IsWellFormed}
use kovcheg.Auth.Repository.Properties.Validation.{IsInForce}
use kovcheg.Auth.Repository.Properties.PasskeyLogins.{passkey_login-IsInForce}
use kovcheg.Auth.Service.Properties.Challenges.{same_idle}
use kovcheg.Auth.PasskeyService.World.{
  PasskeyCeremonyState, authenticating, found, AuthenticationCeremony, PasskeyRequestContext,
  PasskeyDependencies, PasskeyWorld, PasskeyAuthenticationVerification,
}
use kovcheg.Auth.PasskeyService.Inputs.{credential_id}
use kovcheg.Auth.PasskeyService.Registration.{PasskeyFinishInput}
use kovcheg.Auth.PasskeyService.Authentication.{
  LoginDraws, PasskeyAuthenticationResult, finish_authentication, expected_assertion, login_session,
  login_input,
}
use kovcheg.Auth.PasskeyService.Ceremonies.{
  IsCeremonyStore, PasskeyCall, AllBeginOther, run_passkeys,
}
use kovcheg.Auth.PasskeyService.Ceremonies.Methods.{run_passkeys-IsGone}
use kovcheg.Auth.PasskeyService.Logins.{finish-IsLogin, IsStoredCredential, read-IsStoredCredential}

-- A ceremony serves one authentication: after one that returned, and after any calls of the passkey
-- service that begin no ceremony under the same id, no authentication with that ceremony returns,
-- whatever its response, client and draws are. The ceremony store keeps its promise.
pub ceremony_single_use :
    {L C : Type 0} (d : PasskeyDependencies L C) (content : Text → C → Option PasskeyCeremonyState)
    (w : PasskeyWorld L C) (input input' : PasskeyFinishInput)
    (context context' : PasskeyRequestContext) (draws draws' : LoginDraws)
    (calls : List PasskeyCall) (x y : PasskeyAuthenticationResult)
    → IsCeremonyStore d.ceremony_store content
    → result (finish_authentication d input context draws w) ≡ ok x
    → AllBeginOther input.ceremony_id calls
    → input'.ceremony_id ≡ input.ceremony_id
    → result (
        finish_authentication d input' context' draws'
          (run_passkeys d (after (finish_authentication d input context draws w)) calls))
      ≢ ok y
ceremony_single_use d content w input input' context context' draws draws' calls x y laws h others
      same again =
    let id = input.ceremony_id in
    let first = finish-IsLogin d input context draws w x h in
    let v = after (finish_authentication d input context draws w) in
    let left : v.ceremonies ≡ (d.ceremony_store.take id w.ceremonies).1 =
      ap (λ z. z.ceremonies) (first.left ∙ first.completed.left) ∙ first.taken_from in
    let gone : content id v.ceremonies ≡ none =
      ap (content id) left
      ∙ laws.take-gone id w.ceremonies (authenticating first.ceremony) first.pending in
    let later = run_passkeys d v calls in
    let still = run_passkeys-IsGone d content laws id v calls others gone in
    let second = finish-IsLogin d input' context' draws' later y again in
    let there =
      laws.take-found input'.ceremony_id later.ceremonies (authenticating second.ceremony)
        second.pending in
    let here =
      subst (λ k. content k later.ceremonies ≡ some (authenticating second.ceremony)) same there in
    absurd (ground (arith, still, here))

-- An authentication that returned has opened what it answers: its token is that of a session in force,
-- with the deadlines that the answer names, for the account that it names. The response names by its id
-- a passkey of that account which is stored and not revoked, and the WebAuthn library has verified the
-- user by this passkey's stored public key and counter, against the challenge of the ceremony. The
-- repository is well formed, and the lifetimes of the policy are positive.
pub finish_authentication-IsInForce :
    {L C : Type 0} (d : PasskeyDependencies L C) (w : PasskeyWorld L C) (input : PasskeyFinishInput)
    (context : PasskeyRequestContext) (draws : LoginDraws) (x : PasskeyAuthenticationResult)
    → IsWellFormed w.repository
    → 0 < d.policy.session.absolute_lifetime_ms
    → 0 < d.policy.session.idle_lifetime_ms
    → result (finish_authentication d input context draws w) ≡ ok x
    → let s = opened (login_session d draws) x.user_id draws.now none in
      (a : StoredAccount) × (c : AuthenticationCeremony) × (bytes : List ℕ)
      × (credential : AuthPasskeyCredential) × (p : StoredPasskey)
      × (verified : PasskeyAuthenticationVerification) × (credential_id input.response.id
          ≡ some bytes)
      × IsStoredCredential w.repository bytes credential p
      × IsInForce
          (after (finish_authentication d input context draws w)).repository
          (d.session_token_verifier x.session_token)
          draws.now
          s
          a
      × (s.idle_expires_at ≡ x.idle_expires_at)
      × (s.absolute_expires_at ≡ x.absolute_expires_at)
      × (credential.account_id ≡ x.user_id)
      × ((d.ceremony_store.take input.ceremony_id w.ceremonies).0 ≡ found (authenticating c))
      × (d.webauthn.verify_authentication credential (expected_assertion d c input) ≡ some verified)
      × (verified.user_verified ≡ true)
finish_authentication-IsInForce d w input context draws x h absolute idle e =
    let first = finish-IsLogin d input context draws w x e in
    let done = first.completed in
    let login = login_input d first.credential first.verified draws in
    let (id, p, a, used, in_force, counter) =
      passkey_login-IsInForce first.last.repository login done.completed
        (subst IsWellFormed (sym first.same_repository) h) (omega (arith, absolute)) idle
        done.accepted in
    let (stored, is_stored) =
      read-IsStoredCredential first.assertion.bytes draws.now w.repository first.credential (
        subst
          (λ r.
            result (read_passkey_by_credential_id first.assertion.bytes draws.now r)
            ≡ ok (some first.credential))
          first.same_repository first.assertion.listed) in
    let token = ap (λ z. z.session_token) done.answered in
    let user = ap (λ z. z.user_id) done.answered in
    let repository = ap (λ z. z.repository) (first.left ∙ done.left) in
    let session = λ (account_id : Text). opened (login_session d draws) account_id draws.now none in
    (
      a,
      first.ceremony,
      first.assertion.bytes,
      first.credential,
      stored,
      first.verified,
      first.assertion.decoded,
      is_stored,
      subst
          (λ r.
            IsInForce r (d.session_token_verifier x.session_token) draws.now (session x.user_id) a)
          (sym repository)
          (subst₂
            (λ t u.
              IsInForce (after (complete_passkey_login login first.last.repository))
                (d.session_token_verifier t) draws.now (session u) a)
            token user in_force),
      same_idle draws.now d.policy.session.absolute_lifetime_ms d.policy.session.idle_lifetime_ms
          ∙ ap (λ z. z.idle_expires_at) done.answered,
      ap (λ z. z.absolute_expires_at) done.answered,
      sym done.owner ∙ user,
      first.pending,
      first.assertion.accepted,
      first.assertion.user_verified,
    )
