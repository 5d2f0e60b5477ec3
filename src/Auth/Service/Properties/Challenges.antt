-- ===== src/Auth/Service/Properties/Challenges.antt =====
-- What a caller learns from asking for a challenge, what a verified challenge opens, and what a
-- failed delivery leaves.
use kovcheg.Base.{
  Result, ℕ, ◌+◌, min, ◌≡◌, refl, Bool, true, false, List, none, some, ok, arith, result, is_some,
  ◌&&◌, not, after, Bool-cases, Option-cases, Result-cases, inl, inr, subst, subst₂, ap, sym, ◌∙◌,
}
use kovcheg.Text.{Text}
use kovcheg.Dict.{get, get-set_self}
use kovcheg.Auth.Types.{
  SessionPrincipal, RepositoryError, ConsumeChallengeResult, SessionRecordInput, authenticated,
  invalid,
}
use kovcheg.Auth.Repository.State.{
  Repository, StoredSession, StoredAccount, StoredChallenge, session_principal, account_by_email,
  is_active,
}
use kovcheg.Auth.Repository.Sessions.{opened}
use kovcheg.Auth.Repository.Challenges.{
  is_cooling_down, issue_email_challenge, consume_challenge_and_create_session,
  invalidate_challenge,
}
use kovcheg.Auth.Repository.Calls.{Call, run}
use kovcheg.Auth.Repository.Closure.{AllIssueOnly}
use kovcheg.Auth.Repository.Evolution.Challenges.{NotId, run-ChallengeLater}
use kovcheg.Auth.Repository.Invariants.WellFormed.{IsWellFormed}
use kovcheg.Auth.Repository.Properties.OneTimeCodes.{IsSpent, IsSpent-later, spent_refused}
use kovcheg.Auth.Repository.Properties.Validation.{IsInForce, consume_challenge-IsInForce}
use kovcheg.Auth.Service.Policy.{validate_policy}
use kovcheg.Auth.Service.Inputs.{
  EmailSubmission, normalize_email_submission, normalize_rate_limit_dimension, candidate_code,
}
use kovcheg.Auth.Service.World.{World, Dependencies, Service, Delivery}
use kovcheg.Auth.Service.Limits.{consume_rate_limits, consume_neutral_challenge_rate_limits}
use kovcheg.Auth.Service.Sessions.{
  ChallengeRequestInput, ChallengeVerificationInput, AuthenticatedSession, ChallengeDraws,
  SessionDraws, request_email_challenge, issue_and_deliver, verify_email_challenge, finish_delivery,
  request_limits, verify_limits, session_record, session_answer,
}
use kovcheg.Auth.Service.Properties.Limits.{consume_rate_limits-repository, neutral_limits-result}
use kovcheg.Auth.Service.Properties.Errors.{validate_policy-bounds}

module _ {L : Type 0} (d : Dependencies L) where
  -- The answer does not tell whether a message was sent.
  issue_and_deliver-ok :
      (draws : ChallengeDraws) (email : Text) (w : World L)
      → result (issue_and_deliver d draws email w) ≡ ok tt
  unfolding issue_and_deliver issue_email_challenge
  issue_and_deliver-ok draws email w =
      let r = w.repository in
      elim (Option-cases (account_by_email email r)) [
        | inl missing ↦ ground arith
        | inr (a, e) ↦
            elim (Bool-cases (
              is_active a.status
              && not (
                  is_cooling_down (get a.user_id r.latest_challenge_at) draws.now
                    d.policy.challenge.resend_cooldown_ms))) [
                      | inl sent ↦ ground arith
                      | inr kept ↦ ground arith
                    ]
      ]

  abbrev limits : EmailSubmission → Text → Text → ChallengeDraws → Service L Bool
  limits email fingerprint address draws =
      consume_neutral_challenge_rate_limits d
        (request_limits d email.normalized_email fingerprint address) draws.limits_now true

  after_limits :
      (input : ChallengeRequestInput) (draws : ChallengeDraws) (w w' : World L)
      → w.limiter ≡ w'.limiter
      → (email : EmailSubmission) (fingerprint address : Text)
      → normalize_email_submission d.to_lower_case input.email ≡ ok email
      → normalize_rate_limit_dimension input.fingerprint ≡ ok fingerprint
      → normalize_rate_limit_dimension input.network_address ≡ ok address
      → result (request_email_challenge d input draws w)
        ≡ result (request_email_challenge d input draws w')
  unfolding request_email_challenge
  after_limits input draws w w' same email fingerprint address e f g =
      let agree =
        neutral_limits-result d (request_limits d email.normalized_email fingerprint address)
          draws.limits_now true w w' same in
      let v = after (limits email fingerprint address draws w) in
      let v' = after (limits email fingerprint address draws w') in
      elim (Result-cases (result (limits email fingerprint address draws w'))) [
        | inr (x, h) ↦ ground (arith, agree)
        | inl (passed, h) ↦ elim (Bool-cases passed) [
          | inl yes_passed ↦ ground (
            arith,
            agree,
            issue_and_deliver-ok draws email.normalized_email v,
            issue_and_deliver-ok draws email.normalized_email v',
          )
          | inr refused ↦ ground (arith, agree)
        ]
      ]

  -- Asking for a challenge discloses nothing: the answer, be it a response or an error, depends on
  -- the input, the values drawn and the state of the rate limiter alone. It is the same whatever
  -- accounts and challenges the repository holds.
  pub request_discloses_nothing :
      (input : ChallengeRequestInput) (draws : ChallengeDraws) (w w' : World L)
      → w.limiter ≡ w'.limiter
      → result (request_email_challenge d input draws w)
        ≡ result (request_email_challenge d input draws w')
  unfolding request_email_challenge
  request_discloses_nothing input draws w w' same =
      elim (Result-cases (normalize_email_submission d.to_lower_case input.email)) [
        | inr (x, e) ↦ ground arith
        | inl (email, e) ↦ elim (Result-cases (normalize_rate_limit_dimension input.fingerprint)) [
          | inr (x, f) ↦ ground arith
          | inl (fingerprint, f) ↦
              elim (Result-cases (normalize_rate_limit_dimension input.network_address)) [
                | inr (x, g) ↦ ground arith
                | inl (address, g) ↦
                    after_limits input draws w w' same email fingerprint address e f g
              ]
        ]
      ]

  failed-IsSpent :
      (w : World L) (delivery : Delivery) (c : StoredChallenge)
      → get delivery.message.challenge_id w.repository.challenges ≡ some c
      → (c' : StoredChallenge) × (get delivery.message.challenge_id
            (finish_delivery d false delivery w).repository.challenges
          ≡ some c')
        × IsSpent 0 c'
  unfolding finish_delivery invalidate_challenge
  failed-IsSpent w delivery c found = elim (Bool-cases (is_some c.used_at)) [
    | inl used ↦ (c, ground arith, inr (inl used))
    | inr unused ↦
        let c' : StoredChallenge = record c { invalidated_at = some delivery.issued_at } in
        let id = delivery.message.challenge_id in
        (c', ground (arith, get-set_self id c' w.repository.challenges), inl refl)
  ]

  -- A challenge whose delivery failed opens nothing: after the failure, and after any calls that
  -- issue no challenge under its id, no candidate is accepted, and the attempt writes nothing.
  pub failed_delivery_shuts :
      (w : World L) (delivery : Delivery) (cs : List Call) (c : StoredChallenge) (candidate : Text)
      (now : ℕ) (session : SessionRecordInput)
      → get delivery.message.challenge_id w.repository.challenges ≡ some c
      → AllIssueOnly (NotId delivery.message.challenge_id) cs
      → let r = run (finish_delivery d false delivery w).repository cs in
        consume_challenge_and_create_session candidate delivery.message.challenge_id now session r
        ≡ (ok invalid, r)
  failed_delivery_shuts w delivery cs c candidate now session found only =
      let (c', found', spent) = failed-IsSpent w delivery c found in
      let (c'', found'', later) =
        run-ChallengeLater delivery.message.challenge_id _ cs only c' found' in
      spent_refused _ delivery.message.challenge_id candidate now session c'' found''
        (IsSpent-later 0 c' c'' later spent)

module _ {L : Type 0} (d : Dependencies L) (w : World L) (input : ChallengeVerificationInput)
    (draws : SessionDraws) (answer : AuthenticatedSession) where
  -- The call that the service makes on the repository.
  abbrev consumed : Repository → Result RepositoryError ConsumeChallengeResult × Repository
  consumed r =
      consume_challenge_and_create_session
        (d.challenge_code_verifier input.challenge_id (candidate_code input.code))
        input.challenge_id draws.now (session_record d draws) r

  -- An answer comes from an accepted code, and what that left is left.
  record IsVerified (r : Repository) (p : SessionPrincipal) : Type 0 where
    kept : r ≡ w.repository
    accepted : result (consumed r) ≡ ok (authenticated p)
    answered : session_answer d draws p.user_id ≡ answer
    left : (after (verify_email_challenge d input draws w)).repository ≡ after (consumed r)

  verify-IsVerified :
      result (verify_email_challenge d input draws w) ≡ ok answer
      → (r : Repository) × (p : SessionPrincipal) × IsVerified r p
  unfolding verify_email_challenge
  verify-IsVerified e = elim (Result-cases (normalize_rate_limit_dimension input.network_address)) [
    | inr (x, f) ↦ absurd (ground arith)
    | inl (address, f) ↦
        let ls = verify_limits d input.challenge_id address in
        let r = (after (consume_rate_limits d ls draws.limits_now w)).repository in
        elim (Result-cases (result (consume_rate_limits d ls draws.limits_now w))) [
          | inr (x, g) ↦ absurd (ground arith)
          | inl (_, g) ↦ elim (Result-cases (result (consumed r))) [
            | inr (x, k) ↦ absurd (ground arith)
            | inl (invalid, k) ↦ absurd (ground arith)
            | inl (authenticated p, k) ↦ (
              r,
              p,
              record {
                kept = consume_rate_limits-repository d ls draws.limits_now w;
                accepted = k;
                answered = ground arith;
                left = ground arith;
              },
            )
          ]
        ]
  ]

pub same_idle :
    (now absolute idle : ℕ) → min (now + absolute) (now + idle) ≡ now + min idle absolute
same_idle now absolute idle = omega arith

-- What a verified challenge answers is what the repository stored: the token is that of a session in
-- force, with the deadlines, the session id and the account that the answer names. The constructor
-- accepted the policy, and the repository is well formed.
pub verify-opened :
    {L : Type 0} (d : Dependencies L) (w : World L) (input : ChallengeVerificationInput)
    (draws : SessionDraws) (answer : AuthenticatedSession) (delivery_timeout_ms : ℕ)
    → validate_policy d.policy delivery_timeout_ms ≡ ok tt
    → IsWellFormed w.repository
    → result (verify_email_challenge d input draws w) ≡ ok answer
    → (s : StoredSession) × (a : StoredAccount) × IsInForce
        (after (verify_email_challenge d input draws w)).repository
        (d.session_token_verifier answer.session_token)
        draws.now
        s
        a
      × (s.idle_expires_at ≡ answer.idle_expires_at)
      × (s.absolute_expires_at ≡ answer.absolute_expires_at)
      × (s.session_id ≡ answer.session_id)
      × (a.user_id ≡ answer.user_id)
unfolding session_principal
verify-opened d w input draws answer timeout accepted h e =
    let (r, p, verified) = verify-IsVerified d w input draws answer e in
    let bounds = validate_policy-bounds d.policy timeout accepted in
    let stored = session_record d draws in
    let (a, in_force, same) =
      consume_challenge-IsInForce r
        (d.challenge_code_verifier input.challenge_id (candidate_code input.code))
        input.challenge_id draws.now stored p (subst IsWellFormed (sym verified.kept) h)
        (ground (arith, bounds)) (ground (arith, bounds)) verified.accepted in
    (
      opened stored a.user_id draws.now none,
      a,
      subst₂
          (λ q t.
            IsInForce q (d.session_token_verifier t) draws.now
              (opened stored a.user_id draws.now none) a)
          (sym verified.left) (ap (λ x. x.session_token) verified.answered) in_force,
      same_idle draws.now d.policy.session.absolute_lifetime_ms d.policy.session.idle_lifetime_ms
          ∙ ap (λ x. x.idle_expires_at) verified.answered,
      ap (λ x. x.absolute_expires_at) verified.answered,
      ap (λ x. x.session_id) verified.answered,
      ground (arith, same, ap (λ x. x.user_id) verified.answered),
    )
