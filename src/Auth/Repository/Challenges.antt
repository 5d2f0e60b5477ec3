-- ===== src/Auth/Repository/Challenges.antt =====
-- The e-mail challenge methods of `LocalAuthRepository`.
use kovcheg.Base.{
  ℕ, ◌+◌, Bool, false, ◌||◌, not, Option, none, some, if◌then◌else◌, is_some, ltb, leb, ok, err,
}
use kovcheg.Text.{Text}
use kovcheg.Dict.{get, has, set, update_values}
use kovcheg.Auth.Types.{
  ChallengeRecordInput, SessionRecordInput, IssueChallengeResult, issued, neutral,
  ConsumeChallengeResult, authenticated, invalid, conflict,
}
use kovcheg.Auth.Repository.State.{
  StoredChallenge, Repository, Method, is_active, account_by_email, session_principal,
  safe_verifier_equal,
}
use kovcheg.Auth.Repository.Administration.{
  put_session, is_live_challenge_of, invalidate_challenge_if,
}
use kovcheg.Auth.Repository.Sessions.{opened}

abbrev pub put_challenge : Text → StoredChallenge → Repository → Repository
put_challenge challenge_id challenge r = record r {
  challenges = set challenge_id challenge r.challenges;
}

abbrev pub new_challenge : ChallengeRecordInput → Text → StoredChallenge
new_challenge input account_id = record {
  input = input;
  account_id = account_id;
  attempts = 0;
  invalidated_at = none;
  used_at = none;
}

-- `lastIssuedAt !== undefined && issuedAt - lastIssuedAt < resendCooldownMs`, with the subtraction
-- on the other side
abbrev pub is_cooling_down : Option ℕ → ℕ → ℕ → Bool
is_cooling_down none issued_at cooldown = false
is_cooling_down (some last_issued_at) issued_at cooldown = ltb issued_at (cooldown + last_issued_at)

unfoldable pub issue_email_challenge : ChallengeRecordInput → Text → ℕ → Method IssueChallengeResult
issue_email_challenge challenge email resend_cooldown_ms r = elim (account_by_email email r) [
  | none ↦ (ok neutral, r)
  | some account ↦
      if not (is_active account.status)
      then (ok neutral, r)
      else if is_cooling_down (get account.user_id r.latest_challenge_at) challenge.issued_at
          resend_cooldown_ms
      then (ok neutral, r)
      else (
        ok (issued challenge.challenge_id account.email),
        record r {
          challenges = set challenge.challenge_id (new_challenge challenge account.user_id) (
              update_values
                (invalidate_challenge_if (is_live_challenge_of account.user_id) challenge.issued_at)
                r.challenges);
          latest_challenge_at = set account.user_id challenge.issued_at r.latest_challenge_at;
        },
      )
]

unfoldable pub consume_challenge_and_create_session :
    Text → Text → ℕ → SessionRecordInput → Method ConsumeChallengeResult
consume_challenge_and_create_session candidate_code_verifier challenge_id now input r =
    elim (get challenge_id r.challenges) [
      | none ↦ (ok invalid, r)
      | some challenge ↦
          if is_some challenge.invalidated_at
            || is_some challenge.used_at
            || leb challenge.expires_at now
            || leb challenge.max_attempts challenge.attempts
          then (ok invalid, r)
          else if not (safe_verifier_equal challenge.code_verifier candidate_code_verifier)
          then (
            ok invalid,
            put_challenge challenge_id (record challenge { attempts = challenge.attempts + 1 }) r,
          )
          else elim (get challenge.account_id r.accounts_by_id) [
            | none ↦ (
              ok invalid,
              put_challenge challenge_id (record challenge { invalidated_at = some now }) r,
            )
            | some account ↦
                if not (is_active account.status)
                then (
                  ok invalid,
                  put_challenge challenge_id (record challenge { invalidated_at = some now }) r,
                )
                else if has input.token_verifier r.sessions_by_verifier
                then (err conflict, r)
                else (
                  ok (
                      authenticated (
                        session_principal account
                          (opened input account.user_id input.issued_at none))),
                  put_session input.token_verifier
                      (opened input account.user_id input.issued_at none)
                      (put_challenge challenge_id (record challenge { used_at = some now }) r),
                )
          ]
    ]

unfoldable pub invalidate_challenge : Text → ℕ → Method (Unit {0})
invalidate_challenge challenge_id now r = elim (get challenge_id r.challenges) [
  | none ↦ (ok tt, r)
  | some challenge ↦
      if is_some challenge.used_at
      then (ok tt, r)
      else (ok tt, put_challenge challenge_id (record challenge { invalidated_at = some now }) r)
]
