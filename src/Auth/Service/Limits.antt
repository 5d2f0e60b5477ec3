-- ===== src/Auth/Service/Limits.antt =====
-- The rate limits of the service, and the delay of its neutral answers.
use kovcheg.Base.{
  ℕ, ◌-◌, ◌*◌, ◌/◌, ◌%◌, ◌==◌, ◌||◌, ltb, Bool, false, List, [], ◌∷◌, ok, err, if◌then◌else◌,
}
use kovcheg.Text.{Text}
use kovcheg.Auth.Types.{RateLimitRule, allowed, limited, unavailable}
use kovcheg.Auth.RateLimiter.{LimitCall}
use kovcheg.Auth.Service.Policy.{AuthErrorCode, auth}
use kovcheg.Auth.Service.World.{Dependencies, Service}

pub record Limit : Type 0 where
  pub key : Text
  pub rule : RateLimitRule

abbrev pub limit_call : Limit → ℕ → LimitCall
limit_call l now = record { key = l.key; now = now; rule = l.rule }

module _ {L : Type 0} (d : Dependencies L) where
  -- The first limit that does not let the attempt through ends the loop.
  unfoldable pub consume_rate_limits : List Limit → ℕ → Service L (Unit {0})
  consume_rate_limits [] now w = (ok tt, w)
  consume_rate_limits (l ∷ ls) now w =
      let (decision, state) = d.consume (limit_call l now) w.limiter in
      let w' = record w { limiter = state } in
      let rest = consume_rate_limits ls now w' in
      elim decision [
        | allowed ↦ rest
        | limited ↦ (err (auth AuthErrorCode.rate_limited), w')
        | unavailable ↦ (err (auth AuthErrorCode.unavailable), w')
      ]

  -- The loop goes on after a limit that is used up; an unavailable limiter ends it.
  unfoldable pub consume_neutral_challenge_rate_limits : List Limit → ℕ → Bool → Service L Bool
  consume_neutral_challenge_rate_limits [] now passed w = (ok passed, w)
  consume_neutral_challenge_rate_limits (l ∷ ls) now passed w =
      let (decision, state) = d.consume (limit_call l now) w.limiter in
      let w' = record w { limiter = state } in
      let rest = consume_neutral_challenge_rate_limits ls now passed w' in
      let refused = consume_neutral_challenge_rate_limits ls now false w' in
      elim decision [
        | allowed ↦ rest
        | limited ↦ refused
        | unavailable ↦ (err (auth AuthErrorCode.unavailable), w')
      ]

-- `waitForNeutralResponseEnvelope`: the delay, from the time that has passed. A time of
-- `performance.now()` is a fraction of a millisecond: it is counted in ticks, of which a millisecond has
-- as many as the clock resolves. The bucket is in milliseconds. Times are exact here, not rounded to
-- the precision of a double.
unfoldable pub neutral_delay : ℕ → ℕ → ℕ → ℕ
neutral_delay ticks_per_ms bucket_ms elapsed =
    let bucket = bucket_ms * ticks_per_ms in
    let remainder = elapsed % bucket in if remainder == 0 then bucket else bucket - remainder

-- The milliseconds that `setTimeout` of Node.js waits for a delay: the delay is truncated, and is one
-- millisecond where it is shorter or over the largest, 2 ^ 31 - 1.
unfoldable pub timeout_ms : ℕ → ℕ → ℕ
timeout_ms ticks_per_ms delay =
    if ltb delay ticks_per_ms || ltb (2147483647 * ticks_per_ms) delay
    then 1
    else delay / ticks_per_ms
