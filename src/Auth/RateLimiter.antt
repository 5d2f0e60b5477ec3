-- ===== src/Auth/RateLimiter.antt =====
-- `LocalRateLimiter` and `UnavailableRateLimiter` of apps/auth/src/a2/local-adapters.ts.
pub mod Window
pub mod Refusals
use kovcheg.Base.{
  ℕ, ◌+◌, Bool, true, false, List, [], ◌∷◌, ◌++◌, Option, none, some, if◌then◌else◌, ltb, leb, keep,
  length,
}
use kovcheg.Text.{Text}
use kovcheg.Dict.{Dict, get, set}
use kovcheg.Auth.Types.{RateLimitRule, RateLimitDecision, allowed, limited, unavailable}

-- The map `attempts`: for each key the times of the attempts that were let through, oldest first.
abbrev pub Attempts : Type 0
Attempts = Dict (List ℕ)

-- One call of `consume`.
pub record LimitCall : Type 0 where
  pub key : Text
  pub now : ℕ
  pub rule : RateLimitRule

-- `attempt > now - windowMs`, with the subtraction on the other side
unfoldable pub in_window : RateLimitRule → ℕ → ℕ → Bool
in_window rule now attempt = ltb now (attempt + rule.window_ms)

-- `this.attempts.get(key) ?? []`
abbrev pub attempts_of : Text → Attempts → List ℕ
attempts_of key m = elim (get key m) [ none ↦ [] | some times ↦ times ]

unfoldable pub consume : LimitCall → Attempts → RateLimitDecision × Attempts
consume c m =
    let recent = keep (in_window c.rule c.now) (attempts_of c.key m) in
    if leb c.rule.limit (length recent)
    then (limited, set c.key recent m)
    else (allowed, set c.key (recent ++ c.now ∷ []) m)

-- The limiter that fails closed.
unfoldable pub consume_unavailable : LimitCall → Attempts → RateLimitDecision × Attempts
consume_unavailable c m = (unavailable, m)
