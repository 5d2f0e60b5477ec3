-- ===== src/Auth/Service/Properties/Limits.antt =====
-- The rate limits of the service stand apart from its repository, and its neutral answers.
use kovcheg.Base.{ℕ, ◌≡◌, refl, Bool, false, List, [], ◌∷◌, arith, result, after, inl, inr, ◌⊎◌}
use kovcheg.Auth.Types.{RateLimitDecision, allowed, limited, unavailable}
use kovcheg.Auth.Service.World.{World, Dependencies}
use kovcheg.Auth.Service.Limits.{
  Limit, limit_call, consume_rate_limits, consume_neutral_challenge_rate_limits,
}

decision-cases : (x : RateLimitDecision) → (x ≡ allowed) ⊎ ((x ≡ limited) ⊎ (x ≡ unavailable))
decision-cases allowed = inl refl
decision-cases limited = inr (inl refl)
decision-cases unavailable = inr (inr refl)

module _ {L : Type 0} (d : Dependencies L) where
  pub consume_rate_limits-repository :
      (ls : List Limit) (now : ℕ) (w : World L)
      → (after (consume_rate_limits d ls now w)).repository ≡ w.repository
  unfolding consume_rate_limits
  consume_rate_limits-repository [] now w = refl
  consume_rate_limits-repository (l ∷ ls) now w =
      let state = (d.consume (limit_call l now) w.limiter).1 in
      let later = consume_rate_limits-repository ls now (record w { limiter = state }) in
      elim (decision-cases (d.consume (limit_call l now) w.limiter).0) [
        | inl e ↦ ground (arith, later)
        | inr (inl e) ↦ ground arith
        | inr (inr e) ↦ ground arith
      ]

  pub neutral_limits-repository :
      (ls : List Limit) (now : ℕ) (passed : Bool) (w : World L)
      → (after (consume_neutral_challenge_rate_limits d ls now passed w)).repository ≡ w.repository
  unfolding consume_neutral_challenge_rate_limits
  neutral_limits-repository [] now passed w = refl
  neutral_limits-repository (l ∷ ls) now passed w =
      let state = (d.consume (limit_call l now) w.limiter).1 in
      let later = neutral_limits-repository ls now passed (record w { limiter = state }) in
      let refused = neutral_limits-repository ls now false (record w { limiter = state }) in
      elim (decision-cases (d.consume (limit_call l now) w.limiter).0) [
        | inl e ↦ ground (arith, later)
        | inr (inl e) ↦ ground (arith, refused)
        | inr (inr e) ↦ ground arith
      ]

  -- The result depends on the state of the limiter alone.
  pub neutral_limits-result :
      (ls : List Limit) (now : ℕ) (passed : Bool) (w w' : World L)
      → w.limiter ≡ w'.limiter
      → result (consume_neutral_challenge_rate_limits d ls now passed w)
        ≡ result (consume_neutral_challenge_rate_limits d ls now passed w')
  unfolding consume_neutral_challenge_rate_limits
  neutral_limits-result [] now passed w w' same = refl
  neutral_limits-result (l ∷ ls) now passed w w' same =
      let step = d.consume (limit_call l now) w'.limiter in
      let v = record w { limiter = step.1 } in
      let v' = record w' { limiter = step.1 } in
      let later = neutral_limits-result ls now passed v v' refl in
      let refused = neutral_limits-result ls now false v v' refl in
      elim (decision-cases step.0) [
        | inl e ↦ ground (arith, later)
        | inr (inl e) ↦ ground (arith, refused)
        | inr (inr e) ↦ ground arith
      ]
