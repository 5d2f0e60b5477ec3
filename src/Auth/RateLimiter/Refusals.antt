-- ===== src/Auth/RateLimiter/Refusals.antt =====
-- The limiter after attempts that it refused.
use kovcheg.Base.{
  ℕ, ◌+◌, ◌≤◌, ◌<◌, ◌≡◌, refl, ◌∙◌, ap, List, [], ◌∷◌, arith, keep, Bool-cases, inl, inr,
}
use kovcheg.Text.{Text, text_eq, text_eq→eq}
use kovcheg.Dict.{get-set}
use kovcheg.Auth.Types.{RateLimitRule, allowed, limited}
use kovcheg.Auth.RateLimiter.{Attempts, LimitCall, in_window, attempts_of, consume}
use kovcheg.Auth.RateLimiter.Window.{keep-later, attempts_of-consume_ne}

-- Every attempt in the list has left the window.
abbrev pub AllPast : RateLimitRule → ℕ → List ℕ → Type 0
AllPast rule now [] = Unit {0}
AllPast rule now (t ∷ ts) = (t + rule.window_ms ≤ now) × AllPast rule now ts

keep-AllPast :
    (rule : RateLimitRule) (now : ℕ) (ts : List ℕ)
    → AllPast rule now ts
    → keep (in_window rule now) ts ≡ []
unfolding in_window
keep-AllPast rule now [] h = refl
keep-AllPast rule now (t ∷ ts) h = ground (arith, keep-AllPast rule now ts h.1)

-- The state after calls.
unfoldable pub consume_all : Attempts → List LimitCall → Attempts
consume_all m [] = m
consume_all m (c ∷ cs) = consume_all (consume c m).1 cs

-- Calls up to a time, of which those on the key have the rule and are refused.
abbrev pub AllRefused : Text → RateLimitRule → ℕ → Attempts → List LimitCall → Type 0
AllRefused k rule now m [] = Unit {0}
AllRefused k rule now m (c ∷ cs) =
    (c.now ≤ now)
    × (c.key ≡ k → (c.rule ≡ rule) × ((consume c m).0 ≡ limited))
    × AllRefused k rule now (consume c m).1 cs

attempts_of-refused :
    (k : Text) (m : Attempts) (c : LimitCall)
    → c.key ≡ k
    → (consume c m).0 ≡ limited
    → attempts_of k (consume c m).1 ≡ keep (in_window c.rule c.now) (attempts_of k m)
unfolding consume
attempts_of-refused k m c same refused =
    let recent = keep (in_window c.rule c.now) (attempts_of c.key m) in
    ground (arith, get-set k c.key recent m)

-- Refused calls leave what is in the window.
refused-kept :
    (k : Text) (rule : RateLimitRule) (now : ℕ) (m : Attempts) (cs : List LimitCall)
    → AllRefused k rule now m cs
    → keep (in_window rule now) (attempts_of k (consume_all m cs))
      ≡ keep (in_window rule now) (attempts_of k m)
unfolding consume_all
refused-kept k rule now m [] h = refl
refused-kept k rule now m (c ∷ cs) (le, own, h) =
    refused-kept k rule now (consume c m).1 cs h ∙ elim (Bool-cases (text_eq c.key k)) [
      | inl same ↦
          let e = text_eq→eq c.key k same in
          let (ruled, refused) = own e in
          ap (keep (in_window rule now)) (
            attempts_of-refused k m c e refused
            ∙ ap (λ r. keep (in_window r c.now) (attempts_of k m)) ruled)
          ∙ keep-later rule c.now now (attempts_of k m) le
      | inr other ↦
          ap (keep (in_window rule now)) (attempts_of-consume_ne k m c (λ e. ground arith))
    ]

-- A refusal does not last, and being refused does not prolong it: after any calls of which those on
-- the key were refused, an attempt is let through once the attempts that were stored before these
-- calls have left the window. The limit is positive, and the key is used with one rule.
pub refusal_ends :
    (k : Text) (rule : RateLimitRule) (now : ℕ) (m : Attempts) (cs : List LimitCall)
    → 0 < rule.limit
    → AllPast rule now (attempts_of k m)
    → AllRefused k rule now m cs
    → (consume (record { key = k; now = now; rule = rule }) (consume_all m cs)).0 ≡ allowed
unfolding consume
refusal_ends k rule now m cs positive past refused =
    let left =
      refused-kept k rule now m cs refused ∙ keep-AllPast rule now (attempts_of k m) past in
    ground (arith, left)
