-- ===== src/Auth/RateLimiter/Window.antt =====
-- The limiter against its specification: a log of all that was let through, from which nothing is
-- ever dropped.
use kovcheg.Base.{
  ℕ, ◌≤◌, ◌≡◌, ◌≢◌, refl, ◌∙◌, ap, Bool, List, [], ◌∷◌, ◌++◌, arith, if◌then◌else◌, ltb, leb, keep,
  length, Bool-cases, inl, inr,
}
use kovcheg.Text.{Text, text_eq, text_eq→eq}
use kovcheg.Dict.{get, get-set}
use kovcheg.Auth.Types.{RateLimitRule, RateLimitDecision, allowed, limited}
use kovcheg.Auth.RateLimiter.{Attempts, LimitCall, in_window, attempts_of, consume}

-- The decisions on one key over a history of calls on any keys.
unfoldable pub decisions : Text → Attempts → List LimitCall → List RateLimitDecision
unfolding consume
decisions k m [] = []
decisions k m (c ∷ cs) =
    let rest = decisions k (consume c m).1 cs in
    if text_eq c.key k then (consume c m).0 ∷ rest else rest

-- The specification. An attempt is let through if fewer than the limit were in the window.
abbrev pub permits : RateLimitRule → ℕ → List ℕ → Bool
permits rule now log = ltb (length (keep (in_window rule now) log)) rule.limit

abbrev pub logged : RateLimitRule → ℕ → List ℕ → List ℕ
logged rule now log = if permits rule now log then log ++ now ∷ [] else log

abbrev pub verdict : RateLimitRule → ℕ → List ℕ → RateLimitDecision
verdict rule now log = if permits rule now log then allowed else limited

unfoldable pub verdicts : Text → RateLimitRule → List ℕ → List LimitCall → List RateLimitDecision
verdicts k rule log [] = []
verdicts k rule log (c ∷ cs) =
    let rest = verdicts k rule (logged rule c.now log) cs in
    let skipped = verdicts k rule log cs in
    if text_eq c.key k then verdict rule c.now log ∷ rest else skipped

-- The clock does not go back, and the key is always used with one rule.
abbrev pub IsHistory : Text → RateLimitRule → ℕ → List LimitCall → Type 0
IsHistory k rule last [] = Unit {0}
IsHistory k rule last (c ∷ cs) =
    (last ≤ c.now) × (c.key ≡ k → c.rule ≡ rule) × IsHistory k rule c.now cs

keep-append : (p : ℕ → Bool) (xs ys : List ℕ) → keep p (xs ++ ys) ≡ keep p xs ++ keep p ys
keep-append p [] ys = refl
keep-append p (x ∷ xs) ys = ground (arith, keep-append p xs ys)

-- What has left the window does not come back.
pub keep-later :
    (rule : RateLimitRule) (now later : ℕ) (xs : List ℕ)
    → now ≤ later
    → keep (in_window rule later) (keep (in_window rule now) xs) ≡ keep (in_window rule later) xs
unfolding in_window
keep-later rule now later [] h = refl
keep-later rule now later (x ∷ xs) h = ground (arith, keep-later rule now later xs h)

length-keep-later :
    (rule : RateLimitRule) (now later : ℕ) (xs : List ℕ)
    → now ≤ later
    → length (keep (in_window rule later) xs) ≤ length (keep (in_window rule now) xs)
unfolding in_window
length-keep-later rule now later [] h = omega arith
length-keep-later rule now later (x ∷ xs) h = ground (arith, length-keep-later rule now later xs h)

-- The list that a call stores under its key.
abbrev stored_after : RateLimitRule → ℕ → List ℕ → List ℕ
stored_after rule now times =
    let recent = keep (in_window rule now) times in
    if leb rule.limit (length recent) then recent else recent ++ now ∷ []

-- Where the stored list and the log show the same now, they show the same afterwards.
stored_after-logged :
    (rule : RateLimitRule) (now later : ℕ) (times log : List ℕ)
    → now ≤ later
    → keep (in_window rule now) times ≡ keep (in_window rule now) log
    → keep (in_window rule later) times ≡ keep (in_window rule later) log
    → keep (in_window rule later) (stored_after rule now times)
      ≡ keep (in_window rule later) (logged rule now log)
stored_after-logged rule now later times log le same_now same_later = ground (
  arith,
  keep-later rule now later times le,
  keep-append (in_window rule later) (keep (in_window rule now) times) (now ∷ []),
  keep-append (in_window rule later) log (now ∷ []),
)

attempts_of-consume :
    (k : Text) (m : Attempts) (c : LimitCall)
    → c.key ≡ k
    → attempts_of k (consume c m).1 ≡ stored_after c.rule c.now (attempts_of k m)
unfolding consume
attempts_of-consume k m c same =
    let recent = keep (in_window c.rule c.now) (attempts_of c.key m) in
    ground (arith, get-set k c.key recent m, get-set k c.key (recent ++ c.now ∷ []) m)

pub attempts_of-consume_ne :
    (k : Text) (m : Attempts) (c : LimitCall)
    → c.key ≢ k
    → attempts_of k (consume c m).1 ≡ attempts_of k m
unfolding consume
attempts_of-consume_ne k m c other =
    let recent = keep (in_window c.rule c.now) (attempts_of c.key m) in
    ground (arith, get-set k c.key recent m, get-set k c.key (recent ++ c.now ∷ []) m)

module _ (k : Text) (rule : RateLimitRule) where
  -- The stored list and the log show the same at every time from `last` on.
  abbrev Agree : ℕ → Attempts → List ℕ → Type 0
  Agree last m log =
      (now : ℕ)
      → last ≤ now
      → keep (in_window rule now) (attempts_of k m) ≡ keep (in_window rule now) log

  Agree-other :
      (last : ℕ) (m : Attempts) (log : List ℕ) (c : LimitCall)
      → c.key ≢ k
      → last ≤ c.now
      → Agree last m log
      → Agree c.now (consume c m).1 log
  Agree-other last m log c other le h now after_c =
      rw (attempts_of-consume_ne k m c other) (h now (omega arith))

  Agree-same :
      (last : ℕ) (m : Attempts) (log : List ℕ) (c : LimitCall)
      → c.key ≡ k
      → c.rule ≡ rule
      → last ≤ c.now
      → Agree last m log
      → ((consume c m).0 ≡ verdict rule c.now log)
        × Agree c.now (consume c m).1 (logged rule c.now log)
  unfolding consume
  Agree-same last m log c same ruled le h = (
    ground (arith, h c.now le),
    λ later after_c.
        ap (keep (in_window rule later)) (attempts_of-consume k m c same)
        ∙ ground (
          arith,
          stored_after-logged rule c.now later (attempts_of k m) log after_c (h c.now le)
              (h later (omega arith)),
        ),
  )

  decisions-verdicts :
      (last : ℕ) (m : Attempts) (log : List ℕ) (cs : List LimitCall)
      → IsHistory k rule last cs
      → Agree last m log
      → decisions k m cs ≡ verdicts k rule log cs
  unfolding decisions verdicts
  decisions-verdicts last m log [] ok h = refl
  decisions-verdicts last m log (c ∷ cs) (le, ruled, ok) h = elim (Bool-cases (text_eq c.key k)) [
    | inl same ↦
        let e = text_eq→eq c.key k same in
        let (now_same, then_same) = Agree-same last m log c e (ruled e) le h in
        let ih = decisions-verdicts c.now (consume c m).1 (logged rule c.now log) cs ok then_same in
        rw same (ground (arith, now_same, ih))
    | inr other ↦
        let ih =
          decisions-verdicts c.now (consume c m).1 log cs ok
            (Agree-other last m log c (λ e. ground arith) le h) in
        rw other ih
  ]

-- On each key the limiter decides as its specification does: an attempt is let through exactly if
-- fewer than the limit were let through in the window that ends with it. So neither what it forgets,
-- nor what it refuses, nor the calls on other keys make a difference. The clock does not go back, and
-- the key is used with one rule.
pub consume-verdicts :
    (k : Text) (rule : RateLimitRule) (cs : List LimitCall)
    → IsHistory k rule 0 cs
    → decisions k [] cs ≡ verdicts k rule [] cs
unfolding get
consume-verdicts k rule cs ok = decisions-verdicts k rule 0 [] [] cs ok (λ now le. refl)
