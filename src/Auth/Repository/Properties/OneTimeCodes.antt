-- ===== src/Auth/Repository/Properties/OneTimeCodes.antt =====
-- A code opens one session, and guessing it is bounded. Both hold over any history that issues no
-- new challenge under the same id; ids are random UUIDs.
use kovcheg.Base.{
  ℕ, suc, ◌+◌, ◌≤◌, ◌≡◌, refl, ◌∙◌, Option, none, some, arith, List, [], ◌∷◌, true, false, ok,
  result, after, Option-cases, Bool-cases, inl, inr, Bool, is_some, ◌⊎◌, not, ◌&&◌, ltb, leb, ◌||◌,
  if◌then◌else◌,
}
use kovcheg.Text.{Text, text_eq}
use kovcheg.Dict.{get, get-set_self}
use kovcheg.Auth.Types.{
  SessionRecordInput, ChallengeRecordInput, SessionPrincipal, authenticated, invalid,
}
use kovcheg.Auth.Repository.State.{StoredChallenge, Repository, safe_verifier_equal}
use kovcheg.Auth.Repository.Challenges.{consume_challenge_and_create_session}
use kovcheg.Auth.Repository.Calls.{Call, step, run}
use kovcheg.Auth.Repository.Closure.{IssuesOnly, AllIssueOnly}
use kovcheg.Auth.Repository.Evolution.Relations.{ChallengeLater}
use kovcheg.Auth.Repository.Evolution.Challenges.{NotId, run-ChallengeLater}

-- The challenge can no longer be answered, or `n` more failures use its attempts up.
abbrev pub IsSpent : ℕ → StoredChallenge → Type 0
IsSpent n c =
    (is_some c.invalidated_at ≡ true)
    ⊎ (is_some c.used_at ≡ true)
    ⊎ (c.max_attempts ≤ c.attempts + n)

pub spent_refused :
    (r : Repository) (id candidate : Text) (now : ℕ) (input : SessionRecordInput)
    (c : StoredChallenge)
    → get id r.challenges ≡ some c
    → IsSpent 0 c
    → consume_challenge_and_create_session candidate id now input r ≡ (ok invalid, r)
unfolding consume_challenge_and_create_session
spent_refused r id candidate now input c e spent = ground arith

pub IsSpent-later :
    (n : ℕ) (c c' : StoredChallenge) → ChallengeLater c c' → IsSpent n c → IsSpent n c'
IsSpent-later n c c' later (inl h) = inl (later.stays_invalidated h)
IsSpent-later n c c' later (inr (inl h)) = inr (inl (still_used c.used_at refl h))
  where
    still_used : (o : Option ℕ) → c.used_at ≡ o → is_some o ≡ true → is_some c'.used_at ≡ true
    still_used none e h = absurd (ground arith)
    still_used (some t) e h = ground (arith, later.stays_used t e)
IsSpent-later n c c' later (inr (inr h)) =
    inr (inr (ground (arith, later.same_input, later.attempts_grow)))

consumed-IsSpent :
    (r : Repository) (id candidate : Text) (now : ℕ) (input : SessionRecordInput)
    (p : SessionPrincipal)
    → result (consume_challenge_and_create_session candidate id now input r) ≡ ok (authenticated p)
    → (c : StoredChallenge) × (get id
          (after (consume_challenge_and_create_session candidate id now input r)).challenges
        ≡ some c)
      × IsSpent 0 c
unfolding consume_challenge_and_create_session
consumed-IsSpent r id candidate now input p e = elim (Option-cases (get id r.challenges)) [
  | inl missing ↦ absurd (ground arith)
  | inr (c, found) ↦ elim (Option-cases (get c.account_id r.accounts_by_id)) [
    | inl missing ↦ absurd (ground arith)
    | inr (a, owner) ↦ (
      record c { used_at = some now },
      ground (arith, get-set_self id (record c { used_at = some now }) r.challenges),
      inr (inl refl),
    )
  ]
]

-- A code works once: after it has opened a session, and after any calls that issue no challenge
-- under its id, no candidate opens another one with that challenge, and the attempt writes nothing.
pub challenge_works_once :
    (r : Repository) (cs : List Call) (id candidate candidate' : Text) (now now' : ℕ)
    (input input' : SessionRecordInput) (p : SessionPrincipal)
    → result (consume_challenge_and_create_session candidate id now input r) ≡ ok (authenticated p)
    → AllIssueOnly (NotId id) cs
    → let q = run (after (consume_challenge_and_create_session candidate id now input r)) cs in
      consume_challenge_and_create_session candidate' id now' input' q ≡ (ok invalid, q)
challenge_works_once r cs id candidate candidate' now now' input input' p e only =
    let (c, found, spent) = consumed-IsSpent r id candidate now input p e in
    let (c', found', later) = run-ChallengeLater id _ cs only c found in
    spent_refused _ id candidate' now' input' c' found' (IsSpent-later 0 c c' later spent)

-- A guess at the code of a challenge, in time and wrong.
unfoldable pub is_wrong_guess : ChallengeRecordInput → Call → Bool
is_wrong_guess input (Call.consume candidate id now session) =
    text_eq id input.challenge_id
    && ltb now input.expires_at
    && not (safe_verifier_equal input.code_verifier candidate)
is_wrong_guess input _ = false

unfoldable pub wrong_guesses : ChallengeRecordInput → List Call → ℕ
unfolding is_wrong_guess
wrong_guesses input [] = 0
wrong_guesses input (c ∷ cs) =
    let rest = wrong_guesses input cs in if is_wrong_guess input c then suc rest else rest

module _ (input : ChallengeRecordInput) where
  -- The challenge is stored as it was issued, and is spent after `n` more failures.
  abbrev Exhausted : ℕ → Repository → Type 0
  Exhausted n r =
      (c : StoredChallenge) × (get input.challenge_id r.challenges ≡ some c)
      × (c.input ≡ input)
      × IsSpent n c

  keep_Exhausted :
      (r : Repository) (call : Call) (n : ℕ)
      → IssuesOnly (NotId input.challenge_id) call
      → Exhausted n r
      → Exhausted n (step r call)
  unfolding run
  keep_Exhausted r call n only (c, found, same, spent) =
      let (c', found', later) =
        run-ChallengeLater input.challenge_id r (call ∷ []) (only, tt) c found in
      (c', found', later.same_input ∙ same, IsSpent-later n c c' later spent)

  abbrev is_shut : StoredChallenge → Bool
  is_shut c = is_some c.invalidated_at || is_some c.used_at || leb c.max_attempts c.attempts

  -- A wrong guess is a step nearer, or finds the challenge spent.
  guess_Exhausted :
      (r : Repository) (call : Call) (n : ℕ)
      → IssuesOnly (NotId input.challenge_id) call
      → is_wrong_guess input call ≡ true
      → Exhausted (suc n) r
      → Exhausted n (step r call)
  unfolding step is_wrong_guess consume_challenge_and_create_session
  guess_Exhausted r (Call.consume candidate id now session) n only wrong (c, found, same, spent) =
      elim (Bool-cases (is_shut c)) [
        | inl shut ↦ (c, ground arith, same, ground arith)
        | inr open_still ↦ (
          record c { attempts = c.attempts + 1 },
          ground (arith, get-set_self id (record c { attempts = c.attempts + 1 }) r.challenges),
          same,
          ground arith,
        )
      ]
  guess_Exhausted r _ n only wrong h = absurd (ground arith)

  run-Exhausted :
      (r : Repository) (cs : List Call)
      → AllIssueOnly (NotId input.challenge_id) cs
      → Exhausted (wrong_guesses input cs) r
      → Exhausted 0 (run r cs)
  unfolding run wrong_guesses
  run-Exhausted r [] only h = h
  run-Exhausted r (call ∷ cs) only h = elim (Bool-cases (is_wrong_guess input call)) [
    | inl wrong ↦
        run-Exhausted (step r call) cs only.1
          (guess_Exhausted r call _ only.0 wrong (rw wrong at h))
    | inr other ↦
        run-Exhausted (step r call) cs only.1 (keep_Exhausted r call _ only.0 (rw other at h))
  ]

-- Guessing is bounded: once a stored challenge has had as many failed attempts as it allows, counted
-- with the wrong guesses that any history makes before its deadline, no candidate is accepted any
-- more, not even the right one, and the attempt writes nothing. The history issues no challenge under
-- the same id.
pub guessing_is_bounded :
    (r : Repository) (cs : List Call) (c : StoredChallenge) (candidate : Text) (now : ℕ)
    (session : SessionRecordInput)
    → get c.challenge_id r.challenges ≡ some c
    → AllIssueOnly (NotId c.challenge_id) cs
    → c.max_attempts ≤ c.attempts + wrong_guesses c.input cs
    → consume_challenge_and_create_session candidate c.challenge_id now session (run r cs)
      ≡ (ok invalid, run r cs)
guessing_is_bounded r cs c candidate now session found only enough =
    let (c', found', same, spent) =
      run-Exhausted c.input r cs only (c, found, refl, inr (inr enough)) in
    spent_refused (run r cs) c.challenge_id candidate now session c' found' spent
