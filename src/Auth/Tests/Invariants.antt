-- ===== src/Auth/Tests/Invariants.antt =====
-- The invariants of the repository, and the rate limiter, at the office.
use kovcheg.Base.{ℕ, ◌≡◌, refl, sym, subst, true, List, [], ◌∷◌, some, arith}
use kovcheg.Text.{codes, text_discrete}
use kovcheg.Dict.{set, get}
use kovcheg.Auth.Types.{RateLimitRule, allowed, platform_administrator, deactivated}
use kovcheg.Auth.Repository.State.{empty_repository, includes_grant}
use kovcheg.Auth.Repository.Administration.{bootstrapped}
use kovcheg.Auth.Repository.Calls.{Call, run}
use kovcheg.Auth.Repository.Evolution.Relations.{Evolution}
use kovcheg.Auth.Repository.Evolution.Histories.{run-Evolution}
use kovcheg.Auth.Repository.Invariants.WellFormed.{IsWellFormed, run-IsWellFormed}
use kovcheg.Auth.Repository.Invariants.Owners.{HasLiveOwners}
use kovcheg.Auth.Repository.Invariants.LiveOwners.{run-HasLiveOwners}
use kovcheg.Auth.Repository.Invariants.Addresses.{empty-IsIndexed, addresses_unique}
use kovcheg.Auth.Repository.Invariants.Ownership.{server_owner_unique}
use kovcheg.Auth.RateLimiter.{in_window, LimitCall, consume}
use kovcheg.Auth.RateLimiter.Window.{IsHistory, decisions, verdicts, consume-verdicts}
use kovcheg.Auth.RateLimiter.Refusals.{consume_all, refusal_ends}
use kovcheg.Auth.Tests.Data.{office, office_is, script, owner_input}

-- Bob is deactivated, and his token is tried.
abbrev rest : List Call
rest =
    Call.set_status (codes "t1") 6 (codes "bob") deactivated ∷ Call.authenticate (codes "t2") 7 ∷ []

run-IsWellFormed_example : IsWellFormed (run empty_repository script)
run-IsWellFormed_example = run-IsWellFormed empty_repository script empty-IsIndexed.0

empty-HasLiveOwners : HasLiveOwners empty_repository
unfolding get
empty-HasLiveOwners = record {
  sessions = λ k v e. absurd (ground arith);
  challenges = λ k v e. absurd (ground arith);
  passkeys = λ k v e. absurd (ground arith);
}

run-HasLiveOwners_example : HasLiveOwners (run empty_repository script)
run-HasLiveOwners_example =
    run-HasLiveOwners empty_repository script (empty-IsIndexed.0, empty-HasLiveOwners)

run-Evolution_example : Evolution office (run office rest)
run-Evolution_example =
    run-Evolution office rest (run-IsWellFormed empty_repository script empty-IsIndexed.0)

owner_found : get (codes "alice") office.accounts_by_id ≡ some (bootstrapped owner_input)
unfolding get text_discrete
owner_found =
    subst (λ r. get (codes "alice") r.accounts_by_id ≡ some (bootstrapped owner_input))
      (sym office_is) refl

addresses_unique_example : codes "alice" ≡ codes "alice"
addresses_unique_example =
    addresses_unique script (codes "alice") (codes "alice") (bootstrapped owner_input)
      (bootstrapped owner_input) owner_found owner_found refl

server_owner_unique_example :
    (codes "alice" ≡ codes "alice")
    × (includes_grant platform_administrator (bootstrapped owner_input).functional_grants ≡ true)
server_owner_unique_example =
    server_owner_unique script (codes "alice") (codes "alice") (bootstrapped owner_input)
      (bootstrapped owner_input) owner_found owner_found refl refl

-- Two attempts in ten units of time.
abbrev rule : RateLimitRule
rule = record { limit = 2; window_ms = 10 }

abbrev attempt : ℕ → LimitCall
attempt now = record { key = codes "k"; now = now; rule = rule }

abbrev burst : List LimitCall
burst = attempt 1 ∷ attempt 2 ∷ attempt 3 ∷ attempt 11 ∷ []

burst-IsHistory : IsHistory (codes "k") rule 0 burst
burst-IsHistory = (
  omega arith,
  (λ _. refl),
  (omega arith, (λ _. refl), (omega arith, (λ _. refl), (omega arith, (λ _. refl), tt))),
)

consume-verdicts_example : decisions (codes "k") [] burst ≡ verdicts (codes "k") rule [] burst
consume-verdicts_example = consume-verdicts (codes "k") rule burst burst-IsHistory

-- Two attempts are stored, and two are refused before they have left the window.
refusal_ends_example :
    (consume
      (attempt 20)
      (consume_all ((codes "k", 1 ∷ 2 ∷ []) ∷ []) (attempt 3 ∷ attempt 10 ∷ []))).0
    ≡ allowed
unfolding get set consume in_window text_discrete
refusal_ends_example =
    refusal_ends (codes "k") rule 20 ((codes "k", 1 ∷ 2 ∷ []) ∷ []) (attempt 3 ∷ attempt 10 ∷ [])
      (omega arith) (omega arith, (omega arith, tt))
      (omega arith, (λ _. (refl, refl)), (omega arith, (λ _. (refl, refl)), tt))
