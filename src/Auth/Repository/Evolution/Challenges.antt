-- ===== src/Auth/Repository/Evolution/Challenges.antt =====
-- A stored challenge moves along its relation only, as long as no new challenge is issued under the
-- same id.
use kovcheg.Base.{ℕ, ◌+◌, ◌≡◌, ◌≢◌, none, some, arith, List}
use kovcheg.Text.{Text}
use kovcheg.Dict.{Dict, get, set, update_values, get-set}
use kovcheg.Dict.Evolution.{
  EvolvesAt, EvolvesAt-trans, Evolves-refl, Evolves-set_later, Evolves-update_values,
}
use kovcheg.Auth.Repository.State.{StoredChallenge, Repository}
use kovcheg.Auth.Repository.Administration.{invalidate_challenge_if, is_live_challenge_of}
use kovcheg.Auth.Repository.Calls.{Call, run}
use kovcheg.Auth.Repository.Closure.{IsClosed, AllIssueOnly, run-closed}
use kovcheg.Auth.Repository.Evolution.Relations.{
  ChallengeLater, ChallengeLater-refl, ChallengeLater-trans,
}

invalidate_challenge_if-later :
    (id : Text) (now : ℕ) (c : StoredChallenge)
    → ChallengeLater c (invalidate_challenge_if (is_live_challenge_of id) now c)
unfolding invalidate_challenge_if
invalidate_challenge_if-later id now c = record {
  same_input = ground arith;
  same_account = ground arith;
  attempts_grow = ground arith;
  stays_used = λ t e. ground arith;
  stays_invalidated = λ h. ground arith;
}

-- The ids that leave the challenge under `k` alone.
abbrev pub NotId : Text → Text → Type 0
NotId k id = k ≢ id

module _ (k : Text) (d0 : Dict StoredChallenge) where
  abbrev Kept : Repository → Type 0
  Kept r = EvolvesAt ChallengeLater k d0 r.challenges

  onwards :
      (d d' : Dict StoredChallenge)
      → EvolvesAt ChallengeLater k d0 d
      → EvolvesAt ChallengeLater k d d'
      → EvolvesAt ChallengeLater k d0 d'
  onwards d d' h later = EvolvesAt-trans ChallengeLater ChallengeLater-trans k d0 d d' h later

  write :
      (d : Dict StoredChallenge) (id : Text) (c c' : StoredChallenge)
      → EvolvesAt ChallengeLater k d0 d
      → get id d ≡ some c
      → ChallengeLater c c'
      → EvolvesAt ChallengeLater k d0 (set id c' d)
  write d id c c' h e later =
      onwards d _ h (Evolves-set_later ChallengeLater ChallengeLater-refl id c c' d e later k)

  invalidate_all :
      (d : Dict StoredChallenge) (id : Text) (now : ℕ)
      → EvolvesAt ChallengeLater k d0 d
      → EvolvesAt ChallengeLater k d0
          (update_values (invalidate_challenge_if (is_live_challenge_of id) now) d)
  invalidate_all d id now h = onwards d _ h (
      Evolves-update_values ChallengeLater ChallengeLater-refl _ d
        (invalidate_challenge_if-later id now) k)

  issue_other :
      (d : Dict StoredChallenge) (id : Text) (c : StoredChallenge)
      → k ≢ id
      → EvolvesAt ChallengeLater k d0 d
      → EvolvesAt ChallengeLater k d0 (set id c d)
  issue_other d id c other h v e =
      let (v', e', later) = h v e in (v', ground (arith, get-set k id c d), later)

  Kept-closed : IsClosed (NotId k) Kept
  Kept-closed = record {
    revoke_session = λ r k now s h e live. h;
    touch_session = λ r k now s h e live. h;
    revoke_all = λ r id now h. h;
    revoke_one = λ r id session_id now h. h;
    open_oidc = λ r id a input source h e fresh free. h;
    open_email = λ r id now c a input h e e' free.
        write r.challenges id c _ h e.found (used now c e.is_unused);
    open_passkey = λ r login p a h found live count e free. h;
    issue = λ r challenge email a other h found on.
        issue_other _ challenge.challenge_id _ other
          (invalidate_all r.challenges a.user_id challenge.issued_at h);
    fail_challenge = λ r id now c h e. write r.challenges id c _ h e.found (failed c);
    drop_challenge = λ r id now c h e unused. write r.challenges id c _ h e (dropped now c);
    add_passkey = λ r input id a h e free free'. h;
    bootstrap = λ r input h e e' e'' first. h;
    create_account = λ r name email id h e e'. h;
    activate = λ r id a h e. h;
    deactivate = λ r id a now h e. invalidate_all r.challenges id now h;
    reset_access = λ r id now h. invalidate_all r.challenges id now h;
    set_domain = λ r id a status h e. h;
    rename = λ r id a name email h e free. h;
    grant = λ r id a g h e. h;
    ungrant = λ r id a g h e kept. h;
  }
    where
      used :
          (now : ℕ) (c : StoredChallenge)
          → c.used_at ≡ none
          → ChallengeLater c (record c { used_at = some now })
      used now c unused = ground arith

      failed : (c : StoredChallenge) → ChallengeLater c (record c { attempts = c.attempts + 1 })
      failed c = ground arith

      dropped :
          (now : ℕ) (c : StoredChallenge)
          → ChallengeLater c (record c { invalidated_at = some now })
      dropped now c = ground arith

-- A history that issues no challenge under `k` keeps the challenge under `k`: its verifier, its
-- deadline, its use, its invalidation and its failed attempts.
pub run-ChallengeLater :
    (k : Text) (r : Repository) (cs : List Call)
    → AllIssueOnly (NotId k) cs
    → EvolvesAt ChallengeLater k r.challenges (run r cs).challenges
run-ChallengeLater k r cs only =
    run-closed (Kept-closed k r.challenges) r cs only
      (Evolves-refl ChallengeLater ChallengeLater-refl r.challenges k)
