-- ===== src/Auth/Service/Properties/Revocations.antt =====
-- What the service does to the session that an administrator revokes.
use kovcheg.Base.{
  ℕ, ltb, some, [], ◌∷◌, ap, ◌∙◌, Result-cases, ◌+◌, ◌≡◌, refl, Bool, false, ok, result, after,
  Option-cases, inl, inr, arith, if◌then◌else◌,
}
use kovcheg.Text.{Text}
use kovcheg.Dict.{Dict, get, set, count_values, some_value, update_first}
use kovcheg.Auth.Repository.State.{Repository, StoredSession}
use kovcheg.Auth.Repository.Administration.{require_account, revoke_session_if, touched}
use kovcheg.Auth.Repository.Sessions.{revoke_session_as_administrator, is_live_session_with}
use kovcheg.Auth.Repository.Cases.Guards.{require_administrator_outcome}
use kovcheg.Auth.Service.World.{World, Dependencies, administrative_answer}
use kovcheg.Auth.Service.Administration.{revoke_session}

-- Where a change makes a value fail the test, changing the first that passes leaves one less.
count_values-update_first :
    {V : Type 0} (p : V → Bool) (f : V → V) (d : Dict V)
    → ((v : V) → p (f v) ≡ false)
    → count_values p d ≡ (if some_value p d then 1 else 0) + count_values p (update_first p f d)
unfolding count_values some_value update_first
count_values-update_first p f [] h = refl
count_values-update_first p f ((k, v) ∷ d) h =
    ground (arith, h v, count_values-update_first p f d h)

some_value-count_values :
    {V : Type 0} (p : V → Bool) (d : Dict V) → some_value p d ≡ ltb 0 (count_values p d)
unfolding count_values some_value
some_value-count_values p [] = refl
some_value-count_values p ((k, v) ∷ d) = ground (arith, some_value-count_values p d)

count_values-set :
    {V : Type 0} (p : V → Bool) (k : Text) (v v' : V) (d : Dict V)
    → get k d ≡ some v
    → p v' ≡ p v
    → count_values p (set k v' d) ≡ count_values p d
unfolding count_values get set
count_values-set p k v v' [] h e = absurd (ground arith)
count_values-set p k v v' ((j, w) ∷ d) h e = ground (arith, count_values-set p k v v' d)

-- The live sessions of a user with an id.
abbrev pub live_sessions : Text → Text → Repository → ℕ
live_sessions user_id session_id r =
    count_values (is_live_session_with user_id session_id) r.sessions_by_verifier

revoked-not_live :
    (user_id session_id : Text) (now : ℕ) (s : StoredSession)
    → is_live_session_with user_id session_id
        (revoke_session_if (is_live_session_with user_id session_id) now s)
      ≡ false
unfolding revoke_session_if
revoked-not_live user_id session_id now s = ground arith

-- The repository's method.
revokes_one :
    (actor : Text) (now : ℕ) (user_id session_id : Text) (r : Repository) (revoked : Bool)
    → result (revoke_session_as_administrator actor now user_id session_id r) ≡ ok revoked
    → (revoked ≡ ltb 0 (live_sessions user_id session_id r))
      × (live_sessions user_id session_id r
          ≡ (if revoked then 1 else 0)
            + live_sessions user_id session_id
                (after (revoke_session_as_administrator actor now user_id session_id r)))
unfolding revoke_session_as_administrator require_account
revokes_one actor now user_id session_id r revoked h =
    let live = is_live_session_with user_id session_id in
    elim (require_administrator_outcome r actor now) [
      | inl refused ↦ absurd (ground arith)
      | inr (s, a, admitted, e) ↦ elim (Option-cases (get user_id r.accounts_by_id)) [
        | inl missing ↦ absurd (ground arith)
        | inr (account, there) ↦
            let same =
              count_values-set live actor s (touched now s) r.sessions_by_verifier admitted.found
                refl in
            let one =
              count_values-update_first live (revoke_session_if live now)
                (set actor (touched now s) r.sessions_by_verifier)
                (revoked-not_live user_id session_id now) in
            let some_one =
              some_value-count_values live (set actor (touched now s) r.sessions_by_verifier) in
            (ground (arith, same, some_one), ground (arith, same, one))
      ]
    ]

-- An administrator's revocation of a session that returns answers whether the given user had a live
-- session of the given id; if so, the user has one such session less afterwards, and otherwise none as
-- before.
pub revoke_session-live_sessions :
    {L : Type 0} (d : Dependencies L) (token : Text) (now : ℕ) (user_id session_id : Text)
    (w : World L) (revoked : Bool)
    → result (revoke_session d token now user_id session_id w) ≡ ok revoked
    → (revoked ≡ ltb 0 (live_sessions user_id session_id w.repository))
      × (live_sessions user_id session_id w.repository
          ≡ (if revoked then 1 else 0)
            + live_sessions user_id session_id
                (after (revoke_session d token now user_id session_id w)).repository)
unfolding revoke_session administrative_answer
revoke_session-live_sessions d token now user_id session_id w revoked h =
    let actor = d.session_token_verifier token in
    elim (Result-cases
      (result (revoke_session_as_administrator actor now user_id session_id w.repository))) [
        | inr (e, k) ↦ absurd (ground arith)
        | inl (b, k) ↦
            let same : b ≡ revoked = ground arith in
            revokes_one actor now user_id session_id w.repository revoked (k ∙ ap ok same)
      ]
