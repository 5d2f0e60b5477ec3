-- ===== src/Base/Chains.antt =====
-- Chains of calls: what one that returned has done, what it keeps, and what it throws.
use mathlib.Core.Path.{◌≡◌, sym, ap, ◌∙◌, subst}
use mathlib.Core.Logic.{◌≢◌, inl, inr}
use mathlib.Core.Bool.{Bool, true, false}
use native.Mathlib.Omega.{arith}
use kovcheg.Base.Outcome.{
  Result, ok, err, Result-cases, Action, ◌>>=◌, ◌>>◌, pure, throw, throw_if, result, after,
}

module _ {S E A B : Type 0} where
  pub bind-returned :
      (m : Action S E A) (f : A → Action S E B) (s : S) (a : A)
      → result (m s) ≡ ok a
      → (m >>= f) s ≡ f a (after (m s))
  bind-returned m f s a h = ground arith

  pub bind-threw :
      (m : Action S E A) (f : A → Action S E B) (s : S) (e : E)
      → result (m s) ≡ err e
      → (m >>= f) s ≡ (err e, after (m s))
  bind-threw m f s e h = ground arith

  pub then-returned :
      (m : Action S E A) (k : Action S E B) (s : S) (a : A)
      → result (m s) ≡ ok a
      → (m >> k) s ≡ k (after (m s))
  then-returned m k s a h = ground arith

  pub then-threw :
      (m : Action S E A) (k : Action S E B) (s : S) (e : E)
      → result (m s) ≡ err e
      → (m >> k) s ≡ (err e, after (m s))
  then-threw m k s e h = ground arith

pub ok-err : {E A : Type 0} (a : A) (e : E) → ok a ≢ err e
ok-err a e h = ground arith

pub same_error : {E A : Type 0} (e e' : E) → ◌≡◌ {A = Result E A} (err e) (err e') → e ≡ e'
same_error e e' h = ground arith

pub same_answer : {E A : Type 0} (a b : A) → ◌≡◌ {A = Result E A} (ok a) (ok b) → a ≡ b
same_answer a b h = ground arith

-- What a chain that returned has done: its first part returned, and the rest went on from there.
pub bind-ok :
    {S E A B : Type 0} (m : Action S E A) (f : A → Action S E B) (s : S) (b : B)
    → result ((m >>= f) s) ≡ ok b
    → (a : A) × (result (m s) ≡ ok a)
      × (result (f a (after (m s))) ≡ ok b)
      × (after ((m >>= f) s) ≡ after (f a (after (m s))))
bind-ok m f s b h = elim (Result-cases (result (m s))) [
  | inl (a, e) ↦ let q = bind-returned m f s a e in (a, e, ap result (sym q) ∙ h, ap after q)
  | inr (x, e) ↦ absurd (ok-err b x (sym h ∙ ap result (bind-threw m f s x e)))
]

pub then-ok :
    {S E A B : Type 0} (m : Action S E A) (k : Action S E B) (s : S) (b : B)
    → result ((m >> k) s) ≡ ok b
    → (a : A) × (result (m s) ≡ ok a)
      × (result (k (after (m s))) ≡ ok b)
      × (after ((m >> k) s) ≡ after (k (after (m s))))
then-ok m k s b h = elim (Result-cases (result (m s))) [
  | inl (a, e) ↦ let q = then-returned m k s a e in (a, e, ap result (sym q) ∙ h, ap after q)
  | inr (x, e) ↦ absurd (ok-err b x (sym h ∙ ap result (then-threw m k s x e)))
]

-- A call leaves a predicate of the state as it was, whether it returns or throws.
unfoldable pub Keeps : {S E A : Type 0} → (S → Type 0) → Action S E A → Type 0
Keeps {S = S} P m = (s : S) → P s → P (after (m s))

-- The errors of a call satisfy a predicate.
unfoldable pub Throws : {S E A : Type 0} → (E → Type 0) → Action S E A → Type 0
Throws {S = S} {E = E} Q m = (s : S) (e : E) → result (m s) ≡ err e → Q e

module _ {S E A B : Type 0} where
  pub bind-Keeps :
      (P : S → Type 0) (m : Action S E A) (f : A → Action S E B)
      → Keeps P m
      → ((a : A) → Keeps P (f a))
      → Keeps P (m >>= f)
  unfolding Keeps
  bind-Keeps P m f k l s p = elim (Result-cases (result (m s))) [
    | inl (a, e) ↦
        subst (λ r. P (after r)) (sym (bind-returned m f s a e)) (l a (after (m s)) (k s p))
    | inr (x, e) ↦ subst (λ r. P (after r)) (sym (bind-threw m f s x e)) (k s p)
  ]

  pub then-Keeps :
      (P : S → Type 0) (m : Action S E A) (f : Action S E B)
      → Keeps P m
      → Keeps P f
      → Keeps P (m >> f)
  unfolding Keeps
  then-Keeps P m f k l s p = elim (Result-cases (result (m s))) [
    | inl (a, e) ↦
        subst (λ r. P (after r)) (sym (then-returned m f s a e)) (l (after (m s)) (k s p))
    | inr (x, e) ↦ subst (λ r. P (after r)) (sym (then-threw m f s x e)) (k s p)
  ]

  pub bind-Throws :
      (Q : E → Type 0) (m : Action S E A) (f : A → Action S E B)
      → Throws Q m
      → ((a : A) → Throws Q (f a))
      → Throws Q (m >>= f)
  unfolding Throws
  bind-Throws Q m f k l s e h = elim (Result-cases (result (m s))) [
    | inl (a, x) ↦ l a (after (m s)) e (ap result (sym (bind-returned m f s a x)) ∙ h)
    | inr (e', x) ↦
        subst Q (same_error e' e (ap result (sym (bind-threw m f s e' x)) ∙ h)) (k s e' x)
  ]

  pub then-Throws :
      (Q : E → Type 0) (m : Action S E A) (f : Action S E B)
      → Throws Q m
      → Throws Q f
      → Throws Q (m >> f)
  unfolding Throws
  then-Throws Q m f k l s e h = elim (Result-cases (result (m s))) [
    | inl (a, x) ↦ l (after (m s)) e (ap result (sym (then-returned m f s a x)) ∙ h)
    | inr (e', x) ↦
        subst Q (same_error e' e (ap result (sym (then-threw m f s e' x)) ∙ h)) (k s e' x)
  ]

module _ {S E : Type 0} where
  pub throw_if-Keeps : (P : S → Type 0) (b : Bool) (e : E) → Keeps P (throw_if b e)
  unfolding Keeps
  throw_if-Keeps P true e s p = p
  throw_if-Keeps P false e s p = p

  pub throw_if-false :
      (b : Bool) (e : E) (s : S) (u : Unit {0}) → result (throw_if b e s) ≡ ok u → b ≡ false
  throw_if-false b e s u h = ground arith

pub throw_if-Throws :
    (S : Type 0) {E : Type 0} (Q : E → Type 0) (b : Bool) (e : E)
    → Q e
    → Throws {S = S} Q (throw_if b e)
unfolding Throws
throw_if-Throws S Q true e q s e' h = subst Q (same_error e e' h) q
throw_if-Throws S Q false e q s e' h = absurd (ok-err tt e' h)

module _ {S : Type 0} (E A : Type 0) (P : S → Type 0) where
  pub pure-Keeps : (a : A) → Keeps {E = E} P (pure a)
  unfolding Keeps
  pure-Keeps a s p = p

  pub throw-Keeps : (e : E) → Keeps {A = A} P (throw e)
  unfolding Keeps
  throw-Keeps e s p = p
