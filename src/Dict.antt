-- ===== src/Dict.antt =====
-- A JavaScript `Map` with string keys: its entries in insertion order. A write to a key that is
-- there keeps the key's place.
pub mod Evolution
use kovcheg.Base.{
  ℕ, suc, ◌≡◌, refl, ◌⊎◌, Bool, true, false, Option, none, some, List, [], ◌∷◌, arith, ite,
  if◌then◌else◌, is_some,
}
use kovcheg.Text.{Text, text_discrete}

abbrev pub Dict {ℓ} : Type ℓ → Type ℓ
Dict V = List (Text × V)

module _ {ℓ} {V : Type ℓ} where
  -- `map.get(key)`
  unfoldable pub get : Text → Dict V → Option V
  get k [] = none
  get k ((j, v) ∷ d) = ite (text_discrete k j) (some v) (get k d)

  -- `map.has(key)`
  abbrev pub has : Text → Dict V → Bool
  has k d = is_some (get k d)

  -- `map.set(key, value)`
  unfoldable pub set : Text → V → Dict V → Dict V
  set k v [] = (k, v) ∷ []
  set k v ((j, w) ∷ d) = ite (text_discrete k j) ((k, v) ∷ d) ((j, w) ∷ set k v d)

  -- `map.delete(key)`
  unfoldable pub delete : Text → Dict V → Dict V
  delete k [] = []
  delete k ((j, w) ∷ d) = let rest = delete k d in ite (text_discrete k j) rest ((j, w) ∷ rest)

  -- `for (const value of map.values()) …`, where the body assigns to fields of `value`
  unfoldable pub update_values : (V → V) → Dict V → Dict V
  update_values f [] = []
  update_values f ((j, w) ∷ d) = (j, f w) ∷ update_values f d

  -- the number of values that pass a test, as a loop over `map.values()` counts them
  unfoldable pub count_values : (V → Bool) → Dict V → ℕ
  count_values p [] = 0
  count_values p ((j, w) ∷ d) = let rest = count_values p d in if p w then suc rest else rest

  -- `[...map.values()].some(p)`
  unfoldable pub some_value : (V → Bool) → Dict V → Bool
  some_value p [] = false
  some_value p ((j, w) ∷ d) = if p w then true else some_value p d

  -- a loop over `map.values()` that changes the first value which passes a test, and returns
  unfoldable pub update_first : (V → Bool) → (V → V) → Dict V → Dict V
  update_first p f [] = []
  update_first p f ((j, w) ∷ d) = if p w then (j, f w) ∷ d else (j, w) ∷ update_first p f d

  pub get-set :
      (j k : Text) (v : V) (d : Dict V)
      → get j (set k v d) ≡ ite (text_discrete j k) (some v) (get j d)
  unfolding get set
  get-set j k v [] = refl
  get-set j k v ((i, w) ∷ d) = ground (arith, get-set j k v d)

  pub get-set_self : (k : Text) (v : V) (d : Dict V) → get k (set k v d) ≡ some v
  get-set_self k v d = ground (arith, get-set k k v d)

  pub get-delete :
      (j k : Text) (d : Dict V) → get j (delete k d) ≡ ite (text_discrete j k) none (get j d)
  unfolding get delete
  get-delete j k [] = ground arith
  get-delete j k ((i, w) ∷ d) = ground (arith, get-delete j k d)

  pub get-update_values :
      (k : Text) (f : V → V) (d : Dict V)
      → get k (update_values f d) ≡ elim (get k d) [ none ↦ none | some v ↦ some (f v) ]
  unfolding get update_values
  get-update_values k f [] = refl
  get-update_values k f ((i, w) ∷ d) = ground (arith, get-update_values k f d)

  -- A value that is found passes no test that no value passes.
  pub some_value-false :
      (p : V → Bool) (k : Text) (v : V) (d : Dict V)
      → some_value p d ≡ false
      → get k d ≡ some v
      → p v ≡ false
  unfolding get some_value
  some_value-false p k v [] h e = ground arith
  some_value-false p k v ((i, w) ∷ d) h e = ground (arith, some_value-false p k v d)

  pub get-update_first :
      (p : V → Bool) (f : V → V) (k : Text) (v : V) (d : Dict V)
      → get k d ≡ some v
      → (get k (update_first p f d) ≡ some v)
        ⊎ ((get k (update_first p f d) ≡ some (f v)) × (p v ≡ true))
  unfolding get update_first
  get-update_first p f k v [] e = ground arith
  get-update_first p f k v ((i, w) ∷ d) e = ground (arith, get-update_first p f k v d)

  pub get-update_first-none :
      (p : V → Bool) (f : V → V) (k : Text) (d : Dict V)
      → get k d ≡ none
      → get k (update_first p f d) ≡ none
  unfolding get update_first
  get-update_first-none p f k [] e = refl
  get-update_first-none p f k ((i, w) ∷ d) e = ground (arith, get-update_first-none p f k d)

pub ruleset dict_laws = (get-set, get-delete, get-update_values)
