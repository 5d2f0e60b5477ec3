-- ===== src/Dict/Evolution.antt =====
-- How the contents of a map may change: what it holds stays, along a relation on the values, and
-- a predicate holds of all that it holds.
use kovcheg.Base.{◌≡◌, sym, subst, subst₂, inl, inr, Bool, none, some, arith, Option-cases}
use kovcheg.Text.{Text, text_discrete}
use kovcheg.Dict.{
  Dict, get, set, delete, update_values, update_first, get-set, get-delete, get-update_values,
  get-update_first, get-update_first-none,
}

module _ {V : Type 0} where
  -- What stands under the key stays there, and moves along `R` only.
  abbrev pub EvolvesAt : (V → V → Type 0) → Text → Dict V → Dict V → Type 0
  EvolvesAt R k d d' = (v : V) → get k d ≡ some v → (v' : V) × (get k d' ≡ some v') × R v v'

  abbrev pub Evolves : (V → V → Type 0) → Dict V → Dict V → Type 0
  Evolves R d d' = (k : Text) → EvolvesAt R k d d'

  abbrev pub AllValues : (Text → V → Type 0) → Dict V → Type 0
  AllValues P d = (k : Text) (v : V) → get k d ≡ some v → P k v

  module _ (R : V → V → Type 0) (R-refl : (v : V) → R v v) where
    pub Evolves-refl : (d : Dict V) → Evolves R d d
    Evolves-refl d k v e = (v, e, R-refl v)

    -- A write to a free key.
    pub Evolves-set_new : (k : Text) (w : V) (d : Dict V) → get k d ≡ none → Evolves R d (set k w d)
    Evolves-set_new k w d free j v e = (v, ground (arith, get-set j k w d), R-refl v)

    -- A write of a later value over one that is there.
    pub Evolves-set_later :
        (k : Text) (u w : V) (d : Dict V) → get k d ≡ some u → R u w → Evolves R d (set k w d)
    Evolves-set_later k u w d old later j v e = elim (text_discrete j k) [
      | yes same ↦ (w, ground (arith, get-set j k w d), subst_later same)
      | no other ↦ (v, ground (arith, get-set j k w d), R-refl v)
    ]
      where
        subst_later : j ≡ k → R v w
        subst_later same = subst (λ x. R x w) (ground arith) later

    pub Evolves-update_values :
        (f : V → V) (d : Dict V) → ((v : V) → R v (f v)) → Evolves R d (update_values f d)
    Evolves-update_values f d later k v e = (f v, ground (arith, get-update_values k f d), later v)

    pub Evolves-update_first :
        (p : V → Bool) (f : V → V) (d : Dict V)
        → ((v : V) → R v (f v))
        → Evolves R d (update_first p f d)
    Evolves-update_first p f d later k v e = elim (get-update_first p f k v d e) [
      | inl same ↦ (v, same, R-refl v)
      | inr changed ↦ (f v, changed.0, later v)
    ]

  pub EvolvesAt-trans :
      (R : V → V → Type 0)
      → ((u v w : V) → R u v → R v w → R u w)
      → (k : Text) (a b c : Dict V) → EvolvesAt R k a b
      → EvolvesAt R k b c
      → EvolvesAt R k a c
  EvolvesAt-trans R R-trans k a b c first second v e =
      let (v', e', r) = first v e in
      let (w, e'', r') = second v' e' in (w, e'', R-trans v v' w r r')

  module _ (P : Text → V → Type 0) where
    pub AllValues-set :
        (k : Text) (w : V) (d : Dict V) → P k w → AllValues P d → AllValues P (set k w d)
    AllValues-set k w d good h j v e = elim (text_discrete j k) [
      | yes same ↦ subst₂ P (sym same) (ground (arith, get-set j k w d)) good
      | no other ↦ h j v (ground (arith, get-set j k w d))
    ]

    pub AllValues-delete : (k : Text) (d : Dict V) → AllValues P d → AllValues P (delete k d)
    AllValues-delete k d h j v e = h j v (ground (arith, get-delete j k d))

    -- A loop over the values, where each stays good.
    pub AllValues-update_values :
        (f : V → V) (d : Dict V)
        → ((k : Text) (v : V) → P k v → P k (f v))
        → AllValues P d
        → AllValues P (update_values f d)
    AllValues-update_values f d good h j v e = elim (Option-cases (get j d)) [
      | inl missing ↦ absurd (ground (arith, get-update_values j f d))
      | inr (u, found) ↦
          subst (P j) (ground (arith, get-update_values j f d)) (good j u (h j u found))
    ]

    pub AllValues-update_first :
        (p : V → Bool) (f : V → V) (d : Dict V)
        → ((k : Text) (v : V) → P k v → P k (f v))
        → AllValues P d
        → AllValues P (update_first p f d)
    AllValues-update_first p f d good h j v e = elim (Option-cases (get j d)) [
      | inl missing ↦ absurd (ground (arith, get-update_first-none p f j d))
      | inr (u, found) ↦ elim (get-update_first p f j u d found) [
        | inl same ↦ subst (P j) (ground arith) (h j u found)
        | inr changed ↦ subst (P j) (ground (arith, changed.0)) (good j u (h j u found))
      ]
    ]

  -- A loop over the values that takes one predicate to another.
  pub AllValues-map :
      (P Q : Text → V → Type 0) (f : V → V) (d : Dict V)
      → ((k : Text) (v : V) → P k v → Q k (f v))
      → AllValues P d
      → AllValues Q (update_values f d)
  AllValues-map P Q f d good h j v e = elim (Option-cases (get j d)) [
    | inl missing ↦ absurd (ground (arith, get-update_values j f d))
    | inr (u, found) ↦
        subst (Q j) (ground (arith, get-update_values j f d)) (good j u (h j u found))
  ]
