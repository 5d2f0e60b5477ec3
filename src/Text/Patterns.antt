-- ===== src/Text/Patterns.antt =====
-- Regular expressions whose match has a fixed length, and numerals with no leading zero.
use kovcheg.Base.{
  ℕ, zero, suc, ◌≡◌, refl, Bool, true, false, ◌&&◌, ◌||◌, List, [], ◌∷◌, ◌++◌, arith, leb, ◌==◌,
  all, if◌then◌else◌,
}
use kovcheg.Text.{Text, codes}
use kovcheg.Text.Splitting.{is_digit}

-- Each unit of the text is in the class at its place.
unfoldable pub matches_units : List (ℕ → Bool) → Text → Bool
matches_units [] [] = true
matches_units [] (u ∷ t) = false
matches_units (c ∷ cs) [] = false
matches_units (c ∷ cs) (u ∷ t) = let rest = matches_units cs t in if c u then rest else false

abbrev times : ℕ → (ℕ → Bool) → List (ℕ → Bool) → List (ℕ → Bool)
times zero c cs = cs
times (suc n) c cs = c ∷ times n c cs

-- `[0-9a-f]` with the flag `i`
abbrev is_hex : ℕ → Bool
is_hex u = is_digit u || (leb b'a' u && leb u b'f') || (leb b'A' u && leb u b'F')

abbrev is_dash : ℕ → Bool
is_dash u = u == b'-'

-- `[89ab]` with the flag `i`
abbrev is_variant : ℕ → Bool
is_variant u = u == b'8' || u == b'9' || u == b'a' || u == b'b' || u == b'A' || u == b'B'

-- `/^[0-9a-f]{8}-[0-9a-f]{4}-[1-8][0-9a-f]{3}-[89ab][0-9a-f]{3}-[0-9a-f]{12}$/i`, where `last` is
-- the last version digit that the class allows
abbrev pub is_uuid : ℕ → Text → Bool
is_uuid last = matches_units (
    times 8 is_hex (
      is_dash
      ∷ times 4 is_hex (
          is_dash
          ∷ (λ u. leb b'1' u && leb u last)
          ∷ times 3 is_hex (is_dash ∷ is_variant ∷ times 3 is_hex (is_dash ∷ times 12 is_hex [])))))

-- `/^(0|[1-9][0-9]*)$/`
unfoldable pub is_numeral : Text → Bool
is_numeral [] = false
is_numeral (u ∷ t) =
    if u == b'0' then elim t [ [] ↦ true | v ∷ rest ↦ false ] else is_digit u && all is_digit t

uuid_some : is_uuid b'8' (codes "00000000-0000-4000-8000-00000000400A") ≡ true
unfolding matches_units
uuid_some = refl

-- A class may be widened.
matches_units-wider :
    (cs ds : List (ℕ → Bool)) (c d : ℕ → Bool) (t : Text)
    → ((u : ℕ) → c u ≡ true → d u ≡ true)
    → matches_units (cs ++ c ∷ ds) t ≡ true
    → matches_units (cs ++ d ∷ ds) t ≡ true
unfolding matches_units
matches_units-wider [] ds c d [] f h = absurd (ground arith)
matches_units-wider [] ds c d (u ∷ t) f h = ground (arith, f u)
matches_units-wider (b ∷ cs) ds c d [] f h = absurd (ground arith)
matches_units-wider (b ∷ cs) ds c d (u ∷ t) f h = ground (arith, matches_units-wider cs ds c d t f)

-- The versions 1 to 5 are among 1 to 8.
pub is_uuid-wider : (t : Text) → is_uuid b'5' t ≡ true → is_uuid b'8' t ≡ true
is_uuid-wider t h =
    matches_units-wider (times 8 is_hex (is_dash ∷ times 4 is_hex (is_dash ∷ [])))
      (times 3 is_hex (is_dash ∷ is_variant ∷ times 3 is_hex (is_dash ∷ times 12 is_hex [])))
      (λ u. leb b'1' u && leb u b'5') (λ u. leb b'1' u && leb u b'8') t (λ u k. ground arith) h
