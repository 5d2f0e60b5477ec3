-- ===== src/Text.antt =====
-- A JavaScript string: the list of its UTF-16 code units.
pub mod Bytes
pub mod Whitespace
pub mod Splitting
pub mod Base64
pub mod Patterns
pub mod Numerals
pub mod Trimming
use Prim.Native.Char.{code}
use Prim.Native.String.{String}
use kovcheg.Base.{ℕ, ◌≡◌, refl, Bool, true, false, List, [], ◌∷◌, ℕ_discrete, arith}

abbrev pub Text : Type 0
Text = List ℕ

-- A literal of the source. All are ASCII, where a code point is a code unit.
abbrev pub codes : String → Text
codes String.[] = []
codes (String.◌∷◌ c s) = code c ∷ codes s

unfoldable pub text_discrete : Discrete Text
unfolding ℕ_discrete
text_discrete = hlevel ℕ_discrete

-- `left === right`
abbrev pub text_eq : Text → Text → Bool
text_eq left right = elim (text_discrete left right) [ yes _ ↦ true | no _ ↦ false ]

pub text_eq→eq : (s t : Text) → text_eq s t ≡ true → s ≡ t
text_eq→eq s t h = ground arith

pub text_eq_refl : (s : Text) → text_eq s s ≡ true
text_eq_refl s = ground arith

literal_eq : text_eq (codes "kovcheg") (codes "kovcheg") ≡ true
unfolding text_discrete
literal_eq = refl

literal_ne : text_eq (codes "kovcheg") (codes "kovchef") ≡ false
unfolding text_discrete
literal_ne = refl
