-- ===== src/Text/Whitespace.antt =====
-- `text.trim()` and the class `\s` of regular expressions, over UTF-16 code units.
use kovcheg.Base.{ℕ, ◌≡◌, refl, Bool, true, false, ◌&&◌, ◌||◌, [], ◌∷◌, leb, ◌==◌, if◌then◌else◌}
use mathlib.Core.List.{reverse}
use kovcheg.Text.{Text, codes}

-- White space and line terminators of ECMAScript.
unfoldable pub is_whitespace : ℕ → Bool
is_whitespace u =
    (leb 9 u && leb u 13)
    || u == 32
    || u == 0xa0
    || u == 0x1680
    || (leb 0x2000 u && leb u 0x200a)
    || u == 0x2028
    || u == 0x2029
    || u == 0x202f
    || u == 0x205f
    || u == 0x3000
    || u == 0xfeff

unfoldable pub trim_start : Text → Text
unfolding is_whitespace
trim_start [] = []
trim_start (u ∷ t) = let rest = trim_start t in if is_whitespace u then rest else u ∷ t

unfoldable pub trim : Text → Text
unfolding trim_start
trim t = reverse (trim_start (reverse (trim_start t)))

-- `text.replace(/\s+/g, ' ')`; `inside` says that the run of white space has been replaced.
squeeze : Bool → Text → Text
unfolding is_whitespace
squeeze inside [] = []
squeeze inside (u ∷ t) =
    let in_run = squeeze true t in
    let out_of_run = squeeze false t in
    if is_whitespace u then (if inside then in_run else 32 ∷ in_run) else u ∷ out_of_run

unfoldable pub squeeze_whitespace : Text → Text
unfolding squeeze
squeeze_whitespace t = squeeze false t

trim_both : trim (codes "  a b ") ≡ codes "a b"
unfolding trim
trim_both = refl

squeeze_runs : squeeze_whitespace (codes "a  b   c") ≡ codes "a b c"
unfolding squeeze_whitespace
squeeze_runs = refl
