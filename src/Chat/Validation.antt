-- ===== src/Chat/Validation.antt =====
-- The parts of a history request, apps/api/src/message-flow/message-flow.validation.ts.
use kovcheg.Base.{
  ℕ, ◌≡◌, refl, Bool, true, false, ◌&&◌, Option, none, some, leb, ◌==◌, if◌then◌else◌,
}
use kovcheg.Text.{Text, codes}
use kovcheg.Text.Numerals.{value_from}
use kovcheg.Text.Patterns.{is_uuid, is_numeral}

-- A value of a query string or a path: there may be none, and Express makes no text of every value.
pub data Given : Type 0 where
  absent other : Given
  text : Text → Given

abbrev pub is_given : Given → Bool
is_given absent = false
is_given other = true
is_given (text t) = true

unfoldable pub parse_uuid : (Text → Text) → Given → Option Text
parse_uuid to_lower_case absent = none
parse_uuid to_lower_case other = none
parse_uuid to_lower_case (text t) = if is_uuid b'8' t then some (to_lower_case t) else none

abbrev pub maximum_sequence : ℕ
maximum_sequence = 9223372036854775807

-- The sequence that a numeral denotes.
unfoldable pub parse_after_sequence : Given → Option ℕ
parse_after_sequence absent = none
parse_after_sequence other = none
parse_after_sequence (text t) =
    if is_numeral t && leb (value_from 0 t) maximum_sequence then some (value_from 0 t) else none

-- A numeral has no leading zero, so the only one of value 0 is `0`.
unfoldable pub parse_before_sequence : Given → Option ℕ
parse_before_sequence value = elim (parse_after_sequence value) [
  | none ↦ none
  | some candidate ↦ if candidate == 0 then none else some candidate
]

-- `/^[1-9][0-9]*$/`, and a limit from 1 to 100. `parseInt` rounds a numeral over the safe integers
-- to no smaller a number, which is refused all the same.
unfoldable pub parse_limit_text : Text → Option ℕ
parse_limit_text candidate =
    if is_numeral candidate && leb 1 (value_from 0 candidate) && leb (value_from 0 candidate) 100
    then some (value_from 0 candidate)
    else none

unfoldable pub parse_history_limit : Given → Option ℕ
parse_history_limit absent = parse_limit_text (codes "50")
parse_history_limit other = none
parse_history_limit (text t) = parse_limit_text t

limit_default : parse_history_limit absent ≡ some 50
unfolding parse_history_limit parse_limit_text is_numeral
limit_default = refl
