-- ===== src/Auth/Service/Inputs.antt =====
-- The normalisers of apps/auth/src/a2/contracts.ts and auth-service.ts. `toLowerCase` is the
-- runtime's, with the case tables of Unicode: it is an argument.
use kovcheg.Base.{
  ℕ, Bool, false, ◌&&◌, ◌||◌, not, [], ◌∷◌, ltb, leb, ◌==◌, if◌then◌else◌, all, length, Result, ok,
  err,
}
use kovcheg.Text.{Text, codes}
use kovcheg.Text.Splitting.{is_digit}
use kovcheg.Text.Whitespace.{is_whitespace, trim, squeeze_whitespace}
use kovcheg.Auth.Service.Policy.{ServiceError, auth, invalid_input, is_positive_integer}

-- The class `[^\s@]`.
unfoldable pub is_address_unit : ℕ → Bool
unfolding is_whitespace
is_address_unit u = not (is_whitespace u) && not (u == b'@')

-- After the `@`: `[^\s@]+$`
unfoldable pub is_domain : Text → Bool
unfolding is_address_unit
is_domain [] = false
is_domain (u ∷ t) = all is_address_unit (u ∷ t)

-- Inside `[^\s@]+@…`, after at least one unit.
unfoldable pub is_address_rest : Text → Bool
unfolding is_address_unit is_domain
is_address_rest [] = false
is_address_rest (u ∷ t) =
    let rest = is_address_rest t in
    if u == b'@' then is_domain t else if is_address_unit u then rest else false

-- `/^[^\s@]+@[^\s@]+$/`
unfoldable pub is_address : Text → Bool
unfolding is_address_rest
is_address [] = false
is_address (u ∷ t) = if is_address_unit u then is_address_rest t else false

pub record EmailSubmission : Type 0 where
  pub display_email : Text
  pub normalized_email : Text

module _ (to_lower_case : Text → Text) where
  unfoldable pub normalize_email_submission : Text → Result ServiceError EmailSubmission
  unfolding is_address
  normalize_email_submission value =
      let display_email = trim value in
      let normalized = to_lower_case display_email in
      if ltb (length normalized) 3 || ltb 254 (length normalized) || not (is_address normalized)
      then err (auth invalid_input)
      else ok (record { display_email = display_email; normalized_email = normalized })

  unfoldable pub normalize_email : Text → Result ServiceError Text
  unfolding normalize_email_submission
  normalize_email value = elim (normalize_email_submission value) [
    | ok submission ↦ ok submission.normalized_email
    | err e ↦ err e
  ]

unfoldable pub normalize_display_name : Text → Result ServiceError Text
normalize_display_name value =
    let normalized = squeeze_whitespace (trim value) in
    if ltb (length normalized) 1 || ltb 120 (length normalized)
    then err (auth invalid_input)
    else ok normalized

unfoldable pub normalize_rate_limit_dimension : Text → Result ServiceError Text
normalize_rate_limit_dimension value =
    let normalized = trim value in
    if ltb (length normalized) 1 || ltb 256 (length normalized)
    then err (auth invalid_input)
    else ok normalized

abbrev pub is_lower : ℕ → Bool
is_lower u = leb b'a' u && leb u b'z'

abbrev pub is_reason_unit : ℕ → Bool
is_reason_unit u = is_lower u || is_digit u || u == b'.' || u == b'-'

-- `/^[a-z][a-z0-9.-]{2,63}$/u`
unfoldable pub is_reason : Text → Bool
is_reason [] = false
is_reason (u ∷ t) = is_lower u && all is_reason_unit t && leb 2 (length t) && leb (length t) 63

unfoldable pub normalize_authorization_reason : (Text → Text) → Text → Result ServiceError Text
unfolding is_reason
normalize_authorization_reason to_lower_case value =
    let normalized = to_lower_case (trim value) in
    if is_reason normalized then ok normalized else err (auth invalid_input)

unfoldable pub normalize_authorization_version : ℕ → Result ServiceError ℕ
unfolding is_positive_integer
normalize_authorization_version value =
    if is_positive_integer value then ok value else err (auth invalid_input)

-- `/^\d{4,9}$/.test(code) ? code : 'invalid'`
unfoldable pub candidate_code : Text → Text
candidate_code code =
    if all is_digit code && leb 4 (length code) && leb (length code) 9
    then code
    else codes "invalid"
