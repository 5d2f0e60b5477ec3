-- ===== src/Chat/Failures.antt =====
-- How the PostgreSQL repository of apps/api/src/message-flow fails.
use kovcheg.Base.{Bool, false, ◌&&◌, ◌||◌, Option, none, some, [], ◌∷◌, ◌==◌, if◌then◌else◌}
use kovcheg.Text.{Text, codes, text_eq}

pub data MessageFlowRepositoryFailure : Type 0 where
  forbidden idempotency_key_reused internal invalid_request unavailable :
      MessageFlowRepositoryFailure

-- An error of the client library, of which the code and the constraint are read.
pub record PostgresError : Type 0 where
  pub code : Option Text
  pub constraint : Option Text

abbrev is_text : Option Text → Text → Bool
is_text none t = false
is_text (some s) t = text_eq s t

-- `code?.startsWith('08') === true`
abbrev starts_with_08 : Option Text → Bool
starts_with_08 none = false
starts_with_08 (some []) = false
starts_with_08 (some (u ∷ [])) = false
starts_with_08 (some (u ∷ v ∷ rest)) = u == b'0' && v == b'8'

unfoldable pub map_postgres_error : PostgresError → MessageFlowRepositoryFailure
map_postgres_error e =
    if is_text e.code (codes "42501")
    then forbidden
    else if is_text e.code (codes "23505")
        && is_text e.constraint (codes "messages_idempotency_unique")
    then idempotency_key_reused
    else if is_text e.code (codes "23505") || is_text e.code (codes "P0002")
    then invalid_request
    else if is_text e.code (codes "22001")
        || is_text e.code (codes "22P02")
        || is_text e.code (codes "23514")
    then invalid_request
    else if starts_with_08 e.code
        || is_text e.code (codes "ECONNREFUSED")
        || is_text e.code (codes "ENOTFOUND")
        || is_text e.code (codes "ETIMEDOUT")
        || is_text e.code (codes "57P01")
        || is_text e.code (codes "57P02")
        || is_text e.code (codes "57P03")
    then unavailable
    else internal
