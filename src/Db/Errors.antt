-- ===== src/Db/Errors.antt =====
-- Errors of database/sql and of the MySQL driver, and the tests of
-- app/backend/internal/handler/repost.go on them.
use Prim.Native.Char.{code}
use Prim.Native.String.{String}
use sakura_intern_team_e.Prelude.{ℕ, Bool, true, false, ◌&&◌, ◌||◌, [], ◌∷◌, ◌==◌}
use sakura_intern_team_e.Db.Tables.{Text}

-- The code points of a text of the source.
abbrev pub runes : String → Text
runes (String.◌∷◌ letter letters) = code letter ∷ runes letters
runes String.[] = []

-- sql.ErrNoRows, a *mysql.MySQLError with its number and message, and any other error, such as a
-- lost connection or a cancelled context
pub data DbError : Type 0 where
  no_rows : DbError
  mysql : ℕ → Text → DbError
  other : DbError

abbrev pub is_prefix : Text → Text → Bool
is_prefix [] s = true
is_prefix (c ∷ p) [] = false
is_prefix (c ∷ p) (d ∷ s) = c == d && is_prefix p s

-- strings.Contains(s, p)
abbrev pub text_contains : Text → Text → Bool
text_contains [] p = is_prefix p []
text_contains (c ∷ s) p = is_prefix p (c ∷ s) || text_contains s p

-- isDuplicateKeyError
unfoldable pub is_duplicate_key_error : DbError → Bool
is_duplicate_key_error no_rows = false
is_duplicate_key_error (mysql number message) = number == 1062
is_duplicate_key_error other = false

-- isRetryableLockError
unfoldable pub is_retryable_lock_error : DbError → Bool
is_retryable_lock_error no_rows = false
is_retryable_lock_error (mysql number message) = number == 1213 || number == 1467
is_retryable_lock_error other = false

-- isMissingPostError
unfoldable pub is_missing_post_error : DbError → Bool
is_missing_post_error no_rows = false
is_missing_post_error (mysql number message) =
    number == 1452 && text_contains message (runes "REFERENCES `posts`")
is_missing_post_error other = false

-- errors.Is(err, sql.ErrNoRows)
abbrev pub is_no_rows : DbError → Bool
is_no_rows no_rows = true
is_no_rows (mysql number message) = false
is_no_rows other = false

-- What the server answers when a constraint refuses a row.
abbrev pub duplicate_entry : DbError
duplicate_entry = mysql 1062 (runes "Duplicate entry")

abbrev pub too_long_value : DbError
too_long_value = mysql 1406 (runes "Data too long for column")

abbrev pub missing_user : DbError
missing_user = mysql 1452 (runes "REFERENCES `users` (`id`)")

abbrev pub missing_post : DbError
missing_post = mysql 1452 (runes "REFERENCES `posts` (`id`)")

abbrev pub check_violated : DbError
check_violated = mysql 4025 (runes "CONSTRAINT failed")
