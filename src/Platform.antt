-- ===== src/Platform.antt =====
-- What the backend takes from outside the repository, as a parameter of the model: the server's
-- comparison of texts, and the password hashes of golang.org/x/crypto/bcrypt.
use sakura_intern_team_e.Prelude.{Bool}
use sakura_intern_team_e.Db.Tables.{Text}

-- What bcrypt.GenerateFromPassword returns: the hash, ErrPasswordTooLong, or another error.
pub data Hashed : Type 0 where
  hashed : Text → Hashed
  too_long failed : Hashed

pub record Platform : Type 0 where
  -- `a = b` in the columns' collation
  pub equal_texts : Text → Text → Bool
  -- `text LIKE pattern`, in this order
  pub is_like : Text → Text → Bool
  -- bcrypt.GenerateFromPassword and bcrypt.CompareHashAndPassword
  pub hash : Text → Hashed
  pub matches : Text → Text → Bool
