-- ===== src/Handler/Auth.antt =====
-- app/backend/internal/handler/auth.go: registering, logging in and logging out.
pub mod Sessions
pub mod Roundtrip
pub mod Tables
use sakura_intern_team_e.Prelude.{
  ℕ, suc, ◌+◌, Bool, true, false, ◌&&◌, ◌||◌, Option, none, some, List, [], ◌∷◌, leb, if◌then◌else◌,
  any, find, length, not, filter,
}
use sakura_intern_team_e.Db.Tables.{Text, Db, UserRow, SessionRow}
use sakura_intern_team_e.Db.Errors.{
  DbError, is_duplicate_key_error, duplicate_entry, missing_user, too_long_value,
}
use sakura_intern_team_e.Db.Rows.{has_user}
use sakura_intern_team_e.Platform.{Platform, Hashed, hashed, too_long, failed}
use sakura_intern_team_e.Action.{
  Act, Query, ok, done, refused, stmt, pure, raise, ◌>>=◌, ◌>>◌, reading_row,
}
use sakura_intern_team_e.Handler.Fetch.{fetch_user}
use sakura_intern_team_e.Handler.User.{user_or_zero}
use sakura_intern_team_e.Handler.Response.{
  Response, Body, respond_json, respond_error, server_error, or_server_error, or_respond,
}
use sakura_intern_team_e.Middleware.{same_text}

-- DELETE FROM sessions WHERE id = ?
unfoldable pub delete_session : Text → Query Unit
delete_session cookie now db =
    done tt (record db {
      sessions = filter (λ (s : SessionRow). not (same_text s.id cookie)) db.sessions;
    })

-- Logout, on the session cookie; the answer also clears the cookie.
unfoldable pub logout : Option Text → Act Response Response
logout none = raise (respond_error 400 "not logged in")
logout (some cookie) =
    or_server_error (stmt (delete_session cookie))
    >> pure (respond_json 200 (Body.message "logged out"))

-- UNIQUE on username and on email
abbrev pub is_taken : Platform → Text → Text → UserRow → Bool
is_taken sys username email u = sys.equal_texts u.username username || sys.equal_texts u.email email

-- The sizes of the columns.
abbrev pub fits_columns : Text → Text → Text → Bool
fits_columns username display_name email =
    leb (length username) 50 && leb (length display_name) 100 && leb (length email) 255

-- What POST /register sends.
pub record Registration : Type 0 where
  pub username : Text
  pub display_name : Text
  pub email : Text
  pub password : Text

abbrev pub new_user : ℕ → Registration → Text → ℕ → UserRow
new_user id r password_hash now = record {
  id = id;
  username = r.username;
  display_name = r.display_name;
  email = r.email;
  password_hash = password_hash;
  bio = none;
  created_at = now;
}

-- INSERT INTO users ...; the new id
unfoldable pub insert_user : Platform → Registration → Text → Query ℕ
insert_user sys r password_hash now db =
    if not (fits_columns r.username r.display_name r.email)
    then refused too_long_value
    else if any (is_taken sys r.username r.email) db.users
    then refused duplicate_entry
    else done db.next_user (record db {
      users = new_user db.next_user r password_hash now ∷ db.users;
      next_user = suc db.next_user;
    })

-- INSERT INTO sessions ..., whose primary key is the token
unfoldable pub insert_session : Text → ℕ → ℕ → Query Unit
insert_session token user expires now db =
    if any (λ (s : SessionRow). same_text s.id token) db.sessions
    then refused duplicate_entry
    else if not (has_user user db.users)
    then refused missing_user
    else done tt (record db {
      sessions = record { id = token; user_id = user; expires_at = expires } ∷ db.sessions;
    })

-- time.Now(), which shows the server's time
unfoldable pub time_now : {E : Type 0} → Act E ℕ
time_now w = (ok (w.env w.clock).now, w)

-- `token, err := generateToken()`, on the token that the random bytes of the request spell in hex
abbrev pub generated : Option Text → Act Response Text
generated none = raise server_error
generated (some token) = pure token

-- The new session of 24 hours.
unfoldable pub open_session : Option Text → ℕ → Act Response Unit
open_session drawn user = do
  token ← generated drawn
  now ← time_now
  or_server_error (stmt (insert_session token user (now + 86400)))

abbrev pub is_empty : Text → Bool
is_empty [] = true
is_empty (c ∷ cs) = false

-- `hash, err := bcrypt.GenerateFromPassword(...)`
abbrev pub password_hash_of : Hashed → Act Response Text
password_hash_of (hashed hash) = pure hash
password_hash_of too_long = raise (respond_error 400 "password must be at most 72 bytes")
password_hash_of failed = raise server_error

abbrev pub taken_or_error : DbError → Response
taken_or_error e =
    if is_duplicate_key_error e
    then respond_error 409 "username or email already exists"
    else server_error

unfoldable pub register_user : Platform → Option Text → Registration → Act Response Response
register_user sys drawn r = do
  hash ← password_hash_of (sys.hash r.password)
  id ← or_respond (stmt (insert_user sys r hash)) taken_or_error
  user ← or_server_error (fetch_user none id)
  session ← open_session drawn id
  pure (respond_json 201 (Body.user_body (some user)))

-- Register, on the decoded body; the answer also sets the cookie to the token.
unfoldable pub register : Platform → Option Text → Option Registration → Act Response Response
register sys drawn none = raise (respond_error 400 "invalid request")
register sys drawn (some r) =
    if is_empty r.username || is_empty r.email || is_empty r.password
    then raise (respond_error 400 "username, email, password are required")
    else register_user sys drawn r

abbrev pub find_email : Platform → Text → Db → Option UserRow
find_email sys email db = find (λ (u : UserRow). sys.equal_texts u.email email) db.users

abbrev pub refused_login : Response
refused_login = respond_error 401 "invalid email or password"

unfoldable pub login_user : Platform → Option Text → Text → UserRow → Act Response Response
login_user sys drawn password u =
    if not (sys.matches u.password_hash password) then raise refused_login else do
      session ← open_session drawn u.id
      user ← user_or_zero none u.id
      pure (respond_json 200 (Body.user_body user))

-- Login, on the decoded email and password; the answer also sets the cookie to the token.
unfoldable pub login : Platform → Option Text → Option (Text × Text) → Act Response Response
login sys drawn none = raise (respond_error 400 "invalid request")
login sys drawn (some (email, password)) =
    or_respond (stmt (reading_row (find_email sys email))) (λ e. refused_login)
    >>= login_user sys drawn password
