-- ===== src/Handler/Auth/Roundtrip.antt =====
-- Registering, then logging in with the same email and password.
use sakura_intern_team_e.Prelude.{
  ℕ, suc, ◌+◌, ◌≡◌, refl, ap, true, false, none, some, List, [], ◌∷◌, ltb, any, ==_refl, arith,
}
use sakura_intern_team_e.Db.Tables.{Text, Db, UserRow, SessionRow}
use sakura_intern_team_e.Db.Errors.{is_prefix}
use sakura_intern_team_e.Db.Rows.{find_user, has_user}
use sakura_intern_team_e.Model.{User}
use sakura_intern_team_e.Platform.{Platform, hashed}
use sakura_intern_team_e.Middleware.{same_text, live_user}
use sakura_intern_team_e.Action.{World, ok}
use sakura_intern_team_e.Action.Calm.{IsCalm, Runs, Runs-done, Runs-bind, Runs-or_else, Runs-pure}
use sakura_intern_team_e.Action.Calm.Rows.{Runs-row}
use sakura_intern_team_e.Handler.Response.{Body, respond_json}
use sakura_intern_team_e.Handler.Bulk.View.{user_view, fetch_user-calm}
use sakura_intern_team_e.Handler.Auth.{
  Registration, new_user, is_taken, fits_columns, insert_user, insert_session, time_now,
  open_session, is_empty, find_email, register_user, register, login_user, login,
}

is_prefix_refl : (t : Text) → is_prefix t t ≡ true
is_prefix_refl [] = refl
is_prefix_refl (c ∷ t) = ground (arith, ==_refl c, is_prefix_refl t)

same_text_refl : (t : Text) → same_text t t ≡ true
same_text_refl t = ground (arith, is_prefix_refl t)

-- No session has the token yet.
abbrev pub IsNewToken : Text → List SessionRow → Type 0
IsNewToken token sessions = any (λ (s : SessionRow). same_text s.id token) sessions ≡ false

abbrev pub session_row : Text → ℕ → ℕ → SessionRow
session_row token user expires = record { id = token; user_id = user; expires_at = expires }

abbrev pub with_session : Text → ℕ → ℕ → Db → Db
with_session token user expires db = record db {
  sessions = session_row token user expires ∷ db.sessions;
}

abbrev pub registered : Registration → Text → ℕ → Db → Db
registered r hash now db = record db {
  users = new_user db.next_user r hash now ∷ db.users;
  next_user = suc db.next_user;
}

live_user-head :
    (token : Text) (user expires later : ℕ) (ss : List SessionRow)
    → ltb later expires ≡ true
    → live_user token later (session_row token user expires ∷ ss) ≡ some user
unfolding live_user
live_user-head token user expires later ss h = rw (same_text_refl token, h) refl

module _ (now : ℕ) where
  time_now-calm : {E : Type 0} (db : Db) → Runs now db (time_now {E = E}) (ok now) db
  unfolding time_now
  time_now-calm db = record { at = λ w c e. (ap ok (c.time w.clock), e, c) }

  open_session-calm :
      (db : Db) (token : Text) (user : ℕ)
      → IsNewToken token db.sessions
      → has_user user db.users ≡ true
      → Runs now db
          (open_session (some token) user)
          (ok tt)
          (with_session token user (now + 86400) db)
  unfolding open_session insert_session
  open_session-calm db token user new known =
      Runs-bind _ (Runs-pure token)
        (Runs-bind _ (time_now-calm db) (Runs-or_else _ (Runs-done _ (rw (new, known) refl))))

  module _ (sys : Platform) (r : Registration) (hash : Text) (db : Db)
      (fits : fits_columns r.username r.display_name r.email ≡ true)
      (free : any (is_taken sys r.username r.email) db.users ≡ false)
      (hashes : sys.hash r.password ≡ hashed hash) where
    register_user-calm :
        (token : Text)
        → IsNewToken token db.sessions
        → Runs now db
            (register_user sys (some token) r)
            (ok (
              respond_json 201 (
                Body.user_body (
                  some (
                    user_view
                      (registered r hash now db)
                      none
                      (new_user db.next_user r hash now))))))
            (with_session token db.next_user (now + 86400) (registered r hash now db))
    unfolding register_user insert_user
    register_user-calm token new =
        let id = db.next_user in
        let known : has_user id (new_user id r hash now ∷ db.users) ≡ true =
          ground (arith, ==_refl id) in
        rw hashes (
          Runs-bind _ (Runs-pure hash) (
            Runs-bind _ (Runs-or_else _ (Runs-done _ (rw (fits, free) refl))) (
              Runs-bind _
                (Runs-or_else _
                  (fetch_user-calm now (registered r hash now db) none id (rw (==_refl id) refl)))
                (Runs-bind _ (open_session-calm (registered r hash now db) token id new known)
                  (Runs-pure _)))))

  login-calm :
      (sys : Platform) (db : Db) (token email password : Text) (u : UserRow)
      → find_email sys email db ≡ some u
      → find_user u.id db.users ≡ some u
      → has_user u.id db.users ≡ true
      → sys.matches u.password_hash password ≡ true
      → IsNewToken token db.sessions
      → Runs now db
          (login sys (some token) (some (email, password)))
          (ok (
            respond_json 200 (
              Body.user_body (some (user_view (with_session token u.id (now + 86400) db) none u)))))
          (with_session token u.id (now + 86400) db)
  unfolding login login_user
  login-calm sys db token email password u found same known matching new =
      Runs-bind _ (Runs-or_else _ (Runs-row (find_email sys email) found)) (
        rw matching (
          Runs-bind _ (open_session-calm db token u.id new known) (
            Runs-bind _
              (Runs-or_else _ (
                Runs-bind _
                  (fetch_user-calm now (with_session token u.id (now + 86400) db) none u.id same)
                  (Runs-pure _)))
              (Runs-pure _))))

-- What a registration has to be: nothing empty, nothing too long for its column, and neither the
-- username nor the email equal to one in the table.
pub record IsNewcomer (sys : Platform) (r : Registration) (db : Db) : Type 0 where
  pub named : is_empty r.username ≡ false
  pub mailed : is_empty r.email ≡ false
  pub locked : is_empty r.password ≡ false
  pub fits : fits_columns r.username r.display_name r.email ≡ true
  pub free : any (is_taken sys r.username r.email) db.users ≡ false

register-calm :
    (now : ℕ) (sys : Platform) (token : Text) (r : Registration) (hash : Text) (db : Db)
    → IsNewcomer sys r db
    → sys.hash r.password ≡ hashed hash
    → IsNewToken token db.sessions
    → Runs now db
        (register sys (some token) (some r))
        (ok (
          respond_json 201 (
            Body.user_body (
              some
                (user_view (registered r hash now db) none (new_user db.next_user r hash now))))))
        (with_session token db.next_user (now + 86400) (registered r hash now db))
unfolding register
register-calm now sys token r hash db h hashes new =
    rw (h.named, h.mailed, h.locked)
      (register_user-calm now sys r hash db h.fits h.free hashes token new)

-- In a calm world where the server finds an email equal to itself and bcrypt's hash of the password
-- matches the password: a newcomer that registers is answered 201, and a login with the same email and
-- password then answers 200 with the same new user, and until 24 hours after, the middleware finds that
-- user for each of the two tokens, which are new and differ.
pub register-login :
    (now later : ℕ) (sys : Platform) (first second hash : Text) (r : Registration) (w : World)
    → IsCalm now w
    → IsNewcomer sys r w.db
    → sys.hash r.password ≡ hashed hash
    → sys.matches hash r.password ≡ true
    → sys.equal_texts r.email r.email ≡ true
    → IsNewToken first w.db.sessions
    → IsNewToken second w.db.sessions
    → same_text first second ≡ false
    → ltb later (now + 86400) ≡ true
    → let (answer, v) = register sys (some first) (some r) w in
      let (again, z) = login sys (some second) (some (r.email, r.password)) v in
      (a : User) × (b : User) × (answer ≡ ok (respond_json 201 (Body.user_body (some a))))
      × (again ≡ ok (respond_json 200 (Body.user_body (some b))))
      × (a.id ≡ w.db.next_user)
      × (b.id ≡ w.db.next_user)
      × (live_user first later v.db.sessions ≡ some w.db.next_user)
      × (live_user second later z.db.sessions ≡ some w.db.next_user)
unfolding user_view
register-login now later sys first second hash r w calm h hashes matching equal new1 new2 differ
      in_time =
    let id = w.db.next_user in
    let u = new_user id r hash now in
    let one = (register-calm now sys first r hash w.db h hashes new1).at w calm refl in
    let db1 = with_session first id (now + 86400) (registered r hash now w.db) in
    let two =
      (login-calm now sys db1 second r.email r.password u (rw equal refl) (rw (==_refl id) refl)
          (rw (==_refl id) refl) matching (rw (differ, new2) refl)).at
        (register sys (some first) (some r) w).1 one.2 one.1 in
    (
      _,
      _,
      one.0,
      two.0,
      refl,
      refl,
      rw (one.1) (live_user-head first id (now + 86400) later w.db.sessions in_time),
      rw (two.1) (live_user-head second id (now + 86400) later db1.sessions in_time),
    )
