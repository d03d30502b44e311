-- ===== src/Handler/Auth/Tables.antt =====
-- Registering and logging in keep the tables well formed, whatever the environment does.
use sakura_intern_team_e.Prelude.{ℕ, suc, ◌≡◌, refl, true, Option, none, some, List, ◌∷◌, arith}
use sakura_intern_team_e.Platform.{Platform, Hashed, hashed, too_long, failed}
use sakura_intern_team_e.Db.Tables.{Text, Db, UserRow, MarkRow, FollowRow, PostRow}
use sakura_intern_team_e.Db.Rows.{has_user}
use sakura_intern_team_e.Db.Invariant.{IsWellFormed, MarkRefers, FollowRefers, All-mono}
use sakura_intern_team_e.Action.Keeps.{Keeps, keeps_rules}
use sakura_intern_team_e.Action.Database.{Upholds, Preserves, Keeps-stmt}
use sakura_intern_team_e.Handler.Fetch.Reads.{read_rules, fetch_user-Keeps}
use sakura_intern_team_e.Handler.Auth.{
  Registration, new_user, insert_user, insert_session, time_now, generated, open_session,
  password_hash_of, register_user, register, login_user, login,
}

has_user-cons :
    (id : ℕ) (u : UserRow) (us : List UserRow) → has_user id us ≡ true → has_user id (u ∷ us) ≡ true
has_user-cons id u us h = ground arith

-- Rows that refer to users still do after a new user.
module _ (db : Db) (u : UserRow) (next : ℕ) where
  abbrev with_user : Db
  with_user = record db { users = u ∷ db.users; next_user = next }

  mark-with_user : (m : MarkRow) → MarkRefers db m → MarkRefers with_user m
  mark-with_user m h = (has_user-cons m.user_id u db.users h.0, h.1)

  follow-with_user : (f : FollowRow) → FollowRefers db f → FollowRefers with_user f
  follow-with_user f h =
      (has_user-cons f.follower_id u db.users h.0, has_user-cons f.followee_id u db.users h.1)

  author-with_user :
      (p : PostRow) → has_user p.user_id db.users ≡ true → has_user p.user_id with_user.users ≡ true
  author-with_user p h = has_user-cons p.user_id u db.users h

  with_user-IsWellFormed :
      IsWellFormed db → u.id ≡ db.next_user → next ≡ suc u.id → IsWellFormed with_user
  with_user-IsWellFormed h e n =
      let likes =
        All-mono (MarkRefers db) (MarkRefers with_user) db.likes mark-with_user h.likes_refer in
      let marks =
        All-mono (MarkRefers db) (MarkRefers with_user) db.reposts mark-with_user h.marks_refer in
      let follows =
        All-mono (FollowRefers db) (FollowRefers with_user) db.follows follow-with_user
          h.follows_refer in
      let authors =
        All-mono (λ (p : PostRow). has_user p.user_id db.users ≡ true)
          (λ (p : PostRow). has_user p.user_id with_user.users ≡ true) db.posts author-with_user
          h.post_authors in
      ground (arith, likes, marks, follows, authors)

insert_user-IsWellFormed :
    (sys : Platform) (r : Registration) (hash : Text)
    → Preserves IsWellFormed (insert_user sys r hash)
unfolding insert_user
insert_user-IsWellFormed sys r hash = record {
  at = λ now db h.
      let kept =
        with_user-IsWellFormed db (new_user db.next_user r hash now) (suc db.next_user) h refl
          refl in
      ground (arith, kept);
}

insert_session-IsWellFormed :
    (token : Text) (user expires : ℕ) → Preserves IsWellFormed (insert_session token user expires)
unfolding insert_session
insert_session-IsWellFormed token user expires = record { at = λ now db h. grind arith }

module _ {P : Db → Type 0} where
  time_now-Keeps : {E : Type 0} → Keeps (Upholds P) (time_now {E = E})
  unfolding time_now
  time_now-Keeps = record { at = λ w h. h }

  generated-Keeps : (drawn : Option Text) → Keeps (Upholds P) (generated drawn)
  generated-Keeps none = search keeps_rules
  generated-Keeps (some token) = search keeps_rules

  password_hash_of-Keeps : (h : Hashed) → Keeps (Upholds P) (password_hash_of h)
  password_hash_of-Keeps (hashed t) = search keeps_rules
  password_hash_of-Keeps too_long = search keeps_rules
  password_hash_of-Keeps failed = search keeps_rules

open_session-Keeps :
    (drawn : Option Text) (user : ℕ) → Keeps (Upholds IsWellFormed) (open_session drawn user)
unfolding open_session
open_session-Keeps drawn user =
    search (keeps_rules, Keeps-stmt, generated-Keeps, time_now-Keeps, insert_session-IsWellFormed)
      depth 12

register_user-Keeps :
    (sys : Platform) (drawn : Option Text) (r : Registration)
    → Keeps (Upholds IsWellFormed) (register_user sys drawn r)
unfolding register_user
register_user-Keeps sys drawn r =
    search
      (
        keeps_rules, Keeps-stmt, password_hash_of-Keeps, insert_user-IsWellFormed, fetch_user-Keeps,
        open_session-Keeps,
      )
      depth 14

pub register-Keeps :
    (sys : Platform) (drawn : Option Text) (body : Option Registration)
    → Keeps (Upholds IsWellFormed) (register sys drawn body)
unfolding register
register-Keeps sys drawn none = search keeps_rules
register-Keeps sys drawn (some r) = search (keeps_rules, register_user-Keeps) depth 8

login_user-Keeps :
    (sys : Platform) (drawn : Option Text) (password : Text) (u : UserRow)
    → Keeps (Upholds IsWellFormed) (login_user sys drawn password u)
unfolding login_user
login_user-Keeps sys drawn password u =
    search (keeps_rules, open_session-Keeps, fetch_user-Keeps) depth 14

pub login-Keeps :
    (sys : Platform) (drawn : Option Text) (body : Option (Text × Text))
    → Keeps (Upholds IsWellFormed) (login sys drawn body)
unfolding login
login-Keeps sys drawn none = search keeps_rules
login-Keeps sys drawn (some (email, password)) = search (read_rules, login_user-Keeps) depth 10
