-- ===== src/Handler/User/Tables.antt =====
-- The handlers of user.go keep the tables well formed, whatever the environment does.
use sakura_intern_team_e.Prelude.{
  ℕ, Option, none, some, true, false, ◌≡◌, refl, ◌==◌, not, arith, map, List, [], ◌∷◌, All,
}
use sakura_intern_team_e.Db.Invariant.{
  IsWellFormed, filter-Unique, filter-All, same_follow, MarkRefers, FollowRefers, UsersBelow,
}
use sakura_intern_team_e.Db.Rows.{is_follow, has_user}
use sakura_intern_team_e.Db.Tables.{Db, Text, FollowRow, UserRow, MarkRow, PostRow}
use sakura_intern_team_e.Action.Keeps.{Keeps, Keeps-if_known, Keeps-bind, Keeps-pure, keeps_rules}
use sakura_intern_team_e.Action.Database.{Upholds, Preserves, Keeps-stmt, reading-Preserves}
use sakura_intern_team_e.Handler.Notification.Once.{create_notification_once-Keeps}
use sakura_intern_team_e.Handler.Fetch.Reads.{fetch_user-Keeps}
use sakura_intern_team_e.Handler.Response.{current_user_id}
use sakura_intern_team_e.Handler.User.{
  insert_footprint, record_footprint, leave_footprint, get_me, get_profile, update_user,
  with_profile, update_profile, fetch_users, get_followers, get_following, insert_follow, follow,
  delete_follow, unfollow,
}

insert_footprint-IsWellFormed :
    (user visitor : ℕ) → Preserves IsWellFormed (insert_footprint user visitor)
unfolding insert_footprint
insert_footprint-IsWellFormed user visitor = record { at = λ now db h. grind arith }

insert_follow-IsWellFormed :
    (follower followee : ℕ)
    → (follower == followee) ≡ false
    → Preserves IsWellFormed (insert_follow follower followee)
unfolding insert_follow
insert_follow-IsWellFormed follower followee differ = record { at = λ now db h. grind arith }

delete_follow-IsWellFormed :
    (follower followee : ℕ) → Preserves IsWellFormed (delete_follow follower followee)
unfolding delete_follow
delete_follow-IsWellFormed follower followee = record {
  at = λ now db h.
      let others = λ (f : FollowRow). not (is_follow follower followee f) in
      ground (
        arith,
        filter-Unique same_follow others db.follows h.follows_once,
        filter-All (FollowRefers db) others db.follows h.follows_refer,
        filter-All (λ (f : FollowRow). (f.follower_id == f.followee_id) ≡ false) others db.follows
            h.follows_others,
      );
}

-- A new profile keeps the user's id.
has_user-with_profile :
    (id user : ℕ) (name : Text) (bio : Option Text) (users : List UserRow)
    → has_user user (map (with_profile id name bio) users) ≡ has_user user users
has_user-with_profile id user name bio [] = refl
has_user-with_profile id user name bio (u ∷ users) =
    ground (arith, has_user-with_profile id user name bio users)

UsersBelow-with_profile :
    (bound id : ℕ) (name : Text) (bio : Option Text) (users : List UserRow)
    → UsersBelow bound users
    → UsersBelow bound (map (with_profile id name bio) users)
UsersBelow-with_profile bound id name bio [] b = tt
UsersBelow-with_profile bound id name bio (u ∷ users) b =
    ground (arith, UsersBelow-with_profile u.id id name bio users b.2)

module _ (db : Db) (id : ℕ) (name : Text) (bio : Option Text) where
  marks-with_profile :
      (ms : List MarkRow)
      → All (MarkRefers db) ms
      → All (MarkRefers (record db { users = map (with_profile id name bio) db.users })) ms
  marks-with_profile [] h = tt
  marks-with_profile (m ∷ ms) h = (
    (rw (has_user-with_profile id m.user_id name bio db.users) h.0.0, h.0.1),
    marks-with_profile ms h.1,
  )

  follows-with_profile :
      (fs : List FollowRow)
      → All (FollowRefers db) fs
      → All (FollowRefers (record db { users = map (with_profile id name bio) db.users })) fs
  follows-with_profile [] h = tt
  follows-with_profile (f ∷ fs) h = (
    (
      rw (has_user-with_profile id f.follower_id name bio db.users) h.0.0,
      rw (has_user-with_profile id f.followee_id name bio db.users) h.0.1,
    ),
    follows-with_profile fs h.1,
  )

  authors-with_profile :
      (ps : List PostRow)
      → All (λ (p : PostRow). has_user p.user_id db.users ≡ true) ps
      → All
          (λ (p : PostRow). has_user p.user_id (map (with_profile id name bio) db.users) ≡ true)
          ps
  authors-with_profile [] h = tt
  authors-with_profile (p ∷ ps) h =
      (rw (has_user-with_profile id p.user_id name bio db.users) h.0, authors-with_profile ps h.1)

update_user-IsWellFormed :
    (id : ℕ) (name : Text) (bio : Option Text) → Preserves IsWellFormed (update_user id name bio)
unfolding update_user
update_user-IsWellFormed id name bio = record {
  at = λ now db h. ground (
    arith,
    UsersBelow-with_profile db.next_user id name bio db.users h.users_below,
    marks-with_profile db id name bio db.likes h.likes_refer,
    marks-with_profile db id name bio db.reposts h.marks_refer,
    follows-with_profile db id name bio db.follows h.follows_refer,
    authors-with_profile db id name bio db.posts h.post_authors,
  );
}

ruleset statement_rules = (
  Keeps-stmt, reading-Preserves, insert_footprint-IsWellFormed, delete_follow-IsWellFormed,
  update_user-IsWellFormed, fetch_user-Keeps, create_notification_once-Keeps,
)

pub get_me-Keeps : (auth : Option ℕ) → Keeps (Upholds IsWellFormed) (get_me auth)
unfolding get_me
get_me-Keeps none = search keeps_rules
get_me-Keeps (some me) = search (keeps_rules, statement_rules) depth 8

leave_footprint-Keeps :
    (auth : Option ℕ) (user : ℕ) → Keeps (Upholds IsWellFormed) (leave_footprint auth user)
unfolding leave_footprint record_footprint
leave_footprint-Keeps none user = search keeps_rules
leave_footprint-Keeps (some visitor) user = search (keeps_rules, statement_rules) depth 10

pub get_profile-Keeps :
    (auth path : Option ℕ) → Keeps (Upholds IsWellFormed) (get_profile auth path)
unfolding get_profile
get_profile-Keeps auth none = search keeps_rules
get_profile-Keeps auth (some id) =
    search (keeps_rules, statement_rules, leave_footprint-Keeps) depth 10

pub update_profile-Keeps :
    (auth : Option ℕ) (body : Option (Text × Option Text))
    → Keeps (Upholds IsWellFormed) (update_profile auth body)
unfolding update_profile
update_profile-Keeps auth none = search keeps_rules
update_profile-Keeps auth (some (name, bio)) = search (keeps_rules, statement_rules) depth 12

pub follow-Keeps : (auth path : Option ℕ) → Keeps (Upholds IsWellFormed) (follow auth path)
unfolding follow
follow-Keeps auth none = search keeps_rules
follow-Keeps auth (some target) =
    Keeps-if_known (current_user_id auth == target) _ _ (λ e. search keeps_rules)
      (λ e.
        search
          (keeps_rules, statement_rules, insert_follow-IsWellFormed (current_user_id auth) target e)
          depth 12)

pub unfollow-Keeps : (auth path : Option ℕ) → Keeps (Upholds IsWellFormed) (unfollow auth path)
unfolding unfollow
unfollow-Keeps auth none = search keeps_rules
unfollow-Keeps auth (some target) = search (keeps_rules, statement_rules) depth 10

pub fetch_users-Keeps :
    (auth : Option ℕ) (ids : List ℕ) → Keeps (Upholds IsWellFormed) (fetch_users auth ids)
unfolding fetch_users
fetch_users-Keeps auth [] = search keeps_rules
fetch_users-Keeps auth (id ∷ ids) =
    Keeps-bind _ _ (search (keeps_rules, statement_rules) depth 8)
      (λ u. Keeps-bind _ _ (fetch_users-Keeps auth ids) (λ us. Keeps-pure _))

pub get_followers-Keeps :
    (auth path : Option ℕ) → Keeps (Upholds IsWellFormed) (get_followers auth path)
unfolding get_followers
get_followers-Keeps auth none = search keeps_rules
get_followers-Keeps auth (some user) =
    search (keeps_rules, statement_rules, fetch_users-Keeps) depth 12

pub get_following-Keeps :
    (auth path : Option ℕ) → Keeps (Upholds IsWellFormed) (get_following auth path)
unfolding get_following
get_following-Keeps auth none = search keeps_rules
get_following-Keeps auth (some user) =
    search (keeps_rules, statement_rules, fetch_users-Keeps) depth 12
