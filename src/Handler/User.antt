-- ===== src/Handler/User.antt =====
-- app/backend/internal/handler/user.go and footprint.go: profiles, footprints and follows.
pub mod Tables
use sakura_intern_team_e.Prelude.{
  ℕ, suc, Bool, true, false, Option, none, some, List, [], ◌∷◌, ◌++◌, ◌==◌, ◌&&◌, ◌||◌, not,
  if◌then◌else◌, any, filter, map, length,
}
use sakura_intern_team_e.Db.Tables.{Text, Db, UserRow, FollowRow, FootprintRow, NotificationType}
use sakura_intern_team_e.Db.Errors.{DbError, is_no_rows, missing_user}
use sakura_intern_team_e.Db.Rows.{has_user, is_follow}
use sakura_intern_team_e.Model.{User}
use sakura_intern_team_e.Action.{
  Act, Query, Reply, Result, ok, err, panic, done, refused, stmt, pure, raise, try, or_else, ◌>>=◌,
  ◌>>◌, reading,
}
use sakura_intern_team_e.Handler.Response.{
  Response, Body, respond_json, respond_error, server_error, or_server_error, or_respond,
  current_user_id,
}
use sakura_intern_team_e.Handler.Fetch.{fetch_user, or_nil}
use sakura_intern_team_e.Handler.Notification.{create_notification_once}

-- `map[string]any{"user": user}` of a user that may have failed to load
abbrev pub user_or_zero : Option ℕ → ℕ → Act Response (Option User)
user_or_zero auth id = or_else (fetch_user auth id >>= λ u. pure (some u)) (λ e. pure none)

-- GetMe
unfoldable pub get_me : Option ℕ → Act Response Response
get_me none = raise (respond_error 401 "unauthorized")
get_me (some me) = do
  u ← or_server_error (fetch_user (some me) me)
  pure (respond_json 200 (Body.user_body (some u)))

-- INSERT INTO footprints (user_id, visitor_id) VALUES (?, ?)
unfoldable pub insert_footprint : ℕ → ℕ → Query Unit
insert_footprint user visitor now db =
    if not (has_user user db.users && has_user visitor db.users)
    then refused missing_user
    else done tt (record db {
      footprints =
          record { user_id = user; visitor_id = visitor; created_at = now } ∷ db.footprints;
    })

-- recordFootprint
unfoldable pub record_footprint : ℕ → ℕ → Act Response Unit
record_footprint user visitor =
    if user == visitor
    then pure tt
    else or_else (stmt (insert_footprint user visitor)) (λ e. pure tt)

abbrev pub missing_user_or_error : DbError → Response
missing_user_or_error e = if is_no_rows e then respond_error 404 "user not found" else server_error

-- The side effects of a visit by a logged-in user.
unfoldable pub leave_footprint : Option ℕ → ℕ → Act Response Unit
leave_footprint none user = pure tt
leave_footprint (some visitor) user =
    record_footprint user visitor
    >> create_notification_once user NotificationType.footprint visitor none

-- GetProfile, on the id in the path
unfoldable pub get_profile : Option ℕ → Option ℕ → Act Response Response
get_profile auth none = raise (respond_error 400 "invalid user_id")
get_profile auth (some id) = do
  u ← or_respond (fetch_user auth id) missing_user_or_error
  leave_footprint auth id
  pure (respond_json 200 (Body.user_body (some u)))

-- UPDATE users SET display_name = ?, bio = ? WHERE id = ?
abbrev pub with_profile : ℕ → Text → Option Text → UserRow → UserRow
with_profile id name bio u = if u.id == id then record u { display_name = name; bio = bio } else u

unfoldable pub update_user : ℕ → Text → Option Text → Query Unit
update_user id name bio now db =
    done tt (record db { users = map (with_profile id name bio) db.users })

-- UpdateProfile, on the decoded body
unfoldable pub update_profile : Option ℕ → Option (Text × Option Text) → Act Response Response
update_profile auth none = raise (respond_error 400 "invalid request")
update_profile auth (some (name, bio)) = do
  or_server_error (stmt (update_user (current_user_id auth) name bio))
  u ← user_or_zero auth (current_user_id auth)
  pure (respond_json 200 (Body.user_body u))

abbrev pub with_user : Option User → List User → List User
with_user none us = us
with_user (some u) us = u ∷ us

-- The users of a list of ids, without those that cannot be loaded.
unfoldable pub fetch_users : Option ℕ → List ℕ → Act Response (List User)
fetch_users auth [] = pure []
fetch_users auth (id ∷ ids) = do
  u ← user_or_zero auth id
  us ← fetch_users auth ids
  pure (with_user u us)

abbrev pub follower_ids : ℕ → Db → List ℕ
follower_ids user db =
    map (λ (f : FollowRow). f.follower_id)
      (filter (λ (f : FollowRow). f.followee_id == user) db.follows)

abbrev pub followee_ids : ℕ → Db → List ℕ
followee_ids user db =
    map (λ (f : FollowRow). f.followee_id)
      (filter (λ (f : FollowRow). f.follower_id == user) db.follows)

-- GetFollowers and GetFollowing, on the id in the path
unfoldable pub get_followers : Option ℕ → Option ℕ → Act Response Response
get_followers auth none = raise (respond_error 400 "invalid user_id")
get_followers auth (some user) = do
  ids ← or_server_error (stmt (reading (follower_ids user)))
  users ← fetch_users auth ids
  pure (respond_json 200 (Body.users_body users (length users)))

unfoldable pub get_following : Option ℕ → Option ℕ → Act Response Response
get_following auth none = raise (respond_error 400 "invalid user_id")
get_following auth (some user) = do
  ids ← or_server_error (stmt (reading (followee_ids user)))
  users ← fetch_users auth ids
  pure (respond_json 200 (Body.users_body users (length users)))

-- INSERT INTO follows ... ON DUPLICATE KEY UPDATE follower_id = follower_id
unfoldable pub insert_follow : ℕ → ℕ → Query Unit
insert_follow follower followee now db =
    if any (is_follow follower followee) db.follows
    then done tt db
    else if not (has_user follower db.users && has_user followee db.users)
    then refused missing_user
    else done tt (record db {
      follows = record { follower_id = follower; followee_id = followee } ∷ db.follows;
    })

-- Follow, on the id in the path
unfoldable pub follow : Option ℕ → Option ℕ → Act Response Response
follow auth none = raise (respond_error 400 "invalid user_id")
follow auth (some target) =
    if current_user_id auth == target then raise (respond_error 400 "invalid user_id") else do
      or_respond (fetch_user auth target) missing_user_or_error
      or_server_error (stmt (insert_follow (current_user_id auth) target))
      create_notification_once target NotificationType.follow (current_user_id auth) none
      pure (respond_json 200 (Body.message "followed"))

-- DELETE FROM follows WHERE follower_id = ? AND followee_id = ?
unfoldable pub delete_follow : ℕ → ℕ → Query Unit
delete_follow follower followee now db =
    done tt (record db { follows = filter (λ f. not (is_follow follower followee f)) db.follows })

-- Unfollow, on the id in the path
unfoldable pub unfollow : Option ℕ → Option ℕ → Act Response Response
unfollow auth none = raise (respond_error 400 "invalid user_id")
unfollow auth (some target) = do
  or_server_error (stmt (delete_follow (current_user_id auth) target))
  pure (respond_json 200 (Body.message "unfollowed"))
