-- ===== src/Model.antt =====
-- app/backend/internal/model/ and the event of app/backend/internal/realtime/hub.go: what the API
-- sends. JSON encoding is left to the clients of these types.
use sakura_intern_team_e.Prelude.{ℕ, Bool, Option, ◌%◌, ◌==◌, if◌then◌else◌}
use sakura_intern_team_e.Db.Tables.{Text, NotificationType}

-- avatarColors
pub data Color : Type 0 where
  orange blue purple mint pink : Color

-- AvatarColor, on ids that are not negative, as AUTO_INCREMENT gives them: there `%` is that of Go. On
-- most negative ids the code panics.
abbrev pub avatar_color : ℕ → Color
avatar_color id =
    let r = id % 5 in
    if r == 0
    then orange
    else if r == 1
    then blue
    else if r == 2
    then purple
    else if r == 3
    then mint
    else pink

-- model.User
pub record User : Type 0 where
  pub id : ℕ
  pub username : Text
  pub display_name : Text
  pub bio : Option Text
  pub followers_count : ℕ
  pub following_count : ℕ
  pub post_count : ℕ
  pub avatar : Color
  pub followed_by_me : Bool
  pub created_at : ℕ

-- model.Post without OriginalPost
pub record PostInfo : Type 0 where
  pub id : ℕ
  pub content : Option Text
  pub created_at : ℕ
  pub likes_count : ℕ
  pub reposts_count : ℕ
  pub replies_count : ℕ
  pub is_repost : Bool
  pub original_post_id : Option ℕ
  pub parent_post_id : Option ℕ
  pub reply_to : Option (Text × Text)
  pub author : User
  pub liked_by_me : Bool
  pub reposted_by_me : Bool

-- model.Post: OriginalPost is nil, or the post that this one reposts.
pub data Post : Type 0 where
  plain : PostInfo → Post
  quoting : PostInfo → Post → Post

abbrev pub info : Post → PostInfo
info (plain p) = p
info (quoting p o) = p

-- realtime.Event: notify.NotificationEvent's map, where no type is the empty text of a NULL column, or
-- a reply with its post
pub data Event : Type 0 where
  notification_event : Option NotificationType → Option ℕ → Event
  reply_event : Post → Event
