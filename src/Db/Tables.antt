-- ===== src/Db/Tables.antt =====
-- The rows of app/backend/migrations/001_init.sql and 004_sse_events.sql.
use sakura_intern_team_e.Prelude.{ℕ, Bool, Option, List, true, false, none, some, ◌==◌, ◌≡◌, refl}

-- TEXT and VARCHAR: code points
abbrev pub Text : Type 0
Text = List ℕ

-- notifications.type: the five literals that the handlers write
pub data NotificationType : Type 0 where
  like repost reply follow footprint : NotificationType

abbrev pub type_code : NotificationType → ℕ
type_code like = 0
type_code repost = 1
type_code reply = 2
type_code follow = 3
type_code footprint = 4

abbrev pub same_type : NotificationType → NotificationType → Bool
same_type s t = type_code s == type_code t

pub same_type_refl : (t : NotificationType) → same_type t t ≡ true
same_type_refl like = refl
same_type_refl repost = refl
same_type_refl reply = refl
same_type_refl follow = refl
same_type_refl footprint = refl

-- sse_events.kind
pub data EventKind : Type 0 where
  notification reply other : EventKind

pub record UserRow : Type 0 where
  pub id : ℕ
  pub username : Text
  pub display_name : Text
  pub email : Text
  pub password_hash : Text
  pub bio : Option Text
  pub created_at : ℕ

pub record SessionRow : Type 0 where
  pub id : Text
  pub user_id : ℕ
  pub expires_at : ℕ

pub record PostRow : Type 0 where
  pub id : ℕ
  pub user_id : ℕ
  pub content : Option Text
  pub is_repost : Bool
  pub original_post_id : Option ℕ
  pub parent_post_id : Option ℕ
  pub created_at : ℕ

pub record FollowRow : Type 0 where
  pub follower_id : ℕ
  pub followee_id : ℕ

-- likes and reposts have the same columns.
pub record MarkRow : Type 0 where
  pub user_id : ℕ
  pub post_id : ℕ
  pub created_at : ℕ

pub record FootprintRow : Type 0 where
  pub user_id : ℕ
  pub visitor_id : ℕ
  pub created_at : ℕ

pub record NotificationRow : Type 0 where
  pub id : ℕ
  pub user_id : ℕ
  pub ntype : NotificationType
  pub actor_id : ℕ
  pub post_id : Option ℕ
  pub is_read : Bool
  pub created_at : ℕ

pub record EventRow : Type 0 where
  pub id : ℕ
  pub kind : EventKind
  pub subject_id : ℕ
  pub ntype : Option NotificationType
  pub post_id : Option ℕ
  pub created_at : ℕ

-- The database: the tables, and the next AUTO_INCREMENT value of those that have one.
pub record Db : Type 0 where
  pub users : List UserRow
  pub sessions : List SessionRow
  pub posts : List PostRow
  pub follows : List FollowRow
  pub likes : List MarkRow
  pub reposts : List MarkRow
  pub footprints : List FootprintRow
  pub notifications : List NotificationRow
  pub events : List EventRow
  pub next_user : ℕ
  pub next_post : ℕ
  pub next_notification : ℕ
  pub next_event : ℕ

-- `a <=> b`: NULL equals NULL
abbrev pub null_safe_eq : Option ℕ → Option ℕ → Bool
null_safe_eq none none = true
null_safe_eq none (some b) = false
null_safe_eq (some a) none = false
null_safe_eq (some a) (some b) = a == b

-- `a = b`, where a NULL makes no row match
abbrev pub sql_eq : Option ℕ → ℕ → Bool
sql_eq none b = false
sql_eq (some a) b = a == b
