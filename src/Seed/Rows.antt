-- ===== src/Seed/Rows.antt =====
-- The statements of app/backend/seed/main.go. An INSERT of several rows stores all of them or none.
use sakura_intern_team_e.Prelude.{
  ℕ, zero, suc, ◌+◌, ◌-◌, ◌/◌, ◌%◌, false, not, ◌&&◌, Option, none, some, List, [], ◌∷◌, ◌++◌, ◌==◌,
  if◌then◌else◌, any, length, collect,
}
use sakura_intern_team_e.Db.Tables.{Text, Db, UserRow, PostRow, NotificationType}
use sakura_intern_team_e.Db.Errors.{
  runes, duplicate_entry, too_long_value, missing_user, missing_post,
}
use sakura_intern_team_e.Db.Rows.{has_user, refers, is_mark, find_post}
use sakura_intern_team_e.Platform.{Platform}
use sakura_intern_team_e.Action.{Query, Reply, done, refused}
use sakura_intern_team_e.Handler.Auth.{is_taken, fits_columns}
use sakura_intern_team_e.Handler.Post.{NewPost, insert_post}
use sakura_intern_team_e.Handler.Repost.{insert_repost}

module _ {A : Type 0} where
  abbrev pub and_then : {B : Type 0} → Reply B → (Db → Reply A) → Reply A
  and_then (done b db) next = next db
  and_then (refused e) next = refused e

  -- INSERT INTO ... VALUES (...), (...)
  unfoldable pub insert_many : (A → Query Unit) → List A → Query Unit
  insert_many insert [] now db = done tt db
  insert_many insert (r ∷ rs) now db =
      let next = insert_many insert rs now in
      elim (insert r now db) [ done a db' ↦ next db' | refused e ↦ refused e ]

-- Decimal digits; n + 1 rounds are enough, since a round divides by ten.
abbrev pub digits : ℕ → ℕ → Text → Text
digits zero n t = t
digits (suc fuel) n t = elim (n / 10) [
  | zero ↦ (48 + n % 10) ∷ t
  | suc m ↦ digits fuel (suc m) ((48 + n % 10) ∷ t)
]

abbrev pub decimal : ℕ → Text
decimal n = digits (suc n) n []

abbrev pub zeros : ℕ → Text → Text
zeros zero t = t
zeros (suc k) t = 48 ∷ zeros k t

-- %05d
abbrev pub padded : ℕ → Text
padded n = zeros (5 - length (decimal n)) (decimal n)

-- The j-th sample user
abbrev pub sample_user : ℕ → Text → ℕ → ℕ → UserRow
sample_user j password_hash id now = record {
  id = id;
  username = runes "user" ++ padded j;
  display_name = runes "ユーザー" ++ decimal j;
  email = runes "user" ++ (padded j ++ runes "@example.com");
  password_hash = password_hash;
  bio = some (decimal j ++ runes "のプロフィール文です");
  created_at = now;
}

unfoldable pub insert_sample_user : Platform → Text → ℕ → Query Unit
insert_sample_user sys password_hash j now db =
    let u = sample_user j password_hash db.next_user now in
    if not (fits_columns u.username u.display_name u.email)
    then refused too_long_value
    else if any (is_taken sys u.username u.email) db.users
    then refused duplicate_entry
    else done tt (record db { users = u ∷ db.users; next_user = suc db.next_user })

-- The statement's LastInsertId is the id of its first row.
unfoldable pub insert_sample_users : Platform → Text → List ℕ → Query ℕ
unfolding insert_many
insert_sample_users sys password_hash js now db =
    and_then (insert_many (insert_sample_user sys password_hash) js now db) (done db.next_user)

abbrev pub insert_one_post : NewPost → Query Unit
insert_one_post p now db = and_then (insert_post p now db) (done tt)

-- INSERT INTO posts ... VALUES (...), (...), with its LastInsertId
unfoldable pub insert_sample_posts : List NewPost → Query ℕ
unfolding insert_many
insert_sample_posts ps now db = and_then (insert_many insert_one_post ps now db) (done db.next_post)

-- INSERT INTO reposts ... ON DUPLICATE KEY UPDATE user_id = user_id
unfoldable pub insert_repost_or_keep : ℕ × ℕ → Query Unit
insert_repost_or_keep p now db =
    if any (is_mark p.0 p.1) db.reposts then done tt db else insert_repost p.0 p.1 now db

-- A row of notifications as the tool proposes it.
pub record Notice : Type 0 where
  pub user_id : ℕ
  pub ntype : NotificationType
  pub actor_id : ℕ
  pub post_id : Option ℕ

-- INSERT INTO notifications (user_id, type, actor_id, post_id) VALUES (?, ?, ?, ?)
unfoldable pub insert_notice : Notice → Query Unit
insert_notice n now db =
    if not (has_user n.user_id db.users && has_user n.actor_id db.users)
    then refused missing_user
    else if not (refers n.post_id db.posts)
    then refused missing_post
    else done tt (record db {
      next_notification = suc db.next_notification;
      notifications =
          record {
            id = db.next_notification;
            user_id = n.user_id;
            ntype = n.ntype;
            actor_id = n.actor_id;
            post_id = n.post_id;
            is_read = false;
            created_at = now;
          }
          ∷ db.notifications;
    })

abbrev pub notice_from : PostRow → Option PostRow → Option Notice
notice_from child none = none
notice_from child (some parent) =
    if parent.user_id == child.user_id
    then none
    else some (record {
      user_id = parent.user_id;
      ntype = NotificationType.reply;
      actor_id = child.user_id;
      post_id = some child.id;
    })

-- FROM posts child JOIN posts parent ON parent.id = child.parent_post_id WHERE ...
abbrev pub reply_notice : List PostRow → PostRow → Option Notice
reply_notice posts child = elim child.parent_post_id [
  | none ↦ none
  | some parent ↦ notice_from child (find_post parent posts)
]

abbrev pub reply_notices : Db → List Notice
reply_notices db = collect (reply_notice db.posts) db.posts

-- insertReplyNotifications' statement, with its RowsAffected
unfoldable pub insert_reply_notices : Query ℕ
unfolding insert_many
insert_reply_notices now db =
    and_then (insert_many insert_notice (reply_notices db) now db)
      (done (length (reply_notices db)))
