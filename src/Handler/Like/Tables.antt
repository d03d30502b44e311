-- ===== src/Handler/Like/Tables.antt =====
-- The handlers of like.go keep the tables well formed, whatever the environment does.
use sakura_intern_team_e.Prelude.{ℕ, Option, none, some, not, arith}
use sakura_intern_team_e.Db.Invariant.{
  IsWellFormed, filter-Unique, filter-All, same_mark, MarkRefers,
}
use sakura_intern_team_e.Db.Rows.{is_mark}
use sakura_intern_team_e.Db.Tables.{MarkRow}
use sakura_intern_team_e.Action.Keeps.{Keeps, keeps_rules}
use sakura_intern_team_e.Action.Database.{
  Upholds, Preserves, Keeps-stmt, reading-Preserves, reading_row-Preserves,
}
use sakura_intern_team_e.Handler.Notification.Once.{create_notification_once-Keeps}
use sakura_intern_team_e.Handler.User.Tables.{fetch_users-Keeps}
use sakura_intern_team_e.Handler.Like.{get_likes, insert_like, delete_like, like, unlike}

insert_like-IsWellFormed : (user post : ℕ) → Preserves IsWellFormed (insert_like user post)
unfolding insert_like
insert_like-IsWellFormed user post = record { at = λ now db h. grind arith }

delete_like-IsWellFormed : (user post : ℕ) → Preserves IsWellFormed (delete_like user post)
unfolding delete_like
delete_like-IsWellFormed user post = record {
  at = λ now db h.
      let others = λ (m : MarkRow). not (is_mark user post m) in
      ground (
        arith,
        filter-Unique same_mark others db.likes h.likes_once,
        filter-All (MarkRefers db) others db.likes h.likes_refer,
      );
}

ruleset statement_rules = (
  Keeps-stmt, reading-Preserves, reading_row-Preserves, insert_like-IsWellFormed,
  delete_like-IsWellFormed,
)

pub like-Keeps : (auth body : Option ℕ) → Keeps (Upholds IsWellFormed) (like auth body)
unfolding like
like-Keeps auth none = search keeps_rules
like-Keeps auth (some post) =
    search (keeps_rules, statement_rules, create_notification_once-Keeps) depth 12

pub get_likes-Keeps : (path : Option ℕ) → Keeps (Upholds IsWellFormed) (get_likes path)
unfolding get_likes
get_likes-Keeps none = search keeps_rules
get_likes-Keeps (some post) = search (keeps_rules, statement_rules, fetch_users-Keeps) depth 12

pub unlike-Keeps : (auth path : Option ℕ) → Keeps (Upholds IsWellFormed) (unlike auth path)
unfolding unlike
unlike-Keeps auth none = search keeps_rules
unlike-Keeps auth (some post) = search (keeps_rules, statement_rules) depth 12
