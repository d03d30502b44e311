-- ===== src/Handler/Repost/Tables.antt =====
-- The handlers of repost.go keep the tables well formed, whatever the environment does.
use sakura_intern_team_e.Prelude.{ℕ, Option, none, some, refl, not, arith}
use sakura_intern_team_e.Db.Invariant.{
  IsWellFormed, filter-Unique, filter-All, same_mark, MarkRefers,
}
use sakura_intern_team_e.Db.Cascade.{delete_posts-IsWellFormed}
use sakura_intern_team_e.Db.Rows.{is_mark}
use sakura_intern_team_e.Db.Errors.{DbError}
use sakura_intern_team_e.Db.Tables.{MarkRow}
use sakura_intern_team_e.Action.{Result, ok, err, panic}
use sakura_intern_team_e.Action.Keeps.{Keeps, keeps_rules}
use sakura_intern_team_e.Action.Database.{
  Upholds, Preserves, Keeps-stmt, Keeps-transaction, reading-Preserves, reading_row-Preserves,
}
use sakura_intern_team_e.Handler.Notification.Once.{
  insert_notification_once-Keeps, deliver_notification-Keeps,
}
use sakura_intern_team_e.Handler.Post.Tables.{insert_post-good}
use sakura_intern_team_e.Handler.Repost.{
  insert_repost, insert_repost_post, ensure_repost_post, unless_duplicate, repost_body, repost_once,
  repost_retry, repost, delete_repost, delete_repost_post, unrepost, repost_post,
}

insert_repost-IsWellFormed : (user post : ℕ) → Preserves IsWellFormed (insert_repost user post)
unfolding insert_repost
insert_repost-IsWellFormed user post = record { at = λ now db h. grind arith }

insert_repost_post-IsWellFormed :
    (user post : ℕ) → Preserves IsWellFormed (insert_repost_post user post)
unfolding insert_repost_post
insert_repost_post-IsWellFormed user post = record {
  at = λ now db h. ground (arith, insert_post-good (repost_post user post) now db h refl);
}

delete_repost-IsWellFormed : (user post : ℕ) → Preserves IsWellFormed (delete_repost user post)
unfolding delete_repost
delete_repost-IsWellFormed user post = record {
  at = λ now db h.
      let others = λ (m : MarkRow). not (is_mark user post m) in
      ground (
        arith,
        filter-Unique same_mark others db.reposts h.marks_once,
        filter-All (MarkRefers db) others db.reposts h.marks_refer,
      );
}

delete_repost_post-IsWellFormed :
    (user post : ℕ) → Preserves IsWellFormed (delete_repost_post user post)
unfolding delete_repost_post
delete_repost_post-IsWellFormed user post = record {
  at = λ now db h. delete_posts-IsWellFormed _ db h;
}

ruleset statement_rules = (
  Keeps-stmt, Keeps-transaction, reading-Preserves, reading_row-Preserves,
  insert_repost-IsWellFormed, insert_repost_post-IsWellFormed, delete_repost-IsWellFormed,
  delete_repost_post-IsWellFormed,
)

unless_duplicate-Keeps :
    (r : Result DbError Unit) → Keeps (Upholds IsWellFormed) (unless_duplicate r)
unless_duplicate-Keeps (ok a) = search keeps_rules
unless_duplicate-Keeps (err e) = search keeps_rules
unless_duplicate-Keeps panic = record { at = λ w h. h }

repost_once-Keeps :
    (user post owner : ℕ) → Keeps (Upholds IsWellFormed) (repost_once user post owner)
unfolding repost_once repost_body ensure_repost_post
repost_once-Keeps user post owner =
    search (keeps_rules, statement_rules, unless_duplicate-Keeps, insert_notification_once-Keeps)
      depth 16

pub repost-Keeps : (auth body : Option ℕ) → Keeps (Upholds IsWellFormed) (repost auth body)
unfolding repost repost_retry
repost-Keeps auth none = search keeps_rules
repost-Keeps auth (some post) =
    search (keeps_rules, statement_rules, repost_once-Keeps, deliver_notification-Keeps) depth 16

pub unrepost-Keeps : (auth path : Option ℕ) → Keeps (Upholds IsWellFormed) (unrepost auth path)
unfolding unrepost
unrepost-Keeps auth none = search keeps_rules
unrepost-Keeps auth (some post) = search (keeps_rules, statement_rules) depth 12
