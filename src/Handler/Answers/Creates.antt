-- ===== src/Handler/Answers/Creates.antt =====
-- The handlers that answer with a post that fetchPost reads.
use sakura_intern_team_e.Prelude.{ℕ, Option, none, some}
use sakura_intern_team_e.Db.Tables.{Text}
use sakura_intern_team_e.Db.Errors.{DbError}
use sakura_intern_team_e.Action.{err}
use sakura_intern_team_e.Action.Settles.{Settles, Anything, settles_rules}
use sakura_intern_team_e.Action.Guarded.{Settles-Guarded, Settles-statement, Settles-reading_row}
use sakura_intern_team_e.Handler.Answers.{Served, IsFit, fit_rules}
use sakura_intern_team_e.Handler.Answers.Reads.{thread_root_id-Settles}
use sakura_intern_team_e.Handler.Answers.Posts.{fetch_post-Settles}
use sakura_intern_team_e.Handler.Answers.Notifications.{create_notification_once-Settles}
use sakura_intern_team_e.Handler.Fetch.{thread_root_id}
use sakura_intern_team_e.Handler.Fetch.Reads.{thread_root_id-Keeps}
use sakura_intern_team_e.Handler.Post.{create_post, get_post, fetch_or_zero}
use sakura_intern_team_e.Handler.Post.Tables.{insert_plain-IsWellFormed}
use sakura_intern_team_e.Handler.Notification.Once.{
  create_notification_once-Keeps, insert_event-IsWellFormed,
}
use sakura_intern_team_e.Handler.Reply.Tables.{insert_reply-IsWellFormed}
use sakura_intern_team_e.Handler.Reply.{
  known_author, require_inserted, notify_author, create_checked_reply, create_reply,
}
use sakura_intern_team_e.Notify.Publish.{publish_reply}

pub get_post-Settles : (auth path : Option ℕ) → Settles Served IsFit IsFit (get_post auth path)
unfolding get_post
get_post-Settles auth none = search (settles_rules, fit_rules)
get_post-Settles auth (some id) = search (settles_rules, fit_rules, fetch_post-Settles) depth 8

fetch_or_zero-Settles :
    (auth : Option ℕ) (id : ℕ) → Settles Served IsFit Anything (fetch_or_zero auth id)
unfolding fetch_or_zero
fetch_or_zero-Settles auth id = search (settles_rules, fetch_post-Settles) depth 8

pub create_post-Settles :
    (auth : Option ℕ) (body : Option Text) → Settles Served IsFit IsFit (create_post auth body)
unfolding create_post
create_post-Settles auth none = search (settles_rules, fit_rules)
create_post-Settles auth (some content) =
    search
      (
        settles_rules, fit_rules, Settles-statement, insert_plain-IsWellFormed,
        fetch_or_zero-Settles,
      )
      depth 12

require_inserted-Settles : (id : Option ℕ) → Settles Served IsFit Anything (require_inserted id)
require_inserted-Settles none = search (settles_rules, fit_rules)
require_inserted-Settles (some id) = search settles_rules

notify_author-Settles :
    (author : Option ℕ) (user id : ℕ) → Settles Served IsFit Anything (notify_author author user id)
notify_author-Settles none user id = search settles_rules
notify_author-Settles (some author) user id =
    Settles-Guarded _ (create_notification_once-Settles _ _ _ _)
      (create_notification_once-Keeps _ _ _ _)

known_author-Settles_err : (e : DbError) → Settles Served IsFit Anything (known_author (err e))
known_author-Settles_err e = search (settles_rules, fit_rules)

thread_root_id-Guarded : (id : ℕ) → Settles Served IsFit Anything (thread_root_id id)
thread_root_id-Guarded id = Settles-Guarded _ (thread_root_id-Settles id) (thread_root_id-Keeps id)

publish_reply-Guarded : (root post : ℕ) → Settles Served Anything Anything (publish_reply root post)
unfolding publish_reply
publish_reply-Guarded root post =
    search (settles_rules, Settles-statement, insert_event-IsWellFormed)

create_checked_reply-Settles :
    (auth : Option ℕ) (parent : ℕ) (content : Text)
    → Settles Served IsFit IsFit (create_checked_reply auth parent content)
unfolding create_checked_reply
create_checked_reply-Settles auth parent content =
    search
      (
        settles_rules, fit_rules, Settles-reading_row, Settles-statement, insert_reply-IsWellFormed,
        known_author-Settles_err, thread_root_id-Guarded, require_inserted-Settles,
        fetch_or_zero-Settles, notify_author-Settles, publish_reply-Guarded,
      )
      depth 24

pub create_reply-Settles :
    (auth : Option ℕ) (body : Option (ℕ × Text))
    → Settles Served IsFit IsFit (create_reply auth body)
unfolding create_reply
create_reply-Settles auth none = search (settles_rules, fit_rules)
create_reply-Settles auth (some (parent, content)) =
    search (settles_rules, fit_rules, create_checked_reply-Settles) depth 8
