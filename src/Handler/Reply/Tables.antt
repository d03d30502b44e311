-- ===== src/Handler/Reply/Tables.antt =====
-- CreateReply of reply.go keeps the tables well formed, whatever the environment does.
use sakura_intern_team_e.Prelude.{
  ℕ, Option, none, some, true, arith, ◌≡◌, ltb, inl, inr, Bool-cases, ◌∷◌, [], List,
}
use sakura_intern_team_e.Db.Invariant.{IsWellFormed, PostsBelow}
use sakura_intern_team_e.Db.Rows.{has_post}
use sakura_intern_team_e.Db.Errors.{DbError}
use sakura_intern_team_e.Db.Tables.{Text, PostRow}
use sakura_intern_team_e.Action.{Result, ok, err, panic, Reply, done, refused}
use sakura_intern_team_e.Action.Keeps.{Keeps, keeps_rules}
use sakura_intern_team_e.Action.Database.{
  Upholds, Preserves, IsGoodReply, Keeps-stmt, reading_row-Preserves,
}
use sakura_intern_team_e.Notify.Publish.{publish_reply}
use sakura_intern_team_e.Handler.Notification.Once.{
  create_notification_once-Keeps, insert_event-IsWellFormed,
}
use sakura_intern_team_e.Handler.Post.{fetch_or_zero}
use sakura_intern_team_e.Handler.Post.Tables.{insert_post-good}
use sakura_intern_team_e.Handler.Fetch.Reads.{fetch_post-Keeps, thread_root_id-Keeps}
use sakura_intern_team_e.Handler.Reply.{
  reply_post, insert_reply, inserted_id, known_author, require_inserted, notify_author,
  create_checked_reply, create_reply,
}

-- An existing post has an id below the next one.
has_post-older :
    (b id : ℕ) (ps : List PostRow) → PostsBelow b ps → has_post id ps ≡ true → ltb id b ≡ true
has_post-older b id [] h e = cc
has_post-older b id (p ∷ ps) h e = grind (arith, has_post-older p.id id ps h.4)

inserted_id-good :
    (r : Reply ℕ) → IsGoodReply IsWellFormed r → IsGoodReply IsWellFormed (inserted_id r)
inserted_id-good (done id db) h = h
inserted_id-good (refused e) h = tt

pub insert_reply-IsWellFormed :
    (user : ℕ) (content : Text) (parent : ℕ)
    → Preserves IsWellFormed (insert_reply user content parent)
unfolding insert_reply
insert_reply-IsWellFormed user content parent = record {
  at = λ now db h. elim (Bool-cases (has_post parent db.posts)) [
    | inl there ↦ rw there (
        inserted_id-good _ (
          insert_post-good (reply_post user content parent) now db h
            (has_post-older db.next_post parent db.posts h.posts_below there)))
    | inr gone ↦ rw gone h
  ];
}

known_author-Keeps : (r : Result DbError ℕ) → Keeps (Upholds IsWellFormed) (known_author r)
known_author-Keeps (ok a) = search keeps_rules
known_author-Keeps (err e) = search keeps_rules
known_author-Keeps panic = record { at = λ w h. h }

require_inserted-Keeps : (o : Option ℕ) → Keeps (Upholds IsWellFormed) (require_inserted o)
require_inserted-Keeps none = search keeps_rules
require_inserted-Keeps (some id) = search keeps_rules

notify_author-Keeps :
    (o : Option ℕ) (user id : ℕ) → Keeps (Upholds IsWellFormed) (notify_author o user id)
notify_author-Keeps none user id = search keeps_rules
notify_author-Keeps (some author) user id = search create_notification_once-Keeps

create_checked_reply-Keeps :
    (auth : Option ℕ) (parent : ℕ) (content : Text)
    → Keeps (Upholds IsWellFormed) (create_checked_reply auth parent content)
unfolding create_checked_reply fetch_or_zero publish_reply
create_checked_reply-Keeps auth parent content =
    search
      (
        keeps_rules, Keeps-stmt, reading_row-Preserves, insert_reply-IsWellFormed,
        known_author-Keeps, require_inserted-Keeps, notify_author-Keeps, fetch_post-Keeps,
        thread_root_id-Keeps, insert_event-IsWellFormed,
      )
      depth 24

pub create_reply-Keeps :
    (auth : Option ℕ) (body : Option (ℕ × Text))
    → Keeps (Upholds IsWellFormed) (create_reply auth body)
unfolding create_reply
create_reply-Keeps auth none = search keeps_rules
create_reply-Keeps auth (some (parent, content)) = search (keeps_rules, create_checked_reply-Keeps)
