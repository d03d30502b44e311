-- ===== src/Handler/Post/Tables.antt =====
-- The handlers of post.go keep the tables well formed, whatever the environment does.
use sakura_intern_team_e.Prelude.{ℕ, Option, none, some, true, ◌≡◌, refl, arith, ◌∷◌, [], List, All}
use sakura_intern_team_e.Db.Invariant.{IsWellFormed, MarkRefers, is_older, refers-cons}
use sakura_intern_team_e.Db.Cascade.{delete_posts-IsWellFormed}
use sakura_intern_team_e.Db.Rows.{refers, has_user, has_post}
use sakura_intern_team_e.Db.Tables.{Text, Db, MarkRow, NotificationRow, PostRow}
use sakura_intern_team_e.Action.Keeps.{Keeps, keeps_rules}
use sakura_intern_team_e.Action.Database.{Upholds, Preserves, IsGoodReply, Keeps-stmt}
use sakura_intern_team_e.Handler.Fetch.Reads.{fetch_post-Keeps}
use sakura_intern_team_e.Handler.Post.{
  NewPost, row_of, insert_post, plain_post, create_post, delete_own_post, delete_post, get_post,
  fetch_or_zero,
}

marks-cons :
    (db : Db) (p : PostRow) (ms : List MarkRow)
    → All (MarkRefers db) ms
    → All
        (λ (m : MarkRow).
          (has_user m.user_id db.users ≡ true) × (has_post m.post_id (p ∷ db.posts) ≡ true))
        ms
marks-cons db p [] h = tt
marks-cons db p (m ∷ ms) h = ground (arith, marks-cons db p ms h.1)

notifications-cons :
    (p : PostRow) (ps : List PostRow) (ns : List NotificationRow)
    → All (λ (n : NotificationRow). refers n.post_id ps ≡ true) ns
    → All (λ (n : NotificationRow). refers n.post_id (p ∷ ps) ≡ true) ns
notifications-cons p ps [] h = tt
notifications-cons p ps (n ∷ ns) h =
    (refers-cons n.post_id p ps h.0, notifications-cons p ps ns h.1)

-- A new post keeps the tables well formed if its parent, when it has one, has a smaller id.
pub insert_post-good :
    (p : NewPost) (now : ℕ) (db : Db)
    → IsWellFormed db
    → is_older p.parent_post_id db.next_post ≡ true
    → IsGoodReply IsWellFormed (insert_post p now db)
unfolding insert_post
insert_post-good p now db h o = ground (
  arith,
  marks-cons db (row_of p db.next_post now) db.likes h.likes_refer,
  marks-cons db (row_of p db.next_post now) db.reposts h.marks_refer,
  notifications-cons (row_of p db.next_post now) db.posts db.notifications h.notifications_refer,
)

pub insert_plain-IsWellFormed :
    (user : ℕ) (t : Text) → Preserves IsWellFormed (insert_post (plain_post user t))
insert_plain-IsWellFormed user t = record { at = λ now db h. insert_post-good _ now db h refl }

delete_own_post-IsWellFormed : (id user : ℕ) → Preserves IsWellFormed (delete_own_post id user)
unfolding delete_own_post
delete_own_post-IsWellFormed id user = record { at = λ now db h. delete_posts-IsWellFormed _ db h }

ruleset statement_rules = (Keeps-stmt, insert_plain-IsWellFormed, delete_own_post-IsWellFormed)

pub create_post-Keeps :
    (auth : Option ℕ) (body : Option Text) → Keeps (Upholds IsWellFormed) (create_post auth body)
unfolding create_post fetch_or_zero
create_post-Keeps auth none = search keeps_rules
create_post-Keeps auth (some content) =
    search (keeps_rules, statement_rules, fetch_post-Keeps) depth 12

pub get_post-Keeps : (auth path : Option ℕ) → Keeps (Upholds IsWellFormed) (get_post auth path)
unfolding get_post
get_post-Keeps auth none = search keeps_rules
get_post-Keeps auth (some id) = search (keeps_rules, fetch_post-Keeps) depth 12

pub delete_post-Keeps :
    (auth path : Option ℕ) → Keeps (Upholds IsWellFormed) (delete_post auth path)
unfolding delete_post
delete_post-Keeps auth none = search keeps_rules
delete_post-Keeps auth (some id) = search (keeps_rules, statement_rules) depth 12
