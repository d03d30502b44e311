-- ===== src/Handler/Post/Ownership.antt =====
-- Who may delete a post: DeletePost of app/backend/internal/handler/post.go.
use sakura_intern_team_e.Prelude.{
  ℕ, Bool, true, false, none, some, ◌∷◌, List, [], ◌==◌, if◌then◌else◌, not, arith, any, count, ◌≡◌,
  refl,
}
use sakura_intern_team_e.Db.Tables.{Db, PostRow}
use sakura_intern_team_e.Db.Rows.{find_post}
use sakura_intern_team_e.Db.Cascade.{kept, delete_posts, any-kept_doomed}
use sakura_intern_team_e.Action.{World, ok, err, Result, pure, raise}
use sakura_intern_team_e.Action.Calm.{
  IsCalm, Runs, Runs-stmt, Runs-bind, Runs-or_else, Runs-pure, Runs-raise, Runs-if_true,
  Runs-if_false,
}
use sakura_intern_team_e.Handler.Response.{Response, Body, respond_json, respond_error}
use sakura_intern_team_e.Handler.Post.{is_own_post, delete_own_post, delete_post}

count-any : {A : Type 0} (p : A → Bool) (xs : List A) → (count p xs == 0) ≡ not (any p xs)
count-any p [] = refl
count-any p (x ∷ xs) = ground (arith, count-any p xs)

-- A post that is not deleted and quotes nothing is still found.
find-kept :
    (doomed : PostRow → Bool) (id : ℕ) (p : PostRow) (ps : List PostRow)
    → find_post id ps ≡ some p
    → doomed p ≡ false
    → p.original_post_id ≡ none
    → find_post id (kept doomed ps) ≡ some p
unfolding kept
find-kept doomed id p [] h d o = cc
find-kept doomed id p (x ∷ ps) h d o = grind (arith, find-kept doomed id p ps)

abbrev pub delete_answer : Bool → Result Response Response
delete_answer true = ok (respond_json 200 (Body.message "deleted"))
delete_answer false = err (respond_error 404 "post not found or not yours")

delete_post-calm :
    (now user id : ℕ) (db : Db)
    → Runs now db
        (delete_post (some user) (some id))
        (delete_answer (any (is_own_post id user) db.posts))
        (delete_posts (is_own_post id user) db)
unfolding delete_post delete_own_post
delete_post-calm now user id db =
    Runs-bind _ (Runs-or_else _ (Runs-stmt _ db))
      (answered (any (is_own_post id user) db.posts) (count-any _ db.posts))
  where
    answered :
        (own : Bool)
        → (count (is_own_post id user) db.posts == 0) ≡ not own
        → Runs now
            (delete_posts (is_own_post id user) db)
            (if count (is_own_post id user) db.posts == 0
              then raise (respond_error 404 "post not found or not yours")
              else pure (respond_json 200 (Body.message "deleted")))
            (delete_answer own)
            (delete_posts (is_own_post id user) db)
    answered true e = Runs-if_false _ _ e (Runs-pure _)
    answered false e = Runs-if_true _ _ e (Runs-raise _)

-- When no other process writes and no statement fails, DeletePost answers 200 if the user has a
-- post with that id and 404 otherwise. Afterwards the user has no post with that id, and every
-- post of another user that quotes no post is found as before.
pub delete_post-owner :
    (now user id q : ℕ) (p : PostRow) (w : World)
    → IsCalm now w
    → find_post q w.db.posts ≡ some p
    → (p.user_id == user) ≡ false
    → p.original_post_id ≡ none
    → let (r, v) = delete_post (some user) (some id) w in
      (r ≡ delete_answer (any (is_own_post id user) w.db.posts))
      × (any (is_own_post id user) v.db.posts ≡ false)
      × (find_post q v.db.posts ≡ some p)
unfolding delete_posts
delete_post-owner now user id q p w c found other original =
    let once = (delete_post-calm now user id w.db).at w c refl in
    (
      once.0,
      rw once.1 (any-kept_doomed (is_own_post id user) w.db.posts),
      rw once.1 (find-kept (is_own_post id user) q p w.db.posts found (ground arith) original),
    )
