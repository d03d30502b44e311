-- ===== src/Handler/Answers/Posts.antt =====
-- fetchPost ends with a post or an error where the tables stay well formed: each original that it goes
-- on to is older.
use sakura_intern_team_e.Prelude.{ℕ, zero, suc, ◌<◌, ◌≡◌, refl, Option, none, some, arith}
use sakura_intern_team_e.Db.Tables.{Db, PostRow}
use sakura_intern_team_e.Db.Rows.{find_post}
use sakura_intern_team_e.Db.Invariant.{IsWellFormed}
use sakura_intern_team_e.Db.Errors.{DbError}
use sakura_intern_team_e.Model.{Post}
use sakura_intern_team_e.Action.{Act, stmt, reading, or_zero}
use sakura_intern_team_e.Action.Settles.{
  HubProperty, Settles, Settles-bind, Settles-or_else, Settles-bind_known, Settles-pure, Anything,
  anything, settles_rules,
}
use sakura_intern_team_e.Action.Guarded.{
  Guarded, Settles-Guarded, Settles-reading, Settles-row_known,
}
use sakura_intern_team_e.Handler.Fetch.{
  original_of, fetch_user, fetch_reply_to, fetch_mark, count_replies, fetch_original,
  fetch_post_fuel, fetch_post,
}
use sakura_intern_team_e.Handler.Fetch.Reads.{
  fetch_user-Keeps, count_replies-Keeps, fetch_reply_to-Keeps,
}
use sakura_intern_team_e.Handler.Bulk.Agrees.{original-less}
use sakura_intern_team_e.Handler.Answers.Reads.{
  fetch_user-Settles, count_replies-Settles, fetch_reply_to-Settles,
}

-- A row that was looked up by id, with an older original, if any.
pub record IsLookedUp (id : ℕ) (p : PostRow) : Type 0 where
  pub older : (o : ℕ) → original_of p ≡ some o → o < id

find_post-IsLookedUp :
    (id : ℕ) (db : Db)
    → IsWellFormed db
    → (p : PostRow) → find_post id db.posts ≡ some p
    → IsLookedUp id p
find_post-IsLookedUp id db wf p e = record { older = λ o q. original-less db wf id o p e q }

module _ {I : HubProperty} where
  fetch_user-Guarded :
      (auth : Option ℕ) (id : ℕ)
      → Settles (Guarded I IsWellFormed) Anything Anything (fetch_user auth id)
  fetch_user-Guarded auth id =
      Settles-Guarded _ (fetch_user-Settles auth id) (fetch_user-Keeps auth id)

  count_replies-Guarded :
      (id : ℕ) → Settles (Guarded I IsWellFormed) Anything Anything (count_replies {E = DbError} id)
  count_replies-Guarded id = Settles-Guarded _ (count_replies-Settles id) (count_replies-Keeps id)

  fetch_reply_to-Guarded :
      (parent : Option ℕ)
      → Settles (Guarded I IsWellFormed) Anything Anything (fetch_reply_to parent)
  fetch_reply_to-Guarded parent =
      Settles-Guarded _ (fetch_reply_to-Settles parent) (fetch_reply_to-Keeps parent)

  fetch_mark-Guarded :
      (viewer post : ℕ) (table : _)
      → Settles (Guarded I IsWellFormed) Anything Anything (fetch_mark viewer post table)
  fetch_mark-Guarded viewer post table = search (settles_rules, Settles-reading) depth 8

  or_zero-Guarded :
      (f : Db → ℕ)
      → Settles
          (Guarded I IsWellFormed)
          Anything
          Anything
          (or_zero {E = DbError} 0 (stmt (reading f)))
  or_zero-Guarded f = Settles-or_else _ _ (Settles-reading f) (λ e. Settles-pure _ (anything _))

  fetch_original-Guarded :
      (fetch : ℕ → Act DbError Post) (o : Option ℕ)
      → ((id : ℕ) → o ≡ some id → Settles (Guarded I IsWellFormed) Anything Anything (fetch id))
      → Settles (Guarded I IsWellFormed) Anything Anything (fetch_original fetch o)
  unfolding fetch_original
  fetch_original-Guarded fetch none k = search settles_rules
  fetch_original-Guarded fetch (some id) k =
      let older = k id refl in search (settles_rules, older) depth 8

  fetch_post_fuel-Settles :
      (n : ℕ) (auth : Option ℕ) (id viewer : ℕ)
      → id < n
      → Settles (Guarded I IsWellFormed) Anything Anything (fetch_post_fuel n auth id viewer)
  unfolding fetch_post_fuel
  fetch_post_fuel-Settles zero auth id viewer h = absurd (omega arith)
  fetch_post_fuel-Settles (suc n) auth id viewer h =
      Settles-bind_known _ _ (Settles-row_known _ (IsLookedUp id) (find_post-IsLookedUp id))
        (λ p is.
          let older = λ (o : ℕ) (e : original_of p ≡ some o).
            let below = is.older o e in fetch_post_fuel-Settles n auth o viewer (omega arith) in
          Settles-bind _ _ (fetch_user-Guarded auth p.user_id) (λ author.
            Settles-bind _ _ (or_zero-Guarded _) (λ likes.
              Settles-bind _ _ (or_zero-Guarded _) (λ reposts.
                Settles-bind _ _ (count_replies-Guarded p.id) (λ replies.
                  Settles-bind _ _ (fetch_mark-Guarded viewer p.id _) (λ liked.
                    Settles-bind _ _ (fetch_mark-Guarded viewer p.id _) (λ reposted.
                      Settles-bind _ _ (fetch_reply_to-Guarded p.parent_post_id) (λ reply_to.
                        Settles-bind _ _ (fetch_original-Guarded _ (original_of p) older)
                          (λ original. Settles-pure _ (anything _))))))))))

  pub fetch_post-Settles :
      (auth : Option ℕ) (id viewer : ℕ)
      → Settles (Guarded I IsWellFormed) Anything Anything (fetch_post auth id viewer)
  unfolding fetch_post
  fetch_post-Settles auth id viewer = fetch_post_fuel-Settles (suc id) auth id viewer (omega arith)
