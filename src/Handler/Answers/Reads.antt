-- ===== src/Handler/Answers/Reads.antt =====
-- The reading functions of handler.go settle.
use sakura_intern_team_e.Prelude.{ℕ, zero, suc, Option, none, some, List, [], ◌∷◌}
use sakura_intern_team_e.Db.Errors.{DbError}
use sakura_intern_team_e.Action.{Act}
use sakura_intern_team_e.Action.Settles.{
  HubProperty, Within, Settles, Settles-bind, Settles-pure, Anything, anything, settles_rules,
}
use sakura_intern_team_e.Model.{Post, PostInfo}
use sakura_intern_team_e.Handler.Fetch.{
  fetch_followed, fetch_user, count_replies, thread_root_id, fetch_reply_to, fetch_mark,
}
use sakura_intern_team_e.Handler.Bulk.{
  apply_replies_count, apply_reply_to, bulk_level, fetch_posts_bulk_depth, fetch_posts_bulk,
}
use sakura_intern_team_e.Handler.Page.{gather}

fetch_followed-Settles :
    {I : HubProperty} (auth : Option ℕ) (id : ℕ)
    → Settles (Within I) Anything Anything (fetch_followed auth id)
unfolding fetch_followed
fetch_followed-Settles none id = search settles_rules
fetch_followed-Settles (some viewer) id = search settles_rules depth 8

pub fetch_user-Settles :
    {I : HubProperty} (auth : Option ℕ) (id : ℕ)
    → Settles (Within I) Anything Anything (fetch_user auth id)
unfolding fetch_user
fetch_user-Settles auth id = search (settles_rules, fetch_followed-Settles) depth 20

module _ {I : HubProperty} {E : Type 0} {F : E → Type 0} where
  pub thread_root_id-Settles : (id : ℕ) → Settles (Within I) F Anything (thread_root_id id)
  unfolding thread_root_id
  thread_root_id-Settles id = search settles_rules depth 8

  pub count_replies-Settles : (id : ℕ) → Settles (Within I) F Anything (count_replies id)
  unfolding count_replies
  count_replies-Settles id = search settles_rules depth 8

pub fetch_reply_to-Settles :
    {I : HubProperty} (parent : Option ℕ)
    → Settles (Within I) Anything Anything (fetch_reply_to parent)
unfolding fetch_reply_to
fetch_reply_to-Settles none = search settles_rules
fetch_reply_to-Settles (some parent) = search settles_rules depth 8

pub fetch_mark-Settles :
    {I : HubProperty} (viewer post : ℕ) (table : _)
    → Settles (Within I) Anything Anything (fetch_mark viewer post table)
fetch_mark-Settles viewer post table = search settles_rules depth 8

apply_replies_count-Settles :
    {I : HubProperty} (ids : List ℕ) (posts : List PostInfo)
    → Settles (Within I) Anything Anything (apply_replies_count ids posts)
unfolding apply_replies_count
apply_replies_count-Settles ids posts = search settles_rules depth 8

apply_reply_to-Settles :
    {I : HubProperty} (ids : List ℕ) (posts : List PostInfo)
    → Settles (Within I) Anything Anything (apply_reply_to ids posts)
unfolding apply_reply_to
apply_reply_to-Settles [] posts = search settles_rules
apply_reply_to-Settles (id ∷ ids) posts = search settles_rules depth 8

bulk_level-Settles_last :
    {I : HubProperty} (auth : Option ℕ) (ids : List ℕ) (viewer : ℕ)
    → Settles (Within I) Anything Anything (bulk_level none auth ids viewer)
unfolding bulk_level
bulk_level-Settles_last auth ids viewer =
    search (settles_rules, apply_replies_count-Settles, apply_reply_to-Settles) depth 12

bulk_level-Settles :
    {I : HubProperty} (fetch : List ℕ → Act DbError (List Post))
    → ((os : List ℕ) → Settles (Within I) Anything Anything (fetch os))
    → (auth : Option ℕ) (ids : List ℕ) (viewer : ℕ)
    → Settles (Within I) Anything Anything (bulk_level (some fetch) auth ids viewer)
unfolding bulk_level
bulk_level-Settles fetch k auth ids viewer =
    search (settles_rules, apply_replies_count-Settles, apply_reply_to-Settles, k) depth 16

fetch_posts_bulk_depth-Settles :
    {I : HubProperty} (n : ℕ) (auth : Option ℕ) (ids : List ℕ) (viewer : ℕ)
    → Settles (Within I) Anything Anything (fetch_posts_bulk_depth n auth ids viewer)
unfolding fetch_posts_bulk_depth
fetch_posts_bulk_depth-Settles zero auth [] viewer = search settles_rules
fetch_posts_bulk_depth-Settles zero auth (id ∷ ids) viewer =
    bulk_level-Settles_last auth (id ∷ ids) viewer
fetch_posts_bulk_depth-Settles (suc n) auth [] viewer = search settles_rules
fetch_posts_bulk_depth-Settles (suc n) auth (id ∷ ids) viewer =
    bulk_level-Settles _ (λ os. fetch_posts_bulk_depth-Settles n auth os viewer) auth (id ∷ ids)
      viewer

pub fetch_posts_bulk-Settles :
    {I : HubProperty} (auth : Option ℕ) (ids : List ℕ) (viewer : ℕ)
    → Settles (Within I) Anything Anything (fetch_posts_bulk auth ids viewer)
unfolding fetch_posts_bulk
fetch_posts_bulk-Settles auth ids viewer = fetch_posts_bulk_depth-Settles 50 auth ids viewer

module _ {I : HubProperty} {E : Type 0} {F : E → Type 0} where
  pub gather-Settles :
      {A B : Type 0} (make : A → Act E (Option B)) (rows : List A)
      → ((a : A) → Settles (Within I) F Anything (make a))
      → Settles (Within I) F Anything (gather make rows)
  unfolding gather
  gather-Settles make [] k = search settles_rules
  gather-Settles make (a ∷ rows) k =
      Settles-bind _ _ (k a) (λ made.
        Settles-bind _ _ (gather-Settles make rows k) (λ rest. Settles-pure _ (anything _)))
