-- ===== src/Tests/Handlers.antt =====
-- The theorems on the handlers of app/backend/internal/handler/ at the tables of the parent module.
use sakura_intern_team_e.Prelude.{
  ℕ, ◌≤◌, ◌+◌, ◌≡◌, refl, true, false, not, ◌&&◌, Option, none, some, List, [], ◌∷◌, ◌==◌, any, map,
  length,
}
use sakura_intern_team_e.Action.Database.{Upholds}
use sakura_intern_team_e.Db.Tables.{NotificationType, Text}
use sakura_intern_team_e.Db.Errors.{mysql, other, runes}
use sakura_intern_team_e.Db.Rows.{is_repost_of, is_mark, find_post, owner_of}
use sakura_intern_team_e.Db.Invariant.{IsWellFormed}
use sakura_intern_team_e.Db.Cascade.{delete_posts, delete_posts-IsWellFormed}
use sakura_intern_team_e.Action.{World, ok, err, panic, stmt, ◌>>=◌}
use sakura_intern_team_e.Handler.Response.{Response, Body, respond_json}
use sakura_intern_team_e.Handler.Like.{like, unlike, count_likes}
use sakura_intern_team_e.Handler.Like.Idempotence.{like_idempotent, unlike-exact}
use sakura_intern_team_e.Handler.Fetch.ThreadRoot.{thread_key, thread_key-parent}
use sakura_intern_team_e.Handler.Auth.{logout}
use sakura_intern_team_e.Handler.Auth.Sessions.{logout-ends}
use sakura_intern_team_e.Handler.Post.{row_of, is_own_post, delete_post}
use sakura_intern_team_e.Handler.Post.Ownership.{delete_answer, delete_post-owner}
use sakura_intern_team_e.Middleware.{live_user}
use sakura_intern_team_e.Routes.{
  Request, new_reply, remove_post, show_post, follow_user, new_repost, sign_up, log_in, timeline,
  serve,
}
use sakura_intern_team_e.Routes.Answered.{all_answers, serve_answered}
use sakura_intern_team_e.Routes.Tables.{serve-IsWellFormed}
use sakura_intern_team_e.Realtime.Hub.Delivery.{PointsToValid}
use sakura_intern_team_e.Action.Calm.{IsCalm}
use sakura_intern_team_e.Handler.Notification.{insert_notification_once_retry}
use sakura_intern_team_e.Handler.Notification.Retry.{retry_bounded}
use sakura_intern_team_e.Handler.Repost.{
  repost, unrepost, count_reposts, is_own_repost, repost_post,
}
use sakura_intern_team_e.Handler.Repost.Pairs.{repost-pairs, unrepost-clears}
use sakura_intern_team_e.Model.{Post}
use sakura_intern_team_e.Handler.Bulk.{max_repost_depth, fetch_posts_bulk}
use sakura_intern_team_e.Handler.Bulk.Agrees.{prune, fetch_each, fetch_posts_bulk-each}
use sakura_intern_team_e.Handler.Like.Refines.{
  LikeRequest, gives, takes, IsTableOf, specified_all, requested_all, requested_all-refines,
}
use sakura_intern_team_e.Handler.Fetch.{
  fetch_post, fetch_post_fuel, fetch_user, fetch_followed, count_replies, fetch_reply_to,
  parent_names, fetch_original,
}
use sakura_intern_team_e.Handler.Thread.{
  get_thread, fetch_ancestors, fetch_reply_tree, reply_nodes, reply_ids,
}
use sakura_intern_team_e.Handler.Thread.Chain.{IsThread, get_thread-IsThread}
use sakura_intern_team_e.Tests.{
  platform, newcomer, hub-IsValid, tables, cookie_text, post_row, tables-IsWellFormed, calm_world,
  calm_world-IsCalm, calm_world-Upholds,
}

abbrev requests : List (Option Text × Request)
requests =
    (some cookie_text, new_reply (some (2, runes "hey")))
    ∷ (some cookie_text, new_repost (some 2))
    ∷ (some cookie_text, follow_user (some 2))
    ∷ (none, show_post (some 2))
    ∷ (some cookie_text, remove_post (some 1))
    ∷ (none, sign_up (some (runes "t")) (some newcomer))
    ∷ (none, log_in (some (runes "u")) (some (runes "new@example.com", runes "secret")))
    ∷ (some cookie_text, timeline (runes "latest") (runes "1") (runes "10"))
    ∷ []

serve-IsWellFormed_example : IsWellFormed (serve platform requests calm_world).1.db
serve-IsWellFormed_example = serve-IsWellFormed platform requests calm_world calm_world-Upholds

-- Every statement fails.
abbrev broken_world : World
broken_world = record calm_world {
  env = λ n. record { interfere = λ db. db; fault = some other; now = 50 };
}

broken_world-Upholds : Upholds IsWellFormed broken_world
broken_world-Upholds = record { holds = tables-IsWellFormed; others = λ n db h. h }

serve_answered_example :
    (all_answers (serve platform requests broken_world).0 ≡ true)
    × (length (serve platform requests broken_world).0 ≡ length requests)
    × PointsToValid (serve platform requests broken_world).1.notifications
serve_answered_example =
    serve_answered platform requests broken_world hub-IsValid broken_world-Upholds

like_idempotent_example :
    let (r, v) = like (some 1) (some 2) calm_world in
    let (again, u) = like (some 1) (some 2) v in
    (r ≡ ok (respond_json 200 (Body.likes_count (count_likes 2 v.db))))
    × (any (is_mark 1 2) v.db.likes ≡ true)
    × (again ≡ r)
    × (u.db ≡ v.db)
unfolding owner_of
like_idempotent_example =
    like_idempotent 50 1 2 2 calm_world calm_world-IsCalm tables-IsWellFormed refl refl

unlike-exact_example :
    let (r, v) = unlike (some 2) (some 1) calm_world in
    (r ≡ ok (respond_json 200 (Body.likes_count (count_likes 1 v.db))))
    × (any (is_mark 2 1) v.db.likes ≡ (any (is_mark 2 1) tables.likes && not (2 == 2 && 1 == 1)))
unlike-exact_example = unlike-exact 50 2 1 2 1 calm_world calm_world-IsCalm

thread_key-parent_example : thread_key 2 tables.posts ≡ thread_key 1 tables.posts
thread_key-parent_example =
    thread_key-parent 3 2 1 tables.posts (post_row 2 2 (some 1)) tables-IsWellFormed.posts_below
      refl refl

delete_post-owner_example :
    let (r, v) = delete_post (some 2) (some 2) calm_world in
    (r ≡ delete_answer (any (is_own_post 2 2) tables.posts))
    × (any (is_own_post 2 2) v.db.posts ≡ false)
    × (find_post 1 v.db.posts ≡ some (post_row 1 1 none))
delete_post-owner_example =
    delete_post-owner 50 2 2 1 (post_row 1 1 none) calm_world calm_world-IsCalm refl refl refl

delete_posts-IsWellFormed_example : IsWellFormed (delete_posts (is_own_post 1 1) tables)
delete_posts-IsWellFormed_example =
    delete_posts-IsWellFormed (is_own_post 1 1) tables tables-IsWellFormed

repost-pairs_example :
    let (r, v) = repost (some 1) (some 2) calm_world in
    (r ≡ ok (respond_json 200 (Body.reposts_count (count_reposts 2 v.db))))
    × (any (is_mark 1 2) v.db.reposts ≡ true)
    × (any (is_repost_of 1 2) v.db.posts ≡ true)
unfolding owner_of
repost-pairs_example =
    repost-pairs 50 1 2 2 calm_world calm_world-IsCalm tables-IsWellFormed refl refl

logout-ends_example :
    let (r, v) = logout (some cookie_text) calm_world in
    (r ≡ ok (respond_json 200 (Body.message "logged out")))
    × (live_user cookie_text 60 v.db.sessions ≡ none)
logout-ends_example = logout-ends 50 60 cookie_text calm_world calm_world-IsCalm

-- User 1 has reposted post 2.
abbrev reposted_world : World
reposted_world = record calm_world {
  db = record tables {
    reposts = record { user_id = 1; post_id = 2; created_at = 4 } ∷ [];
    posts = row_of (repost_post 1 2) 3 4 ∷ tables.posts;
    next_post = 4;
  };
}

reposted_world-IsCalm : IsCalm 50 reposted_world
reposted_world-IsCalm = record {
  alone = λ n db. refl;
  healthy = λ n. refl;
  time = λ n. refl;
  hub = hub-IsValid;
}

unrepost-clears_example :
    let (r, v) = unrepost (some 1) (some 2) reposted_world in
    (r ≡ ok (respond_json 200 (Body.reposts_count (count_reposts 2 v.db))))
    × (any (is_mark 1 2) v.db.reposts ≡ false)
    × (any (is_own_repost 1 2) v.db.posts ≡ false)
unrepost-clears_example = unrepost-clears 50 1 2 reposted_world reposted_world-IsCalm

-- Every attempt meets a deadlock.
abbrev deadlocked : World
deadlocked = record calm_world {
  env = λ n. record { interfere = λ db. db; fault = some (mysql 1213 []); now = 50 };
}

retry_bounded_example :
    (insert_notification_once_retry 1 NotificationType.like 2 (some 1) deadlocked).1.clock ≤ 0 + 5
retry_bounded_example = retry_bounded 1 NotificationType.like 2 (some 1) deadlocked

fetch_posts_bulk-each_example :
    let one_by_one = fetch_each (some 1) (2 ∷ 7 ∷ 1 ∷ 2 ∷ []) 1 calm_world in
    let at_once = fetch_posts_bulk (some 1) (2 ∷ 7 ∷ 1 ∷ 2 ∷ []) 1 calm_world in
    (posts : List Post) × (one_by_one.0 ≡ ok posts)
    × (at_once.0 ≡ ok (map (prune max_repost_depth) posts))
    × (one_by_one.1.db ≡ tables)
    × (at_once.1.db ≡ tables)
fetch_posts_bulk-each_example =
    fetch_posts_bulk-each 50 (some 1) (2 ∷ 7 ∷ 1 ∷ 2 ∷ []) calm_world calm_world-IsCalm
      tables-IsWellFormed refl

abbrev like_requests : List LikeRequest
like_requests = gives 1 2 ∷ gives 2 9 ∷ takes 2 1 ∷ gives 1 2 ∷ []

requested_all-refines_example :
    let start = λ (u p : ℕ). any (is_mark u p) tables.likes in
    IsTableOf
      (specified_all tables.posts like_requests start)
      (requested_all like_requests calm_world).db
    × ((requested_all like_requests calm_world).db.posts ≡ tables.posts)
    × ((requested_all like_requests calm_world).db.users ≡ tables.users)
requested_all-refines_example =
    requested_all-refines 50 like_requests (λ u p. any (is_mark u p) tables.likes) calm_world
      calm_world-IsCalm tables-IsWellFormed (refl, (refl, (refl, (refl, tt)))) (λ u p. refl)

abbrev answered : Response
answered = elim (get_thread none (some 2) calm_world).0 [
  | ok r ↦ r
  | err r ↦ r
  | panic ↦ respond_json 0 (Body.message "panic")
]

answered-ok : (get_thread none (some 2) calm_world).0 ≡ ok answered
unfolding get_thread ◌>>=◌ fetch_post fetch_post_fuel stmt fetch_user fetch_followed count_replies
    fetch_reply_to parent_names fetch_original fetch_ancestors fetch_reply_tree reply_nodes
    reply_ids
answered-ok = refl

get_thread-IsThread_example : IsThread 2 answered
get_thread-IsThread_example = get_thread-IsThread none 2 calm_world answered answered-ok
