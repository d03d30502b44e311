-- ===== src/Handler/Repost/Pairs.antt =====
-- A repost of app/backend/internal/handler/repost.go is a mark in reposts and a post that quotes the
-- original: Repost makes both stand, UnRepost takes both away.
use sakura_intern_team_e.Prelude.{
  ℕ, Bool, true, false, some, List, [], ◌∷◌, not, if◌then◌else◌, any, filter, ◌≡◌, refl, arith,
  ==_refl,
}
use sakura_intern_team_e.Db.Tables.{Db, MarkRow, NotificationType}
use sakura_intern_team_e.Db.Rows.{has_user, owner_of, is_mark, is_repost_of}
use sakura_intern_team_e.Db.Invariant.{IsWellFormed, any-filter}
use sakura_intern_team_e.Db.Cascade.{delete_posts, any-kept_doomed}
use sakura_intern_team_e.Action.{World, ok, pure}
use sakura_intern_team_e.Action.Calm.{
  IsCalm, Runs, Runs-stmt, Runs-done, Runs-pure, Runs-bind, Runs-or_else, Runs-transaction,
}
use sakura_intern_team_e.Notify.Publish.{insert_event}
use sakura_intern_team_e.Handler.Response.{Response, Body, respond_json}
use sakura_intern_team_e.Handler.Notification.{deliver_notification}
use sakura_intern_team_e.Handler.Notification.Calm.{
  announced, with_notification, deliver_notification-calm,
}
use sakura_intern_team_e.Handler.Repost.{
  count_reposts, repost, delete_repost, delete_repost_post, is_own_repost, unrepost,
}
use sakura_intern_team_e.Handler.Repost.Calm.{noted, marked, posted, reposting, once-Runs}

-- The database after Repost: a new notification is announced.
unfoldable told : ℕ → ℕ → ℕ → Bool × Db → Db
told owner post now (true, db) = announced owner NotificationType.repost (some post) now db
told owner post now (false, db) = db

tell-calm :
    (now owner post : ℕ) (b : Bool) (db : Db)
    → Runs {E = Response} now db
        (if b then deliver_notification owner NotificationType.repost (some post) else pure tt)
        (ok tt)
        (told owner post now (b, db))
unfolding told
tell-calm now owner post true db =
    deliver_notification-calm now owner NotificationType.repost (some post) db
tell-calm now owner post false db = Runs-pure tt

repost-calm :
    (now owner user post : ℕ) (db : Db)
    → IsWellFormed db
    → has_user user db.users ≡ true
    → owner_of post db.posts ≡ some owner
    → let after = told owner post now (reposting owner user post now db) in
      Runs now db
        (repost (some user) (some post))
        (ok (respond_json 200 (Body.reposts_count (count_reposts post after))))
        after
unfolding repost
repost-calm now owner user post db v known owned =
    Runs-bind _ (Runs-or_else _ (Runs-done _ (rw owned))) (
      Runs-bind _ (Runs-or_else _ (once-Runs now owner user post db v known owned)) (
        Runs-bind _
          (tell-calm now owner post (reposting owner user post now db).0
            (reposting owner user post now db).1)
          (Runs-bind _ (Runs-or_else _ (Runs-stmt _ _)) (Runs-pure _))))

-- Notifying touches neither marks nor posts.
told-reposting :
    (owner user post now : ℕ) (db : Db)
    → let after = told owner post now (reposting owner user post now db) in
      let stored = posted user post now (marked user post now db) in
      (after.reposts ≡ stored.reposts) × (after.posts ≡ stored.posts)
unfolding told reposting noted announced with_notification insert_event
told-reposting owner user post now db = ground arith

stored-both :
    (user post now : ℕ) (db : Db)
    → let stored = posted user post now (marked user post now db) in
      (any (is_mark user post) stored.reposts ≡ true)
      × (any (is_repost_of user post) stored.posts ≡ true)
unfolding posted marked
stored-both user post now db = ground (arith, ==_refl user, ==_refl post)

-- When no other process writes and no statement fails, a known user who reposts an existing post of
-- a well-formed database, whether or not the mark or the quoting post stood there before, is
-- answered 200 with the number of reposts of the post, and afterwards both the user's mark and the
-- user's post that quotes the original stand.
pub repost-pairs :
    (now user owner post : ℕ) (w : World)
    → IsCalm now w
    → IsWellFormed w.db
    → has_user user w.db.users ≡ true
    → owner_of post w.db.posts ≡ some owner
    → let (r, v) = repost (some user) (some post) w in
      (r ≡ ok (respond_json 200 (Body.reposts_count (count_reposts post v.db))))
      × (any (is_mark user post) v.db.reposts ≡ true)
      × (any (is_repost_of user post) v.db.posts ≡ true)
repost-pairs now user owner post w c v known owned =
    let ran = (repost-calm now owner user post w.db v known owned).at w c refl in
    let same = told-reposting owner user post now w.db in
    let both = stored-both user post now w.db in
    (rw ran.1 ran.0, rw (ran.1, same.0) both.0, rw (ran.1, same.1) both.1)

unmarked :
    (user post : ℕ) (ms : List MarkRow)
    → any (is_mark user post) (filter (λ m. not (is_mark user post m)) ms) ≡ false
unmarked user post [] = refl
unmarked user post (m ∷ ms) = ground (arith, unmarked user post ms)

-- The database after UnRepost.
unfoldable unreposted : ℕ → ℕ → Db → Db
unreposted user post db =
    delete_posts (is_own_repost user post)
      (record db { reposts = filter (λ m. not (is_mark user post m)) db.reposts })

unrepost-calm :
    (now user post : ℕ) (db : Db)
    → Runs now db
        (unrepost (some user) (some post))
        (ok (respond_json 200 (Body.reposts_count (count_reposts post (unreposted user post db)))))
        (unreposted user post db)
unfolding unrepost delete_repost delete_repost_post unreposted
unrepost-calm now user post db =
    Runs-bind _ (Runs-or_else _ (Runs-transaction (Runs-bind _ (Runs-stmt _ db) (Runs-stmt _ _))))
      (Runs-bind _ (Runs-or_else _ (Runs-stmt _ _)) (Runs-pure _))

-- When no other process writes and no statement fails, UnRepost is answered 200 with the number of
-- reposts that are left, and afterwards neither the user's mark nor a repost post of the user that
-- quotes the original stands.
pub unrepost-clears :
    (now user post : ℕ) (w : World)
    → IsCalm now w
    → let (r, v) = unrepost (some user) (some post) w in
      (r ≡ ok (respond_json 200 (Body.reposts_count (count_reposts post v.db))))
      × (any (is_mark user post) v.db.reposts ≡ false)
      × (any (is_own_repost user post) v.db.posts ≡ false)
unfolding unreposted delete_posts
unrepost-clears now user post w c =
    let ran = (unrepost-calm now user post w.db).at w c refl in
    (
      rw ran.1 ran.0,
      rw ran.1 (any-filter (is_mark user post) _ _ (unmarked user post w.db.reposts)),
      rw ran.1 (any-kept_doomed (is_own_repost user post) w.db.posts),
    )
