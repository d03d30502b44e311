-- ===== src/Handler/Answers/Lists.antt =====
-- The handlers that only read answer.
use sakura_intern_team_e.Prelude.{ℕ, Option, none, some, List, [], ◌∷◌}
use sakura_intern_team_e.Db.Tables.{Text, Db, PostRow, NotificationRow}
use sakura_intern_team_e.Platform.{Platform}
use sakura_intern_team_e.Model.{User}
use sakura_intern_team_e.Action.Settles.{
  Settles, Settles-bind, Settles-pure, Anything, anything, settles_rules,
}
use sakura_intern_team_e.Handler.Response.{Page}
use sakura_intern_team_e.Handler.Answers.{HubIsValid, IsFit, fit_rules}
use sakura_intern_team_e.Handler.Answers.Reads.{
  fetch_user-Settles, fetch_posts_bulk-Settles, gather-Settles,
}
use sakura_intern_team_e.Handler.Timeline.{respond_posts, get_timeline, get_user_posts}
use sakura_intern_team_e.Handler.Search.{search_posts, search_users, search_for, get_trending}
use sakura_intern_team_e.Handler.Visits.{
  Visits, fetch_visitor, get_footprints, parent_excerpt_of, row_excerpts, fetch_excerpts, item_from,
  fetch_item, get_notifications,
}
use sakura_intern_team_e.Handler.User.{get_me, fetch_users, get_followers, get_following}
use sakura_intern_team_e.Handler.Like.{get_likes}

respond_posts-Settles :
    (auth : Option ℕ) (p : Page) (ids_of : ℕ → Db → List ℕ) (total_of : Db → ℕ)
    → Settles HubIsValid IsFit IsFit (respond_posts auth p ids_of total_of)
respond_posts-Settles auth p ids_of total_of =
    search (settles_rules, fit_rules, fetch_posts_bulk-Settles) depth 12

pub get_timeline-Settles :
    (auth : Option ℕ) (feed page per_page : Text)
    → Settles HubIsValid IsFit IsFit (get_timeline auth feed page per_page)
unfolding get_timeline
get_timeline-Settles auth feed page per_page = respond_posts-Settles _ _ _ _

pub get_user_posts-Settles :
    (auth path : Option ℕ) (type page per_page : Text)
    → Settles HubIsValid IsFit IsFit (get_user_posts auth path type page per_page)
unfolding get_user_posts
get_user_posts-Settles auth none type page per_page = search (settles_rules, fit_rules)
get_user_posts-Settles auth (some user) type page per_page = respond_posts-Settles _ _ _ _

search_posts-Settles :
    (sys : Platform) (q : Text) (auth : Option ℕ) (p : Page)
    → Settles HubIsValid IsFit IsFit (search_posts sys q auth p)
unfolding search_posts
search_posts-Settles sys q auth p = respond_posts-Settles _ _ _ _

search_users-Settles :
    (sys : Platform) (q : Text) (auth : Option ℕ) (p : Page)
    → Settles HubIsValid IsFit IsFit (search_users sys q auth p)
unfolding search_users
search_users-Settles sys q auth p =
    search (settles_rules, fit_rules, gather-Settles, fetch_user-Settles) depth 12

pub search_for-Settles :
    (sys : Platform) (auth : Option ℕ) (q type page per_page : Text)
    → Settles HubIsValid IsFit IsFit (search_for sys auth q type page per_page)
unfolding search_for
search_for-Settles sys auth [] type page per_page = search (settles_rules, fit_rules)
search_for-Settles sys auth (c ∷ cs) type page per_page =
    search (settles_rules, fit_rules, search_posts-Settles, search_users-Settles) depth 8

pub get_trending-Settles : (auth : Option ℕ) → Settles HubIsValid IsFit IsFit (get_trending auth)
unfolding get_trending
get_trending-Settles auth = search (settles_rules, fit_rules, fetch_posts_bulk-Settles) depth 12

fetch_visitor-Settles :
    (auth : Option ℕ) (v : Visits) → Settles HubIsValid Anything Anything (fetch_visitor auth v)
fetch_visitor-Settles auth v = search (settles_rules, fetch_user-Settles) depth 8

pub get_footprints-Settles :
    (auth : Option ℕ) (page per_page : Text)
    → Settles HubIsValid IsFit IsFit (get_footprints auth page per_page)
unfolding get_footprints
get_footprints-Settles none page per_page = search (settles_rules, fit_rules)
get_footprints-Settles (some me) page per_page =
    search (settles_rules, fit_rules, gather-Settles, fetch_visitor-Settles) depth 12

parent_excerpt_of-Settles :
    (parent : Option ℕ) → Settles HubIsValid IsFit Anything (parent_excerpt_of parent)
parent_excerpt_of-Settles none = search settles_rules
parent_excerpt_of-Settles (some parent) = search settles_rules depth 10

row_excerpts-Settles : (row : Option PostRow) → Settles HubIsValid IsFit Anything (row_excerpts row)
row_excerpts-Settles none = search settles_rules
row_excerpts-Settles (some p) = search (settles_rules, parent_excerpt_of-Settles) depth 8

fetch_excerpts-Settles : (post : Option ℕ) → Settles HubIsValid IsFit Anything (fetch_excerpts post)
unfolding fetch_excerpts
fetch_excerpts-Settles none = search settles_rules
fetch_excerpts-Settles (some post) = search (settles_rules, row_excerpts-Settles) depth 10

item_from-Settles :
    (n : NotificationRow) (actor : Option User)
    → Settles HubIsValid IsFit Anything (item_from n actor)
item_from-Settles n none = search settles_rules
item_from-Settles n (some actor) = search (settles_rules, fetch_excerpts-Settles) depth 8

fetch_item-Settles :
    (auth : Option ℕ) (n : NotificationRow) → Settles HubIsValid IsFit Anything (fetch_item auth n)
unfolding fetch_item
fetch_item-Settles auth n = search (settles_rules, fetch_user-Settles, item_from-Settles) depth 10

pub get_notifications-Settles :
    (sys : Platform) (auth : Option ℕ) (type page per_page : Text)
    → Settles HubIsValid IsFit IsFit (get_notifications sys auth type page per_page)
unfolding get_notifications
get_notifications-Settles sys auth type page per_page =
    search (settles_rules, fit_rules, gather-Settles, fetch_item-Settles) depth 14

pub get_me-Settles : (auth : Option ℕ) → Settles HubIsValid IsFit IsFit (get_me auth)
unfolding get_me
get_me-Settles none = search (settles_rules, fit_rules)
get_me-Settles (some me) = search (settles_rules, fit_rules, fetch_user-Settles) depth 8

fetch_users-Settles :
    (auth : Option ℕ) (ids : List ℕ) → Settles HubIsValid IsFit Anything (fetch_users auth ids)
unfolding fetch_users
fetch_users-Settles auth [] = search settles_rules
fetch_users-Settles auth (id ∷ ids) =
    Settles-bind _ _ (search (settles_rules, fetch_user-Settles) depth 8)
      (λ u. Settles-bind _ _ (fetch_users-Settles auth ids) (λ us. Settles-pure _ (anything _)))

pub get_followers-Settles :
    (auth path : Option ℕ) → Settles HubIsValid IsFit IsFit (get_followers auth path)
unfolding get_followers
get_followers-Settles auth none = search (settles_rules, fit_rules)
get_followers-Settles auth (some user) =
    search (settles_rules, fit_rules, fetch_users-Settles) depth 8

pub get_following-Settles :
    (auth path : Option ℕ) → Settles HubIsValid IsFit IsFit (get_following auth path)
unfolding get_following
get_following-Settles auth none = search (settles_rules, fit_rules)
get_following-Settles auth (some user) =
    search (settles_rules, fit_rules, fetch_users-Settles) depth 8

pub get_likes-Settles : (path : Option ℕ) → Settles HubIsValid IsFit IsFit (get_likes path)
unfolding get_likes
get_likes-Settles none = search (settles_rules, fit_rules)
get_likes-Settles (some post) = search (settles_rules, fit_rules, fetch_users-Settles) depth 8
