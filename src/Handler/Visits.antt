-- ===== src/Handler/Visits.antt =====
-- The lists of what happened to a user: GetFootprints of app/backend/internal/handler/footprint.go and
-- GetNotifications of notification.go.
pub mod Reads
pub mod Groups
use sakura_intern_team_e.Prelude.{
  ℕ, Bool, ◌&&◌, ◌||◌, Option, none, some, List, [], ◌∷◌, ◌++◌, ◌==◌, leb, if◌then◌else◌, take,
  count, filter, map, length,
}
use sakura_intern_team_e.Db.Tables.{
  Text, Db, PostRow, FootprintRow, NotificationRow, NotificationType,
}
use sakura_intern_team_e.Db.Errors.{DbError, runes}
use sakura_intern_team_e.Db.Rows.{find_post}
use sakura_intern_team_e.Model.{User}
use sakura_intern_team_e.Middleware.{same_text}
use sakura_intern_team_e.Platform.{Platform}
use sakura_intern_team_e.Action.{Act, stmt, pure, raise, ◌>>=◌, reading, reading_row, or_zero}
use sakura_intern_team_e.Handler.Response.{
  Response, Body, NotificationItem, respond_json, respond_error, or_server_error, current_user_id,
}
use sakura_intern_team_e.Handler.Notification.{is_unread}
use sakura_intern_team_e.Handler.Fetch.{fetch_user}
use sakura_intern_team_e.Handler.Page.{
  pagination, order_by, page_rows, is_above, distinct, or_none, gather, fetch_found,
}

-- A group of visits: the visitor, COUNT(*) and MAX(created_at).
pub record Visits : Type 0 where
  pub visitor_id : ℕ
  pub visit_count : ℕ
  pub last_visited : ℕ

abbrev pub last_visit : List FootprintRow → ℕ
last_visit [] = 0
last_visit (f ∷ fs) =
    let later = last_visit fs in if leb later f.created_at then f.created_at else later

abbrev pub is_visit_by : ℕ → FootprintRow → Bool
is_visit_by visitor f = f.visitor_id == visitor

abbrev pub visits_to : ℕ → Db → List FootprintRow
visits_to user db = filter (λ (f : FootprintRow). f.user_id == user) db.footprints

abbrev pub visitors_of : List FootprintRow → List ℕ
visitors_of visits = distinct (map (λ (f : FootprintRow). f.visitor_id) visits)

abbrev pub visits_by : List FootprintRow → ℕ → Visits
visits_by visits visitor = record {
  visitor_id = visitor;
  visit_count = count (is_visit_by visitor) visits;
  last_visited = last_visit (filter (is_visit_by visitor) visits);
}

-- ORDER BY last_visited DESC, visitor_id DESC
abbrev pub is_later : Visits → Visits → Bool
is_later a b = is_above a.last_visited a.visitor_id b.last_visited b.visitor_id

-- The groups of GetFootprints' query.
unfoldable pub visit_groups : ℕ → Db → List Visits
visit_groups user db =
    let visits = visits_to user db in
    order_by is_later (map (visits_by visits) (visitors_of visits))

-- COUNT(DISTINCT visitor_id)
unfoldable pub visitors_total : ℕ → Db → ℕ
visitors_total user db = length (visitors_of (visits_to user db))

abbrev pub fetch_visitor : Option ℕ → Visits → Act DbError (User × ℕ)
fetch_visitor auth v = fetch_user auth v.visitor_id >>= λ u. pure (u, v.visit_count)

-- GetFootprints, on the query's page and per_page
unfoldable pub get_footprints : Option ℕ → Text → Text → Act Response Response
get_footprints none page per_page = raise (respond_error 401 "unauthorized")
get_footprints (some me) page per_page = do
  let p = pagination page per_page
  rows ← or_server_error (stmt (reading (λ db. page_rows p (visit_groups me db))))
  visitors ← fetch_found (fetch_visitor (some me)) rows
  total ← or_zero 0 (stmt (reading (visitors_total me)))
  pure (respond_json 200 (Body.footprints_page visitors total p))

-- excerptOf
unfoldable pub excerpt_of : Option Text → Option Text
excerpt_of none = none
excerpt_of (some t) = if leb (length t) 40 then some t else some (take 40 t ++ (8230 ∷ []))

-- The texts of notifications.type.
abbrev pub type_text : NotificationType → Text
type_text NotificationType.like = runes "like"
type_text NotificationType.repost = runes "repost"
type_text NotificationType.reply = runes "reply"
type_text NotificationType.follow = runes "follow"
type_text NotificationType.footprint = runes "footprint"

-- user_id = ?, and type = ? unless the query's type is empty or "all"
abbrev pub is_listed : Platform → Text → ℕ → NotificationRow → Bool
is_listed sys type me n =
    n.user_id == me
    && (same_text type []
        || same_text type (runes "all")
        || sys.equal_texts (type_text n.ntype) type)

abbrev pub is_newer_notification : NotificationRow → NotificationRow → Bool
is_newer_notification m n = is_above m.created_at m.id n.created_at n.id

unfoldable pub notification_rows : Platform → Text → ℕ → Db → List NotificationRow
notification_rows sys type me db =
    order_by is_newer_notification (filter (is_listed sys type me) db.notifications)

abbrev pub find_row : ℕ → Act Response (Option PostRow)
find_row id = or_none (stmt (reading_row (λ db. find_post id db.posts)))

abbrev pub content_of : Option PostRow → Option Text
content_of none = none
content_of (some p) = p.content

-- The excerpt of a reply's parent.
abbrev pub parent_excerpt_of : Option ℕ → Act Response (Option Text)
parent_excerpt_of none = pure none
parent_excerpt_of (some parent) = find_row parent >>= λ p. pure (excerpt_of (content_of p))

abbrev pub row_excerpts : Option PostRow → Act Response (Option Text × Option Text)
row_excerpts none = pure (none, none)
row_excerpts (some p) =
    parent_excerpt_of p.parent_post_id >>= λ parent. pure (excerpt_of p.content, parent)

unfoldable pub fetch_excerpts : Option ℕ → Act Response (Option Text × Option Text)
fetch_excerpts none = pure (none, none)
fetch_excerpts (some post) = find_row post >>= row_excerpts

abbrev pub item_of : NotificationRow → User → Option Text × Option Text → NotificationItem
item_of n actor excerpts = record {
  id = n.id;
  ntype = n.ntype;
  actor = actor;
  post_id = n.post_id;
  post_excerpt = excerpts.0;
  parent_excerpt = excerpts.1;
  is_read = n.is_read;
}

abbrev pub item_from : NotificationRow → Option User → Act Response (Option NotificationItem)
item_from n none = pure none
item_from n (some actor) = fetch_excerpts n.post_id >>= λ e. pure (some (item_of n actor e))

-- One round of the loop over the rows.
unfoldable pub fetch_item : Option ℕ → NotificationRow → Act Response (Option NotificationItem)
fetch_item auth n = or_none (fetch_user auth n.actor_id) >>= item_from n

-- GetNotifications, on the query's type, page and per_page
unfoldable pub get_notifications : Platform → Option ℕ → Text → Text → Text → Act Response Response
get_notifications sys auth type page per_page = do
  let me = current_user_id auth
  let p = pagination page per_page
  rows ← or_server_error (stmt (reading (λ db. page_rows p (notification_rows sys type me db))))
  items ← gather (fetch_item auth) rows
  unread ← or_zero 0 (stmt (reading (λ db. count (is_unread me) db.notifications)))
  total ← or_zero 0 (stmt (reading (λ db. count (is_listed sys type me) db.notifications)))
  pure (respond_json 200 (Body.notifications_page items total unread p))
