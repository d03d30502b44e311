-- ===== src/Handler/Visits/Reads.antt =====
-- Listing footprints and notifications changes no table.
use sakura_intern_team_e.Prelude.{ℕ, Option, none, some}
use sakura_intern_team_e.Platform.{Platform}
use sakura_intern_team_e.Db.Tables.{PostRow, NotificationRow}
use sakura_intern_team_e.Model.{User}
use sakura_intern_team_e.Db.Tables.{Text, Db}
use sakura_intern_team_e.Action.Keeps.{Keeps, keeps_rules}
use sakura_intern_team_e.Action.Database.{Upholds}
use sakura_intern_team_e.Handler.Fetch.Reads.{read_rules, fetch_user-Keeps}
use sakura_intern_team_e.Handler.Page.Reads.{gather-Keeps, fetch_found-Keeps}
use sakura_intern_team_e.Handler.Visits.{
  Visits, fetch_visitor, get_footprints, parent_excerpt_of, row_excerpts, fetch_excerpts, item_from,
  fetch_item, get_notifications,
}

module _ {P : Db → Type 0} where
  fetch_visitor-Keeps : (auth : Option ℕ) (v : Visits) → Keeps (Upholds P) (fetch_visitor auth v)
  fetch_visitor-Keeps auth v = search (read_rules, fetch_user-Keeps) depth 8

  pub get_footprints-Keeps :
      (auth : Option ℕ) (page per_page : Text)
      → Keeps (Upholds P) (get_footprints auth page per_page)
  unfolding get_footprints
  get_footprints-Keeps none page per_page = search keeps_rules
  get_footprints-Keeps (some me) page per_page =
      search (read_rules, fetch_found-Keeps, fetch_visitor-Keeps) depth 12

  parent_excerpt_of-Keeps : (parent : Option ℕ) → Keeps (Upholds P) (parent_excerpt_of parent)
  parent_excerpt_of-Keeps none = search keeps_rules
  parent_excerpt_of-Keeps (some parent) = search read_rules depth 10

  row_excerpts-Keeps : (row : Option PostRow) → Keeps (Upholds P) (row_excerpts row)
  row_excerpts-Keeps none = search keeps_rules
  row_excerpts-Keeps (some p) = search (keeps_rules, parent_excerpt_of-Keeps) depth 8

  fetch_excerpts-Keeps : (post : Option ℕ) → Keeps (Upholds P) (fetch_excerpts post)
  unfolding fetch_excerpts
  fetch_excerpts-Keeps none = search keeps_rules
  fetch_excerpts-Keeps (some post) = search (read_rules, row_excerpts-Keeps) depth 10

  item_from-Keeps :
      (n : NotificationRow) (actor : Option User) → Keeps (Upholds P) (item_from n actor)
  item_from-Keeps n none = search keeps_rules
  item_from-Keeps n (some actor) = search (keeps_rules, fetch_excerpts-Keeps) depth 8

  fetch_item-Keeps : (auth : Option ℕ) (n : NotificationRow) → Keeps (Upholds P) (fetch_item auth n)
  unfolding fetch_item
  fetch_item-Keeps auth n = search (keeps_rules, fetch_user-Keeps, item_from-Keeps) depth 10

  pub get_notifications-Keeps :
      (sys : Platform) (auth : Option ℕ) (type page per_page : Text)
      → Keeps (Upholds P) (get_notifications sys auth type page per_page)
  unfolding get_notifications
  get_notifications-Keeps sys auth type page per_page =
      search (read_rules, gather-Keeps, fetch_item-Keeps) depth 14
