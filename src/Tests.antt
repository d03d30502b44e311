-- ===== src/Tests.antt =====
-- The theorems at concrete inputs: two users, a post with a reply, a hub with two streams, and a
-- small sse_events table.
pub mod Handlers
pub mod Lists
pub mod Streams
pub mod Seeding
pub mod Notifications
pub mod Startup
use sakura_intern_team_e.Prelude.{
  ℕ, ◌≡◌, ◌≢◌, ◌⊎◌, ◌≤◌, ◌<◌, ◌↔◌, refl, Bool, true, false, not, ◌&&◌, Option, none, some, List, [],
  ◌∷◌, arith, ◌==◌, any, take, length, contains,
}
use sakura_intern_team_e.Db.Tables.{
  Text, Db, UserRow, PostRow, MarkRow, SessionRow, EventRow, EventKind, NotificationType,
}
use sakura_intern_team_e.Db.Rows.{has_user, owner_of, find_post, is_mark}
use sakura_intern_team_e.Db.Invariant.{IsWellFormed}
use sakura_intern_team_e.Db.Errors.{runes}
use sakura_intern_team_e.Platform.{Platform, hashed}
use sakura_intern_team_e.Middleware.{same_text}
use sakura_intern_team_e.Handler.Auth.{Registration}
use sakura_intern_team_e.Model.{Event}
use sakura_intern_team_e.Realtime.Hub.{
  Hub, new_hub, subscribe, unsubscribe, publish_hub, subscribers,
}
use sakura_intern_team_e.Realtime.Hub.Invariant.{IsValid, new_hub-IsValid, subscribe-IsValid}
use sakura_intern_team_e.Action.{World, Result, ok}
use sakura_intern_team_e.Action.Calm.{IsCalm}
use sakura_intern_team_e.Action.Database.{Upholds}

abbrev pub user_row : ℕ → UserRow
user_row id = record {
  id = id;
  username = runes "user";
  display_name = runes "User";
  email = runes "user@example.com";
  password_hash = [];
  bio = none;
  created_at = 0;
}

abbrev pub post_row : ℕ → ℕ → Option ℕ → PostRow
post_row id user parent = record {
  id = id;
  user_id = user;
  content = some (runes "hi");
  is_repost = false;
  original_post_id = none;
  parent_post_id = parent;
  created_at = id;
}

abbrev pub cookie_text : Text
cookie_text = runes "s1"

-- User 1 wrote post 1, user 2 replied with post 2 and liked it, and user 1 has a session until 100.
abbrev pub tables : Db
tables = record {
  users = user_row 2 ∷ user_row 1 ∷ [];
  sessions = record { id = cookie_text; user_id = 1; expires_at = 100 } ∷ [];
  posts = post_row 2 2 (some 1) ∷ post_row 1 1 none ∷ [];
  follows = [];
  likes = record { user_id = 2; post_id = 1; created_at = 3 } ∷ [];
  reposts = [];
  footprints = [];
  notifications = [];
  events = [];
  next_user = 3;
  next_post = 3;
  next_notification = 1;
  next_event = 1;
}

pub tables-IsWellFormed : IsWellFormed tables
tables-IsWellFormed = record {
  next_user_positive = omega arith;
  users_below = (omega arith, omega arith, (omega arith, omega arith, tt));
  next_positive = omega arith;
  posts_below = (omega arith, omega arith, refl, refl, (omega arith, omega arith, refl, refl, tt));
  post_authors = (refl, (refl, tt));
  post_contents = (refl, (refl, tt));
  reposts_once = (refl, (refl, tt));
  likes_once = (refl, tt);
  likes_refer = ((refl, refl), tt);
  marks_once = tt;
  marks_refer = tt;
  follows_once = tt;
  follows_refer = tt;
  follows_others = tt;
  notifications_once = tt;
  notifications_others = tt;
  notifications_refer = tt;
}

-- Texts are compared as they are, `%` and `_` match only themselves, and a hash is its password.
abbrev pub platform : Platform
platform = record {
  equal_texts = same_text;
  is_like = same_text;
  hash = λ t. hashed t;
  matches = same_text;
}

abbrev pub newcomer : Registration
newcomer = record {
  username = runes "new";
  display_name = runes "New";
  email = runes "new@example.com";
  password = runes "secret";
}

abbrev pub hub : Hub Event
hub = (subscribe (subscribe new_hub 1).1 1).1

pub hub-IsValid : IsValid hub
hub-IsValid =
    subscribe-IsValid (subscribe new_hub 1).1 1 (subscribe-IsValid new_hub 1 new_hub-IsValid)

abbrev pub calm_world : World
calm_world = record {
  db = tables;
  notifications = some hub;
  threads = none;
  env = λ n. record { interfere = λ db. db; fault = none; now = 50 };
  clock = 0;
  in_transaction = false;
  writes = [];
}

pub calm_world-IsCalm : IsCalm 50 calm_world
calm_world-IsCalm = record {
  alone = λ n db. refl;
  healthy = λ n. refl;
  time = λ n. refl;
  hub = hub-IsValid;
}

pub calm_world-Upholds : Upholds IsWellFormed calm_world
calm_world-Upholds = record { holds = tables-IsWellFormed; others = λ n db h. h }
