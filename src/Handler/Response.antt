-- ===== src/Handler/Response.antt =====
-- Responses of app/backend/internal/handler/handler.go. A handler is an `Act Response Response`: it
-- ends with its response, returns early with one, or panics.
use Prim.Native.String.{String}
use sakura_intern_team_e.Prelude.{ℕ, Bool, Option, none, some, List, if◌then◌else◌, get_or}
use sakura_intern_team_e.Db.Tables.{Text, NotificationType}
use sakura_intern_team_e.Db.Errors.{DbError, is_missing_post_error}
use sakura_intern_team_e.Model.{User, Post}
use sakura_intern_team_e.Action.{Act, Result, ok, err, panic, raise, or_else}

-- page, per_page and offset of a list, as bit patterns of int
pub record Page : Type 0 where
  pub page : ℕ
  pub per_page : ℕ
  pub offset : ℕ

mutual
  -- A node of fetchReplyTree: a reply and its replies.
  pub data ReplyNode : Type 0 where
    reply_node : Post → ReplyNodes → ReplyNode

  pub data ReplyNodes : Type 0 where
    no_replies : ReplyNodes
    add_reply : ReplyNode → ReplyNodes → ReplyNodes

-- An entry of GetNotifications.
pub record NotificationItem : Type 0 where
  pub id : ℕ
  pub ntype : NotificationType
  pub actor : User
  pub post_id : Option ℕ
  pub post_excerpt : Option Text
  pub parent_excerpt : Option Text
  pub is_read : Bool

-- The bodies that the handlers encode.
pub data Body : Type 0 where
  error_text : String → Body
  message : String → Body
  health : String → Body
  likes_count : ℕ → Body
  reposts_count : ℕ → Body
  unread_count : ℕ → Body
  post_body : Option Post → Body
  user_body : Option User → Body
  likers_body : List User → Body
  users_body : List User → ℕ → Body
  thread_body : List Post → Post → ReplyNodes → Body
  posts_page : List Post → ℕ → Page → Body
  users_page : List User → ℕ → Page → Body
  trending_body : List (Post × ℕ) → Body
  footprints_page : List (User × ℕ) → ℕ → Page → Body
  notifications_page : List NotificationItem → ℕ → ℕ → Page → Body

pub record Response : Type 0 where
  pub status : ℕ
  pub body : Body

-- respondJSON
abbrev pub respond_json : ℕ → Body → Response
respond_json status body = record { status = status; body = body }

-- respondError
abbrev pub respond_error : ℕ → String → Response
respond_error status msg = respond_json status (error_text msg)

-- serverError: the cause goes to the log only
abbrev pub server_error : Response
server_error = respond_error 500 "server error"

-- respondWriteError
unfoldable pub respond_write_error : DbError → Response
respond_write_error e =
    if is_missing_post_error e then respond_error 404 "post not found" else server_error

-- A request's user id from its context; 0 where a handler drops the `ok` of currentUserID.
abbrev pub current_user_id : Option ℕ → ℕ
current_user_id = get_or 0

-- The response that the client gets; a panic closes the connection without one.
abbrev pub response_of : Result Response Response → Option Response
response_of (ok r) = some r
response_of (err r) = some r
response_of panic = none

-- `if err != nil { respond(err); return }`
abbrev pub or_respond : {A : Type 0} → Act DbError A → (DbError → Response) → Act Response A
or_respond m respond = or_else m (λ e. raise (respond e))

-- `if err != nil { h.serverError(w, r, err); return }`
abbrev pub or_server_error : {A : Type 0} → Act DbError A → Act Response A
or_server_error m = or_respond m (λ e. server_error)
