-- ===== src/Http.antt =====
-- What app/backend uses of net/http's ResponseWriter, an interface, as a record of functions on the
-- state behind it.
use Prim.Native.String.{String}
use sakura_intern_team_e.Prelude.{ℕ, Option}
use sakura_intern_team_e.Db.Tables.{Text}
use sakura_intern_team_e.Handler.Response.{Body, Response}

-- A text that a handler writes: a body in JSON, and the two lines of streamEvents.
pub data Chunk : Type 0 where
  json : Body → Chunk
  event_line : Text → Chunk
  ping_line : Chunk

-- A writer without `flush` does not implement http.Flusher.
pub record Writer (S : Type 0) : Type 0 where
  pub set_header : String → String → S → S
  pub write_header : ℕ → S → S
  pub write : Chunk → S → S
  pub flush : Option (S → S)

-- respondJSON of internal/handler/handler.go, at a writer
unfoldable pub respond : {S : Type 0} → Writer S → Response → S → S
respond conn r s =
    conn.write (json r.body)
      (conn.write_header r.status (conn.set_header "Content-Type" "application/json" s))
