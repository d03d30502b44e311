-- ===== src/Lib.antt =====
-- The backend of a small social network, in Go: an HTTP API over MariaDB with server-sent events.
-- Several API processes share one database; each keeps in memory the hubs of the event streams
-- that it serves.
--
-- Parts, and where they are modelled (Go files under app/backend/internal/ where no other path is
-- given):
--   Realtime/Hub      realtime/hub.go: Hub, Subscribe with its unsubscribe closure, HasSubscribers,
--                     Publish. Channels are addresses into a store of buffers; a method is one step,
--                     since the mutex makes it so; a send on a closed channel is a panic.
--   Db                the tables of app/backend/migrations/ as lists, newest row first, the errors of
--                     the driver, the foreign keys with ON DELETE CASCADE, and IsWellFormed, which
--                     says what the schema and the handlers keep true together.
--   Action            code that talks to the database: a function of a World to a result and a World.
--   Platform          what comes from outside the repository: the server's comparison of texts, and
--                     bcrypt, as a parameter of the model.
--   Handler           handler/: one function per handler and helper, named as in the source.
--                     Handler/Fetch reads a post, Handler/Bulk many posts at once; Handler/Page has
--                     the paging of the lists, Handler/Timeline, Search, Visits and Thread the lists
--                     of post.go, search.go, trending.go, footprint.go, notification.go and reply.go.
--                     Handler/Stream has the event streams of stream.go, Handler/Health health.go;
--                     Handler/Answers shows that handlers end with a response.
--   Http              what the streams and the log use of net/http's ResponseWriter: an interface, as a
--                     record of functions on a state, which stays a parameter.
--   Middleware        middleware/auth.go: Required and Optional; Middleware/Logging: logging.go.
--   Routes            the routes of app/backend/cmd/api/main.go, and sequences of requests.
--   Notify            notify/: event rows, the start of the bus, the poller, the sweep of old rows,
--                     local delivery.
--   Model             model/ and the Event of realtime/hub.go.
--   Seed              app/backend/seed/main.go, which fills the tables with sample rows: what it draws, and
--                     its statements, on a list of the numbers that math/rand returns.
--   Process           the start of a process: main of cmd/api/main.go, New of db/db.go, Start of notify/bus.go;
--                     the answers to its pings and the rounds of initialCursor are given.
--   Prelude, Tests    shared helpers; concrete inputs.
-- A handler writes rows and event rows and publishes to the hub of its own process; the poller of
-- every process reads the event rows and publishes them to the hubs there.
--
-- A SQL statement is one step. Before it other processes may change the database in any way
-- (`interfere`), the server shows any time, and the statement may fail with any error of the
-- environment's choice, in which case it changes nothing (`fault`). A transaction is isolated: others
-- act before it begins, and every exit but a commit restores the database. A calm world is one in
-- which nobody else writes, nothing fails, and the server's clock shows one time. A result is a value,
-- an early return, which in a handler is a response, or a panic. `writes` lists what this process
-- changed. The driver's LastInsertId and RowsAffected return no error, as in go-sql-driver.
--
-- Ids are the bit patterns of int64 in ℕ, so a negative id of a request is a large number and matches
-- no row. A text is a list of code points. A request's body is given decoded, and `none` is a body
-- that does not decode; a path id of `none` is no number. Users are not deleted, as in the program.
--
-- The ids of users are taken to be below 2^63, which AUTO_INCREMENT does not reach: AvatarColor panics on
-- most negative ids, and the model's does not. The id of a session is compared character by character,
-- where the server compares by the collation of the column.
--
-- Fuel: fetchPost gets id + 1, since in well-formed tables an original is older than its reposts; on a
-- cycle of originals the code recurses without end, and the model panics; threadRootID gets the id
-- of its first row + 1, since parents are older; countReplies gets one more than there are posts,
-- since each level of replies holds a new post; the poller's loop and the sweep get more than there
-- are rows to read or to delete, which the theorems on them ask for. retry_insert counts down from
-- notifyInsertAttempts. The bulk reader and the reply tree count down the levels that are left, from
-- maxRepostDepth and maxThreadDepth.
--
-- A stream is one goroutine: a list of turns says what happens next, a call of another goroutine on the
-- hub or a case of its `select`.
--
-- The poller's inner loop runs on one snapshot and while the context is not cancelled; the sweep meets new
-- rows and another time at each DELETE.
--
-- Not modelled: the texts of the log, timeouts, sleeps and tickers, JSON, which is a parameter of the
-- streams, cookies beyond the session's value (a registration or login sets it to the new token, Logout
-- clears it), the goroutines of a process and the signal that ends it, the proxy and the
-- infrastructure. They are I/O, or stand apart from the state that the theorems
-- are about.
pub mod Prelude
pub mod Realtime
pub mod Db
pub mod Model
pub mod Action
pub mod Notify
pub mod Http
pub mod Platform
pub mod Handler
pub mod Middleware
pub mod Routes
pub mod Process
pub mod Seed
pub mod Tests
