-- ===== src/Action.antt =====
-- Code of the API that talks to the database. A call is a function of the world to a result and the
-- world after it. Every SQL statement is one step: before it other processes may change the
-- database (`interfere`), and it may fail with an error of the environment's choice (`fault`).
pub mod Calm
pub mod Keeps
pub mod Yields
pub mod Settles
pub mod Guarded
pub mod Database
use sakura_intern_team_e.Prelude.{
  ℕ, suc, Bool, true, false, Option, none, some, List, ◌∷◌, if◌then◌else◌,
}
use sakura_intern_team_e.Db.Tables.{Db, NotificationType}
use sakura_intern_team_e.Db.Errors.{DbError, no_rows}
use sakura_intern_team_e.Realtime.Hub.{Hub}
use sakura_intern_team_e.Model.{Event}

-- A Go function's outcome: a value, an early return, or a panic.
pub data Result (E A : Type 0) : Type 0 where
  ok : A → Result E A
  err : E → Result E A
  panic : Result E A

-- What the environment does at one statement.
pub record Outcome : Type 0 where
  pub interfere : Db → Db
  pub fault : Option DbError
  pub now : ℕ

-- One API process and the database that it shares. `env` says what happens at each statement,
-- `clock` counts the statements so far, and `writes` lists the changes that this process made.
pub record World : Type 0 where
  pub db : Db
  pub notifications : Option (Hub Event)
  pub threads : Option (Hub Event)
  pub env : ℕ → Outcome
  pub clock : ℕ
  pub in_transaction : Bool
  pub writes : List (Db × Db)

-- E is the type of errors; in a handler it is the response of an early return.
abbrev pub Act : Type 0 → Type 0 → Type 0
Act E A = World → Result E A × World

module _ {E A : Type 0} where
  unfoldable pub pure : A → Act E A
  pure a w = (ok a, w)

  unfoldable pub raise : E → Act E A
  raise e w = (err e, w)

  unfoldable pub fail : Act E A
  fail w = (panic, w)

module _ {E F A : Type 0} where
  abbrev pub caught : Result E A × World → Result F (Result E A) × World
  caught (ok a, w) = (ok (ok a), w)
  caught (err e, w) = (ok (err e), w)
  caught (panic, w) = (panic, w)

  -- `a, err := m`: the error as a value
  unfoldable pub try : Act E A → Act F (Result E A)
  try m w = caught (m w)

  abbrev pub handled : Result E A × World → (E → Act F A) → Result F A × World
  handled (ok a, w) handle = (ok a, w)
  handled (err e, w) handle = handle e w
  handled (panic, w) handle = (panic, w)

  -- `a, err := m; if err != nil { handle(err) }`
  unfoldable pub or_else : Act E A → (E → Act F A) → Act F A
  or_else m handle w = handled (m w) handle

module _ {E A B : Type 0} where
  abbrev pub then_do : Result E A × World → (A → Act E B) → Result E B × World
  then_do (ok a, w) f = f a w
  then_do (err e, w) f = (err e, w)
  then_do (panic, w) f = (panic, w)

  infixl 5 ◌>>=◌ ◌>>◌
  -- opening this opens the other combinators too
  unfoldable pub ◌>>=◌ : Act E A → (A → Act E B) → Act E B
  unfolding pure raise fail try or_else
  ◌>>=◌ m f w = then_do (m w) f

  abbrev pub ◌>>◌ : Act E A → Act E B → Act E B
  m >> k = m >>= λ _. k

-- What a statement answers: a value and the database after it, or an error that changed nothing.
pub data Reply (A : Type 0) : Type 0 where
  done : A → Db → Reply A
  refused : DbError → Reply A

-- A statement at the server's time and the database that it finds.
abbrev pub Query : Type 0 → Type 0
Query A = ℕ → Db → Reply A

abbrev pub settle : {A : Type 0} → World → Reply A → Result DbError A × World
settle w (refused e) = (err e, w)
settle w (done a db) = (
  ok a,
  record w { db = db; writes = if w.in_transaction then w.writes else (w.db, db) ∷ w.writes },
)

-- The world that a statement finds: other processes have run, unless a transaction isolates it.
abbrev pub arrive : World → World
arrive w = record w {
  clock = suc w.clock;
  db = if w.in_transaction then w.db else (w.env w.clock).interfere w.db;
}

abbrev pub answer : {A : Type 0} → Option DbError → World → Reply A → Result DbError A × World
answer (some e) w r = (err e, w)
answer none w r = settle w r

-- ExecContext, QueryContext and QueryRowContext with their Scan
unfoldable pub stmt : {A : Type 0} → Query A → Act DbError A
stmt q w = let w₁ = arrive w in answer (w.env w.clock).fault w₁ (q (w.env w.clock).now w₁.db)

-- A query that reads.
abbrev pub reading : {A : Type 0} → (Db → A) → Query A
reading f now db = done (f db) db

abbrev pub row_or_none : {A : Type 0} → Option A → Db → Reply A
row_or_none none db = refused no_rows
row_or_none (some a) db = done a db

-- A query for one row; sql.ErrNoRows if there is none.
abbrev pub reading_row : {A : Type 0} → (Db → Option A) → Query A
reading_row f now db = row_or_none (f db) db

-- `QueryRowContext(...).Scan(&x)` with the error dropped: x keeps its zero value.
abbrev pub or_zero : {E A : Type 0} → A → Act DbError A → Act E A
or_zero zero_value m = or_else m (λ _. pure zero_value)

abbrev pub commit_or_restore :
    {A : Type 0} → Db → Result DbError A × World → Result DbError A × World
commit_or_restore before (ok a, w) = elim (w.env w.clock).fault [
  | some e ↦ (err e, record w { clock = suc w.clock; db = before; in_transaction = false })
  | none ↦ (
    ok a,
    record w { clock = suc w.clock; in_transaction = false; writes = (before, w.db) ∷ w.writes },
  )
]
commit_or_restore before (err e, w) = (err e, record w { db = before; in_transaction = false })
commit_or_restore before (panic, w) = (panic, record w { db = before; in_transaction = false })

-- BeginTx, the body, Commit; `defer tx.Rollback()` on every other way out. The transaction is
-- isolated: other processes act before it begins.
unfoldable pub transaction : {A : Type 0} → Act DbError A → Act DbError A
transaction body w =
    let w₁ = arrive w in
    elim (w.env w.clock).fault [
      | some e ↦ (err e, w₁)
      | none ↦ commit_or_restore w₁.db (body (record w₁ { in_transaction = true }))
    ]
