-- ===== src/Action/Calm/Rows.antt =====
-- Calm runs of the queries that read.
use sakura_intern_team_e.Prelude.{ℕ, Option, none, some, ◌≡◌}
use sakura_intern_team_e.Db.Tables.{Db}
use sakura_intern_team_e.Db.Errors.{no_rows}
use sakura_intern_team_e.Action.{ok, err, stmt, reading, reading_row, or_zero}
use sakura_intern_team_e.Action.Calm.{Runs, Runs-stmt, Runs-done, Runs-refused, Runs-or_else}

module _ {A : Type 0} {now : ℕ} {db : Db} where
  pub Runs-row :
      (f : Db → Option A) {a : A} → f db ≡ some a → Runs now db (stmt (reading_row f)) (ok a) db
  Runs-row f e = Runs-done (reading_row f) (rw e)

  pub Runs-no_row :
      (f : Db → Option A) → f db ≡ none → Runs now db (stmt (reading_row f)) (err no_rows) db
  Runs-no_row f e = Runs-refused (reading_row f) (rw e)

  pub Runs-count :
      {E : Type 0} (zero_value : A) (f : Db → A)
      → Runs now db (or_zero {E = E} zero_value (stmt (reading f))) (ok (f db)) db
  Runs-count zero_value f = Runs-or_else _ (Runs-stmt (reading f) db)
