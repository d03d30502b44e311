-- ===== src/Action/Guarded.antt =====
-- Code that settles while the tables keep an invariant, which other processes keep too.
use sakura_intern_team_e.Prelude.{◌≡◌, refl, Option, none, some}
use sakura_intern_team_e.Db.Tables.{Db}
use sakura_intern_team_e.Db.Errors.{DbError, no_rows}
use sakura_intern_team_e.Action.{
  World, Act, Query, stmt, answer, arrive, reading, reading_row, row_or_none,
}
use sakura_intern_team_e.Action.Keeps.{Keeps}
use sakura_intern_team_e.Action.Database.{
  Upholds, arrive-Upholds, Preserves, Keeps-stmt, reading-Preserves, reading_row-Preserves,
}
use sakura_intern_team_e.Action.Settles.{
  HubProperty, Within, Settles, Outcome, Anything, anything, Settles-stmt,
}

-- A property of the hubs, and one of the tables that others keep.
pub record Guarded (I : HubProperty) (P : Db → Type 0) (w : World) : Type 0 where
  pub within : Within I w
  pub upholds : Upholds P w

module _ {I : HubProperty} {P : Db → Type 0} where
  pub Settles-Guarded :
      {E A : Type 0} {F : E → Type 0} {Q : A → Type 0} (m : Act E A)
      → Settles (Within I) F Q m
      → Keeps (Upholds P) m
      → Settles (Guarded I P) F Q m
  Settles-Guarded m s k = record {
    at = λ w h.
        let (o, hubs) = s.at w h.within in
        (o, record { within = hubs; upholds = k.at w h.upholds });
  }

  pub Settles-statement :
      {A : Type 0} (q : Query A) → Preserves P q → Settles (Guarded I P) Anything Anything (stmt q)
  Settles-statement q k = Settles-Guarded (stmt q) (Settles-stmt I q) (Keeps-stmt q k)

  pub Settles-reading :
      {A : Type 0} (f : Db → A) → Settles (Guarded I P) Anything Anything (stmt (reading f))
  Settles-reading f = Settles-statement (reading f) (reading-Preserves f)

  pub Settles-reading_row :
      {A : Type 0} (f : Db → Option A)
      → Settles (Guarded I P) Anything Anything (stmt (reading_row f))
  Settles-reading_row f = Settles-statement (reading_row f) (reading_row-Preserves f)

  -- A row that is read has what the invariant says of it.
  pub Settles-row_known :
      {A : Type 0} (f : Db → Option A) (Q : A → Type 0)
      → ((db : Db) → P db → (a : A) → f db ≡ some a → Q a)
      → Settles (Guarded I P) Anything Q (stmt (reading_row f))
  unfolding stmt
  Settles-row_known {A = A} f Q known = record {
    at = λ w h.
        let h₁ = arrive-Upholds w h.upholds in
        (
          row_outcome (w.env w.clock).fault (f (arrive w).db) (arrive w) refl h₁.holds,
          ((Settles-reading_row f).at w h).1,
        );
  }
    where
      row_outcome :
          (x : Option DbError) (o : Option A) (v : World)
          → f v.db ≡ o
          → P v.db
          → Outcome {E = DbError} Anything Q (answer x v (row_or_none o v.db)).0
      row_outcome (some e) o v same h = anything e
      row_outcome none none v same h = anything no_rows
      row_outcome none (some a) v same h = known v.db h a same
