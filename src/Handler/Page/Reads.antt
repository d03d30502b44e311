-- ===== src/Handler/Page/Reads.antt =====
-- The handlers' lists change no table.
use sakura_intern_team_e.Prelude.{ℕ, Option, List, [], ◌∷◌}
use sakura_intern_team_e.Db.Tables.{Db}
use sakura_intern_team_e.Db.Errors.{DbError}
use sakura_intern_team_e.Action.{Act}
use sakura_intern_team_e.Action.Keeps.{Keeps, Keeps-bind, Keeps-pure, keeps_rules}
use sakura_intern_team_e.Action.Database.{Upholds, Preserves}
use sakura_intern_team_e.Handler.Page.{reading_at, or_none, gather, fetch_found}

pub reading_at-Preserves :
    {A : Type 0} {P : Db → Type 0} (f : ℕ → Db → A) → Preserves P (reading_at f)
reading_at-Preserves f = record { at = λ now db h. h }

module _ {P : Db → Type 0} {E A B : Type 0} where
  pub gather-Keeps :
      (make : A → Act E (Option B)) (rows : List A)
      → ((a : A) → Keeps (Upholds P) (make a))
      → Keeps (Upholds P) (gather make rows)
  unfolding gather
  gather-Keeps make [] k = search keeps_rules
  gather-Keeps make (a ∷ rows) k =
      Keeps-bind _ _ (k a)
        (λ made. Keeps-bind _ _ (gather-Keeps make rows k) (λ rest. Keeps-pure _))

  pub fetch_found-Keeps :
      (fetch : A → Act DbError B) (rows : List A)
      → ((a : A) → Keeps (Upholds P) (fetch a))
      → Keeps (Upholds P) (fetch_found {E = E} fetch rows)
  fetch_found-Keeps fetch rows k =
      gather-Keeps (λ a. or_none (fetch a)) rows (λ a. search (keeps_rules, k) depth 8)
