-- ===== src/Action/Database.antt =====
-- Invariants of the database through statements and transactions of this process, while other
-- processes keep them too.
use sakura_intern_team_e.Prelude.{
  ℕ, ◌≡◌, refl, Bool, Option, none, some, true, false, if◌then◌else◌,
}
use sakura_intern_team_e.Db.Tables.{Db}
use sakura_intern_team_e.Db.Errors.{DbError}
use sakura_intern_team_e.Action.{
  World, Result, ok, err, panic, Act, Query, Reply, done, refused, stmt, answer, transaction,
  commit_or_restore, arrive, reading, reading_row, row_or_none,
}
use sakura_intern_team_e.Action.Keeps.{Keeps}

-- The property holds of the database, and what others do at any statement keeps it.
pub record Upholds (P : Db → Type 0) (w : World) : Type 0 where
  pub holds : P w.db
  pub others : (n : ℕ) (db : Db) → P db → P ((w.env n).interfere db)

abbrev pub IsGoodReply : {A : Type 0} → (Db → Type 0) → Reply A → Type 0
IsGoodReply P (done a db) = P db
IsGoodReply P (refused e) = Unit

-- A statement keeps a property of the database.
pub record Preserves {A : Type 0} (P : Db → Type 0) (q : Query A) : Type 0 where
  pub at : (now : ℕ) (db : Db) → P db → IsGoodReply P (q now db)

module _ {P : Db → Type 0} where
  arrive-holds :
      (b : Bool) (w : World) → Upholds P w → P (if b then w.db else (w.env w.clock).interfere w.db)
  arrive-holds true w h = h.holds
  arrive-holds false w h = h.others w.clock w.db h.holds

  pub arrive-Upholds : (w : World) → Upholds P w → Upholds P (arrive w)
  arrive-Upholds w h = record { holds = arrive-holds w.in_transaction w h; others = h.others }

  answer-Upholds :
      {A : Type 0} (f : Option DbError) (w : World) (r : Reply A)
      → Upholds P w
      → IsGoodReply P r
      → Upholds P (answer f w r).1
  answer-Upholds (some e) w r h g = h
  answer-Upholds none w (refused e) h g = h
  answer-Upholds none w (done a db) h g = record { holds = g; others = h.others }

  pub Keeps-stmt : {A : Type 0} (q : Query A) → Preserves P q → Keeps (Upholds P) (stmt q)
  unfolding stmt
  Keeps-stmt q k = record {
    at = λ w h.
        let h₁ = arrive-Upholds w h in
        answer-Upholds (w.env w.clock).fault (arrive w) (q (w.env w.clock).now (arrive w).db) h₁
          (k.at (w.env w.clock).now (arrive w).db h₁.holds);
  }

  commit-Upholds :
      {A : Type 0} (before : Db) (r : Result DbError A × World)
      → P before
      → Upholds P r.1
      → Upholds P (commit_or_restore before r).1
  commit-Upholds before (ok a, w) b h = fault_cases (w.env w.clock).fault refl
    where
      fault_cases :
          (f : Option DbError)
          → (w.env w.clock).fault ≡ f
          → Upholds P (commit_or_restore before (ok a, w)).1
      fault_cases none e = rw (e, commit_or_restore) (record { holds = h.holds; others = h.others })
      fault_cases (some x) e = rw (e, commit_or_restore) (record { holds = b; others = h.others })
  commit-Upholds before (err e, w) b h = record { holds = b; others = h.others }
  commit-Upholds before (panic, w) b h = record { holds = b; others = h.others }

  pub Keeps-transaction :
      {A : Type 0} (body : Act DbError A)
      → Keeps (Upholds P) body
      → Keeps (Upholds P) (transaction body)
  unfolding transaction
  Keeps-transaction body k = record { at = λ w h. begin_cases w h (w.env w.clock).fault refl }
    where
      begin_cases :
          (w : World)
          → Upholds P w
          → (f : Option DbError) → (w.env w.clock).fault ≡ f
          → Upholds P (transaction body w).1
      begin_cases w h (some e) q = rw (q, transaction) (arrive-Upholds w h)
      begin_cases w h none q =
          let h₁ = arrive-Upholds w h in
          rw (q, transaction)
            (commit-Upholds (arrive w).db (body (record (arrive w) { in_transaction = true }))
              h₁.holds (k.at _ (record { holds = h₁.holds; others = h₁.others })))

module _ {A : Type 0} {P : Db → Type 0} where
  pub reading-Preserves : (f : Db → A) → Preserves P (reading f)
  reading-Preserves f = record { at = λ now db h. h }

  pub reading_row-Preserves : (f : Db → Option A) → Preserves P (reading_row f)
  reading_row-Preserves f = record { at = λ now db h. found (f db) db h }
    where
      found : (o : Option A) (db : Db) → P db → IsGoodReply P (row_or_none o db)
      found none db h = tt
      found (some a) db h = h
