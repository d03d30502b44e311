-- ===== src/Action/Calm.antt =====
-- Code when nothing interferes and no statement fails: what it answers and what it leaves, as a
-- function of the database that it starts with. One rule for each way to build code.
pub mod Rows
use sakura_intern_team_e.Prelude.{
  ℕ, ◌≡◌, refl, subst, sym, ◌∙◌, Option, none, some, Bool, true, false, if◌then◌else◌, arith,
}
use sakura_intern_team_e.Db.Tables.{Db}
use sakura_intern_team_e.Db.Errors.{DbError}
use sakura_intern_team_e.Realtime.Hub.Delivery.{PointsToValid}
use sakura_intern_team_e.Action.Database.{Upholds}
use sakura_intern_team_e.Action.{
  World, Result, ok, err, panic, Act, Query, Reply, done, refused, stmt, pure, raise, try, or_else,
  ◌>>=◌, then_do, handled, caught, transaction, commit_or_restore, arrive, answer,
}

-- At every statement nobody else writes, nothing fails, and the server's clock shows one time.
pub record IsCalm (now : ℕ) (w : World) : Type 0 where
  pub alone : (n : ℕ) (db : Db) → (w.env n).interfere db ≡ db
  pub healthy : (n : ℕ) → (w.env n).fault ≡ none
  pub time : (n : ℕ) → (w.env n).now ≡ now
  pub hub : PointsToValid w.notifications

-- From the first database the code ends with the result and leaves the second database.
pub record Runs {E A : Type 0} (now : ℕ) (db : Db) (m : Act E A) (r : Result E A) (db' : Db)
    : Type 0 where
  pub at :
      (w : World)
      → IsCalm now w
      → w.db ≡ db
      → ((m w).0 ≡ r) × ((m w).1.db ≡ db') × IsCalm now (m w).1

abbrev pub reply_result : {A : Type 0} → Reply A → Result DbError A
reply_result (done a db) = ok a
reply_result (refused e) = err e

abbrev pub reply_db : {A : Type 0} → Db → Reply A → Db
reply_db before (done a db) = db
reply_db before (refused e) = before

module _ {now : ℕ} where
  arrive-db : (w : World) → IsCalm now w → (arrive w).db ≡ w.db
  arrive-db w c = ground (arith, c.alone w.clock w.db)

  arrive-IsCalm : (w : World) → IsCalm now w → IsCalm now (arrive w)
  arrive-IsCalm w c = record { alone = c.alone; healthy = c.healthy; time = c.time; hub = c.hub }

module _ {A : Type 0} {now : ℕ} where
  answer-IsCalm :
      (w : World) (f : Option DbError) (r : Reply A)
      → IsCalm now w
      → f ≡ none
      → ((answer f w r).0 ≡ reply_result r)
        × ((answer f w r).1.db ≡ reply_db w.db r)
        × IsCalm now (answer f w r).1
  answer-IsCalm w none (refused e) c h = (refl, refl, c)
  answer-IsCalm w none (done a db) c h =
      (refl, refl, record { alone = c.alone; healthy = c.healthy; time = c.time; hub = c.hub })
  answer-IsCalm w (some e) r c h = cc

  pub Runs-stmt :
      (q : Query A) (db : Db)
      → Runs now db (stmt q) (reply_result (q now db)) (reply_db db (q now db))
  unfolding stmt
  Runs-stmt q db = record {
    at = λ w c e.
        let found : (arrive w).db ≡ db = arrive-db w c ∙ e in
        answered w (w.env w.clock).now (arrive w).db db c (c.time w.clock) found found;
  }
    where
      answered :
          (w : World) (t : ℕ) (d db : Db)
          → IsCalm now w
          → t ≡ now
          → d ≡ db
          → (arrive w).db ≡ db
          → ((answer (w.env w.clock).fault (arrive w) (q t d)).0 ≡ reply_result (q now db))
            × ((answer (w.env w.clock).fault (arrive w) (q t d)).1.db ≡ reply_db db (q now db))
            × IsCalm now (answer (w.env w.clock).fault (arrive w) (q t d)).1
      answered w t d db c et ed ew =
          rw (et, ed, ← ew)
            (answer-IsCalm (arrive w) (w.env w.clock).fault (q now (arrive w).db)
              (arrive-IsCalm w c) (c.healthy w.clock))

  -- A statement by what its query answers.
  pub Runs-done :
      (q : Query A) {db : Db} {a : A} {db' : Db}
      → q now db ≡ done a db'
      → Runs now db (stmt q) (ok a) db'
  Runs-done q {db} e =
      subst (λ r. Runs now db (stmt q) (reply_result r) (reply_db db r)) e (Runs-stmt q db)

  pub Runs-refused :
      (q : Query A) {db : Db} {e : DbError} → q now db ≡ refused e → Runs now db (stmt q) (err e) db
  Runs-refused q {db} e =
      subst (λ r. Runs now db (stmt q) (reply_result r) (reply_db db r)) e (Runs-stmt q db)

-- Branches, on the value of the test.
module _ {E A : Type 0} {now : ℕ} {db : Db} where
  pub Runs-pure : (a : A) → Runs now db (pure {E = E} a) (ok a) db
  unfolding pure
  Runs-pure a = record { at = λ w c e. (refl, e, c) }

  pub Runs-raise : (e : E) → Runs now db (raise {A = A} e) (err e) db
  unfolding raise
  Runs-raise x = record { at = λ w c e. (refl, e, c) }

  pub Runs-if_true :
      {b : Bool} (m n : Act E A) {r : Result E A} {db' : Db}
      → b ≡ true
      → Runs now db m r db'
      → Runs now db (if b then m else n) r db'
  Runs-if_true m n e h = rw e h

  pub Runs-if_false :
      {b : Bool} (m n : Act E A) {r : Result E A} {db' : Db}
      → b ≡ false
      → Runs now db n r db'
      → Runs now db (if b then m else n) r db'
  Runs-if_false m n e h = rw e h

module _ {E F A : Type 0} {now : ℕ} {db db₁ : Db} {m : Act E A} where
  pub Runs-try : {a : A} → Runs now db m (ok a) db₁ → Runs now db (try {F = F} m) (ok (ok a)) db₁
  unfolding try
  Runs-try {a} h = record { at = λ w c e. caught_ok (m w) (h.at w c e) }
    where
      caught_ok :
          (p : Result E A × World)
          → (p.0 ≡ ok a) × (p.1.db ≡ db₁) × IsCalm now p.1
          → ((caught {F = F} p).0 ≡ ok (ok a))
            × ((caught {F = F} p).1.db ≡ db₁)
            × IsCalm now (caught {F = F} p).1
      caught_ok (ok x, w) (e, d, c) = (ground arith, d, c)
      caught_ok (err x, w) (e, d, c) = cc
      caught_ok (panic, w) (e, d, c) = cc

  pub Runs-try_err :
      {x : E} → Runs now db m (err x) db₁ → Runs now db (try {F = F} m) (ok (err x)) db₁
  unfolding try
  Runs-try_err {x} h = record { at = λ w c e. caught_err (m w) (h.at w c e) }
    where
      caught_err :
          (p : Result E A × World)
          → (p.0 ≡ err x) × (p.1.db ≡ db₁) × IsCalm now p.1
          → ((caught {F = F} p).0 ≡ ok (err x))
            × ((caught {F = F} p).1.db ≡ db₁)
            × IsCalm now (caught {F = F} p).1
      caught_err (ok y, w) (e, d, c) = cc
      caught_err (err y, w) (e, d, c) = (ground arith, d, c)
      caught_err (panic, w) (e, d, c) = cc

  pub Runs-or_else :
      {a : A} (f : E → Act F A) → Runs now db m (ok a) db₁ → Runs now db (or_else m f) (ok a) db₁
  unfolding or_else
  Runs-or_else {a} f h = record { at = λ w c e. handled_ok (m w) (h.at w c e) }
    where
      handled_ok :
          (p : Result E A × World)
          → (p.0 ≡ ok a) × (p.1.db ≡ db₁) × IsCalm now p.1
          → ((handled p f).0 ≡ ok a) × ((handled p f).1.db ≡ db₁) × IsCalm now (handled p f).1
      handled_ok (ok x, w) (e, d, c) = (ground arith, d, c)
      handled_ok (err x, w) (e, d, c) = cc
      handled_ok (panic, w) (e, d, c) = cc

  pub Runs-or_else_err :
      {x : E} (f : E → Act F A) {r : Result F A} {db₂ : Db}
      → Runs now db m (err x) db₁
      → Runs now db₁ (f x) r db₂
      → Runs now db (or_else m f) r db₂
  unfolding or_else
  Runs-or_else_err {x} f {r} {db₂} h k = record { at = λ w c e. handled_err (m w) (h.at w c e) }
    where
      handled_err :
          (p : Result E A × World)
          → (p.0 ≡ err x) × (p.1.db ≡ db₁) × IsCalm now p.1
          → ((handled p f).0 ≡ r) × ((handled p f).1.db ≡ db₂) × IsCalm now (handled p f).1
      handled_err (ok y, w) (e, d, c) = cc
      handled_err (err y, w) (e, d, c) = let same : y ≡ x = cc in rw same (k.at w c d)
      handled_err (panic, w) (e, d, c) = cc

module _ {E A B : Type 0} {now : ℕ} {db db₁ : Db} {m : Act E A} (f : A → Act E B) where
  pub Runs-bind :
      {a : A} {r : Result E B} {db₂ : Db}
      → Runs now db m (ok a) db₁
      → Runs now db₁ (f a) r db₂
      → Runs now db (m >>= f) r db₂
  unfolding ◌>>=◌
  Runs-bind {a} {r} {db₂} h k = record { at = λ w c e. next (m w) (h.at w c e) }
    where
      next :
          (p : Result E A × World)
          → (p.0 ≡ ok a) × (p.1.db ≡ db₁) × IsCalm now p.1
          → ((then_do p f).0 ≡ r) × ((then_do p f).1.db ≡ db₂) × IsCalm now (then_do p f).1
      next (ok y, w) (e, d, c) = let same : y ≡ a = cc in rw same (k.at w c d)
      next (err y, w) (e, d, c) = cc
      next (panic, w) (e, d, c) = cc

  pub Runs-bind_err : {x : E} → Runs now db m (err x) db₁ → Runs now db (m >>= f) (err x) db₁
  unfolding ◌>>=◌
  Runs-bind_err {x} h = record { at = λ w c e. stop (m w) (h.at w c e) }
    where
      stop :
          (p : Result E A × World)
          → (p.0 ≡ err x) × (p.1.db ≡ db₁) × IsCalm now p.1
          → ((then_do p f).0 ≡ err x) × ((then_do p f).1.db ≡ db₁) × IsCalm now (then_do p f).1
      stop (ok y, w) (e, d, c) = cc
      stop (err y, w) (e, d, c) = (ground arith, d, c)
      stop (panic, w) (e, d, c) = cc

module _ {A : Type 0} {now : ℕ} {db₁ : Db} where
  committed :
      (before : Db) (a : A) (p : Result DbError A × World)
      → (p.0 ≡ ok a) × (p.1.db ≡ db₁) × IsCalm now p.1
      → ((commit_or_restore before p).0 ≡ ok a)
        × ((commit_or_restore before p).1.db ≡ db₁)
        × IsCalm now (commit_or_restore before p).1
  committed before a (ok y, w) (e, d, c) =
      rw (c.healthy w.clock, commit_or_restore)
        (e, d, record { alone = c.alone; healthy = c.healthy; time = c.time; hub = c.hub })
  committed before a (err y, w) (e, d, c) = cc
  committed before a (panic, w) (e, d, c) = cc

module _ {A : Type 0} {now : ℕ} {db db₁ : Db} {body : Act DbError A} where
  -- A transaction whose body succeeds commits.
  pub Runs-transaction :
      {a : A} → Runs now db body (ok a) db₁ → Runs now db (transaction body) (ok a) db₁
  unfolding transaction
  Runs-transaction {a} h = record {
    at = λ w c e.
        rw (c.healthy w.clock, transaction)
          (committed (arrive w).db a (body (record (arrive w) { in_transaction = true })) (
            h.at (record (arrive w) { in_transaction = true })
              (record { alone = c.alone; healthy = c.healthy; time = c.time; hub = c.hub })
              (arrive-db w c ∙ e)));
  }

-- In a calm world others keep every property.
pub calm-Upholds : {now : ℕ} {P : Db → Type 0} (w : World) → IsCalm now w → P w.db → Upholds P w
calm-Upholds {P = P} w c h = record { holds = h; others = λ n db p. subst P (sym (c.alone n db)) p }
