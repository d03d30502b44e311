-- ===== src/Action/Settles.antt =====
-- Code that ends with a value or an early return and never with a panic, whatever the environment
-- does, and keeps a property of the process's two hubs.
use sakura_intern_team_e.Prelude.{◌≡◌, refl, Bool, true, false, Option, none, some, if◌then◌else◌}
use sakura_intern_team_e.Db.Tables.{Db}
use sakura_intern_team_e.Db.Errors.{DbError}
use sakura_intern_team_e.Realtime.Hub.{Hub}
use sakura_intern_team_e.Model.{Event}
use sakura_intern_team_e.Action.{
  World, Result, ok, err, panic, Act, Query, Reply, done, refused, stmt, answer, arrive,
  transaction, commit_or_restore, pure, raise, try, or_else, ◌>>=◌, then_do, caught, handled,
}

-- The outcome is a value in Q or an error in F.
abbrev pub Outcome : {E A : Type 0} → (E → Type 0) → (A → Type 0) → Result E A → Type 0
Outcome F Q (ok a) = Q a
Outcome F Q (err e) = F e
Outcome F Q panic = ⊥

-- A property of the hubs of notifications and of threads
abbrev pub HubProperty : Type 1
HubProperty = Option (Hub Event) → Option (Hub Event) → Type 0

pub record Within (I : HubProperty) (w : World) : Type 0 where
  pub hubs : I w.notifications w.threads

pub record Settles {E A : Type 0} (I : World → Type 0) (F : E → Type 0) (Q : A → Type 0)
    (m : Act E A) : Type 0 where
  pub at : (w : World) → I w → Outcome F Q (m w).0 × I (m w).1

-- No condition
pub Anything : {A : Type 0} → A → Type 0
Anything a = Unit

pub anything : {A : Type 0} (a : A) → Anything a
unfolding Anything
anything a = tt

module _ {I : World → Type 0} {E A : Type 0} {F : E → Type 0} {Q : A → Type 0} where
  pub Settles-pure : (a : A) → Q a → Settles I F Q (pure a)
  unfolding pure
  Settles-pure a q = record { at = λ w h. (q, h) }

  pub Settles-raise : (e : E) → F e → Settles I F Q (raise e)
  unfolding raise
  Settles-raise e f = record { at = λ w h. (f, h) }

  pub Settles-if :
      (b : Bool) (m n : Act E A)
      → Settles I F Q m
      → Settles I F Q n
      → Settles I F Q (if b then m else n)
  Settles-if true m n s t = s
  Settles-if false m n s t = t

module _ {I : World → Type 0} {E G A : Type 0} {F : G → Type 0} {Q : A → Type 0} where
  handled-Settles :
      (r : Result E A × World) (f : E → Act G A)
      → Outcome Anything Q r.0 × I r.1
      → ((e : E) → Settles I F Q (f e))
      → Outcome F Q (handled r f).0 × I (handled r f).1
  handled-Settles (ok a, w) f o k = o
  handled-Settles (err e, w) f o k = (k e).at w o.1
  handled-Settles (panic, w) f o k = absurd o.0

  pub Settles-or_else :
      (m : Act E A) (f : E → Act G A)
      → Settles I Anything Q m
      → ((e : E) → Settles I F Q (f e))
      → Settles I F Q (or_else m f)
  unfolding or_else
  Settles-or_else m f s k = record { at = λ w h. handled-Settles (m w) f (s.at w h) k }

module _ {I : World → Type 0} {E A B : Type 0} {F : E → Type 0} {Q : B → Type 0} where
  then_do-Settles :
      (r : Result E A × World) (f : A → Act E B)
      → Outcome F Anything r.0 × I r.1
      → ((a : A) → Settles I F Q (f a))
      → Outcome F Q (then_do r f).0 × I (then_do r f).1
  then_do-Settles (ok a, w) f o k = (k a).at w o.1
  then_do-Settles (err e, w) f o k = o
  then_do-Settles (panic, w) f o k = absurd o.0

  pub Settles-bind :
      (m : Act E A) (f : A → Act E B)
      → Settles I F Anything m
      → ((a : A) → Settles I F Q (f a))
      → Settles I F Q (m >>= f)
  unfolding ◌>>=◌
  Settles-bind m f s k = record { at = λ w h. then_do-Settles (m w) f (s.at w h) k }

module _ {I : World → Type 0} {E A B : Type 0} {F : E → Type 0} {P : A → Type 0}
    {Q : B → Type 0} where
  known-Settles :
      (r : Result E A × World) (f : A → Act E B)
      → Outcome F P r.0 × I r.1
      → ((a : A) → P a → Settles I F Q (f a))
      → Outcome F Q (then_do r f).0 × I (then_do r f).1
  known-Settles (ok a, w) f o k = (k a o.0).at w o.1
  known-Settles (err e, w) f o k = o
  known-Settles (panic, w) f o k = absurd o.0

  -- What comes next may use what is known of the value.
  pub Settles-bind_known :
      (m : Act E A) (f : A → Act E B)
      → Settles I F P m
      → ((a : A) → P a → Settles I F Q (f a))
      → Settles I F Q (m >>= f)
  unfolding ◌>>=◌
  Settles-bind_known m f s k = record { at = λ w h. known-Settles (m w) f (s.at w h) k }

module _ {I : World → Type 0} {E G A B : Type 0} {F : G → Type 0} {Q : B → Type 0} where
  caught-Settles :
      (r : Result E A × World) (f : Result E A → Act G B)
      → Outcome {E = E} {A = A} Anything Anything r.0 × I r.1
      → ((a : A) → Settles I F Q (f (ok a)))
      → ((e : E) → Settles I F Q (f (err e)))
      → Outcome F Q (then_do (caught r) f).0 × I (then_do (caught r) f).1
  caught-Settles (ok a, w) f o k l = (k a).at w o.1
  caught-Settles (err e, w) f o k l = (l e).at w o.1
  caught-Settles (panic, w) f o k l = absurd o.0

  -- What comes after a call whose error is caught never meets a panic.
  pub Settles-try :
      (m : Act E A) (f : Result E A → Act G B)
      → Settles I Anything Anything m
      → ((a : A) → Settles I F Q (f (ok a)))
      → ((e : E) → Settles I F Q (f (err e)))
      → Settles I F Q (try m >>= f)
  unfolding ◌>>=◌ try
  Settles-try m f s k l = record { at = λ w h. caught-Settles (m w) f (s.at w h) k l }

-- The outcome of a call whose error was caught.
abbrev pub IsCaught : {E A : Type 0} → Result E A → Type 0
IsCaught (ok a) = Unit
IsCaught (err e) = Unit
IsCaught panic = ⊥

module _ (I : World → Type 0) {E G A : Type 0} (F : G → Type 0) where
  caught-IsCaught :
      (r : Result E A × World)
      → Outcome {E = E} {A = A} Anything Anything r.0 × I r.1
      → Outcome {A = Result E A} F IsCaught (caught r).0 × I (caught {F = G} r).1
  caught-IsCaught (ok a, w) o = (tt, o.1)
  caught-IsCaught (err e, w) o = (tt, o.1)
  caught-IsCaught (panic, w) o = absurd o.0

  pub Settles-IsCaught :
      (m : Act E A) → Settles I Anything Anything m → Settles I F IsCaught (try m)
  unfolding try
  Settles-IsCaught m s = record { at = λ w h. caught-IsCaught (m w) (s.at w h) }

module _ (I : HubProperty) {A : Type 0} where
  answer-Settles :
      (x : Option DbError) (w : World) (r : Reply A)
      → Within I w
      → Outcome {E = DbError} {A = A} Anything Anything (answer x w r).0 × Within I (answer x w r).1
  answer-Settles (some e) w r h = (anything e, h)
  answer-Settles none w (refused e) h = (anything e, h)
  answer-Settles none w (done a db) h = (anything a, record { hubs = h.hubs })

  pub Settles-stmt : (q : Query A) → Settles (Within I) Anything Anything (stmt q)
  unfolding stmt
  Settles-stmt q = record {
    at = λ w h.
        answer-Settles (w.env w.clock).fault (arrive w) (q (w.env w.clock).now (arrive w).db)
          (record { hubs = h.hubs });
  }

  commit-Settles :
      (before : Db) (r : Result DbError A × World)
      → Outcome {E = DbError} {A = A} Anything Anything r.0 × Within I r.1
      → Outcome {E = DbError} {A = A} Anything Anything (commit_or_restore before r).0
        × Within I (commit_or_restore before r).1
  commit-Settles before (ok a, w) o = fault_cases (w.env w.clock).fault refl
    where
      fault_cases :
          (f : Option DbError)
          → (w.env w.clock).fault ≡ f
          → Outcome {E = DbError} {A = A} Anything Anything (commit_or_restore before (ok a, w)).0
            × Within I (commit_or_restore before (ok a, w)).1
      fault_cases none e = rw (e, commit_or_restore) (anything a, record { hubs = o.1.hubs })
      fault_cases (some x) e = rw (e, commit_or_restore) (anything x, record { hubs = o.1.hubs })
  commit-Settles before (err e, w) o = (anything e, record { hubs = o.1.hubs })
  commit-Settles before (panic, w) o = absurd o.0

  pub Settles-transaction :
      (body : Act DbError A)
      → Settles (Within I) Anything Anything body
      → Settles (Within I) Anything Anything (transaction body)
  unfolding transaction
  Settles-transaction body s = record { at = λ w h. begin_cases w h (w.env w.clock).fault refl }
    where
      begin_cases :
          (w : World)
          → Within I w
          → (f : Option DbError) → (w.env w.clock).fault ≡ f
          → Outcome {E = DbError} {A = A} Anything Anything (transaction body w).0
            × Within I (transaction body w).1
      begin_cases w h (some e) q = rw (q, transaction) (anything e, record { hubs = h.hubs })
      begin_cases w h none q =
          rw (q, transaction)
            (commit-Settles (arrive w).db (body (record (arrive w) { in_transaction = true }))
              (s.at _ (record { hubs = h.hubs })))

pub ruleset settles_rules = (
  Settles-pure, Settles-raise, Settles-if, Settles-or_else, Settles-bind, Settles-try, Settles-stmt,
  Settles-transaction, anything,
)
