-- ===== src/Action/Yields.antt =====
-- What the values that code returns satisfy, whatever the environment does. Early returns and panics
-- are left free.
use sakura_intern_team_e.Prelude.{◌≡◌, refl, subst, ap, Option, none, some}
use sakura_intern_team_e.Db.Tables.{Db}
use sakura_intern_team_e.Db.Errors.{DbError}
use sakura_intern_team_e.Action.{
  World, Result, ok, err, panic, Act, stmt, answer, arrive, pure, raise, or_else, ◌>>=◌, then_do,
  handled, reading_row, row_or_none,
}

pub record Yields {E A : Type 0} (P : A → Type 0) (m : Act E A) : Type 0 where
  pub at : (w : World) (a : A) → (m w).0 ≡ ok a → P a

ok_inj : {E A : Type 0} {a b : A} → ◌≡◌ {A = Result E A} (ok a) (ok b) → a ≡ b
ok_inj h = cc

module _ {E A : Type 0} {P : A → Type 0} where
  pub Yields-pure : (a : A) → P a → Yields {E = E} P (pure a)
  unfolding pure
  Yields-pure a h = record { at = λ w b e. subst P (ok_inj e) h }

  pub Yields-raise : (e : E) → Yields P (raise {A = A} e)
  unfolding raise
  Yields-raise x = record { at = λ w b e. cc }

module _ {E F A : Type 0} {P : A → Type 0} where
  pub Yields-or_else :
      {m : Act E A} {f : E → Act F A}
      → Yields P m
      → ((e : E) → Yields P (f e))
      → Yields P (or_else m f)
  unfolding or_else
  Yields-or_else {m} {f} h k = record { at = λ w b e. by_result (m w) (λ a q. h.at w a q) b e }
    where
      by_result :
          (r : Result E A × World)
          → ((a : A) → r.0 ≡ ok a → P a)
          → (b : A) → (handled r f).0 ≡ ok b
          → P b
      by_result (ok a, w) g b e = g b (ap ok (ok_inj e))
      by_result (err x, w) g b e = (k x).at w b e
      by_result (panic, w) g b e = cc

module _ {E A B : Type 0} {Q : A → Type 0} {P : B → Type 0} where
  pub Yields-bind :
      {m : Act E A} {f : A → Act E B}
      → Yields Q m
      → ((a : A) → Q a → Yields P (f a))
      → Yields P (m >>= f)
  unfolding ◌>>=◌
  Yields-bind {m} {f} h k = record { at = λ w b e. by_result (m w) (λ a q. h.at w a q) b e }
    where
      by_result :
          (r : Result E A × World)
          → ((a : A) → r.0 ≡ ok a → Q a)
          → (b : B) → (then_do r f).0 ≡ ok b
          → P b
      by_result (ok a, w) g b e = (k a (g a refl)).at w b e
      by_result (err x, w) g b e = cc
      by_result (panic, w) g b e = cc

module _ {E A B : Type 0} {P : B → Type 0} where
  -- Code of whose own value nothing is said.
  pub Yields-next :
      (m : Act E A) {f : A → Act E B} → ((a : A) → Yields P (f a)) → Yields P (m >>= f)
  Yields-next m h =
      Yields-bind {Q = λ a. Unit {0}} {m = m} (record { at = λ w a e. tt }) (λ a t. h a)

module _ {A : Type 0} {P : A → Type 0} where
  pub Yields-row :
      (f : Db → Option A)
      → ((db : Db) (a : A) → f db ≡ some a → P a)
      → Yields P (stmt (reading_row f))
  unfolding stmt
  Yields-row f h = record {
    at = λ w b e. by_fault (w.env w.clock).fault (arrive w) (f (arrive w).db) b (λ q. h _ b q) e;
  }
    where
      by_fault :
          (x : Option DbError) (w : World) (o : Option A) (b : A)
          → (o ≡ some b → P b)
          → (answer x w (row_or_none o w.db)).0 ≡ ok b
          → P b
      by_fault (some x) w o b k e = cc
      by_fault none w none b k e = cc
      by_fault none w (some a) b k e = k (ap some (ok_inj e))
