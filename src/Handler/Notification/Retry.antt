-- ===== src/Handler/Notification/Retry.antt =====
-- How often insertNotificationOnceRetry of app/backend/internal/handler/notification.go tries.
use sakura_intern_team_e.Prelude.{
  ℕ, zero, suc, ◌+◌, ◌≤◌, ◌≡◌, refl, Bool, Option, none, some, ◌==◌, arith, ltb, Bool-cases, inl,
  inr,
}
use sakura_intern_team_e.Db.Tables.{NotificationType}
use sakura_intern_team_e.Db.Errors.{DbError, is_retryable_lock_error}
use sakura_intern_team_e.Action.{
  World, Result, ok, err, panic, Query, Reply, done, refused, arrive, answer, stmt, pure, ◌>>=◌,
  then_do, caught,
}
use sakura_intern_team_e.Handler.Notification.{
  insert_notification, insert_notification_once, retry_insert, notify_insert_attempts,
  insert_notification_once_retry,
}

answer-clock :
    {A : Type 0} (f : Option DbError) (w : World) (r : Reply A) → (answer f w r).1.clock ≡ w.clock
answer-clock (some e) w r = refl
answer-clock none w (refused e) = refl
answer-clock none w (done a db) = refl

-- A statement takes one tick of the clock.
stmt-clock : {A : Type 0} (q : Query A) (w : World) → (stmt q w).1.clock ≡ suc w.clock
unfolding stmt
stmt-clock q w = answer-clock (w.env w.clock).fault (arrive w) _

then_pure-clock :
    {A B : Type 0} (g : A → B) (p : Result DbError A × World)
    → (then_do p (λ a. pure {E = DbError} (g a))).1.clock ≡ p.1.clock
unfolding ◌>>=◌
then_pure-clock g (ok a, w) = refl
then_pure-clock g (err e, w) = refl
then_pure-clock g (panic, w) = refl

module _ (user : ℕ) (t : NotificationType) (actor : ℕ) (post : Option ℕ) where
  once-clock : (w : World) → (insert_notification_once user t actor post w).1.clock ≤ suc w.clock
  unfolding insert_notification_once ◌>>=◌
  once-clock w = elim (Bool-cases (user == actor)) [
    | inl self ↦ rw self (omega arith)
    | inr other ↦ rw other (
        omega (
          arith,
          then_pure-clock (ltb 0) (stmt (insert_notification user t actor post) w),
          stmt-clock (insert_notification user t actor post) w,
        ))
  ]

  next_clock :
      (n : ℕ)
      → ((r : Result DbError Bool) (w : World)
          → (retry_insert n user t actor post r w).1.clock ≤ w.clock + n)
      → (p : Result DbError Bool × World)
      → (then_do (caught {F = DbError} p) (λ r. retry_insert n user t actor post r)).1.clock
        ≤ p.1.clock + n
  next_clock n bound (ok b, v) = bound (ok b) v
  next_clock n bound (err e, v) = bound (err e) v
  next_clock n bound (panic, v) = omega arith

  -- Trying again: what is left of the attempts bounds the statements that are still run.
  retry-clock :
      (n : ℕ) (r : Result DbError Bool) (w : World)
      → (retry_insert n user t actor post r w).1.clock ≤ w.clock + n
  unfolding retry_insert ◌>>=◌
  retry-clock n (ok b) w = omega arith
  retry-clock n panic w = omega arith
  retry-clock zero (err e) w = omega arith
  retry-clock (suc n) (err e) w = elim (Bool-cases (is_retryable_lock_error e)) [
    | inl again ↦ rw again (
        omega (
          arith,
          once-clock w,
          next_clock n (λ r v. retry-clock n r v) (insert_notification_once user t actor post w),
        ))
    | inr final ↦ rw final (omega arith)
  ]

  -- Whatever the environment does, insertNotificationOnceRetry runs at most notifyInsertAttempts
  -- statements.
  pub retry_bounded :
      (w : World)
      → (insert_notification_once_retry user t actor post w).1.clock
        ≤ w.clock + notify_insert_attempts
  unfolding insert_notification_once_retry ◌>>=◌
  retry_bounded w = omega (
    arith,
    once-clock w,
    next_clock 4 (λ r v. retry-clock 4 r v) (insert_notification_once user t actor post w),
  )
