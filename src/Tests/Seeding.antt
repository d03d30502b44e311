-- ===== src/Tests/Seeding.antt =====
-- The theorem on app/backend/seed/main.go at two users and eight numbers.
use sakura_intern_team_e.Prelude.{ℕ, false, refl, arith, List, [], ◌∷◌}
use sakura_intern_team_e.Db.Tables.{Db}
use sakura_intern_team_e.Action.{ok}
use sakura_intern_team_e.Action.Calm.{Runs}
use sakura_intern_team_e.Handler.User.{insert_follow}
use sakura_intern_team_e.Seed.{batches}
use sakura_intern_team_e.Seed.Rows.{insert_many}
use sakura_intern_team_e.Seed.Insert.{insert_pairs}
use sakura_intern_team_e.Seed.Pairs.{insert_pairs-insert_many}
use sakura_intern_team_e.Tests.{tables}

abbrev users : List ℕ
users = 1 ∷ 2 ∷ []

-- User 1 and user 1, user 1 and user 2 twice, user 2 and user 1
abbrev numbers : List ℕ
numbers = 0 ∷ 0 ∷ 0 ∷ 1 ∷ 0 ∷ 1 ∷ 1 ∷ 0 ∷ []

abbrev followed : Db
followed = record tables {
  follows =
      record { follower_id = 2; followee_id = 1 }
      ∷ record { follower_id = 1; followee_id = 2 }
      ∷ [];
}

insert_pairs-insert_many_example :
    (rest : List ℕ) × Runs 50 tables
      (insert_pairs false (λ (p : ℕ × ℕ). insert_follow p.0 p.1) users users (batches 2) [] numbers)
      (ok rest)
      followed
unfolding insert_many insert_follow
insert_pairs-insert_many_example =
    insert_pairs-insert_many 50 2 false (λ (p : ℕ × ℕ). insert_follow p.0 p.1) users users numbers
      tables followed (omega arith) refl
