-- ===== src/Handler/Fetch/Reads.antt =====
-- The reading functions of handler.go change no table: they keep every property of the database that
-- other processes keep.
use sakura_intern_team_e.Prelude.{ℕ, zero, suc, Option, none, some}
use sakura_intern_team_e.Db.Tables.{Db}
use sakura_intern_team_e.Db.Errors.{DbError}
use sakura_intern_team_e.Action.{Act, Result, ok, err, panic}
use sakura_intern_team_e.Action.Keeps.{Keeps, Keeps-bind, Keeps-try, keeps_rules}
use sakura_intern_team_e.Action.Database.{
  Upholds, Keeps-stmt, reading-Preserves, reading_row-Preserves,
}
use sakura_intern_team_e.Model.{Post}
use sakura_intern_team_e.Handler.Fetch.{
  fetch_followed, fetch_user, count_replies, thread_root_id, fetch_reply_to, or_nil, fetch_original,
  fetch_post_fuel, fetch_post,
}

pub ruleset read_rules = (keeps_rules, Keeps-stmt, reading-Preserves, reading_row-Preserves)

module _ {P : Db → Type 0} where
  pub fetch_followed-Keeps : (auth : Option ℕ) (id : ℕ) → Keeps (Upholds P) (fetch_followed auth id)
  unfolding fetch_followed
  fetch_followed-Keeps none id = search read_rules
  fetch_followed-Keeps (some viewer) id = search read_rules depth 8

  pub fetch_user-Keeps : (auth : Option ℕ) (id : ℕ) → Keeps (Upholds P) (fetch_user auth id)
  unfolding fetch_user
  fetch_user-Keeps auth id = search (read_rules, fetch_followed-Keeps) depth 20

  pub thread_root_id-Keeps : {E : Type 0} (id : ℕ) → Keeps (Upholds P) (thread_root_id {E = E} id)
  unfolding thread_root_id
  thread_root_id-Keeps id = search read_rules depth 8

  pub count_replies-Keeps : {E : Type 0} (id : ℕ) → Keeps (Upholds P) (count_replies {E = E} id)
  unfolding count_replies
  count_replies-Keeps id = search read_rules depth 8

  pub or_nil-Keeps : {A : Type 0} (r : Result DbError A) → Keeps (Upholds P) (or_nil r)
  or_nil-Keeps (ok a) = search keeps_rules
  or_nil-Keeps (err e) = search keeps_rules
  or_nil-Keeps panic = record { at = λ w h. h }

  pub fetch_reply_to-Keeps : (parent : Option ℕ) → Keeps (Upholds P) (fetch_reply_to parent)
  unfolding fetch_reply_to
  fetch_reply_to-Keeps none = search read_rules
  fetch_reply_to-Keeps (some parent) = search (read_rules, or_nil-Keeps) depth 8

  fetch_original-Keeps :
      (fetch : ℕ → Act DbError Post) (o : Option ℕ)
      → ((id : ℕ) → Keeps (Upholds P) (fetch id))
      → Keeps (Upholds P) (fetch_original fetch o)
  unfolding fetch_original
  fetch_original-Keeps fetch none k = search keeps_rules
  fetch_original-Keeps fetch (some id) k = Keeps-bind _ _ (Keeps-try _ (k id)) or_nil-Keeps

  fetch_post_fuel-Keeps :
      (n : ℕ) (auth : Option ℕ) (id viewer : ℕ)
      → Keeps (Upholds P) (fetch_post_fuel n auth id viewer)
  unfolding fetch_post_fuel
  fetch_post_fuel-Keeps zero auth id viewer = record { at = λ w h. h }
  fetch_post_fuel-Keeps (suc n) auth id viewer =
      let older = λ (o : ℕ). fetch_post_fuel-Keeps n auth o viewer in
      search
        (
          read_rules, fetch_user-Keeps, count_replies-Keeps, fetch_reply_to-Keeps,
          fetch_original-Keeps, older,
        )
        depth 30

  pub fetch_post-Keeps :
      (auth : Option ℕ) (id viewer : ℕ) → Keeps (Upholds P) (fetch_post auth id viewer)
  unfolding fetch_post
  fetch_post-Keeps auth id viewer = fetch_post_fuel-Keeps (suc id) auth id viewer
