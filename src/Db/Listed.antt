-- ===== src/Db/Listed.antt =====
-- Rows that stand in a table are found by their ids.
use sakura_intern_team_e.Prelude.{
  ℕ, true, some, List, [], ◌∷◌, ◌==◌, ◌≡◌, refl, All, Bool-cases, inl, inr, arith, ==_refl,
}
use sakura_intern_team_e.Db.Tables.{PostRow, UserRow}
use sakura_intern_team_e.Db.Rows.{find_post, find_user, has_post, has_user}
use sakura_intern_team_e.Db.Invariant.{All-mono}

abbrev pub IsListed : List PostRow → PostRow → Type 0
IsListed posts p = has_post p.id posts ≡ true

pub All-IsListed : (posts : List PostRow) → All (IsListed posts) posts
All-IsListed [] = tt
All-IsListed (p ∷ ps) =
    let later =
      All-mono (IsListed ps) (IsListed (p ∷ ps)) ps (λ q e. ground arith) (All-IsListed ps) in
    (ground (arith, ==_refl p.id), later)

pub find_post-found :
    (id : ℕ) (ps : List PostRow)
    → has_post id ps ≡ true
    → (p : PostRow) × (find_post id ps ≡ some p)
find_post-found id [] h = cc
find_post-found id (p ∷ ps) h = elim (Bool-cases (p.id == id)) [
  | inl e ↦ (p, rw e refl)
  | inr e ↦ rw e (find_post-found id ps (rw e at h))
]

pub find_user-found :
    (id : ℕ) (us : List UserRow)
    → has_user id us ≡ true
    → (u : UserRow) × (find_user id us ≡ some u)
find_user-found id [] h = cc
find_user-found id (u ∷ us) h = elim (Bool-cases (u.id == id)) [
  | inl e ↦ (u, rw e refl)
  | inr e ↦ rw e (find_user-found id us (rw e at h))
]

pub author-known :
    (users : List UserRow) (id : ℕ) (ps : List PostRow) {p : PostRow}
    → All (λ (q : PostRow). has_user q.user_id users ≡ true) ps
    → find_post id ps ≡ some p
    → has_user p.user_id users ≡ true
author-known users id [] h e = cc
author-known users id (q ∷ ps) {p} h e = grind (arith, h.0, author-known users id ps {p = p} h.1)
