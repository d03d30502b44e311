-- ===== src/Handler/Fetch/ThreadRoot.antt =====
-- threadRootID of app/backend/internal/handler/handler.go: one key for a whole thread.
use sakura_intern_team_e.Prelude.{
  ℕ, zero, suc, ◌<◌, ◌≡◌, refl, subst, true, none, some, List, [], ◌∷◌, ltb, ltb→lt, arith, get_or,
  Option-cases, inl, inr,
}
use sakura_intern_team_e.Db.Tables.{PostRow}
use sakura_intern_team_e.Db.Rows.{find_post}
use sakura_intern_team_e.Db.Invariant.{PostsBelow, is_older}
use sakura_intern_team_e.Handler.Fetch.{climb, thread_root}

-- The subscription key of a post: its thread root, or the id itself where no row is found.
abbrev pub thread_key : ℕ → List PostRow → ℕ
thread_key id posts = get_or id (thread_root id posts)

-- A row that is found has the id it was looked up by, and its parent has a smaller id.
find_post-older :
    (b id : ℕ) (ps : List PostRow) {p : PostRow}
    → PostsBelow b ps
    → find_post id ps ≡ some p
    → (p.id ≡ id) × (is_older p.parent_post_id p.id ≡ true)
find_post-older b id [] {p} h e = cc
find_post-older b id (q ∷ ps) {p} h e = grind (arith, h.3, find_post-older q.id id ps {p = p} h.4)

climb-step :
    (n : ℕ) (p : PostRow) (posts : List PostRow) (parent : ℕ)
    → p.parent_post_id ≡ some parent
    → climb (suc n) p posts
      ≡ elim (find_post parent posts) [ none ↦ parent | some q ↦ climb n q posts ]
unfolding climb
climb-step n p posts parent e = rw e

climb-top :
    (n : ℕ) (p : PostRow) (posts : List PostRow)
    → p.parent_post_id ≡ none
    → climb (suc n) p posts ≡ p.id
unfolding climb
climb-top n p posts e = rw (e, climb)

-- More fuel than the id of the row gives the same root.
climb-fuel :
    (b n m : ℕ) (p : PostRow) (posts : List PostRow)
    → PostsBelow b posts
    → is_older p.parent_post_id p.id ≡ true
    → p.id < n
    → p.id < m
    → climb n p posts ≡ climb m p posts
unfolding climb
climb-fuel b zero m p posts h o n< m< = absurd (omega arith)
climb-fuel b (suc n) zero p posts h o n< m< = absurd (omega arith)
climb-fuel b (suc n) (suc m) p posts h o n< m< = elim (Option-cases p.parent_post_id) [
  | inl e ↦ rw (e, climb)
  | inr (parent, e) ↦ elim (Option-cases (find_post parent posts)) [
    | inl f ↦ rw (e, climb, f)
    | inr (q, f) ↦
        let older : ltb parent p.id ≡ true = rw e at o in
        let smaller : parent < p.id = ltb→lt parent p.id older in
        let found = find_post-older b parent posts h f in
        rw (e, climb, f) (climb-fuel b n m q posts h found.1 (omega arith) (omega arith))
  ]
]

-- In a well-formed table a reply and its parent resolve to the same thread key, whether the parent
-- still exists or was deleted, so every post of a thread is subscribed and announced under one key.
pub thread_key-parent :
    (b id parent : ℕ) (posts : List PostRow) (p : PostRow)
    → PostsBelow b posts
    → find_post id posts ≡ some p
    → p.parent_post_id ≡ some parent
    → thread_key id posts ≡ thread_key parent posts
unfolding thread_root
thread_key-parent b id parent posts p h e f = elim (Option-cases (find_post parent posts)) [
  | inl gone ↦ rw (e, climb-step p.id p posts parent f, gone) refl
  | inr (q, there) ↦
      let reply = find_post-older b id posts h e in
      let older : ltb parent p.id ≡ true = subst (λ o. is_older o p.id ≡ true) f reply.1 in
      let smaller : parent < p.id = ltb→lt parent p.id older in
      let found = find_post-older b parent posts h there in
      rw (e, climb-step p.id p posts parent f, there)
        (climb-fuel b p.id (suc q.id) q posts h found.1 (omega arith) (omega arith))
]

-- A post that is no reply is its own thread's key.
pub thread_key-top :
    (id : ℕ) (posts : List PostRow) (p : PostRow)
    → find_post id posts ≡ some p
    → p.parent_post_id ≡ none
    → thread_key id posts ≡ p.id
unfolding thread_root
thread_key-top id posts p e f = rw e (climb-top p.id p posts f)
