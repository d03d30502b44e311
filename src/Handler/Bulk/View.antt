-- ===== src/Handler/Bulk/View.antt =====
-- What fetchUser and fetchPost of handler.go return when nothing interferes and no statement fails, as
-- functions of the database.
use sakura_intern_team_e.Prelude.{
  ◌<◌, arith, ℕ, zero, suc, Bool, false, Option, none, some, List, ◌==◌, if◌then◌else◌, any, count,
  ◌≡◌, refl, Bool-cases, Option-cases, inl, inr,
}
use sakura_intern_team_e.Db.Tables.{Text, Db, UserRow, PostRow, MarkRow}
use sakura_intern_team_e.Db.Errors.{DbError, no_rows}
use sakura_intern_team_e.Db.Rows.{find_user, find_post, is_mark, is_follow}
use sakura_intern_team_e.Model.{User, PostInfo, Post, avatar_color}
use sakura_intern_team_e.Action.{Act, ok, err, stmt, try, ◌>>=◌, reading_row}
use sakura_intern_team_e.Action.Calm.{
  Runs, Runs-pure, Runs-bind, Runs-bind_err, Runs-try, Runs-try_err,
}
use sakura_intern_team_e.Action.Calm.Rows.{Runs-row, Runs-no_row, Runs-count}
use sakura_intern_team_e.Handler.Fetch.{
  is_positive, count_followers, count_following, count_posts, fetch_followed, fetch_user,
  descendants_count, count_replies, fetch_mark, parent_names, or_nil, fetch_reply_to, quote,
  original_of, fetch_original, fetch_post_fuel,
}

abbrev pub followed_by : Db → Option ℕ → ℕ → Bool
followed_by db none id = false
followed_by db (some me) id = if me == id then false else any (is_follow me id) db.follows

module _ (db : Db) (auth : Option ℕ) where
  unfoldable pub user_view : UserRow → User
  user_view u = record {
    id = u.id;
    username = u.username;
    display_name = u.display_name;
    bio = u.bio;
    followers_count = count_followers u.id db;
    following_count = count_following u.id db;
    post_count = count_posts u.id db;
    avatar = avatar_color u.id;
    followed_by_me = followed_by db auth u.id;
    created_at = u.created_at;
  }

abbrev pub marked_by : ℕ → ℕ → List MarkRow → Bool
marked_by viewer post table = if is_positive viewer then any (is_mark viewer post) table else false

abbrev pub names_view : Db → Option ℕ → Option (Text × Text)
names_view db none = none
names_view db (some parent) = parent_names parent db

abbrev pub original_view : (ℕ → Option Post) → Option ℕ → Option Post
original_view view none = none
original_view view (some o) = view o

module _ (db : Db) (auth : Option ℕ) (viewer : ℕ) where
  unfoldable pub info_view : PostRow → UserRow → PostInfo
  info_view p u = record {
    id = p.id;
    content = p.content;
    created_at = p.created_at;
    likes_count = count (λ (m : MarkRow). m.post_id == p.id) db.likes;
    reposts_count = count (λ (m : MarkRow). m.post_id == p.id) db.reposts;
    replies_count = descendants_count p.id db;
    is_repost = p.is_repost;
    original_post_id = p.original_post_id;
    parent_post_id = p.parent_post_id;
    reply_to = names_view db p.parent_post_id;
    author = user_view db auth u;
    liked_by_me = marked_by viewer p.id db.likes;
    reposted_by_me = marked_by viewer p.id db.reposts;
  }

  abbrev pub author_view : (ℕ → Option Post) → PostRow → Option UserRow → Option Post
  author_view view p none = none
  author_view view p (some u) = some (quote (info_view p u) (original_view view (original_of p)))

  abbrev pub row_view : (ℕ → Option Post) → Option PostRow → Option Post
  row_view view none = none
  row_view view (some p) = author_view view p (find_user p.user_id db.users)

  -- fetchPost on the fuel that it has, where it returns a post.
  unfoldable pub post_view : ℕ → ℕ → Option Post
  post_view zero id = none
  post_view (suc n) id = row_view (λ o. post_view n o) (find_post id db.posts)

-- Code that returns the value, or fails where there is none.
abbrev pub Ends : {A : Type 0} → ℕ → Db → Act DbError A → Option A → Type 0
Ends now db m none = (e : DbError) × Runs now db m (err e) db
Ends now db m (some a) = Runs now db m (ok a) db

module _ (now : ℕ) (db : Db) where
  fetch_followed-calm :
      (auth : Option ℕ) (id : ℕ)
      → Runs now db (fetch_followed auth id) (ok (followed_by db auth id)) db
  unfolding fetch_followed
  fetch_followed-calm none id = Runs-pure false
  fetch_followed-calm (some me) id = elim (Bool-cases (me == id)) [
    | inl self ↦ rw self (Runs-pure false)
    | inr another ↦ rw another (Runs-count false _)
  ]

  pub fetch_user-calm :
      (auth : Option ℕ) (id : ℕ) {u : UserRow}
      → find_user id db.users ≡ some u
      → Runs now db (fetch_user auth id) (ok (user_view db auth u)) db
  unfolding fetch_user user_view
  fetch_user-calm auth id {u} e = Runs-bind _ (Runs-row (λ d. find_user id d.users) e) (
      Runs-bind _ (Runs-count 0 _) (
        Runs-bind _ (Runs-count 0 _) (
          Runs-bind _ (Runs-count 0 _)
            (Runs-bind _ (fetch_followed-calm auth u.id) (Runs-pure _)))))

  pub fetch_user-missing :
      (auth : Option ℕ) (id : ℕ)
      → find_user id db.users ≡ none
      → Runs now db (fetch_user auth id) (err no_rows) db
  unfolding fetch_user
  fetch_user-missing auth id e = Runs-bind_err _ (Runs-no_row (λ d. find_user id d.users) e)

  fetch_mark-calm :
      (viewer post : ℕ) (table : Db → List MarkRow)
      → Runs now db (fetch_mark viewer post table) (ok (marked_by viewer post (table db))) db
  fetch_mark-calm viewer post table = elim (Bool-cases (is_positive viewer)) [
    | inl member ↦ rw member (Runs-count false _)
    | inr guest ↦ rw guest (Runs-pure false)
  ]

  try_names :
      (parent : ℕ) (names : Option (Text × Text))
      → parent_names parent db ≡ names
      → Runs now db (try (stmt (reading_row (parent_names parent))) >>= or_nil) (ok names) db
  try_names parent none e =
      Runs-bind _ (Runs-try_err (Runs-no_row (parent_names parent) e)) (Runs-pure none)
  try_names parent (some n) e =
      Runs-bind _ (Runs-try (Runs-row (parent_names parent) e)) (Runs-pure (some n))

  fetch_reply_to-calm :
      (parent : Option ℕ) → Runs now db (fetch_reply_to parent) (ok (names_view db parent)) db
  unfolding fetch_reply_to
  fetch_reply_to-calm none = Runs-pure none
  fetch_reply_to-calm (some parent) = try_names parent (parent_names parent db) refl

  pub try_original :
      (fetch : ℕ → Act DbError Post) (o : ℕ) (view : Option Post)
      → Ends now db (fetch o) view
      → Runs now db (try (fetch o) >>= or_nil) (ok view) db
  try_original fetch o none (x, h) = Runs-bind _ (Runs-try_err h) (Runs-pure none)
  try_original fetch o (some p) h = Runs-bind _ (Runs-try h) (Runs-pure (some p))

  fetch_original-calm :
      (fetch : ℕ → Act DbError Post) (view : ℕ → Option Post)
      → (o : Option ℕ) → ((i : ℕ) → o ≡ some i → Ends now db (fetch i) (view i))
      → Runs now db (fetch_original fetch o) (ok (original_view view o)) db
  unfolding fetch_original
  fetch_original-calm fetch view none h = Runs-pure none
  fetch_original-calm fetch view (some o) h = try_original fetch o (view o) (h o refl)

  post_found :
      (n : ℕ) (auth : Option ℕ) (id viewer : ℕ) (p : PostRow) (u : UserRow)
      → ((o : ℕ)
          → original_of p ≡ some o
          → Ends now db (fetch_post_fuel n auth o viewer) (post_view db auth viewer n o))
      → find_post id db.posts ≡ some p
      → find_user p.user_id db.users ≡ some u
      → Runs now db
          (fetch_post_fuel (suc n) auth id viewer)
          (ok (
            quote
              (info_view db auth viewer p u)
              (original_view (post_view db auth viewer n) (original_of p))))
          db
  unfolding fetch_post_fuel info_view count_replies
  post_found n auth id viewer p u older e k = Runs-bind _ (Runs-row (λ d. find_post id d.posts) e) (
      Runs-bind _ (fetch_user-calm auth p.user_id k) (
        Runs-bind _ (Runs-count 0 _) (
          Runs-bind _ (Runs-count 0 _) (
            Runs-bind _ (Runs-count 0 _) (
              Runs-bind _ (fetch_mark-calm viewer p.id _) (
                Runs-bind _ (fetch_mark-calm viewer p.id _) (
                  Runs-bind _ (fetch_reply_to-calm p.parent_post_id) (
                    Runs-bind _
                      (fetch_original-calm _ (post_view db auth viewer n) (original_of p) older)
                      (Runs-pure _)))))))))

  post_missing :
      (n : ℕ) (auth : Option ℕ) (id viewer : ℕ)
      → find_post id db.posts ≡ none
      → Runs now db (fetch_post_fuel (suc n) auth id viewer) (err no_rows) db
  unfolding fetch_post_fuel
  post_missing n auth id viewer e = Runs-bind_err _ (Runs-no_row (λ d. find_post id d.posts) e)

  author_missing :
      (n : ℕ) (auth : Option ℕ) (id viewer : ℕ) (p : PostRow)
      → find_post id db.posts ≡ some p
      → find_user p.user_id db.users ≡ none
      → Runs now db (fetch_post_fuel (suc n) auth id viewer) (err no_rows) db
  unfolding fetch_post_fuel
  author_missing n auth id viewer p e k =
      Runs-bind _ (Runs-row (λ d. find_post id d.posts) e)
        (Runs-bind_err _ (fetch_user-missing auth p.user_id k))

  -- Where originals are older than their reposts, the fuel is enough.
  pub fetch_post_fuel-calm :
      ((id o : ℕ) (p : PostRow) → find_post id db.posts ≡ some p → original_of p ≡ some o → o < id)
      → (n : ℕ) (auth : Option ℕ) (id viewer : ℕ) → id < n
      → Ends now db (fetch_post_fuel n auth id viewer) (post_view db auth viewer n id)
  unfolding post_view
  fetch_post_fuel-calm below zero auth id viewer h = absurd (omega arith)
  fetch_post_fuel-calm below (suc n) auth id viewer h =
      let older =
        λ (p : PostRow) (e : find_post id db.posts ≡ some p) (o : ℕ) (q : original_of p ≡ some o).
          let less = below id o p e q in
          fetch_post_fuel-calm below n auth o viewer (omega (arith, less, h)) in
      elim (Option-cases (find_post id db.posts)) [
        | inl gone ↦ rw gone (no_rows, post_missing n auth id viewer gone)
        | inr (p, e) ↦ elim (Option-cases (find_user p.user_id db.users)) [
          | inl orphan ↦ rw (e, orphan) (no_rows, author_missing n auth id viewer p e orphan)
          | inr (u, k) ↦ rw (e, k) (post_found n auth id viewer p u (older p e) e k)
        ]
      ]
