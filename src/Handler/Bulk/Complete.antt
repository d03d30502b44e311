-- ===== src/Handler/Bulk/Complete.antt =====
-- The rows of the bulk reader once every query of a level has answered, when nothing interferes and no
-- statement fails: each has its replies counted and the author that it replies to.
use sakura_intern_team_e.Prelude.{
  ℕ, true, Option, none, some, List, [], ◌∷◌, ◌==◌, if◌then◌else◌, map, collect, prepend, contains,
  ◌≡◌, refl, sym, ap, ◌∙◌, subst, arith, Bool-cases, Option-cases, inl, inr, find-collect, ==→eq,
  ==_refl,
}
use sakura_intern_team_e.Db.Tables.{Text, Db, UserRow, PostRow}
use sakura_intern_team_e.Db.Rows.{find_user, find_post}
use sakura_intern_team_e.Model.{PostInfo}
use sakura_intern_team_e.Handler.Fetch.{descendants_count}
use sakura_intern_team_e.Handler.Bulk.{
  joined_rows, reply_group, reply_groups, set_counts, names_for, parent_author, keyed, reply_names,
  named, set_names,
}
use sakura_intern_team_e.Handler.Bulk.View.{names_view}

-- A row is found by its own id.
pub find_post-id : (id : ℕ) (ps : List PostRow) {p : PostRow} → find_post id ps ≡ some p → p.id ≡ id
find_post-id id [] e = cc
find_post-id id (q ∷ ps) {p} e = grind (arith, find_post-id id ps {p = p}, ==→eq)

contains-prepend :
    (k : ℕ) (o : Option ℕ) (js : List ℕ) → contains k js ≡ true → contains k (prepend o js) ≡ true
contains-prepend k none js h = h
contains-prepend k (some j) js h = ground arith

-- What is collected from a value that is collected is there.
pub contains-collect :
    {B : Type 0} (f : ℕ → Option B) (g : B → Option ℕ) (j k : ℕ) (b : B)
    → f j ≡ some b
    → g b ≡ some k
    → (ids : List ℕ) → contains j ids ≡ true
    → contains k (collect g (collect f ids)) ≡ true
contains-collect f g j k b e h [] m = cc
contains-collect {B} f g j k b e h (i ∷ ids) m = elim (Bool-cases (i == j)) [
  | inl same ↦
      let here : f i ≡ some b = rw (==→eq i j same) e in rw (here, h) (ground (arith, ==_refl k))
  | inr other ↦
      let later : contains j ids ≡ true = ground arith in
      grown (f i) (contains-collect f g j k b e h ids later)
]
  where
    grown :
        (o : Option B)
        → contains k (collect g (collect f ids)) ≡ true
        → contains k (collect g (prepend o (collect f ids))) ≡ true
    grown none c = c
    grown (some x) c = contains-prepend k (g x) (collect g (collect f ids)) c

module _ (db : Db) where
  -- A change of every row, row by row.
  pub map-joined_rows :
      (g : PostInfo → PostInfo) (make make' : PostRow → UserRow → PostInfo) (ids : List ℕ)
      → ((p : PostRow) (u : UserRow)
          → contains p.id ids ≡ true
          → find_post p.id db.posts ≡ some p
          → find_user p.user_id db.users ≡ some u
          → g (make p u) ≡ make' p u)
      → (js : List ℕ) → ((j : ℕ) → contains j js ≡ true → contains j ids ≡ true)
      → map g (joined_rows make db js) ≡ joined_rows make' db js
  map-joined_rows g make make' ids h [] sub = refl
  map-joined_rows g make make' ids h (j ∷ js) sub =
      let rest = map-joined_rows g make make' ids h js (λ i m. sub i (ground arith)) in
      elim (Option-cases (find_post j db.posts)) [
        | inl gone ↦ rw gone rest
        | inr (p, e) ↦ elim (Option-cases (find_user p.user_id db.users)) [
          | inl orphan ↦ rw (e, orphan) rest
          | inr (u, k) ↦
              let its = find_post-id j db.posts e in
              let member : contains p.id ids ≡ true = rw its (sub j (ground (arith, ==_refl j))) in
              let found : find_post p.id db.posts ≡ some p =
                subst (λ i. find_post i db.posts ≡ some p) (sym its) e in
              let done = h p u member found k in rw (e, k, done) (ap (◌∷◌ (make' p u)) rest)
        ]
      ]

  reply_group-keyed : (j : ℕ) (g : ℕ × ℕ) → reply_group db j ≡ some g → g.0 ≡ j
  reply_group-keyed j g e = ground arith

  -- The count of a post in the level's list.
  pub set_counts-row :
      (ids : List ℕ) (p : PostInfo)
      → contains p.id ids ≡ true
      → p.replies_count ≡ 0
      → set_counts (reply_groups ids db) p ≡ record p { replies_count = descendants_count p.id db }
  unfolding set_counts reply_groups
  set_counts-row ids p m z =
      rw (find-collect (reply_group db) (λ (g : ℕ × ℕ). g.0) p.id reply_group-keyed ids, m)
        (ground arith)

  keyed-id :
      (j : ℕ) (o : Option (Text × Text)) (n : ℕ × (Text × Text)) → keyed j o ≡ some n → n.0 ≡ j
  keyed-id j none n e = cc
  keyed-id j (some names) n e = ground arith

  named-keyed :
      (id : ℕ) (o : Option (Text × Text)) (p : PostInfo)
      → p.reply_to ≡ none
      → named (keyed id o) p ≡ record p { reply_to = o }
  named-keyed id none p e = ground arith
  named-keyed id (some names) p e = refl

  name_row : ℕ → Option (ℕ × (Text × Text))
  name_row id = keyed id (names_for (find_post id db.posts) db)

  name_row-keyed : (j : ℕ) (n : ℕ × (Text × Text)) → name_row j ≡ some n → n.0 ≡ j
  unfolding name_row
  name_row-keyed j n e = keyed-id j (names_for (find_post j db.posts) db) n e

  name_row-parent :
      (id : ℕ) (row : PostRow)
      → find_post id db.posts ≡ some row
      → name_row id ≡ keyed id (parent_author row.parent_post_id db)
  unfolding name_row
  name_row-parent id row e = rw e

  same_names : (parent : Option ℕ) → parent_author parent db ≡ names_view db parent
  same_names none = refl
  same_names (some parent) = refl

  if_listed :
      (id : ℕ) (args : List ℕ) (parent : Option ℕ)
      → ((k : ℕ) → parent ≡ some k → contains id args ≡ true)
      → (if contains id args then keyed id (parent_author parent db) else none)
        ≡ keyed id (parent_author parent db)
  if_listed id args none h = ground arith
  if_listed id args (some k) h = rw (h k refl)

  -- The names for a row, whether it is a reply of the list or none at all.
  pub set_names-row :
      (args : List ℕ) (p : PostInfo) (row : PostRow)
      → find_post p.id db.posts ≡ some row
      → p.parent_post_id ≡ row.parent_post_id
      → p.reply_to ≡ none
      → ((parent : ℕ) → p.parent_post_id ≡ some parent → contains p.id args ≡ true)
      → set_names (reply_names args db) p ≡ record p { reply_to = names_view db row.parent_post_id }
  unfolding set_names reply_names name_row
  set_names-row args p row found same blank listed =
      let parent = row.parent_post_id in
      let look = find-collect name_row (λ (n : ℕ × (Text × Text)). n.0) p.id name_row-keyed args in
      let its = name_row-parent p.id row found in
      let kept = if_listed p.id args parent (λ k e. listed k (same ∙ e)) in
      ap (λ o. named o p) (look ∙ (rw its kept))
      ∙ named-keyed p.id (parent_author parent db) p blank
      ∙ ap (λ o. record p { reply_to = o }) (same_names parent)
