-- ===== src/Handler/Thread/Chain.antt =====
-- The ancestors that GetThread lists, whatever the environment does between its statements.
use sakura_intern_team_e.Prelude.{
  ℕ, zero, suc, ◌+◌, ◌≤◌, ◌≡◌, refl, ◌∙◌, subst, Option, none, some, List, [], ◌∷◌, length, arith,
}
use sakura_intern_team_e.Db.Tables.{PostRow}
use sakura_intern_team_e.Model.{PostInfo, Post, info}
use sakura_intern_team_e.Action.{World, ok}
use sakura_intern_team_e.Action.Yields.{
  Yields, Yields-pure, Yields-raise, Yields-bind, Yields-or_else, Yields-next, Yields-row,
}
use sakura_intern_team_e.Handler.Response.{
  Response, Body, ReplyNodes, respond_json, current_user_id,
}
use sakura_intern_team_e.Handler.Fetch.{quote, fetch_post_fuel, fetch_post}
use sakura_intern_team_e.Handler.Bulk.{post_id}
use sakura_intern_team_e.Handler.Bulk.Complete.{find_post-id}
use sakura_intern_team_e.Handler.Page.{or_none}
use sakura_intern_team_e.Handler.Thread.{
  max_thread_depth, unless_missing, fetch_ancestors, get_thread,
}

abbrev pub parent_of : Post → Option ℕ
parent_of p = (info p).parent_post_id

-- Each post's parent is the one before it, the first's is `top`, and the last is `bottom`.
abbrev pub IsChain : Option ℕ → List Post → Option ℕ → Type 0
IsChain top [] bottom = top ≡ bottom
IsChain top (p ∷ ps) bottom = (parent_of p ≡ top) × IsChain (some (post_id p)) ps bottom

quote-id : (p : PostInfo) (o : Option Post) → post_id (quote p o) ≡ p.id
quote-id p none = refl
quote-id p (some q) = refl

fetch_post_fuel-id :
    (n : ℕ) (auth : Option ℕ) (id viewer : ℕ)
    → Yields (λ (p : Post). post_id p ≡ id) (fetch_post_fuel n auth id viewer)
unfolding fetch_post_fuel
fetch_post_fuel-id zero auth id viewer = record { at = λ w a e. cc }
fetch_post_fuel-id (suc n) auth id viewer =
    Yields-bind
      (Yields-row {P = λ (p : PostRow). p.id ≡ id} _ (λ db p e. find_post-id id db.posts e))
      (λ p e. Yields-next _ (λ author. Yields-next _ (λ likes. Yields-next _ (λ reposts.
        Yields-next _ (λ replies. Yields-next _ (λ liked. Yields-next _ (λ reposted.
          Yields-next _
            (λ reply_to. Yields-next _ (λ original. Yields-pure _ (quote-id _ original ∙ e))))))))))

fetch_post-id :
    (auth : Option ℕ) (id viewer : ℕ)
    → Yields (λ (p : Post). post_id p ≡ id) (fetch_post auth id viewer)
unfolding fetch_post
fetch_post-id auth id viewer = fetch_post_fuel-id (suc id) auth id viewer

-- A post that loads has the id; one that does not is none.
abbrev pub IsLoaded : ℕ → Option Post → Type 0
IsLoaded id none = Unit {0}
IsLoaded id (some p) = post_id p ≡ id

or_none-IsLoaded :
    (auth : Option ℕ) (id viewer : ℕ)
    → Yields {E = Response} (IsLoaded id) (or_none (fetch_post auth id viewer))
or_none-IsLoaded auth id viewer =
    Yields-or_else (Yields-bind (fetch_post-id auth id viewer) (λ p e. Yields-pure (some p) e))
      (λ x. Yields-pure none tt)

-- The list so far is a chain down to the post, and has at most a number of posts.
abbrev pub IsChainTo : ℕ → Option ℕ → List Post → Type 0
IsChainTo most bottom ps = (length ps ≤ most) × ((top : Option ℕ) × IsChain top ps bottom)

module _ (auth : Option ℕ) (viewer : ℕ) (bottom : Option ℕ) where
  unless_missing-IsChain :
      (n parent : ℕ) (found : List Post)
      → IsChain (some parent) found bottom
      → ((p : Post)
          → post_id p ≡ parent
          → Yields
              (IsChainTo (n + suc (length found)) bottom)
              (fetch_ancestors n auth viewer (parent_of p) (p ∷ found)))
      → (a : Option Post) → IsLoaded parent a
      → Yields (IsChainTo (suc n + length found) bottom) (
          unless_missing found
            (λ post. fetch_ancestors n auth viewer (info post).parent_post_id (post ∷ found))
            a)
  unless_missing-IsChain n parent found h more none e =
      Yields-pure found (omega arith, (some parent, h))
  unless_missing-IsChain n parent found h more (some p) e =
      let same : n + suc (length found) ≡ suc n + length found = omega arith in
      subst
        (λ m. Yields (IsChainTo m bottom) (fetch_ancestors n auth viewer (parent_of p) (p ∷ found)))
        same (more p e)

  fetch_ancestors-IsChain :
      (n : ℕ) (parent : Option ℕ) (found : List Post)
      → IsChain parent found bottom
      → Yields (IsChainTo (n + length found) bottom) (fetch_ancestors n auth viewer parent found)
  unfolding fetch_ancestors
  fetch_ancestors-IsChain zero parent found h = Yields-pure found (omega arith, (parent, h))
  fetch_ancestors-IsChain (suc n) none found h = Yields-pure found (omega arith, (none, h))
  fetch_ancestors-IsChain (suc n) (some parent) found h =
      Yields-bind (or_none-IsLoaded auth parent viewer) (
        unless_missing-IsChain n parent found h
          (λ p e. fetch_ancestors-IsChain n (parent_of p) (p ∷ found) (refl, rw e h)))

-- An answer of GetThread: the post that was asked for, under at most 50 ancestors, oldest first, of
-- which each is the parent of the next and the last, if there is one, that of the post.
pub record IsThread (id : ℕ) (r : Response) : Type 0 where
  pub ancestors : List Post
  pub post : Post
  pub replies : ReplyNodes
  pub answers : r ≡ respond_json 200 (Body.thread_body ancestors post replies)
  pub asked : post_id post ≡ id
  pub chain : IsChainTo max_thread_depth (parent_of post) ancestors

get_thread-Yields : (auth : Option ℕ) (id : ℕ) → Yields (IsThread id) (get_thread auth (some id))
unfolding get_thread
get_thread-Yields auth id =
    Yields-bind
      (Yields-or_else (fetch_post-id auth id (current_user_id auth)) (λ x. Yields-raise _))
      (λ p e.
        Yields-bind
          (fetch_ancestors-IsChain auth (current_user_id auth) (parent_of p) max_thread_depth
            (parent_of p) [] refl)
          (λ as_found c. Yields-next _ (λ replies. Yields-pure _ (record {
            ancestors = as_found;
            post = p;
            replies = replies;
            answers = refl;
            asked = e;
            chain = c;
          }))))

-- Whatever other processes write between the statements and whichever of them fail, when GetThread
-- answers with a thread, the post is the one that was asked for, there are at most 50 ancestors, each
-- of them is the parent of the next, and the last, if there is one, is the parent of the post.
pub get_thread-IsThread :
    (auth : Option ℕ) (id : ℕ) (w : World) (r : Response)
    → (get_thread auth (some id) w).0 ≡ ok r
    → IsThread id r
get_thread-IsThread auth id w r e = (get_thread-Yields auth id).at w r e
