-- ===== src/Handler/Timeline/Order.antt =====
-- The order of GetTimeline's feeds, and what stands in them.
use sakura_intern_team_e.Prelude.{
  ℕ, ◌≡◌, ◌<◌, ◌≤◌, ◌+◌, ◌⊎◌, none, List, [], ◌∷◌, filter, length, All, Has, ltb, ◌==◌,
}
use sakura_intern_team_e.Db.Tables.{Db, PostRow, MarkRow, FollowRow}

-- The rest of a list stands behind its head in the order R.
abbrev pub InOrder : (PostRow → PostRow → Type 0) → List PostRow → Type 0
InOrder R [] = Unit
InOrder R (p ∷ ps) = All (R p) ps × InOrder R ps

-- Newest first, and of two posts of the same time the one with the larger id
abbrev pub IsNewerOrSame : PostRow → PostRow → Type 0
IsNewerOrSame p q = (q.created_at < p.created_at) ⊎ ((q.created_at ≡ p.created_at) × (q.id ≤ p.id))

-- How many likes of a post are not yet 24 hours old.
abbrev pub likes_within_day : ℕ → ℕ → List MarkRow → ℕ
likes_within_day now post likes = length (
    filter (λ (m : MarkRow). ltb now (m.created_at + 86400))
      (filter (λ (m : MarkRow). m.post_id == post) likes))

-- More such likes first, and of two posts with as many the newer one
abbrev pub IsHotterOrSame : ℕ → Db → PostRow → PostRow → Type 0
IsHotterOrSame now db p q =
    (likes_within_day now q.id db.likes < likes_within_day now p.id db.likes)
    ⊎ ((likes_within_day now q.id db.likes ≡ likes_within_day now p.id db.likes)
        × IsNewerOrSame p q)

-- A post of its own, not a reply
abbrev pub HasNoParent : PostRow → Type 0
HasNoParent p = p.parent_post_id ≡ none

-- ... by an author whom the user follows
abbrev pub IsFromFollowed : ℕ → Db → PostRow → Type 0
IsFromFollowed me db p =
    (p.parent_post_id ≡ none)
    × (f : FollowRow) × Has f db.follows
    × (f.follower_id ≡ me)
    × (f.followee_id ≡ p.user_id)

-- What a feed holds: posts with a property only, and every such post of the table.
abbrev pub Holds : (PostRow → Type 0) → Db → List PostRow → Type 0
Holds P db rows = All P rows × ((p : PostRow) → Has p db.posts → P p → Has p rows)
