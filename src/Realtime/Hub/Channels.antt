-- ===== src/Realtime/Hub/Channels.antt =====
-- The subscription map of realtime/hub.go under each update, seen through `subscribers`.
use sakura_intern_team_e.Prelude.{
  ℕ, ◌≡◌, ◌≢◌, refl, not, ◌&&◌, some, List, [], ◌∷◌, arith, ◌==◌, if◌then◌else◌, get_or, lookup,
  lookup-insert, lookup-erase, contains,
}
use sakura_intern_team_e.Realtime.Hub.{remove_channel, drop_subscription}

pub contains-remove_channel :
    (c ch : ℕ) (chs : List ℕ)
    → contains c (remove_channel ch chs) ≡ (contains c chs && not (c == ch))
contains-remove_channel c ch [] = refl
contains-remove_channel c ch (x ∷ chs) = ground (arith, contains-remove_channel c ch chs)

-- Dropping a channel under one key removes it there and nowhere else.
pub lookup-drop_subscription :
    (key ch k : ℕ) (subs : List (ℕ × List ℕ))
    → get_or [] (lookup k (drop_subscription key ch subs)) ≡ (
        if key == k
        then remove_channel ch (get_or [] (lookup k subs))
        else get_or [] (lookup k subs))
unfolding drop_subscription
lookup-drop_subscription key ch k subs = grind (arith, lookup-insert, lookup-erase)

-- No key is left with an empty set.
pub drop_subscription-nonempty :
    (key ch k : ℕ) (subs : List (ℕ × List ℕ))
    → lookup k subs ≢ some []
    → lookup k (drop_subscription key ch subs) ≢ some []
unfolding drop_subscription
drop_subscription-nonempty key ch k subs h = grind (arith, lookup-insert, lookup-erase)
