-- ===== src/Seed.antt =====
-- app/backend/seed/main.go, which fills the tables with sample rows. What math/rand returns is a list
-- of numbers here, one for each call: Intn's result, or what Float64's result is known by.
pub mod Rows
pub mod Insert
pub mod Pairs
use sakura_intern_team_e.Prelude.{
  ℕ, zero, suc, ◌+◌, ◌*◌, ◌/◌, ◌%◌, Bool, true, false, not, ◌&&◌, ◌||◌, Option, none, some, List,
  [], ◌∷◌, ◌++◌, ◌==◌, if◌then◌else◌, any,
}
use sakura_intern_team_e.Db.Tables.{Text}
use sakura_intern_team_e.Db.Errors.{DbError, runes}
use sakura_intern_team_e.Action.{Act, Result, pure, raise, fail, ◌>>=◌}

-- batchSize and maxReplyDepth
abbrev pub batch_size : ℕ
batch_size = 1000

abbrev pub max_reply_depth : ℕ
max_reply_depth = 6

-- sampleTexts
pub sample_texts : List Text
sample_texts =
    runes "さくらのクラウドは使いやすいですね！"
    ∷ runes "今日も元気にコーディング中 💻"
    ∷ runes "データベースのインデックスって大事だなと実感"
    ∷ runes "Go言語の並行処理、面白い"
    ∷ runes "新しい機能をリリースしました！"
    ∷ runes "バグを直したと思ったら別のバグが出た"
    ∷ runes "コードレビューありがとうございます"
    ∷ runes "テストを書く習慣をつけたい"
    ∷ runes "インターンシップ楽しい！"
    ∷ runes "クラウドインフラの勉強中"
    ∷ runes "チームランチ最高でした 🍜"
    ∷ runes "OSS活動始めてみようかな"
    ∷ runes "Dockerって便利だなあ"
    ∷ runes "CI/CDパイプライン整備完了"
    ∷ runes "コードの可読性を意識してみる"
    ∷ runes "アーキテクチャ設計って難しい"
    ∷ runes "なんとか本番リリース成功！"
    ∷ runes "ドキュメント整備大事"
    ∷ runes "ペアプロで学びが深まった"
    ∷ runes "エラーログを読む力をつけたい"
    ∷ []

-- The constants that Float64's results are compared with: replyTargetRatio, replyContinueRatio, and
-- the three bounds of replyFanout.
pub data Ratio : Type 0 where
  reply_target reply_continue one_reply two_replies three_replies : Ratio

-- How the tool stops early: log.Fatal on an error, or no number is left in the model's list.
pub data Stop : Type 0 where
  fatal : DbError → Stop
  starved : Stop

abbrev pub nth : {A : Type 0} → List A → ℕ → Option A
nth [] i = none
nth (x ∷ xs) zero = some x
nth (x ∷ xs) (suc i) = nth xs i

abbrev pub element : {A : Type 0} → Option A → List ℕ → Act Stop (A × List ℕ)
element none ds = fail
element (some x) ds = pure (x, ds)

-- `xs[rng.Intn(len(xs))]`, with the numbers that are left
unfoldable pub pick : {A : Type 0} → List A → List ℕ → Act Stop (A × List ℕ)
pick xs [] = raise starved
pick xs (d ∷ ds) = element (nth xs d) ds

-- The sizes of the batches of n rows: full ones, and the rest.
abbrev pub full_batches : ℕ → List ℕ
full_batches zero = []
full_batches (suc k) = batch_size ∷ full_batches k

abbrev pub last_batch : ℕ → List ℕ
last_batch zero = []
last_batch (suc r) = suc r ∷ []

unfoldable pub batches : ℕ → List ℕ
batches n = full_batches (n / batch_size) ++ last_batch (n % batch_size)

-- firstID + k for each of n rows
unfoldable pub consecutive : ℕ → ℕ → List ℕ
consecutive first zero = []
consecutive first (suc n) = first ∷ consecutive (suc first) n

abbrev pub is_pair : ℕ × ℕ → ℕ × ℕ → Bool
is_pair p q = p.0 == q.0 && p.1 == q.1

-- The pairs that a batch collects, all pairs seen so far, and the numbers that are left.
pub data Fill : Type 0 where
  filled : List (ℕ × ℕ) → List (ℕ × ℕ) → List ℕ → Fill
  fill_starved fill_outside : Fill

abbrev pub add_pair : ℕ × ℕ → Fill → Fill
add_pair p (filled ps seen ds) = filled (p ∷ ps) seen ds
add_pair p fill_starved = fill_starved
add_pair p fill_outside = fill_outside

abbrev pub both : Option ℕ → Option ℕ → Option (ℕ × ℕ)
both none b = none
both (some a) none = none
both (some a) (some b) = some (a, b)

-- `follower == followee` is skipped by insertFollows only.
abbrev pub is_wanted : Bool → List (ℕ × ℕ) → ℕ × ℕ → Bool
is_wanted self_too seen p = (self_too || not (p.0 == p.1)) && not (any (is_pair p) seen)

-- The loop of insertFollows, insertLikes and insertReposts that collects a batch of new pairs.
unfoldable pub fill : Bool → List ℕ → List ℕ → ℕ → List (ℕ × ℕ) → List ℕ → Fill
fill self_too xs ys zero seen ds = filled [] seen ds
fill self_too xs ys (suc k) seen [] = fill_starved
fill self_too xs ys (suc k) seen (a ∷ []) = fill_starved
fill self_too xs ys (suc k) seen (a ∷ b ∷ ds) = elim (both (nth xs a) (nth ys b)) [
  | none ↦ fill_outside
  | some p ↦ elim (is_wanted self_too seen p) [
    | true ↦ add_pair p (fill self_too xs ys k (p ∷ seen) ds)
    | false ↦ fill self_too xs ys (suc k) seen ds
  ]
]

-- The loop of pickOther
unfoldable pub pick_until_other : List ℕ → ℕ → List ℕ → Act Stop (ℕ × List ℕ)
pick_until_other users base [] = raise starved
pick_until_other users base (d ∷ ds) = elim (nth users d) [
  | none ↦ fail
  | some id ↦ elim (id == base) [ true ↦ pick_until_other users base ds | false ↦ pure (id, ds) ]
]

-- pickOther
unfoldable pub pick_other : List ℕ → ℕ → List ℕ → Act Stop (ℕ × List ℕ)
unfolding pick_until_other
pick_other [] base ds = pure (base, ds)
pick_other (u ∷ []) base ds = pure (base, ds)
pick_other (u ∷ v ∷ us) base ds = pick_until_other (u ∷ v ∷ us) base ds

abbrev pub repeat : ℕ → ℕ → List ℕ → List ℕ
repeat zero id rest = rest
repeat (suc k) id rest = id ∷ repeat k id rest

-- Whether Float64's result is below a constant; comparing floats is a parameter of the model.
module _ (is_below : Ratio → ℕ → Bool) where
  -- replyFanout, on Float64's result
  abbrev pub fanout_of : ℕ → ℕ
  fanout_of r =
      if is_below one_reply r
      then 1
      else if is_below two_replies r
      then 2
      else if is_below three_replies r
      then 3
      else 4

  -- The targets of a depth: each parent as often as replyFanout says.
  unfoldable pub fan_out : List ℕ → List ℕ → Act Stop (List ℕ × List ℕ)
  fan_out [] ds = pure ([], ds)
  fan_out (id ∷ ids) [] = raise starved
  fan_out (id ∷ ids) (d ∷ ds) =
      fan_out ids ds >>= λ rest. pure (repeat (fanout_of d) id rest.0, rest.1)

  -- The posts that are drawn with a ratio.
  unfoldable pub choose : Ratio → List ℕ → List ℕ → Act Stop (List ℕ × List ℕ)
  choose ratio [] ds = pure ([], ds)
  choose ratio (id ∷ ids) [] = raise starved
  choose ratio (id ∷ ids) (d ∷ ds) = choose ratio ids ds >>= λ rest.
      pure (if is_below ratio d then id ∷ rest.0 else rest.0, rest.1)
