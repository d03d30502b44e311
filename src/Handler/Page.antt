-- ===== src/Handler/Page.antt =====
-- Paging: pagination of app/backend/internal/handler/handler.go, the ORDER BY, LIMIT and OFFSET of the
-- handlers' lists, and the groups that they count.
pub mod Reads
pub mod Bounds
pub mod Cover
pub mod Ordered
pub mod Members
pub mod Groups
use sakura_intern_team_e.Prelude.{
  ℕ, ◌+◌, ◌-◌, ◌*◌, ◌%◌, ◌^◌, Bool, true, false, ◌&&◌, ◌||◌, Option, none, some, List, [], ◌∷◌,
  ◌==◌, ltb, leb, if◌then◌else◌, min, take, drop, contains, prepend,
}
use sakura_intern_team_e.Db.Tables.{Text, Db, PostRow}
use sakura_intern_team_e.Db.Errors.{DbError}
use sakura_intern_team_e.Action.{Act, Query, done, pure, or_else, ◌>>=◌}
use sakura_intern_team_e.Handler.Response.{Page}
use sakura_intern_team_e.Handler.Fetch.{is_positive}

-- '0' to '9'
abbrev pub digit_of : ℕ → Option ℕ
digit_of c = if leb 48 c && leb c 57 then some (c - 48) else none

-- The number that the digits spell; where it leaves 64 bits the rest is not read.
unfoldable pub read_digits : ℕ → Text → Option ℕ
read_digits acc [] = some acc
read_digits acc (c ∷ cs) = elim (digit_of c) [
  | none ↦ none
  | some d ↦
      let longer = read_digits (acc * 10 + d) cs in
      if leb (2 ^ 64) (acc * 10 + d) then some (2 ^ 64) else longer
]

abbrev pub read_number : Text → Option ℕ
read_number [] = none
read_number (c ∷ cs) = read_digits 0 (c ∷ cs)

abbrev pub to_positive : Option ℕ → ℕ
to_positive none = 0
to_positive (some n) = min n (2 ^ 63 - 1)

abbrev pub to_negative : Option ℕ → ℕ
to_negative none = 0
to_negative (some n) = (2 ^ 64 - min n (2 ^ 63)) % 2 ^ 64

-- strconv.Atoi with its error dropped, as the bit pattern of an int: 0 for a text that is no number,
-- and the nearest int for a number that is too large.
unfoldable pub atoi : Text → ℕ
atoi [] = 0
atoi (c ∷ cs) =
    if c == 45
    then to_negative (read_number cs)
    else if c == 43
    then to_positive (read_number cs)
    else to_positive (read_number (c ∷ cs))

abbrev pub page_number : ℕ → ℕ
page_number n = if is_positive n then n else 1

abbrev pub page_size : ℕ → ℕ
page_size n = if is_positive n && leb n 50 then n else 20

abbrev pub page_of : ℕ → ℕ → Page
page_of page per_page = record {
  page = page;
  per_page = per_page;
  offset = ((page - 1) * per_page) % 2 ^ 64;
}

-- pagination, on the query's `page` and `per_page`
unfoldable pub pagination : Text → Text → Page
pagination page per_page = page_of (page_number (atoi page)) (page_size (atoi per_page))

module _ {ℓ} {A : Type ℓ} where
  abbrev pub place : (A → A → Bool) → A → List A → List A
  place before x [] = x ∷ []
  place before x (y ∷ ys) = if before x y then x ∷ y ∷ ys else y ∷ place before x ys

  -- ORDER BY
  abbrev pub order_by : (A → A → Bool) → List A → List A
  order_by before [] = []
  order_by before (x ∷ xs) = place before x (order_by before xs)

  -- LIMIT ? OFFSET ?; the server reads the offset without a sign, or refuses the statement.
  abbrev pub page_rows : Page → List A → List A
  page_rows p rows = take p.per_page (drop p.offset rows)

-- ORDER BY a DESC, b DESC
abbrev pub is_above : ℕ → ℕ → ℕ → ℕ → Bool
is_above a b c d = ltb c a || (a == c && ltb d b)

-- ORDER BY created_at DESC, id DESC
abbrev pub is_newer : PostRow → PostRow → Bool
is_newer p q = is_above p.created_at p.id q.created_at q.id

-- The values of a GROUP BY column, each once.
unfoldable pub distinct : List ℕ → List ℕ
distinct [] = []
distinct (x ∷ xs) = if contains x xs then distinct xs else x ∷ distinct xs

-- A query that reads at the server's time.
abbrev pub reading_at : {A : Type 0} → (ℕ → Db → A) → Query A
reading_at f now db = done (f now db) db

-- `x, err := m`, where an error only leaves x out
abbrev pub or_none : {E A : Type 0} → Act DbError A → Act E (Option A)
or_none m = or_else (m >>= λ a. pure (some a)) (λ e. pure none)

-- A loop that appends what each round makes, and goes on where it makes nothing.
unfoldable pub gather : {E A B : Type 0} → (A → Act E (Option B)) → List A → Act E (List B)
gather make [] = pure []
gather make (a ∷ rows) = do made ← make a; rest ← gather make rows; pure (prepend made rest)

-- `for ... { x, err := fetch(a); if err != nil { continue }; xs = append(xs, x) }`
abbrev pub fetch_found : {E A B : Type 0} → (A → Act DbError B) → List A → Act E (List B)
fetch_found fetch rows = gather (λ a. or_none (fetch a)) rows
