-- ===== src/CiInspect/Order.antt =====
-- The two sorts of scripts/actions_ci_inspect.py.
use Prim.Native.Nat.{Ordering}
use Prim.Native.String as Text
use zach.Common.{Bool, true, false, List, [], ◌∷◌, ltb, if◌then◌else◌}
use zach.CiInspect.Runs.{RunSummary}
use zach.CiInspect.Jobs.{JobSummary}

-- A stable insertion before the first element that does not come strictly earlier.
module _ {A : Type 0} (earlier : A → A → Bool) where
  unfoldable pub insert : A → List A → List A
  insert x [] = x ∷ []
  insert x (y ∷ ys) = let rest = insert x ys in if earlier y x then y ∷ rest else x ∷ y ∷ ys

  unfoldable pub sort : List A → List A
  sort [] = []
  sort (x ∷ xs) = insert x (sort xs)

-- Whether the key `(created_at, id)` of `a` is greater than that of `b`.
unfoldable pub is_newer : RunSummary → RunSummary → Bool
is_newer a b = elim (Text.compare a.created_at b.created_at) [
  | Ordering.lt ↦ false
  | Ordering.eq ↦ ltb b.id a.id
  | Ordering.gt ↦ true
]

-- `runs.sort(key=lambda run: (run["created_at"], run["id"]), reverse=True)`
unfoldable pub newest_first : List RunSummary → List RunSummary
newest_first = sort is_newer

abbrev pub has_smaller_id : JobSummary → JobSummary → Bool
has_smaller_id a b = ltb a.id b.id

-- `jobs.sort(key=lambda job: job["id"])`
unfoldable pub by_id : List JobSummary → List JobSummary
by_id = sort has_smaller_id
