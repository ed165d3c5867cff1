-- ===== src/Experience/Intervals.antt =====
-- `_merge_intervals_and_sum_years` of app/core/experience_analyzer.py.
use ats_smart_backend.Prelude.{ℕ, ◌+◌, ◌-◌, List, [], ◌∷◌, leb, max, if◌then◌else◌}

-- `sorted(intervals, key=lambda interval: interval[0])`, a stable sort
unfoldable pub insert : ℕ × ℕ → List (ℕ × ℕ) → List (ℕ × ℕ)
insert x [] = x ∷ []
insert x (y ∷ ys) = let rest = insert x ys in if leb x.0 y.0 then x ∷ y ∷ ys else y ∷ rest

unfoldable pub sort_by_start : List (ℕ × ℕ) → List (ℕ × ℕ)
unfolding insert
sort_by_start [] = []
sort_by_start (x ∷ xs) = insert x (sort_by_start xs)

-- The loop, and then the sum: `a` and `b` are the last merged interval, which the loop may still widen.
-- The intervals before it are finished, and their lengths are added as the recursion returns.
unfoldable pub sum_merged : ℕ → ℕ → List (ℕ × ℕ) → ℕ
sum_merged a b [] = b - a
sum_merged a b ((start_year, end_year) ∷ rest) =
    let widened = sum_merged a (max b end_year) rest in
    let appended = b - a + sum_merged start_year end_year rest in
    if leb start_year b then widened else appended

unfoldable pub from_first : List (ℕ × ℕ) → ℕ
unfolding sum_merged
from_first [] = 0
from_first ((a, b) ∷ rest) = sum_merged a b rest

unfoldable pub merge_intervals_and_sum_years : List (ℕ × ℕ) → ℕ
unfolding sort_by_start from_first
merge_intervals_and_sum_years intervals = from_first (sort_by_start intervals)
