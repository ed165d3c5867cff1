-- ===== src/Tests/Pagination.antt =====
-- Three pages of five rows, and the walk over them.
use ats_smart_backend.Prelude.{
  ℕ, ◌+◌, ◌<◌, ◌≤◌, ◌≡◌, ◌≢◌, refl, Bool, true, false, Option, none, some, List, [], ◌∷◌, arith, ap,
  length,
}
use ats_smart_backend.Pagination.{Key, order_by, insert, before, paginate_by_cursor}
use ats_smart_backend.Pagination.Order.{HasUniqueKeys}
use ats_smart_backend.Pagination.Walk.{walk, walk-order_by}

-- Two rows share the value of the sort column.
abbrev rows : List Key
rows = (3, 1) ∷ (5, 2) ∷ (3, 4) ∷ (9, 5) ∷ (1, 6) ∷ []

abbrev key : Key → Key
key row = row

abbrev decode : Key → Option Key
decode k = some k

ordered : order_by key true rows ≡ (9, 5) ∷ (5, 2) ∷ (3, 4) ∷ (3, 1) ∷ (1, 6) ∷ []
unfolding order_by insert before
ordered = refl

walked : walk key key decode true 2 rows 5 none ≡ (9, 5) ∷ (5, 2) ∷ (3, 4) ∷ (3, 1) ∷ (1, 6) ∷ []
unfolding walk paginate_by_cursor ats_smart_backend.Prelude.filter
walked = refl

enough : length (order_by key true rows) ≤ 5
unfolding order_by before
enough = omega arith

other : (a b c d : ℕ) → c ≢ d → ◌≢◌ {A = Key} (a, c) (b, d)
other a b c d ne e = ne (ap (λ k. k.1) e)

unique_keys : HasUniqueKeys key true rows
unique_keys = (
  (
    other 3 5 1 2 (omega arith),
    (other 3 3 1 4 (omega arith), (other 3 9 1 5 (omega arith), (other 3 1 1 6 (omega arith), tt))),
  ),
  (
    (other 5 3 2 4 (omega arith), (other 5 9 2 5 (omega arith), (other 5 1 2 6 (omega arith), tt))),
    (
      (other 3 9 4 5 (omega arith), (other 3 1 4 6 (omega arith), tt)),
      ((other 9 1 5 6 (omega arith), tt), (tt, tt)),
    ),
  ),
)

walk-order_by_example : walk key key decode true 2 rows 5 none ≡ order_by key true rows
walk-order_by_example =
    walk-order_by key key decode true 2 rows (λ k. refl) (omega arith) unique_keys 4 enough
