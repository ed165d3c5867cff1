-- ===== src/Pagination.antt =====
-- app/core/pagination.py: keyset pagination. The value of the sort column and the row's id are numbers,
-- the query is the list of its rows, and Base64 with JSON is a pair of parameters: `encode` of a
-- position, and `decode`, which refuses a text that is no cursor.
pub mod Order
pub mod Beyond
pub mod Walk
unfoldable pub use Order.{precedes, insert, order_by, before, Key}
use ats_smart_backend.Prelude.{
  ℕ, suc, zero, ◌+◌, Bool, true, false, Option, none, some, List, [], ◌∷◌, ltb, if◌then◌else◌, ◌&&◌,
  ◌||◌, not, filter, take, length, any,
}
use ats_smart_backend.Exec.{Result, ok, raised}
use mathlib.Core.List.{reverse}

pub data Direction : Type 0 where
  next : Direction
  prev : Direction

pub record CursorParams (Token : Type 0) : Type 0 where
  pub cursor : Option Token
  pub direction : Direction
  pub limit : ℕ

pub record CursorPage (Token A : Type 0) : Type 0 where
  pub items : List A
  pub next_cursor : Option Token
  pub previous_cursor : Option Token
  pub has_next : Bool
  pub has_previous : Bool

-- HTTP 400
pub data InvalidCursor : Type 0 where
  invalid_cursor : InvalidCursor

pub data Boundary : Type 0 where
  unbounded : Boundary
  beyond : Key → Boundary

unfoldable pub last : {A : Type 0} → List A → Option A
last [] = none
last (x ∷ []) = some x
last (x ∷ y ∷ ys) = last (y ∷ ys)

unfoldable pub head : {A : Type 0} → List A → Option A
head [] = none
head (x ∷ xs) = some x

module _ {Token A : Type 0} (key : A → Key) (encode : Key → Token)
    (decode : Token → Option Key) where
  -- WHERE, ORDER BY and LIMIT of one query: the rows after the boundary in the order of `descending`.
  unfoldable pub fetch : Bool → Boundary → ℕ → List A → List A
  unfolding order_by before
  fetch descending unbounded count rows = take count (order_by key descending rows)
  fetch descending (beyond k) count rows =
      take count (order_by key descending (filter (λ row. before descending k (key row)) rows))

  -- `exists_beyond`: a row after the position in the order of `descending`.
  unfoldable pub exists_beyond : Bool → Key → List A → Bool
  unfolding before
  exists_beyond descending k rows = any (λ row. before descending k (key row)) rows

  cursor_if : Bool → Key → Option Token
  cursor_if true k = some (encode k)
  cursor_if false k = none

  -- The page of the rows read, in the order of display, with the two tests.
  page_of : List A → (Key → Bool) → (Key → Bool) → CursorPage Token A
  unfolding cursor_if last
  page_of [] test_next test_previous = record {
    items = [];
    next_cursor = none;
    previous_cursor = none;
    has_next = false;
    has_previous = false;
  }
  page_of (first_item ∷ items) test_next test_previous =
      let next_boundary = key (elim (last items) [ none ↦ first_item | some item ↦ item ]) in
      let has_next = test_next next_boundary in
      let has_previous = test_previous (key first_item) in
      record {
        items = first_item ∷ items;
        next_cursor = cursor_if has_next next_boundary;
        previous_cursor = cursor_if has_previous (key first_item);
        has_next = has_next;
        has_previous = has_previous;
      }

  -- The page at a boundary; `bounded` tells that the request has a cursor.
  unfoldable pub page_at : Direction → Bool → Boundary → ℕ → Bool → List A → CursorPage Token A
  unfolding page_of fetch exists_beyond
  page_at next bounded boundary limit descending rows =
      let read = fetch descending boundary (suc limit) rows in
      page_of (take limit read) (λ k. ltb limit (length read))
        (λ k. bounded && exists_beyond (not descending) k rows)
  page_at prev bounded boundary limit descending rows =
      let read = fetch (not descending) boundary (suc limit) rows in
      page_of (reverse (take limit read)) (λ k. exists_beyond descending k rows)
        (λ k. ltb limit (length read))

  unfoldable pub paginate_by_cursor :
      CursorParams Token → Bool → List A → Result InvalidCursor (CursorPage Token A)
  unfolding page_at
  paginate_by_cursor params descending rows = elim params.cursor [
    | none ↦ ok (page_at params.direction false unbounded params.limit descending rows)
    | some token ↦ elim (decode token) [
      | none ↦ raised invalid_cursor
      | some k ↦ ok (page_at params.direction true (beyond k) params.limit descending rows)
    ]
  ]
