-- ===== src/Crypto/Written.antt =====
-- The table that the updates of `_reencrypt` leave, row by row.
use ats_smart_backend.Prelude.{
  ℕ, zero, suc, ◌+◌, ◌<◌, ◌≡◌, refl, sym, ◌∙◌, ap, Bool, true, false, none, some, List, [], ◌∷◌,
  map, ◌==◌, ◌||◌, if◌then◌else◌, filter, any, arith, length, length-filter-le, All, All-filter,
  All-and, All-imp, map-All, Bool-cases, inl, inr, ==_iff,
}
use ats_smart_backend.Pagination.{order_by, before, insert}
use ats_smart_backend.Pagination.Order.{HasUniqueKeys, Differs}
use ats_smart_backend.Exec.{Result, ok}
use ats_smart_backend.Crypto.Batches.{
  id_key, by_id, store, store_all, last_id_of, is_wanted, reencrypt_table,
}
use ats_smart_backend.Crypto.Rounds.{rounds, whole, so_far}

map-map : {A : Type 0} (f g : A → A) (l : List A) → map f (map g l) ≡ map (λ x. f (g x)) l
map-map f g [] = refl
map-map f g (x ∷ l) = ap (λ t. f (g x) ∷ t) (map-map f g l)

module _ {A : Type 0} (p : A → Bool) (id_of : A → ℕ) where
  any-insert : (x : A) (l : List A) → any p (insert (id_key id_of) false x l) ≡ (p x || any p l)
  unfolding any insert
  any-insert x [] = refl
  any-insert x (y ∷ l) = ground (arith, any-insert x l)

  any-by_id : (l : List A) → any p (by_id id_of l) ≡ any p l
  unfolding any by_id order_by
  any-by_id [] = refl
  any-by_id (x ∷ l) = any-insert x (by_id id_of l) ∙ ap (λ b. p x || b) (any-by_id l)

module _ {A : Type 0} (P : A → Type 0) (id_of : A → ℕ) where
  All-insert : (x : A) (l : List A) → P x → All P l → All P (insert (id_key id_of) false x l)
  unfolding insert
  All-insert x [] h k = (h, tt)
  All-insert x (y ∷ l) h k = elim (Bool-cases (before false (id_key id_of y) (id_key id_of x))) [
    | inl later ↦ rw later (k.0, All-insert x l h k.1)
    | inr first ↦ rw first (h, k)
  ]

  pub All-by_id : (l : List A) → All P l → All P (by_id id_of l)
  unfolding by_id order_by
  All-by_id [] h = tt
  All-by_id (x ∷ l) h = All-insert x (by_id id_of l) h.0 (All-by_id l h.1)

unless : {A : Type 0} {x y : A} (b : Bool) → (b ≡ true → x ≡ y) → (if b then x else y) ≡ y
unless true h = h refl
unless false h = refl

module _ {A : Type 0} (id_of : A → ℕ) where
  -- What the updates make of one row
  applied : List A → A → A
  applied [] r = r
  applied (c ∷ changed) r = applied changed (if id_of r == id_of c then c else r)

  applied-id : (rows : List A) → map (applied []) rows ≡ rows
  unfolding applied
  applied-id [] = refl
  applied-id (x ∷ rows) = ap (λ t. x ∷ t) (applied-id rows)

  store_all-applied :
      (changed rows : List A) → store_all id_of changed rows ≡ map (applied changed) rows
  unfolding store_all store applied
  store_all-applied [] rows = sym (applied-id rows)
  store_all-applied (c ∷ changed) rows =
      store_all-applied changed (store id_of c rows)
      ∙ map-map (applied changed) (λ r. if id_of r == id_of c then c else r) rows

  -- The row itself is the only one of its id.
  IsOnly : A → A → Type 0
  IsOnly r c = id_of c ≡ id_of r → c ≡ r

  module _ (f : A → A) (keeps : (row : A) → id_of (f row) ≡ id_of row) (r : A) where
    applied-again : (l : List A) → All (IsOnly r) l → applied (map f l) (f r) ≡ f r
    unfolding applied IsOnly
    applied-again [] h = refl
    applied-again (c ∷ l) h =
        ap (applied (map f l)) (
          unless (id_of (f r) == id_of (f c))
            (λ same. ap f (h.0 (sym (keeps c) ∙ sym ((==_iff _ _).0 same) ∙ keeps r))))
        ∙ applied-again l h.1

    applied-map :
        (l : List A)
        → All (IsOnly r) l
        → applied (map f l) r ≡ (if any (λ c. id_of r == id_of c) l then f r else r)
    unfolding applied IsOnly any
    applied-map [] h = refl
    applied-map (c ∷ l) h =
        ap (λ n. applied (map f l) (if id_of r == n then f c else r)) (keeps c)
        ∙ by_test (id_of r == id_of c) (applied-map l h.1) (λ same. h.0 (sym ((==_iff _ _).0 same)))
      where
        by_test :
            (b : Bool)
            → applied (map f l) r ≡ (if any (λ d. id_of r == id_of d) l then f r else r)
            → (b ≡ true → c ≡ r)
            → applied (map f l) (if b then f c else r)
              ≡ (if b || any (λ d. id_of r == id_of d) l then f r else r)
        by_test true rest k = ap (λ d. applied (map f l) (f d)) (k refl) ∙ applied-again l h.1
        by_test false rest k = rest

  Differs-IsOnly : (x c : A) → Differs (id_key id_of) false x c → IsOnly x c
  unfolding IsOnly
  Differs-IsOnly x c ne e = absurd (ne (ap (λ n. (0, n)) (sym e)))

  Differs-IsOnly_back : (x c : A) → Differs (id_key id_of) false x c → IsOnly c x
  unfolding IsOnly
  Differs-IsOnly_back x c ne e = absurd (ne (ap (λ n. (0, n)) e))

  rows-IsOnly :
      (rows : List A)
      → HasUniqueKeys (id_key id_of) false rows
      → All (λ r. All (IsOnly r) rows) rows
  unfolding IsOnly
  rows-IsOnly [] h = tt
  rows-IsOnly (x ∷ rows) h = (
    (λ e. refl, All-imp _ (IsOnly x) rows (Differs-IsOnly x) h.0),
    All-and _ _ rows (All-imp _ _ rows (Differs-IsOnly_back x) h.0) (rows-IsOnly rows h.1),
  )

  apart : (x r : A) → Differs (id_key id_of) false x r → (id_of r == id_of x) ≡ false
  apart x r ne = elim (Bool-cases (id_of r == id_of x)) [
    | inl same ↦ absurd (ne (ap (λ n. (0, n)) (sym ((==_iff _ _).0 same))))
    | inr other ↦ other
  ]

  apart_back : (x r : A) → Differs (id_key id_of) false x r → (id_of x == id_of r) ≡ false
  apart_back x r ne = elim (Bool-cases (id_of x == id_of r)) [
    | inl same ↦ absurd (ne (ap (λ n. (0, n)) ((==_iff _ _).0 same)))
    | inr other ↦ other
  ]

  any-none : (p : A → Bool) (l : List A) → All (λ c. p c ≡ false) l → any p l ≡ false
  unfolding any
  any-none p [] h = refl
  any-none p (c ∷ l) h = ap (λ b. b || any p l) h.0 ∙ any-none p l h.1

  module _ (w : A → Bool) where
    -- Among the rows looked for, is there one with this row's id?
    chosen : List A → A → Bool
    chosen rows r = any (λ c. id_of r == id_of c) (filter w rows)

    chosen-cons :
        (x r : A) (rows : List A)
        → chosen (x ∷ rows) r
          ≡ (if w x then (id_of r == id_of x) || chosen rows r else chosen rows r)
    unfolding chosen any filter
    chosen-cons x r rows = by_test (w x)
      where
        by_test :
            (b : Bool)
            → any (λ c. id_of r == id_of c) (if b then x ∷ filter w rows else filter w rows) ≡ (
                if b
                then (id_of r == id_of x) || any (λ c. id_of r == id_of c) (filter w rows)
                else any (λ c. id_of r == id_of c) (filter w rows))
        by_test true = refl
        by_test false = refl

    chosen-wanted :
        (rows : List A)
        → HasUniqueKeys (id_key id_of) false rows
        → All (λ r. chosen rows r ≡ w r) rows
    unfolding chosen any
    chosen-wanted [] h = tt
    chosen-wanted (x ∷ rows) h = (
      chosen-cons x x rows ∙ itself (w x),
      All-imp _ _ rows (λ r k. chosen-cons x r rows ∙ another r (w x) (apart x r k.0) ∙ k.1)
          (All-and _ _ rows h.0 (chosen-wanted rows h.1)),
    )
      where
        alone : chosen rows x ≡ false
        alone =
            any-none _ (filter w rows) (All-filter _ w rows (All-imp _ _ rows (apart_back x) h.0))

        itself :
            (b : Bool) → (if b then (id_of x == id_of x) || chosen rows x else chosen rows x) ≡ b
        itself true = ap (λ b. b || chosen rows x) ((==_iff _ _).1 refl)
        itself false = alone

        another :
            (r : A) (b : Bool)
            → (id_of r == id_of x) ≡ false
            → (if b then (id_of r == id_of x) || chosen rows r else chosen rows r) ≡ chosen rows r
        another r true k = ap (λ b. b || chosen rows r) k
        another r false k = refl

module _ {A E : Type 0} (id_of : A → ℕ) (f : A → A) (keeps : (row : A) → id_of (f row) ≡ id_of row)
    (legacy : A → Bool) (only_legacy : Bool) (rewrite : A → Result E A) (rows : List A)
    (unique : HasUniqueKeys (id_key id_of) false rows) where
  -- Each wanted row is written once, and no other.
  store_all-by_id :
      store_all id_of (map f (by_id id_of (filter (is_wanted legacy only_legacy) rows))) rows
      ≡ map (λ r. if is_wanted legacy only_legacy r then f r else r) rows
  unfolding chosen
  store_all-by_id =
      store_all-applied id_of _ rows
      ∙ map-All _ _ rows (
          All-imp _ _ rows each (
            All-and _ _ rows (rows-IsOnly id_of rows unique)
              (chosen-wanted id_of (is_wanted legacy only_legacy) rows unique)))
    where
      each :
          (r : A)
          → All (IsOnly id_of r) rows
            × (chosen id_of (is_wanted legacy only_legacy) rows r ≡ is_wanted legacy only_legacy r)
          → applied id_of (map f (by_id id_of (filter (is_wanted legacy only_legacy) rows))) r
            ≡ (if is_wanted legacy only_legacy r then f r else r)
      each r k =
          applied-map id_of f keeps r _
            (All-by_id (IsOnly id_of r) id_of _ (All-filter (IsOnly id_of r) _ rows k.0))
          ∙ ap (λ b. if b then f r else r)
              (any-by_id _ id_of (filter (is_wanted legacy only_legacy) rows) ∙ k.1)

  HasUniqueKeys-filter :
      (p : A → Bool) (l : List A)
      → HasUniqueKeys (id_key id_of) false l
      → HasUniqueKeys (id_key id_of) false (filter p l)
  unfolding filter
  HasUniqueKeys-filter p [] h = tt
  HasUniqueKeys-filter p (x ∷ l) h = elim (Bool-cases (p x)) [
    | inl kept ↦ rw kept (All-filter _ p l h.0, HasUniqueKeys-filter p l h.1)
    | inr gone ↦ rw gone (HasUniqueKeys-filter p l h.1)
  ]

  length-insert : (x : A) (l : List A) → length (insert (id_key id_of) false x l) ≡ suc (length l)
  unfolding insert
  length-insert x [] = refl
  length-insert x (y ∷ l) = ground (arith, length-insert x l)

  length-by_id : (l : List A) → length (by_id id_of l) ≡ length l
  unfolding by_id order_by
  length-by_id [] = refl
  length-by_id (x ∷ l) = omega (arith, length-insert x (by_id id_of l), length-by_id l)

  -- For rows of unique ids that can all be read, and batches of one row at least, the loop ends within
  -- one round more than the table has rows: each wanted row is written again once, no other row is
  -- touched, and the count is the number of the wanted rows.
  pub reencrypt_table-map :
      (batch_size fuel : ℕ)
      → 0 < batch_size
      → length rows < fuel
      → All (λ row. rewrite row ≡ ok (f row)) (filter (is_wanted legacy only_legacy) rows)
      → reencrypt_table legacy only_legacy id_of batch_size rewrite fuel none 0 rows
        ≡ some (
          map (λ r. if is_wanted legacy only_legacy r then f r else r) rows,
          ok (length (filter (is_wanted legacy only_legacy) rows)),
        )
  unfolding whole so_far store_all last_id_of
  reencrypt_table-map zero fuel positive enough readable = absurd (omega arith)
  reencrypt_table-map (suc m) fuel positive enough readable =
      rounds id_of f keeps legacy only_legacy m rewrite rows
        (HasUniqueKeys-filter (is_wanted legacy only_legacy) rows unique) fuel 0 []
        (by_id id_of (filter (is_wanted legacy only_legacy) rows)) refl
        (All-by_id _ id_of _ readable)
        (omega (
          arith,
          enough,
          length-by_id (filter (is_wanted legacy only_legacy) rows),
          length-filter-le (is_wanted legacy only_legacy) rows,
        ))
      ∙ ap
          (λ t.
            some (t, ok (0 + length (by_id id_of (filter (is_wanted legacy only_legacy) rows)))))
          store_all-by_id
      ∙ ap (λ n. some (map (λ r. if is_wanted legacy only_legacy r then f r else r) rows, ok n))
          counted
    where
      counted :
          0 + length (by_id id_of (filter (is_wanted legacy only_legacy) rows))
          ≡ length (filter (is_wanted legacy only_legacy) rows)
      counted = omega (arith, length-by_id (filter (is_wanted legacy only_legacy) rows))
