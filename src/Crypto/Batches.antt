-- ===== src/Crypto/Batches.antt =====
-- The loop of `_reencrypt` (app/core/crypto.py) over one table: batches of rows by id, each loaded,
-- marked as changed and committed. A row's type, its id and how it is written again are parameters.
use ats_smart_backend.Prelude.{
  ℕ, zero, suc, ◌+◌, Bool, true, false, Option, none, some, List, [], ◌∷◌, map, ltb, ◌==◌,
  if◌then◌else◌, filter, take, length,
}
use ats_smart_backend.Exec.{Result, ok, raised}
use ats_smart_backend.Pagination.{order_by, last}

module _ {A : Type 0} (id_of : A → ℕ) where
  abbrev pub id_key : A → ℕ × ℕ
  id_key row = (0, id_of row)

  -- `order_by(model.id)`
  unfoldable pub by_id : List A → List A
  unfolding order_by
  by_id rows = order_by id_key false rows

  -- `model.id > last_id`
  unfoldable pub is_beyond : Option ℕ → A → Bool
  is_beyond none row = true
  is_beyond (some last_id) row = ltb last_id (id_of row)

  -- UPDATE of one row
  unfoldable pub store : A → List A → List A
  store row rows = map (λ r. if id_of r == id_of row then row else r) rows

  unfoldable pub store_all : List A → List A → List A
  unfolding store
  store_all [] rows = rows
  store_all (row ∷ changed) rows = store_all changed (store row rows)

  unfoldable pub last_id_of : List A → Option ℕ
  unfolding last
  last_id_of rows = elim (last rows) [ none ↦ none | some row ↦ some (id_of row) ]

-- A row that cannot be decrypted raises when the query loads it.
unfoldable pub rewrite_all : {A E : Type 0} → (A → Result E A) → List A → Result E (List A)
rewrite_all rewrite [] = ok []
rewrite_all rewrite (row ∷ rows) =
    let others = rewrite_all rewrite rows in
    elim (rewrite row) [
      | raised e ↦ raised e
      | ok changed ↦ elim others [ raised e ↦ raised e | ok rest ↦ ok (changed ∷ rest) ]
    ]

module _ {A : Type 0} (legacy : A → Bool) (only_legacy : Bool) where
  unfoldable pub is_wanted : A → Bool
  is_wanted row = if only_legacy then legacy row else true

  module _ (id_of : A → ℕ) (batch_size : ℕ) where
    unfoldable pub select_batch : Option ℕ → List A → List A
    unfolding is_wanted is_beyond by_id filter
    select_batch last_id rows =
        take batch_size (by_id id_of (filter (is_beyond id_of last_id) (filter is_wanted rows)))

    -- `while True`, `fuel` rounds at most: `none` while it is still running. The table that the last
    -- commit leaves, and the number of rows that were written.
    unfoldable pub reencrypt_table :
        {E : Type 0} → (A → Result E A) → ℕ → Option ℕ → ℕ → List A → Option (List A × Result E ℕ)
    unfolding select_batch rewrite_all store_all last_id_of
    reencrypt_table rewrite zero last_id count rows = none
    reencrypt_table rewrite (suc fuel) last_id count rows = elim (select_batch last_id rows) [
      | [] ↦ some (rows, ok count)
      | row ∷ batch ↦ elim (rewrite_all rewrite (row ∷ batch)) [
        | raised e ↦ some (rows, raised e)
        | ok changed ↦
            reencrypt_table rewrite fuel (last_id_of id_of (row ∷ batch))
              (count + length (row ∷ batch)) (store_all id_of changed rows)
      ]
    ]
