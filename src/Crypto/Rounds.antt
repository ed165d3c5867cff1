-- ===== src/Crypto/Rounds.antt =====
-- The loop of `_reencrypt` ends, and has written every row that it looks for exactly once.
use ats_smart_backend.Prelude.{
  filter-true, ℕ, zero, suc, ◌+◌, ◌<◌, ◌≡◌, refl, sym, ◌∙◌, ap, subst, Bool, true, false, Option,
  none, some, List, [], ◌∷◌, ◌++◌, map, ltb, filter, take, drop, length, arith, All, length-append,
  All-prefix, All-suffix, append_assoc, append_nil,
}
use mathlib.Core.Bool.{false≢true}
use ats_smart_backend.Exec.{Result, ok}
use ats_smart_backend.Pagination.{before}
use ats_smart_backend.Pagination.Order.{IsOrdered, HasUniqueKeys, order_by-IsOrdered, precedes}
use ats_smart_backend.Pagination.Beyond.{
  filter-beyond, filter-order_by, final, initial, last-cons, take-drop, length-drop-le,
}
use ats_smart_backend.Crypto.Batches.{
  id_key, by_id, is_beyond, store, store_all, last_id_of, rewrite_all, is_wanted, select_batch,
  reencrypt_table,
}

before→lt : (a b : ℕ) → before false (0, a) (0, b) ≡ true → a < b
unfolding before precedes
before→lt a b h = ground arith

lt→ltb_false : (a b : ℕ) → a < b → ltb b a ≡ false
lt→ltb_false a b h = ground arith

module _ {A : Type 0} (id_of : A → ℕ) where
  filter-store :
      (p : A → Bool) (b : Option ℕ) (row : A) (rows : List A)
      → is_beyond id_of b row ≡ false
      → filter (is_beyond id_of b) (filter p (store id_of row rows))
        ≡ filter (is_beyond id_of b) (filter p rows)
  unfolding filter store is_beyond
  filter-store p none row rows h = absurd (false≢true (sym h))
  filter-store p (some b) row [] h = refl
  filter-store p (some b) row (x ∷ rows) h = ground (arith, filter-store p (some b) row rows h)

  filter-store_all :
      (p : A → Bool) (b : Option ℕ) (changed rows : List A)
      → All (λ row. is_beyond id_of b row ≡ false) changed
      → filter (is_beyond id_of b) (filter p (store_all id_of changed rows))
        ≡ filter (is_beyond id_of b) (filter p rows)
  unfolding store_all
  filter-store_all p b [] rows h = refl
  filter-store_all p b (row ∷ changed) rows h =
      filter-store_all p b changed (store id_of row rows) h.1 ∙ filter-store p b row rows h.0

  All-final : (P : A → Type 0) (x : A) (l : List A) → All P (x ∷ l) → P (final x l)
  All-final P x [] h = h.0
  All-final P x (y ∷ l) h = All-final P y l h.1

  -- In an ordered list no row is beyond the last one.
  not_beyond-final :
      (x : A) (l : List A)
      → IsOrdered (id_key id_of) false (x ∷ l)
      → All (λ row. ltb (id_of (final x l)) (id_of row) ≡ false) (x ∷ l)
  not_beyond-final x [] h = (ground arith, tt)
  not_beyond-final x (y ∷ l) h =
      (lt→ltb_false _ _ (before→lt _ _ (All-final _ y l h.0)), not_beyond-final y l h.1)

  IsOrdered-prefix :
      (pre post : List A)
      → IsOrdered (id_key id_of) false (pre ++ post)
      → IsOrdered (id_key id_of) false pre
  IsOrdered-prefix [] post h = tt
  IsOrdered-prefix (x ∷ pre) post h = (All-prefix _ pre post h.0, IsOrdered-prefix pre post h.1)

  last_id_of-final : (x : A) (l : List A) → last_id_of id_of (x ∷ l) ≡ some (id_of (final x l))
  unfolding last_id_of
  last_id_of-final x l = rw (last-cons x l, last_id_of) refl

  final-append : (x y : A) (l m : List A) → final x (l ++ y ∷ m) ≡ final y m
  final-append x y [] m = refl
  final-append x y (z ∷ l) m = final-append z y l m

  regroup : (x : A) (l post : List A) → (x ∷ l) ++ post ≡ initial x l ++ final x l ∷ post
  regroup x [] post = refl
  regroup x (y ∷ l) post = ap (λ t. x ∷ t) (regroup y l post)

  -- The rows beyond a part of the ordered query are the rest of it.
  by_id-beyond :
      (pre post rows : List A)
      → HasUniqueKeys (id_key id_of) false rows
      → by_id id_of rows ≡ pre ++ post
      → by_id id_of (filter (is_beyond id_of (last_id_of id_of pre)) rows) ≡ post
  unfolding by_id filter is_beyond last_id_of before precedes
  by_id-beyond [] post rows unique whole = ap (by_id id_of) (filter-true rows) ∙ whole
  by_id-beyond (x ∷ l) post rows unique whole =
      ap (λ b. by_id id_of (filter (is_beyond id_of b) rows)) (last_id_of-final x l)
      ∙ filter-order_by (id_key id_of) false (is_beyond id_of (some (id_of (final x l)))) rows
          unique
      ∙ ap (filter (is_beyond id_of (some (id_of (final x l))))) (whole ∙ regroup x l post)
      ∙ filter-beyond (id_key id_of) false (initial x l) post (final x l) (
          subst (IsOrdered (id_key id_of) false) (whole ∙ regroup x l post)
            (order_by-IsOrdered (id_key id_of) false rows unique))

length-split : {A : Type 0} (m : ℕ) (l : List A) → length l ≡ length (take m l) + length (drop m l)
length-split m l = ap length (sym (take-drop m l)) ∙ length-append (take m l) (drop m l)

module _ {A E : Type 0} (rewrite : A → Result E A) (f : A → A) where
  rewrite_all-map :
      (rows : List A)
      → All (λ row. rewrite row ≡ ok (f row)) rows
      → rewrite_all rewrite rows ≡ ok (map f rows)
  unfolding rewrite_all
  rewrite_all-map [] h = refl
  rewrite_all-map (row ∷ rows) h = rw (h.0, rewrite_all) (rw (rewrite_all-map rows h.1) refl)

module _ {A : Type 0} (id_of : A → ℕ) (f : A → A)
    (keeps : (row : A) → id_of (f row) ≡ id_of row) where
  not_beyond-map :
      (b : ℕ) (l : List A)
      → All (λ row. ltb b (id_of row) ≡ false) l
      → All (λ row. ltb b (id_of row) ≡ false) (map f l)
  not_beyond-map b [] h = tt
  not_beyond-map b (x ∷ l) h = (ap (ltb b) (keeps x) ∙ h.0, not_beyond-map b l h.1)

  -- What was written so far is not looked at again.
  not_beyond-last :
      (pre : List A)
      → IsOrdered (id_key id_of) false pre
      → All (λ row. is_beyond id_of (last_id_of id_of pre) row ≡ false) (map f pre)
  unfolding is_beyond
  not_beyond-last [] h = tt
  not_beyond-last (x ∷ l) h =
      subst (λ b. All (λ row. is_beyond id_of b row ≡ false) (map f (x ∷ l)))
        (sym (last_id_of-final id_of x l))
        (not_beyond-map (id_of (final x l)) (x ∷ l) (not_beyond-final id_of x l h))

  store_all-append :
      (pre batch rows : List A)
      → store_all id_of (map f batch) (store_all id_of (map f pre) rows)
        ≡ store_all id_of (map f (pre ++ batch)) rows
  unfolding store_all
  store_all-append [] batch rows = refl
  store_all-append (x ∷ pre) batch rows = store_all-append pre batch (store id_of (f x) rows)

  last_id_of-append :
      (pre l : List A) (x : A) → last_id_of id_of (x ∷ l) ≡ last_id_of id_of (pre ++ x ∷ l)
  last_id_of-append [] l x = refl
  last_id_of-append (y ∷ pre) l x =
      last_id_of-final id_of x l
      ∙ ap (λ r. some (id_of r)) (sym (final-append id_of y x pre l))
      ∙ sym (last_id_of-final id_of y (pre ++ x ∷ l))

  module _ (legacy : A → Bool) (only_legacy : Bool) (m : ℕ) {E : Type 0} (rewrite : A → Result E A)
      (rows : List A)
      (unique : HasUniqueKeys
        (id_key id_of)
        false
        (filter (is_wanted legacy only_legacy) rows)) where
    unfoldable pub whole : List A
    whole = by_id id_of (filter (is_wanted legacy only_legacy) rows)

    unfoldable pub so_far : List A → List A
    so_far pre = store_all id_of (map f pre) rows

    select_batch-take :
        (pre post : List A)
        → whole ≡ pre ++ post
        → select_batch legacy only_legacy id_of (suc m) (last_id_of id_of pre) (so_far pre)
          ≡ take (suc m) post
    unfolding select_batch whole so_far by_id
    select_batch-take pre post h =
        ap (λ l. take (suc m) (by_id id_of l))
          (filter-store_all id_of (is_wanted legacy only_legacy) (last_id_of id_of pre) (map f pre)
            rows
            (not_beyond-last pre (
              IsOrdered-prefix id_of pre post (
                subst (IsOrdered (id_key id_of) false) h
                  (order_by-IsOrdered (id_key id_of) false _ unique)))))
        ∙ ap (take (suc m)) (by_id-beyond id_of pre post _ unique h)

    round :
        (fuel count : ℕ) (b : Option ℕ) (t changed batch : List A) (x : A)
        → select_batch legacy only_legacy id_of (suc m) b t ≡ x ∷ batch
        → rewrite_all rewrite (x ∷ batch) ≡ ok changed
        → reencrypt_table legacy only_legacy id_of (suc m) rewrite (suc fuel) b count t
          ≡ reencrypt_table legacy only_legacy id_of
              (suc m)
              rewrite
              fuel
              (last_id_of id_of (x ∷ batch))
              (count + length (x ∷ batch))
              (store_all id_of changed t)
    unfolding reencrypt_table
    round fuel count b t changed batch x h k = rw (h, reencrypt_table) (rw k refl)

    ends :
        (fuel count : ℕ) (b : Option ℕ) (t : List A)
        → select_batch legacy only_legacy id_of (suc m) b t ≡ []
        → reencrypt_table legacy only_legacy id_of (suc m) rewrite (suc fuel) b count t
          ≡ some (t, ok count)
    unfolding reencrypt_table
    ends fuel count b t h = rw (h, reencrypt_table) refl

    pub rounds :
        (fuel count : ℕ) (pre post : List A)
        → whole ≡ pre ++ post
        → All (λ row. rewrite row ≡ ok (f row)) post
        → length post < fuel
        → reencrypt_table legacy only_legacy id_of
            (suc m)
            rewrite
            fuel
            (last_id_of id_of pre)
            count
            (so_far pre)
          ≡ some (so_far whole, ok (count + length post))
    unfolding so_far store_all
    rounds zero count pre post h readable enough = absurd (omega arith)
    rounds (suc fuel) count pre [] h readable enough =
        ends fuel count _ _ (select_batch-take pre [] h)
        ∙ ap (λ c. some (so_far pre, ok c)) (omega arith)
        ∙ ap (λ l. some (so_far l, ok (count + 0))) (sym (h ∙ append_nil pre))
    rounds (suc fuel) count pre (x ∷ l) h readable enough =
        round fuel count _ _ _ (take m l) x (select_batch-take pre (x ∷ l) h) (
          rewrite_all-map rewrite f (x ∷ take m l)
            (readable.0, All-prefix _ (take m l) (drop m l) (split l readable.1)))
        ∙ ap
            (λ b.
              reencrypt_table legacy only_legacy id_of (suc m) rewrite fuel b
                (count + length (x ∷ take m l))
                (store_all id_of (map f (x ∷ take m l)) (so_far pre)))
            (last_id_of-append pre (take m l) x)
        ∙ ap
            (reencrypt_table legacy only_legacy id_of (suc m) rewrite fuel _
              (count + length (x ∷ take m l)))
            (store_all-append pre (x ∷ take m l) rows)
        ∙ rounds fuel (count + length (x ∷ take m l)) (pre ++ x ∷ take m l) (drop m l)
            (h
              ∙ ap (λ t. pre ++ x ∷ t) (sym (take-drop m l))
              ∙ sym (append_assoc pre (x ∷ take m l) (drop m l)))
            (All-suffix _ (take m l) (drop m l) (split l readable.1))
            (omega (arith, enough, length-drop-le m l))
        ∙ ap (λ c. some (so_far whole, ok c)) (omega (arith, length-split m l))
      where
        split :
            (l : List A)
            → All (λ row. rewrite row ≡ ok (f row)) l
            → All (λ row. rewrite row ≡ ok (f row)) (take m l ++ drop m l)
        split l = subst (All (λ row. rewrite row ≡ ok (f row))) (sym (take-drop m l))
