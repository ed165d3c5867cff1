-- ===== src/Pagination/Walk.antt =====
-- Following `next_cursor` from the first page reads every row once, in order.
use ats_smart_backend.Prelude.{
  append_assoc, ℕ, zero, suc, ◌<◌, ◌≤◌, ◌≡◌, refl, sym, ◌∙◌, ap, subst, Bool, true, false, Option,
  none, some, List, [], ◌∷◌, ◌++◌, arith, ltb, not, filter, take, drop, length,
}
use ats_smart_backend.Exec.{Result, ok, raised}
use ats_smart_backend.Pagination.Order.{
  Key, before, order_by, IsOrdered, HasUniqueKeys, order_by-IsOrdered,
}
use ats_smart_backend.Pagination.Beyond.{
  take-drop, take-take, ltb-length-take, length-drop-le, drop-all, last-final, initial-final,
  filter-beyond, filter-order_by, final, initial,
}
use ats_smart_backend.Pagination.{
  next, CursorPage, InvalidCursor, beyond, fetch, page_of, page_at, cursor_if, paginate_by_cursor,
  exists_beyond,
}

module _ {Token A : Type 0} (key : A → Key) (encode : Key → Token) (decode : Token → Option Key)
    (descending : Bool) (limit : ℕ) (rows : List A) where
  page : Option Token → Result InvalidCursor (CursorPage Token A)
  unfolding paginate_by_cursor
  page cursor =
      paginate_by_cursor key encode decode
        (record { cursor = cursor; direction = next; limit = limit }) descending rows

  -- A client that follows `next_cursor`, `fuel` pages at most.
  unfoldable pub walk : ℕ → Option Token → List A
  unfolding page
  walk zero cursor = []
  walk (suc fuel) cursor = elim (page cursor) [
    | raised e ↦ []
    | ok p ↦ p.items ++ (elim p.next_cursor [ none ↦ [] | some token ↦ walk fuel (some token) ])
  ]

  -- The rest of the walk after a page.
  onward : ℕ → CursorPage Token A → List A
  onward fuel p =
      p.items ++ (elim p.next_cursor [ none ↦ [] | some token ↦ walk fuel (some token) ])

  Reads : ℕ → Type 0
  Reads fuel =
      (pre post : List A) (x : A)
      → order_by key descending rows ≡ pre ++ x ∷ post
      → length post ≤ fuel
      → walk fuel (some (encode (key x))) ≡ post

  regroup :
      (pre : List A) (x : A) (l rest : List A)
      → pre ++ ((x ∷ l) ++ rest) ≡ (pre ++ initial x l) ++ final x l ∷ rest
  regroup pre x l rest =
      ap (λ t. pre ++ t)
        (sym (ap (λ t. t ++ rest) (initial-final x l))
          ∙ append_assoc (initial x l) (final x l ∷ []) rest)
      ∙ sym (append_assoc pre (initial x l) (final x l ∷ rest))

  -- A page of the rows `x ∷ l` that are followed by `rest`, and tells whether there are any.
  onward-items :
      (fuel : ℕ) (pre l rest : List A) (x : A) (more : Bool) (previous : Key → Bool)
      → Reads fuel
      → order_by key descending rows ≡ pre ++ ((x ∷ l) ++ rest)
      → length rest ≤ fuel
      → (more ≡ false → rest ≡ [])
      → onward fuel (page_of key encode decode (x ∷ l) (λ k. more) previous) ≡ (x ∷ l) ++ rest
  unfolding onward page_of cursor_if Reads
  onward-items fuel pre l rest x true previous reads whole enough done =
      ap (λ t. (x ∷ l) ++ t)
        (ap (λ t. walk fuel (some (encode (key t)))) (last-final x l)
          ∙ reads (pre ++ initial x l) rest (final x l) (whole ∙ regroup pre x l rest) enough)
  onward-items fuel pre l rest x false previous reads whole enough done =
      ap (λ t. (x ∷ l) ++ t) (sym (done refl))

  onward-page :
      (fuel n : ℕ) (pre post : List A) (previous : Key → Bool)
      → Reads fuel
      → order_by key descending rows ≡ pre ++ post
      → length post ≤ suc fuel
      → onward fuel
          (page_of key encode decode (take (suc n) post) (λ k. ltb (suc n) (length post)) previous)
        ≡ post
  unfolding onward page_of
  onward-page fuel n pre [] previous reads whole enough = refl
  onward-page fuel n pre (x ∷ l) previous reads whole enough =
      onward-items fuel pre (take n l) (drop n l) x (ltb (suc n) (length (x ∷ l))) previous reads
        (whole ∙ ap (λ t. pre ++ (x ∷ t)) (sym (take-drop n l))) (omega (arith, length-drop-le n l))
        (λ e. drop-all n l (ground arith))
      ∙ ap (λ t. x ∷ t) (take-drop n l)

  onward-limit :
      (fuel m : ℕ) (pre post : List A) (previous : Key → Bool)
      → 0 < m
      → Reads fuel
      → order_by key descending rows ≡ pre ++ post
      → length post ≤ suc fuel
      → onward fuel (
          page_of key encode decode
            (take m (take (suc m) post))
            (λ k. ltb m (length (take (suc m) post)))
            previous)
        ≡ post
  onward-limit fuel zero pre post previous positive reads whole enough = absurd (omega arith)
  onward-limit fuel (suc n) pre post previous positive reads whole enough =
      ap
        (λ t. onward fuel (
          page_of key encode decode t (λ k. ltb (suc n) (length (take (suc (suc n)) post)))
            previous))
        (take-take (suc n) post)
      ∙ ap (λ b. onward fuel (page_of key encode decode (take (suc n) post) (λ k. b) previous))
          (ltb-length-take (suc n) post)
      ∙ onward-page fuel n pre post previous reads whole enough

  walk-ok :
      (fuel : ℕ) (cursor : Option Token) (p : CursorPage Token A)
      → page cursor ≡ ok p
      → walk (suc fuel) cursor ≡ onward fuel p
  unfolding walk onward
  walk-ok fuel cursor p h = rw (h, walk) refl

  module _ (decode-encode : (k : Key) → decode (encode k) ≡ some k) (positive : 0 < limit)
      (unique : HasUniqueKeys key descending rows) where
    page-beyond :
        (k : Key)
        → page (some (encode k))
          ≡ ok (page_at key encode decode next true (beyond k) limit descending rows)
    unfolding page paginate_by_cursor
    page-beyond k = rw (decode-encode k, page, paginate_by_cursor) refl

    -- The rows that the query beyond a row finds are those that follow it.
    beyond-row :
        (pre post : List A) (x : A)
        → order_by key descending rows ≡ pre ++ x ∷ post
        → order_by key descending (filter (λ row. before descending (key x) (key row)) rows) ≡ post
    beyond-row pre post x whole =
        filter-order_by key descending (λ row. before descending (key x) (key row)) rows unique
        ∙ ap (filter (λ row. before descending (key x) (key row))) whole
        ∙ filter-beyond key descending pre post x
            (subst (IsOrdered key descending) whole (order_by-IsOrdered key descending rows unique))

    walk-Reads : (fuel : ℕ) → Reads fuel
    unfolding Reads walk page_at fetch
    walk-Reads zero pre [] x whole enough = refl
    walk-Reads zero pre (y ∷ post) x whole enough = absurd (omega arith)
    walk-Reads (suc fuel) pre post x whole enough =
        walk-ok fuel (some (encode (key x))) _ (page-beyond (key x))
        ∙ ap
            (λ l. onward fuel (
              page_of key encode decode (take limit (take (suc limit) l))
                (λ k. ltb limit (length (take (suc limit) l)))
                (λ k. exists_beyond key encode decode (not descending) k rows)))
            (beyond-row pre post x whole)
        ∙ onward-limit fuel limit (pre ++ (x ∷ [])) post _ positive (walk-Reads fuel)
            (whole ∙ sym (append_assoc pre (x ∷ []) post)) enough

    -- Reading every page gives every row, once and in order: for rows of unique keys, pages of one row at
    -- least, and cursors that decode to what they encode, a client that starts without a cursor and
    -- follows `next_cursor` collects the whole ordered query, in as many requests as it has rows at most.
    pub walk-order_by :
        (fuel : ℕ)
        → length (order_by key descending rows) ≤ suc fuel
        → walk (suc fuel) none ≡ order_by key descending rows
    unfolding page paginate_by_cursor page_at fetch
    walk-order_by fuel enough =
        walk-ok fuel none _ refl
        ∙ onward-limit fuel limit [] (order_by key descending rows) (λ k. false) positive
            (walk-Reads fuel) refl enough
