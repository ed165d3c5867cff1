-- ===== src/Retention/Grounds.antt =====
-- The backups that allow the deletion of others.
use mathlib.Core.Bool.{false≢true}
use ats_smart_backend.Prelude.{
  eq_iff, max, ◌||◌, subst, sym, any, IsOrdered, All-imp, ltb, leb, not, ◌&&◌, Option-cases, ℕ, ◌<◌,
  ◌≡◌, refl, ◌∙◌, ap, Bool, true, false, List, [], ◌∷◌, arith, All, ◌==◌, filter, Bool-cases, inl,
  inr, ◌⊎◌, ==_iff,
}
use ats_smart_backend.Retention.{
  same_item, Kind, full, resumes, wal, rank, BackupItem, of_kind, older_first, newest_created,
  is_before_floor, is_monthly_representative,
}

pub All-filter : {A : Type 0} (p : A → Bool) (l : List A) → All (λ x. p x ≡ true) (filter p l)
unfolding filter
All-filter p [] = tt
All-filter p (x ∷ l) = elim (Bool-cases (p x)) [
  | inl kept ↦ rw kept (kept, All-filter p l)
  | inr gone ↦ rw gone (All-filter p l)
]

pub All-map :
    {A : Type 0} (P Q : A → Type 0) (l : List A) → ((x : A) → P x → Q x) → All P l → All Q l
All-map P Q [] f h = tt
All-map P Q (x ∷ l) f h = (f x h.0, All-map P Q l f h.1)

pub full_snapshot : rank full < rank wal
unfolding rank
full_snapshot = omega arith

pub resumes_snapshot : rank resumes < rank wal
unfolding rank
resumes_snapshot = omega arith

pub All-of_kind :
    (kind : Kind) (items : List BackupItem)
    → All (λ item. rank item.kind ≡ rank kind) (of_kind kind items)
unfolding of_kind
All-of_kind kind items =
    All-map _ _ (of_kind kind items) (λ item e. (==_iff (rank item.kind) (rank kind)).0 e)
      (All-filter (λ item. rank item.kind == rank kind) items)

pub same_item_refl : (item : BackupItem) → same_item item item ≡ true
unfolding same_item
same_item_refl item = ground (arith, (eq_iff item.path item.path).1 refl)

same_item-created_at : (a b : BackupItem) → same_item a b ≡ true → a.created_at ≡ b.created_at
unfolding same_item
same_item-created_at a b h = ground arith

pub among-itself : (l : List BackupItem) → All (λ item. any (λ x. same_item x item) l ≡ true) l
unfolding any
among-itself [] = tt
among-itself (x ∷ l) =
    (ground (arith, same_item_refl x), All-imp _ _ l (λ item h. ground (arith, h)) (among-itself l))

-- A full backup that is newer than a moment, among backups of all kinds
unfoldable pub has_later_full : List BackupItem → ℕ → Bool
has_later_full items created_at =
    any (λ f. rank f.kind == rank full && ltb created_at f.created_at) items

unfoldable pub has_full : List BackupItem → Bool
has_full items = any (λ f. rank f.kind == rank full) items

before_max : (c x later : ℕ) → ltb c (max x later) ≡ true → (ltb c x ≡ true) ⊎ (ltb c later ≡ true)
before_max c x later h = ground arith

-- What is before the newest of some backups is before one of them.
pub before_newest :
    (c : ℕ) (l : List BackupItem)
    → is_before_floor (newest_created l) c ≡ true
    → (l ≡ []) ⊎ (any (λ f. ltb c f.created_at) l ≡ true)
unfolding is_before_floor newest_created any
before_newest c [] h = inl refl
before_newest c (x ∷ l) h = elim (Option-cases (newest_created l)) [
  | inl nothing ↦ inr (ap (λ b. b || any (λ f. ltb c f.created_at) l) (rw nothing at h))
  | inr (later, found) ↦ elim (before_max c x.created_at later (rw found at h)) [
    | inl before ↦ inr (ap (λ b. b || any (λ f. ltb c f.created_at) l) before)
    | inr before ↦ elim (before_newest c l (rw found before)) [
      | inl empty ↦ cc (sym found ∙ ap newest_created empty)
      | inr some_full ↦ inr (ground (arith, some_full))
    ]
  ]
]

module _ (month_of : ℕ → ℕ) where
  -- Another backup of a kind and of the month of an item, made no later than the item
  unfoldable pub has_earlier_in_month : Kind → List BackupItem → BackupItem → Bool
  has_earlier_in_month kind items item =
      any
        (λ r.
          rank r.kind == rank kind
          && (month_of r.created_at == month_of item.created_at
              && (leb r.created_at item.created_at && not (same_item r item))))
        items

  at_or_before :
      (a : ℕ) (item : BackupItem) (l : List BackupItem)
      → All (λ y. leb a y.created_at ≡ true) l
      → any (λ x. same_item x item) l ≡ true
      → leb a item.created_at ≡ true
  unfolding any
  at_or_before a item [] o h = absurd (false≢true h)
  at_or_before a item (x ∷ l) o h = elim (Bool-cases (same_item x item)) [
    | inl same ↦ subst (λ n. leb a n ≡ true) (same_item-created_at x item same) o.0
    | inr other ↦ at_or_before a item l o.1 (ground arith)
  ]

  pub not_first :
      (item : BackupItem) (l : List BackupItem)
      → IsOrdered older_first l
      → any (λ x. same_item x item) l ≡ true
      → is_monthly_representative month_of l item ≡ false
      → any
          (λ r.
            month_of r.created_at == month_of item.created_at
            && (leb r.created_at item.created_at && not (same_item r item)))
          l
        ≡ true
  unfolding any is_monthly_representative older_first
  not_first item [] o h k = h
  not_first item (f ∷ l) o h k =
      elim (Bool-cases (month_of f.created_at == month_of item.created_at)) [
        | inl same ↦
            let other : same_item f item ≡ false = rw same at k in
            let later : any (λ x. same_item x item) l ≡ true = ground arith in
            let before : leb f.created_at item.created_at ≡ true =
              at_or_before f.created_at item l o.0 later in
            rw (same, before, other) refl
        | inr apart ↦ elim (Bool-cases (same_item f item)) [
          | inl itself ↦ absurd (
              false≢true (
                sym apart
                ∙ ap (λ n. month_of n == month_of item.created_at)
                    (same_item-created_at f item itself)
                ∙ (==_iff _ _).1 refl))
          | inr other ↦ rw apart (not_first item l o.1 (ground arith) (rw apart at k))
        ]
      ]
