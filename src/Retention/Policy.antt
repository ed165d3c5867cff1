-- ===== src/Retention/Policy.antt =====
-- What a planned deletion may delete, and that some snapshot always stays.
use ats_smart_backend.Prelude.{
  All-and, sym, any, any-sort_by, any-filter, IsOrdered-sort_by, ltb, leb, not, ◌&&◌, ℕ, ◌-◌, ◌<◌,
  ◌≤◌, ◌≡◌, refl, ◌∙◌, Bool, true, false, List, [], ◌∷◌, arith, All, All-append, ◌==◌, filter,
  length, Bool-cases, inl, inr, ◌⊎◌, sort_by, All-sort_by, length-sort_by,
}
use ats_smart_backend.Retention.{
  same_item, Kind, full, resumes, wal, rank, BackupItem, of_kind, older_first, by_kind,
  newest_created, is_before_floor, is_monthly_representative, keep, expired_of, expired_snapshots,
  expired_wal, plan_deletions,
}
use ats_smart_backend.Retention.Grounds.{
  All-filter, All-map, full_snapshot, resumes_snapshot, All-of_kind, among-itself, has_later_full,
  has_full, before_newest, has_earlier_in_month, not_first,
}

older_first-total : (a b : BackupItem) → older_first a b ≡ false → older_first b a ≡ true
unfolding older_first
older_first-total a b h = ground arith

older_first-transitive :
    (a b c : BackupItem) → older_first a b ≡ true → older_first b c ≡ true → older_first a c ≡ true
unfolding older_first
older_first-transitive a b c h k = ground arith

any-none : {A : Type 0} (p : A → Bool) (l : List A) → filter p l ≡ [] → any p l ≡ false
unfolding filter any
any-none p [] h = refl
any-none p (x ∷ l) h = elim (Bool-cases (p x)) [
  | inl kept ↦ cc (rw kept at h)
  | inr gone ↦ rw gone (any-none p l (rw gone at h))
]

module _ (month_of : ℕ → ℕ) (now hourly daily monthly : ℕ) where
  All-expired_of :
      (K P : BackupItem → Type 0) (ordered l : List BackupItem)
      → All K l
      → ((item : BackupItem)
          → K item
          → keep month_of now hourly daily monthly ordered item ≡ false
          → P item)
      → All P (expired_of month_of now hourly daily monthly ordered l)
  unfolding expired_of
  All-expired_of K P ordered [] k h = tt
  All-expired_of K P ordered (x ∷ []) k h = tt
  All-expired_of K P ordered (x ∷ y ∷ l) k h =
      elim (Bool-cases (keep month_of now hourly daily monthly ordered x)) [
        | inl stays ↦ rw stays (All-expired_of K P ordered (y ∷ l) k.1 h)
        | inr goes ↦ rw goes (h x k.0 goes, All-expired_of K P ordered (y ∷ l) k.1 h)
      ]

  length-expired_of :
      (ordered l : List BackupItem) (x : BackupItem)
      → length (expired_of month_of now hourly daily monthly ordered (x ∷ l)) ≤ length l
  unfolding expired_of
  length-expired_of ordered [] x = omega arith
  length-expired_of ordered (y ∷ l) x = ground (arith, length-expired_of ordered l y)

  keep-false :
      (ordered : List BackupItem) (item : BackupItem)
      → keep month_of now hourly daily monthly ordered item ≡ false
      → (daily < now - item.created_at)
        × (is_monthly_representative month_of ordered item ≡ true → monthly < now - item.created_at)
  unfolding keep
  keep-false ordered item goes = ground arith

  -- What allows the deletion of one of `items`, by its kind
  SnapshotMayGo : Kind → List BackupItem → BackupItem → Type 0
  SnapshotMayGo kind items item =
      (daily < now - item.created_at)
      × ((monthly < now - item.created_at) ⊎ (has_earlier_in_month month_of kind items item ≡ true))

  MayGoAs : List BackupItem → BackupItem → Kind → Type 0
  MayGoAs items item wal =
      (hourly < now - item.created_at)
      × ((has_full items ≡ false) ⊎ (has_later_full items item.created_at ≡ true))
  MayGoAs items item full = SnapshotMayGo full items item
  MayGoAs items item resumes = SnapshotMayGo resumes items item

  unfoldable pub MayGo : List BackupItem → BackupItem → Type 0
  unfolding MayGoAs SnapshotMayGo
  MayGo items item = MayGoAs items item item.kind

  -- One of some snapshots that is not the first of its month has an earlier one among them.
  earlier_in_month :
      (kind : Kind) (items : List BackupItem) (item : BackupItem)
      → any (λ x. same_item x item) (sort_by older_first (of_kind kind items)) ≡ true
      → is_monthly_representative month_of (sort_by older_first (of_kind kind items)) item ≡ false
      → has_earlier_in_month month_of kind items item ≡ true
  unfolding has_earlier_in_month of_kind
  earlier_in_month kind items item among later =
      sym (any-filter (earlier item) (λ r. rank r.kind == rank kind) items)
      ∙ sym (any-sort_by older_first (earlier item) (of_kind kind items))
      ∙ not_first month_of item (sort_by older_first (of_kind kind items))
          (IsOrdered-sort_by older_first older_first-total older_first-transitive
            (of_kind kind items))
          among later
    where
      earlier : BackupItem → BackupItem → Bool
      earlier item r =
          month_of r.created_at == month_of item.created_at
          && (leb r.created_at item.created_at && not (same_item r item))

  snapshot-MayGo :
      (kind : Kind) (items : List BackupItem) (item : BackupItem)
      → any (λ x. same_item x item) (sort_by older_first (of_kind kind items)) ≡ true
      → keep month_of now hourly daily monthly (sort_by older_first (of_kind kind items)) item
        ≡ false
      → SnapshotMayGo kind items item
  unfolding SnapshotMayGo
  snapshot-MayGo kind items item among goes =
      let tested = keep-false (sort_by older_first (of_kind kind items)) item goes in
      elim (Bool-cases
        (is_monthly_representative month_of (sort_by older_first (of_kind kind items)) item)) [
          | inl first ↦ (tested.0, inl (tested.1 first))
          | inr later ↦ (tested.0, inr (earlier_in_month kind items item among later))
        ]

  as_kind :
      (items : List BackupItem) (item : BackupItem) (k kind : Kind)
      → rank k ≡ rank kind
      → rank kind < rank wal
      → SnapshotMayGo kind items item
      → MayGoAs items item k
  unfolding MayGoAs rank
  as_kind items item full full e h m = m
  as_kind items item full resumes e h m = absurd (omega arith)
  as_kind items item full wal e h m = absurd (omega arith)
  as_kind items item resumes full e h m = absurd (omega arith)
  as_kind items item resumes resumes e h m = m
  as_kind items item resumes wal e h m = absurd (omega arith)
  as_kind items item wal full e h m = absurd (omega arith)
  as_kind items item wal resumes e h m = absurd (omega arith)
  as_kind items item wal wal e h m = absurd (omega arith)

  IsListed : Kind → List BackupItem → BackupItem → Type 0
  IsListed kind items item =
      (rank item.kind ≡ rank kind)
      × (any (λ x. same_item x item) (sort_by older_first (of_kind kind items)) ≡ true)

  candidates :
      (kind : Kind) (items : List BackupItem)
      → All (IsListed kind items) (sort_by older_first (of_kind kind items))
  unfolding IsListed
  candidates kind items =
      All-and _ _ (sort_by older_first (of_kind kind items))
        (All-sort_by older_first _ (of_kind kind items) (All-of_kind kind items))
        (among-itself (sort_by older_first (of_kind kind items)))

  snapshots-MayGo :
      (kind : Kind) (items : List BackupItem)
      → rank kind < rank wal
      → All (MayGo items) (expired_snapshots month_of now hourly daily monthly (of_kind kind items))
  unfolding expired_snapshots MayGo IsListed
  snapshots-MayGo kind items snapshot =
      All-expired_of (IsListed kind items) (MayGo items) _ _ (candidates kind items) (λ item c goes.
        as_kind items item item.kind kind c.0 snapshot (snapshot-MayGo kind items item c.1 goes))

  behind_a_full :
      (items : List BackupItem) (c : ℕ)
      → is_before_floor (newest_created (of_kind full items)) c ≡ true
      → (has_full items ≡ false) ⊎ (has_later_full items c ≡ true)
  unfolding has_full has_later_full of_kind
  behind_a_full items c h = elim (before_newest c (of_kind full items) h) [
    | inl without ↦ inl (any-none (λ f. rank f.kind == rank full) items without)
    | inr later ↦
        inr
          (sym (any-filter (λ f. ltb c f.created_at) (λ f. rank f.kind == rank full) items) ∙ later)
  ]

  wal-MayGoAs :
      (items : List BackupItem) (item : BackupItem) (kind : Kind)
      → rank kind ≡ rank wal
      → (hourly < now - item.created_at)
      → is_before_floor (newest_created (of_kind full items)) item.created_at ≡ true
      → MayGoAs items item kind
  unfolding MayGoAs rank
  wal-MayGoAs items item full e h k = absurd (omega arith)
  wal-MayGoAs items item resumes e h k = absurd (omega arith)
  wal-MayGoAs items item wal e h k = (h, behind_a_full items item.created_at k)

  wal-MayGo :
      (items : List BackupItem) (item : BackupItem)
      → expired_wal month_of now hourly daily monthly (newest_created (of_kind full items)) item
        ≡ true
      → MayGo items item
  unfolding MayGo expired_wal
  wal-MayGo items item e =
      wal-MayGoAs items item item.kind (ground arith) (ground arith) (ground arith)

  -- Every backup that the plan deletes may go. A WAL segment is older than the hourly limit, and a full
  -- backup that was made after it is there, or no full backup at all; a full backup or a resume archive
  -- is older than the daily limit, and it is older than the monthly one or there is another backup of
  -- its kind and month that was made no later.
  pub plan_deletions-MayGo :
      (items : List BackupItem)
      → All (MayGo items) (plan_deletions month_of now hourly daily monthly items)
  unfolding plan_deletions
  plan_deletions-MayGo items = All-sort_by by_kind (MayGo items) _ (
      All-append (MayGo items) _ _
        (All-map _ _ _ (wal-MayGo items) (
          All-filter
            (expired_wal month_of now hourly daily monthly (newest_created (of_kind full items)))
            items))
        (All-append (MayGo items) _ _ (snapshots-MayGo full items full_snapshot)
          (snapshots-MayGo resumes items resumes_snapshot)))

  expired_of-fewer :
      (ordered l : List BackupItem)
      → 0 < length l
      → length (expired_of month_of now hourly daily monthly ordered l) < length l
  expired_of-fewer ordered [] h = absurd (omega arith)
  expired_of-fewer ordered (y ∷ l) h = omega (arith, length-expired_of ordered l y)

  -- Of the snapshots of one kind, if there are any, at least one is never expired, however old they are.
  pub expired_snapshots-fewer :
      (x : BackupItem) (snapshots : List BackupItem)
      → length (expired_snapshots month_of now hourly daily monthly (x ∷ snapshots))
        < length (x ∷ snapshots)
  unfolding expired_snapshots
  expired_snapshots-fewer x snapshots = omega (
    arith,
    length-sort_by older_first (x ∷ snapshots),
    expired_of-fewer (sort_by older_first (x ∷ snapshots)) (sort_by older_first (x ∷ snapshots))
        (omega (arith, length-sort_by older_first (x ∷ snapshots))),
  )
