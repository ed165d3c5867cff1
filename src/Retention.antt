-- ===== src/Retention.antt =====
-- backup/retention.py: which backups of the off-site store are deleted. A moment is a number of seconds,
-- and the calendar month of a moment is a parameter.
pub mod Grounds
pub mod Policy
use ats_smart_backend.Prelude.{
  ℕ, ◌+◌, ◌-◌, ◌*◌, Bool, true, false, Option, none, some, List, [], ◌∷◌, ◌++◌, String, str_eq, ltb,
  leb, ◌==◌, max, if◌then◌else◌, ◌&&◌, ◌||◌, not, filter, sort_by,
}

pub data Kind : Type 0 where
  full : Kind
  resumes : Kind
  wal : Kind

-- the order of the kinds' names
unfoldable pub rank : Kind → ℕ
rank full = 0
rank resumes = 1
rank wal = 2

pub record BackupItem : Type 0 where
  pub kind : Kind
  pub path : String
  pub created_at : ℕ

abbrev pub day : ℕ
day = 24 * 3600

abbrev pub hourly_retention : ℕ
hourly_retention = 2 * day

abbrev pub daily_retention : ℕ
daily_retention = 30 * day

abbrev pub monthly_retention : ℕ
monthly_retention = 365 * day

-- The items of one kind, in order.
unfoldable pub of_kind : Kind → List BackupItem → List BackupItem
unfolding rank filter
of_kind kind items = filter (λ item. rank item.kind == rank kind) items

unfoldable pub older_first : BackupItem → BackupItem → Bool
older_first a b = leb a.created_at b.created_at

unfoldable pub by_kind : BackupItem → BackupItem → Bool
unfolding rank
by_kind a b =
    ltb (rank a.kind) (rank b.kind) || (rank a.kind == rank b.kind && leb a.created_at b.created_at)

-- The equality of two items that a set of them tests
unfoldable pub same_item : BackupItem → BackupItem → Bool
unfolding rank
same_item a b = rank a.kind == rank b.kind && (str_eq a.path b.path && a.created_at == b.created_at)

-- `max(fulls) if fulls else None`
unfoldable pub newest_created : List BackupItem → Option ℕ
newest_created [] = none
newest_created (item ∷ items) = elim (newest_created items) [
  | none ↦ some item.created_at
  | some later ↦ some (max item.created_at later)
]

unfoldable pub is_before_floor : Option ℕ → ℕ → Bool
is_before_floor none created_at = true
is_before_floor (some wal_floor) created_at = ltb created_at wal_floor

module _ (month_of : ℕ → ℕ) where
  -- Is the item the first one of its month in the ordered list?
  unfoldable pub is_monthly_representative : List BackupItem → BackupItem → Bool
  unfolding same_item
  is_monthly_representative [] item = false
  is_monthly_representative (first ∷ ordered) item =
      let later = is_monthly_representative ordered item in
      if month_of first.created_at == month_of item.created_at then same_item first item else later

  module _ (now hourly daily monthly : ℕ) where
    unfoldable pub keep : List BackupItem → BackupItem → Bool
    unfolding is_monthly_representative
    keep ordered item =
        leb (now - item.created_at) daily
        || (is_monthly_representative ordered item && leb (now - item.created_at) monthly)

    -- The loop over the ordered list: the last item is the newest, and is kept.
    unfoldable pub expired_of : List BackupItem → List BackupItem → List BackupItem
    unfolding keep
    expired_of ordered [] = []
    expired_of ordered (newest ∷ []) = []
    expired_of ordered (item ∷ next ∷ items) =
        let rest = expired_of ordered (next ∷ items) in
        if keep ordered item then rest else item ∷ rest

    unfoldable pub expired_snapshots : List BackupItem → List BackupItem
    unfolding expired_of sort_by older_first
    expired_snapshots snapshots =
        let ordered = sort_by older_first snapshots in expired_of ordered ordered

    unfoldable pub expired_wal : Option ℕ → BackupItem → Bool
    unfolding is_before_floor rank
    expired_wal wal_floor item =
        rank item.kind == rank wal
        && (ltb hourly (now - item.created_at) && is_before_floor wal_floor item.created_at)

    unfoldable pub plan_deletions : List BackupItem → List BackupItem
    unfolding expired_snapshots expired_wal of_kind newest_created sort_by by_kind filter
    plan_deletions items = sort_by by_kind (
        filter (expired_wal (newest_created (of_kind full items))) items
        ++ (expired_snapshots (of_kind full items) ++ expired_snapshots (of_kind resumes items)))
