-- ===== src/Tests/Retention.antt =====
-- The backups of a service that stopped long ago, and the plan for them.
use ats_smart_backend.Prelude.{ℕ, ◌*◌, ◌/◌, ◌<◌, ◌≡◌, refl, List, [], ◌∷◌, All, length}
use ats_smart_backend.Retention.{
  BackupItem, full, wal, resumes, plan_deletions, expired_snapshots, hourly_retention,
  daily_retention, monthly_retention, day, Kind,
}
use ats_smart_backend.Retention.Policy.{MayGo, plan_deletions-MayGo, expired_snapshots-fewer}

-- months of thirty days
abbrev month_of : ℕ → ℕ
month_of t = t / (30 * day)

abbrev item : Kind → ℕ → BackupItem
item kind d = record { kind = kind; path = "p"; created_at = d * day }

abbrev items : List BackupItem
items = item full 1 ∷ item full 3 ∷ item full 40 ∷ item wal 39 ∷ item wal 41 ∷ item resumes 2 ∷ []

planned :
    length
      (plan_deletions month_of (100 * day) hourly_retention daily_retention monthly_retention items)
    ≡ 2
unfolding plan_deletions
planned = refl

plan_deletions-MayGo_example :
    All
      (MayGo month_of (100 * day) hourly_retention daily_retention monthly_retention items)
      (plan_deletions month_of (100 * day) hourly_retention daily_retention monthly_retention items)
plan_deletions-MayGo_example =
    plan_deletions-MayGo month_of (100 * day) hourly_retention daily_retention monthly_retention
      items

expired_snapshots-fewer_example :
    length (
      expired_snapshots month_of
        (999 * day)
        hourly_retention
        daily_retention
        monthly_retention
        (item full 1 ∷ item full 3 ∷ []))
    < length (item full 1 ∷ item full 3 ∷ [])
expired_snapshots-fewer_example =
    expired_snapshots-fewer month_of (999 * day) hourly_retention daily_retention monthly_retention
      (item full 1) (item full 3 ∷ [])
