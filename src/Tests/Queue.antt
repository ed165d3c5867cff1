-- ===== src/Tests/Queue.antt =====
-- Bulks of one chunk and of two, with and without Redis.
use ats_smart_backend.Prelude.{
  codes, ℕ, zero, suc, ◌*◌, ◌≡◌, refl, List, [], ◌∷◌, ◌++◌, map, length, take, leb, if◌then◌else◌,
}
use ats_smart_backend.Queue.{Function, with_options, only_queue, enqueue_bulk, policy_for}
use ats_smart_backend.Queue.Bulk.{enqueue_bulk-jobs}

abbrev send_bulk_email : Function
send_bulk_email = record { module_name = codes "app.tasks.notifications"; code = 4 }

abbrev numbered : ℕ → List (List ℕ)
numbered zero = []
numbered (suc n) = (n ∷ []) ∷ numbered n

retried : (policy_for send_bulk_email).retry.interval ≡ 30 ∷ 120 ∷ 600 ∷ []
unfolding policy_for
retried = refl

all_sent : (enqueue_bulk 2 send_bulk_email (numbered 501) (codes "bulk") []).1 ≡ 501
unfolding enqueue_bulk
all_sent = refl

-- The second pipeline fails: 500 jobs are in Redis, and the answer is 0.
half_sent :
    (length (enqueue_bulk 1 send_bulk_email (numbered 501) (codes "bulk") []).0 ≡ 500)
    × ((enqueue_bulk 1 send_bulk_email (numbered 501) (codes "bulk") []).1 ≡ 0)
unfolding enqueue_bulk
half_sent = (refl, refl)

enqueue_bulk-jobs_example : enqueue_bulk 1 send_bulk_email (numbered 501) (codes "bulk") [] ≡ (
  []
      ++ map
          (with_options send_bulk_email (only_queue (codes "bulk")))
          (take (1 * 500) (numbered 501)),
  if leb (length (numbered 501)) (1 * 500) then length (numbered 501) else 0,
)
enqueue_bulk-jobs_example = enqueue_bulk-jobs send_bulk_email (codes "bulk") (numbered 501) 1 []
