-- ===== src/Queue.antt =====
-- app/core/queue.py: where a task is put, and with which limits. Redis answers for a number of commands
-- that is given, and fails from then on; an enqueue, and one pipeline of enqueue_many, is one command, done
-- as a whole or not at all. A function is its module and a code.
use ats_smart_backend.Prelude.{
  codes, ℕ, zero, suc, ◌+◌, ◌-◌, ◌*◌, ◌/◌, Option, none, some, List, [], ◌∷◌, ◌++◌, map, length,
  take, drop,
}
use ats_smart_backend.Search.{Text}
use ats_smart_backend.Matching.{lookup}
pub mod Bulk

pub record Retry : Type 0 where
  pub max : ℕ
  pub interval : List ℕ

pub record QueuePolicy : Type 0 where
  pub queue_name : Text
  pub job_timeout : ℕ
  pub retry : Retry

abbrev pub result_ttl_seconds : ℕ
result_ttl_seconds = 600

abbrev pub failure_ttl_seconds : ℕ
failure_ttl_seconds = 7 * 24 * 3600

abbrev pub bulk_chunk_size : ℕ
bulk_chunk_size = 500

abbrev pub transient_failure_retry : Retry
transient_failure_retry = record { max = 3; interval = 30 ∷ 120 ∷ 600 ∷ [] }

abbrev pub notification_policy : QueuePolicy
notification_policy = record {
  queue_name = codes "notifications";
  job_timeout = 120;
  retry = transient_failure_retry;
}

abbrev pub resume_policy : QueuePolicy
resume_policy = record {
  queue_name = codes "resumes";
  job_timeout = 300;
  retry = record { max = 2; interval = 60 ∷ 300 ∷ [] };
}

abbrev pub genai_policy : QueuePolicy
genai_policy = record {
  queue_name = codes "genai";
  job_timeout = 600;
  retry = record { max = 2; interval = 30 ∷ 120 ∷ [] };
}

abbrev pub default_policy : QueuePolicy
default_policy = record {
  queue_name = codes "default";
  job_timeout = 180;
  retry = record { max = 2; interval = 30 ∷ 120 ∷ [] };
}

abbrev pub policy_by_module : List (Text × QueuePolicy)
policy_by_module =
    (codes "app.tasks.notifications", notification_policy)
    ∷ (codes "app.tasks.resume_processing", resume_policy)
    ∷ (codes "app.tasks.genai", genai_policy)
    ∷ []

pub record Function : Type 0 where
  pub module_name : Text
  pub code : ℕ

-- `kwargs.pop(name, default)` and `kwargs.setdefault(name, default)`
unfoldable pub get_or : {A : Type 0} → A → Option A → A
get_or default none = default
get_or default (some a) = a

unfoldable pub policy_for : Function → QueuePolicy
unfolding lookup get_or
policy_for func = get_or default_policy (lookup func.module_name policy_by_module)

-- The arguments by keyword that say how a task is run
pub record Options : Type 0 where
  pub queue_name : Option Text
  pub retry : Option Retry
  pub job_timeout : Option ℕ
  pub result_ttl : Option ℕ
  pub failure_ttl : Option ℕ

pub record Job : Type 0 where
  pub queue_name : Text
  pub func : Function
  pub args : List ℕ
  pub retry : Retry
  pub job_timeout : ℕ
  pub result_ttl : ℕ
  pub failure_ttl : ℕ

-- `_enqueue_options`, and the job that the options are for
unfoldable pub with_options : Function → Options → List ℕ → Job
unfolding policy_for get_or
with_options func options args =
    let policy = policy_for func in
    record {
      queue_name = get_or policy.queue_name options.queue_name;
      func = func;
      args = args;
      retry = get_or policy.retry options.retry;
      job_timeout = get_or policy.job_timeout options.job_timeout;
      result_ttl = get_or result_ttl_seconds options.result_ttl;
      failure_ttl = get_or failure_ttl_seconds options.failure_ttl;
    }

abbrev pub only_queue : Text → Options
only_queue name = record {
  queue_name = some name;
  retry = none;
  job_timeout = none;
  result_ttl = none;
  failure_ttl = none;
}

-- The jobs of Redis, the last one last, and whether the new job has an id
unfoldable pub enqueue_task : ℕ → Function → List ℕ → Options → List Job → List Job × Option Job
unfolding with_options
enqueue_task zero func args options jobs = (jobs, none)
enqueue_task (suc answers) func args options jobs =
    (jobs ++ (with_options func options args ∷ []), some (with_options func options args))

-- The loop over `range(0, len(args_list), _BULK_CHUNK_SIZE)`, with the chunks that are left; none is an
-- exception.
unfoldable pub enqueue_chunks :
    Function → Text → List (List ℕ) → ℕ → ℕ → ℕ → ℕ → List Job → List Job × Option ℕ
unfolding with_options
enqueue_chunks func queue_name args_list zero start answers total jobs = (jobs, some total)
enqueue_chunks func queue_name args_list (suc chunks) start zero total jobs = (jobs, none)
enqueue_chunks func queue_name args_list (suc chunks) start (suc answers) total jobs =
    let chunk = take bulk_chunk_size (drop start args_list) in
    enqueue_chunks func queue_name args_list chunks (start + bulk_chunk_size) answers
      (total + length chunk) (jobs ++ map (with_options func (only_queue queue_name)) chunk)

unfoldable pub enqueue_bulk_sync :
    ℕ → Function → List (List ℕ) → Text → List Job → List Job × Option ℕ
unfolding enqueue_chunks
enqueue_bulk_sync answers func args_list queue_name jobs =
    enqueue_chunks func queue_name args_list
      ((length args_list + (bulk_chunk_size - 1)) / bulk_chunk_size) 0 answers 0 jobs

unfoldable pub enqueue_bulk : ℕ → Function → List (List ℕ) → Text → List Job → List Job × ℕ
unfolding enqueue_bulk_sync get_or
enqueue_bulk answers func args_list queue_name jobs =
    let done = enqueue_bulk_sync answers func args_list queue_name jobs in (done.0, get_or 0 done.1)
