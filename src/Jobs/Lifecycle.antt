-- ===== src/Jobs/Lifecycle.antt =====
-- A job is started by one worker.
use incus.Base.{
  ℕ, ◌≤◌, refl, Bool, true, false, Option, none, some, List, arith, ◌==◌, if◌then◌else◌,
}
use incus.Base.Table.{
  find, find-update_key, find-update_where, count_where-hits, update_where-IsKeyed,
}
use incus.Models.{ProvisioningJob, JobStatus, Text, is_queued}
use incus.Store.{Tables, Conn, M, ◌>>◌, pure, conn_of}
use incus.Store.Budget.{took, Spends, effects, effects-le}
use incus.Jobs.{mark_running, finish, startable, started, finished}
use incus.Jobs.Refund.{HasKeyedJobs}

-- The states that `finalize`, the sweeper and the handlers finish a job in.
pub data Final : Type 0 where
  succeeded failed partial : Final

pub status_of : Final → JobStatus
status_of Final.succeeded = JobStatus.succeeded
status_of Final.failed = JobStatus.failed
status_of Final.partial = JobStatus.partial

-- What the workers and the sweeper do to the status of a job.
pub data Move : Type 0 where
  starts : Move
  finishes : Final → Option Text → Move

-- A move at its time; true for a worker that may run the job.
pub move : ℕ → ℕ × Move → M Bool
unfolding status_of
move id (now, starts) = mark_running id now >> pure true
move id (now, finishes f error) = finish id (status_of f) error now >> pure false

abbrev queued_jobs : Option ProvisioningJob → ℕ
queued_jobs none = 0
queued_jobs (some j) = if is_queued j.status then 1 else 0

abbrev queued_of : ℕ → Tables → ℕ
queued_of id t = queued_jobs (find ProvisioningJob.id id t.jobs)

move-Spends :
    (id : ℕ) (m : ℕ × Move) (c : Conn)
    → HasKeyedJobs c.tables
    → Spends
        (queued_of id)
        HasKeyedJobs
        c.tables
        (took (move id m c))
        (conn_of (move id m c)).tables
unfolding move mark_running finish
move-Spends id (now, starts) c keyed =
    let key = ProvisioningJob.id in
    ground (
      arith,
      find-update_where key id (startable id) (started now) c.tables.jobs (λ j. refl),
      update_where-IsKeyed key (startable id) (started now) c.tables.jobs (λ j. refl) keyed,
      count_where-hits key id (startable id) c.tables.jobs (λ j h. ground arith) keyed,
    )
move-Spends id (now, finishes f error) c keyed =
    let key = ProvisioningJob.id in
    let is_it : ProvisioningJob → Bool = λ j. j.id == id in
    let done = finished (status_of f) error now in
    ground (
      arith,
      find-update_key key id id done c.tables.jobs (λ j. refl),
      update_where-IsKeyed key is_it done c.tables.jobs (λ j. refl) keyed,
    )

queued_le_one : (o : Option ProvisioningJob) → queued_jobs o ≤ 1
queued_le_one o = ground arith

-- However the workers, their retries and the sweeper interleave, and whatever fails, at most one
-- worker is let through to run a job.
pub started_once :
    (id : ℕ) (moves : List (ℕ × Move)) (c : Conn)
    → HasKeyedJobs c.tables
    → effects (move id) moves c ≤ 1
started_once id moves c keyed = omega (
  arith,
  effects-le (move id) (queued_of id) HasKeyedJobs (move-Spends id) moves c keyed,
  queued_le_one (find ProvisioningJob.id id c.tables.jobs),
)
