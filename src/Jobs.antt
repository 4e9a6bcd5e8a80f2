-- ===== src/Jobs.antt =====
-- The provisioning jobs and their steps (incus-admin/internal/repository/provisioning_job.go).
pub mod Refund
pub mod Lifecycle
use incus.Base.{
  ℕ, suc, String, Bool, true, false, not, ◌&&◌, Option, none, some, List, [], ◌∷◌, if◌then◌else◌,
  ltb, leb, ◌==◌, is_some,
}
use incus.Base.Int.{ℤ, pos, negsuc, ltb_ℤ}
use incus.Base.Table.{find, first_where, select_where, update_where, count_where}
use incus.Models.{
  ProvisioningJob, ProvisioningJobStep, JobKind, JobStatus, StepStatus, TxType, Text, is_queued,
  is_unfinished,
}
use incus.Store.{
  Tables, M, ok, err, foreign_key, unique, not_queued, pure, raise, wrap, statement, insert, ◌>>=◌,
  ◌>>◌, commit, rollback, transaction, has_user,
}
use incus.Users.{credit, journal}

unfoldable pub create : ℕ → JobKind → ℕ → ℕ → Option ℕ → Option ℕ → String → M ProvisioningJob
create now kind user_id cluster_id order_id vm_id target_name = wrap "insert provisioning_job" (
    insert λ id t.
      let j : ProvisioningJob = record {
        id = id;
        kind = kind;
        user_id = user_id;
        cluster_id = cluster_id;
        order_id = order_id;
        vm_id = vm_id;
        target_name = target_name;
        status = JobStatus.queued;
        error = none;
        refund_done_at = none;
        created_at = now;
        started_at = none;
        completed_at = none;
      } in
      if has_user user_id t then ok (j, record t { jobs = j ∷ t.jobs }) else err foreign_key)

-- WHERE id = $2 AND status = 'queued'
abbrev pub startable : ℕ → ProvisioningJob → Bool
startable id j = j.id == id && is_queued j.status

abbrev pub started : ℕ → ProvisioningJob → ProvisioningJob
started now j = record j { status = JobStatus.running; started_at = some now }

unfoldable pub mark_running : ℕ → ℕ → M (Unit {0})
mark_running id now = do
  n ← wrap "mark job running" (
      statement λ t. ok (
        count_where (startable id) t.jobs,
        record t { jobs = update_where (startable id) (started now) t.jobs },
      ))
  if n == 0 then raise not_queued else pure tt

unfoldable pub set_vm_id : ℕ → ℕ → M (Unit {0})
set_vm_id id vm_id = statement λ t. ok (
  tt,
  record t { jobs = update_where (λ j. j.id == id) (λ j. record j { vm_id = some vm_id }) t.jobs },
)

abbrev pub finished : JobStatus → Option Text → ℕ → ProvisioningJob → ProvisioningJob
finished status error now j = record j { status = status; error = error; completed_at = some now }

-- An empty `errMsg` is none. The UPDATE asks for the id alone.
unfoldable pub finish : ℕ → JobStatus → Option Text → ℕ → M (Unit {0})
finish id status error now = statement λ t.
    ok (tt, record t { jobs = update_where (λ j. j.id == id) (finished status error now) t.jobs })

-- WHERE id = $1 AND refund_done_at IS NULL
abbrev pub refundable : ℕ → ProvisioningJob → Bool
refundable id j = j.id == id && not (is_some j.refund_done_at)

abbrev pub refunded : ℕ → ProvisioningJob → ProvisioningJob
refunded now j = record j { refund_done_at = some now }

-- The three writes of a refund, once the mark is known to be new.
abbrev pub pay_back : ℕ → ℤ → Text → ℕ → M (Unit {0})
pay_back user_id amount description now = do
  wrap "add balance" (
      statement λ t.
        ok (
          tt,
          record t { users = update_where (λ u. u.id == user_id) (credit amount now) t.users },
        ))
  wrap "insert refund tx" (
      insert λ id t.
        if has_user user_id t
        then ok (
          tt,
          record t {
            transactions =
                journal user_id amount TxType.refund description none now id ∷ t.transactions;
          },
        )
        else err foreign_key)

-- True if this call made the refund.
unfoldable pub refund_once : ℕ → ℕ → ℤ → Text → ℕ → M Bool
refund_once job_id user_id amount description now = transaction do
  n ← wrap "mark refund" (
      statement λ t. ok (
        count_where (refundable job_id) t.jobs,
        record t { jobs = update_where (refundable job_id) (refunded now) t.jobs },
      ))
  if n == 0
      then pure (rollback false)
      else do pay_back user_id amount description now; pure (commit true)

-- sql.NullTime of the two times of a step
abbrev pub started_time : StepStatus → ℕ → Option ℕ
started_time StepStatus.running now = some now
started_time _ now = none

abbrev pub completed_time : StepStatus → ℕ → Option ℕ
completed_time StepStatus.succeeded now = some now
completed_time StepStatus.failed now = some now
completed_time StepStatus.skipped now = some now
completed_time _ now = none

abbrev pub same_step : ℕ → ℕ → ProvisioningJobStep → Bool
same_step job_id seq s = s.job_id == job_id && s.seq == seq

-- UNIQUE (job_id, seq)
unfoldable pub append_step : ℕ → ℕ → String → StepStatus → Option Text → ℕ → M ProvisioningJobStep
append_step job_id seq name status detail now = wrap "insert job step" (
    insert λ id t.
      let s : ProvisioningJobStep = record {
        id = id;
        job_id = job_id;
        seq = seq;
        name = name;
        status = status;
        detail = detail;
        started_at = started_time status now;
        completed_at = completed_time status now;
      } in
      if ltb 0 (count_where (same_step job_id seq) t.steps)
      then err unique
      else ok (s, record t { steps = s ∷ t.steps }))

-- detail = COALESCE($2, detail)
abbrev pub closed_step : StepStatus → Option Text → ℕ → ProvisioningJobStep → ProvisioningJobStep
closed_step status detail now s = record s {
  status = status;
  detail = elim detail [ none ↦ s.detail | some d ↦ some d ];
  completed_at = some now;
}

unfoldable pub update_step : ℕ → ℕ → StepStatus → Option Text → ℕ → M (Unit {0})
update_step job_id seq status detail now = statement λ t. ok (
  tt,
  record t { steps = update_where (same_step job_id seq) (closed_step status detail now) t.steps },
)

-- WHERE job_id = $1 AND seq > $2
abbrev pub later_step : ℕ → ℤ → ProvisioningJobStep → Bool
later_step job_id since s = s.job_id == job_id && ltb_ℤ since (pos s.seq)

-- ORDER BY seq ASC, by insertion
pub insert_by_seq : ProvisioningJobStep → List ProvisioningJobStep → List ProvisioningJobStep
insert_by_seq s [] = s ∷ []
insert_by_seq s (x ∷ rest) =
    let later = x ∷ insert_by_seq s rest in if leb s.seq x.seq then s ∷ x ∷ rest else later

unfoldable pub order_by_seq : List ProvisioningJobStep → List ProvisioningJobStep
unfolding insert_by_seq
order_by_seq [] = []
order_by_seq (s ∷ rest) = insert_by_seq s (order_by_seq rest)

unfoldable pub list_steps : ℕ → ℤ → M (List ProvisioningJobStep)
list_steps job_id since =
    statement λ t. ok (order_by_seq (select_where (later_step job_id since) t.steps), t)

-- WHERE status IN ('queued', 'running') AND created_at < $3
abbrev pub is_stale : ℕ → ProvisioningJob → Bool
is_stale cutoff j = is_unfinished j.status && ltb j.created_at cutoff

-- ORDER BY id ASC, by insertion
pub insert_by_id : ProvisioningJob → List ProvisioningJob → List ProvisioningJob
insert_by_id j [] = j ∷ []
insert_by_id j (k ∷ rest) =
    let later = k ∷ insert_by_id j rest in if leb j.id k.id then j ∷ k ∷ rest else later

unfoldable pub order_by_id : List ProvisioningJob → List ProvisioningJob
unfolding insert_by_id
order_by_id [] = []
order_by_id (j ∷ rest) = insert_by_id j (order_by_id rest)

unfoldable pub find_stale_running : ℕ → M (List ProvisioningJob)
find_stale_running cutoff =
    statement λ t. ok (order_by_id (select_where (is_stale cutoff) t.jobs), t)

abbrev pub same_order : ℕ → Option ℕ → Bool
same_order order_id none = false
same_order order_id (some i) = i == order_id

abbrev pub active_for : ℕ → ProvisioningJob → Bool
active_for order_id j = same_order order_id j.order_id && is_unfinished j.status

-- ORDER BY id DESC LIMIT 1
pub latest : List ProvisioningJob → Option ProvisioningJob
latest [] = none
latest (j ∷ rest) = elim (latest rest) [
  | none ↦ some j
  | some k ↦ some (if ltb j.id k.id then k else j)
]

unfoldable pub find_active_by_order : ℕ → M (Option ProvisioningJob)
unfolding latest
find_active_by_order order_id =
    statement λ t. ok (latest (select_where (active_for order_id) t.jobs), t)

-- GetByID reads the row, then all its steps, which nothing here looks at.
abbrev pub with_steps : ℕ → Option ProvisioningJob → M (Option ProvisioningJob)
with_steps id none = pure none
with_steps id (some job) = list_steps id (negsuc 0) >> pure (some job)

unfoldable pub get_by_id : ℕ → M (Option ProvisioningJob)
get_by_id id = statement (λ t. ok (find ProvisioningJob.id id t.jobs, t)) >>= with_steps id
