-- ===== src/Provision/Runtime/JobRow.antt =====
-- The row of a job through its start, its mark and its end.
use incus.Base.{ℕ, ◌≡◌, ◌<◌, refl, Option, none, some, List, arith, ◌==◌}
use incus.Base.Table.{
  find, count_where, update_where, find-update_key, find-update_where, count_where-pos,
}
use incus.Models.{ProvisioningJob, JobStatus, Text}
use incus.Jobs.{finished, startable, started, refundable, refunded}

module _ (job : ProvisioningJob) (queued : job.status ≡ JobStatus.queued)
    (fresh : job.refund_done_at ≡ none) where
  pub started_job :
      (now : ℕ) (jobs : List ProvisioningJob)
      → find ProvisioningJob.id job.id jobs ≡ some job
      → find ProvisioningJob.id job.id (update_where (startable job.id) (started now) jobs)
        ≡ some (started now job)
  started_job now jobs found = ground (
    arith,
    found,
    find-update_where ProvisioningJob.id job.id (startable job.id) (started now) jobs (λ j. refl),
  )

  pub startable_pos :
      (jobs : List ProvisioningJob)
      → find ProvisioningJob.id job.id jobs ≡ some job
      → 0 < count_where (startable job.id) jobs
  startable_pos jobs found =
      count_where-pos ProvisioningJob.id job.id (startable job.id) jobs job found (ground arith)

  pub refundable_pos :
      (now : ℕ) (jobs : List ProvisioningJob)
      → find ProvisioningJob.id job.id jobs ≡ some (started now job)
      → 0 < count_where (refundable job.id) jobs
  refundable_pos now jobs found =
      count_where-pos ProvisioningJob.id job.id (refundable job.id) jobs (started now job) found
        (ground arith)

  pub finished_job :
      (s : JobStatus) (e : Option Text) (now : ℕ) (j : ProvisioningJob)
      (jobs : List ProvisioningJob)
      → find ProvisioningJob.id job.id jobs ≡ some j
      → find ProvisioningJob.id job.id (update_where (λ k. k.id == job.id) (finished s e now) jobs)
        ≡ some (finished s e now j)
  finished_job s e now j jobs found = ground (
    arith,
    found,
    find-update_key ProvisioningJob.id job.id job.id (finished s e now) jobs (λ k. refl),
  )

  pub marked_job :
      (n now : ℕ) (jobs : List ProvisioningJob)
      → find ProvisioningJob.id job.id jobs ≡ some (started n job)
      → find ProvisioningJob.id job.id (update_where (refundable job.id) (refunded now) jobs)
        ≡ some (refunded now (started n job))
  marked_job n now jobs found = ground (
    arith,
    found,
    find-update_where ProvisioningJob.id job.id (refundable job.id) (refunded now) jobs (λ j. refl),
  )
