-- ===== src/Provision.antt =====
-- The provisioning of VMs (incus-admin/internal/service/jobs): the worker's pass over one job,
-- the executors with their compensation, and the sweep of stale jobs.
pub mod World
pub mod Serving
pub mod VmCreate
pub mod Reinstall
pub mod Runtime
