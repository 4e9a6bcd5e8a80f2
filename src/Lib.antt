-- ===== src/Lib.antt =====
-- The control plane incus-admin: billing, addresses, VM rows, the provisioning of VMs, their
-- placement and their reconciliation with the clusters.
--
-- A user tops up a balance, creates an order and pays it (incus-admin/internal/repository/order.go
-- and user.go). The portal then takes an address from a pool (repository/ipaddr.go), inserts a row
-- for the VM (repository/vm.go) and a provisioning job (repository/provisioning_job.go), and hands
-- the job to the workers of incus-admin/internal/service/jobs, which drive an Incus cluster. A job
-- that fails is compensated: the address is released, the payment refunded, the order cancelled.
--
-- Models.antt has the rows of the tables and the values of their status columns, after
-- internal/model/models.go. Store.antt is database/sql over PostgreSQL: a connection holds the
-- tables, says which of its statements fail and which addresses other transactions have locked,
-- counts its statements and draws ids from a sequence; a
-- transaction that does not commit leaves the tables as they were. A transaction is one step, as
-- the row locks that the code takes keep other transactions from its rows, so that concurrent
-- callers are sequences of calls. Base has the shared names, tables as lists of rows with their
-- queries (Base/Table, Base/Select), sorted slices and filtered lists (Base/Sort,
-- Base/Filter), integers (Base/Int), and what the code does with floats (Base/Float), as a record
-- of operations that is a parameter.
--
-- Orders.antt, Users.antt, Jobs.antt, Vms.antt and Ips.antt have one function for each method of
-- the repository, with the snake-case name of the method; each `now` is the time that the method
-- reads, in seconds. Their child modules hold the proofs, named for what they are about.
--
-- Provision.antt is internal/service/jobs. World.antt has what a job acts on: the connection, the
-- parameters that Enqueue keeps in memory, and the requests sent to a cluster, whose answers are a
-- parameter and may depend on all requests so far. VmCreate.antt is vm_create.go: `run`, in the
-- parts `launch` and `conclude`, and `rollback`. Reinstall.antt is vm_reinstall.go, without the
-- configuration of the instance. Runtime.antt is runtime.go: `run_one`, `finalize`, `dispatch` and
-- `recover_stale`. The executors of node jobs and of batch migrations are parameters. Serving.antt
-- has what a cluster that answers is.
--
-- Checkout.antt is internal/handler/portal/order.go and ipallocator.go without the HTTP around them:
-- `check_quota`, `rollback_payment`, `cancel_order`, `update_order_status` and `allocate_ip`.
-- Payment.antt is Pay of order.go, which puts these and the repositories together, and Enqueue of
-- runtime.go; its answer stands for the HTTP status and body, and whether the queue takes the job
-- is an argument. Catalog.antt is repository/product.go and sshkey.go, Clusters.antt is
-- internal/cluster/manager.go, with a client as its name. Ledger.antt is about the calls of all
-- repositories that move money.
--
-- FloatingIps.antt is repository/floating_ip.go and service/floating_ip.go, with the handlers of
-- handler/portal/floating_ip.go in FloatingIps/Handlers. Scheduler.antt is
-- internal/cluster/scheduler.go, with sort.Slice as a parameter that sorts: the weights, the score of a node, the cache that a request to the
-- cluster fills, and the choice of a node. Rebalance.antt and its children are
-- internal/service/rebalance/rebalance.go: nodes and their pointers, the statistics, the loop of
-- `Compute` and the texts of its advice; as the loop writes to the caller's slice, the slice is a
-- result. Reconcile.antt is a pass of internal/worker/vm_reconciler.go, given what the clusters
-- answer, and Purge.antt a tick of internal/worker/vm_trash_purger.go, given what the purge answers.
-- Tests.antt and its children apply the theorems to a small shop.
--
-- Amounts are whole cents in unbounded integers: the columns are DECIMAL(10,2), and the rounding
-- of float64 on the way is not modelled. Ids, counts and times are natural numbers, an IPv4
-- address is the number of its 32 bits, and increments of its bytes wrap at 256. The loop of
-- SeedPool runs on fuel; the steps from the first address to the last, below 2^32, are enough. The
-- digits of formatInt are written into a buffer of twenty bytes, enough for 64 bits; memory in
-- bytes is unbounded, and stays within a node's total where it starts so.
--
-- Not modelled: the other HTTP handlers, authentication, audit rows, progress events, the JSON bodies of
-- requests, the set-up of Windows guests, firewall groups, the other workers, monitoring, notification, the web front
-- end and the cluster scripts. Foreign keys are modelled for users only.
pub mod Base
pub mod Models
pub mod Store
pub mod Orders
pub mod Users
pub mod Jobs
pub mod Vms
pub mod Ips
pub mod Provision
pub mod Checkout
pub mod Catalog
pub mod Clusters
pub mod Payment
pub mod FloatingIps
pub mod Scheduler
pub mod Rebalance
pub mod Reconcile
pub mod Purge
pub mod Ledger
pub mod Tests
