-- ===== src/Tests/Provisioning.antt =====
-- The provisioning of the paid order: on a cluster that answers, and on one that does not.
use incus.Base.{arith, false, none, ◌+◌, ◌≡◌, ◌⊎◌, refl, true, some, []}
use incus.Base.Int.{pos}
use incus.Base.Table.{find}
use incus.Models.{JobKind, OrderStatus, ProvisioningJob, verbatim}
use incus.Store.{Conn, ok, err, remote}
use incus.Tests.{ann, order, create_job, open_shop, flaky_shop, seal}
use incus.Provision.Serving.{IsUsable, Serves, Describes}
use incus.Provision.World.{
  Request, Reply, create_instance, recreate_instance, start_instance, stop_instance,
  delete_instance, get_instance, wait_operation, Params, Cluster, World, Deps, Executor, goes,
  world_of,
}
use incus.Provision.VmCreate.{run, rollback}
use incus.Provision.VmCreate.Rollback.{IsCompensated, rollback-compensates}
use incus.Provision.VmCreate.Run.{RunResult}
use incus.Provision.VmCreate.Completes.{OrderIsActive, run-completes}
use incus.Provision.Reinstall.{reinstall_run}
use incus.Provision.Reinstall.Outcome.{IsReinstalled}
use incus.Provision.Reinstall.Completes.{reinstall_run-completes}
use incus.Provision.Runtime.{Others, run_one}
use incus.Provision.Runtime.Pass.{Pass, run_one_passes}
use incus.Provision.Runtime.Settles.{IsDelivered, IsRefunded}
use incus.Provision.Runtime.Delivered.{run_one-delivers}
use incus.Provision.Runtime.Paid.{run_one-settles}

abbrev order_params : Params
order_params = record {
  project = "customers";
  cpu = 2;
  memory_mb = 2048;
  disk_gb = 40;
  os_image = "images:ubuntu/24.04/cloud";
  ssh_keys = [];
  ip = some 167772161;
  gateway = "10.0.0.254";
  subnet_cidr = "10.0.0.0/24";
  storage_pool = "ceph-pool";
  network = "br-pub";
  order_amount = pos 1200;
  image_source = "ubuntu/24.04/cloud";
  server_url = "https://images.linuxcontainers.org";
  protocol = "simplestreams";
}

abbrev pub queue : Conn → World
queue c = record { conn = c; params = λ i. some order_params; requests = [] }

-- Reads are answered at once, and all else by an operation.
abbrev at_once : Reply
at_once = record { is_async = false; parses = true; op_id = ""; location = "n1"; has_config = true }

abbrev by_operation : Reply
by_operation = record {
  is_async = true;
  parses = true;
  op_id = "op";
  location = "";
  has_config = false;
}

abbrev reply_to : Request → Reply
reply_to (get_instance project name) = at_once
reply_to (wait_operation op) = at_once
reply_to _ = by_operation

abbrev answering : Cluster
answering = record { answers = λ before r. ok (reply_to r) }

reply_to-IsUsable : (r : Request) → IsUsable (reply_to r)
reply_to-IsUsable (create_instance n p x) = record { parses = refl; names_operation = λ e. refl }
reply_to-IsUsable (recreate_instance n p x l) = record {
  parses = refl;
  names_operation = λ e. refl;
}
reply_to-IsUsable (start_instance p n) = record { parses = refl; names_operation = λ e. refl }
reply_to-IsUsable (stop_instance p n) = record { parses = refl; names_operation = λ e. refl }
reply_to-IsUsable (delete_instance p n) = record { parses = refl; names_operation = λ e. refl }
reply_to-IsUsable (get_instance p n) = record {
  parses = refl;
  names_operation = λ e. absurd (ground (arith, e));
}
reply_to-IsUsable (wait_operation op) = record {
  parses = refl;
  names_operation = λ e. absurd (ground (arith, e));
}

answering-Serves : Serves answering
answering-Serves before r = (reply_to r, refl, reply_to-IsUsable r)

answering-Describes : Describes answering
answering-Describes before project name reply e = ground (arith, e)

abbrev pub silent : Cluster
silent = record { answers = λ before r. err (remote "timeout") }

abbrev pub deps_with : Cluster → Deps
deps_with c = record {
  clusters = λ i. some c;
  clock = λ tick. 1000 + tick;
  cipher = seal;
  new_password = "secret";
}

abbrev idle_executor : Executor
idle_executor = record { run = λ job w. goes tt w; rollback = λ job reason w. goes tt w }

abbrev pub other_executors : Others
other_executors = record {
  node_add = idle_executor;
  node_remove = idle_executor;
  migrate_batch = idle_executor;
}

rollback-compensates_example :
    (v : World) × (rollback (deps_with silent) create_job (verbatim "timeout") (queue flaky_shop)
      ≡ goes tt v)
    × IsCompensated (λ tick. 1000 + tick) create_job (verbatim "timeout") (queue flaky_shop) v
rollback-compensates_example =
    rollback-compensates (deps_with silent) create_job (verbatim "timeout") (queue flaky_shop)

run-completes_example :
    (v : World) × (run (deps_with answering) create_job (queue open_shop) ≡ goes tt v)
    × RunResult (deps_with answering) create_job (queue open_shop) (goes tt v)
    × OrderIsActive (some 8) (queue open_shop) v
run-completes_example =
    run-completes (deps_with answering) answering create_job order_params _ (queue open_shop) refl
      refl answering-Serves refl (λ n later. refl)

abbrev reinstall_job : ProvisioningJob
reinstall_job = record create_job { kind = JobKind.vm_reinstall; order_id = none }

reinstall_run-completes_example :
    (v : World) × (reinstall_run (deps_with answering) reinstall_job (queue flaky_shop) ≡ goes tt v)
    × IsReinstalled (deps_with answering) (some 3) (queue flaky_shop) v
reinstall_run-completes_example =
    reinstall_run-completes (deps_with answering) answering reinstall_job order_params
      (queue flaky_shop) refl refl answering-Serves answering-Describes

run_one_passes_example :
    Pass
      (deps_with silent)
      create_job
      (queue flaky_shop)
      (world_of (run_one (deps_with silent) other_executors 9 (queue flaky_shop))).conn
unfolding find
run_one_passes_example =
    run_one_passes (deps_with silent) other_executors create_job refl (queue flaky_shop) refl

run_one-settles_example :
    IsDelivered create_job ann
      (order 8 OrderStatus.provisioning)
      (world_of (run_one (deps_with silent) other_executors 9 (queue open_shop))).conn.tables
    ⊎ IsRefunded create_job
        (pos 1200)
        ann
        (order 8 OrderStatus.provisioning)
        (world_of (run_one (deps_with silent) other_executors 9 (queue open_shop))).conn.tables
unfolding find
run_one-settles_example =
    run_one-settles (deps_with silent) other_executors create_job ann
      (order 8 OrderStatus.provisioning) order_params (queue open_shop) refl refl refl refl refl
      refl refl refl refl (λ n later. refl)

run_one-delivers_example :
    IsDelivered create_job ann
      (order 8 OrderStatus.provisioning)
      (world_of (run_one (deps_with answering) other_executors 9 (queue open_shop))).conn.tables
unfolding find
run_one-delivers_example =
    run_one-delivers (deps_with answering) other_executors answering create_job ann
      (order 8 OrderStatus.provisioning) order_params "secret" (queue open_shop) refl refl refl refl
      refl refl refl refl refl (λ n later. refl) refl answering-Serves refl
