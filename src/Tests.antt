-- ===== src/Tests.antt =====
-- A small control plane: one user, one pending order, one paid order whose VM is to be created,
-- and a pool of two addresses. The theorems are applied to it.
pub mod Provisioning
pub mod Billing
pub mod Shopping
pub mod Balancing
pub mod Workers
pub mod Floating
use incus.Base.{
  ℕ, ◌+◌, ◌%◌, ◌^◌, ◌≡◌, ◌≤◌, ◌&&◌, ◌⊎◌, refl, ◌==◌, Bool, true, false, Option, none, some, List,
  [], ◌∷◌, String, arith,
}
use incus.Base.Int.{ℤ, pos, ◌≤ℤ◌}
use incus.Base.Table.{find}
use incus.Models.{
  User, Order, Quota, Product, Vm, IpAddress, ProvisioningJob, OrderStatus, VmStatus, RescueState,
  IpStatus, JobKind, JobStatus, Text, verbatim,
}
use incus.Store.{Tables, Conn, healthy, Result, ok, err, returns, ◌>>=◌, pure, remote, unreachable}
use incus.Store.Budget.{effects}
use incus.Orders.{pay_with_balance}
use incus.Orders.Pay.{paid_tables, PayOutcome, pay-settles, pay-completes}
use incus.Orders.Races.{pays, cancels, attempt, one_effect}
use incus.Users.{top_up_with_daily_cap}
use incus.Users.Cap.{TopUpOutcome, top_up_capped}
use incus.Jobs.Refund.{Claim, claim, RefundOutcome, claim-settles, unrefunded_of, refunded_once}
use incus.Jobs.Lifecycle.{starts, finishes, Final, move, started_once}
use incus.Vms.{Cipher, mark_trashed, unmark_trashed}
use incus.Vms.Lifecycle.{
  provisions, trashes, sets_status, absent_of, vm_calls, absent_forever, restore-undoes-trash,
}
use incus.Ips.{allocate_next}
use incus.Ips.Holds.{AllocateOutcome, allocate-settles}
use incus.Ips.Exclusive.{allocates, releases, recovers, call, releases_of, unheld_of, one_holder}
use incus.Ips.Bytes.{Ip4, IsBytes, value, inc_ip, inc_ip-value}
use incus.Ips.Seed.{ends, SeedResult, seed_pool}
use incus.Ips.Seed.Whole.{SeedFault, seed_pool_fills}

abbrev pub ann : User
ann = record {
  id = 1;
  email = "ann@example.org";
  name = "ann";
  role = "customer";
  logto_sub = "sub-1";
  balance = pos 5000;
  stepup_auth_at = none;
  created_at = 10;
  updated_at = 10;
}

abbrev pub order : ℕ → OrderStatus → Order
order id status = record {
  id = id;
  user_id = 1;
  product_id = 2;
  cluster_id = 1;
  status = status;
  amount = pos 1200;
  currency = "USD";
  expires_at = some 2000;
  created_at = 20;
  updated_at = 20;
}

abbrev pub vm : Vm
vm = record {
  id = 3;
  name = "vm-3";
  cluster_id = 1;
  user_id = 1;
  order_id = some 8;
  ip = some 167772161;
  status = VmStatus.creating;
  cpu = 2;
  memory_mb = 2048;
  disk_gb = 40;
  os_image = "images:ubuntu/24.04/cloud";
  node = "";
  password = none;
  rescue_state = RescueState.normal;
  rescue_started_at = none;
  rescue_snapshot_name = none;
  trashed_at = none;
  trashed_prev_status = none;
  created_at = 30;
  updated_at = 30;
}

abbrev pub address : ℕ → ℕ → IpStatus → IpAddress
address id ip status = record {
  id = id;
  pool_id = 1;
  ip = ip;
  vm_id = none;
  status = status;
  cooldown_until = none;
}

abbrev pub create_job : ProvisioningJob
create_job = record {
  id = 9;
  kind = JobKind.vm_create;
  user_id = 1;
  cluster_id = 1;
  order_id = some 8;
  vm_id = some 3;
  target_name = "vm-3";
  status = JobStatus.queued;
  error = none;
  refund_done_at = none;
  created_at = 30;
  started_at = none;
  completed_at = none;
}

-- One VM more is allowed.
abbrev pub one_more : Quota
one_more = record {
  id = 1;
  user_id = 1;
  max_vms = 2;
  max_vcpus = 8;
  max_ram_mb = 8192;
  max_disk_gb = 0;
  max_ips = 2;
  max_snapshots = 5;
  max_firewall_groups = 5;
  max_firewall_rules_per_group = 20;
}

abbrev pub small : Product
small = record {
  id = 2;
  name = "small";
  slug = "small";
  cpu = 2;
  memory_mb = 2048;
  disk_gb = 40;
  bandwidth_tb = 1;
  price_monthly = pos 1200;
  currency = "USD";
  access = "public";
  active = true;
  sort_order = 0;
}

abbrev pub shop : Tables
shop = record {
  users = ann ∷ [];
  orders = order 7 OrderStatus.pending ∷ order 8 OrderStatus.provisioning ∷ [];
  transactions = [];
  invoices = [];
  vms = vm ∷ [];
  ips = address 1 167772161 IpStatus.assigned ∷ address 2 167772162 IpStatus.available ∷ [];
  jobs = create_job ∷ [];
  steps = [];
  pools =
      record { id = 1; cluster_id = 1; cidr = "10.0.0.0/24"; gateway = "10.0.0.254"; vlan_id = 0 }
      ∷ [];
  quotas = one_more ∷ [];
  products = small ∷ [];
  ssh_keys = [];
  floating_ips = [];
}

abbrev pub open_shop : Conn
open_shop = healthy shop 0 50

-- The third statement fails.
abbrev pub flaky_shop : Conn
flaky_shop = record open_shop { fails = λ n. n == 2 }

-- Payments.
pay-settles_example : PayOutcome 7 100 shop (pay_with_balance 7 100 open_shop)
pay-settles_example = pay-settles 7 100 open_shop

pay-completes_example :
    pay_with_balance 7 100 open_shop
    ≡ returns tt (healthy (paid_tables 7 100 50 (order 7 OrderStatus.pending) shop) 8 52)
unfolding find
pay-completes_example =
    pay-completes 7 100 0 50 shop (order 7 OrderStatus.pending) ann refl refl refl (omega arith)

one_effect_example :
    effects (attempt 7) ((100, pays) ∷ (101, cancels 1) ∷ (102, pays) ∷ []) open_shop ≤ 1
unfolding find
one_effect_example =
    one_effect 7 ((100, pays) ∷ (101, cancels 1) ∷ (102, pays) ∷ []) open_shop (refl, (refl, tt))

top_up_capped_example :
    TopUpOutcome 1 (pos 300) (verbatim "top-up") (some 1) 86400 (pos 1000) 90000 50 shop (
      top_up_with_daily_cap 1
        (pos 300)
        (verbatim "top-up")
        (some 1)
        86400
        (pos 1000)
        90000
        open_shop)
top_up_capped_example =
    top_up_capped 1 (pos 300) (verbatim "top-up") (some 1) 86400 (pos 1000) 90000 open_shop

claim-settles_example :
    RefundOutcome 9
      (record { user_id = 1; amount = pos 1200; description = verbatim "r"; now = 70 })
      50
      shop
      (claim 9
        (record { user_id = 1; amount = pos 1200; description = verbatim "r"; now = 70 })
        flaky_shop)
claim-settles_example =
    claim-settles 9
      (record { user_id = 1; amount = pos 1200; description = verbatim "r"; now = 70 }) flaky_shop

abbrev a_claim : Claim
a_claim = record { user_id = 1; amount = pos 1200; description = verbatim "r"; now = 70 }

refunded_once_example :
    (effects (claim 9) (a_claim ∷ a_claim ∷ []) open_shop ≤ 1)
    × (effects (claim 9) (a_claim ∷ a_claim ∷ []) open_shop ≤ unrefunded_of 9 shop)
unfolding find
refunded_once_example = refunded_once 9 (a_claim ∷ a_claim ∷ []) open_shop (refl, tt)

started_once_example :
    effects
      (move 9)
      ((60, starts) ∷ (61, finishes Final.partial none) ∷ (62, starts) ∷ [])
      open_shop
    ≤ 1
unfolding find
started_once_example =
    started_once 9 ((60, starts) ∷ (61, finishes Final.partial none) ∷ (62, starts) ∷ []) open_shop
      (refl, tt)

-- Addresses.
allocate-settles_example : AllocateOutcome 1 4 open_shop (allocate_next 1 4 open_shop)
unfolding find
allocate-settles_example = allocate-settles 1 4 open_shop (refl, (refl, tt))

one_holder_example :
    (effects (call 167772162) (allocates 1 4 ∷ recovers 900 ∷ allocates 1 5 ∷ []) open_shop
      ≤ releases_of 167772162 (allocates 1 4 ∷ recovers 900 ∷ allocates 1 5 ∷ []) + 1)
    × (effects (call 167772162) (allocates 1 4 ∷ recovers 900 ∷ allocates 1 5 ∷ []) open_shop
        ≤ releases_of 167772162 (allocates 1 4 ∷ recovers 900 ∷ allocates 1 5 ∷ [])
          + unheld_of 167772162 shop)
unfolding find
one_holder_example =
    one_holder 167772162 (allocates 1 4 ∷ recovers 900 ∷ allocates 1 5 ∷ []) open_shop
      (refl, (refl, tt))

abbrev edge : Ip4
edge = record { b0 = 10; b1 = 0; b2 = 0; b3 = 255 }

edge-IsBytes : IsBytes edge
edge-IsBytes = record {
  b0_fits = omega arith;
  b1_fits = omega arith;
  b2_fits = omega arith;
  b3_fits = omega arith;
}

inc_ip-value_example : IsBytes (inc_ip edge) × (value (inc_ip edge) ≡ (value edge + 1) % 2 ^ 32)
inc_ip-value_example = inc_ip-value edge edge-IsBytes

abbrev after_edge : Ip4
after_edge = record { b0 = 10; b1 = 0; b2 = 1; b3 = 3 }

after_edge-IsBytes : IsBytes after_edge
after_edge-IsBytes = record {
  b0_fits = omega arith;
  b1_fits = omega arith;
  b2_fits = omega arith;
  b3_fits = omega arith;
}

seed_pool_fills_example :
    SeedResult
      (value edge)
      (value after_edge)
      0
      shop
      (seed_pool 9 1 (ends (some edge) (some after_edge)) open_shop)
    × SeedFault open_shop (seed_pool 9 1 (ends (some edge) (some after_edge)) open_shop)
seed_pool_fills_example =
    seed_pool_fills 9 1 edge after_edge open_shop edge-IsBytes after_edge-IsBytes (omega arith)

-- VMs.
abbrev pub seal : Cipher
seal = record { encrypt = λ p. some p }

abbrev lost_shop : Conn
lost_shop = healthy (record shop { vms = record vm { status = VmStatus.gone } ∷ [] }) 0 50

absent_forever_example :
    absent_of 3
      (vm_calls seal
        ((80, provisions 3 "n1" "pw") ∷ (81, trashes 3) ∷ (82, sets_status 4 VmStatus.error) ∷ [])
        lost_shop).tables
    ≡ true
unfolding find
absent_forever_example =
    absent_forever seal 3
      ((80, provisions 3 "n1" "pw") ∷ (81, trashes 3) ∷ (82, sets_status 4 VmStatus.error) ∷ [])
      lost_shop refl refl

restore-undoes-trash_example :
    (d : Conn) × ((mark_trashed 3 80 >>= λ (a : Bool).
    unmark_trashed 3 81 >>= λ (b : Bool). pure (a && b))
        open_shop
      ≡ returns true d)
    × (find Vm.id 3 d.tables.vms ≡ some (record vm { updated_at = 81 }))
unfolding find
restore-undoes-trash_example =
    restore-undoes-trash 3 80 81 0 50 shop vm (refl, tt) refl refl refl refl
