-- ===== src/Tests/Billing.antt =====
-- The books, the quota and the roll-back of a payment.
use incus.Base.{◌+◌, ℕ, ◌≡◌, refl, true, none, some, [], ◌∷◌, arith, inl, inr}
use incus.Base.Int.{ℤ, pos, ◌+ℤ◌}
use incus.Base.Table.{find, first_where, select_where}
use incus.Models.{User, Order, IpAddress, Product, Quota, OrderStatus, IpStatus, TxType, verbatim}
use incus.Store.{Tables, Conn, healthy, tables_of, ◌>>◌}
use incus.Orders.{pay_with_balance}
use incus.Vms.{usage, list_by_user, order_by_id_desc, insert_by_id_desc}
use incus.Ips.{cooled}
use incus.Ledger.{
  IsBalanced, pays_order, adjusts, refunds, money_calls, booked, money_calls-IsBalanced,
}
use incus.Checkout.{check_quota, get_quota, over_limit, rollback_payment}
use incus.Checkout.Undo.{rollback-undoes_payment}
use incus.Checkout.Quotas.{IsWithin, quota_of, usage_of, check_quota_admits, check_quota_passes}
use incus.Checkout.Transitions.{update_statuses, closed_forever}
use incus.Provision.World.{world_of}
use incus.Provision.Runtime.{recover_job}
use incus.Provision.Runtime.Sweep.{Swept, recover_job-Swept}
use incus.Tests.{ann, order, address, one_more, create_job, shop, open_shop, flaky_shop}
use incus.Tests.Provisioning.{deps_with, silent, other_executors, queue}

abbrev opening : ℕ → ℤ
opening i = pos 5000

shop-IsBalanced : IsBalanced opening shop
unfolding find booked ◌+ℤ◌
shop-IsBalanced i u found = ground arith

money_calls-IsBalanced_example :
    IsBalanced opening
      (money_calls
        (pays_order 7 100
          ∷ adjusts 1 (pos 25) TxType.deposit (verbatim "gift") none 101
          ∷ refunds 9
              (record { user_id = 1; amount = pos 1200; description = verbatim "r"; now = 102 })
          ∷ [])
        flaky_shop).tables
money_calls-IsBalanced_example =
    money_calls-IsBalanced opening
      (pays_order 7 100
        ∷ adjusts 1 (pos 25) TxType.deposit (verbatim "gift") none 101
        ∷ refunds 9
            (record { user_id = 1; amount = pos 1200; description = verbatim "r"; now = 102 })
        ∷ [])
      flaky_shop shop-IsBalanced

rollback-undoes_payment_example :
    (t' : Tables) × (tables_of (
        (pay_with_balance 7 100
            >> rollback_payment
                (order 7 OrderStatus.pending)
                (some 167772161)
                (verbatim "no address")
                101)
          open_shop)
      ≡ t')
    × (find User.id 1 t'.users ≡ some (record ann { updated_at = 101 }))
    × (find Order.id 7 t'.orders
        ≡ some (record (order 7 OrderStatus.pending) {
          status = OrderStatus.cancelled;
          updated_at = 101;
        }))
    × (find IpAddress.ip 167772161 t'.ips
        ≡ some (cooled 101 (address 1 167772161 IpStatus.assigned)))
unfolding find
rollback-undoes_payment_example =
    rollback-undoes_payment 7 100 101 167772161 0 50 (verbatim "no address") shop
      (order 7 OrderStatus.pending) ann (address 1 167772161 IpStatus.assigned) refl refl refl
      (omega arith) (omega arith) refl

abbrev small : Product
small = record {
  id = 2;
  name = "small";
  slug = "small";
  cpu = 2;
  memory_mb = 2048;
  disk_gb = 40;
  bandwidth_tb = 1;
  price_monthly = pos 1200;
  currency = "USD";
  access = "public";
  active = true;
  sort_order = 0;
}

check_quota_admits_example :
    (q : Quota) × (quota_of 1 shop ≡ some q) × IsWithin q (usage_of 1 shop) small
unfolding first_where select_where usage check_quota get_quota list_by_user over_limit
    order_by_id_desc insert_by_id_desc
check_quota_admits_example = check_quota_admits 1 small open_shop refl

check_quota_passes_example : (check_quota 1 small open_shop).0 ≡ none
unfolding first_where select_where usage order_by_id_desc insert_by_id_desc
check_quota_passes_example = check_quota_passes 1 0 50 small shop one_more refl (record {
  vms = inr (omega arith);
  vcpus = inr (omega arith);
  ram = inr (omega arith);
  disk = inl refl;
})

abbrev cancelled_shop : Conn
cancelled_shop = healthy (record shop { orders = order 7 OrderStatus.cancelled ∷ [] }) 0 50

closed_forever_example :
    find Order.id 7
      (update_statuses
        (record { order_id = 7; wanted = OrderStatus.active; now = 200 }
          ∷ record { order_id = 7; wanted = OrderStatus.pending; now = 201 }
          ∷ [])
        cancelled_shop).tables.orders
    ≡ some (order 7 OrderStatus.cancelled)
unfolding find
closed_forever_example =
    closed_forever
      (record { order_id = 7; wanted = OrderStatus.active; now = 200 }
        ∷ record { order_id = 7; wanted = OrderStatus.pending; now = 201 }
        ∷ [])
      7 (order 7 OrderStatus.cancelled) cancelled_shop refl refl

recover_job-Swept_example :
    Swept
      (λ tick. 1000 + tick)
      create_job
      (queue flaky_shop)
      (world_of (recover_job (deps_with silent) other_executors create_job (queue flaky_shop)))
recover_job-Swept_example =
    recover_job-Swept (deps_with silent) other_executors create_job refl (queue flaky_shop)
