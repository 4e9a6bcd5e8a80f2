-- ===== src/Payment/Steps.antt =====
-- The steps of a paid order, each with what its answer means.
use incus.Provision.VmCreate.Compensation.{Follows, Follows-trans}
use incus.Base.{ℕ, String, ◌≡◌, refl, ◌∙◌, ap, subst, sym, Bool, none, some, List, arith, ◌==◌}
use incus.Base.Int.{zero_ℤ, ◌≤ℤ◌}
use incus.Base.Table.{find, update_where, find-update_key}
use incus.Models.{User, Order, OrderStatus, Product, Vm, VmStatus, JobKind}
use incus.Store.{Conn, Error, Result, ok, err, Outcome, returns, raises, conn_of}
use incus.Orders
use incus.Orders.{set_status, pay_with_balance, debit}
use incus.Jobs
use incus.Vms
use incus.Vms.{list_by_user}
use incus.Catalog.{get_keys_by_user}
use incus.Clusters.{ClusterConfig}
use incus.Ips.{attach_vm}
use incus.Provision.World.{Params, World, Deps, db, timed, ◌>>=◌}
use incus.Payment.{
  Portal, PayRequest, queue_job, create_job_for, insert_vm, new_vm, new_params, vm_name,
  with_address, keys_or,
}
use incus.Payment.Frame.{KeepsMoney}
use incus.Payment.Charge.{IsCharged, IsCharged-kept}
use incus.Payment.Accepted.{
  AreQueued, PayResult, Ends, Ends-db, Ends-best_effort, give_back-Ends, queue_job-Ends,
  attach_keeps, job_create_keeps, AreQueued-of,
}

module _ (portal : Portal) (deps : Deps) (request : PayRequest) (o : Order) (w : World)
    (priced : zero_ℤ ≤ℤ o.amount) where
  -- The row of the VM that was inserted.
  record IsNewVm (ip : ℕ) (vm : Vm) (c : Conn) : Type 0 where
    row : find Vm.id vm.id c.tables.vms ≡ some vm
    creating : vm.status ≡ VmStatus.creating
    address : vm.ip ≡ some ip

  -- The charge stands, and the same statements fail.
  pub record Stands (s : OrderStatus) (c : Conn) : Type 0 where
    pub charged : IsCharged w.conn.tables o s c
    pub follows : Follows w.conn c

  pub Stands-kept : (s : OrderStatus) (c d : Conn) → Stands s c → KeepsMoney c d → Stands s d
  Stands-kept s c d h k = record {
    charged = IsCharged-kept w.conn.tables o s c d h.charged k.users k.orders;
    follows = Follows-trans w.conn c d h.follows k.follows;
  }

  -- After a call that keeps the money.
  pub Stands-by :
      {A : Type 0} (s : OrderStatus) (c : Conn) (r q : Outcome A)
      → Stands s c
      → KeepsMoney c (conn_of r)
      → r ≡ q
      → Stands s (conn_of q)
  Stands-by s c r q h k e = subst (λ x. Stands s (conn_of x)) e (Stands-kept s c (conn_of r) h k)

  create_job_for-Ends :
      (p : Params) (client : String) (ip : ℕ) (r : Result Vm) (v : World)
      → Stands OrderStatus.provisioning v.conn
      → ((vm : Vm) → r ≡ ok vm → IsNewVm ip vm v.conn)
      → p.order_amount ≡ o.amount
      → p.ip ≡ some ip
      → Ends (PayResult portal w o) (create_job_for portal deps request o p client ip r v)
  unfolding create_job_for
  create_job_for-Ends p client ip (err e) v st new amount address =
      give_back-Ends portal deps request o w priced OrderStatus.provisioning (some ip) _ _ v
        st.charged st.follows
  create_job_for-Ends p client ip (ok vm) v st new amount address =
      let made = new vm refl in
      let c = conn_of (attach_vm (some ip) vm.id v.conn) in
      let (kept, vms) = attach_keeps portal deps request o w priced (some ip) vm.id v.conn in
      let st1 = Stands-kept OrderStatus.provisioning v.conn c st kept in
      let now = deps.clock c.tick in
      let cluster_id = portal.manager.id_by_name client in
      let name = vm_name portal deps request o in
      let create = λ (n : ℕ).
        Jobs.create n JobKind.vm_create o.user_id cluster_id (some o.id) (some vm.id) name in
      let kept1 = job_create_keeps portal deps request o w priced now cluster_id vm.id name c in
      Ends-best_effort (PayResult portal w o) (attach_vm (some ip) vm.id) _ v (
        Ends-db (PayResult portal w o) (timed deps create) (queue_job portal deps request o p ip vm)
          (record v { conn = c })
          (λ job d h.
            let st2 = Stands-by OrderStatus.provisioning c _ (returns job d) st1 kept1 h in
            queue_job-Ends portal deps request o w priced p ip vm (ok job) (record v { conn = d })
              st2.charged st2.follows
              (λ j e.
                subst (λ x. AreQueued o x vm d.tables) (ground arith)
                  (AreQueued-of portal deps request o w priced now cluster_id vm name c d job h
                    (ap (find Vm.id vm.id) vms ∙ made.row) made.creating))
              amount (address ∙ sym made.address))
          (λ e d h.
            let st2 = Stands-by OrderStatus.provisioning c _ (raises e d) st1 kept1 h in
            queue_job-Ends portal deps request o w priced p ip vm (err e) (record v { conn = d })
              st2.charged st2.follows (λ j k. cc) amount (address ∙ sym made.address)))

  vm_create_keeps :
      (production : Bool) (now : ℕ) (vm : Vm) (c : Conn)
      → KeepsMoney c (conn_of (Vms.create deps.cipher production now vm c))
  unfolding Vms.create
  vm_create_keeps production now vm c = record {
    users = ground arith;
    orders = ground arith;
    follows = record { same = ground arith; ticks = ground arith };
  }

  IsNewVm-of :
      (production : Bool) (now : ℕ) (p : Product) (client : String) (ip : ℕ) (c d : Conn) (vm : Vm)
      → Vms.create deps.cipher production now (new_vm portal deps request o p client ip) c
        ≡ returns vm d
      → IsNewVm ip vm d
  unfolding Vms.create find
  IsNewVm-of production now p client ip c d vm h = record {
    row = ground arith;
    creating = ground arith;
    address = ground arith;
  }

  insert_vm-Ends :
      (p : Product) (q : Params) (client : String) (ip : ℕ) (v : World)
      → Stands OrderStatus.provisioning v.conn
      → q.order_amount ≡ o.amount
      → q.ip ≡ some ip
      → Ends (PayResult portal w o) (insert_vm portal deps request o p q client ip (ok tt) v)
  unfolding insert_vm
  insert_vm-Ends p q client ip v st amount address =
      let make = λ (now : ℕ).
        Vms.create deps.cipher portal.production now (new_vm portal deps request o p client ip) in
      let now = deps.clock v.conn.tick in
      let kept =
        vm_create_keeps portal.production now (new_vm portal deps request o p client ip) v.conn in
      Ends-db (PayResult portal w o) (timed deps make)
        (create_job_for portal deps request o q client ip) v
        (λ vm d h.
          create_job_for-Ends q client ip (ok vm) (record v { conn = d })
            (Stands-by OrderStatus.provisioning v.conn _ (returns vm d) st kept h)
            (λ x e.
              subst (λ y. IsNewVm ip y d) (ground arith)
                (IsNewVm-of portal.production now p client ip v.conn d vm h))
            amount address)
        (λ e d h.
          create_job_for-Ends q client ip (err e) (record v { conn = d })
            (Stands-by OrderStatus.provisioning v.conn _ (raises e d) st kept h) (λ x k. cc) amount
            address)

  -- The order's status is written, or nothing is.
  status_set :
      (s : OrderStatus) (now : ℕ) (c d : Conn)
      → Orders.update_status o.id OrderStatus.provisioning now c ≡ returns tt d
      → Stands s c
      → Stands OrderStatus.provisioning d
  unfolding Orders.update_status
  status_set s now c d h st =
      let ch = st.charged in
      let (n, eu) = ch.charged in
      let (k, eo) = ch.placed in
      let users : d.tables.users ≡ c.tables.users = ground arith in
      let orders : d.tables.orders
          ≡ update_where (λ x. x.id == o.id) (set_status OrderStatus.provisioning now)
              c.tables.orders =
        ground arith in
      record {
        charged = record {
          pending = ch.pending;
          payer = ch.payer;
          had = ch.had;
          covered = ch.covered;
          charged = (n, ap (find User.id o.user_id) users ∙ eu);
          placed = (
            now,
            ap (find Order.id o.id) orders
                ∙ ground (
                  arith,
                  eo,
                  find-update_key Order.id o.id o.id (set_status OrderStatus.provisioning now)
                      c.tables.orders (λ r. refl),
                ),
          );
        };
        follows =
            Follows-trans w.conn c d st.follows
              (record { same = ground arith; ticks = ground arith });
      }

  status_not_set :
      (now : ℕ) (c d : Conn) (e : Error)
      → Orders.update_status o.id OrderStatus.provisioning now c ≡ raises e d
      → KeepsMoney c d
  unfolding Orders.update_status
  status_not_set now c d e h = record {
    users = ground arith;
    orders = ground arith;
    follows = record { same = ground arith; ticks = ground arith };
  }

  keys_keep : (c : Conn) → KeepsMoney c (conn_of (get_keys_by_user o.user_id c))
  unfolding get_keys_by_user
  keys_keep c = record {
    users = ground arith;
    orders = ground arith;
    follows = record { same = ground arith; ticks = ground arith };
  }

  pub with_address-Ends :
      (p : Product) (cc' : ClusterConfig) (client : String) (r : Result (ℕ × String × String))
      (v : World)
      → Stands OrderStatus.paid v.conn
      → Ends (PayResult portal w o) (with_address portal deps request o p cc' client r v)
  unfolding with_address insert_vm
  with_address-Ends p cc' client (err e) v st =
      give_back-Ends portal deps request o w priced OrderStatus.paid none _ _ v st.charged
        st.follows
  with_address-Ends p cc' client (ok (ip, gateway, cidr)) v st =
      Ends-db (PayResult portal w o) (get_keys_by_user o.user_id) _ v
        (λ keys d h.
          begin (ok keys) d
            (Stands-by OrderStatus.paid v.conn _ (returns keys d) st (keys_keep v.conn) h))
        (λ e d h.
          begin (err e) d
            (Stands-by OrderStatus.paid v.conn _ (raises e d) st (keys_keep v.conn) h))
    where
      begin :
          (keys : Result (List String)) (c : Conn)
          → Stands OrderStatus.paid c
          → Ends (PayResult portal w o) (
              (db (timed deps (Orders.update_status o.id OrderStatus.provisioning))
                  >>= insert_vm portal deps request o p
                      (new_params portal deps request o p cc'
                        (keys_or portal deps request o keys)
                        ip
                        gateway
                        cidr)
                      client
                      ip)
                (record v { conn = c }))
      begin keys c st1 =
          Ends-db (PayResult portal w o)
            (timed deps (Orders.update_status o.id OrderStatus.provisioning)) _
            (record v { conn = c })
            (λ _ d h.
              insert_vm-Ends p _ client ip (record v { conn = d })
                (status_set OrderStatus.paid _ c d h st1) refl refl)
            (λ e d h.
              let st2 = Stands-kept OrderStatus.paid c d st1 (status_not_set _ c d e h) in
              give_back-Ends portal deps request o w priced OrderStatus.paid (some ip) _ _
                (record v { conn = d }) st2.charged st2.follows)
