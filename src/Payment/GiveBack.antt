-- ===== src/Payment/GiveBack.antt =====
-- The payment that is given back.
use incus.Base.{
  ℕ, ◌+◌, String, ◌≡◌, ◌⊎◌, inl, inr, refl, ◌∙◌, ap, subst, sym, false, Option, none, some, arith,
  Bool-cases, ◌==◌,
}
use incus.Base.Int.{zero_ℤ, ◌≤ℤ◌, ◌+ℤ◌, ◌-ℤ◌, sub-add_cancel}
use incus.Base.Table.{find, update_where, find-update_key}
use incus.Models.{User, Order, OrderStatus, Text, TxType, refunded_order}
use incus.Store.{
  Tables, Conn, M, Outcome, returns, raises, conn_of, logged, transaction, ◌>>◌, pure,
}
use incus.Orders
use incus.Orders.{set_status, debit}
use incus.Users.{adjust_balance, credit}
use incus.Ips.{release}
use incus.Checkout.{rollback_payment}
use incus.Provision.World.{World, Deps, goes, best_effort, timed, done, bind-goes}
use incus.Provision.VmCreate.Compensation.{
  Follows, Follows-refl, Follows-trans, FaultIn, FaultIn-widen,
}
use incus.Payment.{Portal, PayRequest, give_back, refunded}
use incus.Payment.Frame.{KeepsMoney}
use incus.Payment.Charge.{IsCharged, IsRestored, Restored}

logged-returns : {A : Type 0} (m : M A) (c : Conn) → logged m c ≡ returns tt (conn_of (m c))
logged-returns {A} m c = by_outcome (m c)
  where
    by_outcome : (r : Outcome A) → logged (λ _. r) c ≡ returns tt (conn_of r)
    by_outcome (returns a d) = refl
    by_outcome (raises e d) = refl

module _ (o : Order) (reason : Text) (now : ℕ) where
  credit_back : M (Unit {0})
  credit_back =
      adjust_balance o.user_id o.amount TxType.refund (refunded_order o.id reason) none now

  -- BEGIN, the balance, the booking and COMMIT.
  credited :
      (c : Conn) (u : User)
      → find User.id o.user_id c.tables.users ≡ some u
      → zero_ℤ ≤ℤ (u.balance +ℤ o.amount)
      → c.fails c.tick ≡ false
      → c.fails (c.tick + 1) ≡ false
      → c.fails (c.tick + 1 + 1) ≡ false
      → c.fails (c.tick + 1 + 1 + 1) ≡ false
      → (conn_of (credit_back c)).tables.users
        ≡ update_where (λ v. v.id == o.user_id) (credit o.amount now) c.tables.users
  unfolding credit_back adjust_balance transaction
  credited c u found nonneg f0 f1 f2 f3 = ground (
    arith,
    found,
    nonneg,
    find-update_key User.id o.user_id o.user_id (credit o.amount now) c.tables.users (λ r. refl),
  )

  credit_back_keeps :
      (c : Conn)
      → ((conn_of (credit_back c)).tables.orders ≡ c.tables.orders)
        × Follows c (conn_of (credit_back c))
  unfolding credit_back adjust_balance transaction
  credit_back_keeps c = (ground arith, record { same = ground arith; ticks = ground arith })

  -- The balance goes back, unless a statement fails.
  credited_or_fault :
      (c : Conn) (u : User)
      → find User.id o.user_id c.tables.users ≡ some u
      → zero_ℤ ≤ℤ (u.balance +ℤ o.amount)
      → FaultIn c (conn_of (credit_back c))
        ⊎ ((conn_of (credit_back c)).tables.users
            ≡ update_where (λ v. v.id == o.user_id) (credit o.amount now) c.tables.users)
  unfolding credit_back adjust_balance transaction
  credited_or_fault c u found nonneg = elim (Bool-cases (c.fails c.tick)) [
    | inl e ↦ inl (c.tick, omega arith, ground (arith, found, nonneg), e)
    | inr f0 ↦ elim (Bool-cases (c.fails (c.tick + 1))) [
      | inl e ↦ inl (c.tick + 1, omega arith, ground (arith, found, nonneg), e)
      | inr f1 ↦ elim (Bool-cases (c.fails (c.tick + 1 + 1))) [
        | inl e ↦ inl (c.tick + 1 + 1, omega arith, ground (arith, found, nonneg), e)
        | inr f2 ↦ elim (Bool-cases (c.fails (c.tick + 1 + 1 + 1))) [
          | inl e ↦ inl (
            c.tick + 1 + 1 + 1,
            omega arith,
            ground (
              arith,
              found,
              nonneg,
              find-update_key User.id o.user_id o.user_id (credit o.amount now) c.tables.users
                  (λ r. refl),
            ),
            e,
          )
          | inr f3 ↦ inr (credited c u found nonneg f0 f1 f2 f3)
        ]
      ]
    ]
  ]

  release_keeps : (ip : ℕ) (c : Conn) → KeepsMoney c (conn_of (release ip now c))
  unfolding release
  release_keeps ip c = record {
    users = ground arith;
    orders = ground arith;
    follows = record { same = ground arith; ticks = ground arith };
  }

  cancelled_or_fault :
      (c : Conn)
      → let d = conn_of (Orders.update_status o.id OrderStatus.cancelled now c) in
        (d.tables.users ≡ c.tables.users)
        × Follows c d
        × (FaultIn c d
            ⊎ (d.tables.orders
                ≡ update_where
                    (λ v. v.id == o.id)
                    (set_status OrderStatus.cancelled now)
                    c.tables.orders))
  unfolding Orders.update_status
  cancelled_or_fault c =
      let follows : Follows c (conn_of (Orders.update_status o.id OrderStatus.cancelled now c)) =
        record { same = ground arith; ticks = ground arith } in
      elim (Bool-cases (c.fails c.tick)) [
        | inl e ↦ (ground arith, follows, inl (c.tick, omega arith, ground arith, e))
        | inr works ↦ (ground arith, follows, inr (ground arith))
      ]

  -- The connection after the address is released.
  abbrev released : Option ℕ → Conn → Conn
  released none c = c
  released (some ip) c = conn_of (release ip now c)

  released_keeps : (ip : Option ℕ) (c : Conn) → KeepsMoney c (released ip c)
  released_keeps none c = record { users = refl; orders = refl; follows = Follows-refl c }
  released_keeps (some ip) c = release_keeps ip c

  abbrev after_all : Option ℕ → Conn → Conn
  after_all ip c =
      conn_of (
        Orders.update_status o.id OrderStatus.cancelled now (released ip (conn_of (credit_back c))))

  rollback_payment_lem :
      (ip : Option ℕ) (c : Conn) → rollback_payment o ip reason now c ≡ returns tt (after_all ip c)
  unfolding rollback_payment credit_back
  rollback_payment_lem none c =
      ap
        (λ (r : Outcome (Unit {0})).
          ((λ _. r) >> (pure tt >> logged (Orders.update_status o.id OrderStatus.cancelled now))) c)
        (logged-returns credit_back c)
      ∙ logged-returns (Orders.update_status o.id OrderStatus.cancelled now)
          (conn_of (credit_back c))
  rollback_payment_lem (some ip) c =
      ap
        (λ (r : Outcome (Unit {0})).
          ((λ _. r)
              >> (logged (release ip now)
                  >> logged (Orders.update_status o.id OrderStatus.cancelled now)))
            c)
        (logged-returns credit_back c)
      ∙ ap
          (λ (r : Outcome (Unit {0})).
            ((λ _. r) >> logged (Orders.update_status o.id OrderStatus.cancelled now))
              (conn_of (credit_back c)))
          (logged-returns (release ip now) (conn_of (credit_back c)))
      ∙ logged-returns (Orders.update_status o.id OrderStatus.cancelled now)
          (released (some ip) (conn_of (credit_back c)))

  module _ (t : Tables) (s : OrderStatus) (ip : Option ℕ) (c : Conn) (h : IsCharged t o s c)
      (priced : zero_ℤ ≤ℤ o.amount) where
    IsRestored-of :
        (conn_of (credit_back c)).tables.users
          ≡ update_where (λ v. v.id == o.user_id) (credit o.amount now) c.tables.users
        → let d = released ip (conn_of (credit_back c)) in
          (after_all ip c).tables.orders
            ≡ update_where
                (λ v. v.id == o.id)
                (set_status OrderStatus.cancelled now)
                d.tables.orders
          → (after_all ip c).tables.users ≡ d.tables.users
          → IsRestored t o (after_all ip c)
    IsRestored-of paid_back cancelled same_users =
        let c1 = conn_of (credit_back c) in
        let kept = released_keeps ip c1 in
        let (orders, _) = credit_back_keeps c in
        let (n, eu) = h.charged in
        let (k, eo) = h.placed in
        record {
          balance = (
            h.payer,
            now,
            h.had,
            ap (find User.id o.user_id) (same_users ∙ kept.users ∙ paid_back)
                ∙ ground (
                  arith,
                  eu,
                  sub-add_cancel h.payer.balance o.amount,
                  find-update_key User.id o.user_id o.user_id (credit o.amount now) c.tables.users
                      (λ r. refl),
                ),
          );
          order = (
            now,
            ap (find Order.id o.id) cancelled
                ∙ ap
                    (λ x.
                      find Order.id o.id
                        (update_where (λ v. v.id == o.id) (set_status OrderStatus.cancelled now) x))
                    (kept.orders ∙ orders)
                ∙ ground (
                  arith,
                  eo,
                  find-update_key Order.id o.id o.id (set_status OrderStatus.cancelled now)
                      c.tables.orders (λ r. refl),
                ),
          );
        }

    Restored-of : (w : Conn) → w.tables ≡ t → Follows w c → Restored w o (after_all ip c)
    Restored-of w same follows =
        let (n, eu) = h.charged in
        let c1 = conn_of (credit_back c) in
        let d = released ip c1 in
        let (_, follows1) = credit_back_keeps c in
        let kept = released_keeps ip c1 in
        let (users, follows3, cancelled) = cancelled_or_fault d in
        let follows2 = Follows-trans c c1 d follows1 kept.follows in
        elim (credited_or_fault c (debit o.amount n h.payer) eu nonneg) [
          | inl fault ↦ inl (
              FaultIn-widen w c c1 (after_all ip c) follows
                (Follows-trans c1 d (after_all ip c) kept.follows follows3) fault)
          | inr paid_back ↦ elim cancelled [
            | inl fault ↦ inl (
                FaultIn-widen w d (after_all ip c) (after_all ip c)
                  (Follows-trans w c d follows follows2) (Follows-refl (after_all ip c)) fault)
            | inr gone ↦ inr (
                subst (λ x. IsRestored x o (after_all ip c)) (sym same)
                  (IsRestored-of paid_back gone users))
          ]
        ]
      where
        nonneg : zero_ℤ ≤ℤ ((h.payer.balance -ℤ o.amount) +ℤ o.amount)
        nonneg =
            subst (λ b. zero_ℤ ≤ℤ b) (sym (sub-add_cancel h.payer.balance o.amount))
              (omega (arith, h.covered, priced))

module _ (portal : Portal) (deps : Deps) (request : PayRequest) (o : Order) where
  undone_conn : Option ℕ → Text → World → Conn
  undone_conn ip reason v = after_all o reason (deps.clock v.conn.tick) ip v.conn

  -- The handler gives the payment back and says so.
  give_back-goes :
      (ip : Option ℕ) (reason : Text) (answer : String) (v : World)
      → give_back portal deps request o ip reason answer v
        ≡ goes (refunded answer) (record v { conn = undone_conn ip reason v })
  unfolding give_back undone_conn
  give_back-goes ip reason answer v =
      bind-goes (best_effort (timed deps (rollback_payment o ip reason)))
        (λ _. done (refunded answer)) v (record v { conn = undone_conn ip reason v }) tt _
        (ap (λ (r : Outcome (Unit {0})). best_effort (λ _. r) v)
          (rollback_payment_lem o reason (deps.clock v.conn.tick) ip v.conn))
        refl

  pub give_back-Restored :
      (w : Conn) (s : OrderStatus) (ip : Option ℕ) (reason : Text) (answer : String) (v : World)
      → IsCharged w.tables o s v.conn
      → zero_ℤ ≤ℤ o.amount
      → Follows w v.conn
      → (u : World) × (give_back portal deps request o ip reason answer v
          ≡ goes (refunded answer) u)
        × Restored w o u.conn
  unfolding undone_conn
  give_back-Restored w s ip reason answer v charged priced follows = (
    record v { conn = undone_conn ip reason v },
    give_back-goes ip reason answer v,
    Restored-of o reason (deps.clock v.conn.tick) w.tables s ip v.conn charged priced w refl
        follows,
  )
