-- ===== src/Checkout/Transitions.antt =====
-- The transitions that an administrator may make.
use incus.Base.{
  ℕ, ◌≡◌, refl, Bool, true, false, some, List, [], ◌∷◌, arith, ◌==◌, Bool-cases, inl, inr,
}
use incus.Base.Table.{find, find-update_key}
use incus.Models.{Order, OrderStatus}
use incus.Store.{Conn}
use incus.Orders
use incus.Orders.{set_status}
use incus.Checkout.{update_order_status, order_transitions, has_status}

-- An administrator's request: an order, a status and a time.
pub record StatusRequest : Type 0 where
  pub order_id : ℕ
  pub wanted : OrderStatus
  pub now : ℕ

-- The requests one after the other, whatever they answer.
pub update_statuses : List StatusRequest → Conn → Conn
update_statuses [] c = c
update_statuses (r ∷ rest) c =
    update_statuses rest (update_order_status r.order_id r.wanted r.now c).1

abbrev pub is_closed : OrderStatus → Bool
is_closed OrderStatus.expired = true
is_closed OrderStatus.cancelled = true
is_closed _ = false

closed_refuses :
    (o : Order) (wanted : OrderStatus)
    → is_closed o.status ≡ true
    → order_transitions o.status ≡ some []
unfolding order_transitions
closed_refuses o wanted closed = ground arith

update_keeps_closed :
    (r : StatusRequest) (id : ℕ) (o : Order) (c : Conn)
    → find Order.id id c.tables.orders ≡ some o
    → is_closed o.status ≡ true
    → find Order.id id (update_order_status r.order_id r.wanted r.now c).1.tables.orders ≡ some o
unfolding update_order_status Orders.get_by_id Orders.update_status has_status
update_keeps_closed r id o c found closed = elim (Bool-cases (r.order_id == id)) [
  | inl same ↦ ground (arith, closed_refuses o r.wanted closed)
  | inr differs ↦ ground (
    arith,
    find-update_key Order.id id r.order_id (set_status r.wanted r.now) c.tables.orders (λ x. refl),
  )
]

-- An order that is expired or cancelled stays as it is, whatever an administrator asks for, for
-- this order or others, and whatever fails.
pub closed_forever :
    (requests : List StatusRequest) (id : ℕ) (o : Order) (c : Conn)
    → find Order.id id c.tables.orders ≡ some o
    → is_closed o.status ≡ true
    → find Order.id id (update_statuses requests c).tables.orders ≡ some o
unfolding update_statuses
closed_forever [] id o c found closed = found
closed_forever (r ∷ rest) id o c found closed =
    closed_forever rest id o (update_order_status r.order_id r.wanted r.now c).1
      (update_keeps_closed r id o c found closed) closed
