-- ===== src/Provision/VmCreate/Lookup.antt =====
-- What the compensation of a failed job looks up, and the instance that it deletes.
use incus.Base.{
  ℕ, ◌+◌, ◌≡◌, ◌⊎◌, inl, inr, refl, true, Option, none, some, String, arith, Bool-cases,
  if◌then◌else◌,
}
use incus.Base.Int.{ℤ, zero_ℤ}
use incus.Base.Table.{find}
use incus.Models.{Order, Vm}
use incus.Store.{Tables, Conn, sent}
use incus.Orders
use incus.Vms
use incus.Provision.World.{World, Cluster, goes, world_of, send}
use incus.Provision.VmCreate.{find_ip, find_amount, delete_leftover, ip_or, amount_or, is_zero}
use incus.Provision.VmCreate.Compensation.{Follows, FaultIn}

-- A part that changes no row, and sends `n` statements.
pub record Kept (n : ℕ) (w v : World) : Type 0 where
  pub tables : v.conn.tables ≡ w.conn.tables
  pub fails : v.conn.fails ≡ w.conn.fails
  pub ticks : v.conn.tick ≡ w.conn.tick + n
  pub params : v.params ≡ w.params

pub Kept-Follows : (n : ℕ) (w v : World) → Kept n w v → Follows w.conn v.conn
Kept-Follows n w v k = record { same = k.fails; ticks = omega (arith, k.ticks) }

-- The address and the amount by the rows.
abbrev pub known_ip : Option ℕ → Option ℕ → Tables → Option ℕ
known_ip none ip t = ip
known_ip (some vm_id) ip t = ip_or ip (find Vm.id vm_id t.vms)

abbrev pub known_amount : Option ℕ → ℤ → Tables → ℤ
known_amount none amount t = amount
known_amount (some order_id) amount t =
    if is_zero amount then amount_or amount (find Order.id order_id t.orders) else amount

-- The statements that the look-ups send.
abbrev pub ip_reads : Option ℕ → ℕ
ip_reads none = 0
ip_reads (some vm_id) = 1

abbrev pub amount_reads : Option ℕ → ℤ → ℕ
amount_reads none amount = 0
amount_reads (some order_id) amount = if is_zero amount then 1 else 0

-- What is looked up is what the rows say, or nothing since the statement failed.
abbrev pub Found : {A : Type 0} → A → A → A → Conn → Conn → Type 0
Found nothing known x c d = (x ≡ known) ⊎ ((x ≡ nothing) × FaultIn c d)

-- The world after one read.
abbrev read : World → World
read w = record w { conn = sent w.conn }

Kept-refl : (w : World) → Kept 0 w w
Kept-refl w = record { tables = refl; fails = refl; ticks = omega arith; params = refl }

read-Kept : (w : World) → Kept 1 w (read w)
read-Kept w = record { tables = refl; fails = refl; ticks = refl; params = refl }

pub find_ip-Found :
    (vm_id ip : Option ℕ) (w : World)
    → (v : World) × (x : Option ℕ) × (find_ip vm_id ip w ≡ goes x v)
      × Kept (ip_reads vm_id) w v
      × Found none (known_ip vm_id ip w.conn.tables) x w.conn v.conn
unfolding find_ip Vms.get_by_id
find_ip-Found none ip w = (w, ip, refl, Kept-refl w, inl refl)
find_ip-Found (some id) (some ip) w = (read w, some ip, ground arith, read-Kept w, inl refl)
find_ip-Found (some id) none w = elim (Bool-cases (w.conn.fails w.conn.tick)) [
  | inl broken ↦ (
    read w,
    none,
    ground arith,
    read-Kept w,
    inr (refl, (w.conn.tick, omega arith, omega arith, broken)),
  )
  | inr works ↦
      (read w, ip_or none (find Vm.id id w.conn.tables.vms), ground arith, read-Kept w, inl refl)
]

is_zero-zero : (a : ℤ) → is_zero a ≡ true → a ≡ zero_ℤ
is_zero-zero a h = ground arith

pub find_amount-Found :
    (order_id : Option ℕ) (amount : ℤ) (w : World)
    → (v : World) × (x : ℤ) × (find_amount order_id amount w ≡ goes x v)
      × Kept (amount_reads order_id amount) w v
      × Found zero_ℤ (known_amount order_id amount w.conn.tables) x w.conn v.conn
unfolding find_amount Orders.get_by_id
find_amount-Found none amount w = (w, amount, refl, Kept-refl w, inl refl)
find_amount-Found (some id) amount w = elim (Bool-cases (is_zero amount)) [
  | inr given ↦ (w, amount, ground arith, rw given (Kept-refl w), inl (ground arith))
  | inl missing ↦ elim (Bool-cases (w.conn.fails w.conn.tick)) [
    | inl broken ↦ (
      read w,
      amount,
      ground arith,
      rw missing (read-Kept w),
      inr (is_zero-zero amount missing, (w.conn.tick, omega arith, omega arith, broken)),
    )
    | inr works ↦ (
      read w,
      amount_or amount (find Order.id id w.conn.tables.orders),
      ground arith,
      rw missing (read-Kept w),
      inl (ground arith),
    )
  ]
]

-- It sends requests only.
pub delete_leftover-goes :
    (cluster : Option Cluster) (project name : String) (w : World)
    → (v : World) × (delete_leftover cluster project name w ≡ goes tt v)
      × (v.conn ≡ w.conn)
      × (v.params ≡ w.params)
unfolding delete_leftover send
delete_leftover-goes none project name w = (w, refl, refl, refl)
delete_leftover-goes (some cluster) project name w =
    let v = world_of (delete_leftover (some cluster) project name w) in
    (v, ground arith, ground arith, ground arith)
