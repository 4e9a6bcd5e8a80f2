-- ===== src/Provision/VmCreate/Compensation.antt =====
-- What the compensation of a failed job comes to.
use incus.Base.{
  ℕ, ◌+◌, ◌≤◌, ◌<◌, ◌∙◌, ap, ◌≡◌, ◌⊎◌, inl, inr, refl, sym, Bool, true, false, ◌&&◌, Option, none,
  some, arith, ltb, ◌==◌, Bool-cases, if◌then◌else◌,
}
use incus.Base.Int.{ℤ, zero_ℤ, ltb_ℤ}
use incus.Base.Table.{find-update_key, update_where, count_where}
use incus.Models.{User, ProvisioningJob, OrderStatus, VmStatus, Text, refunded_order}
use incus.Store.{Tables, Conn, M, conn_of, has_user, transaction}
use incus.Users.{credit}
use incus.Orders
use incus.Orders.{set_status}
use incus.Vms
use incus.Vms.{with_status}
use incus.Ips.{release, cooled}
use incus.Jobs.{refund_once, refundable}
use incus.Jobs.Refund.{refund_tables}
use incus.Provision.World.{World, Deps, goes, R, best_effort, timed, done}
use incus.Provision.VmCreate.{release_ip, refund, cancel_order, mark_vm_error}

-- A later state of the connection: the same statements fail.
pub record Follows (c d : Conn) : Type 0 where
  pub same : d.fails ≡ c.fails
  pub ticks : c.tick ≤ d.tick

pub Follows-refl : (c : Conn) → Follows c c
Follows-refl c = record { same = refl; ticks = omega arith }

pub Follows-trans : (c d e : Conn) → Follows c d → Follows d e → Follows c e
Follows-trans c d e f g = record { same = g.same ∙ f.same; ticks = omega (arith, f.ticks, g.ticks) }

-- A statement between the two states has failed.
abbrev pub FaultIn : Conn → Conn → Type 0
FaultIn c d = (n : ℕ) × (c.tick ≤ n) × (n < d.tick) × (c.fails n ≡ true)

-- A fault between two states is one between an earlier and a later one.
pub FaultIn-widen : (b c d e : Conn) → Follows b c → Follows d e → FaultIn c d → FaultIn b e
FaultIn-widen b c d e f g (n, from, to, broken) = (
  n,
  omega (arith, f.ticks, from),
  omega (arith, g.ticks, to),
  ap (λ (h : ℕ → Bool). h n) (sym f.same) ∙ broken,
)

-- No statement fails from here on.
abbrev pub IsQuiet : Conn → Type 0
IsQuiet c = (n : ℕ) → c.tick ≤ n → c.fails n ≡ false

pub IsQuiet-later : (c d : Conn) → Follows c d → IsQuiet c → IsQuiet d
IsQuiet-later c d f quiet n later =
    ap (λ (h : ℕ → Bool). h n) f.same ∙ quiet n (omega (arith, f.ticks, later))

pub quiet-FaultIn : (c d : Conn) → IsQuiet c → FaultIn c d → ⊥
quiet-FaultIn c d quiet (n, from, to, broken) = ground (arith, quiet n from, broken)

-- A change of the tables, which takes the time and an id of the sequence.
abbrev pub Change : Type 0
Change = ℕ → ℕ → Tables → Tables

abbrev pub IsIdle : Change → Type 0
IsIdle f = (now s : ℕ) (t : Tables) → f now s t ≡ t

-- The change is made, at the time of a statement between the two states; or nothing is changed,
-- where one of these statements failed or there is nothing to change.
abbrev pub Tries : (ℕ → ℕ) → Change → Conn → Conn → Type 0
Tries clock f c d =
    ((n s : ℕ) × (c.tick ≤ n) × (n < d.tick) × (d.tables ≡ f (clock n) s c.tables))
    ⊎ ((d.tables ≡ c.tables) × (FaultIn c d ⊎ IsIdle f))

-- A part of a compensation: it goes on, keeps the parameters, and tries its change.
pub record Tried (clock : ℕ → ℕ) (f : Change) (w v : World) : Type 0 where
  pub tries : Tries clock f w.conn v.conn
  pub follows : Follows w.conn v.conn
  pub params : v.params ≡ w.params
  pub requests : v.requests ≡ w.requests

abbrev pub no_change : Change
no_change now s t = t

abbrev pub release_change : Option ℕ → Change
release_change none now s t = t
release_change (some ip) now s t = record t {
  ips = update_where (λ a. a.ip == ip) (cooled now) t.ips;
}

abbrev pub cancel_change : Option ℕ → Change
cancel_change none now s t = t
cancel_change (some id) now s t = record t {
  orders = update_where (λ o. o.id == id) (set_status OrderStatus.cancelled now) t.orders;
}

abbrev pub vm_error_change : Option ℕ → Change
vm_error_change none now s t = t
vm_error_change (some id) now s t = record t {
  vms = update_where (λ v. v.id == id) (with_status VmStatus.error now) t.vms;
}

-- A refund is due for a job that is not marked and a user that exists.
abbrev pub refund_tables_if : ProvisioningJob → ℤ → Text → Change
refund_tables_if job amount desc now s t =
    if ltb 0 (count_where (refundable job.id) t.jobs) && has_user job.user_id t
    then refund_tables job.id job.user_id amount desc now s t
    else t

-- And only for an order with an amount.
abbrev pub refund_change : ProvisioningJob → Option ℕ → ℤ → Text → Change
refund_change job none amount reason = no_change
refund_change job (some order_id) amount reason = elim (ltb_ℤ zero_ℤ amount) [
  | true ↦ refund_tables_if job amount (refunded_order order_id reason)
  | false ↦ no_change
]

-- A best-effort call, through what its connection comes to.
pub best_effort-Tried :
    {A : Type 0} (clock : ℕ → ℕ) (f : Change) (m : M A)
    → ((c : Conn) → Tries clock f c (conn_of (m c)) × Follows c (conn_of (m c)))
    → (w : World) → (v : World) × (best_effort m w ≡ goes tt v) × Tried clock f w v
best_effort-Tried clock f m h w =
    let (t, e) = h w.conn in
    (
      record w { conn = conn_of (m w.conn) },
      ground arith,
      record { tries = t; follows = e; params = refl; requests = refl },
    )

-- A call of one statement, which fails or makes its change.
abbrev pub IsSingle : {A : Type 0} → Change → (ℕ → M A) → Type 0
IsSingle f m =
    (now : ℕ) (c : Conn)
    → (((c.fails c.tick ≡ true) × ((conn_of (m now c)).tables ≡ c.tables))
        ⊎ ((conn_of (m now c)).tables ≡ f now 0 c.tables))
      × ((conn_of (m now c)).fails ≡ c.fails)
      × ((conn_of (m now c)).tick ≡ c.tick + 1)

pub single-Tries :
    {A : Type 0} (clock : ℕ → ℕ) (f : Change) (m : ℕ → M A)
    → IsSingle f m
    → (c : Conn)
    → Tries clock f c (conn_of (m (clock c.tick) c)) × Follows c (conn_of (m (clock c.tick) c))
single-Tries clock f m h c =
    let (what, fails, tick) = h (clock c.tick) c in
    let follows : Follows c (conn_of (m (clock c.tick) c)) = record {
      same = fails;
      ticks = omega (arith, tick);
    } in
    elim what [
      | inl (broken, same) ↦
          (inr (same, inl (c.tick, omega arith, omega (arith, tick), broken)), follows)
      | inr made ↦ (inl (c.tick, 0, omega arith, omega (arith, tick), made), follows)
    ]

pub nothing-Tried : (clock : ℕ → ℕ) (f : Change) (w : World) → IsIdle f → Tried clock f w w
nothing-Tried clock f w h = record {
  tries = inr (refl, inr h);
  follows = Follows-refl w.conn;
  params = refl;
  requests = refl;
}

module _ (clock : ℕ → ℕ) (job : ProvisioningJob) (amount : ℤ) (desc : Text) (now : ℕ)
    (c : Conn) where
  abbrev after_refund : Conn
  after_refund = conn_of (refund_once job.id job.user_id amount desc now c)

  refund_once-Follows : Follows c after_refund × (c.tick < after_refund.tick)
  unfolding refund_once transaction
  refund_once-Follows = (record { same = ground arith; ticks = ground arith }, ground arith)

  -- The five statements of a refund: BEGIN, the mark, the balance, the booking and COMMIT. The
  -- first that is sent and fails undoes all.
  refund_once-made :
      (FaultIn c after_refund × (after_refund.tables ≡ c.tables))
      ⊎ (after_refund.tables ≡ refund_tables_if job amount desc now c.serial c.tables)
  unfolding refund_once transaction refund_tables
  refund_once-made =
      let payee =
        find-update_key User.id job.user_id job.user_id (credit amount now) c.tables.users
          (λ r. refl) in
      elim (Bool-cases (c.fails c.tick)) [
        | inl e ↦ inl ((c.tick, omega arith, ground arith, e), ground arith)
        | inr e0 ↦ elim (Bool-cases (c.fails (c.tick + 1))) [
          | inl e ↦ inl ((c.tick + 1, omega arith, ground arith, e), ground arith)
          | inr e1 ↦ elim (Bool-cases (ltb 0 (count_where (refundable job.id) c.tables.jobs))) [
            | inr marked ↦ inr (ground arith)
            | inl due ↦ elim (Bool-cases (c.fails (c.tick + 1 + 1))) [
              | inl e ↦ inl ((c.tick + 1 + 1, omega arith, ground arith, e), ground arith)
              | inr e2 ↦ elim (Bool-cases (has_user job.user_id c.tables)) [
                | inr nobody ↦ inr (ground arith)
                | inl there ↦ elim (Bool-cases (c.fails (c.tick + 1 + 1 + 1))) [
                  | inl e ↦ inl ((c.tick + 1 + 1 + 1, omega arith, ground arith, e), ground arith)
                  | inr e3 ↦ elim (Bool-cases (c.fails (c.tick + 1 + 1 + 1 + 1))) [
                    | inl e ↦
                        inl ((c.tick + 1 + 1 + 1 + 1, omega arith, ground arith, e), ground arith)
                    | inr e4 ↦ inr (ground (arith, payee))
                  ]
                ]
              ]
            ]
          ]
        ]
      ]

  refund_once-Tries :
      now ≡ clock c.tick
      → Tries clock (refund_tables_if job amount desc) c after_refund × Follows c after_refund
  refund_once-Tries at =
      let (follows, on) = refund_once-Follows in
      elim refund_once-made [
        | inl (fault, same) ↦ (inr (same, inl fault), follows)
        | inr made ↦ (
          inl (
            c.tick,
            c.serial,
            omega arith,
            on,
            made ∙ ap (λ n. refund_tables_if job amount desc n c.serial c.tables) at,
          ),
          follows,
        )
      ]

conditional-Tried :
    {A : Type 0} (clock : ℕ → ℕ) (x : Bool) (f : Change) (m : M A)
    → ((c : Conn) → Tries clock f c (conn_of (m c)) × Follows c (conn_of (m c)))
    → (w : World)
    → (v : World) × ((elim x as (λ _. R (Unit {0})) [ true ↦ best_effort m | false ↦ done tt ]) w
        ≡ goes tt v)
      × Tried clock (elim x as (λ _. Change) [ true ↦ f | false ↦ no_change ]) w v
conditional-Tried clock true f m h w = best_effort-Tried clock f m h w
conditional-Tried clock false f m h w = (w, refl, nothing-Tried clock no_change w (λ now s t. refl))

module _ (deps : Deps) where
  pub release_ip-Tried :
      (ip : Option ℕ) (w : World)
      → (v : World) × (release_ip deps ip w ≡ goes tt v) × Tried deps.clock (release_change ip) w v
  unfolding release_ip release
  release_ip-Tried none w = (w, refl, nothing-Tried deps.clock _ w (λ now s t. refl))
  release_ip-Tried (some ip) w =
      best_effort-Tried deps.clock (release_change (some ip)) (timed deps (release ip))
        (single-Tries deps.clock (release_change (some ip)) (release ip)
          (λ now c. (ground arith, ground arith, ground arith)))
        w

  pub cancel_order-Tried :
      (id : Option ℕ) (w : World)
      → (v : World) × (cancel_order deps id w ≡ goes tt v) × Tried deps.clock (cancel_change id) w v
  unfolding cancel_order Orders.update_status
  cancel_order-Tried none w = (w, refl, nothing-Tried deps.clock _ w (λ now s t. refl))
  cancel_order-Tried (some id) w =
      let m = Orders.update_status id OrderStatus.cancelled in
      best_effort-Tried deps.clock (cancel_change (some id)) (timed deps m)
        (single-Tries deps.clock (cancel_change (some id)) m
          (λ now c. (ground arith, ground arith, ground arith)))
        w

  pub mark_vm_error-Tried :
      (id : Option ℕ) (w : World)
      → (v : World) × (mark_vm_error deps id w ≡ goes tt v)
        × Tried deps.clock (vm_error_change id) w v
  unfolding mark_vm_error Vms.update_status
  mark_vm_error-Tried none w = (w, refl, nothing-Tried deps.clock _ w (λ now s t. refl))
  mark_vm_error-Tried (some id) w =
      let m = Vms.update_status id VmStatus.error in
      best_effort-Tried deps.clock (vm_error_change (some id)) (timed deps m)
        (single-Tries deps.clock (vm_error_change (some id)) m
          (λ now c. (ground arith, ground arith, ground arith)))
        w

  pub refund-Tried :
      (job : ProvisioningJob) (id : Option ℕ) (amount : ℤ) (reason : Text) (w : World)
      → (v : World) × (refund deps job id amount reason w ≡ goes tt v)
        × Tried deps.clock (refund_change job id amount reason) w v
  unfolding refund
  refund-Tried job none amount reason w = (w, refl, nothing-Tried deps.clock _ w (λ now s t. refl))
  refund-Tried job (some id) amount reason w =
      let m = refund_once job.id job.user_id amount (refunded_order id reason) in
      conditional-Tried deps.clock (ltb_ℤ zero_ℤ amount) _ (timed deps m)
        (λ c.
          refund_once-Tries deps.clock job amount (refunded_order id reason) (deps.clock c.tick) c
            refl)
        w
