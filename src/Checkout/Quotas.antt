-- ===== src/Checkout/Quotas.antt =====
-- The quota check before a payment.
use incus.Base.{ℕ, ◌+◌, ◌≤◌, ◌≡◌, ◌⊎◌, Option, none, some, arith, ◌==◌, Option-cases, inl, inr}
use incus.Base.Table.{first_where, select_where}
use incus.Models.{Product, Quota}
use incus.Store.{Tables, Conn, healthy}
use incus.Vms.{list_by_user, usage, Usage, visible_to, order_by_id_desc}
use incus.Checkout.{check_quota, get_quota, over_limit}

-- The limit is 0 or leaves room.
abbrev pub Fits : ℕ → ℕ → ℕ → Type 0
Fits max current added = (max ≡ 0) ⊎ (current + added ≤ max)

pub record IsWithin (q : Quota) (u : Usage) (p : Product) : Type 0 where
  pub vms : Fits q.max_vms u.vms 1
  pub vcpus : Fits q.max_vcpus u.vcpus p.cpu
  pub ram : Fits q.max_ram_mb u.ram_mb p.memory_mb
  pub disk : Fits q.max_disk_gb u.disk_gb p.disk_gb

-- The quota row of a user, and what the user has.
abbrev pub quota_of : ℕ → Tables → Option Quota
quota_of user_id t = first_where (λ (q : Quota). q.user_id == user_id) t.quotas

abbrev pub usage_of : ℕ → Tables → Usage
usage_of user_id t = usage (order_by_id_desc (select_where (visible_to user_id) t.vms))

over_limit-none : (q : Quota) (u : Usage) (p : Product) → over_limit q u p ≡ none → IsWithin q u p
unfolding over_limit
over_limit-none q u p h = record {
  vms = ground arith;
  vcpus = ground arith;
  ram = ground arith;
  disk = ground arith;
}

within-over_limit : (q : Quota) (u : Usage) (p : Product) → IsWithin q u p → over_limit q u p ≡ none
unfolding over_limit
within-over_limit q u p h = ground (arith, h.vms, h.vcpus, h.ram, h.disk)

-- Whatever fails, a purchase passes the check only if the user has a quota row and each of its
-- limits is 0 or covers what the user has and the purchase adds.
pub check_quota_admits :
    (user_id : ℕ) (p : Product) (c : Conn)
    → (check_quota user_id p c).0 ≡ none
    → (q : Quota) × (quota_of user_id c.tables ≡ some q) × IsWithin q (usage_of user_id c.tables) p
unfolding check_quota get_quota list_by_user
check_quota_admits user_id p c h = elim (Option-cases (quota_of user_id c.tables)) [
  | inl missing ↦ absurd (ground arith)
  | inr (q, e) ↦ (q, e, over_limit-none q (usage_of user_id c.tables) p (ground arith))
]

-- With a database that answers, a purchase within the limits of the user's quota row passes.
pub check_quota_passes :
    (user_id tick serial : ℕ) (p : Product) (t : Tables) (q : Quota)
    → quota_of user_id t ≡ some q
    → IsWithin q (usage_of user_id t) p
    → (check_quota user_id p (healthy t tick serial)).0 ≡ none
unfolding check_quota get_quota list_by_user
check_quota_passes user_id tick serial p t q e h =
    ground (arith, within-over_limit q (usage_of user_id t) p h)
