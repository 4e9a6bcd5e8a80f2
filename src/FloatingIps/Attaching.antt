-- ===== src/FloatingIps/Attaching.antt =====
-- What attaching a floating IP comes to (attachVerified of
-- incus-admin/internal/handler/portal/floating_ip.go).
use incus.Base.{
  ℕ, ◌+◌, String, Bool, true, false, Option, some, List, ◌≡◌, ◌⊎◌, inl, inr, refl, sym, subst,
  arith, Bool-cases, Option-cases, if◌then◌else◌, ◌==◌,
}
use incus.Base.Table.{
  find, find-update_where, find-key, update_where, count_where, IsKeyed, count_where-hits,
}
use incus.Models.{FloatingIp, Vm}
use incus.Store.{
  statement, Conn, sent, Result, ok, err, Outcome, returns, raises, pure, wrapped, unreachable,
  ◌>>=◌,
}
use incus.Clusters.{Manager}
use incus.FloatingIps.{
  NicApi, is_free, get_fip, attach, attachable, bound_to, detach, detachable, unbound,
}
use incus.FloatingIps.Handlers.{
  FipAnswer, attached, attach_failed, rollback_failed, already_attached, on_result, attach_verified,
  attach_read, rolled_back, mirrored, claimed, filtered, timed,
}

abbrev pub fips : Conn → List FloatingIp
fips c = c.tables.floating_ips

-- The row of an address before and after: bound to the VM, or free as it was.
pub record IsBound (id vm_id : ℕ) (c d : Conn) : Type 0 where
  pub before : FloatingIp
  pub at : ℕ
  pub found : find FloatingIp.id id (fips c) ≡ some before
  pub free : is_free before ≡ true
  pub bound : find FloatingIp.id id (fips d) ≡ some (bound_to vm_id at before)

pub record IsFreed (id vm_id : ℕ) (c d : Conn) : Type 0 where
  pub before : FloatingIp
  pub at : ℕ
  pub undone_at : ℕ
  pub found : find FloatingIp.id id (fips c) ≡ some before
  pub free : is_free before ≡ true
  pub freed : find FloatingIp.id id (fips d) ≡ some (unbound undone_at (bound_to vm_id at before))

-- What each answer means for the table.
abbrev pub AttachMeans : ℕ → ℕ → Conn → FipAnswer → Conn → Type 0
AttachMeans id vm_id c (attached hint) d = IsBound id vm_id c d
AttachMeans id vm_id c (attach_failed e) d = IsFreed id vm_id c d
AttachMeans id vm_id c (rollback_failed e r) d = IsBound id vm_id c d
AttachMeans id vm_id c answer d = fips d ≡ fips c

abbrev pub Answers : ℕ → ℕ → Conn → Outcome FipAnswer → Type 0
Answers id vm_id c (returns answer d) = AttachMeans id vm_id c answer d
Answers id vm_id c (raises e d) = ⊥

-- An UPDATE that fails, and one that is sent.
attach-result :
    (id vm_id now : ℕ) (c : Conn)
    → (attach id vm_id now c ≡ raises (wrapped "attach floating_ip" unreachable) (sent c))
      ⊎ (attach id vm_id now c
          ≡ returns (count_where (attachable id) (fips c) == 1) (record c {
            tables = record c.tables {
              floating_ips = update_where (attachable id) (bound_to vm_id now) (fips c);
            };
            tick = c.tick + 1;
          }))
unfolding attach
attach-result id vm_id now c = elim (Bool-cases (c.fails c.tick)) [
  | inl failed ↦ inl (rw (◌>>=◌, failed) refl)
  | inr sent_off ↦ inr (rw (◌>>=◌, sent_off) refl)
]

detach-result :
    (id now : ℕ) (c : Conn)
    → (detach id now c ≡ raises (wrapped "detach floating_ip" unreachable) (sent c))
      ⊎ (detach id now c
          ≡ returns (count_where (detachable id) (fips c) == 1) (record c {
            tables = record c.tables {
              floating_ips = update_where (detachable id) (unbound now) (fips c);
            };
            tick = c.tick + 1;
          }))
unfolding detach
detach-result id now c = elim (Bool-cases (c.fails c.tick)) [
  | inl failed ↦ inl (rw (◌>>=◌, failed) refl)
  | inr sent_off ↦ inr (rw (◌>>=◌, sent_off) refl)
]

get_fip-result :
    (id : ℕ) (c : Conn)
    → (get_fip id c ≡ raises unreachable (sent c))
      ⊎ (get_fip id c ≡ returns (find FloatingIp.id id (fips c)) (sent c))
unfolding get_fip
get_fip-result id c = elim (Bool-cases (c.fails c.tick)) [
  | inl failed ↦ inl (rw (statement, failed) refl)
  | inr sent_off ↦ inr (rw (statement, sent_off) refl)
]

module _ (id vm_id now : ℕ) (table : List FloatingIp) (f : FloatingIp)
    (found : find FloatingIp.id id table ≡ some f) where
  attach-one :
      is_free f ≡ true
      → IsKeyed FloatingIp.id table
      → (count_where (attachable id) table == 1) ≡ true
  attach-one free keyed = ground (
    arith,
    found,
    free,
    find-key FloatingIp.id id table f found,
    count_where-hits FloatingIp.id id (attachable id) table (λ r h. ground (arith, h)) keyed,
  )

  attach-row :
      is_free f ≡ true
      → find FloatingIp.id id (update_where (attachable id) (bound_to vm_id now) table)
        ≡ some (bound_to vm_id now f)
  attach-row free = ground (
    arith,
    found,
    free,
    find-key FloatingIp.id id table f found,
    find-update_where FloatingIp.id id (attachable id) (bound_to vm_id now) table (λ r. refl),
  )

  detach-row :
      is_free f ≡ false
      → find FloatingIp.id id (update_where (detachable id) (unbound now) table)
        ≡ some (unbound now f)
  detach-row taken = ground (
    arith,
    found,
    taken,
    find-key FloatingIp.id id table f found,
    find-update_where FloatingIp.id id (detachable id) (unbound now) table (λ r. refl),
  )

module _ (api : String → NicApi) (manager : Manager) (text_of_ip : ℕ → String) (clock : ℕ → ℕ)
    (id : ℕ) (vm : Vm) (c : Conn) where
  -- From the row that was free, once it is bound.
  mirrored-Answers :
      (f : FloatingIp) (at : ℕ) (d : Conn) (r : Result String)
      → find FloatingIp.id id (fips c) ≡ some f
      → is_free f ≡ true
      → find FloatingIp.id id (fips d) ≡ some (bound_to vm.id at f)
      → Answers id vm.id c (mirrored api manager text_of_ip clock id r d)
  mirrored-Answers f at d (ok hint) found free bound = record {
    before = f;
    at = at;
    found = found;
    free = free;
    bound = bound;
  }
  mirrored-Answers f at d (err e) found free bound = elim (detach-result id (clock d.tick) d) [
    | inl failed ↦
        subst
          (λ o. Answers id vm.id c (
            (λ (o : Outcome Bool).
                on_result (λ _. o) (rolled_back api manager text_of_ip clock e) d)
              o))
          (sym failed) (record { before = f; at = at; found = found; free = free; bound = bound })
    | inr done ↦
        subst
          (λ o. Answers id vm.id c (
            (λ (o : Outcome Bool).
                on_result (λ _. o) (rolled_back api manager text_of_ip clock e) d)
              o))
          (sym done)
          (record {
            before = f;
            at = at;
            undone_at = clock d.tick;
            found = found;
            free = free;
            freed = detach-row id vm.id (clock d.tick) (fips d) (bound_to vm.id at f) bound refl;
          })
  ]

  -- From the row that was read and free.
  claim-Answers :
      (f : FloatingIp) (d : Conn)
      → fips d ≡ fips c
      → find FloatingIp.id id (fips c) ≡ some f
      → IsKeyed FloatingIp.id (fips c)
      → is_free f ≡ true
      → Answers id vm.id c (
          on_result
            (timed api manager text_of_ip clock (attach id vm.id))
            (claimed api manager text_of_ip clock id vm f)
            d)
  claim-Answers f d same found keyed free =
      let k = claimed api manager text_of_ip clock id vm f in
      let now = clock d.tick in
      let here = subst (λ t. find FloatingIp.id id t ≡ some f) (sym same) found in
      let one =
        attach-one id vm.id now (fips d) f here free
          (subst (IsKeyed FloatingIp.id) (sym same) keyed) in
      let bound = attach-row id vm.id now (fips d) f here free in
      let Ends = λ (o : Outcome Bool). Answers id vm.id c (on_result (λ _. o) k d) in
      let e = record d {
        tables = record d.tables {
          floating_ips = update_where (attachable id) (bound_to vm.id now) (fips d);
        };
        tick = d.tick + 1;
      } in
      elim (attach-result id vm.id now d) [
        | inl failed ↦ subst Ends (sym failed) same
        | inr done ↦ subst Ends (sym done) (
            subst (λ b. Answers id vm.id c (k (ok b) e)) (sym one)
              (mirrored-Answers f now e (filtered api manager text_of_ip clock vm f true e.tick)
                found free bound))
      ]

  -- From the row that was read.
  attach_row-Answers :
      (f : FloatingIp) (d : Conn)
      → fips d ≡ fips c
      → find FloatingIp.id id (fips c) ≡ some f
      → IsKeyed FloatingIp.id (fips c)
      → Answers id vm.id c (attach_read api manager text_of_ip clock id vm (ok (some f)) d)
  attach_row-Answers f d same found keyed =
      let attempt =
        on_result (timed api manager text_of_ip clock (attach id vm.id))
          (claimed api manager text_of_ip clock id vm f) in
      elim (Bool-cases (is_free f)) [
        | inr taken ↦
            subst (λ b. Answers id vm.id c ((if b then attempt else pure already_attached) d))
              (sym taken) same
        | inl free ↦
            subst (λ b. Answers id vm.id c ((if b then attempt else pure already_attached) d))
              (sym free) (claim-Answers f d same found keyed free)
      ]

  -- What an attempt to attach a floating IP to a VM answers, and what it leaves of the address's
  -- row, whatever fails: `attached` and a failed roll-back leave a row that was free bound to that
  -- VM, a refusal by the cluster leaves one that was free so again, and every other answer leaves
  -- the table as it was. Ids are a primary key.
  pub attach_verified-Answers :
      IsKeyed FloatingIp.id (fips c)
      → Answers id vm.id c (attach_verified api manager text_of_ip clock id vm c)
  unfolding attach_verified
  attach_verified-Answers keyed =
      let k = attach_read api manager text_of_ip clock id vm in
      let Ends = λ (o : Outcome (Option FloatingIp)). Answers id vm.id c (on_result (λ _. o) k c) in
      elim (get_fip-result id c) [
        | inl failed ↦ subst Ends (sym failed) refl
        | inr read ↦ subst Ends (sym read) (elim (Option-cases (find FloatingIp.id id (fips c))) [
          | inl absent ↦ subst (λ r. Answers id vm.id c (k (ok r) (sent c))) (sym absent) refl
          | inr (f, found) ↦
              subst (λ r. Answers id vm.id c (k (ok r) (sent c))) (sym found)
                (attach_row-Answers f (sent c) refl found keyed)
        ])
      ]
