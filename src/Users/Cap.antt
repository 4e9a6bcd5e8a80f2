-- ===== src/Users/Cap.antt =====
-- The cap on top-ups.
use incus.Base.{ℕ, ◌-◌, ◌≡◌, refl, Bool, Option, ◌∷◌, false, true, arith, ◌==◌}
use incus.Base.Int.{ℤ, ◌+ℤ◌, ◌≤ℤ◌, ltb_ℤ, add_comm_ℤ}
use incus.Base.Table.{update_where}
use incus.Models.{Text, TxType}
use incus.Store.{Tables, Conn, Outcome, returns, raises, transaction}
use incus.Store.Rules.{transaction-raises}
use incus.Users.{deposits_since, top_up_with_daily_cap, TopUp, journal, credit}

module _ (user_id : ℕ) (amount : ℤ) (desc : Text) (by : Option ℕ) (window : ℕ) (daily_cap : ℤ)
    (now : ℕ) where
  abbrev window_sum : Tables → ℤ
  window_sum t = deposits_since user_id (now - window) t.transactions

  -- A top-up that is made is booked as a deposit and credited, and the window stays within the
  -- cap. One that is refused would have exceeded it, and changes nothing.
  abbrev pub Capped : ℕ → Tables → Tables → Bool → Type 0
  Capped s t t' true =
      (window_sum t' ≤ℤ daily_cap)
      × (t'.transactions ≡ journal user_id amount TxType.deposit desc by now s ∷ t.transactions)
      × (t'.users ≡ update_where (λ u. u.id == user_id) (credit amount now) t.users)
  Capped s t t' false = (ltb_ℤ daily_cap (window_sum t +ℤ amount) ≡ true) × (t' ≡ t)

  abbrev pub TopUpOutcome : ℕ → Tables → Outcome TopUp → Type 0
  TopUpOutcome s t (raises e d) = d.tables ≡ t
  TopUpOutcome s t (returns r d) = (r.used ≡ window_sum t) × Capped s t d.tables r.done

  top_up-returns :
      (c d : Conn) (r : TopUp)
      → top_up_with_daily_cap user_id amount desc by window daily_cap now c ≡ returns r d
      → (r.used ≡ window_sum c.tables)
        × (r.done ≡ true
            → (d.tables.transactions
                ≡ journal user_id amount TxType.deposit desc by now c.serial
                  ∷ c.tables.transactions)
              × (d.tables.users
                  ≡ update_where (λ u. u.id == user_id) (credit amount now) c.tables.users)
              × (ltb_ℤ daily_cap (window_sum c.tables +ℤ amount) ≡ false))
        × (r.done ≡ false
            → (ltb_ℤ daily_cap (window_sum c.tables +ℤ amount) ≡ true) × (d.tables ≡ c.tables))
  unfolding top_up_with_daily_cap transaction
  top_up-returns c d r called = (
    ground arith,
    λ e. (ground arith, ground arith, ground arith),
    λ e. (ground arith, ground arith),
  )

  -- One more deposit, dated now, in the sum of the window.
  window_sum-deposit :
      (s : ℕ) (t t' : Tables)
      → t'.transactions ≡ journal user_id amount TxType.deposit desc by now s ∷ t.transactions
      → ltb_ℤ daily_cap (window_sum t +ℤ amount) ≡ false
      → window_sum t' ≤ℤ daily_cap
  unfolding deposits_since
  window_sum-deposit s t t' e h = ground (arith, add_comm_ℤ amount (window_sum t))

  Capped-of :
      (c d : Conn) (r : TopUp) (done : Bool)
      → top_up_with_daily_cap user_id amount desc by window daily_cap now c ≡ returns r d
      → r.done ≡ done
      → Capped c.serial c.tables d.tables done
  Capped-of c d r true called e =
      let (booked, credited, within) = (top_up-returns c d r called).1 e in
      (window_sum-deposit c.serial c.tables d.tables booked within, booked, credited)
  Capped-of c d r false called e = (top_up-returns c d r called).2 e

  outcome_of_top_up :
      (c : Conn) (o : Outcome TopUp)
      → top_up_with_daily_cap user_id amount desc by window daily_cap now c ≡ o
      → TopUpOutcome c.serial c.tables o
  outcome_of_top_up c (raises e d) h = unfold top_up_with_daily_cap in transaction-raises _ c e d h
  outcome_of_top_up c (returns r d) h = ((top_up-returns c d r h).0, Capped-of c d r r.done h refl)

  -- Whatever fails, a top-up reports the deposits of the window before it, and keeps to the cap:
  -- one that is made is booked as a deposit, credited, and leaves the window's deposits within the
  -- cap; one that is refused would have exceeded it and changes nothing, as does an error.
  pub top_up_capped :
      (c : Conn)
      → TopUpOutcome c.serial c.tables
          (top_up_with_daily_cap user_id amount desc by window daily_cap now c)
  top_up_capped c = outcome_of_top_up c _ refl
