-- ===== src/Store/Rules.antt =====
-- What a transaction promises, whatever its body and whatever fails.
use incus.Base.{◌≡◌, ◌⊎◌, arith}
use incus.Store.{Conn, M, Error, returns, raises, Verdict, commit, rollback, transaction, sent}

-- A transaction that reports an error leaves the tables as they were.
pub transaction-raises :
    {A : Type 0} (body : M (Verdict A)) (c : Conn) (e : Error) (d : Conn)
    → transaction body c ≡ raises e d
    → d.tables ≡ c.tables
unfolding transaction
transaction-raises body c e d h = ground arith

-- One that returns a value has committed what its body did, or has given that up.
pub transaction-returns :
    {A : Type 0} (body : M (Verdict A)) (c : Conn) (a : A) (d : Conn)
    → transaction body c ≡ returns a d
    → ((e : Conn) × (body (sent c) ≡ returns (commit a) e) × (d.tables ≡ e.tables))
      ⊎ ((e : Conn) × (body (sent c) ≡ returns (rollback a) e) × (d.tables ≡ c.tables))
unfolding transaction
transaction-returns body c a d h = ground arith
