-- ===== src/Ips/Least.antt =====
-- ORDER BY ip LIMIT 1, under the UNIQUE constraint on the address.
use incus.Base.{
  ◌≤◌, ◌≡◌, refl, Bool, true, false, inl, inr, Option, none, some, List, [], ◌∷◌, arith,
  if◌then◌else◌, leb, Bool-cases,
}
use incus.Base.Table.{find, select_where, IsKeyed}
use incus.Models.{IpAddress}
use incus.Ips.{least}

-- What `ORDER BY ip LIMIT 1` finds among the rows that meet a condition.
abbrev pub LeastOf : (IpAddress → Bool) → List IpAddress → Option IpAddress → Type 0
LeastOf p rows none = (b : IpAddress) → find IpAddress.ip b.ip rows ≡ some b → p b ≡ false
LeastOf p rows (some a) =
    (p a ≡ true)
    × (find IpAddress.ip a.ip rows ≡ some a)
    × ((b : IpAddress) → find IpAddress.ip b.ip rows ≡ some b → p b ≡ true → a.ip ≤ b.ip)

module _ (p : IpAddress → Bool) (r : IpAddress) (rows : List IpAddress)
    (new : find IpAddress.ip r.ip rows ≡ none) where
  LeastOf-skip : (o : Option IpAddress) → p r ≡ false → LeastOf p rows o → LeastOf p (r ∷ rows) o
  unfolding find
  LeastOf-skip none miss h = λ b found. ground (arith, h b)
  LeastOf-skip (some a) miss (hit, at, below) =
      (hit, ground (arith, new), λ b found q. ground (arith, below b))

  LeastOf-keep :
      (o : Option IpAddress)
      → p r ≡ true
      → LeastOf p rows o
      → LeastOf p
          (r ∷ rows)
          (elim o [ none ↦ some r | some b ↦ some (if leb r.ip b.ip then r else b) ])
  unfolding find
  LeastOf-keep none hit h = (hit, ground arith, λ b found q. ground (arith, h b))
  LeastOf-keep (some a) hit (hit', at, below) =
      let split : (x : Bool)
          → leb r.ip a.ip ≡ x
          → LeastOf p (r ∷ rows) (some (if x then r else a)) =
        elim [
          | true ↦ λ e. (hit, ground arith, λ b found q. ground (arith, below b))
          | false ↦ λ e. (hit', ground arith, λ b found q. ground (arith, below b))
        ] in
      split (leb r.ip a.ip) refl

pub least-select :
    (p : IpAddress → Bool) (rows : List IpAddress)
    → IsKeyed IpAddress.ip rows
    → LeastOf p rows (least (select_where p rows))
unfolding least select_where
least-select p [] keyed = unfold find in λ b found. absurd (ground arith)
least-select p (r ∷ rows) keyed = elim (Bool-cases (p r)) [
  | inl hit ↦ rw (hit, least) (LeastOf-keep p r rows keyed.0 _ hit (least-select p rows keyed.1))
  | inr miss ↦ rw miss (LeastOf-skip p r rows keyed.0 _ miss (least-select p rows keyed.1))
]
