-- ===== src/Catalog.antt =====
-- The products on sale and the SSH keys of the users (incus-admin/internal/repository/product.go
-- and sshkey.go).
use incus.Base.{
  ℕ, String, Bool, ◌&&◌, Option, List, [], ◌∷◌, if◌then◌else◌, ◌==◌, leb, ltb, not, ◌||◌,
}
use incus.Base.Table.{find, select_where, update_where, count_where}
use incus.Models.{Product, SshKey}
use incus.Store.{
  M, ok, err, foreign_key, not_found, pure, raise, wrap, statement, insert, ◌>>=◌, has_user,
}
use text.Mathlib.Text.{◌==◌ as str_eq}

abbrev or_usd : String → String
or_usd s = if str_eq s "" then "USD" else s

-- nil, nil where there is no such row
unfoldable pub get_product : ℕ → M (Option Product)
get_product id = statement λ t. ok (find Product.id id t.products, t)

-- ORDER BY sort_order ASC, id ASC, by insertion
abbrev pub is_before : Product → Product → Bool
is_before p q = ltb p.sort_order q.sort_order || p.sort_order == q.sort_order && leb p.id q.id

unfoldable pub insert_in_order : Product → List Product → List Product
insert_in_order p [] = p ∷ []
insert_in_order p (q ∷ rest) =
    let later = q ∷ insert_in_order p rest in if is_before p q then p ∷ q ∷ rest else later

unfoldable pub in_order : List Product → List Product
unfolding insert_in_order
in_order [] = []
in_order (p ∷ rest) = insert_in_order p (in_order rest)

-- ListActive: WHERE active = true
unfoldable pub list_active : M (List Product)
unfolding in_order
list_active = statement λ t. ok (in_order (select_where Product.active t.products), t)

unfoldable pub create_product : Product → M Product
create_product p = wrap "create product" (
    insert λ id t.
      let row : Product = record p { id = id; currency = or_usd p.currency } in
      ok (row, record t { products = row ∷ t.products }))

unfoldable pub update_product : Product → M (Unit {0})
update_product p = statement λ t. ok (
  tt,
  record t {
    products =
        update_where (λ (q : Product). q.id == p.id)
          (λ q. record p { currency = or_usd p.currency }) t.products;
  },
)

-- The public keys of a user
abbrev public_keys : List SshKey → List String
public_keys [] = []
public_keys (k ∷ rest) = k.public_key ∷ public_keys rest

unfoldable pub get_keys_by_user : ℕ → M (List String)
get_keys_by_user user_id =
    statement λ t. ok (public_keys (select_where (λ k. k.user_id == user_id) t.ssh_keys), t)

unfoldable pub create_key : ℕ → String → String → String → ℕ → M SshKey
create_key user_id name public_key fingerprint now = wrap "create ssh key" (
    insert λ id t.
      let row : SshKey = record {
        id = id;
        user_id = user_id;
        name = name;
        public_key = public_key;
        fingerprint = fingerprint;
        created_at = now;
      } in
      if has_user user_id t
      then ok (row, record t { ssh_keys = row ∷ t.ssh_keys })
      else err foreign_key)

-- WHERE id = $1 AND user_id = $2
abbrev pub owned_key : ℕ → ℕ → SshKey → Bool
owned_key id user_id k = k.id == id && k.user_id == user_id

unfoldable pub delete_key : ℕ → ℕ → M (Unit {0})
delete_key id user_id = do
  n ← statement λ t. ok (
    count_where (owned_key id user_id) t.ssh_keys,
    record t { ssh_keys = select_where (λ k. not (owned_key id user_id k)) t.ssh_keys },
  )
  if n == 0 then raise not_found else pure tt
