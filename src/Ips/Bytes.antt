-- ===== src/Ips/Bytes.antt =====
-- IPv4 addresses as the four bytes of a net.IP, and `incIP`, which counts them up.
use incus.Base.{ℕ, ◌+◌, ◌*◌, ◌%◌, ◌^◌, ◌<◌, ◌≡◌, Bool, ◌&&◌, arith, if◌then◌else◌, ltb, ◌==◌}

pub record Ip4 : Type 0 where
  pub b0 : ℕ
  pub b1 : ℕ
  pub b2 : ℕ
  pub b3 : ℕ

-- The number that the address stands for, b0 first.
abbrev pub value : Ip4 → ℕ
value x = x.b0 * 16777216 + x.b1 * 65536 + x.b2 * 256 + x.b3

-- Each is a uint8.
pub record IsBytes (x : Ip4) : Type 0 where
  pub b0_fits : x.b0 < 256
  pub b1_fits : x.b1 < 256
  pub b2_fits : x.b2 < 256
  pub b3_fits : x.b3 < 256

-- ip[j]++ on a uint8
abbrev inc_byte : ℕ → ℕ
inc_byte b = (b + 1) % 256

-- The loop over j = 3, 2, 1, 0, which stops at the first byte that is not 0 after its increment.
unfoldable pub inc_ip : Ip4 → Ip4
inc_ip x =
    if ltb 0 (inc_byte x.b3)
    then record x { b3 = inc_byte x.b3 }
    else if ltb 0 (inc_byte x.b2)
    then record x { b2 = inc_byte x.b2; b3 = inc_byte x.b3 }
    else if ltb 0 (inc_byte x.b1)
    then record x { b1 = inc_byte x.b1; b2 = inc_byte x.b2; b3 = inc_byte x.b3 }
    else record { b0 = inc_byte x.b0; b1 = inc_byte x.b1; b2 = inc_byte x.b2; b3 = inc_byte x.b3 }

-- net.IP.Equal on two 4-byte addresses
abbrev pub same_ip : Ip4 → Ip4 → Bool
same_ip x y = x.b0 == y.b0 && x.b1 == y.b1 && x.b2 == y.b2 && x.b3 == y.b3

-- `incIP` adds one to the address, and 255.255.255.255 becomes 0.0.0.0.
pub inc_ip-value :
    (x : Ip4) → IsBytes x → IsBytes (inc_ip x) × (value (inc_ip x) ≡ (value x + 1) % 2 ^ 32)
unfolding inc_ip
inc_ip-value x h = (ground arith, ground arith)

pub same_ip→value : (x y : Ip4) → same_ip x y ≡ Bool.true → value x ≡ value y
same_ip→value x y h = ground arith

pub value→same_ip :
    (x y : Ip4) → IsBytes x → IsBytes y → value x ≡ value y → same_ip x y ≡ Bool.true
value→same_ip x y hx hy h = ground arith
