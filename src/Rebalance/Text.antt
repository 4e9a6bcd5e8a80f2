-- ===== src/Rebalance/Text.antt =====
-- The texts of a suggestion (formatInt, formatPct and reasonFor of
-- incus-admin/internal/service/rebalance/rebalance.go).
use Prim.Native.Char.{Char, code}
use Prim.Native.String.{String, ◌++◌ as joined}
use incus.Base.{
  ℕ, zero, suc, ◌+◌, ◌-◌, ◌*◌, ◌/◌, ◌%◌, ◌^◌, ◌<◌, ◌≡◌, refl, sym, ap, ◌∙◌, subst, false, List, [],
  ◌∷◌, ◌++◌, arith, if◌then◌else◌, ◌==◌, Bool-cases, inl, inr,
}
use incus.Base.Int.{ℤ, pos, negsuc, ltb_ℤ, zero_ℤ}
use incus.Base.Float.{Float}
use incus.Rebalance.{NodeCapacity, util}

abbrev pub digit : ℕ → Char
digit d =
    if d == 0
    then "0"
    else if d == 1
    then "1"
    else if d == 2
    then "2"
    else if d == 3
    then "3"
    else if d == 4
    then "4"
    else if d == 5
    then "5"
    else if d == 6
    then "6"
    else if d == 7
    then "7"
    else if d == 8
    then "8"
    else "9"

-- The loop writes from the end of a buffer of twenty bytes, which is its fuel here.
unfoldable pub write_digits : ℕ → ℕ → String → String
write_digits zero n written = written
write_digits (suc room) n written =
    if n == 0 then written else write_digits room (n / 10) (String.◌∷◌ (digit (n % 10)) written)

-- An int: -2^63 has no opposite, and the loop does not start.
unfoldable pub format_int : ℤ → String
format_int (pos n) = if n == 0 then "0" else write_digits 20 n ""
format_int (negsuc n) = String.◌∷◌ "-" (if suc n == 2 ^ 63 then "" else write_digits 20 (suc n) "")

abbrev pub within_percent : ℤ → ℤ
within_percent p = if ltb_ℤ p zero_ℤ then zero_ℤ else if ltb_ℤ (pos 100) p then pos 100 else p

-- strings.Join
unfoldable pub join : String → List String → String
join sep [] = ""
join sep (s ∷ []) = s
join sep (s ∷ t ∷ rest) = joined s (joined sep (join sep (t ∷ rest)))

module _ {W : Type 0} (float : Float W) where
  unfoldable pub format_pct : W → String
  unfolding format_int
  format_pct v =
      joined (format_int (within_percent (float.rounded (float.times v (float.of_int (pos 100))))))
        "%"

  unfoldable pub reason_for : NodeCapacity → NodeCapacity → String
  unfolding join format_pct
  reason_for hot target = join "; " (
      (if hot.maintenance then "source in maintenance" ∷ [] else [])
      ++ (if ltb_ℤ zero_ℤ hot.mem_total
          then joined "source mem util " (format_pct (util float hot)) ∷ []
          else [])
      ++ (if ltb_ℤ zero_ℤ target.mem_total
          then joined "target mem util " (format_pct (util float target)) ∷ []
          else []))

-- Reading a number back.
unfoldable pub read_digits : ℕ → String → ℕ
read_digits n String.[] = n
read_digits n (String.◌∷◌ c rest) = read_digits (n * 10 + (code c - 48)) rest

unfoldable pub read_int : String → ℤ
unfolding read_digits
read_int String.[] = pos 0
read_int (String.◌∷◌ c rest) =
    if code c == 45
    then negsuc (read_digits 0 rest - 1)
    else pos (read_digits 0 (String.◌∷◌ c rest))

code-digit : (d : ℕ) → d < 10 → code (digit d) ≡ 48 + d
code-digit zero h = refl
code-digit (suc zero) h = refl
code-digit (suc (suc zero)) h = refl
code-digit (suc (suc (suc zero))) h = refl
code-digit (suc (suc (suc (suc zero)))) h = refl
code-digit (suc (suc (suc (suc (suc zero))))) h = refl
code-digit (suc (suc (suc (suc (suc (suc zero)))))) h = refl
code-digit (suc (suc (suc (suc (suc (suc (suc zero))))))) h = refl
code-digit (suc (suc (suc (suc (suc (suc (suc (suc zero)))))))) h = refl
code-digit (suc (suc (suc (suc (suc (suc (suc (suc (suc zero))))))))) h = refl
code-digit (suc (suc (suc (suc (suc (suc (suc (suc (suc (suc d)))))))))) h = absurd (omega arith)

read-write_digits :
    (room n : ℕ) (written : String)
    → n < 10 ^ room
    → read_digits 0 (write_digits room n written) ≡ read_digits n written
unfolding read_digits write_digits
read-write_digits zero n written h =
    let nought : n ≡ 0 = omega arith in ap (λ k. read_digits k written) (sym nought)
read-write_digits (suc room) n written h = elim (Bool-cases (n == 0)) [
  | inl nothing ↦
      let nought : n ≡ 0 = ground arith in
      subst (λ k. read_digits 0 (write_digits (suc room) k written) ≡ read_digits k written)
        (sym nought) refl
  | inr more ↦
      let last = digit (n % 10) in
      let value : n / 10 * 10 + (code last - 48) ≡ n = omega (arith, code-digit (n % 10)) in
      rw (more) (
        read-write_digits room (n / 10) (String.◌∷◌ last written) (omega arith)
        ∙ ap (λ k. read_digits k written) value)
]

-- What begins with a digit is not negative.
read_int-digit :
    (d : ℕ) (rest : String)
    → d < 10
    → (let text = String.◌∷◌ (digit d) rest in read_int text ≡ pos (read_digits 0 text))
unfolding read_int
read_int-digit d rest h =
    let plain : (code (digit d) == 45) ≡ false = ground (arith, code-digit d h) in simp (plain)

read_int-digits :
    (room n d : ℕ) (rest : String)
    → d < 10
    → (let text = write_digits room n (String.◌∷◌ (digit d) rest) in
        read_int text ≡ pos (read_digits 0 text))
unfolding write_digits
read_int-digits zero n d rest h = read_int-digit d rest h
read_int-digits (suc room) n d rest h = elim (Bool-cases (n == 0)) [
  | inl nothing ↦ rw (nothing) (read_int-digit d rest h)
  | inr more ↦
      rw (more) (read_int-digits room (n / 10) (n % 10) (String.◌∷◌ (digit d) rest) (omega arith))
]

read_int-written :
    (n : ℕ)
    → (n == 0) ≡ false
    → read_int (write_digits 20 n "") ≡ pos (read_digits 0 (write_digits 20 n ""))
unfolding write_digits
read_int-written n more = rw (more) (read_int-digits 19 (n / 10) (n % 10) "" (omega arith))

-- A positive number within the buffer is read back.
read_int-write_digits :
    (n : ℕ)
    → (n == 0) ≡ false
    → n < 10 ^ 20
    → (read_int (write_digits 20 n "") ≡ pos n) × (read_digits 0 (write_digits 20 n "") ≡ n)
unfolding read_digits
read_int-write_digits n more h =
    let value = read-write_digits 20 n "" h in (read_int-written n more ∙ ap pos value, value)

abbrev magnitude : ℤ → ℕ
magnitude (pos n) = n
magnitude (negsuc n) = suc n

-- What is written of an int is read back as that int, but for -2^63.
pub read_int-format_int : (z : ℤ) → magnitude z < 2 ^ 63 → read_int (format_int z) ≡ z
unfolding format_int read_int
read_int-format_int (pos n) h = elim (Bool-cases (n == 0)) [
  | inl nothing ↦ rw (nothing) (ground arith)
  | inr more ↦ rw (more) (read_int-write_digits n more (omega arith)).0
]
read_int-format_int (negsuc n) h =
    let fits : (suc n == 2 ^ 63) ≡ false = ground arith in
    let value = (read_int-write_digits (suc n) (ground arith) (omega arith)).1 in
    rw (fits, value) (ap negsuc (omega arith))
