-- ===== src/Executor/Price.antt =====
-- The price of a swap: the constant product never falls.
use shadowyapparatus.Prelude.{
  ℕ, ◌+◌, ◌-◌, ◌*◌, ◌/◌, ◌≤◌, ◌<◌, ◌≡◌, arith, u64_mod, mul64, add64, sub64, dec_le,
}
use native.Mathlib.Nat.{div-mul-le_self}
use shadowyapparatus.Executor.Pools.{output_of}

part_le : (p d : ℕ) → d ≤ 10000 → p * d ≤ p * 10000
part_le p d h = grind arith

regroup : (q d : ℕ) → q * (d * 10000) ≡ q * d * 10000
regroup q d = grind arith

cancel : (q y n : ℕ) → 0 < n → q * n ≤ y * n → q ≤ y
cancel q y n h p = elim (dec_le q y) [ yes e ↦ e | no e ↦ absurd (grind arith) ]

-- Where no product exceeds a uint64, the output is the quotient of the formula.
output_of_eq :
    (x y n fee : ℕ)
    → fee ≤ 10000
    → y * n * 10000 < u64_mod
    → (x + n) * 10000 < u64_mod
    → output_of x y n fee ≡ (y * n * (10000 - fee)) / ((x + n) * 10000)
unfolding output_of mul64 add64 sub64
output_of_eq x y n fee hf hy hx =
    let rate : sub64 10000 fee ≡ 10000 - fee = omega arith in
    let product : mul64 y n ≡ y * n = omega arith in
    let top : mul64 (y * n) (10000 - fee) ≡ y * n * (10000 - fee) =
      omega (arith, part_le (y * n) (10000 - fee) (omega arith)) in
    let bottom : mul64 (add64 x n) 10000 ≡ (x + n) * 10000 = omega arith in
    rw (rate, product, top, bottom)

output_le :
    (x y n fee : ℕ)
    → (q : ℕ) → 0 < n
    → fee ≤ 10000
    → q * ((x + n) * 10000) ≤ y * n * (10000 - fee)
    → (q ≤ y) × (q * (x + n) ≤ y * n)
output_le x y n fee q hn hf h =
    let small : q * (x + n) ≤ y * n =
      omega (arith, h, regroup q (x + n), part_le (y * n) (10000 - fee) (omega arith)) in
    let less : q * n ≤ y * n = grind arith in (cancel q y n hn less, small)

keeps : (x y n q : ℕ) → q ≤ y → q * (x + n) ≤ y * n → x * y ≤ (x + n) * (y - q)
keeps x y n q h p =
    let split : (x + n) * y ≡ (x + n) * (y - q) + q * (x + n) = grind arith in
    let sum : (x + n) * y ≡ x * y + y * n = grind arith in omega (arith, split, sum, p)

-- Where no product exceeds a uint64 and the fee is at most 10000 basis points, a swap takes no more
-- than the output reserve, and the product of the reserves after it is at least what it was.
pub constant_product :
    (x y n fee : ℕ)
    → 0 < n
    → fee ≤ 10000
    → y * n * 10000 < u64_mod
    → (x + n) * 10000 < u64_mod
    → let out = output_of x y n fee in (out ≤ y) × (x * y ≤ (x + n) * (y - out))
constant_product x y n fee hn hf hy hx =
    let q = output_of x y n fee in
    let whole : q * ((x + n) * 10000) ≤ y * n * (10000 - fee) =
      rw (output_of_eq x y n fee hf hy hx)
        (div-mul-le_self (y * n * (10000 - fee)) ((x + n) * 10000)) in
    let (fits, small) = output_le x y n fee q hn hf whole in (fits, keeps x y n q fits small)
