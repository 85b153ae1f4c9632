-- ===== src/Vdf/Numbers.antt =====
-- `Bytes` and `SetBytes` of Go's `big.Int`: the digits to the base 256, the highest first, with no
-- leading zero.
use shadowyapparatus.Prelude.{
  ℕ, zero, suc, ◌+◌, ◌*◌, ◌/◌, ◌%◌, ◌≤◌, ◌≡◌, refl, ap, ◌∙◌, arith, [], ◌∷◌, Bytes,
}

-- A number has fewer digits than its value says.
unfoldable pub digits : ℕ → ℕ → Bytes → Bytes
digits zero n acc = acc
digits (suc fuel) zero acc = acc
digits (suc fuel) (suc n) acc = digits fuel (suc n / 256) ((suc n % 256) ∷ acc)

unfoldable pub to_bytes : ℕ → Bytes
unfolding digits
to_bytes n = digits n n []

unfoldable pub of_digits : ℕ → Bytes → ℕ
of_digits n [] = n
of_digits n (b ∷ bs) = of_digits (n * 256 + b) bs

unfoldable pub of_bytes : Bytes → ℕ
unfolding of_digits
of_bytes bs = of_digits 0 bs

of_digits-digits :
    (fuel n : ℕ) (acc : Bytes) → n ≤ fuel → of_digits 0 (digits fuel n acc) ≡ of_digits n acc
unfolding of_digits digits
of_digits-digits zero zero acc h = refl
of_digits-digits zero (suc n) acc h = absurd (omega arith)
of_digits-digits (suc fuel) zero acc h = refl
of_digits-digits (suc fuel) (suc n) acc h =
    let e : suc n / 256 * 256 + suc n % 256 ≡ suc n = omega arith in
    of_digits-digits fuel (suc n / 256) ((suc n % 256) ∷ acc) (omega arith)
    ∙ ap (λ k. of_digits k acc) e

-- A number is read back from its bytes.
pub of_bytes-to_bytes : (n : ℕ) → of_bytes (to_bytes n) ≡ n
unfolding of_bytes to_bytes of_digits
of_bytes-to_bytes n = of_digits-digits n n [] (omega arith)
