-- ===== src/Vdf/Powers.antt =====
-- Powers to a modulus.
use shadowyapparatus.Prelude.{ℕ, zero, suc, ◌+◌, ◌*◌, ◌/◌, ◌%◌, ◌^◌, ◌<◌, ◌≡◌, sym, ap, ◌∙◌, arith}
use native.Mathlib.Nat.{
  mod-add-div, add-mul-mod_self_left, mul_comm, mul_assoc, mul-one, one-mul, add-mul, pow-suc,
  pow-zero, mul-zero, mul-suc, add-zero, add-suc,
}

pub pow-add : (x a b : ℕ) → x ^ (a + b) ≡ x ^ a * x ^ b
pow-add x a zero =
    ap (λ k. x ^ k) (add-zero a) ∙ sym (ap (λ k. x ^ a * k) (pow-zero x) ∙ mul-one (x ^ a))
pow-add x a (suc b) =
    ap (λ k. x ^ k) (add-suc a b)
    ∙ pow-suc x (a + b)
    ∙ ap (λ k. k * x) (pow-add x a b)
    ∙ mul_assoc (x ^ a) (x ^ b) x
    ∙ ap (λ k. x ^ a * k) (sym (pow-suc x b))

pub pow-mul : (x a b : ℕ) → x ^ (a * b) ≡ (x ^ a) ^ b
pow-mul x a zero = ap (λ k. x ^ k) (mul-zero a) ∙ pow-zero x ∙ sym (pow-zero (x ^ a))
pow-mul x a (suc b) =
    ap (λ k. x ^ k) (mul-suc a b)
    ∙ pow-add x (a * b) a
    ∙ ap (λ k. k * x ^ a) (pow-mul x a b)
    ∙ sym (pow-suc (x ^ a) b)

pub mod-mul : (a b n : ℕ) → a % n * b % n ≡ a * b % n
mod-mul a b n =
    let e : a * b ≡ a % n * b + n * (a / n * b) =
      ap (λ k. k * b) (sym (mod-add-div a n))
      ∙ add-mul (a % n) (n * (a / n)) b
      ∙ ap (λ k. a % n * b + k) (mul_assoc n (a / n) b) in
    sym (ap (λ k. k % n) e ∙ add-mul-mod_self_left (a % n * b) n (a / n * b))

pub mul-mod : (a b n : ℕ) → a * (b % n) % n ≡ a * b % n
mul-mod a b n =
    ap (λ k. k % n) (mul_comm a (b % n)) ∙ mod-mul b a n ∙ ap (λ k. k % n) (mul_comm b a)

pub mod-pow : (a k n : ℕ) → (a % n) ^ k % n ≡ a ^ k % n
mod-pow a zero n = ap (λ k. k % n) (pow-zero (a % n) ∙ sym (pow-zero a))
mod-pow a (suc k) n =
    ap (λ k. k % n) (pow-suc (a % n) k)
    ∙ mul-mod ((a % n) ^ k) a n
    ∙ sym (mod-mul ((a % n) ^ k) a n)
    ∙ ap (λ m. m * a % n) (mod-pow a k n)
    ∙ mod-mul (a ^ k) a n
    ∙ ap (λ m. m % n) (sym (pow-suc a k))

pub pow-one : (x : ℕ) → x ^ 1 ≡ x
pow-one x = pow-suc x 0 ∙ ap (λ k. k * x) (pow-zero x) ∙ one-mul x

pub pow-two : (x : ℕ) → x ^ 2 ≡ x * x
pow-two x = pow-suc x 1 ∙ ap (λ k. k * x) (pow-one x)

pub zero-pow : (k : ℕ) → 0 < k → 0 ^ k ≡ 0
zero-pow zero h = absurd (omega arith)
zero-pow (suc k) h = pow-suc 0 k ∙ mul-zero (0 ^ k)
