-- ===== src/Vdf/Soundness.antt =====
-- What the verifier accepts: the solver's proofs, and others.
use shadowyapparatus.Prelude.{
  ℕ, zero, suc, ◌*◌, ◌/◌, ◌%◌, ◌^◌, ◌<◌, ◌≡◌, sym, ap, ◌∙◌, arith, true, false, some, ◌++◌, Bytes,
  ◌==◌,
}
use shadowyapparatus.Vdf.{
  VdfConfig, VdfChallenge, VdfProof, exp, verdict, Readings, make_odd, compute_remainder,
  repeated_squaring, generate_fiat_shamir_challenge, generate_challenge, compute_and_verify_vdf,
  solve, check_proof, verify, verify_of,
}
use shadowyapparatus.Address.{Hashes}
use shadowyapparatus.Address.Hex.{hex_encode}
use shadowyapparatus.Vdf.Numbers.{of_bytes, to_bytes}
use shadowyapparatus.Vdf.Powers.{
  pow-add, pow-mul, mod-mul, mul-mod, mod-pow, pow-one, pow-two, zero-pow,
}
use native.Mathlib.Nat.{mod-lt, mod-eq_of_lt, div-add-mod', pow-succ', zero-mod, zero-mul}

repeated_squaring-pow : (x t n : ℕ) → repeated_squaring x t n % n ≡ x ^ (2 ^ t) % n
unfolding repeated_squaring
repeated_squaring-pow x zero n = ap (λ k. k % n) (sym (pow-one x))
repeated_squaring-pow x (suc t) n =
    repeated_squaring-pow (x * x % n) t n
    ∙ mod-pow (x * x) (2 ^ t) n
    ∙ ap (λ k. k ^ (2 ^ t) % n) (sym (pow-two x))
    ∙ ap (λ k. k % n) (sym (pow-mul x 2 (2 ^ t)))
    ∙ ap (λ k. x ^ k % n) (sym (pow-succ' 2 t))

repeated_squaring-lt : (x t n : ℕ) → 0 < n → x < n → repeated_squaring x t n < n
unfolding repeated_squaring
repeated_squaring-lt x zero n h l = l
repeated_squaring-lt x (suc t) n h l = repeated_squaring-lt (x * x % n) t n h (mod-lt (x * x) h)

make_odd_pos : (l : ℕ) → 0 < make_odd l
unfolding make_odd
make_odd_pos l = ground arith

-- The equation of the verifier, at the solver's proof.
wesolowski :
    (x t l n : ℕ) → (x ^ (2 ^ t / l) % n) ^ l % n * (x ^ (2 ^ t % l) % n) % n ≡ x ^ (2 ^ t) % n
wesolowski x t l n =
    let q = 2 ^ t / l in
    let r = 2 ^ t % l in
    mul-mod ((x ^ q % n) ^ l % n) (x ^ r) n
    ∙ mod-mul ((x ^ q % n) ^ l) (x ^ r) n
    ∙ sym (mod-mul ((x ^ q % n) ^ l) (x ^ r) n)
    ∙ ap (λ k. k * x ^ r % n) (mod-pow (x ^ q) l n)
    ∙ mod-mul ((x ^ q) ^ l) (x ^ r) n
    ∙ ap (λ k. k * x ^ r % n) (sym (pow-mul x q l))
    ∙ ap (λ k. k % n) (sym (pow-add x (q * l) r))
    ∙ ap (λ k. x ^ k % n) (div-add-mod' (2 ^ t) l)

eq→== : (a b : ℕ) → a ≡ b → (a == b) ≡ true
eq→== a b e = ground arith

zero_equation : (l s n : ℕ) → 0 < l → 0 ^ l % n * s % n ≡ 0
zero_equation l s n h =
    ap (λ k. k % n * s % n) (zero-pow l h)
    ∙ ap (λ k. k * s % n) (zero-mod n)
    ∙ ap (λ k. k % n) (zero-mul s)
    ∙ zero-mod n

module _ (sha3 : Bytes → Bytes) where
  abbrev challenge_with : Readings → VdfConfig → Bytes → ℕ → VdfChallenge
  challenge_with r config payload input = record {
    input = input;
    time_parameter = config.time_parameter;
    modulus = config.modulus;
    id = hex_encode (sha3 (payload ++ to_bytes input));
    created_at = r.created;
  }

  -- The proof that `solve` makes.
  abbrev pub solution : Readings → VdfChallenge → VdfProof
  solution r c =
      let y = repeated_squaring c.input c.time_parameter c.modulus in
      let l = generate_fiat_shamir_challenge sha3 c.input y c.modulus in
      record {
        challenge = some c;
        output = y;
        proof = exp c.input (2 ^ c.time_parameter / l) c.modulus;
        compute_time = r.compute_time;
        generated_at = r.generated;
      }

  solve-solution :
      (r : Readings) (c : VdfChallenge) → c.input < c.modulus → solve sha3 r c ≡ some (solution r c)
  unfolding solve
  solve-solution r c h = ground arith

  solution-output :
      (r : Readings) (c : VdfChallenge)
      → c.input < c.modulus
      → (solution r c).output ≡ c.input ^ (2 ^ c.time_parameter) % c.modulus
  solution-output r c h =
      let y = repeated_squaring-lt c.input c.time_parameter c.modulus (omega arith) h in
      sym (mod-eq_of_lt y) ∙ repeated_squaring-pow c.input c.time_parameter c.modulus

  solution-IsAccepted :
      (r : Readings) (c : VdfChallenge)
      → c.input < c.modulus
      → check_proof sha3 c (solution r c) ≡ true
  unfolding check_proof compute_remainder
  solution-IsAccepted r c h =
      let t = c.time_parameter in
      let n = c.modulus in
      let y = repeated_squaring c.input t n in
      let l = generate_fiat_shamir_challenge sha3 c.input y n in
      let e = wesolowski c.input t l n ∙ sym (solution-output r c h) in eq→== _ _ e

  -- A run of `ComputeAndVerifyVDF` with a modulus: there is a challenge, its input is below the modulus,
  -- the output is that input to the power of 2 ^ T, and the verifier accepts the proof.
  pub compute_and_verify_vdf-IsValid :
      (h : Hashes) (r : Readings) (config : VdfConfig) (payload : Bytes)
      → 0 < config.modulus
      → (c : VdfChallenge) × (p : VdfProof) × (generate_challenge sha3 h r config payload ≡ some c)
        × (c.input < config.modulus)
        × (p.output ≡ c.input ^ (2 ^ config.time_parameter) % config.modulus)
        × (compute_and_verify_vdf sha3 h r config payload
            ≡ some (record {
              proof = some p;
              is_valid = true;
              verify_time = r.verify_time;
              has_error = false;
            }))
  unfolding compute_and_verify_vdf verify verify_of generate_challenge
  compute_and_verify_vdf-IsValid h r config payload pos =
      let input = of_bytes (h.shake (config.modulus_bits / 8) payload) % config.modulus in
      let small : input < config.modulus = mod-lt _ pos in
      let c = challenge_with r config payload input in
      let a = solution-IsAccepted r c small in
      let s = solve-solution r c small in
      (c, solution r c, ground arith, small, solution-output r c small, ground (arith, a, s))

  challenge_pos : (x y n : ℕ) → 0 < generate_fiat_shamir_challenge sha3 x y n
  unfolding generate_fiat_shamir_challenge of_bytes to_bytes
  challenge_pos x y n = make_odd_pos (of_bytes (sha3 (to_bytes x ++ to_bytes y ++ to_bytes n)))

  -- A proof with nothing in it.
  abbrev pub forged : VdfChallenge → VdfProof
  forged c = record {
    challenge = some c;
    output = 0;
    proof = 0;
    compute_time = 0;
    generated_at = 0;
  }

  -- The verifier accepts 0 with the proof 0, for every challenge with a modulus.
  pub verify-forged :
      (c : VdfChallenge) → 0 < c.modulus → verify sha3 (some (forged c)) ≡ verdict true
  unfolding verify verify_of check_proof
  verify-forged c h =
      let l = generate_fiat_shamir_challenge sha3 c.input 0 c.modulus in
      let r = compute_remainder c.time_parameter l in
      let e =
        zero_equation l (c.input ^ r % c.modulus) c.modulus (challenge_pos c.input 0 c.modulus) in
      let d : check_proof sha3 c (forged c) ≡ true = eq→== _ _ e in ground (arith, d)
