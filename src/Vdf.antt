-- ===== src/Vdf.antt =====
-- cmd/vdf.go: the verifiable delay function. No `big.Int` is negative here, and neither is the size of
-- a modulus, so they are numbers. SHA3-256 and SHAKE-256 are those of golang.org/x/crypto/sha3, and so
-- parameters.
pub mod Powers
pub mod Numbers
pub mod Soundness
use shadowyapparatus.Prelude.{
  ℕ, zero, suc, ◌+◌, ◌*◌, ◌/◌, ◌%◌, ◌^◌, Bool, true, false, ◌&&◌, not, Option, none, some, ◌++◌,
  Bytes, ◌==◌, if◌then◌else◌,
}
use shadowyapparatus.Address.{Hashes}
use shadowyapparatus.Address.Hex.{hex_encode}
use shadowyapparatus.Vdf.Numbers.{to_bytes, of_bytes}

pub record VdfConfig : Type 0 where
  pub modulus_bits : ℕ
  pub time_parameter : ℕ
  pub modulus : ℕ
  pub security_parameter : ℕ
  pub target_solving_time : ℕ

pub record VdfChallenge : Type 0 where
  pub input : ℕ
  pub time_parameter : ℕ
  pub modulus : ℕ
  pub id : Bytes
  pub created_at : ℕ

pub record VdfProof : Type 0 where
  pub challenge : Option VdfChallenge
  pub output : ℕ
  pub proof : ℕ
  pub compute_time : ℕ
  pub generated_at : ℕ

-- The error of a result is empty, or says that the proof or its challenge is nil.
pub record VdfResult : Type 0 where
  pub proof : Option VdfProof
  pub is_valid : Bool
  pub verify_time : ℕ
  pub has_error : Bool

-- `verify` ends with a verdict, an error, or the panic of a division by zero.
pub data Verdict : Type 0 where
  verdict : Bool → Verdict
  invalid_proof division_by_zero : Verdict

-- `Exp(x, y, m)`: a modulus of 0 stands for none.
abbrev pub exp : ℕ → ℕ → ℕ → ℕ
exp x y m = x ^ y % m

unfoldable pub compute_remainder : ℕ → ℕ → ℕ
compute_remainder t l = 2 ^ t % l

unfoldable pub compute_quotient : ℕ → ℕ → ℕ
compute_quotient t l = 2 ^ t / l

-- For a modulus that is not 0.
unfoldable pub repeated_squaring : ℕ → ℕ → ℕ → ℕ
repeated_squaring x zero n = x
repeated_squaring x (suc t) n = repeated_squaring (x * x % n) t n

-- `l` with its lowest bit set.
unfoldable pub make_odd : ℕ → ℕ
make_odd l = if l % 2 == 0 then l + 1 else l

-- Two primes of which the fallback is made.
unfoldable pub generate_rsa_modulus : ℕ → ℕ → ℕ → ℕ
generate_rsa_modulus p q bits =
    if bits == 256
    then 104648257118348569649149332235006202638471972175641621397683299950955184194499
    else if bits == 512
    then 13407807929942597099574024998205846127479365820592393377723561443721764030073546976801874298166903427690031858186486050853753882811946569946433649006084171
    else if bits == 2048
    then 25195908475657893494027183240048398571429282126204032027777137836043662020707595556264018525880784406918290641249515082189298559149176184502808489120072844992687392807287776735971418347270261896375014971824691165077613379859095700097330459748808428401797429100642458691817195118746121515172654632282216869987549182422433637259085141865462043576798423387184774447920739934236584823824281198163815010674810451660377306056201619676256133844143603833904414952634432190114657544454178424020924616515723350778707749817125772467962926386356373289912154831438167899885040445364023527381951378636564391212010397122822120720357
    else p * q

-- 30 * time.Second is in nanoseconds.
unfoldable pub default_vdf_config : ℕ → ℕ → VdfConfig
unfolding generate_rsa_modulus
default_vdf_config p q = record {
  modulus_bits = 2048;
  time_parameter = 1000000;
  modulus = generate_rsa_modulus p q 2048;
  security_parameter = 256;
  target_solving_time = 30 * 10 ^ 9;
}

-- The readings of the clock in one run.
pub record Readings : Type 0 where
  pub created : ℕ
  pub compute_time : ℕ
  pub generated : ℕ
  pub verify_time : ℕ

module _ (sha3 : Bytes → Bytes) where
  unfoldable pub generate_fiat_shamir_challenge : ℕ → ℕ → ℕ → ℕ
  unfolding make_odd of_bytes to_bytes
  generate_fiat_shamir_challenge x y n =
      make_odd (of_bytes (sha3 (to_bytes x ++ to_bytes y ++ to_bytes n)))

  -- None is the panic of a division by zero.
  unfoldable pub generate_challenge : Hashes → Readings → VdfConfig → Bytes → Option VdfChallenge
  unfolding of_bytes to_bytes hex_encode
  generate_challenge h r config payload =
      let input = of_bytes (h.shake (config.modulus_bits / 8) payload) % config.modulus in
      if config.modulus == 0
      then none
      else some (record {
        input = input;
        time_parameter = config.time_parameter;
        modulus = config.modulus;
        id = hex_encode (sha3 (payload ++ to_bytes input));
        created_at = r.created;
      })

  -- None is the panic of a division by zero in the loop of squarings.
  unfoldable pub solve : Readings → VdfChallenge → Option VdfProof
  unfolding repeated_squaring generate_fiat_shamir_challenge
  solve r c =
      let y = repeated_squaring c.input c.time_parameter c.modulus in
      let l = generate_fiat_shamir_challenge c.input y c.modulus in
      if c.modulus == 0 && not (c.time_parameter == 0)
      then none
      else some (record {
        challenge = some c;
        output = y;
        proof = exp c.input (2 ^ c.time_parameter / l) c.modulus;
        compute_time = r.compute_time;
        generated_at = r.generated;
      })

  -- The equation that the verifier checks.
  unfoldable pub check_proof : VdfChallenge → VdfProof → Bool
  unfolding generate_fiat_shamir_challenge compute_remainder
  check_proof c p =
      let l = generate_fiat_shamir_challenge c.input p.output c.modulus in
      let r = compute_remainder c.time_parameter l in
      exp p.proof l c.modulus * exp c.input r c.modulus % c.modulus == p.output

  unfoldable pub verify_of : Option VdfChallenge → VdfProof → Verdict
  unfolding check_proof
  verify_of none p = invalid_proof
  verify_of (some c) p = if c.modulus == 0 then division_by_zero else verdict (check_proof c p)

  unfoldable pub verify : Option VdfProof → Verdict
  unfolding verify_of
  verify none = invalid_proof
  verify (some p) = verify_of p.challenge p

  -- The result of a proof that the verifier has looked at; none is its panic.
  abbrev pub result_of : Readings → VdfProof → Verdict → Option VdfResult
  result_of r p (verdict b) =
      some (record { proof = some p; is_valid = b; verify_time = r.verify_time; has_error = false })
  result_of r p invalid_proof =
      some (record { proof = some p; is_valid = false; verify_time = 0; has_error = true })
  result_of r p division_by_zero = none

  unfoldable pub compute_and_verify_vdf : Hashes → Readings → VdfConfig → Bytes → Option VdfResult
  unfolding generate_challenge solve verify
  compute_and_verify_vdf h r config payload = elim (generate_challenge h r config payload) [
    | none ↦ none
    | some c ↦ elim (solve r c) [ none ↦ none | some p ↦ result_of r p (verify (some p)) ]
  ]
