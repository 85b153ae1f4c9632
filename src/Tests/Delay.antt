-- ===== src/Tests/Delay.antt =====
-- The delay function on small numbers.
use shadowyapparatus.Prelude.{
  ◌+◌, ◌%◌, ◌^◌, ◌<◌, ◌≡◌, refl, arith, true, false, some, Bytes, bytes, [], ◌∷◌,
}
use shadowyapparatus.Tests.Data.{hashes}
use shadowyapparatus.Vdf.{
  VdfConfig, VdfChallenge, VdfProof, Readings, verdict, generate_rsa_modulus, generate_challenge,
  compute_and_verify_vdf, solve, verify, repeated_squaring, generate_fiat_shamir_challenge,
  make_odd,
}
use shadowyapparatus.Vdf.Numbers.{of_bytes, of_digits, to_bytes, digits}
use shadowyapparatus.Vdf.Soundness.{forged, verify-forged, compute_and_verify_vdf-IsValid}

abbrev config : VdfConfig
config = record {
  modulus_bits = 16;
  time_parameter = 3;
  modulus = 35;
  security_parameter = 256;
  target_solving_time = 1;
}

abbrev sha3 : Bytes → Bytes
sha3 m = 4 ∷ []

abbrev readings : Readings
readings = record { created = 0; compute_time = 1; generated = 2; verify_time = 3 }

abbrev challenge : VdfChallenge
challenge = record { input = 12; time_parameter = 3; modulus = 35; id = []; created_at = 0 }

-- 12 to the power of 8, and of 8 / 5.
solved :
    solve sha3 readings challenge
    ≡ some (record {
      challenge = some challenge;
      output = 11;
      proof = 12;
      compute_time = 1;
      generated_at = 2;
    })
unfolding solve repeated_squaring generate_fiat_shamir_challenge of_bytes of_digits to_bytes digits
    make_odd
solved = refl

-- The modulus of 512 bits has 513; it is the least prime above 2 ^ 512.
modulus_512 : generate_rsa_modulus 0 0 512 ≡ 2 ^ 512 + 75
unfolding generate_rsa_modulus
modulus_512 = refl

verify-forged_example : verify sha3 (some (forged sha3 challenge)) ≡ verdict true
verify-forged_example = verify-forged sha3 challenge (omega arith)

compute_and_verify_vdf-IsValid_example :
    (c : VdfChallenge) × (p : VdfProof) × (generate_challenge sha3 hashes readings config
        (bytes "block")
      ≡ some c)
    × (c.input < 35)
    × (p.output ≡ c.input ^ (2 ^ 3) % 35)
    × (compute_and_verify_vdf sha3 hashes readings config (bytes "block")
        ≡ some (record { proof = some p; is_valid = true; verify_time = 3; has_error = false }))
compute_and_verify_vdf-IsValid_example =
    compute_and_verify_vdf-IsValid sha3 hashes readings config (bytes "block") (omega arith)
