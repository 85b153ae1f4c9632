-- ===== src/Tests/Signed.antt =====
-- Transactions that are built and signed, and identifiers that are compared.
use shadowyapparatus.Prelude.{
  ℕ, zero, suc, ◌≡◌, refl, ap, subst, Option, length, true, some, none, [], ◌∷◌, Bytes, bytes,
}
use shadowyapparatus.Address.{is_valid_address}
use shadowyapparatus.Address.Hex.{AreBytes, hex_decode, hex_value}
use shadowyapparatus.Crypto.{
  Mldsa, IsMldsa, key_pair, hamming_distance, clear_bits, find_closest_match,
}
use shadowyapparatus.Crypto.Closest.{IsClosest, find_closest_match-IsClosest}
use shadowyapparatus.Mempool.Validators.{is_valid, check_inputs, check_outputs}
use shadowyapparatus.Validation.{validate_token_operations, first_conflict, validate_loop}
use shadowyapparatus.Transaction.{Transaction, SignedTransaction}
use shadowyapparatus.Transaction.Built.{Call, create}
use shadowyapparatus.Transaction.Signing.{
  done, Json, unscripted, sign_transaction, verify_signed_transaction,
}
use shadowyapparatus.Transaction.RoundTrip.{signed_then_verified}
use shadowyapparatus.Tests.Data.{pad, hashes, length-pad, AreBytes-pad}

abbrev repeated : ℕ → ℕ → Bytes
repeated zero c = []
repeated (suc n) c = c ∷ repeated n c

abbrev here : Bytes
here = b'L' ∷ repeated 40 b'1'

abbrev paying : Transaction
paying = record {
  version = 1;
  inputs =
      record {
        previous_tx_hash = [];
        output_index = 0;
        script_sig = bytes "script";
        sequence = 0xFFFFFFFF;
      }
      ∷ [];
  outputs = record { value = 5; script_pub_key = []; address = here } ∷ [];
  token_ops = [];
  not_until = 0;
  timestamp = 0;
  nonce = 1;
}

paying-is_valid : is_valid hashes 0 paying ≡ none
unfolding is_valid check_inputs check_outputs validate_token_operations validate_loop first_conflict
    is_valid_address hex_decode hex_value
paying-is_valid = refl

-- A scheme with the shape of ML-DSA-87 that accepts every signature.
abbrev scheme : Mldsa
scheme = record {
  new_key_from_seed = λ seed. some (pad 2592 seed, pad 4896 seed);
  public_key_of = λ sk. none;
  sign_to = λ sk m. some (pad 4627 m);
  is_public_key = λ pk. true;
  accepts = λ pk m sig. true;
}

abbrev text_of : Option Bytes → Bytes
text_of none = []
text_of (some t) = t

abbrev public_part : Option (Bytes × Bytes) → Bytes
public_part none = []
public_part (some (pk, sk)) = pk

padded : (n : ℕ) (m t : Bytes) → pad n m ≡ t → AreBytes t × (length t ≡ n)
padded n m t e = subst (λ p. AreBytes p × (length p ≡ n)) e (AreBytes-pad n m, length-pad n m)

scheme-IsMldsa : IsMldsa scheme
scheme-IsMldsa = record {
  public_key = λ seed pk sk e. let p = padded 2592 seed pk (ap public_part e) in (p.0, p.1, refl);
  signature = λ sk m sig e. padded 4627 m sig (ap text_of e);
  verified = λ seed pk sk m sig e f. refl;
}

abbrev json : Json
json = record { marshal = λ tx. some []; parse = λ m. some paying }

signed_then_verified_example :
    (signed : SignedTransaction) × (sign_transaction hashes json scheme paying
        (key_pair hashes pad scheme (1 ∷ []) (pad 2592 (1 ∷ [])) (pad 4896 (1 ∷ [])))
      ≡ (done signed, unscripted paying))
    × (verify_signed_transaction hashes json scheme 0 signed ≡ done (unscripted paying))
signed_then_verified_example =
    signed_then_verified scheme scheme-IsMldsa hashes json pad (1 ∷ []) (pad 2592 (1 ∷ []))
      (pad 4896 (1 ∷ [])) [] [] (pad 4627 []) 0 paying refl refl refl refl refl refl paying-is_valid

abbrev creating : Call
creating = create (bytes "Gold") (bytes "AU") 100 2 7 here []

two_bits : hamming_distance (9 ∷ 0 ∷ []) (0 ∷ 0 ∷ []) ≡ 2
unfolding hamming_distance clear_bits
two_bits = refl

find_closest_match-IsClosest_example :
    (i : ℕ) × (find_closest_match (9 ∷ []) ((6 ∷ []) ∷ (8 ∷ []) ∷ (1 ∷ []) ∷ []) ≡ some i)
    × IsClosest (9 ∷ []) ((6 ∷ []) ∷ (8 ∷ []) ∷ (1 ∷ []) ∷ []) i
find_closest_match-IsClosest_example =
    find_closest_match-IsClosest (9 ∷ []) (6 ∷ []) ((8 ∷ []) ∷ (1 ∷ []) ∷ [])
