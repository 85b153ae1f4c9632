-- ===== src/Tests/Operations.antt =====
-- Addresses, and the validation of operations.
use shadowyapparatus.Prelude.{
  ℕ, zero, suc, ◌≡◌, ◌↔◌, refl, true, none, some, [], ◌∷◌, ◌++◌, Bytes, bytes, length,
  bytes_discrete, ℕ_discrete,
}
use shadowyapparatus.Token.{TokenOpType, TokenOperation}
use shadowyapparatus.Address.{address_version, calculate_checksum, is_valid_address}
use shadowyapparatus.Address.Hex.{hex_decode, hex_value}
use shadowyapparatus.Address.Derived.{valid_address_iff}
use shadowyapparatus.Validation.{
  validate_token_operation, validate_by_type, validate_token_operations,
}
use shadowyapparatus.Validation.Checks.{is_valid_uri, to_lower}
use shadowyapparatus.Validation.Tokens.{
  validate_token_create, validate_token_transfer, check_create,
}
use shadowyapparatus.Validation.Conflicts.{
  AllAccepted, IsCompatible, types_of, operations_accepted_iff,
}
use shadowyapparatus.Tests.Data.{token, hashes, hashes-AreSound}

abbrev repeated : ℕ → ℕ → Bytes
repeated zero c = []
repeated (suc n) c = c ∷ repeated n c

abbrev here : Bytes
here = b'L' ∷ repeated 40 b'1'

abbrev there : Bytes
there = b'L' ∷ repeated 40 b'2'

abbrev sending : TokenOperation
sending = record {
  op_type = TokenOpType.token_transfer;
  token_id = repeated 64 b'a';
  op_amount = 5;
  from = here;
  to = there;
  metadata = none;
}

abbrev creating : TokenOperation
creating = record {
  op_type = TokenOpType.token_create;
  token_id = repeated 64 b'a';
  op_amount = 100;
  from = [];
  to = here;
  metadata = some (record (token 100 7) { creator = here });
}

uri_of_turkish_capital : is_valid_uri (0xC4 ∷ 0xB0 ∷ bytes "PFS://x") ≡ true
unfolding is_valid_uri to_lower
uri_of_turkish_capital = refl

valid_address_iff_example : (is_valid_address hashes (b'S' ∷ repeated 50 b'0') ≡ true) ↔ (
    (length (repeated 50 b'0') ≡ 50)
    × (hash : Bytes) × (length hash ≡ 20)
    × (hex_decode (repeated 50 b'0')
        ≡ some ((address_version ∷ hash) ++ calculate_checksum hashes (address_version ∷ hash))))
valid_address_iff_example = valid_address_iff hashes hashes-AreSound (repeated 50 b'0')

sending_accepted : validate_token_operation hashes 0 sending ≡ none
unfolding validate_token_operation validate_by_type validate_token_transfer is_valid_address
    hex_decode hex_value bytes_discrete ℕ_discrete
sending_accepted = refl

creating_accepted : validate_token_operation hashes 0 creating ≡ none
unfolding validate_token_operation validate_by_type validate_token_create check_create
    is_valid_address hex_decode hex_value bytes_discrete ℕ_discrete
creating_accepted = refl

operations_accepted_iff_example :
    (validate_token_operations hashes 0 (creating ∷ sending ∷ []) ≡ none) ↔ (
      AllAccepted hashes 0 (creating ∷ sending ∷ [])
      × ((id : Bytes) → IsCompatible (types_of id (creating ∷ sending ∷ []))))
operations_accepted_iff_example = operations_accepted_iff hashes 0 (creating ∷ sending ∷ [])
