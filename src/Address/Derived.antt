-- ===== src/Address/Derived.antt =====
-- Which texts are addresses, and that the derived ones are.
use shadowyapparatus.Prelude.{
  ℕ, ◌≡◌, refl, ap, ◌∙◌, sym, arith, Bool, true, false, Option, none, some, [], ◌∷◌, ◌++◌, Bytes,
  bytes, length, take, drop, ◌==◌, ◌↔◌, if◌then◌else◌, length-append, length-take, take-append,
  drop-append, append-take-drop,
}
use shadowyapparatus.Address.{
  Hashes, AreSound, address_version, address_len, calculate_checksum, derive_address,
  generate_l_address, bytes_equal, decoded_is_valid, is_valid_address, is_valid_l_address,
}
use shadowyapparatus.Address.Hex.{
  hex_encode, hex_decode, hex_decode-encode, length-hex_encode, take-hex_encode, AreBytes-take,
  AreBytes-append,
}

bytes_equal_iff : (xs ys : Bytes) → (bytes_equal xs ys ≡ true) ↔ (xs ≡ ys)
bytes_equal_iff [] [] = (λ _. refl, λ _. refl)
bytes_equal_iff [] (y ∷ ys) = (λ h. cc, λ h. cc)
bytes_equal_iff (x ∷ xs) [] = (λ h. cc, λ h. cc)
bytes_equal_iff (x ∷ xs) (y ∷ ys) =
    (λ h. ground (arith, (bytes_equal_iff xs ys).0), λ h. ground (arith, (bytes_equal_iff xs ys).1))

-- The tests of a decoded address, with variables for the constants.
tests_parts :
    (n k v w : ℕ) (c : Bool)
    → (if n == k then if v == w then c else false else false) ≡ true
    → (n ≡ k) × (v ≡ w) × (c ≡ true)
tests_parts n k v w c e = ground arith

pass_tests :
    (n k v w : ℕ) (c : Bool)
    → n ≡ k
    → v ≡ w
    → c ≡ true
    → (if n == k then if v == w then c else false else false) ≡ true
pass_tests n k v w c p q r = ground arith

size_parts : (n k : ℕ) (c : Bool) → (if n == k then c else false) ≡ true → (n ≡ k) × (c ≡ true)
size_parts n k c e = ground arith

pass_size : (n k : ℕ) (c : Bool) → n ≡ k → c ≡ true → (if n == k then c else false) ≡ true
pass_size n k c p q = ground arith

some_parts :
    (f : Bytes → Bool) (o : Option Bytes)
    → (elim o [ none ↦ false | some d ↦ f d ]) ≡ true
    → (d : Bytes) × (o ≡ some d) × (f d ≡ true)
some_parts f none e = absurd (cc)
some_parts f (some d) e = (d, refl, e)

module _ (h : Hashes) (sound : AreSound h) where
  length-checksum : (m : Bytes) → length (calculate_checksum h m) ≡ 4
  unfolding calculate_checksum
  length-checksum m = length-take 4 _ (omega (arith, sound.keccak_length (h.keccak m)))

  decoded_parts :
      (v : ℕ) (rest : Bytes)
      → decoded_is_valid h (v ∷ rest) ≡ true
      → (length rest ≡ 24)
        × (v ≡ address_version)
        × (drop 20 rest ≡ calculate_checksum h (v ∷ take 20 rest))
  unfolding decoded_is_valid
  decoded_parts v rest e =
      let sum = calculate_checksum h (v ∷ take 20 rest) in
      let parts =
        tests_parts (length (v ∷ rest)) address_len v address_version
          (bytes_equal (drop 20 rest) sum) e in
      (omega (arith, parts.0), parts.1, (bytes_equal_iff (drop 20 rest) sum).0 parts.2)

  decoded_sound :
      (d : Bytes)
      → decoded_is_valid h d ≡ true
      → (hash : Bytes) × (length hash ≡ 20)
        × (d ≡ (address_version ∷ hash) ++ calculate_checksum h (address_version ∷ hash))
  unfolding decoded_is_valid
  decoded_sound [] e = absurd (cc)
  decoded_sound (v ∷ rest) e =
      let parts = decoded_parts v rest e in
      (
        take 20 rest,
        length-take 20 rest (omega (arith, parts.0)),
        rw (← parts.1) (rw (← parts.2) (rw (append-take-drop 20 rest))),
      )

  decoded_complete :
      (hash : Bytes)
      → length hash ≡ 20
      → decoded_is_valid h
          ((address_version ∷ hash) ++ calculate_checksum h (address_version ∷ hash))
        ≡ true
  unfolding decoded_is_valid
  decoded_complete hash e =
      let sum = calculate_checksum h (address_version ∷ hash) in
      let front : take 20 (hash ++ sum) ≡ hash =
        ap (λ k. take k (hash ++ sum)) (sym e) ∙ take-append hash sum in
      let back : drop 20 (hash ++ sum) ≡ sum =
        ap (λ k. drop k (hash ++ sum)) (sym e) ∙ drop-append hash sum in
      pass_tests (length (address_version ∷ hash ++ sum)) address_len address_version
        address_version
        (bytes_equal (drop 20 (hash ++ sum))
          (calculate_checksum h (address_version ∷ take 20 (hash ++ sum))))
        (omega (arith, length-append hash sum, length-checksum (address_version ∷ hash))) refl
        (rw (front, back) ((bytes_equal_iff sum sum).1 refl))

  -- A text that begins with S is accepted exactly when it has 51 characters and the rest is the
  -- hexadecimal form of the version, twenty bytes, and the checksum of these.
  pub valid_address_iff :
      (a : Bytes)
      → (is_valid_address h (b'S' ∷ a) ≡ true) ↔ (
          (length a ≡ 50)
          × (hash : Bytes) × (length hash ≡ 20)
          × (hex_decode a
              ≡ some ((address_version ∷ hash) ++ calculate_checksum h (address_version ∷ hash))))
  unfolding is_valid_address
  valid_address_iff a = (
    λ e.
        let size = size_parts (length (b'S' ∷ a)) 51 _ e in
        let text = some_parts (decoded_is_valid h) (hex_decode a) size.1 in
        let whole = decoded_sound text.0 text.2 in
        (omega (arith, size.0), whole.0, whole.1, rw (← whole.2) text.1),
    λ (long, hash, short, decoded).
        pass_size (length (b'S' ∷ a)) 51 _ (omega (arith, long))
          (rw decoded (decoded_complete hash short)),
  )

  -- Every derived address is accepted, and has 51 characters.
  pub derived_is_valid :
      (key : Bytes)
      → (is_valid_address h (derive_address h key) ≡ true) × (length (derive_address h key) ≡ 51)
  unfolding derive_address calculate_checksum
  derived_is_valid key =
      let hash = h.shake 20 key in
      let payload = address_version ∷ hash in
      let body = payload ++ calculate_checksum h payload in
      let long : length (hex_encode body) ≡ 50 = omega (
        arith,
        length-hex_encode body,
        length-append hash (calculate_checksum h payload),
        length-checksum payload,
        sound.shake_length 20 key,
      ) in
      (
        (valid_address_iff (hex_encode body)).1 (
          long,
          hash,
          sound.shake_length 20 key,
          hex_decode-encode body (
              AreBytes-append payload (calculate_checksum h payload)
                (omega arith, sound.shake_bytes 20 key)
                (AreBytes-take 4 _ (sound.keccak_bytes (h.keccak payload)))),
        ),
        omega (arith, long),
      )

  -- The address of a pool is accepted by both checks.
  pub l_address_is_valid :
      (tx_hash : Bytes)
      → (is_valid_l_address (generate_l_address h tx_hash) ≡ true)
        × (is_valid_address h (generate_l_address h tx_hash) ≡ true)
  unfolding is_valid_address is_valid_l_address generate_l_address
  l_address_is_valid tx_hash =
      let m = bytes "L-ADDRESS:" ++ tx_hash in
      let digest = h.shake 32 m in
      ground (
        arith,
        take-hex_encode 20 digest,
        length-hex_encode (take 20 digest),
        length-take 20 digest,
        sound.shake_length 32 m,
        hex_decode-encode (take 20 digest) (AreBytes-take 20 digest (sound.shake_bytes 32 m)),
      )
