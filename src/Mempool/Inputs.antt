-- ===== src/Mempool/Inputs.antt =====
-- What the DoubleSpendValidator of cmd/mempool_validators.go means for a transaction's inputs.
use shadowyapparatus.Prelude.{
  ℕ, zero, suc, map, subst, ◌+◌, ◌-◌, ◌*◌, ◌/◌, ◌%◌, ◌<◌, ◌≡◌, ◌≢◌, ◌↔◌, refl, sym, ap, ◌∙◌, arith,
  Bool, true, false, ◌&&◌, ◌||◌, not, Option, none, some, List, [], ◌∷◌, ◌++◌, Bytes,
  bytes_discrete, str_eq, ltb, Bool-cases, inl, inr,
}
use shadowyapparatus.Transaction.{TransactionInput, Transaction, SignedTransaction}
use shadowyapparatus.Transaction.Builders.{decimal, decimal_digits}
use shadowyapparatus.Address.{Hashes}
use shadowyapparatus.Mempool.Validators.{
  input_key, is_seen, check_doubles, double_spend_validator, parsed_as,
}

-- The input refers to none of the outputs that the others refer to.
abbrev pub Differs : TransactionInput → List TransactionInput → Type 0
Differs i [] = Unit
Differs i (j ∷ js) =
    (i.previous_tx_hash ≡ j.previous_tx_hash → i.output_index ≢ j.output_index) × Differs i js

-- No two inputs refer to the same output.
abbrev pub AllDiffer : List TransactionInput → Type 0
AllDiffer [] = Unit
AllDiffer (i ∷ is) = Differs i is × AllDiffer is

-- The number that digits state, after a number that stands before them.
abbrev stated : ℕ → Bytes → ℕ
stated n [] = n
stated n (c ∷ cs) = stated (n * 10 + (c - b'0')) cs

last_digit :
    (fuel n : ℕ) (acc : Bytes)
    → ltb n 10 ≡ true
    → decimal_digits (suc fuel) n acc ≡ (b'0' + n) ∷ acc
unfolding decimal_digits
last_digit fuel n acc e = rw (decimal_digits, e)

next_digit :
    (fuel n : ℕ) (acc : Bytes)
    → ltb n 10 ≡ false
    → decimal_digits (suc fuel) n acc ≡ decimal_digits fuel (n / 10) ((b'0' + n % 10) ∷ acc)
unfolding decimal_digits
next_digit fuel n acc e = rw (decimal_digits, e)

stated-digits :
    (fuel n : ℕ) (acc : Bytes) → n < fuel → stated 0 (decimal_digits fuel n acc) ≡ stated n acc
unfolding decimal_digits
stated-digits zero n acc h = absurd (omega arith)
stated-digits (suc fuel) n acc h = elim (Bool-cases (ltb n 10)) [
  | inl e ↦
      subst (λ t. stated 0 t ≡ stated n acc) (sym (last_digit fuel n acc e))
        (ap (λ k. stated k acc) (omega arith))
  | inr e ↦
      subst (λ t. stated 0 t ≡ stated n acc) (sym (next_digit fuel n acc e))
        (stated-digits fuel (n / 10) ((b'0' + n % 10) ∷ acc) (ground arith)
          ∙ ap (λ k. stated k acc) (omega arith))
]

stated-decimal : (n : ℕ) → stated 0 (decimal n) ≡ n
unfolding decimal
stated-decimal n = stated-digits (suc n) n [] (omega arith)

abbrev HasNoColon : Bytes → Type 0
HasNoColon [] = Unit
HasNoColon (c ∷ cs) = (c ≢ b':') × HasNoColon cs

digits-HasNoColon :
    (fuel n : ℕ) (acc : Bytes) → HasNoColon acc → HasNoColon (decimal_digits fuel n acc)
unfolding decimal_digits
digits-HasNoColon zero n acc h = h
digits-HasNoColon (suc fuel) n acc h = elim (Bool-cases (ltb n 10)) [
  | inl e ↦ subst HasNoColon (sym (last_digit fuel n acc e)) (λ q. ground arith, h)
  | inr e ↦
      subst HasNoColon (sym (next_digit fuel n acc e))
        (digits-HasNoColon fuel (n / 10) ((b'0' + n % 10) ∷ acc) (λ q. absurd (omega arith), h))
]

colon_there : (a b : Bytes) → HasNoColon (a ++ (b':' ∷ b)) → ⊥
colon_there [] b h = h.0 refl
colon_there (c ∷ a) b h = colon_there a b h.1

-- The last colon divides a text in one way.
last_colon :
    (a b c d : Bytes)
    → HasNoColon b
    → HasNoColon d
    → a ++ (b':' ∷ b) ≡ c ++ (b':' ∷ d)
    → (a ≡ c) × (b ≡ d)
last_colon [] b [] d h k e = (refl, cc)
last_colon [] b (x ∷ c) d h k e =
    let t : b ≡ c ++ (b':' ∷ d) = cc in absurd (colon_there c d (subst HasNoColon t h))
last_colon (x ∷ a) b [] d h k e =
    let t : d ≡ a ++ (b':' ∷ b) = cc in absurd (colon_there a b (subst HasNoColon t k))
last_colon (x ∷ a) b (y ∷ c) d h k e =
    let t : a ++ (b':' ∷ b) ≡ c ++ (b':' ∷ d) = cc in
    let (p, q) = last_colon a b c d h k t in (cc, q)

-- Two keys are equal only for the same output.
input_key-injective :
    (i j : TransactionInput)
    → input_key i ≡ input_key j
    → (i.previous_tx_hash ≡ j.previous_tx_hash) × (i.output_index ≡ j.output_index)
unfolding input_key decimal
input_key-injective i j e =
    let no_colon : (n : ℕ) → HasNoColon (decimal n) = λ n. digits-HasNoColon (suc n) n [] tt in
    let (p, q) =
      last_colon i.previous_tx_hash (decimal i.output_index) j.previous_tx_hash
        (decimal j.output_index) (no_colon i.output_index) (no_colon j.output_index) e in
    (p, sym (stated-decimal i.output_index) ∙ ap (stated 0) q ∙ stated-decimal j.output_index)

-- No key is one of the later ones.
all_differ : List Bytes → Bool
all_differ [] = true
all_differ (k ∷ ks) = not (is_seen k ks) && all_differ ks

-- No key of the second list is one of the first.
none_seen : List Bytes → List Bytes → Bool
none_seen seen [] = true
none_seen seen (k ∷ ks) = not (is_seen k seen) && none_seen seen ks

str_eq_comm : (a b : Bytes) → str_eq a b ≡ str_eq b a
str_eq_comm a b = ground arith

str_eq_no : {a b : Bytes} → a ≢ b → str_eq a b ≡ false
unfolding bytes_discrete
str_eq_no n = ground arith

none_seen-cons :
    (k : Bytes) (seen ks : List Bytes)
    → none_seen (k ∷ seen) ks ≡ (not (is_seen k ks) && none_seen seen ks)
unfolding none_seen is_seen
none_seen-cons k seen [] = refl
none_seen-cons k seen (j ∷ ks) =
    let e = str_eq_comm k j in let r = none_seen-cons k seen ks in ground (arith, e, r)

check_doubles_iff :
    (seen : List Bytes) (is : List TransactionInput)
    → (check_doubles seen is ≡ none)
      ↔ ((all_differ (map input_key is) && none_seen seen (map input_key is)) ≡ true)
unfolding check_doubles all_differ none_seen
check_doubles_iff seen [] = (λ h. refl, λ h. refl)
check_doubles_iff seen (i ∷ is) =
    let r = check_doubles_iff (input_key i ∷ seen) is in
    let c = none_seen-cons (input_key i) seen (map input_key is) in
    (λ h. ground (arith, r.0, c), λ h. ground (arith, r.1, c))

none_seen-nil : (ks : List Bytes) → none_seen [] ks ≡ true
unfolding none_seen is_seen
none_seen-nil [] = refl
none_seen-nil (k ∷ ks) = none_seen-nil ks

same_key :
    (i j : TransactionInput)
    → i.previous_tx_hash ≡ j.previous_tx_hash
    → i.output_index ≡ j.output_index
    → input_key i ≡ input_key j
unfolding input_key
same_key i j p q = rw (p, q)

unseen_iff :
    (i : TransactionInput) (is : List TransactionInput)
    → (is_seen (input_key i) (map input_key is) ≡ false) ↔ Differs i is
unfolding is_seen
unseen_iff i [] = (λ h. tt, λ h. refl)
unseen_iff i (j ∷ is) =
    let r = unseen_iff i is in
    elim (bytes_discrete (input_key i) (input_key j)) [
      | yes e ↦
          let (p, q) = input_key-injective i j e in
          (λ h. absurd (ground (arith, e, h)), λ h. absurd (h.0 p q))
      | no n ↦
          let step = ap (λ b. b || is_seen (input_key i) (map input_key is)) (str_eq_no n) in
          (λ h. (λ p q. n (same_key i j p q), r.0 (sym step ∙ h)), λ h. step ∙ r.1 h.1)
    ]

all_differ_iff :
    (is : List TransactionInput) → (all_differ (map input_key is) ≡ true) ↔ AllDiffer is
unfolding all_differ
all_differ_iff [] = (λ h. tt, λ h. refl)
all_differ_iff (i ∷ is) =
    let r = all_differ_iff is in
    let u = unseen_iff i is in
    elim (Bool-cases (is_seen (input_key i) (map input_key is))) [
      | inl e ↦ (λ h. absurd (ground arith), λ h. absurd (ground (arith, u.1 h.0)))
      | inr e ↦ (λ h. (u.0 e, r.0 (ground arith)), λ h. ground (arith, r.1 h.1))
    ]

-- The validator accepts a transaction that can be parsed if and only if no two of its inputs, adjacent
-- or not, have both the same previous transaction and the same output index.
pub double_spend_validator_iff :
    (parse : Bytes → Option Transaction) (json_size : SignedTransaction → ℕ) (h : Hashes) (now : ℕ)
    (signed : SignedTransaction) (tx : Transaction)
    → parse signed.transaction ≡ some tx
    → (double_spend_validator parse json_size h now signed ≡ none) ↔ AllDiffer tx.inputs
unfolding double_spend_validator
double_spend_validator_iff parse json_size h now signed tx e =
    let c = check_doubles_iff [] tx.inputs in
    let n = none_seen-nil (map input_key tx.inputs) in
    let d = all_differ_iff tx.inputs in
    let s = ap (λ p. parsed_as p (λ t. check_doubles [] t.inputs)) e in
    (λ q. d.0 (ground (arith, c.0, n, s, q)), λ q. ground (arith, c.1, n, s, d.1 q))
