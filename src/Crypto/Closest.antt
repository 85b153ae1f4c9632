-- ===== src/Crypto/Closest.antt =====
-- Which identifier `FindClosestMatch` of cmd/crypto.go finds, and what its distance counts.
use shadowyapparatus.Prelude.{
  ℕ, zero, suc, ◌+◌, ◌/◌, ◌%◌, ◌≤◌, ◌<◌, ◌≡◌, refl, arith, Bool, true, ◌&&◌, some, List, [], ◌∷◌,
  Bytes, get_elem?, ltb, ltb→lt, ltb-false→le, Bool-cases, inl, inr, ◌==◌,
}
use shadowyapparatus.Crypto.{clear_bits, hamming_distance, closest_loop, find_closest_match}

-- How many of a byte's eight bits are set.
unfoldable pub set_bits : ℕ → ℕ → ℕ
set_bits zero x = 0
set_bits (suc n) x = x % 2 + set_bits n (x / 2)

all_below : ℕ → (ℕ → Bool) → Bool
all_below zero p = true
all_below (suc n) p = p n && all_below n p

all_below_lem : (n : ℕ) (p : ℕ → Bool) (x : ℕ) → all_below n p ≡ true → x < n → p x ≡ true
unfolding all_below
all_below_lem zero p x h l = absurd (omega arith)
all_below_lem (suc n) p x h l = ground (arith, all_below_lem n p x)

==-eq : (a b : ℕ) → (a == b) ≡ true → a ≡ b
==-eq a b h = ground arith

bits_table : all_below 256 (λ x. clear_bits 8 x == set_bits 8 x) ≡ true
unfolding all_below clear_bits set_bits
bits_table = refl

clear_bits_lem : (x : ℕ) → x < 256 → clear_bits 8 x ≡ set_bits 8 x
clear_bits_lem x h =
    ==-eq (clear_bits 8 x) (set_bits 8 x)
      (all_below_lem 256 (λ y. clear_bits 8 y == set_bits 8 y) x bits_table h)

-- An entry of the list that is nearer than all before it, and no farther than any.
pub record IsClosest (target : Bytes) (ids : List Bytes) (i : ℕ) : Type 0 where
  pub id : Bytes
  pub found : get_elem? ids i ≡ some id
  pub least :
      (j : ℕ) (other : Bytes)
      → get_elem? ids j ≡ some other
      → hamming_distance target id ≤ hamming_distance target other
  pub first :
      (j : ℕ) (other : Bytes)
      → get_elem? ids j ≡ some other
      → j < i
      → hamming_distance target id < hamming_distance target other

module _ (target : Bytes) where
  abbrev distance : Bytes → ℕ
  distance id = hamming_distance target id

  AllAtLeast : ℕ → List Bytes → Type 0
  AllAtLeast d ids = (j : ℕ) (other : Bytes) → get_elem? ids j ≡ some other → d ≤ distance other

  AllBeforeAbove : ℕ → ℕ → List Bytes → Type 0
  AllBeforeAbove d k ids =
      (j : ℕ) (other : Bytes) → get_elem? ids j ≡ some other → j < k → d < distance other

  -- What the loop comes to: the best before it, or an entry of the list that is left.
  data Ends (best d i : ℕ) (ids : List Bytes) (r : ℕ) : Type 0 where
    kept : r ≡ best → AllAtLeast d ids → Ends best d i ids r
    replaced :
        (k : ℕ) (id : Bytes)
        → r ≡ i + k
        → get_elem? ids k ≡ some id
        → distance id < d
        → AllAtLeast (distance id) ids
        → AllBeforeAbove (distance id) k ids
        → Ends best d i ids r

  at_least-cons :
      (d : ℕ) (b : Bytes) (bs : List Bytes)
      → d ≤ distance b
      → AllAtLeast d bs
      → AllAtLeast d (b ∷ bs)
  unfolding AllAtLeast
  at_least-cons d b bs h g zero other e = ground (arith, h, e)
  at_least-cons d b bs h g (suc j) other e = g j other e

  before-cons :
      (d k : ℕ) (b : Bytes) (bs : List Bytes)
      → d < distance b
      → AllBeforeAbove d k bs
      → AllBeforeAbove d (suc k) (b ∷ bs)
  unfolding AllBeforeAbove
  before-cons d k b bs h g zero other e l = ground (arith, h, e)
  before-cons d k b bs h g (suc j) other e l = g j other e (omega arith)

  before_zero : (d : ℕ) (bs : List Bytes) → AllBeforeAbove d zero bs
  unfolding AllBeforeAbove
  before_zero d bs j other e l = absurd (omega arith)

  -- One entry more at the front, which was nearer than the best, or was not.
  closer :
      (best d i r : ℕ) (b : Bytes) (bs : List Bytes)
      → distance b < d
      → Ends i (distance b) (suc i) bs r
      → Ends best d i (b ∷ bs) r
  closer best d i r b bs h (kept e g) =
      replaced 0 b (omega arith) refl h (at_least-cons _ b bs (omega arith) g)
        (before_zero _ (b ∷ bs))
  closer best d i r b bs h (replaced k id e f l g p) =
      replaced (suc k) id (omega arith) f (omega arith) (at_least-cons _ b bs (omega arith) g)
        (before-cons _ k b bs l p)

  farther :
      (best d i r : ℕ) (b : Bytes) (bs : List Bytes)
      → d ≤ distance b
      → Ends best d (suc i) bs r
      → Ends best d i (b ∷ bs) r
  farther best d i r b bs h (kept e g) = kept e (at_least-cons d b bs h g)
  farther best d i r b bs h (replaced k id e f l g p) =
      replaced (suc k) id (omega arith) f l (at_least-cons _ b bs (omega arith) g)
        (before-cons _ k b bs (omega arith) p)

  closest_loop-Ends :
      (best d i : ℕ) (ids : List Bytes) → Ends best d i ids (closest_loop target best d i ids)
  unfolding closest_loop AllAtLeast
  closest_loop-Ends best d i [] = kept refl (λ j other e. absurd (cc))
  closest_loop-Ends best d i (b ∷ bs) = elim (Bool-cases (ltb (distance b) d)) [
    | inl h ↦
        closer best d i _ b bs (ltb→lt _ _ h) (rw h (closest_loop-Ends i (distance b) (suc i) bs))
    | inr h ↦
        farther best d i _ b bs (ltb-false→le _ _ h) (rw h (closest_loop-Ends best d (suc i) bs))
  ]

  of_end :
      (b : Bytes) (bs : List Bytes) (r : ℕ)
      → Ends 0 (distance b) 1 bs r
      → IsClosest target (b ∷ bs) r
  unfolding AllAtLeast AllBeforeAbove
  of_end b bs r (kept e g) = record {
    id = b;
    found = rw e refl;
    least = at_least-cons (distance b) b bs (omega arith) g;
    first = λ j other f l. absurd (omega arith);
  }
  of_end b bs r (replaced k id e f l g p) = record {
    id = id;
    found = ground (arith, e, f);
    least = at_least-cons (distance id) b bs (omega arith) g;
    first = λ j other q m. before-cons (distance id) k b bs l p j other q (omega arith);
  }

  -- The answer for a list that is not empty is the index of the first of the identifiers with the
  -- least distance.
  pub find_closest_match-IsClosest :
      (b : Bytes) (bs : List Bytes)
      → (i : ℕ) × (find_closest_match target (b ∷ bs) ≡ some i) × IsClosest target (b ∷ bs) i
  unfolding find_closest_match
  find_closest_match-IsClosest b bs =
      (_, refl, of_end b bs _ (closest_loop-Ends 0 (distance b) 1 bs))
