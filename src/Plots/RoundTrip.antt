-- ===== src/Plots/RoundTrip.antt =====
-- What is read back from the binary forms of cmd/plotformat.go and cmd/farm.go, and what is not.
use shadowyapparatus.Prelude.{
  ℕ, zero, suc, ◌+◌, ◌*◌, ◌/◌, ◌%◌, ◌^◌, ◌≤◌, ◌<◌, ◌≡◌, refl, sym, ap, subst, ◌∙◌, ◌⊎◌, arith, leb,
  if◌then◌else◌, none, some, List, [], ◌∷◌, ◌++◌, Bytes, length, take, drop, take-append,
  drop-append, length-append,
}
use mathlib.Core.List.{append_assoc, append-nil}
use native.Mathlib.Nat.{pow-suc}
use shadowyapparatus.Plots.{
  AddressOffsetPair, PlotHeader, PlotEntry, put_little, get_little, write_entries, write_to, size,
  Read, got, panicked, and_then, read_bytes, read_entries, read_from, encode_plot_entry,
  decode_plot_entry, slice,
}

length-put_little : (s n : ℕ) → length (put_little s n) ≡ s
unfolding put_little
length-put_little zero n = refl
length-put_little (suc s) n = ap suc (length-put_little s (n / 256))

get_little-put_little : (s n : ℕ) → n < 256 ^ s → get_little (put_little s n) ≡ n
unfolding put_little get_little
get_little-put_little zero n h = omega arith
get_little-put_little (suc s) n h =
    let p : 256 ^ suc s ≡ 256 ^ s * 256 = pow-suc 256 s in
    let r = get_little-put_little s (n / 256) (omega (arith, p)) in omega (arith, r)

read_bytes-append :
    (s : ℕ) (bs rest : Bytes) → length bs ≡ s → read_bytes s (bs ++ rest) ≡ got bs rest
unfolding read_bytes
read_bytes-append s bs rest e =
    let l = length-append bs rest in
    let t : take s (bs ++ rest) ≡ bs = rw (sym e) (take-append bs rest) in
    let d : drop s (bs ++ rest) ≡ rest = rw (sym e) (drop-append bs rest) in ground (arith, l, t, d)

-- The sizes of the arrays, and offsets that are int32s.
abbrev pub AreEntries : List AddressOffsetPair → Type 0
AreEntries [] = Unit
AreEntries (e ∷ es) =
    (length e.address ≡ 20) × (length e.identifier ≡ 16) × (e.offset < 2 ^ 32) × AreEntries es

abbrev pub IsHeader : PlotHeader → Type 0
IsHeader h =
    (h.version < 2 ^ 64) × (h.k < 2 ^ 32) × (length h.entries < 2 ^ 31) × AreEntries h.entries

nest : (a i o w rest : Bytes) → (a ++ (i ++ (o ++ w))) ++ rest ≡ a ++ (i ++ (o ++ (w ++ rest)))
nest a i o w rest =
    append_assoc a (i ++ (o ++ w)) rest
    ∙ ap (λ m. a ++ m) (append_assoc i (o ++ w) rest ∙ ap (λ m. i ++ m) (append_assoc o w rest))

then_eq :
    {A B : Type 0} {m : Read A} (f : A → Bytes → Read B) (a : A) (r : Bytes)
    → m ≡ got a r
    → and_then m f ≡ f a r
then_eq f a r e = ap (λ m. and_then m f) e

read_entries-write_entries :
    (es : List AddressOffsetPair) (rest : Bytes)
    → AreEntries es
    → read_entries (length es) (write_entries es ++ rest) ≡ got es rest
unfolding read_entries write_entries
read_entries-write_entries [] rest h = refl
read_entries-write_entries (e ∷ es) rest h =
    let i4 = put_little 4 e.offset in
    let w = write_entries es in
    ap (λ m. read_entries (suc (length es)) m) (nest e.address e.identifier i4 w rest)
    ∙ then_eq _ _ _ (read_bytes-append 20 e.address (e.identifier ++ (i4 ++ (w ++ rest))) h.0)
    ∙ then_eq _ _ _ (read_bytes-append 16 e.identifier (i4 ++ (w ++ rest)) h.1)
    ∙ then_eq _ _ _ (read_bytes-append 4 i4 (w ++ rest) (length-put_little 4 e.offset))
    ∙ then_eq _ _ _ (read_entries-write_entries es rest h.3)
    ∙ ap (λ n. got (record e { offset = n } ∷ es) rest)
        (get_little-put_little 4 e.offset (omega (arith, h.2)))

length-write_entries :
    (es : List AddressOffsetPair) → AreEntries es → length (write_entries es) ≡ length es * 40
unfolding write_entries
length-write_entries [] h = refl
length-write_entries (e ∷ es) h =
    let i4 = put_little 4 e.offset in
    let w = write_entries es in
    omega (
      arith,
      h.0,
      h.1,
      length-append e.address (e.identifier ++ (i4 ++ w)),
      length-append e.identifier (i4 ++ w),
      length-append i4 w,
      length-put_little 4 e.offset,
      length-write_entries es h.3,
    )

with_counts :
    (h : PlotHeader) (v k c : ℕ) (w : Bytes)
    → v ≡ h.version
    → k ≡ h.k
    → c ≡ length h.entries
    → length h.entries < 2 ^ 31
    → read_entries (length h.entries) w ≡ got h.entries []
    → (if leb (2 ^ 31) c
        then panicked
        else and_then
            (read_entries c w)
            (λ es file. got (record { version = v; k = k; entries = es }) file))
      ≡ got h []
with_counts h v k c w p q r l e = ground arith

-- A header whose numbers and arrays have their sizes, with fewer than 2 ^ 31 entries: the file that is
-- written is read back as that header, with nothing left, and has the length that `Size` states.
pub read_from-write_to :
    (h : PlotHeader)
    → IsHeader h
    → (read_from (write_to h) ≡ got h []) × (length (write_to h) ≡ size h)
unfolding read_from write_to size
read_from-write_to h s =
    let b8 = put_little 8 h.version in
    let b4 = put_little 4 h.k in
    let n4 = put_little 4 (length h.entries) in
    let w = write_entries h.entries in
    (
      then_eq _ _ _ (read_bytes-append 8 b8 (b4 ++ (n4 ++ w)) (length-put_little 8 h.version))
          ∙ then_eq _ _ _ (read_bytes-append 4 b4 (n4 ++ w) (length-put_little 4 h.k))
          ∙ then_eq _ _ _ (read_bytes-append 4 n4 w (length-put_little 4 (length h.entries)))
          ∙ with_counts h _ _ _ w (get_little-put_little 8 h.version (omega (arith, s.0)))
              (get_little-put_little 4 h.k (omega (arith, s.1)))
              (get_little-put_little 4 (length h.entries) (omega (arith, s.2))) s.2
              (ap (λ m. read_entries (length h.entries) m) (sym (append-nil w))
                ∙ read_entries-write_entries h.entries [] s.3),
      omega (
        arith,
        length-append b8 (b4 ++ (n4 ++ w)),
        length-append b4 (n4 ++ w),
        length-append n4 w,
        length-put_little 8 h.version,
        length-put_little 4 h.k,
        length-put_little 4 (length h.entries),
        length-write_entries h.entries s.3,
      ),
    )

-- The middle of three parts.
slice-middle : (a m b : Bytes) → slice (length a) (length a + length m) (a ++ (m ++ b)) ≡ some m
unfolding slice
slice-middle a m b =
    let j = sym (append_assoc a m b) in
    let n = sym (length-append a m) in
    let t : take (length a + length m) (a ++ (m ++ b)) ≡ a ++ m =
      ap (λ k. take k (a ++ (m ++ b))) n
      ∙ ap (λ l. take (length (a ++ m)) l) j
      ∙ take-append (a ++ m) b in
    let d = ap (λ l. drop (length a) l) t ∙ drop-append a m in
    let l1 = length-append a (m ++ b) in let l2 = length-append m b in ground (arith, d, l1, l2)

length-encode : (e : PlotEntry) → length (encode_plot_entry e) ≡ 4 + length e.file_path + 8
unfolding encode_plot_entry
length-encode e =
    let b4 = put_little 4 (length e.file_path) in
    let b8 = put_little 8 e.entry_offset in
    omega (
      arith,
      length-append b4 (e.file_path ++ b8),
      length-append e.file_path b8,
      length-put_little 4 (length e.file_path),
      length-put_little 8 e.entry_offset,
    )

decode_of :
    (v path offset : Bytes) (n len : ℕ)
    → get_little (take 4 v) ≡ len
    → length v ≡ 4 + len + 8
    → len + 12 < 2 ^ 32
    → slice 4 (4 + len) v ≡ some path
    → slice (4 + len) (4 + len + 8) v ≡ some offset
    → get_little offset ≡ n
    → decode_plot_entry v ≡ got (record { file_path = path; entry_offset = n }) []
unfolding decode_plot_entry
decode_of v path offset n len g l h s t o =
    let a : (4 + len) % 2 ^ 32 ≡ 4 + len = omega arith in
    let b : (4 + len + 8) % 2 ^ 32 ≡ 4 + len + 8 = omega arith in ground (arith, a, b)

-- An entry with a path of up to 2 ^ 32 - 13 bytes and an offset of 64 bits is decoded as it was.
pub decode-encode_plot_entry :
    (e : PlotEntry)
    → length e.file_path + 12 < 2 ^ 32
    → e.entry_offset < 2 ^ 64
    → decode_plot_entry (encode_plot_entry e) ≡ got e []
unfolding encode_plot_entry
decode-encode_plot_entry e h o =
    let p = e.file_path in
    let b4 = put_little 4 (length p) in
    let b8 = put_little 8 e.entry_offset in
    let v = encode_plot_entry e in
    let l4 = length-put_little 4 (length p) in
    let l8 = length-put_little 8 e.entry_offset in
    let m : slice 4 (4 + length p) v ≡ some p =
      subst (λ k. slice k (k + length p) v ≡ some p) l4 (slice-middle b4 p b8) in
    let n = get_little-put_little 4 (length p) (omega (arith, h)) in
    let split : (b4 ++ p) ++ (b8 ++ []) ≡ v =
      append_assoc b4 p (b8 ++ []) ∙ ap (λ r. b4 ++ (p ++ r)) (append-nil b8) in
    let at : length (b4 ++ p) ≡ 4 + length p = omega (arith, length-append b4 p, l4) in
    let o8 : slice (4 + length p) (4 + length p + 8) v ≡ some b8 =
      subst (λ k. slice k (k + 8) v ≡ some b8) at
        (subst (λ k. slice (length (b4 ++ p)) (length (b4 ++ p) + k) v ≡ some b8) l8
          (subst (λ r. slice (length (b4 ++ p)) (length (b4 ++ p) + length b8) r ≡ some b8) split
            (slice-middle (b4 ++ p) b8 []))) in
    let t4 : take 4 v ≡ b4 = subst (λ k. take k v ≡ b4) l4 (take-append b4 (p ++ b8)) in
    decode_of v p b8 e.entry_offset (length p) (ap get_little t4 ∙ n) (length-encode e) h m o8
      (get_little-put_little 8 e.entry_offset (omega (arith, o)))

no_slice : (from to : ℕ) (v : Bytes) → (to < from) ⊎ (length v < to) → slice from to v ≡ none
unfolding slice
no_slice from to v h = ground arith

-- A value of at least 12 and less than 2 ^ 32 - 8 bytes whose first four state a length of 2 ^ 32 - 12
-- or more: the sums with the length wrap, the test of the length is passed, and the slice of the path
-- panics.
pub decode_plot_entry-panicked :
    (v : Bytes)
    → 12 ≤ length v
    → length v + 8 < 2 ^ 32
    → 2 ^ 32 ≤ get_little (take 4 v) + 12
    → get_little (take 4 v) < 2 ^ 32
    → decode_plot_entry v ≡ panicked
unfolding decode_plot_entry
decode_plot_entry-panicked v l u h g =
    let p = get_little (take 4 v) in
    let b : (4 + p + 8) % 2 ^ 32 < 12 = omega arith in
    let c : ((4 + p) % 2 ^ 32 < 4) ⊎ (length v < (4 + p) % 2 ^ 32) = omega arith in
    let n = no_slice 4 ((4 + p) % 2 ^ 32) v c in ground (arith, b, n)
