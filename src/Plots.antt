-- ===== src/Plots.antt =====
-- The binary forms of cmd/plotformat.go (the header of a plot file) and cmd/farm.go (the entries of the
-- plot index). An int32 or int64 is its bit pattern; a write to the file does not fail.
pub mod RoundTrip
use shadowyapparatus.Prelude.{
  ℕ, zero, suc, ◌+◌, ◌*◌, ◌/◌, ◌%◌, ◌^◌, ltb, leb, if◌then◌else◌, Option, none, some, List, [], ◌∷◌,
  ◌++◌, Bytes, length, take, drop,
}

pub record AddressOffsetPair : Type 0 where
  pub address : Bytes
  pub identifier : Bytes
  pub offset : ℕ

pub record PlotHeader : Type 0 where
  pub version : ℕ
  pub k : ℕ
  pub entries : List AddressOffsetPair

-- `n` in `size` bytes, the lowest first, and back.
unfoldable pub put_little : ℕ → ℕ → Bytes
put_little zero n = []
put_little (suc size) n = (n % 256) ∷ put_little size (n / 256)

unfoldable pub get_little : Bytes → ℕ
get_little [] = 0
get_little (b ∷ bs) = b + 256 * get_little bs

unfoldable pub write_entries : List AddressOffsetPair → Bytes
unfolding put_little
write_entries [] = []
write_entries (e ∷ es) = e.address ++ (e.identifier ++ (put_little 4 e.offset ++ write_entries es))

-- `int32(len(h.Entries))`
unfoldable pub write_to : PlotHeader → Bytes
unfolding put_little write_entries
write_to h =
    put_little 8 h.version
    ++ (put_little 4 h.k ++ (put_little 4 (length h.entries) ++ write_entries h.entries))

unfoldable pub size : PlotHeader → ℕ
size h = 8 + 4 + 4 + length h.entries * (20 + 16 + 4)

-- What a read comes to: a value and the rest of the file, an error, or a panic.
pub data Read (A : Type 0) : Type 0 where
  got : A → Bytes → Read A
  failed panicked : Read A

abbrev pub and_then : {A B : Type 0} → Read A → (A → Bytes → Read B) → Read B
and_then (got a rest) f = f a rest
and_then failed f = failed
and_then panicked f = panicked

unfoldable pub read_bytes : ℕ → Bytes → Read Bytes
read_bytes n file = if ltb (length file) n then failed else got (take n file) (drop n file)

unfoldable pub read_entries : ℕ → Bytes → Read (List AddressOffsetPair)
unfolding read_bytes get_little
read_entries zero file = got [] file
read_entries (suc n) file = and_then (read_bytes 20 file) (λ address file.
    and_then (read_bytes 16 file) (λ identifier file. and_then (read_bytes 4 file) (λ offset file.
      and_then (read_entries n file) (λ es file.
        got (record { address = address; identifier = identifier; offset = get_little offset } ∷ es)
          file))))

-- A negative count is a panic of `make`.
unfoldable pub read_from : Bytes → Read PlotHeader
unfolding read_bytes read_entries get_little
read_from file = and_then (read_bytes 8 file) (λ version file.
    and_then (read_bytes 4 file) (λ k file. and_then (read_bytes 4 file) (λ count file.
      if leb (2 ^ 31) (get_little count)
      then panicked
      else and_then (read_entries (get_little count) file) (λ es file.
        got (record { version = get_little version; k = get_little k; entries = es }) file))))

pub record PlotEntry : Type 0 where
  pub file_path : Bytes
  pub entry_offset : ℕ

unfoldable pub encode_plot_entry : PlotEntry → Bytes
unfolding put_little
encode_plot_entry e =
    put_little 4 (length e.file_path) ++ (e.file_path ++ put_little 8 e.entry_offset)

-- `value[from:to]`, or none, a panic
unfoldable pub slice : (from to : ℕ) → Bytes → Option Bytes
slice from to value =
    if leb from to
    then if leb to (length value) then some (drop from (take to value)) else none
    else none

-- The length of a path is a uint32, and so are the sums with it.
unfoldable pub decode_plot_entry : Bytes → Read PlotEntry
unfolding get_little slice
decode_plot_entry value =
    let path_len = get_little (take 4 value) in
    if ltb (length value) 12
    then failed
    else if ltb (length value) ((4 + path_len + 8) % 2 ^ 32)
    then failed
    else elim (slice 4 ((4 + path_len) % 2 ^ 32) value) [
      | none ↦ panicked
      | some path ↦ elim (slice ((4 + path_len) % 2 ^ 32) ((4 + path_len + 8) % 2 ^ 32) value) [
        | none ↦ panicked
        | some offset ↦ got (record { file_path = path; entry_offset = get_little offset }) []
      ]
    ]
