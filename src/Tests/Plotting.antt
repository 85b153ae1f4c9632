-- ===== src/Tests/Plotting.antt =====
-- A plot's header and an entry of the index.
use shadowyapparatus.Prelude.{ℕ, zero, suc, ◌≡◌, refl, arith, [], ◌∷◌, Bytes, bytes, length}
use shadowyapparatus.Plots.{
  PlotHeader, PlotEntry, got, panicked, write_to, read_from, size, encode_plot_entry,
  decode_plot_entry, get_little,
}
use shadowyapparatus.Plots.RoundTrip.{
  read_from-write_to, decode-encode_plot_entry, decode_plot_entry-panicked,
}

abbrev repeated : ℕ → ℕ → Bytes
repeated zero c = []
repeated (suc n) c = c ∷ repeated n c

abbrev header : PlotHeader
header = record {
  version = 1;
  k = 20;
  entries =
      record { address = repeated 20 1; identifier = repeated 16 2; offset = 300 }
      ∷ record { address = repeated 20 3; identifier = repeated 16 4; offset = 5196 }
      ∷ [];
}

read_from-write_to_example :
    (read_from (write_to header) ≡ got header []) × (length (write_to header) ≡ size header)
read_from-write_to_example = read_from-write_to header (omega arith)

abbrev entry : PlotEntry
entry = record { file_path = bytes "plots/a.plot"; entry_offset = 5196 }

decode-encode_plot_entry_example : decode_plot_entry (encode_plot_entry entry) ≡ got entry []
decode-encode_plot_entry_example = decode-encode_plot_entry entry (omega arith) (omega arith)

-- The length is 2 ^ 32 - 12.
abbrev malformed : Bytes
malformed = 0xF4 ∷ 0xFF ∷ 0xFF ∷ 0xFF ∷ repeated 8 0

malformed_length : get_little (0xF4 ∷ 0xFF ∷ 0xFF ∷ 0xFF ∷ []) ≡ 4294967284
unfolding get_little
malformed_length = refl

decode_plot_entry-panicked_example : decode_plot_entry malformed ≡ panicked
decode_plot_entry-panicked_example =
    decode_plot_entry-panicked malformed (omega arith) (omega arith)
      (omega (arith, malformed_length)) (omega (arith, malformed_length))
