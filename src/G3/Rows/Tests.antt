-- ===== src/G3/Rows/Tests.antt =====
-- Coding with a reference line, at fixed values.
use hylafaxplus.Prelude.{ℕ, ◌-◌, ◌%◌, true, [], ◌++◌, ◌==◌, if◌then◌else◌, ◌≡◌, refl, arith}
use hylafaxplus.G3.{G3Encoder, setup_encoder, put_eol}
use hylafaxplus.G3.Stream.{bits_of, bytes_bits, Holds}
use hylafaxplus.G3.Spans.{pixel}
use hylafaxplus.G3.Table.{run}
use hylafaxplus.G3.Eol.{EolCoded}
use hylafaxplus.G3.Finddiff.{find0span, find1span}
use hylafaxplus.G3.Finddiff.Found.{find_span-run}
use hylafaxplus.G3.Rows.{encode_row}
use hylafaxplus.G3.Rows.Coded.{RowCoded, encode_row-Coded}

abbrev same_byte : ℕ → ℕ
same_byte b = b

-- G4, where no EOL is put out.
abbrev encoder : G3Encoder
encoder = setup_encoder true true []

encoder-Holds : Holds same_byte encoder []
unfolding setup_encoder bytes_bits bits_of
encoder-Holds = record {
  part = 0;
  free = (omega arith, omega arith);
  small = omega arith;
  data_byte = refl;
  bits = refl;
}

-- Bytes of which each third is black, and of which each second is white.
abbrev raster : ℕ → ℕ
raster p = if p % 3 == 1 then 255 else 15

abbrev above : ℕ → ℕ
above p = if p % 2 == 1 then 0 else 60

find_span-run_example :
    (find0span raster 1 3 24 ≡ run (pixel raster 1) 0 3 (24 - 3))
    × (find1span raster 1 3 24 ≡ run (pixel raster 1) 1 3 (24 - 3))
find_span-run_example = find_span-run raster (λ p. ground arith) 1 3 24 (omega arith)

encode_row-Coded_example :
    (eol : EolCoded 0 true true same_byte [] (put_eol same_byte 0 encoder)) × RowCoded same_byte
      (pixel raster 0)
      (pixel above 0)
      24
      0
      0
      (run (pixel above 0) 0 0 24)
      ([] ++ eol.code)
      (encode_row same_byte raster 0 above 24 encoder)
unfolding setup_encoder
encode_row-Coded_example =
    encode_row-Coded same_byte same_byte (λ b h. refl) raster (λ p. ground arith) 0 above
      (λ p. ground arith) 24 encoder [] (omega arith) encoder-Holds
