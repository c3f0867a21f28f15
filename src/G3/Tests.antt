-- ===== src/G3/Tests.antt =====
-- Coding at fixed values. The buffer map keeps bytes.
use hylafaxplus.Prelude.{
  ℕ, ◌+◌, ◌-◌, ◌/◌, ◌%◌, false, [], ◌++◌, ◌==◌, if◌then◌else◌, ◌≡◌, refl, arith,
}
use hylafaxplus.G3.{G3Encoder, setup_encoder, put_bits, putspan, findspan, put_eol, encode_line}
use hylafaxplus.G3.Codes.{black_codes, black_codes-IsCodeTable}
use hylafaxplus.G3.Stream.{bits_of, bytes_bits, Holds, put_bits-Holds}
use hylafaxplus.G3.Runs.{Coded, putspan-Coded}
use hylafaxplus.G3.Spans.{pixel, findspan-run}
use hylafaxplus.G3.Table.{run, zeroruns, zeroruns-IsRunTable}
use hylafaxplus.G3.Lines.{LineCoded}
use hylafaxplus.G3.Eol.{EolCoded}
use hylafaxplus.G3.Encoded.{encode_line-Coded}

abbrev same_byte : ℕ → ℕ
same_byte b = b

abbrev encoder : G3Encoder
encoder = setup_encoder false false []

encoder-Holds : Holds same_byte encoder []
unfolding setup_encoder bytes_bits bits_of
encoder-Holds = record {
  part = 0;
  free = (omega arith, omega arith);
  small = omega arith;
  data_byte = refl;
  bits = refl;
}

put_bits-Holds_example : Holds same_byte (put_bits same_byte 1 12 encoder) ([] ++ bits_of 12 1)
put_bits-Holds_example =
    put_bits-Holds same_byte same_byte (λ b h. refl) 1 12 encoder [] (omega arith) (omega arith)
      (omega arith) encoder-Holds

putspan-Coded_example :
    Coded same_byte black_codes 5300 [] (putspan same_byte black_codes 5300 encoder)
putspan-Coded_example =
    putspan-Coded same_byte same_byte (λ b h. refl) black_codes black_codes-IsCodeTable 5300 encoder
      [] encoder-Holds

-- Bytes of which each third is black.
abbrev raster : ℕ → ℕ
raster p = if p % 3 == 1 then 255 else 15

findspan-run_example :
    findspan raster zeroruns (2 + 3 / 8) 3 24
    ≡ (run (pixel raster 2) 0 3 (24 - 3), 2 + (3 + run (pixel raster 2) 0 3 (24 - 3)) / 8)
findspan-run_example = findspan-run raster (λ p. ground arith) 0 zeroruns zeroruns-IsRunTable 2 3 24

encode_line-Coded_example :
    (eol : EolCoded 1 false false same_byte [] (put_eol same_byte 1 encoder)) × LineCoded same_byte
      (pixel raster 0)
      0
      24
      0
      0
      ([] ++ eol.code)
      (encode_line same_byte raster 24 0 encoder)
unfolding setup_encoder
encode_line-Coded_example =
    encode_line-Coded same_byte same_byte (λ b h. refl) raster (λ p. ground arith) 24 0 encoder []
      encoder-Holds
