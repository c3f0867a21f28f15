-- ===== src/G3.antt =====
-- One-dimensional coding of a raster (faxd/G3Encoder.c++, faxd/G3Encoder.h): the bit stream, the codes
-- of runs, the search for runs in a row, and the lines of MH coding. The bit reversal
-- table of libtiff is a parameter.
pub mod Table
pub mod Codes
pub mod Words
pub mod Stream
pub mod Runs
pub mod Spans
pub mod Finddiff
pub mod Lines
pub mod Rows
pub mod Eol
pub mod Encoded
mod Tests
use Prim.Native.Nat.{bit_or, bit_and}
use hylafaxplus.G3.Codes.{TableEntry, white_codes, black_codes}
use hylafaxplus.G3.Table.{zeroruns, oneruns}
use hylafaxplus.Prelude.{
  ℕ, zero, suc, ◌+◌, ◌-◌, ◌*◌, ◌/◌, ◌%◌, ◌^◌, Bool, true, false, ◌&&◌, not, List, [], ◌∷◌, ◌++◌,
  ltb, leb, ◌==◌, if◌then◌else◌, ◌▷◌,
}

-- class G3Encoder. `out` is what was put into the buffer.
pub record G3Encoder : Type 0 where
  pub is2d : Bool
  pub isg4 : Bool
  pub first_eol : Bool
  pub data_byte : ℕ
  pub bit : ℕ
  pub out : List ℕ

-- G3Encoder::setupEncoder
unfoldable pub setup_encoder : Bool → Bool → List ℕ → G3Encoder
setup_encoder is2d isg4 out = record {
  is2d = is2d;
  isg4 = isg4;
  first_eol = true;
  data_byte = 0;
  bit = 8;
  out = out;
}

module _ (bitmap : ℕ → ℕ) where
  -- G3Encoder::flushBits
  unfoldable pub flush_bits : G3Encoder → G3Encoder
  flush_bits s = record s { out = s.out ++ bitmap s.data_byte ∷ []; data_byte = 0; bit = 8 }

  -- The end of putBits. mask[n] is 2 ^ n - 1.
  unfoldable pub put_rest : ℕ → ℕ → G3Encoder → G3Encoder
  put_rest bits n s =
      let s' = record s {
        data_byte = bit_or s.data_byte (bit_and bits (2 ^ n - 1) * 2 ^ (s.bit - n));
        bit = s.bit - n;
      } in
      if s'.bit == 0 then flush_bits s' else s'

  unfoldable pub put_high : ℕ → ℕ → G3Encoder → G3Encoder
  put_high bits n s =
      flush_bits (record s { data_byte = bit_or s.data_byte (bits / 2 ^ (n - s.bit)) })

  -- The loop of putBits, with a round of fuel for each byte.
  unfoldable pub put_loop : ℕ → ℕ → ℕ → G3Encoder → G3Encoder
  put_loop zero bits n s = s
  put_loop (suc fuel) bits n s =
      let rest = put_loop fuel bits (n - s.bit) (put_high bits n s) in
      if ltb s.bit n then rest else put_rest bits n s

  -- G3Encoder::putBits
  unfoldable pub put_bits : ℕ → ℕ → G3Encoder → G3Encoder
  put_bits bits n s = put_loop (suc n) bits n s

  -- G3Encoder::putcode
  unfoldable pub putcode : TableEntry → G3Encoder → G3Encoder
  putcode te s = put_bits te.code te.length s

  -- The end of putspan, for less than 2624.
  unfoldable pub put_short_span : (ℕ → TableEntry) → ℕ → G3Encoder → G3Encoder
  put_short_span tab span s =
      let te = tab (63 + span / 64) in
      if leb 64 span
      then s ▷ putcode te ▷ putcode (tab (span - te.runlen))
      else putcode (tab span) s

  -- G3Encoder::putspan
  unfoldable pub put_span_loop : ℕ → (ℕ → TableEntry) → ℕ → G3Encoder → G3Encoder
  put_span_loop zero tab span s = s
  put_span_loop (suc fuel) tab span s =
      let te = tab 103 in
      let rest = put_span_loop fuel tab (span - te.runlen) (putcode te s) in
      if leb 2624 span then rest else put_short_span tab span s

  unfoldable pub putspan : (ℕ → TableEntry) → ℕ → G3Encoder → G3Encoder
  putspan tab span s = put_span_loop (suc span) tab span s

  -- if (bit != 4) putBits(0, (bit < 4) ? bit+4 : bit-4), but for the first EOL.
  unfoldable pub align : G3Encoder → G3Encoder
  align s =
      if s.first_eol
      then record s { first_eol = false }
      else if s.bit == 4
      then s
      else put_bits 0 (if ltb s.bit 4 then s.bit + 4 else s.bit - 4) s

  -- The EOL in front of a line. The tag bit is 1 if the line has no reference line, else 0.
  unfoldable pub put_eol : ℕ → G3Encoder → G3Encoder
  put_eol tag s =
      if s.isg4
      then s
      else if s.is2d
      then s ▷ align ▷ put_bits (1 * 2 + tag) 13
      else s ▷ align ▷ put_bits 1 12

-- The search for runs in a row: `tab` is zeroruns or oneruns, `bytes` what bp points into.
module _ (bytes : ℕ → ℕ) where
  unfoldable pub part_span : (ℕ → ℕ) → ℕ → ℕ → ℕ → ℕ
  part_span tab p n bits =
      let span = tab (bytes p * 2 ^ n % 256) in
      let span' = if ltb (8 - n) span then 8 - n else span in if ltb bits span' then bits else span'

  -- Full bytes, then the partial byte on the right.
  unfoldable pub scan : ℕ → (ℕ → ℕ) → ℕ → ℕ → ℕ → ℕ × ℕ
  scan zero tab p span bits = (span, p)
  scan (suc fuel) tab p span bits =
      let n = tab (bytes p) in
      let rest = scan fuel tab (suc p) (span + n) (bits - n) in
      if leb 8 bits
      then (if ltb n 8 then (span + n, p) else rest)
      else if ltb 0 bits
      then (span + (if ltb bits n then bits else n), p)
      else (span, p)

  -- G3Encoder::findspan: the span, and the pointer afterwards.
  unfoldable pub findspan : (ℕ → ℕ) → ℕ → ℕ → ℕ → ℕ × ℕ
  findspan tab p bs be =
      let bits = be - bs in
      let n = bs % 8 in
      let span = part_span tab p n bits in
      if ltb 0 bits && not (n == 0)
      then (if ltb (n + span) 8 then (span, p) else scan bits tab (suc p) span (bits - span))
      else scan bits tab p 0 bits

-- The loop of encode over the spans of a line.
unfoldable pub line_loop : ℕ → (ℕ → ℕ) → (ℕ → ℕ) → ℕ → ℕ → ℕ → G3Encoder → G3Encoder × ℕ
line_loop zero bitmap bytes w p bs s = (s, p)
line_loop (suc fuel) bitmap bytes w p bs s =
    let white_span = findspan bytes zeroruns p bs w in
    let bs1 = bs + white_span.0 in
    let s1 = putspan bitmap white_codes white_span.0 s in
    let black_span = findspan bytes oneruns white_span.1 bs1 w in
    let bs2 = bs1 + black_span.0 in
    let s2 = putspan bitmap black_codes black_span.0 s1 in
    let rest = line_loop fuel bitmap bytes w black_span.1 bs2 s2 in
    if leb w bs1 then (s1, white_span.1) else if leb w bs2 then (s2, black_span.1) else rest

-- G3Encoder::encode for one line and no reference line; the pointer is that into the raster.
unfoldable pub encode_line : (ℕ → ℕ) → (ℕ → ℕ) → ℕ → ℕ → G3Encoder → G3Encoder × ℕ
encode_line bitmap raster w p s = line_loop (suc w) bitmap raster w p 0 (put_eol bitmap 1 s)

-- The lines of a raster.
unfoldable pub encode : ℕ → (ℕ → ℕ) → (ℕ → ℕ) → ℕ → ℕ → G3Encoder → G3Encoder × ℕ
encode zero bitmap raster w p s = (s, p)
encode (suc h) bitmap raster w p s =
    let line = encode_line bitmap raster w p s in encode h bitmap raster w line.1 line.0

-- G3Encoder::encoderCleanup
unfoldable pub encoder_cleanup : (ℕ → ℕ) → G3Encoder → G3Encoder
encoder_cleanup bitmap s =
    let s' = if s.isg4 then s ▷ put_bits bitmap 1 12 ▷ put_bits bitmap 1 12 else s in
    if s'.bit == 8 then s' else flush_bits bitmap s'
