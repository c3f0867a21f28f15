-- ===== src/G3/Finddiff.antt =====
-- The search for a run by bytes and long words (G3Encoder::find0span and find1span of
-- faxd/G3Encoder.c++, which differ in the colour only; a long has eight bytes). The fuel of each loop is
-- the number of bits that are left, or more.
pub mod Found
use hylafaxplus.Prelude.{
  ℕ, zero, suc, ◌+◌, ◌-◌, ◌/◌, ◌%◌, Bool, true, ◌&&◌, not, ltb, leb, ◌==◌, if◌then◌else◌,
}
use hylafaxplus.G3.Table.{zeroruns, oneruns}
use hylafaxplus.G3.{part_span}

-- The search goes on at byte p with so many bits left, or has found the span.
pub data Search : Type 0 where
  found : ℕ → Search
  searching : ℕ → ℕ → ℕ → Search

module _ (full : ℕ) (tab : ℕ → ℕ) (bytes : ℕ → ℕ) where
  -- A byte of the loops: the end of the run, or the next byte.
  unfoldable pub byte_step : (ℕ → ℕ → ℕ → Search) → ℕ → ℕ → ℕ → Search
  byte_step next p span bits =
      let rest = next (suc p) (span + 8) (bits - 8) in
      if bytes p == full then rest else found (span + tab (bytes p))

  -- while (!isAligned(bp, long))
  unfoldable pub to_aligned : ℕ → ℕ → ℕ → ℕ → Search
  to_aligned zero p span bits = searching p span bits
  to_aligned (suc fuel) p span bits =
      let rest = byte_step (to_aligned fuel) p span bits in
      if p % 8 == 0 then searching p span bits else rest

  unfoldable pub is_full_word : ℕ → ℕ → Bool
  is_full_word zero p = true
  is_full_word (suc k) p = bytes p == full && is_full_word k (suc p)

  -- while (bits >= 8*sizeof (long) && *lp == 0)
  unfoldable pub words : ℕ → ℕ → ℕ → ℕ → Search
  words zero p span bits = searching p span bits
  words (suc fuel) p span bits =
      let rest = words fuel (p + 8) (span + 64) (bits - 64) in
      if leb 64 bits && is_full_word 8 p then rest else searching p span bits

  -- while (bits >= 8), and the partial byte on the right.
  unfoldable pub full_bytes : ℕ → ℕ → ℕ → ℕ → Search
  full_bytes zero p span bits = searching p span bits
  full_bytes (suc fuel) p span bits =
      let rest = byte_step (full_bytes fuel) p span bits in
      let n = tab (bytes p) in
      if leb 8 bits
      then rest
      else if ltb 0 bits
      then found (span + (if ltb bits n then bits else n))
      else found span

  unfoldable pub and_then : (ℕ → ℕ → ℕ → Search) → Search → Search
  and_then f (found n) = found n
  and_then f (searching p span bits) = f p span bits

  unfoldable pub long_part : ℕ → ℕ → ℕ → Search
  long_part p span bits =
      if leb 128 bits
      then and_then (λ p span bits. words bits p span bits) (to_aligned 8 p span bits)
      else searching p span bits

  -- Behind the partial byte on the left.
  unfoldable pub find_rest : ℕ → ℕ → ℕ → Search
  find_rest p span bits =
      and_then (λ p span bits. full_bytes (suc bits) p span bits) (long_part p span bits)

  -- For bs > be, bits is negative: as a uint32_t it is a large number, so that the long words are
  -- scanned; the bytes behind them, which are compared with a signed bits, are not. (The subtractions
  -- are taken not to overflow the int32_t.)
  unfoldable pub find_past : ℕ → ℕ → Search
  find_past p bits = and_then (λ p span bits. found span) (long_part p 0 bits)

  -- For bs <= be.
  unfoldable pub find_within : ℕ → ℕ → ℕ → Search
  find_within bp bs be =
      let p = bp + bs / 8 in
      let bits = be - bs in
      let n = bs % 8 in
      let span = part_span bytes tab p n bits in
      if ltb 0 bits && not (n == 0)
      then (if ltb (n + span) 8 then found span else find_rest (suc p) span (bits - span))
      else find_rest p 0 bits

  unfoldable pub find_colour : ℕ → ℕ → ℕ → Search
  find_colour bp bs be =
      if ltb be bs then find_past (bp + bs / 8) (be + 4294967296 - bs) else find_within bp bs be

-- What is returned. A search that did not end would have no result; the fuel is enough for each.
unfoldable pub result : Search → ℕ
result (found n) = n
result (searching p span bits) = span

unfoldable pub find0span : (ℕ → ℕ) → ℕ → ℕ → ℕ → ℕ
find0span bytes bp bs be = result (find_colour 0 zeroruns bytes bp bs be)

unfoldable pub find1span : (ℕ → ℕ) → ℕ → ℕ → ℕ → ℕ
find1span bytes bp bs be = result (find_colour 255 oneruns bytes bp bs be)
