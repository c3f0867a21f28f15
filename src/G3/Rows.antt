-- ===== src/G3/Rows.antt =====
-- Lines that are coded against a reference line: MR and MMR (the branch of G3Encoder::encode with a
-- reference line, in faxd/G3Encoder.c++). Each round of the loop goes on in the line, but for a first
-- one that codes a change at the line's start, so that the width and one more is fuel enough.
pub mod Grammar
pub mod Pixels
pub mod Steps
pub mod Coded
mod Tests
use hylafaxplus.Prelude.{
  ℕ, zero, suc, ◌+◌, ◌-◌, ◌/◌, ◌%◌, Bool, ◌&&◌, ◌||◌, List, [], ◌∷◌, ltb, leb, ◌==◌, if◌then◌else◌,
  ◌▷◌,
}
use hylafaxplus.G3.Codes.{TableEntry, table_entry, nth, white_codes, black_codes}
use hylafaxplus.G3.{G3Encoder, putcode, putspan, put_eol}
use hylafaxplus.G3.Spans.{pixel}
use hylafaxplus.G3.Finddiff.{find0span, find1span}

abbrev pub horizcode : TableEntry
horizcode = table_entry 3 0x1 0

abbrev pub passcode : TableEntry
passcode = table_entry 4 0x1 0

unfoldable pub vcodes : ℕ → TableEntry
vcodes i =
    nth
      (table_entry 7 0x3 0
        ∷ table_entry 6 0x3 0
        ∷ table_entry 3 0x3 0
        ∷ table_entry 1 0x1 0
        ∷ table_entry 3 0x2 0
        ∷ table_entry 6 0x2 0
        ∷ table_entry 7 0x2 0
        ∷ [])
      i

-- The macros finddiff and finddiff2, on the row at byte cp.
unfoldable pub finddiff : (ℕ → ℕ) → ℕ → ℕ → ℕ → ℕ → ℕ
finddiff bytes cp bs be colour =
    bs + (if colour == 0 then find0span bytes cp bs be else find1span bytes cp bs be)

unfoldable pub finddiff2 : (ℕ → ℕ) → ℕ → ℕ → ℕ → ℕ
finddiff2 bytes cp bs be = if ltb bs be then finddiff bytes cp bs be (pixel bytes cp bs) else be

-- The place of the first change: 0 if the first pixel is black.
unfoldable pub first_change : (ℕ → ℕ) → ℕ → ℕ → ℕ
first_change bytes cp w = if pixel bytes cp 0 == 0 then finddiff bytes cp 0 w 0 else 0

module _ (bitmap : ℕ → ℕ) (bytes : ℕ → ℕ) (bp : ℕ) (ref : ℕ → ℕ) (w : ℕ) where
  unfoldable pub put_horizontal : ℕ → ℕ → ℕ → G3Encoder → G3Encoder
  put_horizontal a0 a1 a2 s =
      let s' = putcode bitmap horizcode s in
      if a0 + a1 == 0 || pixel bytes bp a0 == 0
      then s' ▷ putspan bitmap white_codes (a1 - a0) ▷ putspan bitmap black_codes (a2 - a1)
      else s' ▷ putspan bitmap black_codes (a1 - a0) ▷ putspan bitmap white_codes (a2 - a1)

  -- The code of one mode, and the next a0.
  unfoldable pub put_mode : ℕ → ℕ → ℕ → G3Encoder → ℕ × G3Encoder
  put_mode a0 a1 b1 s =
      let a2 = finddiff2 bytes bp a1 w in
      let b2 = finddiff2 ref 0 b1 w in
      if leb a1 b2
      then (if leb a1 (b1 + 3) && leb b1 (a1 + 3)
          then (a1, putcode bitmap (vcodes (b1 + 3 - a1)) s)
          else (a2, put_horizontal a0 a1 a2 s))
      else (b2, putcode bitmap passcode s)

  unfoldable pub row_loop : ℕ → ℕ → ℕ → ℕ → G3Encoder → G3Encoder
  row_loop zero a0 a1 b1 s = s
  row_loop (suc fuel) a0 a1 b1 s =
      let r = put_mode a0 a1 b1 s in
      let colour = pixel bytes bp r.0 in
      let b = finddiff ref 0 r.0 w (1 - colour) in
      let rest =
        row_loop fuel r.0 (finddiff bytes bp r.0 w colour) (finddiff ref 0 b w colour) r.1 in
      if leb w r.0 then r.1 else rest

  -- A line, with its EOL.
  unfoldable pub encode_row : G3Encoder → G3Encoder
  encode_row s =
      row_loop (w + 2) 0 (first_change bytes bp w) (first_change ref 0 w) (put_eol bitmap 0 s)

-- memcpy(rp, bp, rowbytes)
unfoldable pub copy_row : (ℕ → ℕ) → ℕ → ℕ → (ℕ → ℕ) → ℕ → ℕ
copy_row bytes bp n ref i = if ltb i n then bytes (bp + i) else ref i

-- The lines of a raster, h of them.
unfoldable pub encode_rows : (ℕ → ℕ) → (ℕ → ℕ) → ℕ → ℕ → ℕ → (ℕ → ℕ) → G3Encoder → G3Encoder
encode_rows bitmap bytes w zero bp ref s = s
encode_rows bitmap bytes w (suc h) bp ref s =
    let rowbytes = (w + 7) / 8 in
    encode_rows bitmap bytes w h (bp + rowbytes) (copy_row bytes bp rowbytes ref)
      (encode_row bitmap bytes bp ref w s)
