-- ===== src/G3/Codes.antt =====
-- The code tables of faxd/t4.h: 64 terminating codes and 40 make-up codes, for white and for black. The
-- entries behind them, with negative run lengths, are those that putspan does not reach.
use hylafaxplus.Prelude.{
  ℕ, zero, suc, ◌+◌, ◌*◌, ◌^◌, ◌≤◌, ◌<◌, Bool, true, ◌&&◌, ◌||◌, List, [], ◌∷◌, ltb, leb, ◌==◌, ◌≡◌,
  refl, arith,
}
use hylafaxplus.G3.Table.{all_below, all_below_sound}

-- struct tableentry
pub record TableEntry : Type 0 where
  pub length : ℕ
  pub code : ℕ
  pub runlen : ℕ

abbrev pub table_entry : ℕ → ℕ → ℕ → TableEntry
table_entry n c r = record { length = n; code = c; runlen = r }

abbrev pub nth : List TableEntry → ℕ → TableEntry
nth [] i = table_entry 0 0 0
nth (x ∷ xs) zero = x
nth (x ∷ xs) (suc i) = nth xs i

unfoldable pub white_codes : ℕ → TableEntry
white_codes i =
    nth
      (table_entry 8 0x35 0
        ∷ table_entry 6 0x7 1
        ∷ table_entry 4 0x7 2
        ∷ table_entry 4 0x8 3
        ∷ table_entry 4 0xb 4
        ∷ table_entry 4 0xc 5
        ∷ table_entry 4 0xe 6
        ∷ table_entry 4 0xf 7
        ∷ table_entry 5 0x13 8
        ∷ table_entry 5 0x14 9
        ∷ table_entry 5 0x7 10
        ∷ table_entry 5 0x8 11
        ∷ table_entry 6 0x8 12
        ∷ table_entry 6 0x3 13
        ∷ table_entry 6 0x34 14
        ∷ table_entry 6 0x35 15
        ∷ table_entry 6 0x2a 16
        ∷ table_entry 6 0x2b 17
        ∷ table_entry 7 0x27 18
        ∷ table_entry 7 0xc 19
        ∷ table_entry 7 0x8 20
        ∷ table_entry 7 0x17 21
        ∷ table_entry 7 0x3 22
        ∷ table_entry 7 0x4 23
        ∷ table_entry 7 0x28 24
        ∷ table_entry 7 0x2b 25
        ∷ table_entry 7 0x13 26
        ∷ table_entry 7 0x24 27
        ∷ table_entry 7 0x18 28
        ∷ table_entry 8 0x2 29
        ∷ table_entry 8 0x3 30
        ∷ table_entry 8 0x1a 31
        ∷ table_entry 8 0x1b 32
        ∷ table_entry 8 0x12 33
        ∷ table_entry 8 0x13 34
        ∷ table_entry 8 0x14 35
        ∷ table_entry 8 0x15 36
        ∷ table_entry 8 0x16 37
        ∷ table_entry 8 0x17 38
        ∷ table_entry 8 0x28 39
        ∷ table_entry 8 0x29 40
        ∷ table_entry 8 0x2a 41
        ∷ table_entry 8 0x2b 42
        ∷ table_entry 8 0x2c 43
        ∷ table_entry 8 0x2d 44
        ∷ table_entry 8 0x4 45
        ∷ table_entry 8 0x5 46
        ∷ table_entry 8 0xa 47
        ∷ table_entry 8 0xb 48
        ∷ table_entry 8 0x52 49
        ∷ table_entry 8 0x53 50
        ∷ table_entry 8 0x54 51
        ∷ table_entry 8 0x55 52
        ∷ table_entry 8 0x24 53
        ∷ table_entry 8 0x25 54
        ∷ table_entry 8 0x58 55
        ∷ table_entry 8 0x59 56
        ∷ table_entry 8 0x5a 57
        ∷ table_entry 8 0x5b 58
        ∷ table_entry 8 0x4a 59
        ∷ table_entry 8 0x4b 60
        ∷ table_entry 8 0x32 61
        ∷ table_entry 8 0x33 62
        ∷ table_entry 8 0x34 63
        ∷ table_entry 5 0x1b 64
        ∷ table_entry 5 0x12 128
        ∷ table_entry 6 0x17 192
        ∷ table_entry 7 0x37 256
        ∷ table_entry 8 0x36 320
        ∷ table_entry 8 0x37 384
        ∷ table_entry 8 0x64 448
        ∷ table_entry 8 0x65 512
        ∷ table_entry 8 0x68 576
        ∷ table_entry 8 0x67 640
        ∷ table_entry 9 0xcc 704
        ∷ table_entry 9 0xcd 768
        ∷ table_entry 9 0xd2 832
        ∷ table_entry 9 0xd3 896
        ∷ table_entry 9 0xd4 960
        ∷ table_entry 9 0xd5 1024
        ∷ table_entry 9 0xd6 1088
        ∷ table_entry 9 0xd7 1152
        ∷ table_entry 9 0xd8 1216
        ∷ table_entry 9 0xd9 1280
        ∷ table_entry 9 0xda 1344
        ∷ table_entry 9 0xdb 1408
        ∷ table_entry 9 0x98 1472
        ∷ table_entry 9 0x99 1536
        ∷ table_entry 9 0x9a 1600
        ∷ table_entry 6 0x18 1664
        ∷ table_entry 9 0x9b 1728
        ∷ table_entry 11 0x8 1792
        ∷ table_entry 11 0xc 1856
        ∷ table_entry 11 0xd 1920
        ∷ table_entry 12 0x12 1984
        ∷ table_entry 12 0x13 2048
        ∷ table_entry 12 0x14 2112
        ∷ table_entry 12 0x15 2176
        ∷ table_entry 12 0x16 2240
        ∷ table_entry 12 0x17 2304
        ∷ table_entry 12 0x1c 2368
        ∷ table_entry 12 0x1d 2432
        ∷ table_entry 12 0x1e 2496
        ∷ table_entry 12 0x1f 2560
        ∷ [])
      i

unfoldable pub black_codes : ℕ → TableEntry
black_codes i =
    nth
      (table_entry 10 0x37 0
        ∷ table_entry 3 0x2 1
        ∷ table_entry 2 0x3 2
        ∷ table_entry 2 0x2 3
        ∷ table_entry 3 0x3 4
        ∷ table_entry 4 0x3 5
        ∷ table_entry 4 0x2 6
        ∷ table_entry 5 0x3 7
        ∷ table_entry 6 0x5 8
        ∷ table_entry 6 0x4 9
        ∷ table_entry 7 0x4 10
        ∷ table_entry 7 0x5 11
        ∷ table_entry 7 0x7 12
        ∷ table_entry 8 0x4 13
        ∷ table_entry 8 0x7 14
        ∷ table_entry 9 0x18 15
        ∷ table_entry 10 0x17 16
        ∷ table_entry 10 0x18 17
        ∷ table_entry 10 0x8 18
        ∷ table_entry 11 0x67 19
        ∷ table_entry 11 0x68 20
        ∷ table_entry 11 0x6c 21
        ∷ table_entry 11 0x37 22
        ∷ table_entry 11 0x28 23
        ∷ table_entry 11 0x17 24
        ∷ table_entry 11 0x18 25
        ∷ table_entry 12 0xca 26
        ∷ table_entry 12 0xcb 27
        ∷ table_entry 12 0xcc 28
        ∷ table_entry 12 0xcd 29
        ∷ table_entry 12 0x68 30
        ∷ table_entry 12 0x69 31
        ∷ table_entry 12 0x6a 32
        ∷ table_entry 12 0x6b 33
        ∷ table_entry 12 0xd2 34
        ∷ table_entry 12 0xd3 35
        ∷ table_entry 12 0xd4 36
        ∷ table_entry 12 0xd5 37
        ∷ table_entry 12 0xd6 38
        ∷ table_entry 12 0xd7 39
        ∷ table_entry 12 0x6c 40
        ∷ table_entry 12 0x6d 41
        ∷ table_entry 12 0xda 42
        ∷ table_entry 12 0xdb 43
        ∷ table_entry 12 0x54 44
        ∷ table_entry 12 0x55 45
        ∷ table_entry 12 0x56 46
        ∷ table_entry 12 0x57 47
        ∷ table_entry 12 0x64 48
        ∷ table_entry 12 0x65 49
        ∷ table_entry 12 0x52 50
        ∷ table_entry 12 0x53 51
        ∷ table_entry 12 0x24 52
        ∷ table_entry 12 0x37 53
        ∷ table_entry 12 0x38 54
        ∷ table_entry 12 0x27 55
        ∷ table_entry 12 0x28 56
        ∷ table_entry 12 0x58 57
        ∷ table_entry 12 0x59 58
        ∷ table_entry 12 0x2b 59
        ∷ table_entry 12 0x2c 60
        ∷ table_entry 12 0x5a 61
        ∷ table_entry 12 0x66 62
        ∷ table_entry 12 0x67 63
        ∷ table_entry 10 0xf 64
        ∷ table_entry 12 0xc8 128
        ∷ table_entry 12 0xc9 192
        ∷ table_entry 12 0x5b 256
        ∷ table_entry 12 0x33 320
        ∷ table_entry 12 0x34 384
        ∷ table_entry 12 0x35 448
        ∷ table_entry 13 0x6c 512
        ∷ table_entry 13 0x6d 576
        ∷ table_entry 13 0x4a 640
        ∷ table_entry 13 0x4b 704
        ∷ table_entry 13 0x4c 768
        ∷ table_entry 13 0x4d 832
        ∷ table_entry 13 0x72 896
        ∷ table_entry 13 0x73 960
        ∷ table_entry 13 0x74 1024
        ∷ table_entry 13 0x75 1088
        ∷ table_entry 13 0x76 1152
        ∷ table_entry 13 0x77 1216
        ∷ table_entry 13 0x52 1280
        ∷ table_entry 13 0x53 1344
        ∷ table_entry 13 0x54 1408
        ∷ table_entry 13 0x55 1472
        ∷ table_entry 13 0x5a 1536
        ∷ table_entry 13 0x5b 1600
        ∷ table_entry 13 0x64 1664
        ∷ table_entry 13 0x65 1728
        ∷ table_entry 11 0x8 1792
        ∷ table_entry 11 0xc 1856
        ∷ table_entry 11 0xd 1920
        ∷ table_entry 12 0x12 1984
        ∷ table_entry 12 0x13 2048
        ∷ table_entry 12 0x14 2112
        ∷ table_entry 12 0x15 2176
        ∷ table_entry 12 0x16 2240
        ∷ table_entry 12 0x17 2304
        ∷ table_entry 12 0x1c 2368
        ∷ table_entry 12 0x1d 2432
        ∷ table_entry 12 0x1e 2496
        ∷ table_entry 12 0x1f 2560
        ∷ [])
      i

-- What putspan needs of a table: the make-up codes follow the 64 terminating ones, and no code has more
-- than 16 bits or a one beyond its last nine.
pub record IsCodeTable (tab : ℕ → TableEntry) : Type 0 where
  pub runlen : (k : ℕ) → 1 ≤ k → k ≤ 40 → (tab (63 + k)).runlen ≡ 64 * k
  pub short : (i : ℕ) → i ≤ 103 → (tab i).length ≤ 16
  pub fits : (i : ℕ) → i ≤ 103 → (tab i).code < 2 ^ (tab i).length
  pub low : (i : ℕ) → i ≤ 103 → (tab i).code < 512

abbrev is_code : TableEntry → Bool
is_code te = leb te.length 16 && ltb te.code (2 ^ te.length) && ltb te.code 512

-- A table is one if its entries pass a test each.
checked-IsCodeTable :
    (tab : ℕ → TableEntry)
    → all_below 104 (λ i. is_code (tab i)) ≡ true
    → all_below 41 (λ k. k == 0 || (tab (63 + k)).runlen == 64 * k) ≡ true
    → IsCodeTable tab
checked-IsCodeTable tab codes runs = record {
  runlen = λ k lo hi. ground (
    arith,
    lo,
    all_below_sound 41 (λ k. k == 0 || (tab (63 + k)).runlen == 64 * k) k runs (omega (arith, hi)),
  );
  short =
      λ i h. ground (arith, all_below_sound 104 (λ i. is_code (tab i)) i codes (omega (arith, h)));
  fits =
      λ i h. ground (arith, all_below_sound 104 (λ i. is_code (tab i)) i codes (omega (arith, h)));
  low =
      λ i h. ground (arith, all_below_sound 104 (λ i. is_code (tab i)) i codes (omega (arith, h)));
}

pub white_codes-IsCodeTable : IsCodeTable white_codes
unfolding white_codes all_below
white_codes-IsCodeTable = checked-IsCodeTable white_codes refl refl

pub black_codes-IsCodeTable : IsCodeTable black_codes
unfolding black_codes all_below
black_codes-IsCodeTable = checked-IsCodeTable black_codes refl refl
