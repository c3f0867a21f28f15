-- ===== src/G3/Rows/Grammar.antt =====
-- The grammar of two-dimensional coding in T.4 and T.6, as a decoder reads it: the reference line, the
-- place a0 and its colour say what the next code means.
use hylafaxplus.Prelude.{
  ℕ, zero, suc, ◌+◌, ◌-◌, ◌≤◌, ◌<◌, List, [], ◌∷◌, ◌++◌, ltb, if◌then◌else◌, ◌≡◌, ap, ◌∙◌, arith,
}
use hylafaxplus.G3.Codes.{TableEntry, white_codes, black_codes}
use hylafaxplus.G3.Table.{run}
use hylafaxplus.G3.Runs.{code_bits, RunCode}
use hylafaxplus.G3.Lines.{values, times}
use hylafaxplus.G3.Rows.{horizcode, passcode, vcodes}

abbrev pub codes_of : ℕ → ℕ → TableEntry
codes_of zero = white_codes
codes_of (suc c) = black_codes

-- The first change on the reference line that is right of a0 and away from the colour c of a0.
unfoldable pub change_after : (ℕ → ℕ) → ℕ → ℕ → ℕ → ℕ
change_after ref w c a0 = let b = a0 + run ref (1 - c) a0 (w - a0) in b + run ref c b (w - b)

-- The change behind b1.
unfoldable pub next_change : (ℕ → ℕ) → ℕ → ℕ → ℕ
next_change ref w b1 = if ltb b1 w then b1 + run ref (ref b1) b1 (w - b1) else w

-- The codes of a line from a0 on: `RowCode ref w c a0 b1 ps bits` says that the bits give the pixels
-- ps, where c is the colour at a0 and b1 the change on the reference line that the next code refers to.
pub data RowCode (ref : ℕ → ℕ) (w : ℕ) : ℕ → ℕ → ℕ → List ℕ → List ℕ → Type 0 where
  row_end : (c a0 b1 : ℕ) → w ≤ a0 → RowCode ref w c a0 b1 [] []
  pass :
      (c a0 b1 b2 : ℕ) (ps bits : List ℕ)
      → b2 ≡ next_change ref w b1
      → RowCode ref w c b2 (change_after ref w c b2) ps bits
      → RowCode ref w c a0 b1 (times (b2 - a0) c ++ ps) (code_bits passcode ++ bits)
  vertical :
      (c a0 a1 b1 k : ℕ) (ps bits : List ℕ)
      → k ≤ 6
      → a1 + k ≡ b1 + 3
      → RowCode ref w (1 - c) a1 (change_after ref w (1 - c) a1) ps bits
      → RowCode ref w c a0 b1 (times (a1 - a0) c ++ ps) (code_bits (vcodes k) ++ bits)
  horizontal :
      (c a0 b1 n m a2 : ℕ) (xs ys ps bits : List ℕ)
      → RunCode (codes_of c) n xs
      → RunCode (codes_of (1 - c)) m ys
      → a2 ≡ a0 + n + m
      → RowCode ref w c a2 (change_after ref w c a2) ps bits
      → RowCode ref w c a0 b1
          (times n c ++ (times m (1 - c) ++ ps))
          (code_bits horizcode ++ (xs ++ (ys ++ bits)))

-- The pixels are a part of their first run, and what is behind it.
pub values-skip :
    (f : ℕ → ℕ) (c i k n j m : ℕ)
    → k ≤ run f c i n
    → j ≡ i + k
    → n ≡ k + m
    → values f i n ≡ times k c ++ values f j m
unfolding run
values-skip f c i zero n j m h e d =
    let at : i ≡ j = omega (arith, e) in
    let same : n ≡ m = omega (arith, d) in ap (λ x. values f x n) at ∙ ap (values f j) same
values-skip f c i (suc k) zero j m h e d = absurd (omega (arith, d))
values-skip f c i (suc k) (suc n) j m h e d =
    let at : f i ≡ c = ground (arith, h) in
    let rest =
      values-skip f c (suc i) k n j m (ground (arith, h)) (omega (arith, e)) (omega (arith, d)) in
    ap (λ x. x ∷ values f (suc i) n) at ∙ ap (λ l. c ∷ l) rest

pub run-inside : (f : ℕ → ℕ) (c i k n j : ℕ) → k < run f c i n → j ≡ i + k → f j ≡ c
unfolding run
run-inside f c i k zero j h e = absurd (omega (arith, h))
run-inside f c i zero (suc n) j h e =
    let at : j ≡ i = omega (arith, e) in ap f at ∙ ground (arith, h)
run-inside f c i (suc k) (suc n) j h e =
    run-inside f c (suc i) k n j (ground (arith, h)) (omega (arith, e))
