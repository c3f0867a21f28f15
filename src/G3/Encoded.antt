-- ===== src/G3/Encoded.antt =====
-- A whole line of one-dimensional coding (G3Encoder::encode of faxd/G3Encoder.c++).
use mathlib.Core.Path.{subst}
use hylafaxplus.Prelude.{ℕ, suc, ◌+◌, ◌/◌, ◌<◌, List, ◌++◌, ◌≡◌, arith}
use hylafaxplus.G3.{G3Encoder, put_eol, line_loop, encode_line}
use hylafaxplus.G3.Stream.{Holds}
use hylafaxplus.G3.Spans.{pixel}
use hylafaxplus.G3.Eol.{EolCoded, put_eol-Coded}
use hylafaxplus.G3.Lines.{LineCoded, line_loop-Coded}

-- For a buffer map that can be undone on bytes, and a raster of bytes: when the encoder has put out some bits, then after
-- a line of any width, coded in one dimension, it has put out these, the EOL that the mode asks for, and the code of
-- the line's pixels as runs of white and black by turns; the pointer has gone on by the width's whole
-- bytes.
pub encode_line-Coded :
    (bitmap unmap : ℕ → ℕ)
    → ((b : ℕ) → b < 256 → unmap (bitmap b) ≡ b)
    → (raster : ℕ → ℕ) → ((p : ℕ) → raster p < 256)
    → (w base : ℕ) (s : G3Encoder) (xs : List ℕ) → Holds unmap s xs
    → (eol : EolCoded 1 s.isg4 s.is2d unmap xs (put_eol bitmap 1 s)) × LineCoded unmap
        (pixel raster base)
        base
        w
        0
        0
        (xs ++ eol.code)
        (encode_line bitmap raster w base s)
unfolding encode_line
encode_line-Coded bitmap unmap inverse raster small w base s xs h =
    let eol = put_eol-Coded bitmap unmap inverse 1 s xs (omega arith) h in
    let at : base + 0 / 8 ≡ base = omega arith in
    (
      eol,
      subst
          (λ p.
            LineCoded unmap (pixel raster base) base w 0 0 (xs ++ eol.code)
              (line_loop (suc w) bitmap raster w p 0 (put_eol bitmap 1 s)))
          at
          (line_loop-Coded bitmap unmap inverse raster small (suc w) base w 0 _ _ (omega arith)
            (omega arith) eol.holds),
    )
