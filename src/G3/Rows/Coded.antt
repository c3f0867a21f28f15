-- ===== src/G3/Rows/Coded.antt =====
-- What the loop of a line with a reference line puts out (G3Encoder::encode of faxd/G3Encoder.c++),
-- against the grammar of T.4 and T.6.
use mathlib.Core.Path.{subst}
use mathlib.Core.List.{append-nil, append_assoc}
use hylafaxplus.Prelude.{
  ℕ, zero, suc, ◌+◌, ◌-◌, ◌≤◌, ◌<◌, ◌&&◌, List, [], ◌++◌, leb, ◌==◌, if◌then◌else◌, ◌≡◌, sym, ap,
  ◌∙◌, arith, Bool-cases, inl, inr,
}
use hylafaxplus.G3.{G3Encoder, put_eol}
use hylafaxplus.G3.Table.{run}
use hylafaxplus.G3.Stream.{Holds}
use hylafaxplus.G3.Eol.{EolCoded, put_eol-Coded}
use hylafaxplus.G3.Spans.{pixel, run-le}
use hylafaxplus.G3.Lines.{values, run-starts}
use hylafaxplus.G3.Rows.{finddiff, finddiff2, first_change, put_mode, row_loop, encode_row}
use hylafaxplus.G3.Rows.Grammar.{change_after, RowCode, row_end}
use hylafaxplus.G3.Rows.Pixels.{finddiff-run, finddiff2-next, first_change-run, run-none}
use hylafaxplus.G3.Rows.Steps.{At, Stepped, pass-Stepped, vertical-Stepped, horizontal-Stepped}

-- The codes of a line from a0 on have been put out behind the bits xs.
pub record RowCoded (unmap px rx : ℕ → ℕ) (w c a0 b1 : ℕ) (xs : List ℕ) (s : G3Encoder)
    : Type 0 where
  pub code : List ℕ
  pub holds : Holds unmap s (xs ++ code)
  pub row : RowCode rx w c a0 b1 (values px a0 (w - a0)) code

module _ (bitmap unmap : ℕ → ℕ) (inverse : (b : ℕ) → b < 256 → unmap (bitmap b) ≡ b) (bytes : ℕ → ℕ)
    (small : (p : ℕ) → bytes p < 256) (bp : ℕ) (ref : ℕ → ℕ) (small_ref : (p : ℕ) → ref p < 256)
    (w : ℕ) where
  abbrev IsAt : ℕ → ℕ → ℕ → Type 0
  IsAt = At bitmap unmap inverse bytes small bp ref small_ref w

  abbrev IsStepped : ℕ → ℕ → ℕ → ℕ → List ℕ → ℕ × G3Encoder → Type 0
  IsStepped = Stepped bitmap unmap inverse bytes small bp ref small_ref w

  -- A mode's code stands for the pixels up to the next a0.
  put_mode-Stepped :
      (c a0 a1 b1 : ℕ) (s : G3Encoder) (xs : List ℕ)
      → IsAt c a0 a1
      → a0 ≤ b1
      → Holds unmap s xs
      → IsStepped c a0 a1 b1 xs (put_mode bitmap bytes bp ref w a0 a1 b1 s)
  unfolding put_mode
  put_mode-Stepped c a0 a1 b1 s xs at after h =
      let a2 = finddiff2 bytes bp a1 w in
      let b2 = finddiff2 ref 0 b1 w in
      elim (Bool-cases (leb a1 b2)) [
        | inl before ↦ elim (Bool-cases (leb a1 (b1 + 3) && leb b1 (a1 + 3))) [
          | inl near ↦
              rw (before, near)
                (vertical-Stepped bitmap unmap inverse bytes small bp ref small_ref w c a0 a1 b1
                  (b1 + 3 - a1) s xs at (ground (arith, near)) (ground (arith, near)) h)
          | inr far ↦
              rw (before, far)
                (horizontal-Stepped bitmap unmap inverse bytes small bp ref small_ref w c a0 a1 b1
                  a2 s xs at (finddiff2-next bytes small bp a1 w) h)
        ]
        | inr behind ↦ rw behind (
            pass-Stepped bitmap unmap inverse bytes small bp ref small_ref w c a0 a1 b1 b2 s xs at
              after (finddiff2-next ref small_ref 0 b1 w) (ground (arith, behind)) h)
      ]

  abbrev IsRowCoded : ℕ → ℕ → ℕ → List ℕ → G3Encoder → Type 0
  IsRowCoded = RowCoded unmap (pixel bytes bp) (pixel ref 0) w

  next-At :
      (c a0 : ℕ) → c ≤ 1 → a0 < w → pixel bytes bp a0 ≡ c → IsAt c a0 (finddiff bytes bp a0 w c)
  next-At c a0 low less seen =
      let place = finddiff-run bytes small bp a0 w c low (omega (arith, less)) in
      let on = run-starts (pixel bytes bp) c a0 (w - a0) seen (omega (arith, less)) in
      record {
        colour = low;
        inside = less;
        change = place;
        sees = ground (arith, place, on, seen, low);
      }

  next-change_after :
      (c a0 : ℕ)
      → c ≤ 1
      → a0 < w
      → finddiff ref 0 (finddiff ref 0 a0 w (1 - c)) w c ≡ change_after (pixel ref 0) w c a0
  unfolding change_after
  next-change_after c a0 low less =
      let within = run-le (pixel ref 0) (1 - c) a0 (w - a0) in
      ap (λ b. finddiff ref 0 b w c)
        (finddiff-run ref small_ref 0 a0 w (1 - c) (omega arith) (omega (arith, less)))
      ∙ finddiff-run ref small_ref 0 _ w c low (omega (arith, less, within))

  change_after-le : (c a0 : ℕ) → a0 ≤ change_after (pixel ref 0) w c a0
  unfolding change_after
  change_after-le c a0 = omega arith

  row-done :
      (c a0 a1 b1 : ℕ) (xs : List ℕ) (r : ℕ × G3Encoder)
      → IsStepped c a0 a1 b1 xs r
      → w ≤ r.0
      → IsRowCoded c a0 b1 xs r.1
  unfolding values
  row-done c a0 a1 b1 xs r step over =
      let none : w - r.0 ≡ 0 = omega (arith, over) in
      record {
        code = step.code;
        holds = step.holds;
        row = subst (RowCode (pixel ref 0) w c a0 b1 _) (append-nil step.code) (
            step.line [] (
              subst
                (λ n.
                  RowCode (pixel ref 0) w step.next r.0 (change_after (pixel ref 0) w step.next r.0)
                    (values (pixel bytes bp) r.0 n) [])
                (sym none) (row_end step.next r.0 _ over)));
      }

  row-more :
      (c a0 a1 b1 : ℕ) (xs : List ℕ) (r : ℕ × G3Encoder) (step : IsStepped c a0 a1 b1 xs r)
      (s : G3Encoder)
      → IsRowCoded step.next r.0 (change_after (pixel ref 0) w step.next r.0) (xs ++ step.code) s
      → IsRowCoded c a0 b1 xs s
  row-more c a0 a1 b1 xs r step s rest = record {
    code = step.code ++ rest.code;
    holds = subst (Holds unmap s) (append_assoc xs step.code rest.code) rest.holds;
    row = step.line rest.code rest.row;
  }

  row_loop-Coded :
      (fuel c a0 a1 b1 : ℕ) (s : G3Encoder) (xs : List ℕ)
      → IsAt c a0 a1
      → a0 ≤ b1
      → Holds unmap s xs
      → w - a0 + (if a1 == a0 then 1 else 0) < fuel
      → IsRowCoded c a0 b1 xs (row_loop bitmap bytes bp ref w fuel a0 a1 b1 s)
  unfolding row_loop
  row_loop-Coded zero c a0 a1 b1 s xs at after h enough = absurd (omega (arith, enough))
  row_loop-Coded (suc fuel) c a0 a1 b1 s xs at after h enough =
      let r = put_mode bitmap bytes bp ref w a0 a1 b1 s in
      let step = put_mode-Stepped c a0 a1 b1 s xs at after h in
      elim (Bool-cases (leb w r.0)) [
        | inl over ↦ rw over (row-done c a0 a1 b1 xs r step (ground (arith, over)))
        | inr more ↦ rw more (
            let low = step.small_next in
            let less : r.0 < w = ground (arith, more) in
            let seen = step.seen less in
            let next = next-At step.next r.0 low less seen in
            let b = finddiff ref 0 (finddiff ref 0 r.0 w (1 - step.next)) w step.next in
            let place = next-change_after step.next r.0 low less in
            let rest =
              row_loop-Coded fuel step.next r.0 (finddiff bytes bp r.0 w step.next) b r.1 _ next
                (omega (arith, place, change_after-le step.next r.0)) step.holds
                (ground (
                  arith,
                  next.change,
                  run-starts (pixel bytes bp) step.next r.0 (w - r.0) seen (omega (arith, less)),
                  step.progress,
                  enough,
                )) in
            row-more c a0 a1 b1 xs r step _ (
              subst
                (λ d.
                  IsRowCoded step.next r.0 (change_after (pixel ref 0) w step.next r.0)
                    (xs ++ step.code)
                    (row_loop bitmap bytes bp ref w fuel r.0 (finddiff bytes bp r.0 w d)
                      (finddiff ref 0 (finddiff ref 0 r.0 w (1 - d)) w d) r.1))
                (sym seen)
                (subst
                  (λ p. IsRowCoded step.next r.0 p (xs ++ step.code) (
                    row_loop bitmap bytes bp ref w fuel r.0 (finddiff bytes bp r.0 w step.next) b
                      r.1))
                  place rest)))
      ]

  start-At : 1 ≤ w → IsAt 0 0 (first_change bytes bp w)
  start-At wide =
      let px = pixel bytes bp in
      let change = first_change-run bytes small bp w in
      let all : w - 0 ≡ w = omega arith in
      record {
        colour = omega arith;
        inside = wide;
        change = omega (arith, change, ap (run px 0 0) all);
        sees = elim (Bool-cases (px 0 == 0)) [
          | inl white ↦ ground (arith, white)
          | inr black ↦
              let none = run-none px 0 0 w (λ e. ground (arith, black, e)) in
              ground (arith, change, none)
        ];
      }

-- For a buffer map that can be undone on bytes, a raster and a reference line of bytes, and a width of
-- at least one pixel: when the encoder has put out some bits, then after a line that is coded with the
-- reference line it has put out these, the EOL that the mode asks for, and mode codes that by the
-- grammar of T.4 and T.6, with the reference line's pixels, stand for exactly the line's pixels.
pub encode_row-Coded :
    (bitmap unmap : ℕ → ℕ)
    → ((b : ℕ) → b < 256 → unmap (bitmap b) ≡ b)
    → (bytes : ℕ → ℕ) → ((p : ℕ) → bytes p < 256)
    → (bp : ℕ) (ref : ℕ → ℕ) → ((p : ℕ) → ref p < 256)
    → (w : ℕ) (s : G3Encoder) (xs : List ℕ) → 1 ≤ w
    → Holds unmap s xs
    → (eol : EolCoded 0 s.isg4 s.is2d unmap xs (put_eol bitmap 0 s)) × RowCoded unmap
        (pixel bytes bp)
        (pixel ref 0)
        w
        0
        0
        (run (pixel ref 0) 0 0 w)
        (xs ++ eol.code)
        (encode_row bitmap bytes bp ref w s)
unfolding encode_row
encode_row-Coded bitmap unmap inverse bytes small bp ref small_ref w s xs wide h =
    let eol = put_eol-Coded bitmap unmap inverse 0 s xs (omega arith) h in
    let b1 = first_change-run ref small_ref 0 w in
    (
      eol,
      subst
          (λ b.
            RowCoded unmap (pixel bytes bp) (pixel ref 0) w 0 0 b (xs ++ eol.code)
              (encode_row bitmap bytes bp ref w s))
          b1
          (row_loop-Coded bitmap unmap inverse bytes small bp ref small_ref w (w + 2) 0 0
            (first_change bytes bp w) (first_change ref 0 w) _ _
            (start-At bitmap unmap inverse bytes small bp ref small_ref w wide) (omega arith)
            eol.holds (ground arith)),
    )
