-- ===== src/G3/Lines.antt =====
-- A line of one-dimensional coding (the branch of G3Encoder::encode with no reference line, in
-- faxd/G3Encoder.c++), against the grammar of T.4.
use mathlib.Core.Path.{subst}
use mathlib.Core.List.{append-nil, append_assoc}
use native.Mathlib.Nat.{mod-lt}
use hylafaxplus.Prelude.{
  ℕ, zero, suc, ◌+◌, ◌-◌, ◌/◌, ◌≤◌, ◌<◌, List, [], ◌∷◌, ◌++◌, leb, ◌==◌, ◌≡◌, ◌≢◌, refl, sym, ap,
  ◌∙◌, arith, Bool-cases, inl, inr,
}
use hylafaxplus.G3.{G3Encoder, line_loop}
use hylafaxplus.G3.Codes.{
  TableEntry, white_codes, black_codes, white_codes-IsCodeTable, black_codes-IsCodeTable,
}
use hylafaxplus.G3.Stream.{Holds}
use hylafaxplus.G3.Runs.{RunCode, Coded, putspan-Coded}
use hylafaxplus.G3.Spans.{run-le, pixel, findspan-run}
use hylafaxplus.G3.Table.{run, zeroruns, oneruns, zeroruns-IsRunTable, oneruns-IsRunTable}

-- The k values from i on, and n times the value c.
abbrev pub values : (ℕ → ℕ) → ℕ → ℕ → List ℕ
values f i zero = []
values f i (suc k) = f i ∷ values f (suc i) k

abbrev pub times : ℕ → ℕ → List ℕ
times zero c = []
times (suc n) c = c ∷ times n c

-- The code of the pixels of a line: runs of white and black by turns, up to the line's end.
pub data LineCode (white black : ℕ → TableEntry) : ℕ → List ℕ → List ℕ → Type 0 where
  last_white : (n : ℕ) (xs : List ℕ) → RunCode white n xs → LineCode white black 0 (times n 0) xs
  last_black : (n : ℕ) (xs : List ℕ) → RunCode black n xs → LineCode white black 1 (times n 1) xs
  a_white :
      (n : ℕ) (xs ps ys : List ℕ)
      → RunCode white n xs
      → LineCode white black 1 ps ys
      → LineCode white black 0 (times n 0 ++ ps) (xs ++ ys)
  a_black :
      (n : ℕ) (xs ps ys : List ℕ)
      → RunCode black n xs
      → LineCode white black 0 ps ys
      → LineCode white black 1 (times n 1 ++ ps) (xs ++ ys)

-- The pixels are a run and what is behind it.
pub values-run :
    (f : ℕ → ℕ) (c i k : ℕ)
    → values f i k ≡ times (run f c i k) c ++ values f (i + run f c i k) (k - run f c i k)
unfolding run
values-run f c i zero = refl
values-run f c i (suc k) = elim (Bool-cases (f i == c)) [
  | inl on ↦
      let m = run f c (suc i) k in
      let at : f i ≡ c = ground (arith, on) in
      let e : suc i + m ≡ i + suc m = omega arith in
      let d : k - m ≡ suc k - suc m = omega arith in
      rw on (
        ap (λ x. x ∷ values f (suc i) k) at
        ∙ ap (λ l. c ∷ l) (values-run f c (suc i) k)
        ∙ ap (λ x. c ∷ times m c ++ values f x (k - m)) e
        ∙ ap (λ x. c ∷ times m c ++ values f (i + suc m) x) d)
  | inr off ↦
      let e : i ≡ i + 0 = omega arith in
      let d : suc k ≡ suc k - 0 = omega arith in
      rw off (ap (λ x. values f x (suc k)) e ∙ ap (values f (i + 0)) d)
]

pub run-stops : (f : ℕ → ℕ) (c i k : ℕ) → run f c i k < k → f (i + run f c i k) ≢ c
unfolding run
run-stops f c i zero h = absurd (omega (arith, h))
run-stops f c i (suc k) h = elim (Bool-cases (f i == c)) [
  | inl on ↦
      let m = run f c (suc i) k in
      let e : i + suc m ≡ suc i + m = omega arith in
      rw on (λ same. run-stops f c (suc i) k (ground (arith, h, on)) (ap f (sym e) ∙ same))
  | inr off ↦
      let e : i + 0 ≡ i = omega arith in rw off (λ same. ground (arith, off, sym (ap f e) ∙ same))
]

pub run-starts : (f : ℕ → ℕ) (c i k : ℕ) → f i ≡ c → 1 ≤ k → 1 ≤ run f c i k
unfolding run
run-starts f c i zero h k = absurd (omega (arith, k))
run-starts f c i (suc n) h k = ground (arith, h)

-- What a call of the loop comes to: the encoder has put out xs and the code of the pixels from i on,
-- and the pointer is that to the byte at the end of the line.
pub record LineCoded (unmap : ℕ → ℕ) (px : ℕ → ℕ) (base w c i : ℕ) (xs : List ℕ) (r : G3Encoder × ℕ)
    : Type 0 where
  pub code : List ℕ
  pub holds : Holds unmap r.0 (xs ++ code)
  pub line : LineCode white_codes black_codes c (values px i (w - i)) code
  pub pointer : r.1 ≡ base + w / 8

-- One run of the line, of either colour.
module _ (unmap : ℕ → ℕ) (px : ℕ → ℕ) (base w c d : ℕ) (tab : ℕ → TableEntry)
    (last : (n : ℕ) (xs : List ℕ)
      → RunCode tab n xs
      → LineCode white_codes black_codes c (times n c) xs)
    (more : (n : ℕ) (xs ps ys : List ℕ)
      → RunCode tab n xs
      → LineCode white_codes black_codes d ps ys
      → LineCode white_codes black_codes c (times n c ++ ps) (xs ++ ys)) where
  run-ends :
      (i : ℕ) (s : G3Encoder) (xs : List ℕ)
      → i ≤ w
      → let m = run px c i (w - i) in
        w ≤ i + m
        → Coded unmap tab m xs s
        → LineCoded unmap px base w c i xs (s, base + (i + m) / 8)
  run-ends i s xs le ends coded =
      let m = run px c i (w - i) in
      let whole : i + m ≡ w = omega (arith, ends, run-le px c i (w - i), le) in
      let nothing : w - i - m ≡ 0 = omega (arith, whole) in
      let pixels : values px i (w - i) ≡ times m c =
        values-run px c i (w - i)
        ∙ ap (λ k. times m c ++ values px (i + m) k) nothing
        ∙ append-nil (times m c) in
      record {
        code = coded.code;
        holds = coded.holds;
        line =
            subst (λ ps. LineCode white_codes black_codes c ps coded.code) (sym pixels)
              (last m coded.code coded.run);
        pointer = ap (λ x. base + x / 8) whole;
      }

  run-goes-on :
      (i : ℕ) (s : G3Encoder) (xs : List ℕ) (r : G3Encoder × ℕ)
      → let m = run px c i (w - i) in
        (coded : Coded unmap tab m xs s)
        → LineCoded unmap px base w d (i + m) (xs ++ coded.code) r
        → LineCoded unmap px base w c i xs r
  run-goes-on i s xs r coded rest =
      let m = run px c i (w - i) in
      let left : w - (i + m) ≡ w - i - m = omega arith in
      let pixels : values px i (w - i) ≡ times m c ++ values px (i + m) (w - (i + m)) =
        values-run px c i (w - i) ∙ ap (λ k. times m c ++ values px (i + m) k) (sym left) in
      record {
        code = coded.code ++ rest.code;
        holds = subst (Holds unmap r.0) (append_assoc xs coded.code rest.code) rest.holds;
        line =
            subst (λ ps. LineCode white_codes black_codes c ps (coded.code ++ rest.code))
              (sym pixels) (more m coded.code _ rest.code coded.run rest.line);
        pointer = rest.pointer;
      }

-- Where a white run ends before the line does, a black one begins.
black-starts :
    (bytes : ℕ → ℕ) (base w i : ℕ)
    → let px = pixel bytes base in
      let m = run px 0 i (w - i) in m < w - i → 1 ≤ run px 1 (i + m) (w - (i + m))
black-starts bytes base w i h =
    let px = pixel bytes base in
    let m = run px 0 i (w - i) in
    let bit : px (i + m) < 2 = mod-lt _ (omega arith) in
    let black : px (i + m) ≡ 1 = ground (arith, bit, run-stops px 0 i (w - i) h) in
    run-starts px 1 (i + m) (w - (i + m)) black (omega (arith, h))

module _ (bitmap unmap : ℕ → ℕ) (inverse : (b : ℕ) → b < 256 → unmap (bitmap b) ≡ b) (bytes : ℕ → ℕ)
    (small : (p : ℕ) → bytes p < 256) where
  pub line_loop-Coded :
      (fuel base w i : ℕ) (s : G3Encoder) (xs : List ℕ)
      → i ≤ w
      → w - i < fuel
      → Holds unmap s xs
      → LineCoded unmap
          (pixel bytes base)
          base
          w
          0
          i
          xs
          (line_loop fuel bitmap bytes w (base + i / 8) i s)
  unfolding line_loop
  line_loop-Coded zero base w i s xs le enough h = absurd (omega (arith, enough))
  line_loop-Coded (suc fuel) base w i s xs le enough h =
      let px = pixel bytes base in
      let m = run px 0 i (w - i) in
      let n = run px 1 (i + m) (w - (i + m)) in
      let whites = findspan-run bytes small 0 zeroruns zeroruns-IsRunTable base i w in
      let blacks = findspan-run bytes small 1 oneruns oneruns-IsRunTable base (i + m) w in
      let coded = putspan-Coded bitmap unmap inverse white_codes white_codes-IsCodeTable m s xs h in
      let coded' =
        putspan-Coded bitmap unmap inverse black_codes black_codes-IsCodeTable n _ _ coded.holds in
      rw whites (
        rw blacks (elim (Bool-cases (leb w (i + m))) [
          | inl over ↦ rw over (
              run-ends unmap px base w 0 1 white_codes last_white a_white i _ xs le
                (ground (arith, over)) coded)
          | inr inside ↦
              let within : i + m < w = ground (arith, inside) in
              rw inside (
                run-goes-on unmap px base w 0 1 white_codes last_white a_white i _ xs _ coded
                  (elim (Bool-cases (leb w (i + m + n))) [
                    | inl over ↦ rw over (
                        run-ends unmap px base w 1 0 black_codes last_black a_black (i + m) _ _
                          (omega (arith, within)) (ground (arith, over)) coded')
                    | inr on ↦
                        let fewer : w - (i + m + n) < fuel = omega (
                          arith,
                          enough,
                          within,
                          black-starts bytes base w i (omega (arith, within)),
                        ) in
                        rw on (
                          run-goes-on unmap px base w 1 0 black_codes last_black a_black (i + m) _ _
                            _ coded'
                            (line_loop-Coded fuel base w (i + m + n) _ _ (ground (arith, on)) fewer
                              coded'.holds))
                  ]))
        ]))
