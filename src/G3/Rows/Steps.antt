-- ===== src/G3/Rows/Steps.antt =====
-- One round of the loop of a line with a reference line (G3Encoder::encode of faxd/G3Encoder.c++),
-- against the grammar of T.4 and T.6.
use mathlib.Core.Path.{subst}
use mathlib.Core.List.{append_assoc}
use hylafaxplus.Prelude.{
  ℕ, zero, suc, ◌+◌, ◌-◌, ◌^◌, ◌≤◌, ◌<◌, Bool, true, false, ◌||◌, List, ◌++◌, ltb, ◌==◌,
  if◌then◌else◌, ◌≡◌, ◌≢◌, sym, ap, ◌∙◌, arith, Bool-cases, inl, inr, ◌▷◌,
}
use hylafaxplus.G3.{G3Encoder, put_bits, putcode, putspan}
use hylafaxplus.G3.Table.{run}
use hylafaxplus.G3.Codes.{
  white_codes, black_codes, white_codes-IsCodeTable, black_codes-IsCodeTable,
}
use hylafaxplus.G3.Stream.{bits_of, Holds, put_bits-Holds}
use hylafaxplus.G3.Runs.{code_bits, RunCode, putspan-Coded}
use hylafaxplus.G3.Spans.{pixel, run-le}
use hylafaxplus.G3.Lines.{values, times, run-stops}
use hylafaxplus.G3.Rows.{horizcode, passcode, vcodes, put_horizontal}
use hylafaxplus.G3.Rows.Grammar.{
  codes_of, change_after, next_change, RowCode, pass, vertical, horizontal, values-skip, run-inside,
}
use hylafaxplus.G3.Rows.Pixels.{
  pixel-small, vcodes-are_codes, next_change-bounds, inside-line, other,
}

regroup : (a b c d : List ℕ) → a ++ (b ++ (c ++ d)) ≡ (a ++ (b ++ c)) ++ d
regroup a b c d = sym (append_assoc a (b ++ c) d ∙ ap (λ l. a ++ l) (append_assoc b c d))

module _ (bitmap unmap : ℕ → ℕ) (inverse : (b : ℕ) → b < 256 → unmap (bitmap b) ≡ b) (bytes : ℕ → ℕ)
    (small : (p : ℕ) → bytes p < 256) (bp : ℕ) (ref : ℕ → ℕ) (small_ref : (p : ℕ) → ref p < 256)
    (w : ℕ) where
  -- The encoder is at a0, which has the colour c and is followed by the change a1; a1 is a0 at most
  -- where the line starts.
  pub record At (c a0 a1 : ℕ) : Type 0 where
    pub colour : c ≤ 1
    pub inside : a0 < w
    pub change : a1 ≡ a0 + run (pixel bytes bp) c a0 (w - a0)
    pub sees : (if a0 + a1 == 0 || pixel bytes bp a0 == 0 then 0 else 1) ≡ c

  -- A round of the loop has put out the code of a mode, for the pixels up to the next a0.
  pub record Stepped (c a0 a1 b1 : ℕ) (xs : List ℕ) (r : ℕ × G3Encoder) : Type 0 where
    pub next : ℕ
    pub code : List ℕ
    pub holds : Holds unmap r.1 (xs ++ code)
    pub line :
        (bits : List ℕ)
        → RowCode
            (pixel ref 0)
            w
            next
            r.0
            (change_after (pixel ref 0) w next r.0)
            (values (pixel bytes bp) r.0 (w - r.0))
            bits
        → RowCode (pixel ref 0) w c a0 b1 (values (pixel bytes bp) a0 (w - a0)) (code ++ bits)
    pub seen : r.0 < w → pixel bytes bp r.0 ≡ next
    pub small_next : next ≤ 1
    pub progress : a0 < r.0 + (if a1 == a0 then 1 else 0)

  pub change-le : (c a0 a1 : ℕ) → At c a0 a1 → (a0 ≤ a1) × (a1 ≤ w)
  change-le c a0 a1 at = (
    omega (arith, at.change),
    omega (arith, at.change, at.inside, run-le (pixel bytes bp) c a0 (w - a0)),
  )

  -- Behind a change the colour is the other one.
  pub behind-change : (c a0 a1 : ℕ) → At c a0 a1 → a1 < w → pixel bytes bp a1 ≡ 1 - c
  behind-change c a0 a1 at less =
      other c (pixel bytes bp a1) at.colour (pixel-small bytes bp a1) (λ e.
        run-stops (pixel bytes bp) c a0 (w - a0) (omega (arith, less, at.change))
          (ap (pixel bytes bp) (sym at.change) ∙ e))

  mode-Holds :
      (code n : ℕ) (s : G3Encoder) (xs : List ℕ)
      → n ≤ 16
      → code < 2 ^ n
      → code < 512
      → Holds unmap s xs
      → Holds unmap (put_bits bitmap code n s) (xs ++ bits_of n code)
  mode-Holds = put_bits-Holds bitmap unmap inverse

  pub pass-Stepped :
      (c a0 a1 b1 b2 : ℕ) (s : G3Encoder) (xs : List ℕ)
      → At c a0 a1
      → a0 ≤ b1
      → b2 ≡ next_change (pixel ref 0) w b1
      → b2 < a1
      → Holds unmap s xs
      → Stepped c a0 a1 b1 xs (b2, putcode bitmap passcode s)
  unfolding putcode
  pass-Stepped c a0 a1 b1 b2 s xs at after e less h =
      let px = pixel bytes bp in
      let (le, hi) = change-le c a0 a1 at in
      let bounds = next_change-bounds (pixel ref 0) w b1 in
      let inside : b1 < w = inside-line (pixel ref 0) w b1 (omega (arith, e, less, hi)) in
      let on : b1 < b2 = omega (arith, bounds.1 inside, e) in
      let pixels : values px a0 (w - a0) ≡ times (b2 - a0) c ++ values px b2 (w - b2) =
        values-skip px c a0 (b2 - a0) (w - a0) b2 (w - b2) (omega (arith, at.change, less))
          (omega (arith, on, after)) (omega (arith, on, after, less, hi)) in
      record {
        next = c;
        code = code_bits passcode;
        holds = mode-Holds 1 4 s xs (omega arith) (omega arith) (omega arith) h;
        line = λ bits k.
            subst (λ ps. RowCode (pixel ref 0) w c a0 b1 ps (code_bits passcode ++ bits))
              (sym pixels) (pass c a0 b1 b2 _ bits e k);
        seen = λ _.
            run-inside px c a0 (b2 - a0) (w - a0) b2 (omega (arith, at.change, less, on, after))
              (omega (arith, on, after));
        small_next = at.colour;
        progress = omega (arith, on, after);
      }

  pub vertical-Stepped :
      (c a0 a1 b1 k : ℕ) (s : G3Encoder) (xs : List ℕ)
      → At c a0 a1
      → k ≤ 6
      → a1 + k ≡ b1 + 3
      → Holds unmap s xs
      → Stepped c a0 a1 b1 xs (a1, putcode bitmap (vcodes k) s)
  unfolding putcode
  vertical-Stepped c a0 a1 b1 k s xs at low e h =
      let px = pixel bytes bp in
      let (le, hi) = change-le c a0 a1 at in
      let pixels : values px a0 (w - a0) ≡ times (a1 - a0) c ++ values px a1 (w - a1) =
        values-skip px c a0 (a1 - a0) (w - a0) a1 (w - a1) (omega (arith, at.change))
          (omega (arith, le)) (omega (arith, le, hi)) in
      record {
        next = 1 - c;
        code = code_bits (vcodes k);
        holds = vcode-Holds k s xs low h;
        line = λ bits j.
            subst (λ ps. RowCode (pixel ref 0) w c a0 b1 ps (code_bits (vcodes k) ++ bits))
              (sym pixels) (vertical c a0 a1 b1 k _ bits low e j);
        seen = λ less. behind-change c a0 a1 at less;
        small_next = omega arith;
        progress = ground (arith, le);
      }
    where
      vcode-Holds :
          (k : ℕ) (s : G3Encoder) (xs : List ℕ)
          → k ≤ 6
          → Holds unmap s xs
          → Holds unmap
              (put_bits bitmap (vcodes k).code (vcodes k).length s)
              (xs ++ code_bits (vcodes k))
      vcode-Holds k s xs low h =
          let ok = vcodes-are_codes k low in
          mode-Holds (vcodes k).code (vcodes k).length s xs ok.0 ok.1 ok.2 h

  -- The change behind a1 ends a run of the other colour.
  second-change :
      (c a0 a1 : ℕ)
      → At c a0 a1
      → next_change (pixel bytes bp) w a1 ≡ a1 + run (pixel bytes bp) (1 - c) a1 (w - a1)
  unfolding next_change
  second-change c a0 a1 at =
      let px = pixel bytes bp in
      elim (Bool-cases (ltb a1 w)) [
        | inl inside ↦ rw inside (
            ap (λ d. a1 + run px d a1 (w - a1)) (behind-change c a0 a1 at (ground (arith, inside))))
        | inr over ↦
            rw over (ground (arith, over, (change-le c a0 a1 at).1, run-le px (1 - c) a1 (w - a1)))
      ]

  -- The pixels of a horizontal mode.
  two-runs :
      (c a0 a1 a2 : ℕ)
      → At c a0 a1
      → a2 ≡ a1 + run (pixel bytes bp) (1 - c) a1 (w - a1)
      → values (pixel bytes bp) a0 (w - a0)
        ≡ times (a1 - a0) c ++ (times (a2 - a1) (1 - c) ++ values (pixel bytes bp) a2 (w - a2))
  two-runs c a0 a1 a2 at e =
      let px = pixel bytes bp in
      let (le, hi) = change-le c a0 a1 at in
      let more = run-le px (1 - c) a1 (w - a1) in
      values-skip px c a0 (a1 - a0) (w - a0) a1 (w - a1) (omega (arith, at.change))
        (omega (arith, le)) (omega (arith, le, hi))
      ∙ ap (λ l. times (a1 - a0) c ++ l)
          (values-skip px (1 - c) a1 (a2 - a1) (w - a1) a2 (w - a2) (omega (arith, e))
            (omega (arith, e)) (omega (arith, e, hi, more)))

  -- The codes of two runs, the first of colour c.
  spans : ℕ → ℕ → ℕ → G3Encoder → G3Encoder
  spans zero n m s = s ▷ putspan bitmap white_codes n ▷ putspan bitmap black_codes m
  spans (suc c) n m s = s ▷ putspan bitmap black_codes n ▷ putspan bitmap white_codes m

  by-colour :
      (b : Bool) (c n m : ℕ) (s : G3Encoder)
      → (if b then 0 else 1) ≡ c
      → (if b
          then s ▷ putspan bitmap white_codes n ▷ putspan bitmap black_codes m
          else s ▷ putspan bitmap black_codes n ▷ putspan bitmap white_codes m)
        ≡ spans c n m s
  unfolding spans
  by-colour true c n m s h = ap (λ c. spans c n m s) h
  by-colour false c n m s h = ap (λ c. spans c n m s) h

  record TwoRuns (c n m : ℕ) (xs : List ℕ) (s : G3Encoder) : Type 0 where
    code1 : List ℕ
    code2 : List ℕ
    holds : Holds unmap s (xs ++ (code1 ++ code2))
    run1 : RunCode (codes_of c) n code1
    run2 : RunCode (codes_of (1 - c)) m code2

  spans-TwoRuns :
      (c n m : ℕ) (s : G3Encoder) (xs : List ℕ)
      → c ≤ 1
      → Holds unmap s xs
      → TwoRuns c n m xs (spans c n m s)
  unfolding spans
  spans-TwoRuns zero n m s xs le h =
      let a = putspan-Coded bitmap unmap inverse white_codes white_codes-IsCodeTable n s xs h in
      let b =
        putspan-Coded bitmap unmap inverse black_codes black_codes-IsCodeTable m _ _ a.holds in
      record {
        code1 = a.code;
        code2 = b.code;
        holds = subst (Holds unmap _) (append_assoc xs a.code b.code) b.holds;
        run1 = a.run;
        run2 = b.run;
      }
  spans-TwoRuns (suc zero) n m s xs le h =
      let a = putspan-Coded bitmap unmap inverse black_codes black_codes-IsCodeTable n s xs h in
      let b =
        putspan-Coded bitmap unmap inverse white_codes white_codes-IsCodeTable m _ _ a.holds in
      record {
        code1 = a.code;
        code2 = b.code;
        holds = subst (Holds unmap _) (append_assoc xs a.code b.code) b.holds;
        run1 = a.run;
        run2 = b.run;
      }
  spans-TwoRuns (suc (suc c)) n m s xs le h = absurd (omega (arith, le))

  -- Behind two runs the colour is the first one again.
  behind-two :
      (c a0 a1 a2 : ℕ)
      → At c a0 a1
      → a2 ≡ a1 + run (pixel bytes bp) (1 - c) a1 (w - a1)
      → a2 < w
      → pixel bytes bp a2 ≡ c
  behind-two c a0 a1 a2 at e less =
      let differs : pixel bytes bp a2 ≢ 1 - c = λ s.
        run-stops (pixel bytes bp) (1 - c) a1 (w - a1) (omega (arith, e, less))
          (ap (pixel bytes bp) (sym e) ∙ s) in
      let back =
        other (1 - c) (pixel bytes bp a2) (omega arith) (pixel-small bytes bp a2) differs in
      omega (arith, back, at.colour)

  pub horizontal-Stepped :
      (c a0 a1 b1 a2 : ℕ) (s : G3Encoder) (xs : List ℕ)
      → At c a0 a1
      → a2 ≡ next_change (pixel bytes bp) w a1
      → Holds unmap s xs
      → Stepped c a0 a1 b1 xs (a2, put_horizontal bitmap bytes bp ref w a0 a1 a2 s)
  unfolding put_horizontal putcode
  horizontal-Stepped c a0 a1 b1 a2 s xs at e h =
      let px = pixel bytes bp in
      let (le, hi) = change-le c a0 a1 at in
      let place = e ∙ second-change c a0 a1 at in
      let bounds = next_change-bounds px w a1 in
      let pixels = two-runs c a0 a1 a2 at place in
      let s' = put_bits bitmap 1 3 s in
      let two =
        spans-TwoRuns c (a1 - a0) (a2 - a1) s' _ at.colour
          (mode-Holds 1 3 s xs (omega arith) (omega arith) (omega arith) h) in
      let same = by-colour (a0 + a1 == 0 || px a0 == 0) c (a1 - a0) (a2 - a1) s' at.sees in
      record {
        next = c;
        code = code_bits horizcode ++ (two.code1 ++ two.code2);
        holds =
            subst (λ t. Holds unmap t (xs ++ (code_bits horizcode ++ (two.code1 ++ two.code2))))
              (sym same)
              (subst (Holds unmap _)
                (append_assoc xs (code_bits horizcode) (two.code1 ++ two.code2)) two.holds);
        line = λ bits k.
            subst
              (λ ps.
                RowCode (pixel ref 0) w c a0 b1 ps
                  ((code_bits horizcode ++ (two.code1 ++ two.code2)) ++ bits))
              (sym pixels)
              (subst (RowCode (pixel ref 0) w c a0 b1 _)
                (regroup (code_bits horizcode) two.code1 two.code2 bits)
                (horizontal c a0 b1 (a1 - a0) (a2 - a1) a2 two.code1 two.code2 _ bits two.run1
                  two.run2 (omega (arith, le, place)) k));
        seen = behind-two c a0 a1 a2 at place;
        small_next = at.colour;
        progress = ground (arith, at.inside, le, hi, place, bounds.1);
      }
