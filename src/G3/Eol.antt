-- ===== src/G3/Eol.antt =====
-- The EOL in front of a line (the start of the loop of G3Encoder::encode in faxd/G3Encoder.c++).
use mathlib.Core.Path.{subst}
use mathlib.Core.List.{append-nil, append_assoc}
use hylafaxplus.Prelude.{
  ℕ, ◌+◌, ◌-◌, ◌*◌, ◌^◌, ◌≤◌, ◌<◌, Bool, true, false, List, [], ◌++◌, ltb, ◌==◌, if◌then◌else◌, ◌≡◌,
  refl, sym, ap, ◌∙◌, arith,
}
use hylafaxplus.G3.{G3Encoder, align, put_eol}
use hylafaxplus.G3.Words.{pow-pos}
use hylafaxplus.G3.Stream.{bits_of, bytes_bits, Holds, put_bits-Holds}

-- The other fields of the encoder do not matter to its bits.
kept :
    (unmap : ℕ → ℕ) (s s' : G3Encoder) (xs : List ℕ)
    → (s'.bit ≡ s.bit) × (s'.data_byte ≡ s.data_byte) × (s'.out ≡ s.out)
    → Holds unmap s xs
    → Holds unmap s' (xs ++ [])
kept unmap s s' xs e h = record {
  part = h.part;
  free = (omega (arith, e.0, h.free), omega (arith, e.0, h.free));
  small = subst (λ b. h.part < 2 ^ (8 - b)) (sym e.0) h.small;
  data_byte = e.1 ∙ h.data_byte ∙ ap (λ b. h.part * 2 ^ b) (sym e.0);
  bits =
      append-nil xs
      ∙ h.bits
      ∙ ap (λ o. bytes_bits unmap o ++ bits_of (8 - s.bit) h.part) (sym e.2)
      ∙ ap (λ b. bytes_bits unmap s'.out ++ bits_of (8 - b) h.part) (sym e.0);
}

-- What stands in front of a line: nothing in G4; else fill up to seven zeros, EOL, and in two-dimensional
-- coding the tag bit.
pub data EolCode (tag : ℕ) : Bool → Bool → List ℕ → Type 0 where
  no_eol : (is2d : Bool) → EolCode tag true is2d []
  plain : (pad : ℕ) → pad < 8 → EolCode tag false false (bits_of pad 0 ++ bits_of 12 1)
  tagged : (pad : ℕ) → pad < 8 → EolCode tag false true (bits_of pad 0 ++ bits_of 13 (2 + tag))

pub record EolCoded (tag : ℕ) (isg4 is2d : Bool) (unmap : ℕ → ℕ) (xs : List ℕ) (s : G3Encoder)
    : Type 0 where
  pub code : List ℕ
  pub holds : Holds unmap s (xs ++ code)
  pub eol : EolCode tag isg4 is2d code

choose :
    {A : Type 0} (P : A → Type 0) (b : Bool) {x y : A}
    → (b ≡ true → P x)
    → (b ≡ false → P y)
    → P (if b then x else y)
choose P true h k = h refl
choose P false h k = k refl

-- The encoder has put out xs and less than a byte of zeros.
abbrev Filled : (ℕ → ℕ) → List ℕ → G3Encoder → Type 0
Filled unmap xs s = (pad : ℕ) × (pad < 8) × Holds unmap s (xs ++ bits_of pad 0)

module _ (bitmap unmap : ℕ → ℕ) (inverse : (b : ℕ) → b < 256 → unmap (bitmap b) ≡ b) where
  align-Filled : (s : G3Encoder) (xs : List ℕ) → Holds unmap s xs → Filled unmap xs (align bitmap s)
  unfolding align bits_of
  align-Filled s xs h =
      let pad = if ltb s.bit 4 then s.bit + 4 else s.bit - 4 in
      choose (Filled unmap xs) s.first_eol
        (λ first. (0, omega arith, kept unmap s _ xs (refl, refl, refl) h))
        (λ later.
          choose (Filled unmap xs) (s.bit == 4)
            (λ half. (0, omega arith, kept unmap s s xs (refl, refl, refl) h))
            (λ off. (
              pad,
              ground (arith, h.free, off),
              put_bits-Holds bitmap unmap inverse 0 pad s xs (ground (arith, h.free)) (pow-pos pad)
                  (omega arith) h,
            )))

  pub put_eol-Coded :
      (tag : ℕ) (s : G3Encoder) (xs : List ℕ)
      → tag ≤ 1
      → Holds unmap s xs
      → EolCoded tag s.isg4 s.is2d unmap xs (put_eol bitmap tag s)
  unfolding put_eol
  put_eol-Coded tag s xs one h =
      let (pad, less, aligned) = align-Filled s xs h in
      let P = EolCoded tag s.isg4 s.is2d unmap xs in
      choose P s.isg4
        (λ g4. record {
          code = [];
          holds = kept unmap s s xs (refl, refl, refl) h;
          eol = subst (λ b. EolCode tag b s.is2d []) (sym g4) (no_eol s.is2d);
        })
        (λ g3.
          choose P s.is2d
            (λ two. record {
              code = bits_of pad 0 ++ bits_of 13 (2 + tag);
              holds =
                  subst (Holds unmap _) (append_assoc xs (bits_of pad 0) (bits_of 13 (2 + tag))) (
                    put_bits-Holds bitmap unmap inverse (2 + tag) 13 _ _ (omega arith)
                      (omega (arith, one)) (omega (arith, one)) aligned);
              eol =
                  subst (λ b. EolCode tag b s.is2d (bits_of pad 0 ++ bits_of 13 (2 + tag))) (sym g3)
                    (subst (λ b. EolCode tag false b (bits_of pad 0 ++ bits_of 13 (2 + tag)))
                      (sym two) (tagged pad less));
            })
            (λ plain_g3. record {
              code = bits_of pad 0 ++ bits_of 12 1;
              holds = subst (Holds unmap _) (append_assoc xs (bits_of pad 0) (bits_of 12 1)) (
                  put_bits-Holds bitmap unmap inverse 1 12 _ _ (omega arith) (omega arith)
                    (omega arith) aligned);
              eol =
                  subst (λ b. EolCode tag b s.is2d (bits_of pad 0 ++ bits_of 12 1)) (sym g3)
                    (subst (λ b. EolCode tag false b (bits_of pad 0 ++ bits_of 12 1)) (sym plain_g3)
                      (plain pad less));
            }))
