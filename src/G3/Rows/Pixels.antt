-- ===== src/G3/Rows/Pixels.antt =====
-- The macros of the loop of a line with a reference line (G3Encoder::encode of faxd/G3Encoder.c++), as
-- runs of the pixels.
use native.Mathlib.Nat.{mod-lt}
use hylafaxplus.Prelude.{
  ℕ, zero, suc, ◌+◌, ◌-◌, ◌/◌, ◌%◌, ◌^◌, ◌≤◌, ◌<◌, Bool, true, ◌&&◌, ltb, leb, ◌==◌, ◌≡◌, ◌≢◌, refl,
  sym, ap, ◌∙◌, arith, Bool-cases, inl, inr,
}
use hylafaxplus.G3.Table.{run, all_below, all_below_sound}
use hylafaxplus.G3.Spans.{pixel, run-le}
use hylafaxplus.G3.Lines.{run-starts}
use hylafaxplus.G3.Finddiff.Found.{find_span-run}
use hylafaxplus.G3.Rows.{vcodes, finddiff, finddiff2, first_change}
use hylafaxplus.G3.Rows.Grammar.{next_change}

pub run-none : (f : ℕ → ℕ) (c i k : ℕ) → f i ≢ c → run f c i k ≡ 0
unfolding run
run-none f c i zero h = refl
run-none f c i (suc k) h = ground (arith, h)

pub pixel-small : (bytes : ℕ → ℕ) (cp i : ℕ) → pixel bytes cp i ≤ 1
pixel-small bytes cp i =
    omega (arith, mod-lt (bytes (cp + i / 8) / 2 ^ (7 - i % 8)) {m = 2} (omega arith))

module _ (bytes : ℕ → ℕ) (small : (p : ℕ) → bytes p < 256) where
  pub finddiff-run :
      (cp bs be c : ℕ)
      → c ≤ 1
      → bs ≤ be
      → finddiff bytes cp bs be c ≡ bs + run (pixel bytes cp) c bs (be - bs)
  unfolding finddiff
  finddiff-run cp bs be zero h ordered =
      ap (λ x. bs + x) (find_span-run bytes small cp bs be ordered).0
  finddiff-run cp bs be (suc zero) h ordered =
      ap (λ x. bs + x) (find_span-run bytes small cp bs be ordered).1
  finddiff-run cp bs be (suc (suc c)) h ordered = absurd (omega (arith, h))

  pub finddiff2-next :
      (cp bs be : ℕ) → finddiff2 bytes cp bs be ≡ next_change (pixel bytes cp) be bs
  unfolding finddiff2 next_change
  finddiff2-next cp bs be = elim (Bool-cases (ltb bs be)) [
    | inl inside ↦
        let small_bit = pixel-small bytes cp bs in
        rw inside (finddiff-run cp bs be (pixel bytes cp bs) small_bit (ground (arith, inside)))
    | inr over ↦ rw over refl
  ]

  pub first_change-run : (cp w : ℕ) → first_change bytes cp w ≡ run (pixel bytes cp) 0 0 w
  unfolding first_change
  first_change-run cp w = elim (Bool-cases (pixel bytes cp 0 == 0)) [
    | inl white ↦
        let all : w - 0 ≡ w = omega arith in
        rw white (
          finddiff-run cp 0 w 0 (omega arith) (omega arith)
          ∙ omega (arith, ap (run (pixel bytes cp) 0 0) all))
    | inr black ↦ rw black (sym (run-none (pixel bytes cp) 0 0 w (λ e. ground (arith, black, e))))
  ]

abbrev is_vcode : ℕ → Bool
is_vcode k =
    leb (vcodes k).length 16
    && ltb (vcodes k).code (2 ^ (vcodes k).length)
    && ltb (vcodes k).code 512

vcodes-checked : all_below 7 is_vcode ≡ true
unfolding vcodes all_below
vcodes-checked = refl

pub vcodes-are_codes :
    (k : ℕ)
    → k ≤ 6
    → ((vcodes k).length ≤ 16) × ((vcodes k).code < 2 ^ (vcodes k).length) × ((vcodes k).code < 512)
vcodes-are_codes k h =
    let ok = all_below_sound 7 is_vcode k vcodes-checked (omega (arith, h)) in
    (ground (arith, ok), ground (arith, ok), ground (arith, ok))

-- The place of a change lies in the line.
pub next_change-bounds :
    (f : ℕ → ℕ) (w b : ℕ) → (next_change f w b ≤ w) × (b < w → b < next_change f w b)
unfolding next_change
next_change-bounds f w b = (
  ground (arith, run-le f (f b) b (w - b)),
  λ inside. ground (arith, run-starts f (f b) b (w - b) refl (omega (arith, inside))),
)

pub next_change-end : (f : ℕ → ℕ) (w b : ℕ) → w ≤ b → next_change f w b ≡ w
unfolding next_change
next_change-end f w b h = ground (arith, h)

pub inside-line : (f : ℕ → ℕ) (w b : ℕ) → next_change f w b < w → b < w
inside-line f w b h = elim (Bool-cases (ltb b w)) [
  | inl inside ↦ ground (arith, inside)
  | inr over ↦ absurd (omega (arith, h, next_change-end f w b (ground (arith, over))))
]

-- Of two colours, one that is not c is the other.
pub other : (c d : ℕ) → c ≤ 1 → d ≤ 1 → d ≢ c → d ≡ 1 - c
other c d hc hd h = ground (arith, hc, hd, h)
