-- ===== src/G3/Runs.antt =====
-- The codes of a run (G3Encoder::putspan of faxd/G3Encoder.c++), against the grammar of T.4.
use mathlib.Core.Path.{subst}
use mathlib.Core.List.{append_assoc}
use hylafaxplus.Prelude.{
  ℕ, zero, suc, ◌+◌, ◌-◌, ◌*◌, ◌/◌, ◌≤◌, ◌<◌, List, ◌++◌, leb, ◌≡◌, sym, arith, Bool-cases, inl,
  inr,
}
use hylafaxplus.G3.{G3Encoder, putcode, put_short_span, put_span_loop, putspan}
use hylafaxplus.G3.Codes.{TableEntry, IsCodeTable}
use hylafaxplus.G3.Stream.{bits_of, Holds, put_bits-Holds}

abbrev pub code_bits : TableEntry → List ℕ
code_bits te = bits_of te.length te.code

-- The code of a run in T.4: make-up codes, each for a multiple of 64 up to 2560, and one terminating
-- code for less than 64.
pub data RunCode (tab : ℕ → TableEntry) : ℕ → List ℕ → Type 0 where
  terminating : (n : ℕ) → n < 64 → RunCode tab n (code_bits (tab n))
  make_up :
      (k n : ℕ) (xs : List ℕ)
      → 1 ≤ k
      → k ≤ 40
      → RunCode tab n xs
      → RunCode tab (64 * k + n) (code_bits (tab (63 + k)) ++ xs)

make_up-at :
    {tab : ℕ → TableEntry} {n m : ℕ} (k : ℕ) (xs : List ℕ)
    → n ≡ 64 * k + m
    → 1 ≤ k
    → k ≤ 40
    → RunCode tab m xs
    → RunCode tab n (code_bits (tab (63 + k)) ++ xs)
make_up-at {tab} {n} {m} k xs e lo hi c =
    subst (λ n. RunCode tab n (code_bits (tab (63 + k)) ++ xs)) (sym e) (make_up k m xs lo hi c)

-- The encoder has put out xs and the code of a run of n.
pub record Coded (unmap : ℕ → ℕ) (tab : ℕ → TableEntry) (n : ℕ) (xs : List ℕ) (s : G3Encoder)
    : Type 0 where
  pub code : List ℕ
  pub holds : Holds unmap s (xs ++ code)
  pub run : RunCode tab n code

module _ (bitmap unmap : ℕ → ℕ) (inverse : (b : ℕ) → b < 256 → unmap (bitmap b) ≡ b)
    (tab : ℕ → TableEntry) (table : IsCodeTable tab) where
  putcode-Holds :
      (i : ℕ) (s : G3Encoder) (xs : List ℕ)
      → i ≤ 103
      → Holds unmap s xs
      → Holds unmap (putcode bitmap (tab i) s) (xs ++ code_bits (tab i))
  unfolding putcode
  putcode-Holds i s xs h k =
      put_bits-Holds bitmap unmap inverse (tab i).code (tab i).length s xs (table.short i h)
        (table.fits i h) (table.low i h) k

  -- A make-up code in front of the code for the rest.
  after-make_up :
      (n m k : ℕ) (s : G3Encoder) (xs : List ℕ)
      → n ≡ 64 * k + m
      → 1 ≤ k
      → k ≤ 40
      → Coded unmap tab m (xs ++ code_bits (tab (63 + k))) s
      → Coded unmap tab n xs s
  after-make_up n m k s xs e lo hi c = record {
    code = code_bits (tab (63 + k)) ++ c.code;
    holds = subst (Holds unmap s) (append_assoc xs (code_bits (tab (63 + k))) c.code) c.holds;
    run = make_up-at k c.code e lo hi c.run;
  }

  terminated :
      (n : ℕ) (s : G3Encoder) (xs : List ℕ)
      → n < 64
      → Holds unmap s xs
      → Coded unmap tab n xs (putcode bitmap (tab n) s)
  terminated n s xs small h = record {
    code = code_bits (tab n);
    holds = putcode-Holds n s xs (omega (arith, small)) h;
    run = terminating n small;
  }

  put_short_span-Coded :
      (n : ℕ) (s : G3Encoder) (xs : List ℕ)
      → n < 2624
      → Holds unmap s xs
      → Coded unmap tab n xs (put_short_span bitmap tab n s)
  unfolding put_short_span
  put_short_span-Coded n s xs small h = elim (Bool-cases (leb 64 n)) [
    | inl long ↦
        let k = n / 64 in
        let lo : 1 ≤ k = ground (arith, long) in
        let hi : k ≤ 40 = omega (arith, small) in
        let run = table.runlen k lo hi in
        rw long (
          after-make_up n (n - (tab (63 + k)).runlen) k _ xs (omega (arith, run)) lo hi (
            terminated (n - (tab (63 + k)).runlen) _ _ (omega (arith, run))
              (putcode-Holds (63 + k) s xs (omega (arith, hi)) h)))
    | inr short ↦ rw short (terminated n s xs (ground (arith, short)) h)
  ]

  put_span_loop-Coded :
      (fuel n : ℕ) (s : G3Encoder) (xs : List ℕ)
      → n < fuel
      → Holds unmap s xs
      → Coded unmap tab n xs (put_span_loop bitmap fuel tab n s)
  unfolding put_span_loop
  put_span_loop-Coded zero n s xs enough h = absurd (omega arith)
  put_span_loop-Coded (suc fuel) n s xs enough h = elim (Bool-cases (leb 2624 n)) [
    | inl long ↦
        let run : (tab 103).runlen ≡ 2560 = table.runlen 40 (omega arith) (omega arith) in
        let more : 2624 ≤ n = ground (arith, long) in
        rw long (
          after-make_up n (n - (tab 103).runlen) 40 _ xs (omega (arith, run, more)) (omega arith)
            (omega arith)
            (put_span_loop-Coded fuel (n - (tab 103).runlen) _ _ (omega (arith, run, more, enough))
              (putcode-Holds 103 s xs (omega arith) h)))
    | inr short ↦ rw short (put_short_span-Coded n s xs (ground (arith, short)) h)
  ]

  -- For a buffer map that can be undone on bytes, a table whose make-up codes follow the 64 terminating
  -- ones, and whose codes have at most 16 bits and are less than 2 ^ 9, and a run of any length: when
  -- the encoder has put out some bits, putspan ends and puts out make-up codes and one terminating
  -- code, for runs that add up to the length.
  pub putspan-Coded :
      (n : ℕ) (s : G3Encoder) (xs : List ℕ)
      → Holds unmap s xs
      → Coded unmap tab n xs (putspan bitmap tab n s)
  unfolding putspan
  putspan-Coded n s xs h = put_span_loop-Coded (suc n) n s xs (omega arith) h
