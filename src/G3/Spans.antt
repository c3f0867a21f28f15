-- ===== src/G3/Spans.antt =====
-- The search for the end of a run (G3Encoder::findspan of faxd/G3Encoder.c++), against a scan of the
-- pixels one by one.
use native.Mathlib.Nat.{add-zero, zero-add}
use hylafaxplus.Prelude.{
  ℕ, zero, suc, ◌+◌, ◌-◌, ◌*◌, ◌/◌, ◌%◌, ◌^◌, ◌≤◌, ◌<◌, true, false, ◌&&◌, not, ltb, leb, ◌==◌,
  if◌then◌else◌, ◌≡◌, refl, sym, ap, ◌∙◌, arith, Bool-cases, ◌⊎◌, inl, inr,
}
use hylafaxplus.G3.Words.{shift-twice}
use hylafaxplus.G3.Table.{run, bit_at, IsRunTable}
use hylafaxplus.G3.{part_span, scan, findspan}

abbrev pub pixel : (ℕ → ℕ) → ℕ → ℕ → ℕ
pixel bytes p i = bit_at (bytes (p + i / 8)) (i % 8)

pub run-le : (f : ℕ → ℕ) (c i k : ℕ) → run f c i k ≤ k
unfolding run
run-le f c i zero = omega arith
run-le f c i (suc k) = ground (arith, run-le f c (suc i) k)

-- A run that ends by the range, and one that goes on.
pub run-split :
    (f : ℕ → ℕ) (c i k m n j : ℕ)
    → n ≡ k + m
    → j ≡ i + k
    → run f c i n ≡ (if ltb (run f c i k) k then run f c i k else k + run f c j m)
unfolding run
run-split f c i zero m n j e h =
    let same : n ≡ m = omega (arith, e) in
    let at : i ≡ j = omega (arith, h) in
    ap (run f c i) same ∙ ap (λ x. run f c x m) at ∙ omega arith
run-split f c i (suc k) m zero j e h = absurd (omega arith)
run-split f c i (suc k) m (suc n) j e h =
    ground (arith, run-split f c (suc i) k m n j (omega (arith, e)) (omega (arith, h)))

-- A run in a shorter range.
pub run-cut :
    (f : ℕ → ℕ) (c i k m : ℕ)
    → m ≤ k
    → run f c i m ≡ (if ltb m (run f c i k) then m else run f c i k)
unfolding run
run-cut f c i k zero h = ground arith
run-cut f c i zero (suc m) h = absurd (omega arith)
run-cut f c i (suc k) (suc m) h = ground (arith, run-cut f c (suc i) k m (omega arith))

pub run-shift :
    (f g : ℕ → ℕ) (c i j k : ℕ)
    → ((n : ℕ) → n < k → f (i + n) ≡ g (j + n))
    → run f c i k ≡ run g c j k
unfolding run
run-shift f g c i j zero same = refl
run-shift f g c i j (suc k) same =
    let here : f i ≡ g j = ap f (sym (add-zero i)) ∙ same 0 (omega arith) ∙ ap g (add-zero j) in
    let step : (x n : ℕ) → suc x + n ≡ x + suc n = λ x n. omega arith in
    let rest =
      run-shift f g c (suc i) (suc j) k
        (λ n less. ap f (step i n) ∙ same (suc n) (omega (arith, less)) ∙ ap g (sym (step j n))) in
    ground (arith, here, rest)

next-bit : (b i : ℕ) → b < 256 → i < 7 → bit_at (b * 2 % 256) i ≡ bit_at b (suc i)
next-bit b zero small less = omega (arith, small)
next-bit b (suc zero) small less = omega (arith, small)
next-bit b (suc (suc zero)) small less = omega (arith, small)
next-bit b (suc (suc (suc zero))) small less = omega (arith, small)
next-bit b (suc (suc (suc (suc zero)))) small less = omega (arith, small)
next-bit b (suc (suc (suc (suc (suc zero))))) small less = omega (arith, small)
next-bit b (suc (suc (suc (suc (suc (suc zero)))))) small less = omega (arith, small)
next-bit b (suc (suc (suc (suc (suc (suc (suc i))))))) small less = absurd (omega (arith, less))

pair-≡ : {A B : Type 0} {a c : A} {b d : B} → a ≡ c → b ≡ d → ◌≡◌ {A = A × B} (a, b) (c, d)
pair-≡ {A} {B} {a} {c} {b} {d} h k = λ i. (h i, k i)

-- The bits of a byte that is shifted to the left: those further right.
shifted-bit : (n b i : ℕ) → b < 256 → n + i < 8 → bit_at (b * 2 ^ n % 256) i ≡ bit_at b (n + i)
shifted-bit zero b i small less =
    let e : b * 1 % 256 ≡ b = omega (arith, small) in
    let k : i ≡ 0 + i = omega arith in ap (λ x. bit_at x i) e ∙ ap (bit_at b) k
shifted-bit (suc n) b i small less =
    let e : b * 2 ^ suc n % 256 ≡ (b * 2 ^ n % 256) * 2 % 256 = omega (arith, shift-twice b n) in
    let k : n + suc i ≡ suc n + i = omega arith in
    ap (λ x. bit_at x i) e
    ∙ next-bit (b * 2 ^ n % 256) i (omega arith) (omega (arith, less))
    ∙ shifted-bit n b (suc i) small (omega (arith, less))
    ∙ ap (bit_at b) k

module _ (bytes : ℕ → ℕ) (small : (p : ℕ) → bytes p < 256) (c : ℕ) (tab : ℕ → ℕ)
    (table : IsRunTable c tab) where
  -- The part of a byte from its bit n on.
  part_span-run :
      (p n bits : ℕ)
      → n < 8
      → part_span bytes tab p n bits
        ≡ run (bit_at (bytes p)) c n (if ltb bits (8 - n) then bits else 8 - n)
  unfolding part_span
  part_span-run p n bits less =
      let x = bytes p * 2 ^ n % 256 in
      let m = if ltb bits (8 - n) then bits else 8 - n in
      let cut = run-cut (bit_at x) c 0 8 m (ground arith) in
      let same : run (bit_at x) c 0 m ≡ run (bit_at (bytes p)) c n m =
        run-shift (bit_at x) (bit_at (bytes p)) c 0 n m (λ i inside.
          ap (bit_at x) (zero-add i)
          ∙ shifted-bit n (bytes p) i (small p) (ground (arith, inside))) in
      ground (arith, table x (omega arith), cut, same)

  -- The same in the pixels of a row.
  pub byte-run :
      (base p n k : ℕ)
      → n + k ≤ 8
      → run (bit_at (bytes (base + p))) c n k ≡ run (pixel bytes base) c (8 * p + n) k
  byte-run base p n k inside =
      run-shift (bit_at (bytes (base + p))) (pixel bytes base) c n (8 * p + n) k (λ i less.
        let e : (8 * p + n + i) / 8 ≡ p = omega (arith, inside, less) in
        let r : (8 * p + n + i) % 8 ≡ n + i = omega (arith, inside, less) in
        sym (
          ap (λ x. bit_at (bytes (base + x)) ((8 * p + n + i) % 8)) e
          ∙ ap (bit_at (bytes (base + p))) r))

  scan-run :
      (fuel base p span bits : ℕ)
      → bits ≤ fuel
      → let m = run (pixel bytes base) c (8 * p) bits in
        scan bytes fuel tab (base + p) span bits ≡ (span + m, base + (8 * p + m) / 8)
  unfolding scan run
  scan-run zero base p span bits enough =
      let none_left : bits ≡ 0 = omega (arith, enough) in
      let gone : run (pixel bytes base) c (8 * p) bits ≡ 0 =
        ap (run (pixel bytes base) c (8 * p)) none_left in
      pair-≡ (omega (arith, gone)) (omega (arith, gone))
  scan-run (suc fuel) base p span bits enough =
      let byte : tab (bytes (base + p)) ≡ run (pixel bytes base) c (8 * p) 8 =
        table (bytes (base + p)) (small (base + p))
        ∙ byte-run base p 0 8 (omega arith)
        ∙ ap (λ i. run (pixel bytes base) c i 8) (add-zero (8 * p)) in
      let most = run-le (pixel bytes base) c (8 * p) 8 in
      elim (Bool-cases (leb 8 bits)) [
        | inl full ↦
            let whole =
              run-split (pixel bytes base) c (8 * p) 8 (bits - 8) bits (8 * suc p)
                (ground (arith, full)) (omega arith) in
            elim (Bool-cases (ltb (tab (bytes (base + p))) 8)) [
              | inl ends ↦
                  rw (full, ends)
                    (pair-≡ (ground (arith, byte, whole, ends)) (ground (arith, byte, whole, ends)))
              | inr on ↦
                  rw (full, on)
                    (let rest =
                        scan-run fuel base (suc p) (span + tab (bytes (base + p)))
                          (bits - tab (bytes (base + p))) (ground (arith, on, enough)) in
                      let eight : tab (bytes (base + p)) ≡ 8 = ground (arith, on, byte, most) in
                      let there : run (pixel bytes base) c (8 * suc p)
                            (bits - tab (bytes (base + p)))
                          ≡ run (pixel bytes base) c (8 * suc p) (bits - 8) =
                        ap (λ k. run (pixel bytes base) c (8 * suc p) (bits - k)) eight in
                      let on_next : suc (base + p) ≡ base + suc p = omega arith in
                      ap
                        (λ x.
                          scan bytes fuel tab x (span + tab (bytes (base + p)))
                            (bits - tab (bytes (base + p))))
                        on_next
                      ∙ rest
                      ∙ pair-≡ (ground (arith, there, whole, byte, eight))
                          (ground (arith, there, whole, byte, eight)))
            ]
        | inr part ↦
            let cut = run-cut (pixel bytes base) c (8 * p) 8 bits (ground (arith, part)) in
            elim (Bool-cases (ltb 0 bits)) [
              | inl some_left ↦
                  rw (part, some_left)
                    (pair-≡ (ground (arith, byte, cut)) (ground (arith, byte, cut, part)))
              | inr no_more ↦
                  rw (part, no_more)
                    (pair-≡ (ground (arith, cut, no_more)) (ground (arith, cut, no_more)))
            ]
      ]

  -- The part of the byte that the range begins in, in the pixels of the row.
  part_span-pixels :
      (base bs bits : ℕ)
      → let k = if ltb bits (8 - bs % 8) then bits else 8 - bs % 8 in
        part_span bytes tab (base + bs / 8) (bs % 8) bits ≡ run (pixel bytes base) c bs k
  part_span-pixels base bs bits =
      let k = if ltb bits (8 - bs % 8) then bits else 8 - bs % 8 in
      let at : 8 * (bs / 8) + bs % 8 ≡ bs = omega arith in
      part_span-run (base + bs / 8) (bs % 8) bits (omega arith)
      ∙ byte-run base (bs / 8) (bs % 8) k (ground arith)
      ∙ ap (λ i. run (pixel bytes base) c i k) at

  -- The range ends within the byte, or goes beyond it.
  short-part :
      (base bs bits : ℕ)
      → ltb bits (8 - bs % 8) ≡ true
      → part_span bytes tab (base + bs / 8) (bs % 8) bits ≡ run (pixel bytes base) c bs bits
  short-part base bs bits h =
      part_span-pixels base bs bits
      ∙ ap (λ b. run (pixel bytes base) c bs (if b then bits else 8 - bs % 8)) h

  long-part :
      (base bs bits : ℕ)
      → ltb bits (8 - bs % 8) ≡ false
      → (part_span bytes tab (base + bs / 8) (bs % 8) bits
          ≡ run (pixel bytes base) c bs (8 - bs % 8))
        × (run (pixel bytes base) c bs bits ≡ (
            if ltb (run (pixel bytes base) c bs (8 - bs % 8)) (8 - bs % 8)
            then run (pixel bytes base) c bs (8 - bs % 8)
            else 8 - bs % 8 + run (pixel bytes base) c (8 * suc (bs / 8)) (bits - (8 - bs % 8))))
  long-part base bs bits h = (
    part_span-pixels base bs bits
        ∙ ap (λ b. run (pixel bytes base) c bs (if b then bits else 8 - bs % 8)) h,
    run-split (pixel bytes base) c bs (8 - bs % 8) (bits - (8 - bs % 8)) bits (8 * suc (bs / 8))
        (ground (arith, h)) (omega arith),
  )

  pub ends-in-byte :
      (base bs bits : ℕ)
      → let span = part_span bytes tab (base + bs / 8) (bs % 8) bits in
        bs % 8 + span < 8 → span ≡ run (pixel bytes base) c bs bits
  ends-in-byte base bs bits h = elim (Bool-cases (ltb bits (8 - bs % 8))) [
    | inl short ↦ short-part base bs bits short
    | inr long ↦ let (part, whole) = long-part base bs bits long in ground (arith, part, whole, h)
  ]

  -- The run fills the byte from its bit n on.
  pub fills-byte :
      (base bs bits : ℕ)
      → let span = part_span bytes tab (base + bs / 8) (bs % 8) bits in
        8 ≤ bs % 8 + span
        → (span ≡ 8 - bs % 8)
          × (run (pixel bytes base) c bs bits
              ≡ span + run (pixel bytes base) c (8 * suc (bs / 8)) (bits - span))
  fills-byte base bs bits h = elim (Bool-cases (ltb bits (8 - bs % 8))) [
    | inl short ↦ absurd (
        ground
          (arith, short, short-part base bs bits short, run-le (pixel bytes base) c bs bits, h))
    | inr long ↦
        let (part, whole) = long-part base bs bits long in
        let n = bs % 8 in
        let span = part_span bytes tab (base + bs / 8) (bs % 8) bits in
        let full : span ≡ 8 - n = omega (arith, part, run-le (pixel bytes base) c bs (8 - n), h) in
        let there = ap (λ k. run (pixel bytes base) c (8 * suc (bs / 8)) (bits - k)) full in
        (full, ground (arith, part, whole, there, full))
  ]

  -- For bytes less than 256, and a table of the runs of one colour in a byte: findspan gives the
  -- number of pixels of that colour before the first of the other or the end of the range, and leaves
  -- the pointer at the byte behind them.
  pub findspan-run :
      (base bs be : ℕ)
      → let m = run (pixel bytes base) c bs (be - bs) in
        findspan bytes tab (base + bs / 8) bs be ≡ (m, base + (bs + m) / 8)
  unfolding findspan
  findspan-run base bs be =
      let bits = be - bs in
      let n = bs % 8 in
      let span = part_span bytes tab (base + bs / 8) n bits in
      elim (Bool-cases (ltb 0 bits && not (n == 0))) [
        | inl inside ↦ elim (Bool-cases (ltb (n + span) 8)) [
          | inl ends ↦
              let all = ends-in-byte base bs bits (ground (arith, ends)) in
              rw (inside, ends) (pair-≡ all (ground (arith, all, ends)))
          | inr on ↦
              let (full, whole) = fills-byte base bs bits (ground (arith, on)) in
              let step : suc (base + bs / 8) ≡ base + suc (bs / 8) = omega arith in
              rw (inside, on)
                (ap (λ x. scan bytes bits tab x span (bits - span)) step
                  ∙ scan-run bits base (suc (bs / 8)) span (bits - span) (omega arith)
                  ∙ pair-≡ (sym whole) (omega (arith, full, whole)))
        ]
        | inr aligned ↦
            let same : run (pixel bytes base) c (8 * (bs / 8)) bits
                ≡ run (pixel bytes base) c bs bits =
              start base bs bits (ground (arith, aligned)) in
            let none_or : (bits ≡ 0) ⊎ (n ≡ 0) = ground (arith, aligned) in
            rw aligned (
              scan-run bits base (bs / 8) 0 bits (omega arith)
              ∙ pair-≡ (omega (arith, same))
                  (ground (arith, same, none_or, run-le (pixel bytes base) c bs bits)))
      ]
    where
      start :
          (base bs bits : ℕ)
          → (bits ≡ 0) ⊎ (bs % 8 ≡ 0)
          → run (pixel bytes base) c (8 * (bs / 8)) bits ≡ run (pixel bytes base) c bs bits
      start base bs bits (inl gone) = omega (
        arith,
        gone,
        run-le (pixel bytes base) c (8 * (bs / 8)) bits,
        run-le (pixel bytes base) c bs bits,
      )
      start base bs bits (inr here) =
          let at : 8 * (bs / 8) ≡ bs = omega (arith, here) in
          ap (λ i. run (pixel bytes base) c i bits) at
