-- ===== src/G3/Finddiff/Found.antt =====
-- The search by bytes and long words against a scan of the pixels one by one (G3Encoder::find0span and
-- find1span of faxd/G3Encoder.c++).
use hylafaxplus.Prelude.{
  ℕ, zero, suc, ◌+◌, ◌-◌, ◌*◌, ◌/◌, ◌%◌, ◌≤◌, ◌<◌, Bool, true, false, ◌&&◌, not, ltb, leb, ◌==◌,
  if◌then◌else◌, ◌≡◌, ◌≢◌, refl, sym, ap, ◌∙◌, arith, Bool-cases, ◌⊎◌, inl, inr,
}
use hylafaxplus.G3.Table.{
  run, bit_at, IsRunTable, zeroruns, oneruns, zeroruns-IsRunTable, oneruns-IsRunTable, all_below,
  all_below_sound,
}
use hylafaxplus.G3.{part_span}
use hylafaxplus.G3.Spans.{pixel, run-le, run-split, run-cut, run-shift, ends-in-byte, fills-byte}
use hylafaxplus.G3.Finddiff.{
  Search, found, searching, byte_step, to_aligned, is_full_word, words, full_bytes, and_then,
  long_part, find_rest, find_within, find_colour, result, find0span, find1span,
}

-- The only byte whose run is the whole byte is the full one.
abbrev IsFull : ℕ → (ℕ → ℕ) → Type 0
IsFull full tab = (b : ℕ) → b < 256 → (b ≡ full → tab b ≡ 8) × (b ≢ full → tab b < 8)

-- The pixels by their place in memory.
abbrev place : (ℕ → ℕ) → ℕ → ℕ
place bytes i = bit_at (bytes (i / 8)) (i % 8)

module _ (bytes : ℕ → ℕ) (small : (p : ℕ) → bytes p < 256) (c full : ℕ) (tab : ℕ → ℕ)
    (table : IsRunTable c tab) (only : IsFull full tab) where
  -- What is left of the run from byte p on.
  abbrev left : ℕ → ℕ → ℕ
  left p bits = run (place bytes) c (8 * p) bits

  whole-byte : (p : ℕ) → tab (bytes p) ≡ run (place bytes) c (8 * p) 8
  whole-byte p =
      table (bytes p) (small p)
      ∙ run-shift (bit_at (bytes p)) (place bytes) c 0 (8 * p) 8 (λ i less.
        let e : (8 * p + i) / 8 ≡ p = omega (arith, less) in
        let r : (8 * p + i) % 8 ≡ 0 + i = omega (arith, less) in
        sym (ap (λ x. bit_at (bytes x) ((8 * p + i) % 8)) e ∙ ap (bit_at (bytes p)) r))

  left-byte :
      (p bits : ℕ)
      → 8 ≤ bits
      → left p bits ≡ (if ltb (tab (bytes p)) 8 then tab (bytes p) else 8 + left (suc p) (bits - 8))
  left-byte p bits h =
      let split =
        run-split (place bytes) c (8 * p) 8 (bits - 8) bits (8 * suc p) (omega (arith, h))
          (omega arith) in
      ground (arith, split, whole-byte p)

  left-full :
      (p bits : ℕ) → 8 ≤ bits → (bytes p == full) ≡ true → left p bits ≡ 8 + left (suc p) (bits - 8)
  left-full p bits h on =
      ground (arith, left-byte p bits h, (only (bytes p) (small p)).0 (ground (arith, on)))

  left-end : (p bits : ℕ) → 8 ≤ bits → (bytes p == full) ≡ false → left p bits ≡ tab (bytes p)
  left-end p bits h off =
      ground (arith, left-byte p bits h, (only (bytes p) (small p)).1 (λ e. ground (arith, off, e)))

  -- A word of k full bytes.
  left-word :
      (k p bits : ℕ)
      → is_full_word full tab bytes k p ≡ true
      → 8 * k ≤ bits
      → left p bits ≡ 8 * k + left (p + k) (bits - 8 * k)
  unfolding is_full_word
  left-word zero p bits h enough =
      let at : p ≡ p + 0 = omega arith in
      let same : bits ≡ bits - 0 = omega arith in
      ap (λ x. left x bits) at ∙ ap (left (p + 0)) same ∙ omega arith
  left-word (suc k) p bits h enough =
      let at : suc p + k ≡ p + suc k = omega arith in
      let rest : bits - 8 - 8 * k ≡ bits - 8 * suc k = omega arith in
      let on = left-full p bits (omega (arith, enough)) (ground (arith, h)) in
      let after = left-word k (suc p) (bits - 8) (ground (arith, h)) (omega (arith, enough)) in
      let there = ap (λ x. left x (bits - 8 - 8 * k)) at ∙ ap (left (p + suc k)) rest in
      omega (arith, on, after, there)

  -- The search has the right answer in sight.
  abbrev Good : ℕ → Search → Type 0
  Good total (found n) = n ≡ total
  Good total (searching p span bits) = span + left p bits ≡ total

  and_then-Good :
      (total : ℕ) (f : ℕ → ℕ → ℕ → Search) (s : Search)
      → Good total s
      → ((p span bits : ℕ) → span + left p bits ≡ total → Good total (f p span bits))
      → Good total (and_then full tab bytes f s)
  unfolding and_then
  and_then-Good total f (found n) h next = h
  and_then-Good total f (searching p span bits) h next = next p span bits h

  byte_step-Good :
      (total : ℕ) (next : ℕ → ℕ → ℕ → Search) (p span bits : ℕ)
      → 8 ≤ bits
      → span + left p bits ≡ total
      → (span + 8 + left (suc p) (bits - 8) ≡ total
          → Good total (next (suc p) (span + 8) (bits - 8)))
      → Good total (byte_step full tab bytes next p span bits)
  unfolding byte_step
  byte_step-Good total next p span bits enough h go = elim (Bool-cases (bytes p == full)) [
    | inl on ↦ rw on (go (omega (arith, h, left-full p bits enough on)))
    | inr off ↦ rw off (omega (arith, h, left-end p bits enough off))
  ]

  to_aligned-Good :
      (fuel total p span bits : ℕ)
      → 8 * fuel ≤ bits
      → span + left p bits ≡ total
      → Good total (to_aligned full tab bytes fuel p span bits)
  unfolding to_aligned
  to_aligned-Good zero total p span bits enough h = h
  to_aligned-Good (suc fuel) total p span bits enough h = elim (Bool-cases (p % 8 == 0)) [
    | inl at ↦ rw at h
    | inr off ↦ rw off (
        byte_step-Good total (to_aligned full tab bytes fuel) p span bits (omega (arith, enough)) h
          (λ k. to_aligned-Good fuel total (suc p) (span + 8) (bits - 8) (omega (arith, enough)) k))
  ]

  words-Good :
      (fuel total p span bits : ℕ)
      → span + left p bits ≡ total
      → Good total (words full tab bytes fuel p span bits)
  unfolding words
  words-Good zero total p span bits h = h
  words-Good (suc fuel) total p span bits h =
      elim (Bool-cases (leb 64 bits && is_full_word full tab bytes 8 p)) [
        | inl on ↦
            let word = left-word 8 p bits (ground (arith, on)) (ground (arith, on)) in
            rw on (words-Good fuel total (p + 8) (span + 64) (bits - 64) (omega (arith, h, word)))
        | inr off ↦ rw off h
      ]

  abbrev IsFound : ℕ → Search → Type 0
  IsFound total (found n) = n ≡ total
  IsFound total (searching p span bits) = true ≡ false

  -- The partial byte on the right.
  left-part :
      (p bits : ℕ)
      → bits < 8
      → left p bits ≡ (if ltb bits (tab (bytes p)) then bits else tab (bytes p))
  left-part p bits h =
      ground (arith, run-cut (place bytes) c (8 * p) 8 bits (omega (arith, h)), whole-byte p)

  full_bytes-IsFound :
      (fuel total p span bits : ℕ)
      → bits < fuel
      → span + left p bits ≡ total
      → IsFound total (full_bytes full tab bytes fuel p span bits)
  unfolding full_bytes byte_step
  full_bytes-IsFound zero total p span bits enough h = absurd (omega (arith, enough))
  full_bytes-IsFound (suc fuel) total p span bits enough h = elim (Bool-cases (leb 8 bits)) [
    | inl whole ↦
        let many : 8 ≤ bits = ground (arith, whole) in
        elim (Bool-cases (bytes p == full)) [
          | inl on ↦
              rw (whole, on)
                (full_bytes-IsFound fuel total (suc p) (span + 8) (bits - 8)
                  (omega (arith, enough, many)) (omega (arith, h, left-full p bits many on)))
          | inr off ↦ rw (whole, off) (omega (arith, h, left-end p bits many off))
        ]
    | inr part ↦
        let last = left-part p bits (ground (arith, part)) in
        elim (Bool-cases (ltb 0 bits)) [
          | inl some_left ↦ rw (part, some_left) (ground (arith, h, last))
          | inr no_more ↦ rw (part, no_more) (ground (arith, h, last, no_more))
        ]
  ]

  long_part-Good :
      (total p span bits : ℕ)
      → span + left p bits ≡ total
      → Good total (long_part full tab bytes p span bits)
  unfolding long_part
  long_part-Good total p span bits h = elim (Bool-cases (leb 128 bits)) [
    | inl long ↦ rw long (
        and_then-Good total (λ p span bits. words full tab bytes bits p span bits) _
          (to_aligned-Good 8 total p span bits (ground (arith, long)) h)
          (λ p span bits k. words-Good bits total p span bits k))
    | inr short ↦ rw short h
  ]

  IsFound-after :
      (total : ℕ) (s : Search)
      → Good total s
      → IsFound total (
          and_then full tab bytes
            (λ p span bits. full_bytes full tab bytes (suc bits) p span bits)
            s)
  unfolding and_then
  IsFound-after total (found n) h = h
  IsFound-after total (searching p span bits) h =
      full_bytes-IsFound (suc bits) total p span bits (omega arith) h

  -- For a table of the runs of a colour in a byte, which are shorter in every byte but the full one:
  -- the search from the start of a byte ends, and adds to the span the number of pixels of that colour
  -- before the first of the other or the end of the range.
  pub find_rest-IsFound :
      (p span bits : ℕ) → IsFound (span + left p bits) (find_rest full tab bytes p span bits)
  unfolding find_rest
  find_rest-IsFound p span bits =
      IsFound-after (span + left p bits) _ (long_part-Good _ p span bits refl)

  -- The pixels from the start of a byte on, by their place.
  left-pixels : (bp m k : ℕ) → run (pixel bytes bp) c (8 * m) k ≡ left (bp + m) k
  left-pixels bp m k =
      run-shift (pixel bytes bp) (place bytes) c (8 * m) (8 * (bp + m)) k (λ i less.
        let e : bp + (8 * m + i) / 8 ≡ (8 * (bp + m) + i) / 8 = omega arith in
        let r : (8 * m + i) % 8 ≡ (8 * (bp + m) + i) % 8 = omega arith in
        ap (λ x. bit_at (bytes x) ((8 * m + i) % 8)) e
        ∙ ap (bit_at (bytes ((8 * (bp + m) + i) / 8))) r)

  result-IsFound : (total : ℕ) (s : Search) → IsFound total s → result s ≡ total
  unfolding result
  result-IsFound total (found n) h = h
  result-IsFound total (searching p span bits) h = cc

  find_within-run :
      (bp bs be : ℕ)
      → result (find_within full tab bytes bp bs be) ≡ run (pixel bytes bp) c bs (be - bs)
  unfolding find_within
  find_within-run bp bs be =
      let bits = be - bs in
      let p = bp + bs / 8 in
      let span = part_span bytes tab p (bs % 8) bits in
      elim (Bool-cases (ltb 0 bits && not (bs % 8 == 0))) [
        | inl inside ↦ elim (Bool-cases (ltb (bs % 8 + span) 8)) [
          | inl ends ↦
              rw (inside, ends)
                (unfold result in
                  ends-in-byte bytes small c tab table bp bs bits (ground (arith, ends)))
          | inr on ↦
              let (filled, whole) =
                fills-byte bytes small c tab table bp bs bits (ground (arith, on)) in
              let at : suc p ≡ bp + suc (bs / 8) = omega arith in
              rw (inside, on)
                (result-IsFound _ _ (find_rest-IsFound (suc p) span (bits - span))
                  ∙ ap (λ x. span + left x (bits - span)) at
                  ∙ ap (λ x. span + x) (sym (left-pixels bp (suc (bs / 8)) (bits - span)))
                  ∙ sym whole)
        ]
        | inr aligned ↦ rw aligned (
            result-IsFound _ _ (find_rest-IsFound p 0 bits)
            ∙ ap (λ x. 0 + x) (sym (left-pixels bp (bs / 8) bits))
            ∙ from-start bp bs bits (ground (arith, aligned)))
      ]
    where
      from-start :
          (bp bs bits : ℕ)
          → (bits ≡ 0) ⊎ (bs % 8 ≡ 0)
          → 0 + run (pixel bytes bp) c (8 * (bs / 8)) bits ≡ run (pixel bytes bp) c bs bits
      from-start bp bs bits (inl gone) = omega (
        arith,
        gone,
        run-le (pixel bytes bp) c (8 * (bs / 8)) bits,
        run-le (pixel bytes bp) c bs bits,
      )
      from-start bp bs bits (inr here) =
          let at : 8 * (bs / 8) ≡ bs = omega (arith, here) in
          omega (arith, ap (λ i. run (pixel bytes bp) c i bits) at)

  find_colour-run :
      (bp bs be : ℕ)
      → bs ≤ be
      → result (find_colour full tab bytes bp bs be) ≡ run (pixel bytes bp) c bs (be - bs)
  unfolding find_colour
  find_colour-run bp bs be ordered =
      let within : ltb be bs ≡ false = ground (arith, ordered) in
      rw within (find_within-run bp bs be)

-- The tables tell the full byte from the others.
abbrev is_full_at : ℕ → (ℕ → ℕ) → ℕ → Bool
is_full_at full tab b = if b == full then tab b == 8 else ltb (tab b) 8

IsFull-below :
    (full : ℕ) (tab : ℕ → ℕ) → all_below 256 (is_full_at full tab) ≡ true → IsFull full tab
IsFull-below full tab h b less =
    let at = all_below_sound 256 (is_full_at full tab) b h less in
    ((λ e. ground (arith, at, e)), (λ e. ground (arith, at, e)))

zeroruns-IsFull : IsFull 0 zeroruns
unfolding zeroruns all_below
zeroruns-IsFull = IsFull-below 0 zeroruns refl

oneruns-IsFull : IsFull 255 oneruns
unfolding oneruns all_below
oneruns-IsFull = IsFull-below 255 oneruns refl

-- For bytes less than 256 and a range that does not end before it begins: find0span and find1span,
-- which work by bytes and by long words where the address allows it, give the number of white and of
-- black pixels before the first of the other colour or the end of the range.
pub find_span-run :
    (bytes : ℕ → ℕ)
    → ((p : ℕ) → bytes p < 256)
    → (bp bs be : ℕ) → bs ≤ be
    → (find0span bytes bp bs be ≡ run (pixel bytes bp) 0 bs (be - bs))
      × (find1span bytes bp bs be ≡ run (pixel bytes bp) 1 bs (be - bs))
unfolding find0span find1span
find_span-run bytes small bp bs be ordered = (
  find_colour-run bytes small 0 0 zeroruns zeroruns-IsRunTable zeroruns-IsFull bp bs be ordered,
  find_colour-run bytes small 1 255 oneruns oneruns-IsRunTable oneruns-IsFull bp bs be ordered,
)
