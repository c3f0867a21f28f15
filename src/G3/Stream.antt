-- ===== src/G3/Stream.antt =====
-- What G3Encoder has put out, as a sequence of bits (faxd/G3Encoder.c++: putBits, flushBits).
use Prim.Native.Nat.{bit_or, bit_and}
use mathlib.Core.Path.{subst}
use mathlib.Core.List.{append-nil, append_assoc}
use native.Mathlib.Nat.{
  pow-le-pow_right, add-zero, add-mul, mod-lt, div-add-mod', div-one, div-div-eq-div-mul,
  mul-add-div_right, div-eq_of_lt,
}
use hylafaxplus.Prelude.{
  ℕ, zero, suc, ◌+◌, ◌-◌, ◌*◌, ◌/◌, ◌%◌, ◌^◌, ◌≤◌, ◌<◌, List, [], ◌∷◌, ◌++◌, ltb, ◌==◌, ◌≡◌, refl,
  sym, ap, ◌∙◌, arith, Bool-cases, inl, inr,
}
use hylafaxplus.G3.{G3Encoder, flush_bits, put_rest, put_high, put_loop, put_bits}
use hylafaxplus.G3.Words.{
  pow-twice, shift-twice, shift-split, high-small, pow-pos, bit_or-fill, bit_and-mask,
}

-- The k lowest digits, the highest first.
unfoldable pub bits_of : ℕ → ℕ → List ℕ
bits_of zero x = []
bits_of (suc k) x = bits_of k (x / 2) ++ x % 2 ∷ []

unfoldable pub bytes_bits : (ℕ → ℕ) → List ℕ → List ℕ
bytes_bits unmap [] = []
bytes_bits unmap (b ∷ bs) = bits_of 8 (unmap b) ++ bytes_bits unmap bs

-- The high digits, and then the low ones.
bits_of-split : (n a b x : ℕ) → n ≡ a + b → bits_of n x ≡ bits_of a (x / 2 ^ b) ++ bits_of b x
unfolding bits_of
bits_of-split n a zero x h =
    let same : n ≡ a = omega (arith, h) in
    ap (λ k. bits_of k x) same ∙ ap (bits_of a) (sym (div-one x)) ∙ sym (append-nil _)
bits_of-split zero a (suc b) x h = absurd (omega arith)
bits_of-split (suc n) a (suc b) x h =
    ap (λ l. l ++ x % 2 ∷ []) (bits_of-split n a b (x / 2) (omega (arith, h)))
    ∙ append_assoc (bits_of a (x / 2 / 2 ^ b)) (bits_of b (x / 2)) (x % 2 ∷ [])
    ∙ ap (λ y. bits_of a y ++ bits_of (suc b) x)
        (div-div-eq-div-mul x 2 (2 ^ b) ∙ ap (λ p. x / p) (sym (pow-twice b)))

-- What stands above the k lowest digits does not matter to them.
bits_of-low : (k q v : ℕ) → bits_of k (q * 2 ^ k + v) ≡ bits_of k v
unfolding bits_of
bits_of-low zero q v = refl
bits_of-low (suc k) q v =
    let e = shift-twice q k in
    let half : (q * 2 ^ suc k + v) / 2 ≡ q * 2 ^ k + v / 2 = omega (arith, e) in
    let digit : (q * 2 ^ suc k + v) % 2 ≡ v % 2 = omega (arith, e) in
    ap (λ y. bits_of k y ++ (q * 2 ^ suc k + v) % 2 ∷ []) half
    ∙ ap (λ l. l ++ (q * 2 ^ suc k + v) % 2 ∷ []) (bits_of-low k q (v / 2))
    ∙ ap (λ d. bits_of k (v / 2) ++ d ∷ []) digit

-- Digits that are put side by side.
bits_of-join :
    (n a b q v : ℕ) → n ≡ a + b → v < 2 ^ b → bits_of n (q * 2 ^ b + v) ≡ bits_of a q ++ bits_of b v
bits_of-join n a b q v h small =
    bits_of-split n a b (q * 2 ^ b + v) h
    ∙ ap (λ y. bits_of a y ++ bits_of b (q * 2 ^ b + v))
        (mul-add-div_right (pow-pos b) q v ∙ ap (λ d. q + d) (div-eq_of_lt small) ∙ add-zero q)
    ∙ ap (λ l. bits_of a q ++ l) (bits_of-low b q v)

join-small : (n a b q v : ℕ) → n ≡ a + b → q < 2 ^ a → v < 2 ^ b → q * 2 ^ b + v < 2 ^ n
join-small n a zero q v h hq hv =
    let same : n ≡ a = omega (arith, h) in
    subst (λ k. q * 1 + v < 2 ^ k) (sym same) (omega (arith, hq, hv))
join-small zero a (suc b) q v h hq hv = absurd (omega arith)
join-small (suc n) a (suc b) q v h hq hv =
    let rest = join-small n a b q (v / 2) (omega (arith, h)) hq (omega (arith, hv, pow-twice b)) in
    omega (arith, rest, pow-twice n, shift-twice q b)

bytes_bits-append :
    (unmap : ℕ → ℕ) (xs ys : List ℕ)
    → bytes_bits unmap (xs ++ ys) ≡ bytes_bits unmap xs ++ bytes_bits unmap ys
unfolding bytes_bits
bytes_bits-append unmap [] ys = refl
bytes_bits-append unmap (x ∷ xs) ys =
    ap (λ l. bits_of 8 (unmap x) ++ l) (bytes_bits-append unmap xs ys)
    ∙ sym (append_assoc (bits_of 8 (unmap x)) (bytes_bits unmap xs) (bytes_bits unmap ys))

-- The encoder has put out the bits xs: whole bytes, which `unmap` gives back, and a part of a byte.
pub record Holds (unmap : ℕ → ℕ) (s : G3Encoder) (xs : List ℕ) : Type 0 where
  pub part : ℕ
  pub free : (1 ≤ s.bit) × (s.bit ≤ 8)
  pub small : part < 2 ^ (8 - s.bit)
  pub data_byte : s.data_byte ≡ part * 2 ^ s.bit
  pub bits : xs ≡ bytes_bits unmap s.out ++ bits_of (8 - s.bit) part

module _ (bitmap unmap : ℕ → ℕ) (inverse : (b : ℕ) → b < 256 → unmap (bitmap b) ≡ b) where
  -- A byte that is full.
  flush_bits-Holds :
      (s : G3Encoder) (xs : List ℕ) (q k v : ℕ)
      → (k ≤ 8) × (q < 2 ^ (8 - k)) × (v < 2 ^ k)
      → s.data_byte ≡ q * 2 ^ k + v
      → xs ≡ bytes_bits unmap s.out ++ bits_of (8 - k) q
      → Holds unmap (flush_bits bitmap s) (xs ++ bits_of k v)
  unfolding flush_bits bytes_bits bits_of
  flush_bits-Holds s xs q k v small e h =
      let whole : s.data_byte < 256 =
        subst (λ d. d < 256) (sym e) (join-small 8 (8 - k) k q v (omega arith) small.1 small.2) in
      record {
        part = 0;
        free = (omega arith, omega arith);
        small = omega arith;
        data_byte = refl;
        bits =
            ap (λ l. l ++ bits_of k v) h
            ∙ append_assoc (bytes_bits unmap s.out) (bits_of (8 - k) q) (bits_of k v)
            ∙ ap (λ l. bytes_bits unmap s.out ++ l)
                (sym (bits_of-join 8 (8 - k) k q v (omega arith) small.2)
                  ∙ ap (bits_of 8) (sym e ∙ sym (inverse s.data_byte whole))
                  ∙ sym (append-nil _))
            ∙ sym (bytes_bits-append unmap s.out (bitmap s.data_byte ∷ []))
            ∙ sym (append-nil _);
      }

  put_high-Holds :
      (bits n : ℕ) (s : G3Encoder) (xs : List ℕ)
      → s.bit < n
      → bits < 2 ^ n
      → Holds unmap s xs
      → Holds unmap (put_high bitmap bits n s) (xs ++ bits_of s.bit (bits / 2 ^ (n - s.bit)))
  unfolding put_high
  put_high-Holds bits n s xs more small h =
      let v = bits / 2 ^ (n - s.bit) in
      let fits : v < 2 ^ s.bit = high-small n s.bit (n - s.bit) bits (omega arith) small in
      flush_bits-Holds _ xs h.part s.bit v (h.free.1, h.small, fits)
        (ap (λ d. bit_or d v) h.data_byte ∙ bit_or-fill s.bit h.part v fits) h.bits

  -- The bits of the last part, with those that the byte has already.
  rest-bits :
      (bits n : ℕ) (s : G3Encoder) (xs : List ℕ)
      → n ≤ s.bit
      → (h : Holds unmap s xs)
      → xs ++ bits_of n bits
        ≡ bytes_bits unmap s.out ++ bits_of (8 - (s.bit - n)) (h.part * 2 ^ n + bits % 2 ^ n)
  rest-bits bits n s xs less h =
      ap (λ l. l ++ bits_of n bits) h.bits
      ∙ append_assoc (bytes_bits unmap s.out) (bits_of (8 - s.bit) h.part) (bits_of n bits)
      ∙ ap (λ l. bytes_bits unmap s.out ++ l)
          (ap (λ l. bits_of (8 - s.bit) h.part ++ l)
              (ap (bits_of n) (sym (div-add-mod' bits (2 ^ n)))
                ∙ bits_of-low n (bits / 2 ^ n) (bits % 2 ^ n))
            ∙ sym (
                bits_of-join (8 - (s.bit - n)) (8 - s.bit) n h.part (bits % 2 ^ n)
                  (omega (arith, h.free)) (mod-lt bits (pow-pos n))))

  rest-data :
      (bits n : ℕ) (s : G3Encoder) (xs : List ℕ)
      → n ≤ s.bit
      → (h : Holds unmap s xs)
      → bit_or s.data_byte (bit_and bits (2 ^ n - 1) * 2 ^ (s.bit - n))
        ≡ (h.part * 2 ^ n + bits % 2 ^ n) * 2 ^ (s.bit - n)
  rest-data bits n s xs less h =
      let w = bits % 2 ^ n in
      let fits : w * 2 ^ (s.bit - n) < 2 ^ s.bit = omega (
        arith,
        join-small s.bit n (s.bit - n) w 0 (omega arith) (mod-lt bits (pow-pos n))
            (pow-pos (s.bit - n)),
      ) in
      ap (λ d. bit_or d (bit_and bits (2 ^ n - 1) * 2 ^ (s.bit - n))) h.data_byte
      ∙ ap (λ m. bit_or (h.part * 2 ^ s.bit) (m * 2 ^ (s.bit - n))) (bit_and-mask n bits)
      ∙ bit_or-fill s.bit h.part _ fits
      ∙ ap (λ x. x + w * 2 ^ (s.bit - n)) (shift-split s.bit n (s.bit - n) h.part (omega arith))
      ∙ sym (add-mul (h.part * 2 ^ n) w (2 ^ (s.bit - n)))

  put_rest-Holds :
      (bits n : ℕ) (s : G3Encoder) (xs : List ℕ)
      → n ≤ s.bit
      → Holds unmap s xs
      → Holds unmap (put_rest bitmap bits n s) (xs ++ bits_of n bits)
  unfolding put_rest bits_of
  put_rest-Holds bits n s xs less h =
      let q = h.part * 2 ^ n + bits % 2 ^ n in
      let small : q < 2 ^ (8 - (s.bit - n)) =
        join-small (8 - (s.bit - n)) (8 - s.bit) n h.part (bits % 2 ^ n) (omega (arith, h.free))
          h.small (mod-lt bits (pow-pos n)) in
      elim (Bool-cases (s.bit - n == 0)) [
        | inl full ↦
            let none_left : s.bit - n ≡ 0 = ground (arith, full) in
            rw full (
              subst (Holds unmap _) (append-nil (xs ++ bits_of n bits)) (
                flush_bits-Holds _ (xs ++ bits_of n bits) q 0 0
                  (omega arith, subst (λ k. q < 2 ^ (8 - k)) none_left small, omega arith)
                  (rest-data bits n s xs less h ∙ ap (λ k. q * 2 ^ k) none_left ∙ omega arith)
                  (rest-bits bits n s xs less h
                    ∙ ap (λ k. bytes_bits unmap s.out ++ bits_of (8 - k) q) none_left)))
        | inr left ↦ rw left (record {
          part = q;
          free = (ground (arith, left), omega (arith, h.free));
          small = small;
          data_byte = rest-data bits n s xs less h;
          bits = rest-bits bits n s xs less h;
        })
      ]

  put_loop-Holds :
      (fuel bits n : ℕ) (s : G3Encoder) (xs : List ℕ)
      → n < fuel
      → (s.bit < n → bits < 2 ^ n)
      → (s.bit + 8 < n → bits < 2 ^ (n - s.bit))
      → n ≤ s.bit + 16
      → Holds unmap s xs
      → Holds unmap (put_loop bitmap fuel bits n s) (xs ++ bits_of n bits)
  unfolding put_loop put_high flush_bits
  put_loop-Holds zero bits n s xs enough one two all h = absurd (omega arith)
  put_loop-Holds (suc fuel) bits n s xs enough one two all h = elim (Bool-cases (ltb s.bit n)) [
    | inl more ↦ rw more (
        subst (Holds unmap _)
          (append_assoc xs (bits_of s.bit (bits / 2 ^ (n - s.bit))) (bits_of (n - s.bit) bits)
            ∙ ap (λ l. xs ++ l)
                (sym (bits_of-split n s.bit (n - s.bit) bits (ground (arith, more)))))
          (put_loop-Holds fuel bits (n - s.bit) (put_high bitmap bits n s) _
            (ground (arith, more, h.free.0)) (λ over. two (omega (arith, over)))
            (λ over. absurd (omega (arith, over, all))) (omega (arith, all))
            (put_high-Holds bits n s xs (ground (arith, more)) (one (ground (arith, more))) h)))
    | inr less ↦ rw less (put_rest-Holds bits n s xs (ground (arith, less)) h)
  ]

  -- For a buffer map that can be undone on bytes, and a value of at most 16 bits that is less than
  -- 2 ^ 9: when the encoder has put out some bits, then after putBits it has put out these and the
  -- bits of the value; what it holds back is less than a byte.
  pub put_bits-Holds :
      (bits n : ℕ) (s : G3Encoder) (xs : List ℕ)
      → n ≤ 16
      → bits < 2 ^ n
      → bits < 512
      → Holds unmap s xs
      → Holds unmap (put_bits bitmap bits n s) (xs ++ bits_of n bits)
  unfolding put_bits
  put_bits-Holds bits n s xs short small low h =
      put_loop-Holds (suc n) bits n s xs (omega arith) (λ _. small)
        (λ over. omega (
          arith,
          low,
          pow-le-pow_right {n = 2} (omega arith) {i = 9} {j = n - s.bit} (omega (arith, over)),
        ))
        (omega arith) h
