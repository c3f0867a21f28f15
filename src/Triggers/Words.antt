-- ===== src/Triggers/Words.antt =====
-- The search for a word of the bitmap with a free bit, and for its byte (Trigger::tidNextFree of
-- faxd/Trigger.c++).
use mathlib.Core.Path.{subst}
use hylafaxplus.Prelude.{
  ℕ, zero, suc, ◌+◌, ◌-◌, ◌*◌, ◌/◌, ◌%◌, ◌<◌, true, false, ◌==◌, ◌≡◌, ◌≢◌, refl, sym, ap, ◌∙◌,
  arith, Bool-cases, ◌⊎◌, inl, inr,
}
use hylafaxplus.Triggers.{is_full, next_word, find_word, free_byte}
use hylafaxplus.Triggers.Bitmap.{bit, all_set}

-- The bit of an identifier: 1 if it is taken.
abbrev pub taken : (ℕ → ℕ) → ℕ → ℕ
taken bytes i = bit (i % 8) (bytes (i / 8))

-- The words from the one behind the rotor on, up to the k-th.
AllFull : (ℕ → ℕ) → ℕ → ℕ → Type 0
AllFull bytes rotor k = (j : ℕ) → j < k → is_full bytes ((rotor + 1 + j) % 128) ≡ true

next-AllFull :
    (bytes : ℕ → ℕ) (rotor k : ℕ)
    → AllFull bytes rotor k
    → is_full bytes ((rotor + 1 + k) % 128) ≡ true
    → AllFull bytes rotor (suc k)
unfolding AllFull
next-AllFull bytes rotor k full h j less = elim (Bool-cases (j == k)) [
  | inl same ↦
      let at : k ≡ j = ground (arith, same) in
      subst (λ j. is_full bytes ((rotor + 1 + j) % 128) ≡ true) at h
  | inr below ↦ full j (ground (arith, below, less))
]

step : (rotor k : ℕ) → ((rotor + 1 + k) % 128 + 1) % 128 ≡ (rotor + 1 + suc k) % 128
step rotor k = omega arith

next_word_lem :
    (fuel : ℕ) (bytes : ℕ → ℕ) (rotor k : ℕ)
    → rotor < 128
    → k < 128
    → fuel + k ≡ 128
    → AllFull bytes rotor k
    → (w : ℕ) × (next_word fuel bytes rotor ((rotor + 1 + k) % 128) ≡ w)
      × (w < 128)
      × ((is_full bytes w ≡ false) ⊎ ((w ≡ rotor) × AllFull bytes rotor 127))
unfolding next_word AllFull
next_word_lem zero bytes rotor k hr hk e full = absurd (omega (arith, hk, e))
next_word_lem (suc fuel) bytes rotor k hr hk e full =
    let r = (rotor + 1 + k) % 128 in
    elim (Bool-cases (r == rotor)) [
      | inl back ↦ (
        rotor,
        rw back (ground (arith, back)),
        hr,
        inr (refl, λ j less. full j (ground (arith, hr, hk, less, back))),
      )
      | inr on ↦ elim (Bool-cases (is_full bytes r)) [
        | inl more ↦
            (let (w, at, small, end) =
                next_word_lem fuel bytes rotor (suc k) hr (ground (arith, hr, hk, on))
                  (omega (arith, e)) (next-AllFull bytes rotor k full more) in
              (w, rw (on, more) (ap (next_word fuel bytes rotor) (step rotor k) ∙ at), small, end))
        | inr free ↦ (r, rw (on, free) refl, omega arith, inl free)
      ]
    ]

-- A word that is not full, or the rotor again when all are.
pub find_word_lem :
    (bytes : ℕ → ℕ) (rotor : ℕ)
    → rotor < 128
    → (w : ℕ) × (find_word bytes rotor ≡ w)
      × (w < 128)
      × ((is_full bytes w ≡ false) ⊎ ((w ≡ rotor) × ((v : ℕ) → v < 128 → is_full bytes v ≡ true)))
unfolding find_word AllFull
find_word_lem bytes rotor hr = elim (Bool-cases (is_full bytes rotor)) [
  | inl full ↦
      (let (w, at, small, end) =
          next_word_lem 128 bytes rotor 0 hr (omega arith) (omega arith)
            (λ j less. absurd (omega (arith, less))) in
        let start : (rotor + 1) % 128 ≡ (rotor + 1 + 0) % 128 = omega arith in
        (
          w,
          rw full (ap (next_word 128 bytes rotor) start ∙ at),
          small,
          elim end [
            | inl free ↦ inl free
            | inr (back, all) ↦ inr (back, every_word bytes rotor hr full all)
          ],
        ))
  | inr free ↦ (rotor, rw free refl, hr, inl free)
]
  where
    every_word :
        (bytes : ℕ → ℕ) (rotor : ℕ)
        → rotor < 128
        → is_full bytes rotor ≡ true
        → AllFull bytes rotor 127
        → (v : ℕ) → v < 128
        → is_full bytes v ≡ true
    every_word bytes rotor hr full all v hv = elim (Bool-cases (v == rotor)) [
      | inl same ↦
          let at : rotor ≡ v = ground (arith, same) in subst (λ v. is_full bytes v ≡ true) at full
      | inr apart ↦
          let at : (rotor + 1 + (v + 127 - rotor) % 128) % 128 ≡ v = omega (arith, hv, hr) in
          subst (λ v. is_full bytes v ≡ true) at
            (all ((v + 127 - rotor) % 128) (ground (arith, apart, hv, hr)))
    ]

byte_full : (bytes : ℕ → ℕ) (r k : ℕ) → is_full bytes r ≡ true → k < 4 → bytes (4 * r + k) ≡ 255
unfolding is_full
byte_full bytes r zero h less =
    let at : 4 * r + 0 ≡ 4 * r = omega arith in ap bytes at ∙ ground (arith, h)
byte_full bytes r (suc zero) h less = ground (arith, h)
byte_full bytes r (suc (suc zero)) h less = ground (arith, h)
byte_full bytes r (suc (suc (suc zero))) h less = ground (arith, h)
byte_full bytes r (suc (suc (suc (suc k)))) h less = absurd (omega (arith, less))

-- The byte that is taken has a clear bit.
pub free_byte_lem :
    (bytes : ℕ → ℕ) (r : ℕ)
    → is_full bytes r ≡ false
    → (p : ℕ) × (free_byte bytes r ≡ p) × (p < 4 * r + 4) × (bytes p ≢ 255)
unfolding is_full free_byte
free_byte_lem bytes r h = elim (Bool-cases (bytes (4 * r) == 255)) [
  | inr a ↦ (4 * r, rw a refl, omega arith, λ e. ground (arith, a, e))
  | inl a ↦ elim (Bool-cases (bytes (4 * r + 1) == 255)) [
    | inr b ↦ (4 * r + 1, rw (a, b) refl, omega arith, λ e. ground (arith, b, e))
    | inl b ↦ elim (Bool-cases (bytes (4 * r + 2) == 255)) [
      | inr c ↦ (4 * r + 2, rw (a, b, c) refl, omega arith, λ e. ground (arith, c, e))
      | inl c ↦ (4 * r + 3, rw (a, b, c) refl, omega arith, λ e. ground (arith, a, b, c, h, e))
    ]
  ]
]

-- Every identifier of a full word is taken.
pub full-taken : (bytes : ℕ → ℕ) (i : ℕ) → is_full bytes (i / 32) ≡ true → taken bytes i ≡ 1
full-taken bytes i h =
    let at : 4 * (i / 32) + i / 8 % 4 ≡ i / 8 = omega arith in
    let full = byte_full bytes (i / 32) (i / 8 % 4) h (omega arith) in
    ap (λ p. bit (i % 8) (bytes p)) (sym at) ∙ ap (bit (i % 8)) full ∙ all_set (i % 8) (omega arith)
