-- ===== src/Triggers/Ids.antt =====
-- The allocation of trigger identifiers (Trigger::tidNextFree of faxd/Trigger.c++).
use Prim.Native.Nat.{bit_or}
use mathlib.Core.Path.{subst}
use hylafaxplus.Prelude.{
  put, ℕ, ◌+◌, ◌*◌, ◌/◌, ◌%◌, ◌^◌, ◌<◌, true, false, ◌&&◌, ◌==◌, if◌then◌else◌, ◌≡◌, refl, sym, ap,
  ◌∙◌, arith, Bool-cases, ◌⊎◌, inl, inr,
}
use hylafaxplus.Triggers.{Triggers, is_full, ffc, tid_next_free}
use hylafaxplus.Triggers.Bitmap.{bit, bit_set, set_small, ffc-clear}
use hylafaxplus.Triggers.Words.{taken, find_word_lem, free_byte_lem, full-taken}

-- Writing a byte with another b-th bit changes one identifier.
pub put-taken :
    (bytes : ℕ → ℕ) (p b v x i : ℕ)
    → ((j : ℕ) → j < 8 → bit j v ≡ (if j == b then x else bit j (bytes p)))
    → b < 8
    → taken (put p v bytes) i ≡ (if i == 8 * p + b then x else taken bytes i)
unfolding put
put-taken bytes p b v x i h hb = elim (Bool-cases (i / 8 == p)) [
  | inl here ↦
      let at : i / 8 ≡ p = ground (arith, here) in
      let same : (i % 8 == b) ≡ (i == 8 * p + b) = ground (arith, at, hb) in
      rw here (
        h (i % 8) (omega arith)
        ∙ ap (λ t. if t then x else bit (i % 8) (bytes p)) same
        ∙ ap (λ q. if i == 8 * p + b then x else bit (i % 8) (bytes q)) (sym at))
  | inr there ↦
      let other : (i == 8 * p + b) ≡ false = ground (arith, there, hb) in rw (there, other) refl
]

-- An identifier that was free, and no other, has been taken.
abbrev IsNew : Triggers → ℕ × Triggers → Type 0
IsNew s r =
    (r.0 < 4096)
    × (taken s.tid_free r.0 ≡ 0)
    × ((i : ℕ) → taken r.1.tid_free i ≡ (if i == r.0 then 1 else taken s.tid_free i))

not_back :
    (bytes : ℕ → ℕ) (rotor w : ℕ)
    → is_full bytes w ≡ false
    → (is_full bytes rotor && w == rotor) ≡ false
not_back bytes rotor w free = elim (Bool-cases (w == rotor)) [
  | inl back ↦
      let at : w ≡ rotor = ground (arith, back) in
      let none_full : is_full bytes rotor ≡ false = subst (λ v. is_full bytes v ≡ false) at free in
      rw none_full refl
  | inr apart ↦ ground (arith, apart)
]

-- For a bitmap of bytes and a rotor on one of its words: either all 4096 identifiers are taken, and
-- tidNextFree gives 4096 and changes nothing; or it gives an identifier less than 4096 that was free,
-- and takes it and no other.
pub tid_next_free_lem :
    (s : Triggers)
    → ((p : ℕ) → s.tid_free p < 256)
    → s.tid_rotor < 128
    → ((tid_next_free s ≡ (4096, s)) × ((i : ℕ) → i < 4096 → taken s.tid_free i ≡ 1))
      ⊎ (((tid_next_free s).0 < 4096)
          × (taken s.tid_free (tid_next_free s).0 ≡ 0)
          × ((i : ℕ)
              → taken (tid_next_free s).1.tid_free i
                ≡ (if i == (tid_next_free s).0 then 1 else taken s.tid_free i)))
unfolding tid_next_free
tid_next_free_lem s small hr =
    let (w, at, hw, end) = find_word_lem s.tid_free s.tid_rotor hr in
    elim end [
      | inl free ↦
          let (p, place, hp, some_clear) = free_byte_lem s.tid_free w free in
          let clear = ffc-clear (s.tid_free p) (small p) some_clear in
          let b = ffc (s.tid_free p) in
          let r : ℕ × Triggers = (
            8 * p + b,
            record s { tid_free = put p (bit_or (s.tid_free p) (2 ^ b)) s.tid_free; tid_rotor = w },
          ) in
          let goes = not_back s.tid_free s.tid_rotor w free in
          let found : tid_next_free s ≡ r = rw (at, place, goes) refl in
          inr (
            subst (IsNew s) (sym found) (
              omega (arith, hw, hp, clear.0),
              (let high : (8 * p + b) / 8 ≡ p = omega (arith, clear.0) in
                  let low : (8 * p + b) % 8 ≡ b = omega (arith, clear.0) in
                  ap (λ q. bit ((8 * p + b) % 8) (s.tid_free q)) high
                  ∙ ap (λ j. bit j (s.tid_free p)) low
                  ∙ clear.1),
              λ i.
                  put-taken s.tid_free p b (bit_or (s.tid_free p) (2 ^ b)) 1 i
                    (λ j less. bit_set (s.tid_free p) b j (small p) clear.0 less) clear.0,
            ))
      | inr (back, all) ↦
          let full : is_full s.tid_free s.tid_rotor ≡ true = all s.tid_rotor hr in
          let same : (w == s.tid_rotor) ≡ true = ground (arith, back) in
          inl (
            rw (at, full, same) refl,
            λ i less. full-taken s.tid_free i (all (i / 32) (omega (arith, less))),
          )
    ]

-- The bitmap stays one of bytes, and the rotor on a word; nothing else changes.
pub tid_next_free-small :
    (s : Triggers)
    → ((p : ℕ) → s.tid_free p < 256)
    → s.tid_rotor < 128
    → ((p : ℕ) → (tid_next_free s).1.tid_free p < 256)
      × ((tid_next_free s).1.tid_rotor < 128)
      × ((tid_next_free s).1.live ≡ s.live)
      × ((tid_next_free s).1.trigger ≡ s.trigger)
      × ((tid_next_free s).1.wildcards ≡ s.wildcards)
      × ((tid_next_free s).1.sent ≡ s.sent)
unfolding tid_next_free put
tid_next_free-small s small hr =
    let (w, at, hw, end) = find_word_lem s.tid_free s.tid_rotor hr in
    elim end [
      | inl free ↦
          let (p, place, hp, some_clear) = free_byte_lem s.tid_free w free in
          let v = s.tid_free p in
          let clear = ffc-clear v (small p) some_clear in
          let goes = not_back s.tid_free s.tid_rotor w free in
          rw (at, place, goes)
            (
              (λ q. elim (Bool-cases (q == p)) [
                | inl here ↦ rw here (set_small v (ffc v) (small p) clear.0)
                | inr there ↦ rw there (small q)
              ]),
              hw,
              refl,
              refl,
              refl,
              refl,
            )
      | inr (back, all) ↦
          let full : is_full s.tid_free s.tid_rotor ≡ true = all s.tid_rotor hr in
          let same : (w == s.tid_rotor) ≡ true = ground (arith, back) in
          rw (at, full, same) (small, hr, refl, refl, refl, refl)
    ]
