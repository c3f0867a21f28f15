-- ===== src/Triggers/Bitmap.antt =====
-- The bits of a byte of the bitmap of trigger identifiers (Trigger::tidFree of faxd/Trigger.c++).
use Prim.Native.Nat.{bit_or, bit_and}
use hylafaxplus.Prelude.{
  ℕ, ◌-◌, ◌/◌, ◌%◌, ◌^◌, ◌<◌, Bool, true, false, ◌&&◌, ltb, ◌==◌, if◌then◌else◌, ◌≡◌, ◌≢◌, refl,
  arith, ltb→lt,
}
use hylafaxplus.G3.Table.{all_below, all_below_sound}
use hylafaxplus.Triggers.{ffc, clear_from}

-- The values of bits.
abbrev pub bit : ℕ → ℕ → ℕ
bit i v = v / 2 ^ i % 2

abbrev bits_set : ℕ → Bool
bits_set v = all_below 8 (λ b.
    ltb (bit_or v (2 ^ b)) 256
    && all_below 8 (λ i. bit i (bit_or v (2 ^ b)) == (if i == b then 1 else bit i v)))

abbrev bits_cleared : ℕ → Bool
bits_cleared v = all_below 8 (λ b.
    ltb (bit_and v (255 - 2 ^ b)) 256
    && all_below 8 (λ i. bit i (bit_and v (255 - 2 ^ b)) == (if i == b then 0 else bit i v)))

equal : {a b : ℕ} → (a == b) ≡ true → a ≡ b
equal {a} {b} h = ground (arith, h)

left : (a b : Bool) → (a && b) ≡ true → a ≡ true
left true b h = refl
left false b h = h

right : (a b : Bool) → (a && b) ≡ true → b ≡ true
right true b h = h
right false b h = ground (arith, h)

bits_set-checked : all_below 256 bits_set ≡ true
unfolding all_below
bits_set-checked = refl

bits_cleared-checked : all_below 256 bits_cleared ≡ true
unfolding all_below
bits_cleared-checked = refl

pub bit_set :
    (v b i : ℕ)
    → v < 256
    → b < 8
    → i < 8
    → bit i (bit_or v (2 ^ b)) ≡ (if i == b then 1 else bit i v)
bit_set v b i hv hb hi =
    let one = all_below_sound 256 bits_set v bits_set-checked hv in
    let two = all_below_sound 8 _ b one hb in
    let three =
      all_below_sound 8 (λ i. bit i (bit_or v (2 ^ b)) == (if i == b then 1 else bit i v)) i
        (right _ _ two) hi in
    equal three

pub set_small : (v b : ℕ) → v < 256 → b < 8 → bit_or v (2 ^ b) < 256
set_small v b hv hb =
    let one = all_below_sound 256 bits_set v bits_set-checked hv in
    let two = all_below_sound 8 _ b one hb in ltb→lt _ _ (left _ _ two)

pub bit_cleared :
    (v b i : ℕ)
    → v < 256
    → b < 8
    → i < 8
    → bit i (bit_and v (255 - 2 ^ b)) ≡ (if i == b then 0 else bit i v)
bit_cleared v b i hv hb hi =
    let one = all_below_sound 256 bits_cleared v bits_cleared-checked hv in
    let two = all_below_sound 8 _ b one hb in
    let three =
      all_below_sound 8 (λ i. bit i (bit_and v (255 - 2 ^ b)) == (if i == b then 0 else bit i v)) i
        (right _ _ two) hi in
    equal three

pub cleared_small : (v b : ℕ) → v < 256 → b < 8 → bit_and v (255 - 2 ^ b) < 256
cleared_small v b hv hb =
    let one = all_below_sound 256 bits_cleared v bits_cleared-checked hv in
    let two = all_below_sound 8 _ b one hb in ltb→lt _ _ (left _ _ two)

abbrev has_clear : ℕ → Bool
has_clear v = ltb (ffc v) 8 && bit (ffc v) v == 0

has_clear-checked : all_below 255 has_clear ≡ true
unfolding all_below clear_from
has_clear-checked = refl

pub ffc-clear : (v : ℕ) → v < 256 → v ≢ 255 → (ffc v < 8) × (bit (ffc v) v ≡ 0)
ffc-clear v hv h =
    let ok = all_below_sound 255 has_clear v has_clear-checked (omega (arith, hv, h)) in
    (ltb→lt _ _ (left _ _ ok), equal (right _ _ ok))

all_set-checked : all_below 8 (λ i. bit i 255 == 1) ≡ true
unfolding all_below
all_set-checked = refl

pub all_set : (i : ℕ) → i < 8 → bit i 255 ≡ 1
all_set i h = equal (all_below_sound 8 (λ i. bit i 255 == 1) i all_set-checked h)
