-- ===== src/G3/Words.antt =====
-- The bit operations of faxd/G3Encoder.c++ as arithmetic.
use Prim.Native.Nat.{min, max, bit_or, bit_and, digits, bit_and-bitwise, bit_or-bitwise}
use mathlib.Core.Path.{subst}
use native.Mathlib.Nat.{
  div-div-eq-div-mul, two-pow-succ, one-le-pow, mod-lt, mod-add-div', mul_left_comm,
  mul-add-mod_self_right, mod-eq_of_lt,
}
use hylafaxplus.Prelude.{
  ℕ, zero, suc, ◌+◌, ◌-◌, ◌*◌, ◌/◌, ◌%◌, ◌^◌, ◌≤◌, ◌<◌, ◌≡◌, refl, sym, ◌∙◌, ap, arith,
}

-- The law for the lowest digit, whatever the operation on digits is.
digits_fuel :
    (z : ℕ → ℕ) (f : ℕ → ℕ → ℕ) (n m a b : ℕ) → a ≤ n → a ≤ m → digits z f n a b ≡ digits z f m a b
digits_fuel z f zero zero a b p q = refl
digits_fuel z f zero (suc m) zero b p q = refl
digits_fuel z f zero (suc m) (suc a) b p q = absurd (omega arith)
digits_fuel z f (suc n) zero zero b p q = refl
digits_fuel z f (suc n) zero (suc a) b p q = absurd (omega arith)
digits_fuel z f (suc n) (suc m) zero b p q = refl
digits_fuel z f (suc n) (suc m) (suc a) b p q =
    ap (λ x. x * 2 + f (suc a % 2) (b % 2))
      (digits_fuel z f n m (suc a / 2) (b / 2) (omega arith) (omega arith))

abbrev or_digits : ℕ → ℕ → ℕ → ℕ
or_digits n a b = digits (λ b. b) max n a b

abbrev and_digits : ℕ → ℕ → ℕ → ℕ
and_digits n a b = digits (λ b. zero) min n a b

zero-bit_or : (b : ℕ) → bit_or 0 b ≡ b
zero-bit_or b = bit_or-bitwise 0 b

bit_or_step : (a b : ℕ) → bit_or a b ≡ bit_or (a / 2) (b / 2) * 2 + max (a % 2) (b % 2)
bit_or_step zero b = omega (arith, zero-bit_or b, zero-bit_or (b / 2))
bit_or_step (suc a) b = omega (
  arith,
  bit_or-bitwise (suc a) b,
  bit_or-bitwise (suc a / 2) (b / 2),
  digits_fuel (λ b. b) max a (suc a / 2) (suc a / 2) (b / 2) (omega arith) (omega arith),
)

bit_and_step : (a b : ℕ) → bit_and a b ≡ bit_and (a / 2) (b / 2) * 2 + min (a % 2) (b % 2)
bit_and_step zero b = omega (arith, bit_and-bitwise 0 b, bit_and-bitwise 0 (b / 2))
bit_and_step (suc a) b = omega (
  arith,
  bit_and-bitwise (suc a) b,
  bit_and-bitwise (suc a / 2) (b / 2),
  digits_fuel (λ b. zero) min a (suc a / 2) (suc a / 2) (b / 2) (omega arith) (omega arith),
)

bit_or-zero : (fuel a : ℕ) → a ≤ fuel → bit_or a 0 ≡ a
bit_or-zero fuel zero h = bit_or-bitwise 0 0
bit_or-zero zero (suc a) h = absurd (omega arith)
bit_or-zero (suc fuel) (suc a) h =
    omega (arith, bit_or_step (suc a) 0, bit_or-zero fuel (suc a / 2) (omega arith))

bit_and-zero : (fuel a : ℕ) → a ≤ fuel → bit_and a 0 ≡ 0
bit_and-zero fuel zero h = bit_and-bitwise 0 0
bit_and-zero zero (suc a) h = absurd (omega arith)
bit_and-zero (suc fuel) (suc a) h =
    omega (arith, bit_and_step (suc a) 0, bit_and-zero fuel (suc a / 2) (omega arith))

pub pow-twice : (k : ℕ) → 2 ^ suc k ≡ 2 * 2 ^ k
pow-twice k = omega (arith, two-pow-succ k)

pub pow-pos : (k : ℕ) → 1 ≤ 2 ^ k
pow-pos k = one-le-pow k 2 (omega arith)

-- One digit more.
or-digit : (a x v : ℕ) → a ≡ 2 * x → bit_or x (v / 2) ≡ x + v / 2 → bit_or a v ≡ a + v
or-digit a x v h k =
    let half : a / 2 ≡ x = omega (arith, h) in
    omega (arith, bit_or_step a v, ap (λ y. bit_or y (v / 2)) half, h, k)

pub shift-twice : (q k : ℕ) → q * 2 ^ suc k ≡ 2 * (q * 2 ^ k)
shift-twice q k = ap (λ p. q * p) (pow-twice k) ∙ mul_left_comm q 2 (2 ^ k)

-- Or fills in zeros.
pub bit_or-fill : (k q v : ℕ) → v < 2 ^ k → bit_or (q * 2 ^ k) v ≡ q * 2 ^ k + v
bit_or-fill zero q v h =
    let none_left : v ≡ 0 = omega (arith, h) in
    ap (bit_or (q * 1)) none_left
    ∙ bit_or-zero (q * 1) (q * 1) (omega arith)
    ∙ omega (arith, none_left)
bit_or-fill (suc k) q v h =
    or-digit (q * 2 ^ suc k) (q * 2 ^ k) v (shift-twice q k)
      (bit_or-fill k q (v / 2) (omega (arith, h, pow-twice k)))

-- The remainder of a number by a power of 2, from that of its half.
mod-digit : (p a : ℕ) → 1 ≤ p → (a / 2 % p) * 2 + a % 2 ≡ a % (2 * p)
mod-digit p a h =
    let c = (a / 2 % p) * 2 + a % 2 in
    let small : c < 2 * p = omega (arith, mod-lt (a / 2) {m = p} (omega arith)) in
    let whole : a ≡ (a / 2 / p) * (2 * p) + c =
      omega (arith, mod-add-div' (a / 2) p, mul_left_comm (a / 2 / p) 2 p) in
    sym (
      ap (λ x. x % (2 * p)) whole
      ∙ mul-add-mod_self_right (a / 2 / p) (2 * p) c
      ∙ mod-eq_of_lt small)

and-digit : (a m x r : ℕ) → m ≡ 2 * x + 1 → bit_and (a / 2) x ≡ r → bit_and a m ≡ r * 2 + a % 2
and-digit a m x r h k =
    let half : m / 2 ≡ x = omega (arith, h) in
    omega (arith, bit_and_step a m, ap (bit_and (a / 2)) half, h, k)

-- A mask of ones takes the remainder.
pub bit_and-mask : (k a : ℕ) → bit_and a (2 ^ k - 1) ≡ a % 2 ^ k
bit_and-mask zero a = omega (arith, bit_and-zero a a (omega arith))
bit_and-mask (suc k) a =
    and-digit a (2 ^ suc k - 1) (2 ^ k - 1) (a / 2 % 2 ^ k) (omega (arith, pow-twice k, pow-pos k))
      (bit_and-mask k (a / 2))
    ∙ mod-digit (2 ^ k) a (pow-pos k)
    ∙ ap (λ p. a % p) (sym (pow-twice k))

-- A shift in two steps.
pub shift-split : (n a b q : ℕ) → n ≡ a + b → q * 2 ^ n ≡ q * 2 ^ a * 2 ^ b
shift-split n a zero q h =
    let same : n ≡ a = omega (arith, h) in ap (λ k. q * 2 ^ k) same ∙ omega arith
shift-split zero a (suc b) q h = absurd (omega arith)
shift-split (suc n) a (suc b) q h =
    shift-twice q n
    ∙ ap (λ x. 2 * x) (shift-split n a b q (omega (arith, h)))
    ∙ sym (shift-twice (q * 2 ^ a) b)

-- The high part of a number.
pub high-small : (n a b x : ℕ) → n ≡ a + b → x < 2 ^ n → x / 2 ^ b < 2 ^ a
high-small n a zero x h hx =
    let same : n ≡ a = omega (arith, h) in subst (λ k. x / 1 < 2 ^ k) same (omega (arith, hx))
high-small zero a (suc b) x h hx = absurd (omega arith)
high-small (suc n) a (suc b) x h hx =
    subst (λ y. y < 2 ^ a) (div-div-eq-div-mul x 2 (2 ^ b) ∙ ap (λ p. x / p) (sym (pow-twice b)))
      (high-small n a b (x / 2) (omega (arith, h)) (omega (arith, hx, pow-twice n)))
