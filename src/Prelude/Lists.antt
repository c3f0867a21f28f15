-- ===== src/Prelude/Lists.antt =====
-- Lists measured by native numbers, how often a number stands in one, and functions changed at one
-- number.
use Prim.Native.Nat.{ℕ, suc, ◌+◌, ◌-◌}
use mathlib.Core.Path.{◌≡◌, refl}
use mathlib.Core.Bool.{Bool, true, false}
use mathlib.Core.List.{List, [], ◌∷◌, ◌++◌}
use native.Mathlib.Omega.{arith}
use hylafaxplus.Prelude.Tests.{if◌then◌else◌, ◌==◌}

module _ {ℓ} {A : Type ℓ} where
  abbrev pub length : List A → ℕ
  length [] = 0
  length (x ∷ xs) = suc (length xs)

  pub length-append : (xs ys : List A) → length (xs ++ ys) ≡ length xs + length ys
  length-append [] ys = omega arith
  length-append (x ∷ xs) ys = omega (arith, length-append xs ys)

abbrev pub count : ℕ → List ℕ → ℕ
count a [] = 0
count a (x ∷ xs) = (if a == x then 1 else 0) + count a xs

-- Unlinks one element: its first occurrence.
unfoldable pub erase : ℕ → List ℕ → List ℕ
erase a [] = []
erase a (x ∷ xs) = if a == x then xs else x ∷ erase a xs

pub count-erase :
    (a b : ℕ) (xs : List ℕ) → count b (erase a xs) ≡ (if a == b then count b xs - 1 else count b xs)
unfolding erase
count-erase a b [] = ground arith
count-erase a b (x ∷ xs) = ground (arith, count-erase a b xs)

-- Walks past the elements that pass the test, and puts `a` before the first that fails.
unfoldable pub insert_after : (ℕ → Bool) → ℕ → List ℕ → List ℕ
insert_after skip a [] = a ∷ []
insert_after skip a (x ∷ xs) = if skip x then x ∷ insert_after skip a xs else a ∷ x ∷ xs

pub count-insert_after :
    (skip : ℕ → Bool) (a b : ℕ) (xs : List ℕ)
    → count b (insert_after skip a xs) ≡ (if b == a then 1 else 0) + count b xs
unfolding insert_after
count-insert_after skip a b [] = refl
count-insert_after skip a b (x ∷ xs) = ground (arith, count-insert_after skip a b xs)

-- The function with another value at k.
unfoldable pub put {ℓ} : {A : Type ℓ} → ℕ → A → (ℕ → A) → ℕ → A
put k a f i = if i == k then a else f i

pub put-own {ℓ} : {A : Type ℓ} (t i : ℕ) (a : A) (f : ℕ → A) → (i == t) ≡ true → put t a f i ≡ a
unfolding put
put-own t i a f h = rw h refl

pub put-other {ℓ} :
    {A : Type ℓ} (t i : ℕ) (a : A) (f : ℕ → A) → (i == t) ≡ false → put t a f i ≡ f i
unfolding put
put-other t i a f h = rw h refl
