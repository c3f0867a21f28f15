-- ===== src/Triggers/Lists.antt =====
-- What TriggerRef::purge leaves of a list (faxd/TriggerRef.c++).
use hylafaxplus.Prelude.{
  ℕ, ◌+◌, ◌-◌, ◌≤◌, ◌<◌, true, false, List, [], ◌∷◌, ◌++◌, count, ◌==◌, if◌then◌else◌, ◌≡◌, refl,
  sym, ap, ◌∙◌, arith, Bool-cases, inl, inr,
}
use hylafaxplus.Triggers.{purge_refs, count_down}

-- The list with no reference to the trigger t.
unfoldable pub without : ℕ → List ℕ → List ℕ
without t [] = []
without t (r ∷ rs) = if t == r then without t rs else r ∷ without t rs

pub without-none : (t : ℕ) (l : List ℕ) → count t l ≡ 0 → without t l ≡ l
unfolding without
without-none t [] h = refl
without-none t (r ∷ rs) h = elim (Bool-cases (t == r)) [
  | inl here ↦ absurd (ground (arith, h, here))
  | inr there ↦ rw there (ap (λ l. r ∷ l) (without-none t rs (ground (arith, h, there))))
]

pub count-without :
    (t i : ℕ) (l : List ℕ) → count i (without t l) ≡ (if i == t then 0 else count i l)
unfolding without
count-without t i [] = ground arith
count-without t i (r ∷ rs) = elim (Bool-cases (t == r)) [
  | inl here ↦ rw here (ground (arith, count-without t i rs, here))
  | inr there ↦ rw there (ground (arith, count-without t i rs, there))
]

pub without_end : (t : ℕ) (l : List ℕ) → without t (l ++ t ∷ []) ≡ without t l
unfolding without
without_end t [] = let same : (t == t) ≡ true = ground arith in rw same refl
without_end t (r ∷ rs) = elim (Bool-cases (t == r)) [
  | inl here ↦ rw here (without_end t rs)
  | inr there ↦ rw there (ap (λ l. r ∷ l) (without_end t rs))
]

pub count_end : (t : ℕ) (l : List ℕ) → count t (l ++ t ∷ []) ≡ count t l + 1
count_end t [] = ground arith
count_end t (r ∷ rs) = ground (arith, count_end t rs)

-- If the trigger counts all its references on the list, the purge takes them all.
pub purge_refs_lem :
    (t refs : ℕ) (l : List ℕ)
    → refs < 4294967296
    → count t l ≤ refs
    → purge_refs t refs l ≡ (refs - count t l, without t l)
unfolding purge_refs without
purge_refs_lem t refs [] small h = ap (λ n. (n, [])) (omega arith)
purge_refs_lem t refs (r ∷ rs) small h = elim (Bool-cases (t == r)) [
  | inl here ↦
      let back : (r == t) ≡ true = ground (arith, here) in
      let left : count_down refs ≡ refs - 1 = ground (arith, small, h, here) in
      let fits : count t rs ≤ refs - 1 = ground (arith, h, here) in
      rw (here, back, left)
        (elim (Bool-cases (refs - 1 == 0)) [
          | inl last ↦
              let none_left : count t rs ≡ 0 = ground (arith, last, fits) in
              let zero_refs : 0 ≡ refs - (1 + count t rs) = ground (arith, last) in
              rw last (
                ap (λ n. (n, rs)) zero_refs
                ∙ ap (λ l. (refs - (1 + count t rs), l)) (sym (without-none t rs none_left)))
          | inr more ↦
              let less : refs - 1 - count t rs ≡ refs - (1 + count t rs) = omega arith in
              rw more (
                purge_refs_lem t (refs - 1) rs (omega (arith, small)) fits
                ∙ ap (λ n. (n, without t rs)) less)
        ])
  | inr there ↦
      let back : (r == t) ≡ false = ground (arith, there) in
      let ih = purge_refs_lem t refs rs small (ground (arith, h, there)) in
      let same : refs - count t rs ≡ refs - (0 + count t rs) = omega arith in
      rw (there, back) (ap (λ p. (p.0, r ∷ p.1)) ih ∙ ap (λ n. (n, r ∷ without t rs)) same)
]
