-- ===== src/Triggers/Kept.antt =====
-- The table of triggers, its bitmap and the lists of wildcards under Trigger::create and
-- Trigger::cancel (faxd/Trigger.c++).
use Prim.Native.Nat.{bit_and}
use mathlib.Core.Path.{subst}
use mathlib.Core.Bool.{true≢false}
use hylafaxplus.Prelude.{
  put-own, put-other, put, ℕ, zero, suc, ◌+◌, ◌-◌, ◌*◌, ◌/◌, ◌%◌, ◌^◌, ◌≤◌, ◌<◌, true, false, List,
  count, leb, ◌==◌, if◌then◌else◌, ◌≡◌, ◌≢◌, refl, sym, ap, ◌∙◌, arith, Bool-cases, inl, inr,
}
use hylafaxplus.Triggers.{Triggers, delete_trigger, purge_wild_refs}
use hylafaxplus.Triggers.Bitmap.{bit_cleared, cleared_small}
use hylafaxplus.Triggers.Ids.{put-taken}
use hylafaxplus.Triggers.Words.{taken}
use hylafaxplus.Triggers.Lists.{without, count-without}
use hylafaxplus.Triggers.Purged.{wild_refs, Purged, loop-Purged}
use hylafaxplus.Triggers.Grown.{Grown}

-- The bitmap says which triggers the table has; a trigger of the table counts at least its references
-- on the lists of wildcards, and others have none there.
pub record WellFormed (s : Triggers) : Type 0 where
  pub bytes : (p : ℕ) → s.tid_free p < 256
  pub rotor : s.tid_rotor < 128
  pub ids : (i : ℕ) → i < 4096 → taken s.tid_free i ≡ (if s.live i then 1 else 0)
  pub counted :
      (i : ℕ)
      → s.live i ≡ true
      → (wild_refs 4 i s.wildcards ≤ (s.trigger i).refs) × ((s.trigger i).refs < 4294967296)
  pub gone : (i : ℕ) → s.live i ≡ false → wild_refs 4 i s.wildcards ≡ 0

pub wild_refs-without :
    (n t i : ℕ) (w w' : ℕ → List ℕ)
    → ((k : ℕ) → k < 4 → w' k ≡ without t (w k))
    → wild_refs n i w' ≡ (if i == t then 0 else wild_refs n i w)
unfolding wild_refs
wild_refs-without zero t i w w' h = ground arith
wild_refs-without (suc n) t i w w' h =
    let here = ap (count i) (h (3 - n) (omega arith)) ∙ count-without t i (w (3 - n)) in
    ground (arith, here, wild_refs-without n t i w w' h)

wild_refs-alike :
    (n t i : ℕ) (w w' : ℕ → List ℕ)
    → i ≢ t
    → ((k : ℕ) → without t (w' k) ≡ without t (w k))
    → wild_refs n i w' ≡ wild_refs n i w
unfolding wild_refs
wild_refs-alike zero t i w w' apart h = refl
wild_refs-alike (suc n) t i w w' apart h =
    let same = ap (count i) (h (3 - n)) in
    let one = count-without t i (w' (3 - n)) in
    let two = count-without t i (w (3 - n)) in
    ground (arith, same, one, two, apart, wild_refs-alike n t i w w' apart h)

pub Grown-WellFormed :
    (b t : ℕ) (s s' : Triggers)
    → WellFormed s
    → s.live t ≡ true
    → Grown b t s s'
    → (s.trigger t).refs + b < 4294967296
    → WellFormed s'
Grown-WellFormed b t s s' wf alive g small = record {
  bytes = λ p. subst (λ f. f p < 256) (sym g.tid_free) (wf.bytes p);
  rotor = subst (λ r. r < 128) (sym g.tid_rotor) wf.rotor;
  ids = λ i less.
      subst (λ f. taken f i ≡ (if s'.live i then 1 else 0)) (sym g.tid_free)
        (subst (λ l. taken s.tid_free i ≡ (if l i then 1 else 0)) (sym g.live) (wf.ids i less));
  counted = λ i here.
      let was : s.live i ≡ true = ap (λ l. l i) (sym g.live) ∙ here in
      elim (Bool-cases (i == t)) [
        | inl own ↦
            let at : t ≡ i = ground (arith, own) in
            let old = wf.counted t alive in
            subst
              (λ i.
                (wild_refs 4 i s'.wildcards ≤ (s'.trigger i).refs)
                × ((s'.trigger i).refs < 4294967296))
              at (omega (arith, old.0, g.refs), omega (arith, g.bound, small))
        | inr other ↦
            let apart : i ≢ t = λ e. ground (arith, other, e) in
            let old = wf.counted i was in
            let refs = ap (λ r. r.refs) (g.others i apart) in
            let wild = wild_refs-alike 4 t i s.wildcards s'.wildcards apart g.alike in
            (omega (arith, old.0, refs, wild), omega (arith, old.1, refs))
      ];
  gone = λ i here.
      let was : s.live i ≡ false = ap (λ l. l i) (sym g.live) ∙ here in
      let apart : i ≢ t = λ e. true≢false (sym alive ∙ ap s.live (sym e) ∙ was) in
      wild_refs-alike 4 t i s.wildcards s'.wildcards apart g.alike ∙ wf.gone i was;
}

pub all-Purged :
    (t : ℕ) (s s' : Triggers)
    → Purged 4 t s s'
    → (k : ℕ) → k < 4
    → s'.wildcards k ≡ without t (s.wildcards k)
all-Purged t s s' p k hk =
    let in_range : leb (4 - 4) k ≡ true = ground arith in p.wild k hk ∙ rw in_range refl

pub cleared-taken :
    (bytes : ℕ → ℕ) (t i : ℕ)
    → ((p : ℕ) → bytes p < 256)
    → taken (put (t / 8) (bit_and (bytes (t / 8)) (255 - 2 ^ (t % 8))) bytes) i
      ≡ (if i == t then 0 else taken bytes i)
cleared-taken bytes t i small =
    let at : 8 * (t / 8) + t % 8 ≡ t = omega arith in
    put-taken bytes (t / 8) (t % 8) (bit_and (bytes (t / 8)) (255 - 2 ^ (t % 8))) 0 i
      (λ j less. bit_cleared (bytes (t / 8)) (t % 8) j (small (t / 8)) (omega arith) less)
      (omega arith)
    ∙ ap (λ k. if i == k then 0 else taken bytes i) at

-- ~Trigger of a trigger of the table.
pub delete-WellFormed :
    (t : ℕ) (s : Triggers)
    → WellFormed s
    → s.live t ≡ true
    → t < 4096
    → WellFormed (delete_trigger t s)
unfolding delete_trigger put
delete-WellFormed t s wf alive low =
    let old = wf.counted t alive in
    let p = loop-Purged 4 t s (omega arith) old.1 old.0 in
    let s' = purge_wild_refs t s in
    let wild = λ (i : ℕ). wild_refs-without 4 t i s.wildcards s'.wildcards (all-Purged t s s' p) in
    let small = λ (q : ℕ). subst (λ f. f q < 256) (sym p.tid_free) (wf.bytes q) in
    record {
      bytes = λ q. elim (Bool-cases (q == t / 8)) [
        | inl here ↦
            rw here (cleared_small (s'.tid_free (t / 8)) (t % 8) (small (t / 8)) (omega arith))
        | inr there ↦ rw there (small q)
      ];
      rotor = subst (λ r. r < 128) (sym p.tid_rotor) wf.rotor;
      ids = λ i less. cleared-taken s'.tid_free t i small ∙ elim (Bool-cases (i == t)) [
        | inl own ↦ rw own refl
        | inr other ↦ rw other (
            ap (λ f. taken f i) p.tid_free
            ∙ wf.ids i less
            ∙ ap (λ l. if l i then 1 else 0) (sym p.live))
      ];
      counted = λ i here. elim (Bool-cases (i == t)) [
        | inl own ↦ absurd (true≢false (sym here ∙ put-own t i false s'.live own))
        | inr other ↦
            let was =
              ap (λ l. l i) (sym p.live) ∙ (sym (put-other t i false s'.live other) ∙ here) in
            let kept = wf.counted i was in
            let refs = ap (λ r. r.refs) (p.others i (λ e. ground (arith, other, e))) in
            let count_i : wild_refs 4 i s'.wildcards ≡ wild_refs 4 i s.wildcards =
              wild i ∙ rw other refl in
            (omega (arith, kept.0, refs, count_i), omega (arith, kept.1, refs))
      ];
      gone = λ i here. elim (Bool-cases (i == t)) [
        | inl own ↦ wild i ∙ rw own refl
        | inr other ↦
            let was =
              ap (λ l. l i) (sym p.live) ∙ (sym (put-other t i false s'.live other) ∙ here) in
            wild i ∙ rw other (wf.gone i was)
      ];
    }
