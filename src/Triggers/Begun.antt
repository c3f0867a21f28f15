-- ===== src/Triggers/Begun.antt =====
-- `new Trigger` with an identifier that is free (Trigger::create of faxd/Trigger.c++).
use mathlib.Core.Path.{subst}
use mathlib.Core.Bool.{true≢false}
use hylafaxplus.Prelude.{
  put-own, put-other, ℕ, ◌<◌, true, false, ◌==◌, if◌then◌else◌, ◌≡◌, ◌≢◌, refl, sym, ap, ◌∙◌, arith,
  Bool-cases, inl, inr,
}
use hylafaxplus.Triggers.{Trigger, Triggers, new_trigger, tid_next_free}
use hylafaxplus.Triggers.Ids.{tid_next_free-small}
use hylafaxplus.Triggers.Words.{taken}
use hylafaxplus.Triggers.Purged.{wild_refs}
use hylafaxplus.Triggers.Kept.{WellFormed}

-- The table behind `new Trigger` with a free identifier.
abbrev pub begun : ℕ → Triggers → Triggers
begun client s = new_trigger (tid_next_free s).0 client (tid_next_free s).1

-- tidNextFree has found an identifier.
pub record Fresh (client : ℕ) (s : Triggers) : Type 0 where
  pub below : (tid_next_free s).0 < 4096
  pub unused : s.live (tid_next_free s).0 ≡ false
  pub well : WellFormed (begun client s)
  pub alive : (begun client s).live (tid_next_free s).0 ≡ true
  pub none_yet : ((begun client s).trigger (tid_next_free s).0).refs ≡ 0
  pub its_client : ((begun client s).trigger (tid_next_free s).0).client ≡ client
  pub before :
      ((i : ℕ) → i ≢ (tid_next_free s).0 → (begun client s).live i ≡ s.live i)
      × ((i : ℕ)
          → taken (begun client s).tid_free i
            ≡ (if i == (tid_next_free s).0 then 1 else taken s.tid_free i))
      × ((begun client s).wildcards ≡ s.wildcards)
      × ((begun client s).sent ≡ s.sent)

pub begun-Fresh :
    (client : ℕ) (s : Triggers)
    → WellFormed s
    → (tid_next_free s).0 < 4096
    → taken s.tid_free (tid_next_free s).0 ≡ 0
    → ((i : ℕ)
        → taken (tid_next_free s).1.tid_free i
          ≡ (if i == (tid_next_free s).0 then 1 else taken s.tid_free i))
    → Fresh client s
unfolding new_trigger
begun-Fresh client s wf low free takes =
    let t = (tid_next_free s).0 in
    let kept = tid_next_free-small s wf.bytes wf.rotor in
    let same : (t == t) ≡ true = ground arith in
    let dead = free-dead s wf t low free in
    let new : Trigger = record { refs = 0; interests = λ k. 0; client = client } in
    let own = put-own t t new (tid_next_free s).1.trigger same in
    record {
      below = low;
      unused = dead;
      well = record {
        bytes = kept.0;
        rotor = kept.1;
        ids = λ i less. takes i ∙ elim (Bool-cases (i == t)) [
          | inl own_id ↦ rw (own_id, put-own t i true (tid_next_free s).1.live own_id) refl
          | inr other ↦
              rw (other, put-other t i true (tid_next_free s).1.live other)
                (wf.ids i less ∙ ap (λ l. if l i then 1 else 0) (sym kept.2))
        ];
        counted = λ i here.
            let wild = ap (wild_refs 4 i) kept.4 in
            elim (Bool-cases (i == t)) [
              | inl own_id ↦
                  let at : t ≡ i = ground (arith, own_id) in
                  let zero_refs =
                    ap (λ r. r.refs) (put-own t i new (tid_next_free s).1.trigger own_id) in
                  let none = wf.gone i (subst (λ i. s.live i ≡ false) at dead) in
                  (omega (arith, wild, none), omega (arith, zero_refs))
              | inr other ↦
                  let was =
                    ap (λ l. l i) (sym kept.2)
                    ∙ (sym (put-other t i true (tid_next_free s).1.live other) ∙ here) in
                  let old = wf.counted i was in
                  let refs =
                    ap (λ r. r.refs)
                      (put-other t i new (tid_next_free s).1.trigger other
                        ∙ ap (λ f. f i) kept.3) in
                  (omega (arith, old.0, refs, wild), omega (arith, old.1, refs))
            ];
        gone = λ i here. elim (Bool-cases (i == t)) [
          | inl own_id ↦
              absurd (true≢false (sym (put-own t i true (tid_next_free s).1.live own_id) ∙ here))
          | inr other ↦
              let was =
                ap (λ l. l i) (sym kept.2)
                ∙ (sym (put-other t i true (tid_next_free s).1.live other) ∙ here) in
              ap (wild_refs 4 i) kept.4 ∙ wf.gone i was
        ];
      };
      alive = put-own t t true (tid_next_free s).1.live same;
      none_yet = ap (λ r. r.refs) own;
      its_client = ap (λ r. r.client) own;
      before = (
        (λ i apart.
            put-other t i true (tid_next_free s).1.live (ground (arith, apart))
            ∙ ap (λ l. l i) kept.2),
        takes,
        kept.4,
        kept.5,
      );
    }
  where
    free-dead :
        (s : Triggers)
        → WellFormed s
        → (t : ℕ) → t < 4096
        → taken s.tid_free t ≡ 0
        → s.live t ≡ false
    free-dead s wf t low free = elim (Bool-cases (s.live t)) [
      | inl alive ↦ absurd (ground (arith, wf.ids t low, free, alive))
      | inr dead ↦ dead
    ]
