-- ===== src/Triggers/Cancelled.antt =====
-- Trigger::cancel (faxd/Trigger.c++): the purge of the wildcards, and of the modems' lists if the trigger
-- is interested in modems.
use mathlib.Core.Path.{subst}
use hylafaxplus.Prelude.{
  put-own, put-other, put, ℕ, ◌+◌, ◌/◌, ◌%◌, ◌^◌, ◌<◌, Bool, true, false, ◌&&◌, List, [], ◌∷◌, ltb,
  ◌==◌, if◌then◌else◌, ◌≡◌, ◌≢◌, refl, sym, ap, ◌∙◌, arith, Bool-cases, inl, inr,
}
use hylafaxplus.Triggers.{
  Trigger, Triggers, set_refs, clear_interests, purge_refs, purge_modems, purge_wild_refs, or_clear,
  cancel_trigger, delete_if, cancel_by_id, maxtid,
}
use hylafaxplus.Triggers.Purged.{wild_refs, loop-Purged}
use hylafaxplus.Triggers.Kept.{WellFormed, delete-WellFormed, all-Purged, wild_refs-without}

-- Another state with the same table and lists, where the references of a trigger with none on the
-- lists of wildcards may differ.
requoted :
    (t : ℕ) (s s' : Triggers)
    → WellFormed s
    → wild_refs 4 t s.wildcards ≡ 0
    → (s'.trigger t).refs < 4294967296
    → ((i : ℕ) → i ≢ t → s'.trigger i ≡ s.trigger i)
    → (s'.tid_free ≡ s.tid_free)
      × (s'.tid_rotor ≡ s.tid_rotor)
      × (s'.live ≡ s.live)
      × (s'.wildcards ≡ s.wildcards)
    → WellFormed s'
requoted t s s' wf bare small others same = record {
  bytes = λ p. subst (λ f. f p < 256) (sym same.0) (wf.bytes p);
  rotor = subst (λ r. r < 128) (sym same.1) wf.rotor;
  ids = λ i less.
      ap (λ f. f (i / 8) / 2 ^ (i % 8) % 2) same.0
      ∙ wf.ids i less
      ∙ ap (λ l. if l i then 1 else 0) (sym same.2);
  counted = λ i here.
      let wild = ap (wild_refs 4 i) same.3 in
      let old = wf.counted i (ap (λ l. l i) (sym same.2) ∙ here) in
      elim (Bool-cases (i == t)) [
        | inl own ↦
            let at : t ≡ i = ground (arith, own) in
            let none_i = subst (λ i. wild_refs 4 i s.wildcards ≡ 0) at bare in
            (omega (arith, wild, none_i), subst (λ i. (s'.trigger i).refs < 4294967296) at small)
        | inr other ↦
            let refs = ap (λ r. r.refs) (others i (λ e. ground (arith, other, e))) in
            (omega (arith, old.0, refs, wild), omega (arith, old.1, refs))
      ];
  gone = λ i here. ap (wild_refs 4 i) same.3 ∙ wf.gone i (ap (λ l. l i) (sym same.2) ∙ here);
}

-- What is left of a trigger that has been cancelled: it has no reference on the lists of wildcards.
Cancelled : ℕ → Triggers → Type 0
Cancelled t s = WellFormed s × (s.live t ≡ true) × (wild_refs 4 t s.wildcards ≡ 0)

purge_refs-small :
    (t : ℕ) (l : List ℕ) (refs : ℕ) → refs < 4294967296 → (purge_refs t refs l).0 < 4294967296
unfolding purge_refs
purge_refs-small t [] refs small = small
purge_refs-small t (r ∷ rs) refs small =
    let left = (refs + 4294967295) % 4294967296 in
    let fits : left < 4294967296 = omega arith in
    elim (Bool-cases (r == t)) [
      | inl here ↦ elim (Bool-cases (left == 0)) [
        | inl last ↦ rw (here, last) (omega arith)
        | inr more ↦ rw (here, more) (purge_refs-small t rs left fits)
      ]
      | inr there ↦ rw there (purge_refs-small t rs refs small)
    ]

set_refs-Cancelled :
    (t n : ℕ) (s : Triggers) (f : ℕ → List ℕ)
    → n < 4294967296
    → Cancelled t s
    → Cancelled t (set_refs t n (record s { modem_triggers = f }))
unfolding Cancelled set_refs
set_refs-Cancelled t n s f small (wf, alive, bare) =
    let same : (t == t) ≡ true = ground arith in
    let own = ap (λ r. r.refs) (put-own t t (record (s.trigger t) { refs = n }) s.trigger same) in
    (
      requoted t s _ wf bare (omega (arith, own, small))
          (λ i apart.
            put-other t i (record (s.trigger t) { refs = n }) s.trigger (ground (arith, apart)))
          (refl, refl, refl, refl),
      alive,
      bare,
    )

clear-Cancelled : (t : ℕ) (s : Triggers) → Cancelled t s → Cancelled t (clear_interests t s)
unfolding Cancelled clear_interests
clear-Cancelled t s (wf, alive, bare) =
    let same : (t == t) ≡ true = ground arith in
    let new : Trigger = record (s.trigger t) { interests = λ k. 0 } in
    let own = ap (λ r. r.refs) (put-own t t new s.trigger same) in
    let old = wf.counted t alive in
    (
      requoted t s _ wf bare (omega (arith, own, old.1))
          (λ i apart. put-other t i new s.trigger (ground (arith, apart))) (refl, refl, refl, refl),
      alive,
      bare,
    )

refs_small : (t : ℕ) (s : Triggers) → Cancelled t s → (s.trigger t).refs < 4294967296
unfolding Cancelled
refs_small t s (wf, alive, bare) = (wf.counted t alive).1

purge_modems-Cancelled :
    (ms : List ℕ) (t : ℕ) (s : Triggers) → Cancelled t s → Cancelled t (purge_modems ms t s).1
unfolding purge_modems
purge_modems-Cancelled [] t s c = c
purge_modems-Cancelled (m ∷ ms) t s c =
    let r = purge_refs t (s.trigger t).refs (s.modem_triggers m) in
    let s' = set_refs t r.0 (record s { modem_triggers = put m r.1 s.modem_triggers }) in
    let small = purge_refs-small t (s.modem_triggers m) (s.trigger t).refs (refs_small t s c) in
    let c' = set_refs-Cancelled t r.0 s (put m r.1 s.modem_triggers) small c in
    elim (Bool-cases (r.0 == 0)) [
      | inl last ↦ rw last c'
      | inr more ↦ rw more (purge_modems-Cancelled ms t s' c')
    ]

purge-Cancelled :
    (t : ℕ) (s : Triggers) → WellFormed s → s.live t ≡ true → Cancelled t (purge_wild_refs t s)
unfolding Cancelled
purge-Cancelled t s wf alive =
    let old = wf.counted t alive in
    let p = loop-Purged 4 t s (omega arith) old.1 old.0 in
    let s' = purge_wild_refs t s in
    let wild = λ (i : ℕ). wild_refs-without 4 t i s.wildcards s'.wildcards (all-Purged t s s' p) in
    let same : (t == t) ≡ true = ground arith in
    (
      record {
        bytes = λ q. subst (λ f. f q < 256) (sym p.tid_free) (wf.bytes q);
        rotor = subst (λ r. r < 128) (sym p.tid_rotor) wf.rotor;
        ids = λ i less.
            ap (λ f. f (i / 8) / 2 ^ (i % 8) % 2) p.tid_free
            ∙ wf.ids i less
            ∙ ap (λ l. if l i then 1 else 0) (sym p.live);
        counted = λ i here. elim (Bool-cases (i == t)) [
          | inl own ↦
              let at : t ≡ i = ground (arith, own) in
              let bare : wild_refs 4 i s'.wildcards ≡ 0 = wild i ∙ rw own refl in
              let fits : (s'.trigger t).refs < 4294967296 = omega (arith, p.refs, old.1) in
              (omega (arith, bare), subst (λ i. (s'.trigger i).refs < 4294967296) at fits)
          | inr other ↦
              let kept = wf.counted i (ap (λ l. l i) (sym p.live) ∙ here) in
              let refs = ap (λ r. r.refs) (p.others i (λ e. ground (arith, other, e))) in
              let count_i : wild_refs 4 i s'.wildcards ≡ wild_refs 4 i s.wildcards =
                wild i ∙ rw other refl in
              (omega (arith, kept.0, refs, count_i), omega (arith, kept.1, refs))
        ];
        gone = λ i here. elim (Bool-cases (i == t)) [
          | inl own ↦ wild i ∙ rw own refl
          | inr other ↦ wild i ∙ rw other (wf.gone i (ap (λ l. l i) (sym p.live) ∙ here))
        ];
      },
      ap (λ l. l t) p.live ∙ alive,
      wild t ∙ rw same refl,
    )

or_clear-Cancelled : (t : ℕ) (r : Bool × Triggers) → Cancelled t r.1 → Cancelled t (or_clear t r).1
unfolding or_clear
or_clear-Cancelled t (true, s) c = c
or_clear-Cancelled t (false, s) c = clear-Cancelled t s c

cancel_trigger-Cancelled :
    (t : ℕ) (s : Triggers) → WellFormed s → s.live t ≡ true → Cancelled t (cancel_trigger t s).1
unfolding cancel_trigger
cancel_trigger-Cancelled t s wf alive =
    let s' = purge_wild_refs t s in
    let c = purge-Cancelled t s wf alive in
    elim (Bool-cases ((s'.trigger t).refs == 0)) [
      | inl all_gone ↦ rw all_gone c
      | inr some_left ↦ rw some_left (
          or_clear-Cancelled t _ (elim (Bool-cases ((s'.trigger t).interests 3 == 0)) [
            | inl no_modem ↦ rw no_modem c
            | inr modem ↦ rw modem (purge_modems-Cancelled s'.modems t s' c)
          ]))
    ]

delete_if-WellFormed :
    (t : ℕ) (r : Bool × Triggers) → t < 4096 → Cancelled t r.1 → WellFormed (delete_if t r)
unfolding Cancelled delete_if
delete_if-WellFormed t (true, s) low (wf, alive, bare) = delete-WellFormed t s wf alive low
delete_if-WellFormed t (false, s) low (wf, alive, bare) = wf

pub cancel-WellFormed : (t : ℕ) (s : Triggers) → WellFormed s → WellFormed (cancel_by_id t s).1
unfolding cancel_by_id
cancel-WellFormed t s wf = elim (Bool-cases (ltb t maxtid && s.live t)) [
  | inl ok ↦
      let low : t < 4096 = ground (arith, ok) in
      rw ok (delete_if-WellFormed t _ low (cancel_trigger-Cancelled t s wf (ground (arith, ok))))
  | inr bad ↦ rw bad wf
]
