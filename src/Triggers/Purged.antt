-- ===== src/Triggers/Purged.antt =====
-- Trigger::purgeWildRefs and Trigger::~Trigger (faxd/Trigger.c++).
use hylafaxplus.Prelude.{
  put, ℕ, zero, suc, ◌+◌, ◌-◌, ◌≤◌, ◌<◌, true, false, List, count, leb, ◌==◌, if◌then◌else◌, ◌≡◌,
  ◌≢◌, refl, sym, ap, ◌∙◌, arith, Bool-cases, inl, inr,
}
use hylafaxplus.Triggers.{Triggers, set_refs, purge_wild_class, purge_wild_loop}
use hylafaxplus.Triggers.Lists.{without, without-none, purge_refs_lem}

-- The references to t on the last n lists of wildcards.
unfoldable pub wild_refs : ℕ → ℕ → (ℕ → List ℕ) → ℕ
wild_refs zero t w = 0
wild_refs (suc n) t w = count t (w (3 - n)) + wild_refs n t w

-- The last n lists of wildcards have lost their references to t, and nothing else has changed.
pub record Purged (n t : ℕ) (s s' : Triggers) : Type 0 where
  pub wild :
      (k : ℕ)
      → k < 4
      → s'.wildcards k ≡ (if leb (4 - n) k then without t (s.wildcards k) else s.wildcards k)
  pub refs : (s'.trigger t).refs ≡ (s.trigger t).refs - wild_refs n t s.wildcards
  pub client : (s'.trigger t).client ≡ (s.trigger t).client
  pub others : (i : ℕ) → i ≢ t → s'.trigger i ≡ s.trigger i
  pub live : s'.live ≡ s.live
  pub tid_free : s'.tid_free ≡ s.tid_free
  pub tid_rotor : s'.tid_rotor ≡ s.tid_rotor
  pub sent : s'.sent ≡ s.sent

-- The next class purged.
class-Purged :
    (n t : ℕ) (s : Triggers)
    → n < 4
    → (s.trigger t).refs < 4294967296
    → count t (s.wildcards (3 - n)) ≤ (s.trigger t).refs
    → (purge_wild_class t (3 - n) s
        ≡ set_refs t
            ((s.trigger t).refs - count t (s.wildcards (3 - n)))
            (record s { wildcards = put (3 - n) (without t (s.wildcards (3 - n))) s.wildcards }))
unfolding purge_wild_class
class-Purged n t s low small fits =
    rw (purge_refs_lem t (s.trigger t).refs (s.wildcards (3 - n)) small fits) refl

wild_refs-put :
    (m n t : ℕ) (l : List ℕ) (w : ℕ → List ℕ)
    → m ≤ n
    → n < 4
    → wild_refs m t (put (3 - n) l w) ≡ wild_refs m t w
unfolding wild_refs put
wild_refs-put zero n t l w h low = refl
wild_refs-put (suc m) n t l w h low =
    let apart : (3 - m == 3 - n) ≡ false = ground (arith, h, low) in
    rw apart (ap (λ x. count t (w (3 - m)) + x) (wild_refs-put m n t l w (omega (arith, h)) low))

pub wild_refs-bound :
    (n t k : ℕ) (w : ℕ → List ℕ) → k < 4 → 4 - n ≤ k → count t (w k) ≤ wild_refs n t w
unfolding wild_refs
wild_refs-bound zero t k w hk h = absurd (omega (arith, hk, h))
wild_refs-bound (suc n) t k w hk h = elim (Bool-cases (k == 3 - n)) [
  | inl here ↦
      let at : 3 - n ≡ k = ground (arith, here) in
      let same = ap (λ k. count t (w k)) at in omega (arith, same)
  | inr there ↦ let ih = wild_refs-bound n t k w hk (ground (arith, there, h)) in omega (arith, ih)
]

-- The state behind one class.
abbrev next : ℕ → ℕ → Triggers → Triggers
next n t s =
    set_refs t ((s.trigger t).refs - count t (s.wildcards (3 - n)))
      (record s { wildcards = put (3 - n) (without t (s.wildcards (3 - n))) s.wildcards })

done-Purged :
    (n t : ℕ) (s : Triggers)
    → (s.trigger t).refs ≡ 0
    → wild_refs n t s.wildcards ≤ (s.trigger t).refs
    → Purged n t s s
done-Purged n t s none fits = record {
  wild = λ k hk. elim (Bool-cases (leb (4 - n) k)) [
    | inl in_range ↦
        let bound = wild_refs-bound n t k s.wildcards hk (ground (arith, in_range)) in
        rw in_range (sym (without-none t (s.wildcards k) (omega (arith, bound, none, fits))))
    | inr out ↦ rw out refl
  ];
  refs = omega (arith, none);
  client = refl;
  others = λ i apart. refl;
  live = refl;
  tid_free = refl;
  tid_rotor = refl;
  sent = refl;
}

more-Purged :
    (n t : ℕ) (s s' : Triggers)
    → n < 4
    → wild_refs (suc n) t s.wildcards ≤ (s.trigger t).refs
    → Purged n t (next n t s) s'
    → Purged (suc n) t s s'
unfolding wild_refs set_refs put
more-Purged n t s s' low fits p =
    let same : (t == t) ≡ true = ground arith in
    let kept =
      wild_refs-put n n t (without t (s.wildcards (3 - n))) s.wildcards (omega arith) low in
    record {
      wild = λ k hk. p.wild k hk ∙ elim (Bool-cases (k == 3 - n)) [
        | inl here ↦
            let out : leb (4 - n) k ≡ false = ground (arith, here, low) in
            let in_range : leb (4 - suc n) k ≡ true = ground (arith, here, low) in
            let at : 3 - n ≡ k = ground (arith, here) in
            rw (out, in_range, here) (ap (λ j. without t (s.wildcards j)) at)
        | inr there ↦
            let alike : leb (4 - n) k ≡ leb (4 - suc n) k = ground (arith, there, low) in
            rw (there, alike) refl
      ];
      refs = p.refs ∙ rw (same, kept) (omega arith);
      client = p.client ∙ rw same refl;
      others = λ i apart.
          let off : (i == t) ≡ false = ground (arith, apart) in p.others i apart ∙ rw off refl;
      live = p.live;
      tid_free = p.tid_free;
      tid_rotor = p.tid_rotor;
      sent = p.sent;
    }

next-refs :
    (n t : ℕ) (s : Triggers)
    → ((next n t s).trigger t).refs ≡ (s.trigger t).refs - count t (s.wildcards (3 - n))
unfolding set_refs put
next-refs n t s = let same : (t == t) ≡ true = ground arith in rw same refl

next-wild :
    (n t : ℕ) (s : Triggers)
    → n < 4
    → wild_refs n t (next n t s).wildcards ≡ wild_refs n t s.wildcards
unfolding set_refs
next-wild n t s low =
    wild_refs-put n n t (without t (s.wildcards (3 - n))) s.wildcards (omega arith) low

pub loop-Purged :
    (n t : ℕ) (s : Triggers)
    → n ≤ 4
    → (s.trigger t).refs < 4294967296
    → wild_refs n t s.wildcards ≤ (s.trigger t).refs
    → Purged n t s (purge_wild_loop n t s)
unfolding purge_wild_loop wild_refs
loop-Purged zero t s low small fits = record {
  wild = λ k hk. let out : leb 4 k ≡ false = ground (arith, hk) in rw out refl;
  refs = omega arith;
  client = refl;
  others = λ i apart. refl;
  live = refl;
  tid_free = refl;
  tid_rotor = refl;
  sent = refl;
}
loop-Purged (suc n) t s low small fits = elim (Bool-cases ((s.trigger t).refs == 0)) [
  | inl none_left ↦ rw none_left (done-Purged (suc n) t s (ground (arith, none_left)) fits)
  | inr some_left ↦
      let one : count t (s.wildcards (3 - n)) ≤ (s.trigger t).refs = omega (arith, fits) in
      let step = class-Purged n t s low small one in
      let first = next-refs n t s in
      rw (some_left, step)
        (more-Purged n t s _ low fits (
          loop-Purged n t (next n t s) (omega (arith, low)) (omega (arith, first, small))
            (omega (arith, first, next-wild n t s low, fits))))
]
