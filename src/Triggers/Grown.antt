-- ===== src/Triggers/Grown.antt =====
-- What Trigger::parse does to the lists of wildcards and to the count of references (faxd/Trigger.c++).
use hylafaxplus.Prelude.{
  put, ℕ, zero, suc, ◌+◌, ◌-◌, ◌≤◌, ◌<◌, true, false, ◌&&◌, not, Option, none, some, List, [], ◌∷◌,
  ◌++◌, count, ltb, leb, ◌==◌, if◌then◌else◌, case_option, ◌≡◌, ◌≢◌, refl, ap, ◌∙◌, arith,
  Bool-cases, inl, inr, ◌▷◌,
}
use hylafaxplus.Triggers.{
  Triggers, set_refs, set_interest, new_ref, hook_modem, hook_job, hook_ref, after_mask, after_name,
  parse_item, and_on, parse_spec, class_of, read_name, read_mask, count_up,
}
use hylafaxplus.Triggers.Lists.{without, without_end, count_end}
use hylafaxplus.Triggers.Purged.{wild_refs}

-- At most b references to t have been added, each counted, and nothing else has changed but t's
-- interests and the lists of jobs and modems.
pub record Grown (b t : ℕ) (s s' : Triggers) : Type 0 where
  pub alike : (k : ℕ) → without t (s'.wildcards k) ≡ without t (s.wildcards k)
  pub refs :
      wild_refs 4 t s'.wildcards + (s.trigger t).refs
      ≤ (s'.trigger t).refs + wild_refs 4 t s.wildcards
  pub bound : (s'.trigger t).refs ≤ (s.trigger t).refs + b
  pub client : (s'.trigger t).client ≡ (s.trigger t).client
  pub others : (i : ℕ) → i ≢ t → s'.trigger i ≡ s.trigger i
  pub live : s'.live ≡ s.live
  pub tid_free : s'.tid_free ≡ s.tid_free
  pub tid_rotor : s'.tid_rotor ≡ s.tid_rotor
  pub sent : s'.sent ≡ s.sent

same-Grown : (b t : ℕ) (s : Triggers) → Grown b t s s
same-Grown b t s = record {
  alike = λ k. refl;
  refs = omega arith;
  bound = omega arith;
  client = refl;
  others = λ i apart. refl;
  live = refl;
  tid_free = refl;
  tid_rotor = refl;
  sent = refl;
}

then-Grown :
    (b c d t : ℕ) (s1 s2 s3 : Triggers)
    → Grown b t s1 s2
    → Grown c t s2 s3
    → b + c ≤ d
    → Grown d t s1 s3
then-Grown b c d t s1 s2 s3 g h le = record {
  alike = λ k. h.alike k ∙ g.alike k;
  refs = omega (arith, g.refs, h.refs);
  bound = omega (arith, g.bound, h.bound, le);
  client = h.client ∙ g.client;
  others = λ i apart. h.others i apart ∙ g.others i apart;
  live = h.live ∙ g.live;
  tid_free = h.tid_free ∙ g.tid_free;
  tid_rotor = h.tid_rotor ∙ g.tid_rotor;
  sent = h.sent ∙ g.sent;
}

wild_refs_end :
    (n t k : ℕ) (w : ℕ → List ℕ)
    → n ≤ 4
    → wild_refs n t (put k (w k ++ t ∷ []) w)
      ≡ wild_refs n t w + (if leb (4 - n) k && ltb k 4 then 1 else 0)
unfolding wild_refs put
wild_refs_end zero t k w h = ground arith
wild_refs_end (suc n) t k w h = elim (Bool-cases (3 - n == k)) [
  | inl here ↦
      let at : k ≡ 3 - n = ground (arith, here) in
      let one = count_end t (w k) in
      let same = ap (λ k. count t (w k)) at in
      rw here (ground (arith, wild_refs_end n t k w (omega (arith, h)), here, h, one, same))
  | inr there ↦ rw there (ground (arith, wild_refs_end n t k w (omega (arith, h)), there, h))
]

-- The trigger that a reference has been made to.
abbrev hooked : ℕ → ℕ → ℕ → Triggers → Triggers
hooked k t m s = s ▷ set_interest t k m ▷ new_ref t

-- Where the reference is hung up does not matter to the rest.
ref-Grown :
    (k t m : ℕ) (s s' : Triggers)
    → s'.trigger ≡ (hooked k t m s).trigger
    → ((j : ℕ) → without t (s'.wildcards j) ≡ without t (s.wildcards j))
    → wild_refs 4 t s'.wildcards ≤ wild_refs 4 t s.wildcards + 1
    → (s'.live ≡ s.live)
      × (s'.tid_free ≡ s.tid_free)
      × (s'.tid_rotor ≡ s.tid_rotor)
      × (s'.sent ≡ s.sent)
    → (s.trigger t).refs < 4294967295
    → Grown 1 t s s'
unfolding set_interest new_ref set_refs put
ref-Grown k t m s s' made alike more rest small =
    let same : (t == t) ≡ true = ground arith in
    let own : s'.trigger t ≡ record (s.trigger t) {
      refs = count_up (s.trigger t).refs;
      interests = put k m (s.trigger t).interests;
    } =
      ap (λ f. f t) made ∙ rw same refl in
    let refs = ap (λ r. r.refs) own in
    record {
      alike = alike;
      refs = omega (arith, refs, small, more);
      bound = omega (arith, refs, small);
      client = ap (λ r. r.client) own;
      others = λ i apart.
          let off : (i == t) ≡ false = ground (arith, apart) in ap (λ f. f i) made ∙ rw off refl;
      live = rest.0;
      tid_free = rest.1;
      tid_rotor = rest.2;
      sent = rest.3;
    }

wild-alike :
    (k t : ℕ) (s : Triggers) (j : ℕ)
    → without t (put k (s.wildcards k ++ t ∷ []) s.wildcards j) ≡ without t (s.wildcards j)
unfolding put
wild-alike k t s j = elim (Bool-cases (j == k)) [
  | inl here ↦
      let at : k ≡ j = ground (arith, here) in
      rw here (without_end t (s.wildcards k) ∙ ap (λ i. without t (s.wildcards i)) at)
  | inr there ↦ rw there refl
]

module _ (job_number : List ℕ → Option ℕ) (modem_number : List ℕ → ℕ) where
  hook-Grown :
      (k t m : ℕ) (name : List ℕ) (s : Triggers)
      → (s.trigger t).refs < 4294967295
      → Grown 1 t s (hook_ref job_number modem_number k t name (hooked k t m s)).1
  unfolding hook_ref hook_job hook_modem set_interest new_ref set_refs
  hook-Grown k t m [] s small =
      ref-Grown k t m s _ refl (wild-alike k t s)
        (ground (arith, wild_refs_end 4 t k s.wildcards (omega arith))) (refl, refl, refl, refl)
        small
  hook-Grown k t m (c ∷ cs) s small = elim (Bool-cases (leb 2 k)) [
    | inl modem ↦
        rw modem (ref-Grown k t m s _ refl (λ j. refl) (omega arith) (refl, refl, refl, refl) small)
    | inr job ↦ rw job (job-Grown (job_number (c ∷ cs)) k t m s small)
  ]
    where
      job-Grown :
          (j : Option ℕ) (k t m : ℕ) (s : Triggers)
          → (s.trigger t).refs < 4294967295
          → Grown 1 t s (hook_job job_number modem_number j t (hooked k t m s)).1
      job-Grown none k t m s small =
          ref-Grown k t m s _ refl (λ j. refl) (omega arith) (refl, refl, refl, refl) small
      job-Grown (some j) k t m s small =
          ref-Grown k t m s _ refl (λ j. refl) (omega arith) (refl, refl, refl, refl) small

  mask-Grown :
      (k t : ℕ) (name : List ℕ) (r : Option (ℕ × List ℕ)) (s : Triggers)
      → (s.trigger t).refs < 4294967295
      → Grown 1 t s (after_mask job_number modem_number k t name r s).1
  unfolding after_mask
  mask-Grown k t name none s small = same-Grown 1 t s
  mask-Grown k t name (some (m, cs)) s small = hook-Grown k t m name s small

  name-Grown :
      (k t : ℕ) (r : Option (List ℕ × List ℕ)) (s : Triggers)
      → (s.trigger t).refs < 4294967295
      → Grown 1 t s (after_name job_number modem_number k t r s).1
  unfolding after_name
  name-Grown k t none s small = same-Grown 1 t s
  name-Grown k t (some (name, cs)) s small =
      elim (Bool-cases (not ((s.trigger t).interests k == 0))) [
        | inl conflict ↦ rw conflict (same-Grown 1 t s)
        | inr clear ↦ rw clear (mask-Grown k t name (read_mask cs) s small)
      ]

  item-Grown :
      (c t : ℕ) (cs : List ℕ) (s : Triggers)
      → (s.trigger t).refs < 4294967295
      → Grown 1 t s (parse_item job_number modem_number c t cs s).1
  unfolding parse_item
  item-Grown c t cs s small =
      elim (class_of c)
        as (λ o.
          Grown 1 t s
            (case_option o (some cs, s)
              (λ k. after_name job_number modem_number k t (read_name cs) s)).1) [
                | none ↦ same-Grown 1 t s
                | some k ↦ name-Grown k t (read_name cs) s small
              ]

  and_on-Grown :
      (fuel t : ℕ) (r : Option (List ℕ) × Triggers)
      → ((cs : List ℕ) → Grown fuel t r.1 (parse_spec job_number modem_number fuel t cs r.1).1)
      → Grown fuel t r.1
          (and_on job_number modem_number (parse_spec job_number modem_number fuel t) r).1
  unfolding and_on
  and_on-Grown fuel t (none, s) h = same-Grown fuel t s
  and_on-Grown fuel t (some cs, s) h = h cs

  pub loop-Grown :
      (fuel t : ℕ) (cs : List ℕ) (s : Triggers)
      → (s.trigger t).refs + fuel < 4294967296
      → Grown fuel t s (parse_spec job_number modem_number fuel t cs s).1
  unfolding parse_spec
  loop-Grown fuel t [] s small = same-Grown fuel t s
  loop-Grown zero t (c ∷ cs) s small = same-Grown zero t s
  loop-Grown (suc fuel) t (c ∷ cs) s small =
      let one = item-Grown c t cs s (omega (arith, small)) in
      then-Grown 1 fuel (suc fuel) t s _ _ one
        (and_on-Grown fuel t (parse_item job_number modem_number c t cs s)
          (λ rest. loop-Grown fuel t rest _ (omega (arith, one.bound, small))))
        (omega arith)
