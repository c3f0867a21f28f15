-- ===== src/Triggers/Refused.antt =====
-- A specification that Trigger::parse refuses (faxd/Trigger.c++).
use mathlib.Core.Path.{subst}
use mathlib.Core.Bool.{true≢false}
use hylafaxplus.Prelude.{
  put-own, put-other, ℕ, ◌+◌, ◌<◌, Bool, true, false, Option, List, [], ◌∷◌, ◌++◌, length, ◌==◌,
  ◌≡◌, ◌≢◌, refl, sym, ap, ◌∙◌, arith, Bool-cases, inl, inr,
}
use hylafaxplus.Triggers.{
  Triggers, refused, send, delete_trigger, purge_wild_refs, tid_next_free, parse_trigger, answer,
  create_trigger,
}
use hylafaxplus.Triggers.Ids.{tid_next_free_lem}
use hylafaxplus.Triggers.Words.{taken}
use hylafaxplus.Triggers.Lists.{without, without-none}
use hylafaxplus.Triggers.Purged.{wild_refs-bound, loop-Purged}
use hylafaxplus.Triggers.Grown.{Grown, loop-Grown}
use hylafaxplus.Triggers.Kept.{WellFormed, Grown-WellFormed, all-Purged, cleared-taken}
use hylafaxplus.Triggers.Begun.{Fresh, begun, begun-Fresh}

-- The table and the lists of wildcards as before, and the client told.
pub record Undone (client : ℕ) (s s' : Triggers) : Type 0 where
  pub live : (i : ℕ) → s'.live i ≡ s.live i
  pub ids : (i : ℕ) → taken s'.tid_free i ≡ taken s.tid_free i
  pub wild : (k : ℕ) → k < 4 → s'.wildcards k ≡ s.wildcards k
  pub told : s'.sent ≡ s.sent ++ (client, refused) ∷ []

module _ (job_number : List ℕ → Option ℕ) (modem_number : List ℕ → ℕ) where
  answer-Undone :
      (b client : ℕ) (s : Triggers) (r : Bool × Triggers)
      → WellFormed s
      → Fresh client s
      → taken s.tid_free (tid_next_free s).0 ≡ 0
      → Grown b (tid_next_free s).0 (begun client s) r.1
      → WellFormed r.1
      → r.0 ≡ false
      → Undone client s (answer job_number modem_number (tid_next_free s).0 r)
  unfolding answer send delete_trigger
  answer-Undone b client s (true, u) wf fresh free g wf' bad = absurd (true≢false bad)
  answer-Undone b client s (false, u) wf fresh free g wf' bad =
      let t = (tid_next_free s).0 in
      let v : Triggers = record u { sent = u.sent ++ ((u.trigger t).client, refused) ∷ [] } in
      let old = wf'.counted t (ap (λ l. l t) g.live ∙ fresh.alive) in
      let p = loop-Purged 4 t v (omega arith) old.1 old.0 in
      let s' = purge_wild_refs t v in
      record {
        live = λ i. elim (Bool-cases (i == t)) [
          | inl own ↦
              let at : t ≡ i = ground (arith, own) in
              put-own t i false s'.live own ∙ sym fresh.unused ∙ ap s.live at
          | inr other ↦
              put-other t i false s'.live other
              ∙ ap (λ l. l i) (p.live ∙ g.live)
              ∙ fresh.before.0 i (λ e. ground (arith, other, e))
        ];
        ids = λ i.
            cleared-taken s'.tid_free t i
              (λ q. subst (λ f. f q < 256) (sym p.tid_free) (wf'.bytes q))
            ∙ elim (Bool-cases (i == t)) [
              | inl own ↦
                  let at : t ≡ i = ground (arith, own) in
                  rw own (sym free ∙ ap (taken s.tid_free) at)
              | inr other ↦
                  rw other (
                    ap (λ f. taken f i) (p.tid_free ∙ g.tid_free)
                    ∙ fresh.before.1 i
                    ∙ rw other refl)
            ];
        wild = λ k hk.
            let bound = wild_refs-bound 4 t k s.wildcards hk (omega arith) in
            all-Purged t v s' p k hk
            ∙ g.alike k
            ∙ ap (λ w. without t (w k)) fresh.before.2
            ∙ without-none t (s.wildcards k) (omega (arith, bound, wf.gone t fresh.unused));
        told =
            p.sent
            ∙ ap (λ c. u.sent ++ (c, refused) ∷ []) (g.client ∙ fresh.its_client)
            ∙ ap (λ l. l ++ (client, refused) ∷ []) (g.sent ∙ fresh.before.3);
      }

  -- For a well-formed table of triggers that has an identifier left, and a specification of less than
  -- 2 ^ 32 characters that parse refuses, whatever it has hung up before it gave up: create tells the
  -- client so, and the table, the bitmap of identifiers and the lists of wildcards are as they were.
  pub create-Undone :
      (client : ℕ) (spec : List ℕ) (s : Triggers)
      → WellFormed s
      → (tid_next_free s).0 ≢ 4096
      → length spec < 4294967296
      → (parse_trigger job_number modem_number (tid_next_free s).0 spec (begun client s)).0 ≡ false
      → Undone client s (create_trigger job_number modem_number client spec s)
  unfolding create_trigger
  create-Undone client spec s wf room short bad = elim (tid_next_free_lem s wf.bytes wf.rotor) [
    | inl (none_free, all) ↦ absurd (room (ap (λ r. r.0) none_free))
    | inr (low, free, takes) ↦
        let t = (tid_next_free s).0 in
        let fresh = begun-Fresh client s wf low free takes in
        let goes : (t == 4096) ≡ false = ground (arith, low) in
        let start : ((begun client s).trigger t).refs + length spec < 4294967296 =
          omega (arith, fresh.none_yet, short) in
        let grown =
          loop-Grown job_number modem_number (length spec) t spec (begun client s) start in
        rw goes (
          answer-Undone (length spec) client s _ wf fresh free grown
            (Grown-WellFormed (length spec) t (begun client s) _ fresh.well fresh.alive grown start)
            bad)
  ]
