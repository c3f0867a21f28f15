-- ===== src/Triggers/Posted.antt =====
-- Which clients an event reaches (Trigger::post of faxd/Trigger.c++).
use mathlib.Core.List.{append_assoc, append-nil}
use hylafaxplus.Prelude.{
  ℕ, zero, suc, ◌/◌, ◌%◌, ◌^◌, ◌<◌, Bool, true, not, count, List, [], ◌∷◌, ◌++◌, ◌==◌,
  if◌then◌else◌, ◌≡◌, refl, sym, ap, ◌∙◌, arith, Bool-cases, inl, inr,
}
use hylafaxplus.Triggers.Purged.{wild_refs}
use hylafaxplus.Triggers.Kept.{WellFormed}
use hylafaxplus.Triggers.{Triggers, Message, event, send, post_list, post_event, post_job}

-- The trigger's mask of the event's class has the event's bit.
abbrev pub hears : Triggers → ℕ → ℕ → Bool
hears s e t = not ((s.trigger t).interests (e / 16) / 2 ^ (e % 16) % 2 == 0)

-- A message for each trigger of the list that asked for the event.
unfoldable pub messages : Triggers → ℕ → List ℕ → List (ℕ × Message)
messages s e [] = []
messages s e (t ∷ ts) =
    if hears s e t then ((s.trigger t).client, event e) ∷ messages s e ts else messages s e ts

messages-append :
    (s : Triggers) (e : ℕ) (ts us : List ℕ)
    → messages s e (ts ++ us) ≡ messages s e ts ++ messages s e us
unfolding messages
messages-append s e [] us = refl
messages-append s e (t ∷ ts) us = elim (Bool-cases (hears s e t)) [
  | inl yes_bit ↦
      rw yes_bit (ap (λ l. ((s.trigger t).client, event e) ∷ l) (messages-append s e ts us))
  | inr no_bit ↦ rw no_bit (messages-append s e ts us)
]

-- No trigger of the list has been deleted.
abbrev pub AllLive : Triggers → List ℕ → Type 0
AllLive s ts = (t : ℕ) → 0 < count t ts → s.live t ≡ true

post_list-messages :
    (e : ℕ) (ts : List ℕ) (s : Triggers) (ms : List (ℕ × Message))
    → AllLive s ts
    → post_list e ts (record s { sent = ms }) ≡ record s { sent = ms ++ messages s e ts }
unfolding post_list messages send
post_list-messages e [] s ms all = ap (λ l. record s { sent = l }) (sym (append-nil ms))
post_list-messages e (t ∷ ts) s ms all =
    let alive = all t (ground arith) in
    let others : AllLive s ts = λ i h. all i (ground (arith, h)) in
    elim (Bool-cases ((s.trigger t).interests (e / 16) / 2 ^ (e % 16) % 2 == 0)) [
      | inl deaf ↦ rw (alive, deaf) (post_list-messages e ts s ms others)
      | inr bit ↦
          rw (alive, bit)
            (post_list-messages e ts s (ms ++ ((s.trigger t).client, event e) ∷ []) others
              ∙ ap (λ l. record s { sent = l })
                  (append_assoc ms (((s.trigger t).client, event e) ∷ []) (messages s e ts)))
    ]

-- In a well-formed table the lists of wildcards refer to no deleted trigger.
wildcards-AllLive : (s : Triggers) (k : ℕ) → k < 4 → WellFormed s → AllLive s (s.wildcards k)
unfolding wild_refs
wildcards-AllLive s k low wf t on = elim (Bool-cases (s.live t)) [
  | inl alive ↦ alive
  | inr dead ↦ absurd (listed k low (wf.gone t dead) on)
]
  where
    listed : (k : ℕ) → k < 4 → wild_refs 4 t s.wildcards ≡ 0 → ¬ (0 < count t (s.wildcards k))
    listed zero h none_left on = omega (arith, none_left, on)
    listed (suc zero) h none_left on = omega (arith, none_left, on)
    listed (suc (suc zero)) h none_left on = omega (arith, none_left, on)
    listed (suc (suc (suc zero))) h none_left on = omega (arith, none_left, on)
    listed (suc (suc (suc (suc k)))) h none_left on = omega (arith, h)

-- For a well-formed table, an event of one of the four classes, and a job whose list refers to no
-- deleted trigger: posting the event of the job reads no deleted trigger. It sends a message to the
-- client of each trigger on the job's list, then of each on the list of wildcards of the event's
-- class, that has the event's bit in its mask of that class, once for each place on a list, in their
-- order, whichever job its specification names; and nothing else changes.
pub post_job-messages :
    (e j : ℕ) (s : Triggers)
    → e < 64
    → WellFormed s
    → AllLive s (s.job_triggers j)
    → post_job e j s
      ≡ record s { sent = s.sent ++ messages s e (s.job_triggers j ++ s.wildcards (e / 16)) }
unfolding post_job post_event
post_job-messages e j s low wf own =
    let wild = wildcards-AllLive s (e / 16) (omega (arith, low)) wf in
    let before = s.sent ++ messages s e (s.job_triggers j) in
    ap (post_list e (s.wildcards (e / 16))) (post_list-messages e (s.job_triggers j) s s.sent own)
    ∙ post_list-messages e (s.wildcards (e / 16)) s before wild
    ∙ ap (λ l. record s { sent = l })
        (append_assoc s.sent (messages s e (s.job_triggers j)) (messages s e (s.wildcards (e / 16)))
          ∙ ap (λ l. s.sent ++ l)
              (sym (messages-append s e (s.job_triggers j) (s.wildcards (e / 16)))))
