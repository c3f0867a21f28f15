-- ===== src/Triggers/Tests.antt =====
-- Triggers at fixed tables and specifications.
use native.Mathlib.Nat.{zero-div}
use hylafaxplus.Prelude.{
  Bool, Bool-cases, inl, inr, put, ℕ, ◌/◌, ◌%◌, ◌^◌, ◌+◌, ◌<◌, true, false, Option, some, List, [],
  ◌∷◌, ◌++◌, ◌==◌, if◌then◌else◌, ◌≡◌, ◌⊎◌, refl, ap, arith,
}
use hylafaxplus.Triggers.{
  Trigger, Triggers, tid_next_free, find_word, is_full, free_byte, clear_from, new_trigger,
  parse_trigger, parse_spec, parse_item, and_on, class_of, after_name, read_name, after_mask,
  read_mask, hook_ref, set_interest, new_ref, set_refs, create_trigger, post_job,
}
use hylafaxplus.Triggers.Ids.{tid_next_free_lem}
use hylafaxplus.Triggers.Words.{taken}
use hylafaxplus.Triggers.Kept.{WellFormed}
use hylafaxplus.Triggers.Purged.{wild_refs}
use hylafaxplus.Triggers.Served.{
  TriggerRequest, create, cancel, job_event, serve_triggers, serve_triggers-WellFormed,
}
use hylafaxplus.Triggers.Refused.{Undone, create-Undone}
use hylafaxplus.G3.Table.{all_below, all_below_sound}
use hylafaxplus.Triggers.Posted.{messages, post_job-messages}
use hylafaxplus.Triggers.Parsed.{mask_of, parse_trigger-print}
use hylafaxplus.Triggers.Written.{Interest, print_interests}

-- Only job 3 is known, as "3".
abbrev jobs : List ℕ → Option ℕ
jobs name = some 3

abbrev devices : List ℕ → ℕ
devices name = 9

abbrev nobody : Trigger
nobody = record { refs = 0; interests = λ k. 0; client = 0 }

abbrev no_triggers : Triggers
no_triggers = record {
  tid_free = λ p. 0;
  tid_rotor = 0;
  live = λ i. false;
  trigger = λ i. nobody;
  wildcards = λ k. [];
  job_triggers = λ j. [];
  modem_triggers = λ m. [];
  modems = [];
  sent = [];
  dangling = false;
}

no_triggers-WellFormed : WellFormed no_triggers
unfolding wild_refs
no_triggers-WellFormed = record {
  bytes = λ p. omega arith;
  rotor = omega arith;
  ids = λ i less. omega (arith, ap (λ x. x % 2) (zero-div (2 ^ (i % 8))));
  counted = λ i here. ground (arith, here);
  gone = λ i here. refl;
}

tid_next_free_lem_example :
    ((tid_next_free no_triggers ≡ (4096, no_triggers))
      × ((i : ℕ) → i < 4096 → taken no_triggers.tid_free i ≡ 1))
    ⊎ (((tid_next_free no_triggers).0 < 4096)
        × (taken no_triggers.tid_free (tid_next_free no_triggers).0 ≡ 0)
        × ((i : ℕ)
            → taken (tid_next_free no_triggers).1.tid_free i
              ≡ (if i == (tid_next_free no_triggers).0 then 1 else taken no_triggers.tid_free i)))
tid_next_free_lem_example = tid_next_free_lem no_triggers (λ p. omega arith) (omega arith)

-- "J<3>00f0S*", a specification with no '>', an event of job 3, a cancellation.
abbrev requests : List TriggerRequest
requests =
    create 1 (b'J' ∷ b'<' ∷ b'3' ∷ b'>' ∷ b'0' ∷ b'0' ∷ b'f' ∷ b'0' ∷ b'S' ∷ b'*' ∷ [])
    ∷ create 2 (b'J' ∷ b'<' ∷ b'3' ∷ [])
    ∷ job_event 5 3
    ∷ cancel 0
    ∷ []

serve_triggers-WellFormed_example : WellFormed (serve_triggers jobs devices requests no_triggers)
serve_triggers-WellFormed_example =
    serve_triggers-WellFormed jobs devices requests no_triggers
      (omega arith, (omega arith, (record {}, (record {}, record {})))) no_triggers-WellFormed

-- "J*S*J*"
abbrev conflict : List ℕ
conflict = b'J' ∷ b'*' ∷ b'S' ∷ b'*' ∷ b'J' ∷ b'*' ∷ []

create-Undone_example : Undone 7 no_triggers (create_trigger jobs devices 7 conflict no_triggers)
unfolding tid_next_free find_word is_full free_byte clear_from new_trigger parse_spec parse_item
    and_on class_of after_name read_name after_mask read_mask hook_ref set_interest new_ref set_refs
    put
create-Undone_example =
    create-Undone jobs devices 7 conflict no_triggers no_triggers-WellFormed (λ e. omega (arith, e))
      (omega arith) refl

-- Trigger 4 asked for the events 4 to 7 of a job, and is on the list of job 3 and on that of any job.
abbrev one_trigger : Triggers
one_trigger = record no_triggers {
  tid_free = λ p. if p == 0 then 16 else 0;
  live = λ i. i == 4;
  trigger = λ i. record { refs = 2; interests = λ k. 240; client = i };
  wildcards = λ k. if k == 0 then 4 ∷ [] else [];
  job_triggers = λ j. 4 ∷ [];
}

abbrev is_taken_right : ℕ → Bool
is_taken_right i = taken one_trigger.tid_free i == (if i == 4 then 1 else 0)

first_byte : all_below 8 is_taken_right ≡ true
unfolding all_below
first_byte = refl

one_trigger-WellFormed : WellFormed one_trigger
unfolding wild_refs
one_trigger-WellFormed = record {
  bytes = λ p. ground arith;
  rotor = omega arith;
  ids = λ i less. elim (Bool-cases (i / 8 == 0)) [
    | inl low ↦
        let at = all_below_sound 8 is_taken_right i first_byte (ground (arith, low)) in
        ground (arith, at)
    | inr high ↦
        let none_there = ap (λ x. x % 2) (zero-div (2 ^ (i % 8))) in
        ground (arith, high, none_there)
  ];
  counted = λ i here. (ground (arith, here), omega arith);
  gone = λ i here. ground (arith, here);
}

post_job-messages_example : post_job 5 3 one_trigger ≡ record one_trigger {
  sent =
      [] ++ messages one_trigger 5 (one_trigger.job_triggers 3 ++ one_trigger.wildcards (5 / 16));
}
post_job-messages_example =
    post_job-messages 5 3 one_trigger (omega arith) one_trigger-WellFormed
      (λ t on. ground (arith, on))

abbrev two_interests : List Interest
two_interests =
    record { class = 0; name = b'3' ∷ []; mask = 240 }
    ∷ record { class = 3; name = []; mask = 65535 }
    ∷ []

parse_trigger-print_example :
    (r : Triggers) × (parse_trigger jobs devices 4 (print_interests two_interests) no_triggers
      ≡ (true, r))
    × ((k : ℕ)
        → (r.trigger 4).interests k ≡ (no_triggers.trigger 4).interests k + mask_of k two_interests)
parse_trigger-print_example =
    parse_trigger-print jobs devices 4 two_interests no_triggers
      (
        omega arith,
        ((λ e. omega (arith, e)), record {}),
        omega arith,
        (λ low named e. ground (arith, e)),
        refl,
        (omega arith, record {}, omega arith, (λ low named e. omega (arith, low)), refl, record {}),
      )
      (λ k among. refl)
