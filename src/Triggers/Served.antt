-- ===== src/Triggers/Served.antt =====
-- The table of triggers through any requests and events (Trigger::create, Trigger::cancel and
-- Trigger::post of faxd/Trigger.c++).
use hylafaxplus.Prelude.{
  ℕ, ◌+◌, ◌/◌, ◌%◌, ◌^◌, ◌<◌, Bool, true, false, Option, List, [], ◌∷◌, length, ◌==◌, ◌≡◌, ap, ◌∙◌,
  arith, Bool-cases, inl, inr,
}
use hylafaxplus.Triggers.{
  Triggers, Message, send, cancel_by_id, tid_next_free, answer, create_trigger,
}
use hylafaxplus.Triggers.Ids.{tid_next_free_lem}
use hylafaxplus.Triggers.Grown.{loop-Grown}
use hylafaxplus.Triggers.Kept.{WellFormed, Grown-WellFormed, delete-WellFormed}
use hylafaxplus.Triggers.Begun.{begun, begun-Fresh}
use hylafaxplus.Triggers.{post_list, post_event, post_job, post_modem}
use hylafaxplus.Triggers.Cancelled.{cancel-WellFormed}

pub sent-WellFormed :
    (s : Triggers) (ms : List (ℕ × Message)) → WellFormed s → WellFormed (record s { sent = ms })
sent-WellFormed s ms wf = record {
  bytes = wf.bytes;
  rotor = wf.rotor;
  ids = wf.ids;
  counted = wf.counted;
  gone = wf.gone;
}

dangling-WellFormed : (s : Triggers) → WellFormed s → WellFormed (record s { dangling = true })
dangling-WellFormed s wf = record {
  bytes = wf.bytes;
  rotor = wf.rotor;
  ids = wf.ids;
  counted = wf.counted;
  gone = wf.gone;
}

module _ (job_number : List ℕ → Option ℕ) (modem_number : List ℕ → ℕ) where
  answer-WellFormed :
      (t : ℕ) (r : Bool × Triggers)
      → t < 4096
      → r.1.live t ≡ true
      → WellFormed r.1
      → WellFormed (answer job_number modem_number t r)
  unfolding answer send
  answer-WellFormed t (true, s) low alive wf = sent-WellFormed s _ wf
  answer-WellFormed t (false, s) low alive wf =
      delete-WellFormed t (record s { sent = _ }) (sent-WellFormed s _ wf) alive low

  pub create-WellFormed :
      (client : ℕ) (spec : List ℕ) (s : Triggers)
      → length spec < 4294967296
      → WellFormed s
      → WellFormed (create_trigger job_number modem_number client spec s)
  unfolding create_trigger
  create-WellFormed client spec s short wf = elim (tid_next_free_lem s wf.bytes wf.rotor) [
    | inl (none_free, all) ↦ rw none_free (sent-WellFormed s _ wf)
    | inr (low, free, takes) ↦
        let t = (tid_next_free s).0 in
        let fresh = begun-Fresh client s wf low free takes in
        let goes : (t == 4096) ≡ false = ground (arith, low) in
        let start : ((begun client s).trigger t).refs + length spec < 4294967296 =
          omega (arith, fresh.none_yet, short) in
        let grown =
          loop-Grown job_number modem_number (length spec) t spec (begun client s) start in
        rw goes (
          answer-WellFormed t _ low (ap (λ l. l t) grown.live ∙ fresh.alive) (
            Grown-WellFormed (length spec) t (begun client s) _ fresh.well fresh.alive grown start))
  ]

post_list-WellFormed :
    (e : ℕ) (ts : List ℕ) (s : Triggers) → WellFormed s → WellFormed (post_list e ts s)
unfolding post_list send
post_list-WellFormed e [] s wf = wf
post_list-WellFormed e (t ∷ ts) s wf = post_list-WellFormed e ts _ (elim (Bool-cases (s.live t)) [
  | inr dead ↦ rw dead (dangling-WellFormed s wf)
  | inl alive ↦ elim (Bool-cases ((s.trigger t).interests (e / 16) / 2 ^ (e % 16) % 2 == 0)) [
    | inl deaf ↦ rw (alive, deaf) wf
    | inr hears ↦ rw (alive, hears) (sent-WellFormed s _ wf)
  ]
])

post_event-WellFormed :
    (e : ℕ) (own : List ℕ) (s : Triggers) → WellFormed s → WellFormed (post_event e own s)
unfolding post_event
post_event-WellFormed e own s wf = post_list-WellFormed e _ _ (post_list-WellFormed e own s wf)

-- What reaches the triggers from outside.
pub data TriggerRequest : Type 0 where
  create : ℕ → List ℕ → TriggerRequest
  cancel : ℕ → TriggerRequest
  job_event : ℕ → ℕ → TriggerRequest
  modem_event : ℕ → ℕ → TriggerRequest

-- A specification is a C string of less than 2 ^ 32 characters.
abbrev pub IsShort : TriggerRequest → Type 0
IsShort (create client spec) = length spec < 4294967296
IsShort (cancel t) = Unit
IsShort (job_event e j) = Unit
IsShort (modem_event e m) = Unit

abbrev pub AllShort : List TriggerRequest → Type 0
AllShort [] = Unit
AllShort (r ∷ rs) = IsShort r × AllShort rs

module _ (job_number : List ℕ → Option ℕ) (modem_number : List ℕ → ℕ) where
  abbrev pub serve_trigger : TriggerRequest → Triggers → Triggers
  serve_trigger (create client spec) s = create_trigger job_number modem_number client spec s
  serve_trigger (cancel t) s = (cancel_by_id t s).1
  serve_trigger (job_event e j) s = post_job e j s
  serve_trigger (modem_event e m) s = post_modem e m s

  unfoldable pub serve_triggers : List TriggerRequest → Triggers → Triggers
  serve_triggers [] s = s
  serve_triggers (r ∷ rs) s = serve_triggers rs (serve_trigger r s)

  serve_trigger-WellFormed :
      (r : TriggerRequest) (s : Triggers)
      → IsShort r
      → WellFormed s
      → WellFormed (serve_trigger r s)
  unfolding post_job post_modem
  serve_trigger-WellFormed (create client spec) s short wf =
      create-WellFormed job_number modem_number client spec s short wf
  serve_trigger-WellFormed (cancel t) s short wf = cancel-WellFormed t s wf
  serve_trigger-WellFormed (job_event e j) s short wf = post_event-WellFormed e _ s wf
  serve_trigger-WellFormed (modem_event e m) s short wf = post_event-WellFormed e _ s wf

  -- For a well-formed table of triggers and any sequence of creations, cancellations and events, with
  -- specifications of less than 2 ^ 32 characters: the table that they lead to is well-formed. The
  -- bitmap has exactly the identifiers of the table's triggers, each trigger counts at least its
  -- references on the lists of wildcards, and an identifier with no trigger is on none of them.
  pub serve_triggers-WellFormed :
      (rs : List TriggerRequest) (s : Triggers)
      → AllShort rs
      → WellFormed s
      → WellFormed (serve_triggers rs s)
  unfolding serve_triggers
  serve_triggers-WellFormed [] s short wf = wf
  serve_triggers-WellFormed (r ∷ rs) s short wf =
      serve_triggers-WellFormed rs (serve_trigger r s) short.1
        (serve_trigger-WellFormed r s short.0 wf)
