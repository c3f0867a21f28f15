-- ===== src/Triggers.antt =====
-- Triggers: the events that clients ask for (faxd/Trigger.c++, faxd/Trigger.h, faxd/TriggerRef.c++).
-- A trigger is a number, its place in the master table; a list of TriggerRefs is the list of the
-- triggers they refer to. Texts are lists of character codes; the names of jobs and modems are given
-- numbers by `job_number` (Job::getJobByID) and `modem_number` (Modem::getModemByID). The clients'
-- counts of references and HylaClient::send beyond the message are left out.
pub mod Bitmap
pub mod Words
pub mod Ids
pub mod Lists
pub mod Grown
pub mod Purged
pub mod Kept
pub mod Begun
pub mod Cancelled
pub mod Served
pub mod Refused
pub mod Written
pub mod Parsed
pub mod Posted
mod Tests
use Prim.Native.Nat.{bit_or, bit_and}
use hylafaxplus.Prelude.{
  put, ℕ, zero, suc, ◌+◌, ◌-◌, ◌*◌, ◌/◌, ◌%◌, ◌^◌, Bool, true, false, ◌&&◌, ◌||◌, not, Option, none,
  some, List, [], ◌∷◌, ◌++◌, length, ltb, leb, ◌==◌, if◌then◌else◌, case_option, ◌▷◌,
}

-- class Trigger: its references, the masks of the four classes of events, its client.
pub record Trigger : Type 0 where
  pub refs : ℕ
  pub interests : ℕ → ℕ
  pub client : ℕ

pub data Message : Type 0 where
  refused : Message
  accepted : ℕ → Message
  event : ℕ → Message

-- The static members of Trigger, and the lists of references of jobs and modems. `tid_free` is the
-- bitmap by bytes; the object of a trigger is in `trigger`, and `live` says where the master table has
-- one. `dangling` is set where a list still refers to a trigger that has been deleted, and the freed
-- object is read.
pub record Triggers : Type 0 where
  pub tid_free : ℕ → ℕ
  pub tid_rotor : ℕ
  pub live : ℕ → Bool
  pub trigger : ℕ → Trigger
  pub wildcards : ℕ → List ℕ
  pub job_triggers : ℕ → List ℕ
  pub modem_triggers : ℕ → List ℕ
  pub modems : List ℕ
  pub sent : List (ℕ × Message)
  pub dangling : Bool

abbrev pub maxtid : ℕ
maxtid = 4096

abbrev pub maxwds : ℕ
maxwds = 128

-- tidFree[r] == (u_int) -1
unfoldable pub is_full : (ℕ → ℕ) → ℕ → Bool
is_full bytes r =
    bytes (4 * r) == 255
    && (bytes (4 * r + 1) == 255 && (bytes (4 * r + 2) == 255 && bytes (4 * r + 3) == 255))

-- while (r != tidRotor && tidFree[r] == (u_int) -1)
unfoldable pub next_word : ℕ → (ℕ → ℕ) → ℕ → ℕ → ℕ
next_word zero bytes rotor r = r
next_word (suc fuel) bytes rotor r =
    let rest = next_word fuel bytes rotor ((r + 1) % maxwds) in
    if not (r == rotor) && is_full bytes r then rest else r

unfoldable pub find_word : (ℕ → ℕ) → ℕ → ℕ
find_word bytes rotor =
    if is_full bytes rotor then next_word 128 bytes rotor ((rotor + 1) % maxwds) else rotor

-- The first clear bit of a byte (the table ffc).
unfoldable pub clear_from : ℕ → ℕ → ℕ → ℕ
clear_from zero i v = i
clear_from (suc n) i v = let rest = clear_from n (suc i) (v / 2) in if v % 2 == 0 then i else rest

abbrev pub ffc : ℕ → ℕ
ffc v = clear_from 8 0 v

-- The byte of word r that has a clear bit.
unfoldable pub free_byte : (ℕ → ℕ) → ℕ → ℕ
free_byte bytes r =
    if not (bytes (4 * r) == 255)
    then 4 * r
    else if not (bytes (4 * r + 1) == 255)
    then 4 * r + 1
    else if not (bytes (4 * r + 2) == 255)
    then 4 * r + 2
    else 4 * r + 3

-- Trigger::tidNextFree
unfoldable pub tid_next_free : Triggers → ℕ × Triggers
tid_next_free s =
    let r = find_word s.tid_free s.tid_rotor in
    let p = free_byte s.tid_free r in
    let b = ffc (s.tid_free p) in
    if is_full s.tid_free s.tid_rotor && r == s.tid_rotor then (maxtid, s) else (
      8 * p + b,
      record s { tid_free = put p (bit_or (s.tid_free p) (2 ^ b)) s.tid_free; tid_rotor = r },
    )

abbrev pub count_up : ℕ → ℕ
count_up n = (n + 1) % 4294967296

abbrev pub count_down : ℕ → ℕ
count_down n = (n + 4294967295) % 4294967296

-- Trigger::Trigger
unfoldable pub new_trigger : ℕ → ℕ → Triggers → Triggers
new_trigger t client s = record s {
  live = put t true s.live;
  trigger = put t (record { refs = 0; interests = λ k. 0; client = client }) s.trigger;
}

-- TriggerRef::purge of one trigger: its references, and the list.
unfoldable pub purge_refs : ℕ → ℕ → List ℕ → ℕ × List ℕ
purge_refs t refs [] = (refs, [])
purge_refs t refs (r ∷ rs) =
    let left = count_down refs in
    let rest = purge_refs t (if r == t then left else refs) rs in
    if r == t then (if left == 0 then (0, rs) else rest) else (rest.0, r ∷ rest.1)

unfoldable pub set_refs : ℕ → ℕ → Triggers → Triggers
set_refs t n s = record s { trigger = put t (record (s.trigger t) { refs = n }) s.trigger }

unfoldable pub purge_wild_class : ℕ → ℕ → Triggers → Triggers
purge_wild_class t k s =
    let r = purge_refs t (s.trigger t).refs (s.wildcards k) in
    set_refs t r.0 (record s { wildcards = put k r.1 s.wildcards })

-- Trigger::purgeWildRefs, from class 4 - n on.
unfoldable pub purge_wild_loop : ℕ → ℕ → Triggers → Triggers
purge_wild_loop zero t s = s
purge_wild_loop (suc n) t s =
    let rest = purge_wild_loop n t (purge_wild_class t (3 - n) s) in
    if (s.trigger t).refs == 0 then s else rest

abbrev pub purge_wild_refs : ℕ → Triggers → Triggers
purge_wild_refs t s = purge_wild_loop 4 t s

-- Trigger::~Trigger
unfoldable pub delete_trigger : ℕ → Triggers → Triggers
delete_trigger t s =
    let s' = purge_wild_refs t s in
    record s' {
      live = put t false s'.live;
      tid_free = put (t / 8) (bit_and (s'.tid_free (t / 8)) (255 - 2 ^ (t % 8))) s'.tid_free;
    }

unfoldable pub send : ℕ → Message → Triggers → Triggers
send t m s = record s { sent = s.sent ++ ((s.trigger t).client, m) ∷ [] }

-- The classes of a specification: base >> 4.
unfoldable pub class_of : ℕ → Option ℕ
class_of c =
    if c == b'J'
    then some 0
    else if c == b'S'
    then some 1
    else if c == b'R'
    then some 2
    else if c == b'M'
    then some 3
    else none

unfoldable pub with_char : ℕ → Option (List ℕ × List ℕ) → Option (List ℕ × List ℕ)
with_char c none = none
with_char c (some (name, cs)) = some (c ∷ name, cs)

-- for (tp = ++cp; *tp != '>'; tp++)
unfoldable pub to_close : List ℕ → Option (List ℕ × List ℕ)
to_close [] = none
to_close (c ∷ cs) = let rest = to_close cs in if c == b'>' then some ([], cs) else with_char c rest

unfoldable pub read_name : List ℕ → Option (List ℕ × List ℕ)
read_name [] = some ([], [])
read_name (c ∷ cs) = if c == b'<' then to_close cs else some ([], c ∷ cs)

-- isxdigit, and the digit's value.
unfoldable pub hex_digit : ℕ → Option ℕ
hex_digit c =
    if leb 48 c && leb c 57
    then some (c - 48)
    else if leb 97 c && leb c 102
    then some (10 + (c - 97))
    else if leb 65 c && leb c 70
    then some (10 + (c - 65))
    else none

unfoldable pub read_hex : ℕ → ℕ → List ℕ → Option (ℕ × List ℕ)
read_hex zero v cs = some (v, cs)
read_hex (suc n) v [] = none
read_hex (suc n) v (c ∷ cs) = case_option (hex_digit c) none (λ d. read_hex n (v * 16 + d) cs)

unfoldable pub read_mask : List ℕ → Option (ℕ × List ℕ)
read_mask [] = none
read_mask (c ∷ cs) = if c == b'*' then some (65535, cs) else read_hex 4 0 (c ∷ cs)

unfoldable pub set_interest : ℕ → ℕ → ℕ → Triggers → Triggers
set_interest t k m s =
    let tr = s.trigger t in
    record s { trigger = put t (record tr { interests = put k m tr.interests }) s.trigger }

-- TriggerRef::TriggerRef
unfoldable pub new_ref : ℕ → Triggers → Triggers
new_ref t s = set_refs t (count_up (s.trigger t).refs) s

module _ (job_number : List ℕ → Option ℕ) (modem_number : List ℕ → ℕ) where
  abbrev pub is_modem : ℕ → List ℕ → Bool
  is_modem m [] = false
  is_modem m (x ∷ xs) = x == m || is_modem m xs

  -- Modem::getModemByID makes the modem if there is none.
  unfoldable pub hook_modem : ℕ → ℕ → Triggers → Triggers
  hook_modem m t s = record s {
    modems = (if is_modem m s.modems then s.modems else s.modems ++ m ∷ []);
    modem_triggers = put m (s.modem_triggers m ++ t ∷ []) s.modem_triggers;
  }

  unfoldable pub hook_job : Option ℕ → ℕ → Triggers → Bool × Triggers
  hook_job none t s = (false, s)
  hook_job (some j) t s =
      (true, record s { job_triggers = put j (s.job_triggers j ++ t ∷ []) s.job_triggers })

  -- Where the reference is hung up.
  unfoldable pub hook_ref : ℕ → ℕ → List ℕ → Triggers → Bool × Triggers
  hook_ref k t [] s = (true, record s { wildcards = put k (s.wildcards k ++ t ∷ []) s.wildcards })
  hook_ref k t (c ∷ cs) s =
      if leb 2 k
      then (true, hook_modem (modem_number (c ∷ cs)) t s)
      else hook_job (job_number (c ∷ cs)) t s

  unfoldable pub after_mask :
      ℕ → ℕ → List ℕ → Option (ℕ × List ℕ) → Triggers → Option (List ℕ) × Triggers
  after_mask k t name none s = (none, s)
  after_mask k t name (some (m, cs)) s =
      let r = hook_ref k t name (s ▷ set_interest t k m ▷ new_ref t) in
      (if r.0 then some cs else none, r.1)

  unfoldable pub after_name :
      ℕ → ℕ → Option (List ℕ × List ℕ) → Triggers → Option (List ℕ) × Triggers
  after_name k t none s = (none, s)
  after_name k t (some (name, cs)) s =
      if not ((s.trigger t).interests k == 0)
      then (none, s)
      else after_mask k t name (read_mask cs) s

  -- A round of the loop of parse: the rest of the specification, or none for a refusal.
  unfoldable pub parse_item : ℕ → ℕ → List ℕ → Triggers → Option (List ℕ) × Triggers
  parse_item c t cs s = case_option (class_of c) (some cs, s) (λ k. after_name k t (read_name cs) s)

  unfoldable pub and_on :
      (List ℕ → Triggers → Bool × Triggers) → Option (List ℕ) × Triggers → Bool × Triggers
  and_on f (none, s) = (false, s)
  and_on f (some cs, s) = f cs s

  unfoldable pub parse_spec : ℕ → ℕ → List ℕ → Triggers → Bool × Triggers
  parse_spec fuel t [] s = (true, s)
  parse_spec zero t (c ∷ cs) s = (true, s)
  parse_spec (suc fuel) t (c ∷ cs) s = and_on (parse_spec fuel t) (parse_item c t cs s)

  -- Trigger::parse
  abbrev pub parse_trigger : ℕ → List ℕ → Triggers → Bool × Triggers
  parse_trigger t spec s = parse_spec (length spec) t spec s

  unfoldable pub answer : ℕ → Bool × Triggers → Triggers
  answer t (true, s) = send t (accepted t) s
  answer t (false, s) = s ▷ send t refused ▷ delete_trigger t

  -- Trigger::create
  unfoldable pub create_trigger : ℕ → List ℕ → Triggers → Triggers
  create_trigger client spec s =
      let r = tid_next_free s in
      if r.0 == maxtid
      then record (r.1) { sent = r.1.sent ++ (client, refused) ∷ [] }
      else answer r.0 (parse_trigger r.0 spec (new_trigger r.0 client r.1))

-- The loop over the modems in Trigger::cancel; true if no reference is left.
unfoldable pub purge_modems : List ℕ → ℕ → Triggers → Bool × Triggers
purge_modems [] t s = (false, s)
purge_modems (m ∷ ms) t s =
    let r = purge_refs t (s.trigger t).refs (s.modem_triggers m) in
    let s' = set_refs t r.0 (record s { modem_triggers = put m r.1 s.modem_triggers }) in
    let rest = purge_modems ms t s' in if r.0 == 0 then (true, s') else rest

unfoldable pub clear_interests : ℕ → Triggers → Triggers
clear_interests t s = record s {
  trigger = put t (record (s.trigger t) { interests = λ k. 0 }) s.trigger;
}

unfoldable pub or_clear : ℕ → Bool × Triggers → Bool × Triggers
or_clear t (true, s) = (true, s)
or_clear t (false, s) = (false, clear_interests t s)

-- Trigger::cancel of a trigger; true if it may be deleted.
unfoldable pub cancel_trigger : ℕ → Triggers → Bool × Triggers
cancel_trigger t s =
    let s' = purge_wild_refs t s in
    if (s'.trigger t).refs == 0
    then (true, s')
    else or_clear t
        (if (s'.trigger t).interests 3 == 0 then (false, s') else purge_modems s'.modems t s')

unfoldable pub delete_if : ℕ → Bool × Triggers → Triggers
delete_if t (true, s) = delete_trigger t s
delete_if t (false, s) = s

-- Trigger::cancel of an identifier.
unfoldable pub cancel_by_id : ℕ → Triggers → Bool × Triggers
cancel_by_id t s =
    if ltb t maxtid && s.live t then (true, delete_if t (cancel_trigger t s)) else (false, s)

-- Trigger::post, on one list: the clients whose mask has the event.
unfoldable pub post_list : ℕ → List ℕ → Triggers → Triggers
post_list e [] s = s
post_list e (t ∷ ts) s = post_list e ts (
    if not (s.live t)
    then record s { dangling = true }
    else if (s.trigger t).interests (e / 16) / 2 ^ (e % 16) % 2 == 0
    then s
    else send t (event e) s)

unfoldable pub post_event : ℕ → List ℕ → Triggers → Triggers
post_event e own s = s ▷ post_list e own ▷ post_list e (s.wildcards (e / 16))

-- Trigger::post of an event of a job, or of a modem.
unfoldable pub post_job : ℕ → ℕ → Triggers → Triggers
post_job e j s = post_event e (s.job_triggers j) s

unfoldable pub post_modem : ℕ → ℕ → Triggers → Triggers
post_modem e m s = post_event e (s.modem_triggers m) s
