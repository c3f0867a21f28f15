-- ===== src/Faxq/Modems.antt =====
-- The modems that jobs are sent on (faxd/Modem.h, faxd/Modem.c++: isCapable, modemAvailable, findModem,
-- assign; assignModem of faxd/faxQueueApp.c++). The list of modems is a sequence in its order; a
-- modem group's regular expression is a test on device names.
pub mod Found
pub mod Assigned
mod Tests
use hylafaxplus.Prelude.{
  ℕ, zero, suc, ◌+◌, Bool, true, false, ◌&&◌, ◌||◌, not, Option, none, some, List, [], ◌∷◌, ltb,
  ◌==◌, if◌then◌else◌,
}
use hylafaxplus.Faxq.State.{ModemState, down, ready, busy, exempt}

-- class Modem, as far as the choice of a modem reads it; `caps` is consulted by value.
pub record Modem : Type 0 where
  pub dev_id : ℕ
  pub state : ModemState
  pub priority : ℕ
  pub can_poll : Bool
  pub page_width : ℕ → Bool
  pub page_length : ℕ → Bool
  pub v_res : ℕ → Bool

-- What a job asks for. `group` is what ModemGroup::find gives for the modem that job control or the
-- client names, which is `device`.
pub record Wanted : Type 0 where
  pub will_poll : Bool
  pub width : ℕ
  pub len : ℕ
  pub resolution : ℕ
  pub device : ℕ
  pub group : Option (ℕ → Bool)
  pub limit : ℕ

abbrev pub is_ready : ModemState → Bool
is_ready ready = true
is_ready _ = false

abbrev pub is_busy : ModemState → Bool
is_busy busy = true
is_busy _ = false

abbrev pub is_exempt : ModemState → Bool
is_exempt exempt = true
is_exempt _ = false

-- Modem::isCapable
unfoldable pub is_capable : Wanted → Modem → Bool
is_capable w m =
    if w.will_poll && not m.can_poll
    then false
    else if not (w.width == 0) && not (m.page_width w.width)
    then false
    else if not (w.len == 0) && not (m.page_length w.len)
    then false
    else not (not (w.resolution == 0) && not (m.v_res w.resolution))

-- The count of modemAvailable.
unfoldable pub count_free : (ℕ → Bool) → List Modem → ℕ
count_free c [] = 0
count_free c (m ∷ ms) =
    (if c m.dev_id && (is_ready m.state || is_exempt m.state) then 1 else 0) + count_free c ms

unfoldable pub device_ready : ℕ → List Modem → Bool
device_ready d [] = false
device_ready d (m ∷ ms) =
    let rest = device_ready d ms in if is_ready m.state && d == m.dev_id then true else rest

-- Modem::modemAvailable
unfoldable pub modem_available : Wanted → List Modem → Bool
modem_available w ms = elim w.group [
  | some c ↦ ltb w.limit (count_free c ms)
  | none ↦ device_ready w.device ms
]

-- The first modem that passes a test.
unfoldable pub first_modem : (Modem → Bool) → List Modem → Option Modem
first_modem p [] = none
first_modem p (m ∷ ms) = let rest = first_modem p ms in if p m then some m else rest

-- modem.remove()
unfoldable pub take_out : ℕ → List Modem → List Modem
take_out d [] = []
take_out d (m ∷ ms) = if d == m.dev_id then ms else m ∷ take_out d ms

-- modem.insert, in front of the first modem of a higher priority number.
unfoldable pub put_back : Modem → List Modem → List Modem
put_back m [] = m ∷ []
put_back m (x ∷ xs) = if ltb m.priority x.priority then m ∷ x ∷ xs else x ∷ put_back m xs

unfoldable pub in_class : Wanted → (ℕ → Bool) → Modem → Bool
in_class w c m = c m.dev_id && is_capable w m && is_ready m.state

-- The test of findModem on a modem that is asked for by its name.
unfoldable pub is_usable : Bool → Wanted → Modem → Bool
is_usable ignorebusy w m =
    (is_ready m.state || is_exempt m.state || ignorebusy && is_busy m.state) && w.device == m.dev_id

unfoldable pub find_in_class : Option Modem → List Modem → Option Modem × List Modem
find_in_class none ms = (none, ms)
find_in_class (some m) ms = (some m, put_back m (take_out m.dev_id ms))

unfoldable pub find_named : Wanted → Option Modem → List Modem → Option Modem × List Modem
find_named w none ms = (none, ms)
find_named w (some m) ms = (if is_capable w m then some m else none, ms)

unfoldable pub find_by : Bool → Wanted → Option (ℕ → Bool) → List Modem → Option Modem × List Modem
find_by ignorebusy w (some c) ms = find_in_class (first_modem (in_class w c) ms) ms
find_by ignorebusy w none ms = find_named w (first_modem (is_usable ignorebusy w) ms) ms

-- Modem::findModem; a modem of a class moves behind those of its priority.
unfoldable pub find_modem : Bool → Wanted → List Modem → Option Modem × List Modem
find_modem ignorebusy w ms = find_by ignorebusy w w.group ms

-- state = BUSY
unfoldable pub mark_busy : ℕ → List Modem → List Modem
mark_busy d [] = []
mark_busy d (m ∷ ms) = (if d == m.dev_id then record m { state = busy } else m) ∷ mark_busy d ms

-- What assignModem comes to.
pub data Assignment : Type 0 where
  assigned : Modem → List Modem → Assignment
  is_exempted none_found out_of_fuel : List Modem → Assignment

-- One round of assignModem with the modem that was found; `lock` says whether its lock is got.
unfoldable pub try_modem :
    (List Modem → Assignment) → Bool → (ℕ → Bool) → Option Modem × List Modem → Assignment
try_modem again ignorebusy lock (none, ms) = none_found ms
try_modem again ignorebusy lock (some m, ms) =
    if is_exempt m.state
    then is_exempted ms
    else if is_busy m.state && ignorebusy || lock m.dev_id
    then assigned m (mark_busy m.dev_id ms)
    else again (mark_busy m.dev_id ms)

-- faxQueueApp::assignModem
unfoldable pub assign_modem : ℕ → Bool → Wanted → (ℕ → Bool) → List Modem → Assignment
assign_modem zero ignorebusy w lock ms = out_of_fuel ms
assign_modem (suc fuel) ignorebusy w lock ms =
    try_modem (assign_modem fuel ignorebusy w lock) ignorebusy lock (find_modem ignorebusy w ms)
