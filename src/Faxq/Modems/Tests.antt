-- ===== src/Faxq/Modems/Tests.antt =====
-- The choice among three modems.
use hylafaxplus.Prelude.{
  ℕ, Bool, true, false, none, some, List, [], ◌∷◌, leb, ◌==◌, ◌≡◌, ◌⊎◌, refl, arith,
}
use hylafaxplus.Faxq.State.{ModemState, ready, busy}
use hylafaxplus.Faxq.Modems.{Modem, Wanted, in_class, find_modem, assign_modem}
use hylafaxplus.Faxq.Modems.Found.{tally, IsAscending, find_modem-class}
use hylafaxplus.Faxq.Modems.Assigned.{Settled, assign_modem-Settled}

abbrev modem : ℕ → ModemState → ℕ → Modem
modem d s p = record {
  dev_id = d;
  state = s;
  priority = p;
  can_poll = false;
  page_width = λ w. leb w 215;
  page_length = λ l. true;
  v_res = λ v. leb v 196;
}

abbrev modems : List Modem
modems = modem 1 busy 0 ∷ modem 2 ready 0 ∷ modem 3 ready 5 ∷ []

-- A letter page for any modem.
abbrev wanted : Wanted
wanted = record {
  will_poll = false;
  width = 215;
  len = 279;
  resolution = 98;
  device = 0;
  group = some (λ d. true);
  limit = 0;
}

find_modem-class_example :
    ((m : Modem) × (ms' : List Modem) × (find_modem false wanted modems ≡ (some m, ms'))
      × (in_class wanted (λ d. true) m ≡ true)
      × ((q : Modem → Bool) → tally q ms' ≡ tally q modems)
      × IsAscending ms')
    ⊎ ((find_modem false wanted modems ≡ (none, modems))
        × (tally (in_class wanted (λ d. true)) modems ≡ 0))
find_modem-class_example =
    find_modem-class false wanted (λ d. true) modems refl (λ d. ground arith)
      ((ground arith, (ground arith, tt)), ((ground arith, tt), (tt, tt)))

-- The lock of modem 2 is held by another process.
assign_modem-Settled_example :
    Settled false wanted (λ d. d == 3) modems (assign_modem 3 false wanted (λ d. d == 3) modems)
assign_modem-Settled_example =
    assign_modem-Settled false wanted (λ d. d == 3) 3 modems (λ d. ground arith) (ground arith)
