-- ===== src/Sequence/Tests.antt =====
-- Sequence numbers at fixed values: a number is printed as one character of this code.
use hylafaxplus.Prelude.{ℕ, ◌+◌, ◌-◌, ◌%◌, List, [], ◌∷◌, ◌≡◌, refl, arith}
use hylafaxplus.Sequence.{
  missing, regular, get_next, take_line, read_seqnum, check_seqnum, content, can_open, line_read,
}
use hylafaxplus.Sequence.Cycle.{good, after_calls, seqnum-cycle}

abbrev first_code : List ℕ → ℕ
first_code [] = 0
first_code (c ∷ cs) = c

abbrev one_code : ℕ → List ℕ
one_code n = n ∷ []

seqnum-cycle_example :
    (get_next first_code one_code good missing
      (after_calls first_code one_code 5 (regular (999999996 ∷ [])))).0
    ≡ (999999996 - 1 + 5) % 999999998 + 1
unfolding take_line read_seqnum check_seqnum content can_open line_read
seqnum-cycle_example =
    seqnum-cycle first_code one_code (λ n small. refl) (λ n e. omega (arith, e)) 5 999999996
      (regular (999999996 ∷ [])) (omega arith) (omega arith) refl refl
