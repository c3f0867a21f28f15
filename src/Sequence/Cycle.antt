-- ===== src/Sequence/Cycle.antt =====
-- The numbers of consecutive calls of Sequence::getNext (util/Sequence.c++).
use hylafaxplus.Prelude.{
  ℕ, zero, suc, ◌+◌, ◌-◌, ◌%◌, ◌≤◌, ◌<◌, true, false, ◌||◌, List, [], length, ltb, ◌==◌,
  if◌then◌else◌, ◌≡◌, ◌≢◌, refl, ap, ◌∙◌, arith, Bool-cases, inl, inr,
}
use hylafaxplus.Sequence.{
  SeqFile, missing, regular, Access, next_seqnum, take_line, check_seqnum, read_seqnum, content,
  read_increment, line_read, can_open, get_next,
}

abbrev pub good : Access
good = record {
  opens = true;
  reads = true;
  opens_increment = true;
  reads_increment = true;
  writes = true;
  spoiled = [];
}

module _ (atol : List ℕ → ℕ) (format_u : ℕ → List ℕ) where
  -- The file after some calls that all succeed.
  unfoldable pub after_calls : ℕ → SeqFile → SeqFile
  after_calls zero file = file
  after_calls (suc j) file = after_calls j (get_next atol format_u good missing file).1

  module _ (atol_format : (n : ℕ) → n < 4294967296 → atol (take_line 1024 (format_u n)) ≡ n)
      (format_some : (n : ℕ) → length (format_u n) ≢ 0) where
    -- The number that comes behind n.
    read-next :
        (n : ℕ)
        → 1 ≤ n
        → n < 999999999
        → read_seqnum atol (format_u (next_seqnum n 1)) ≡ (if suc n == 999999999 then 1 else suc n)
    unfolding read_seqnum check_seqnum next_seqnum
    read-next n low high =
        let some_line : (length (format_u ((n + 1) % 999999999)) == 0) ≡ false =
          ground (arith, format_some ((n + 1) % 999999999)) in
        let number = atol_format ((n + 1) % 999999999) (omega arith) in
        elim (Bool-cases (suc n == 999999999)) [
          | inl wraps ↦
              let zero_next : (n + 1) % 999999999 ≡ 0 = ground (arith, wraps) in
              rw (some_line, number, wraps, zero_next) refl
          | inr goes ↦
              let next : (n + 1) % 999999999 ≡ suc n = ground (arith, goes, high) in
              let ok : (ltb (suc n) 1 || ltb 999999999 (suc n)) ≡ false =
                ground (arith, goes, high) in
              rw (some_line, number, goes, next, ok) refl
        ]

    -- For an atol that reads back what "%u" prints, a file that is missing or regular and gives a number n
    -- less than 999999999, no increment file, and calls that all succeed: the j-th call behind the first
    -- gives the j-th number behind n on the cycle from 1 to 999999998.
    pub seqnum-cycle :
        (j n : ℕ) (file : SeqFile)
        → 1 ≤ n
        → n < 999999999
        → can_open good file ≡ true
        → read_seqnum atol (content file) ≡ n
        → (get_next atol format_u good missing (after_calls j file)).0 ≡ (n - 1 + j) % 999999998 + 1
    unfolding after_calls get_next read_increment content can_open line_read
    seqnum-cycle zero n file low high usable now =
        let same : n ≡ (n - 1 + 0) % 999999998 + 1 = omega (arith, low, high) in
        rw usable (now ∙ same)
    seqnum-cycle (suc j) n file low high usable now =
        let line = format_u (next_seqnum n 1) in
        let file' = regular (format_u (next_seqnum n 1)) in
        let step : (get_next atol format_u good missing file).1 ≡ file' =
          rw usable (ap (λ n. regular (format_u (next_seqnum n 1))) now) in
        let read = read-next n low high in
        ap (λ f. (get_next atol format_u good missing (after_calls j f)).0) step
        ∙ elim (Bool-cases (suc n == 999999999)) [
          | inl wraps ↦
              seqnum-cycle j 1 file' (omega arith) (omega arith) refl (read ∙ rw wraps refl)
              ∙ ground (arith, wraps)
          | inr goes ↦
              seqnum-cycle j (suc n) file' (omega arith) (ground (arith, goes, high)) refl
                (read ∙ rw goes refl)
              ∙ omega (arith, low)
        ]
