-- ===== src/Sequence.antt =====
-- The numbers of jobs and files, kept in a file (Sequence::getNext of util/Sequence.c++, MAXSEQNUM and
-- NEXTSEQNUM of config.h.in). atol, its result as an unsigned number, and the printing by "%u" are
-- functions; `Access` says how the system answers.
pub mod Cycle
mod Tests
use hylafaxplus.Prelude.{
  ℕ, zero, suc, ◌+◌, ◌-◌, ◌*◌, ◌%◌, ◌≤◌, ◌<◌, Bool, true, false, ◌&&◌, ◌||◌, List, [], ◌∷◌, length,
  ltb, ◌==◌, if◌then◌else◌, ◌≡◌, ◌≢◌, refl, sym, ap, ◌∙◌, arith, Bool-cases, inl, inr,
}

pub data SeqFile : Type 0 where
  missing : SeqFile
  regular : List ℕ → SeqFile
  special : SeqFile

-- Whether the file can be opened (and is then the one that lstat saw) and read, its increment file
-- too, and whether the new number can be written; if not, what the file then holds.
pub record Access : Type 0 where
  pub opens : Bool
  pub reads : Bool
  pub opens_increment : Bool
  pub reads_increment : Bool
  pub writes : Bool
  pub spoiled : List ℕ

abbrev pub maxseqnum : ℕ
maxseqnum = 999999999

-- (u_long) -1
abbrev pub no_seqnum : ℕ
no_seqnum = 18446744073709551615

unfoldable pub next_seqnum : ℕ → ℕ → ℕ
next_seqnum x y = (x + y) % maxseqnum

unfoldable pub take_line : ℕ → List ℕ → List ℕ
take_line zero cs = []
take_line (suc n) [] = []
take_line (suc n) (c ∷ cs) = c ∷ take_line n cs

unfoldable pub check_seqnum : ℕ → ℕ
check_seqnum n = if ltb n 1 || ltb maxseqnum n then 1 else n

unfoldable pub content : SeqFile → List ℕ
content missing = []
content (regular line) = line
content special = []

-- What read gives; a read that fails leaves an empty line.
unfoldable pub line_read : Bool → List ℕ → List ℕ
line_read reads line = if reads then line else []

unfoldable pub can_open : Access → SeqFile → Bool
can_open a missing = a.opens
can_open a (regular line) = a.opens
can_open a special = false

module _ (atol : List ℕ → ℕ) where
  unfoldable pub read_seqnum : List ℕ → ℕ
  read_seqnum line = if length line == 0 then 1 else check_seqnum (atol (take_line 1024 line))

  unfoldable pub increment_line : List ℕ → ℕ
  increment_line line =
      let n = atol (take_line 1024 line) % 4294967296 in
      if length line == 0 then 1 else if ltb n 1 then 1 else n

  unfoldable pub read_increment : Access → SeqFile → ℕ
  read_increment a missing = 1
  read_increment a special = 1
  read_increment a (regular line) =
      if a.opens_increment then increment_line (line_read a.reads_increment line) else 1

  module _ (format_u : ℕ → List ℕ) where
    -- Sequence::getNext: the number, and the file behind it.
    unfoldable pub get_next : Access → SeqFile → SeqFile → ℕ × SeqFile
    get_next a increment file =
        let n = read_seqnum (line_read a.reads (content file)) in
        let line = format_u (next_seqnum n (read_increment a increment)) in
        if can_open a file
        then (if a.writes then (n, regular line) else (no_seqnum, regular a.spoiled))
        else (no_seqnum, file)
