-- ===== src/Tod/Parse.antt =====
-- TimeOfDay::parse and the list of ranges it fills (util/TimeOfDay.c++). A text is the list of its
-- character codes; the end of the list is the NUL. The loops run on the length of the text, and
-- each round of them takes a character or more.
use Prim.Native.Char.{code}
use Prim.Native.String.{String}
use hylafaxplus.Prelude.{
  ℕ, zero, suc, ◌+◌, ◌-◌, ◌*◌, ◌/◌, ◌%◌, ◌^◌, Bool, ◌&&◌, ◌||◌, not, Option, none, some, List, [],
  ◌∷◌, ◌++◌, length, leb, ◌==◌, if◌then◌else◌,
}
use hylafaxplus.Tod.{Tod, has_day}

abbrev pub codes : String → List ℕ
codes String.[] = []
codes (String.◌∷◌ c s) = code c ∷ codes s

abbrev pub any_time : Tod
any_time = record { days = 255; start = 0; end = 1440 }

-- class TimeOfDay: the first range stands in the object, the others on its list.
pub record TimeOfDay : Type 0 where
  pub tod : Tod
  pub next : List Tod

abbrev pub ranges : TimeOfDay → List Tod
ranges t = t.tod ∷ t.next

-- TimeOfDay::TimeOfDay()
unfoldable pub init : TimeOfDay
init = record { tod = any_time; next = [] }

-- TimeOfDay::reset
unfoldable pub reset : TimeOfDay → TimeOfDay
reset t = if t.tod.days == 255 then t else record { tod = any_time; next = [] }

-- TimeOfDay::add: 0xff marks the range that the constructor set.
unfoldable pub add : Tod → TimeOfDay → TimeOfDay
add r t = if t.tod.days == 255 then record t { tod = r } else record t { next = t.next ++ r ∷ [] }

abbrev pub is_space : ℕ → Bool
is_space c = c == 32 || leb 9 c && leb c 13

abbrev pub is_digit : ℕ → Bool
is_digit c = leb 48 c && leb c 57

abbrev pub is_alpha : ℕ → Bool
is_alpha c = leb 65 c && leb c 90 || leb 97 c && leb c 122

abbrev pub comma : ℕ
comma = 44

-- Drops the characters in front that pass the test.
unfoldable pub skip_while : (ℕ → Bool) → List ℕ → List ℕ
skip_while test [] = []
skip_while test (c ∷ cs) = let rest = skip_while test cs in if test c then rest else c ∷ cs

-- strneq(cp, s, strlen(s)): what stands behind the word.
unfoldable pub after_word : List ℕ → List ℕ → Option (List ℕ)
after_word [] cs = some cs
after_word (w ∷ ws) [] = none
after_word (w ∷ ws) (c ∷ cs) = if w == c then after_word ws cs else none

-- The first three letters of dayNames from the day i on, against cp[0] and cp[1].
unfoldable pub find_day : ℕ → List (ℕ × ℕ × ℕ) → ℕ → ℕ → Option (ℕ × ℕ)
find_day i [] a b = none
find_day i ((x, y, z) ∷ names) a b =
    if a == x && b == y then some (i, z) else find_day (i + 1) names a b

abbrev pub day_names : List (ℕ × ℕ × ℕ)
day_names =
    (83, 117, 110)
    ∷ (77, 111, 110)
    ∷ (84, 117, 101)
    ∷ (87, 101, 100)
    ∷ (84, 104, 117)
    ∷ (70, 114, 105)
    ∷ (83, 97, 116)
    ∷ []

-- days |= BIT(i)
unfoldable pub set_day : ℕ → ℕ → ℕ
set_day days i = if has_day days i then days else days + 2 ^ i

-- cp += (cp[2] == dayNames[i+2] ? 3 : 2), with cp two characters on already
unfoldable pub third_letter : ℕ → List ℕ → List ℕ
third_letter z [] = []
third_letter z (c ∷ cs) = if c == z then cs else c ∷ cs

abbrev pub is_separator : ℕ → Bool
is_separator c = not (is_alpha c || is_digit c) && not (c == comma)

-- The do-while loop over a list of day names; a text that begins with no letter ends it.
unfoldable pub day_list : ℕ → ℕ → List ℕ → ℕ × List ℕ
unfolding find_day set_day third_letter skip_while
day_list zero days cs = (days, cs)
day_list (suc fuel) days [] = (days, [])
day_list (suc fuel) days (a ∷ []) = (days, a ∷ [])
day_list (suc fuel) days (a ∷ b ∷ cs) =
    if is_alpha a
    then elim (find_day 0 day_names a b) [
      | none ↦ (days, a ∷ b ∷ cs)
      | some (i, z) ↦ day_list fuel (set_day days i) (skip_while is_separator (third_letter z cs))
    ]
    else (days, a ∷ b ∷ cs)

-- "Any" | "Wk" | dayname+ | nothing
unfoldable pub day_spec : List ℕ → ℕ × List ℕ
unfolding after_word day_list
day_spec cs = elim (after_word (codes "Any") cs) [
  | some rest ↦ (127, rest)
  | none ↦ elim (after_word (codes "Wk") cs) [
    | some rest ↦ (62, rest)
    | none ↦ day_list (length cs) 0 cs
  ]
]

-- The digits in front, as scanf's %u reads them: reduced to the width of unsigned int.
unfoldable pub digits : ℕ → List ℕ → ℕ × List ℕ
digits acc [] = (acc, [])
digits acc (c ∷ cs) =
    let rest = digits ((acc * 10 + (c - 48)) % 2 ^ 32) cs in
    if is_digit c then rest else (acc, c ∷ cs)

-- %u on a text whose first character is not white space: a digit must stand in front.
unfoldable pub scan_uint : List ℕ → Option (ℕ × List ℕ)
unfolding digits
scan_uint [] = none
scan_uint (c ∷ cs) = if is_digit c then some (digits 0 (c ∷ cs)) else none

-- %u after the '-': white space and a sign are passed over first.
unfoldable pub scan_signed : List ℕ → Option (ℕ × List ℕ)
unfolding scan_uint
scan_signed [] = none
scan_signed (c ∷ cs) =
    if c == 43
    then scan_uint cs
    else if c == 45
    then elim (scan_uint cs) [ none ↦ none | some (n, r) ↦ some ((2 ^ 32 - n) % 2 ^ 32, r) ]
    else scan_uint (c ∷ cs)

unfoldable pub scan_end : List ℕ → Option (ℕ × List ℕ)
unfolding scan_signed skip_while
scan_end [] = none
scan_end (c ∷ cs) = if c == 45 then scan_signed (skip_while is_space cs) else none

-- sscanf(cp, "%u-%u", &start, &end) == 2
unfoldable pub scan_range : List ℕ → Option (ℕ × ℕ)
unfolding scan_uint scan_end
scan_range cs = elim (scan_uint cs) [
  | none ↦ none
  | some (start, rest) ↦ elim (scan_end rest) [ none ↦ none | some (end, r) ↦ some (start, end) ]
]

-- (t/100)*60 + (t%100)
unfoldable pub from_military : ℕ → ℕ
from_military t = t / 100 * 60 + t % 100

-- while (*cp && *cp++ != ',')
unfoldable pub behind_comma : List ℕ → List ℕ
behind_comma [] = []
behind_comma (c ∷ cs) = let rest = behind_comma cs in if c == comma then cs else rest

-- The range of one specification: all day if it gives no valid times.
unfoldable pub make_range : ℕ → Option (ℕ × ℕ) → Tod
unfolding from_military
make_range days (some (start, end)) = record {
  days = if days == 0 then 127 else days;
  start = from_military start;
  end = from_military end;
}
make_range days none = record { days = if days == 0 then 127 else days; start = 0; end = 24 * 60 }

-- One round of the loop of parse: its range, and what stands behind the comma.
unfoldable pub parse_range : List ℕ → Tod × List ℕ
unfolding day_spec skip_while scan_range make_range behind_comma
parse_range cs =
    let (days, cs2) = day_spec (skip_while is_space cs) in
    let cs3 = skip_while (λ c. not (c == comma) && not (is_digit c)) cs2 in
    (make_range days (scan_range cs3), behind_comma cs3)

-- The outer loop of parse; `none` means that the fuel ran out.
unfoldable pub parse_loop : ℕ → List ℕ → TimeOfDay → Option TimeOfDay
unfolding parse_range add
parse_loop fuel [] t = some t
parse_loop zero (c ∷ cs) t = none
parse_loop (suc fuel) (c ∷ cs) t =
    let (r, rest) = parse_range (c ∷ cs) in parse_loop fuel rest (add r t)

-- TimeOfDay::parse
unfoldable pub parse : List ℕ → TimeOfDay → Option TimeOfDay
unfolding parse_loop reset
parse cs t = parse_loop (length cs) cs (reset t)
