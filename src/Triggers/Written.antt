-- ===== src/Triggers/Written.antt =====
-- What a trigger's specification is written as, and how its parts are read (Trigger::parse of
-- faxd/Trigger.c++).
use mathlib.Core.List.{append_assoc}
use hylafaxplus.Prelude.{
  ℕ, zero, suc, ◌+◌, ◌-◌, ◌*◌, ◌/◌, ◌%◌, ◌≤◌, ◌<◌, true, false, ◌&&◌, some, List, [], ◌∷◌, ◌++◌,
  ltb, leb, ◌==◌, if◌then◌else◌, ◌≡◌, ◌≢◌, refl, ap, ◌∙◌, arith, Bool-cases, inl, inr,
}
use hylafaxplus.Triggers.{read_name, to_close, with_char, read_mask, read_hex, hex_digit}

-- A class of events, the name of a job or modem or nothing, and a mask.
pub record Interest : Type 0 where
  pub class : ℕ
  pub name : List ℕ
  pub mask : ℕ

-- A name has no '>' in it.
abbrev pub IsName : List ℕ → Type 0
IsName [] = Unit
IsName (c ∷ cs) = (c ≢ b'>') × IsName cs

unfoldable pub letter : ℕ → ℕ
letter zero = b'J'
letter (suc zero) = b'S'
letter (suc (suc zero)) = b'R'
letter (suc (suc (suc k))) = b'M'

unfoldable pub hex_char : ℕ → ℕ
hex_char d = if ltb d 10 then 48 + d else 87 + d

unfoldable pub print_mask : ℕ → List ℕ
print_mask m =
    hex_char (m / 4096) ∷ hex_char (m / 256 % 16) ∷ hex_char (m / 16 % 16) ∷ hex_char (m % 16) ∷ []

unfoldable pub print_name : List ℕ → List ℕ
print_name [] = []
print_name (c ∷ cs) = b'<' ∷ ((c ∷ cs) ++ b'>' ∷ [])

unfoldable pub print_interests : List Interest → List ℕ
print_interests [] = []
print_interests (i ∷ is) =
    letter i.class ∷ (print_name i.name ++ (print_mask i.mask ++ print_interests is))

hex_digit-char : (d : ℕ) → d < 16 → hex_digit (hex_char d) ≡ some d
unfolding hex_digit hex_char
hex_digit-char d h = elim (Bool-cases (ltb d 10)) [
  | inl low ↦
      let digit : (leb 48 (48 + d) && leb (48 + d) 57) ≡ true = ground (arith, low) in
      let at : 48 + d - 48 ≡ d = omega arith in rw (low, digit) (ap some at)
  | inr high ↦
      let digit : (leb 48 (87 + d) && leb (87 + d) 57) ≡ false = ground (arith, high) in
      let lower : (leb 97 (87 + d) && leb (87 + d) 102) ≡ true = ground (arith, high, h) in
      let at : 10 + (87 + d - 97) ≡ d = ground (arith, high) in rw (high, digit, lower) (ap some at)
]

read_hex-char :
    (n v d : ℕ) (cs : List ℕ)
    → d < 16
    → read_hex (suc n) v (hex_char d ∷ cs) ≡ read_hex n (v * 16 + d) cs
unfolding read_hex
read_hex-char n v d cs h = rw (hex_digit-char d h) refl

four_digits :
    (a b c d : ℕ) (rest : List ℕ)
    → a < 16
    → b < 16
    → c < 16
    → d < 16
    → read_hex 4 0 (hex_char a ∷ hex_char b ∷ hex_char c ∷ hex_char d ∷ rest)
      ≡ some ((((0 * 16 + a) * 16 + b) * 16 + c) * 16 + d, rest)
unfolding read_hex
four_digits a b c d rest ha hb hc hd =
    rw (hex_digit-char a ha, hex_digit-char b hb, hex_digit-char c hc, hex_digit-char d hd) refl

hex_char-letter : (d : ℕ) → 48 ≤ hex_char d
unfolding hex_char
hex_char-letter d = ground arith

pub hex_char_other : (d : ℕ) → hex_char d ≢ b'<'
unfolding hex_char
hex_char_other d e = ground (arith, e)

pub read_mask-print :
    (m : ℕ) (rest : List ℕ) → m < 65536 → read_mask (print_mask m ++ rest) ≡ some (m, rest)
unfolding read_mask read_hex print_mask
read_mask-print m rest h =
    let star : (hex_char (m / 4096) == b'*') ≡ false = ground (arith, hex_char-letter (m / 4096)) in
    let whole : (((0 * 16 + m / 4096) * 16 + m / 256 % 16) * 16 + m / 16 % 16) * 16 + m % 16 ≡ m =
      omega arith in
    rw star (
      four_digits (m / 4096) (m / 256 % 16) (m / 16 % 16) (m % 16) rest (omega (arith, h))
        (omega arith) (omega arith) (omega arith)
      ∙ ap (λ v. some (v, rest)) whole)

to_close-print :
    (name rest : List ℕ) → IsName name → to_close (name ++ b'>' ∷ rest) ≡ some (name, rest)
unfolding to_close with_char
to_close-print [] rest ok = refl
to_close-print (c ∷ cs) rest (apart, ok) =
    let off : (c == b'>') ≡ false = ground (arith, apart) in
    rw off (ap (with_char c) (to_close-print cs rest ok))

pub read_name-print :
    (name rest : List ℕ) (c : ℕ)
    → IsName name
    → c ≢ b'<'
    → read_name (print_name name ++ c ∷ rest) ≡ some (name, c ∷ rest)
unfolding read_name print_name
read_name-print [] rest c ok apart =
    let off : (c == b'<') ≡ false = ground (arith, apart) in rw off refl
read_name-print (d ∷ ds) rest c ok apart =
    ap to_close (append_assoc (d ∷ ds) (b'>' ∷ []) (c ∷ rest))
    ∙ to_close-print (d ∷ ds) (c ∷ rest) ok
