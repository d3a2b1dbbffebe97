-- ===== src/Base/Texts.antt =====
-- Whole texts: equality, joining, decimal digits, and cutting to a number of characters.
use Prim.Native.Char.{Char, code}
use Prim.Native.Nat.{◌+◌, ℕ, zero, suc, ◌/◌, ◌%◌, ◌≤◌}
use Prim.Native.String
use Prim.Native.String.{String}
use mathlib.Core.Path.{◌≡◌, refl}
use mathlib.Core.Logic.{◌≢◌, inl, inr}
use mathlib.Core.Bool.{Bool, true, false}
use native.Mathlib.Omega.{arith}
use text.Mathlib.Text.{◌==◌ as text_eq}
use text.Mathlib.TextEquality.{eq_iff}
use cloudtalk_tech_task.Base.Tests.{ltb, Bool-cases, ◌==◌, if◌then◌else◌}

-- `a === b` on strings
abbrev pub str_eq : String → String → Bool
str_eq a b = text_eq a b

pub str_eq_refl : (s : String) → str_eq s s ≡ true
str_eq_refl s = (eq_iff s s).1 refl

pub str_eq→eq : (s t : String) → str_eq s t ≡ true → s ≡ t
str_eq→eq s t h = (eq_iff s t).0 h

pub str_eq-ne : (s t : String) → s ≢ t → str_eq s t ≡ false
str_eq-ne s t h = ground (arith, eq_iff s t)

infixr 66 ◌&◌
-- the pieces of a template string, joined
abbrev pub ◌&◌ : String → String → String
s & t = String.◌++◌ s t

abbrev pub digit : ℕ → String
digit n =
    if n == 0
    then "0"
    else if n == 1
    then "1"
    else if n == 2
    then "2"
    else if n == 3
    then "3"
    else if n == 4
    then "4"
    else if n == 5
    then "5"
    else if n == 6
    then "6"
    else if n == 7
    then "7"
    else if n == 8
    then "8"
    else "9"

-- the digits of `n` before `acc`; the fuel bounds their number
digits : ℕ → ℕ → String → String
digits zero n acc = acc
digits (suc fuel) n acc =
    let more = digits fuel (n / 10) (digit (n % 10) & acc) in
    if n / 10 == 0 then digit (n % 10) & acc else more

-- a natural number in a template string
unfoldable pub decimal : ℕ → String
unfolding digits
decimal n = digits (suc n) n ""

decimal_test : decimal 502 ≡ "502"
unfolding decimal
decimal_test = refl

-- the number of characters
abbrev pub text_length : String → ℕ
text_length String.[] = 0
text_length (String.◌∷◌ c s) = suc (text_length s)

-- a character that UTF-16 writes in two units
abbrev pub is_wide : Char → Bool
is_wide c = ltb 65535 (code c)

-- `s.length`: the number of UTF-16 units
abbrev pub text_units : String → ℕ
text_units String.[] = 0
text_units (String.◌∷◌ c s) = (if is_wide c then 2 else 1) + text_units s

-- `s.slice(0, n)` over UTF-16 units; the half of a character that was cut in two is written to the
-- database as the replacement character
abbrev pub slice_units : ℕ → String → String
slice_units zero s = ""
slice_units (suc n) String.[] = ""
slice_units (suc zero) (String.◌∷◌ c s) = String.◌∷◌ (if is_wide c then "�" else c) ""
slice_units (suc (suc n)) (String.◌∷◌ c s) =
    String.◌∷◌ c (elim (is_wide c) [ true ↦ slice_units n s | false ↦ slice_units (suc n) s ])

pub text_units-slice_units : (n : ℕ) (s : String) → text_units (slice_units n s) ≤ n
text_units-slice_units zero s = omega arith
text_units-slice_units (suc n) String.[] = omega arith
text_units-slice_units (suc zero) (String.◌∷◌ c s) = elim (Bool-cases (is_wide c)) [
  | inl wide ↦ rw wide (omega arith)
  | inr narrow ↦ rw narrow (rw narrow (omega arith))
]
text_units-slice_units (suc (suc n)) (String.◌∷◌ c s) =
    ground (arith, text_units-slice_units n s, text_units-slice_units (suc n) s)

cut_pair : slice_units 2 "a😀b" ≡ "a�"
cut_pair = refl

-- `s.slice(0, n)` of a text whose characters are one unit each
abbrev pub text_take : ℕ → String → String
text_take zero s = ""
text_take (suc n) String.[] = ""
text_take (suc n) (String.◌∷◌ c s) = String.◌∷◌ c (text_take n s)

pub text_length-text_take : (n : ℕ) (s : String) → text_length (text_take n s) ≤ n
text_length-text_take zero s = omega arith
text_length-text_take (suc n) String.[] = omega arith
text_length-text_take (suc n) (String.◌∷◌ c s) = omega (arith, text_length-text_take n s)
