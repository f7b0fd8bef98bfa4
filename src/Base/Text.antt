-- ===== src/Base/Text.antt =====
-- Decimal text: `str(n)` and `int(s)` on the texts that `str` writes (an optional sign and ASCII
-- digits; other texts raise ValueError, which is `none`).
use Prim.Native.Nat.{ℕ, zero, suc, ◌+◌, ◌-◌, ◌*◌, ◌/◌, ◌%◌, ◌<◌}
use Prim.Native.Char.{Char, code}
use Prim.Native.String.{String}
use mathlib.Core.Path.{◌≡◌, refl, ap, ◌∙◌}
use mathlib.Core.Bool.{Bool, true, false, ◌&&◌}
use mathlib.Core.Logic.{inl, inr}
use mathlib.Core.Option
use mathlib.Core.Option.{Option, none, some}
use native.Mathlib.Omega.{arith}
use hermes_flight_recorder.Base.Tests.{leb, eqb, if◌then◌else◌, Bool-cases}
use hermes_flight_recorder.Base.Int.{ℤ, pos, negsuc}

digit_char : ℕ → Char
digit_char d =
    if eqb d 0
    then "0"
    else if eqb d 1
    then "1"
    else if eqb d 2
    then "2"
    else if eqb d 3
    then "3"
    else if eqb d 4
    then "4"
    else if eqb d 5
    then "5"
    else if eqb d 6
    then "6"
    else if eqb d 7
    then "7"
    else if eqb d 8
    then "8"
    else "9"

code-digit_char : (d : ℕ) → d < 10 → code (digit_char d) ≡ d + 48
unfolding digit_char
code-digit_char zero h = refl
code-digit_char (suc zero) h = refl
code-digit_char (suc (suc zero)) h = refl
code-digit_char (suc (suc (suc zero))) h = refl
code-digit_char (suc (suc (suc (suc zero)))) h = refl
code-digit_char (suc (suc (suc (suc (suc zero))))) h = refl
code-digit_char (suc (suc (suc (suc (suc (suc zero)))))) h = refl
code-digit_char (suc (suc (suc (suc (suc (suc (suc zero))))))) h = refl
code-digit_char (suc (suc (suc (suc (suc (suc (suc (suc zero)))))))) h = refl
code-digit_char (suc (suc (suc (suc (suc (suc (suc (suc (suc zero))))))))) h = refl
code-digit_char (suc (suc (suc (suc (suc (suc (suc (suc (suc (suc d)))))))))) h =
    absurd (omega arith)

-- The digits of `n` in front of `rest`; the fuel is above `n`.
digits_of : ℕ → ℕ → String → String
digits_of zero n rest = rest
digits_of (suc fuel) n rest =
    let more = digits_of fuel (n / 10) (String.◌∷◌ (digit_char (n % 10)) rest) in
    if eqb (n / 10) 0 then String.◌∷◌ (digit_char (n % 10)) rest else more

unfoldable pub str_nat : ℕ → String
unfolding digits_of digit_char
str_nat n = digits_of (suc n) n ""

is_digit : ℕ → Bool
is_digit c = leb 48 c && leb c 57

is_digit-add : (d : ℕ) → d < 10 → is_digit (d + 48) ≡ true
unfolding is_digit
is_digit-add d h = ground arith

read_digits : ℕ → String → Option ℕ
read_digits acc String.[] = some acc
read_digits acc (String.◌∷◌ c s) =
    let more = read_digits (acc * 10 + (code c - 48)) s in if is_digit (code c) then more else none

unfoldable pub int_nat : String → Option ℕ
unfolding read_digits is_digit
int_nat String.[] = none
int_nat (String.◌∷◌ c s) = read_digits 0 (String.◌∷◌ c s)

read_digits-digit_char :
    (acc d : ℕ) (s : String)
    → d < 10
    → read_digits acc (String.◌∷◌ (digit_char d) s) ≡ read_digits (acc * 10 + d) s
unfolding read_digits
read_digits-digit_char acc d s h =
    let back : d + 48 - 48 ≡ d = omega arith in
    rw (code-digit_char d h) (rw (is_digit-add d h) (rw back))

read_digits-digits_of :
    (fuel n : ℕ) (s : String) → n < fuel → read_digits 0 (digits_of fuel n s) ≡ read_digits n s
unfolding digits_of
read_digits-digits_of zero n s h = elim h [ ]
read_digits-digits_of (suc fuel) n s h =
    let d = n % 10 in
    let shift : read_digits (n / 10) (String.◌∷◌ (digit_char d) s) ≡ read_digits n s =
      read_digits-digit_char (n / 10) d s (omega arith)
      ∙ ap (λ (k : ℕ). read_digits k s) (omega arith) in
    elim (Bool-cases (eqb (n / 10) 0)) [
      | inl e ↦ let z : n / 10 ≡ 0 = ground arith in rw e (rw z at shift)
      | inr e ↦
          rw e (
            read_digits-digits_of fuel (n / 10) (String.◌∷◌ (digit_char d) s) (ground arith)
            ∙ shift)
    ]

-- A text that begins with a digit.
abbrev Leads : String → Type 0
Leads t = (d : ℕ) × (r : String) × (d < 10) × (t ≡ String.◌∷◌ (digit_char d) r)

digits_of-Leads :
    (fuel n d : ℕ) (s : String) → d < 10 → Leads (digits_of fuel n (String.◌∷◌ (digit_char d) s))
unfolding digits_of
digits_of-Leads zero n d s h = (d, s, h, refl)
digits_of-Leads (suc fuel) n d s h = elim (Bool-cases (eqb (n / 10) 0)) [
  | inl e ↦ (n % 10, String.◌∷◌ (digit_char d) s, omega arith, rw e)
  | inr e ↦
      rw e (digits_of-Leads fuel (n / 10) (n % 10) (String.◌∷◌ (digit_char d) s) (omega arith))
]

str_nat-Leads : (n : ℕ) → Leads (str_nat n)
unfolding str_nat
str_nat-Leads n = elim (Bool-cases (eqb (n / 10) 0)) [
  | inl e ↦ (n % 10, "", omega arith, rw e)
  | inr e ↦ rw e (digits_of-Leads n (n / 10) (n % 10) "" (omega arith))
]

int_nat-Leads : (t : String) → Leads t → int_nat t ≡ read_digits 0 t
unfolding int_nat
int_nat-Leads t (d, r, h, e) = rw e

read_digits-str_nat : (n : ℕ) → read_digits 0 (str_nat n) ≡ some n
unfolding str_nat read_digits
read_digits-str_nat n = read_digits-digits_of (suc n) n "" (omega arith)

-- `int(str(n)) == n`.
pub int_nat-str_nat : (n : ℕ) → int_nat (str_nat n) ≡ some n
int_nat-str_nat n = int_nat-Leads (str_nat n) (str_nat-Leads n) ∙ read_digits-str_nat n

-- The same with a sign.
unfoldable pub str_int : ℤ → String
unfolding str_nat
str_int (pos n) = str_nat n
str_int (negsuc n) = String.◌∷◌ "-" (str_nat (suc n))

-- `-n` for a number.
abbrev negate : ℕ → ℤ
negate zero = pos 0
negate (suc n) = negsuc n

unfoldable pub int_text : String → Option ℤ
unfolding int_nat
int_text String.[] = none
int_text (String.◌∷◌ c s) =
    if eqb (code c) 45
    then Option.map negate (int_nat s)
    else Option.map pos (int_nat (String.◌∷◌ c s))

int_text-Leads : (t : String) → Leads t → int_text t ≡ Option.map pos (int_nat t)
unfolding int_text
int_text-Leads t (d, r, h, e) =
    let plain : eqb (code (digit_char d)) 45 ≡ false = ground (arith, code-digit_char d h) in
    rw e (rw plain)

-- `int(str(i)) == i` for an integer.
pub int_text-str_int : (i : ℤ) → int_text (str_int i) ≡ some i
unfolding str_int
int_text-str_int (pos n) =
    int_text-Leads (str_nat n) (str_nat-Leads n) ∙ ap (Option.map pos) (int_nat-str_nat n)
int_text-str_int (negsuc n) = unfold int_text in ap (Option.map negate) (int_nat-str_nat (suc n))

text_tests : (str_int (negsuc 41) ≡ "-42") × (int_text "1048576" ≡ some (pos 1048576))
unfolding str_int str_nat int_text int_nat
text_tests = (refl, refl)
