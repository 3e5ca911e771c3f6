-- ===== src/Base/Decimal.antt =====
-- `fmt`'s `%d`, an integer in decimal digits, and `strconv.Atoi`, which reads it.
use Prim.Native.Nat.{ℕ, zero, suc, ◌+◌, ◌-◌, ◌*◌, ◌/◌, ◌%◌, ◌^◌, ◌<◌}
use Prim.Native.Char.{Char, code}
use Prim.Native.String.{String, char_at, ◌++◌}
use mathlib.Core.Path.{◌≡◌, refl, sym, ap, ◌∙◌}
use mathlib.Core.Logic.{inl, inr}
use mathlib.Core.Bool.{Bool, true, false, ◌&&◌}
use mathlib.Core.Option.{Option, none, some}
use native.Mathlib.Omega.{arith}
use text.Mathlib.TextLemmas.{cons-append, nil-append}
use clawvival.Base.Tests.{◌==◌, leb, ltb, Bool-cases, if◌then◌else◌}
use clawvival.Base.Int.{ℤ, pos, negsuc, ◌≤ℤ◌}

unfoldable pub digit : ℕ → Char
digit n = char_at "0123456789" n

-- The digits of a number before a text, from the last one on. A number has fewer digits than it
-- has units, so that the fuel is enough.
unfoldable pub digits_before : ℕ → ℕ → String → String
unfolding digit
digits_before zero n text = text
digits_before (suc fuel) n text =
    let longer = String.◌∷◌ (digit (n % 10)) text in
    elim (n / 10 == 0) [ true ↦ longer | false ↦ digits_before fuel (n / 10) longer ]

unfoldable pub show_int : ℤ → String
unfolding digits_before
show_int (pos n) = digits_before (suc n) n ""
show_int (negsuc n) = "-" ++ digits_before (suc (suc n)) (suc n) ""

shows : show_int (negsuc 1204) ≡ "-1205"
unfolding show_int
shows = refl

is_digit : Char → Bool
is_digit c = leb b'0' (code c) && leb (code c) b'9'

-- The number whose digits are those before, with the value so far, and those of the text.
unfoldable pub read_digits : ℕ → String → Option ℕ
unfolding is_digit
read_digits so_far String.[] = some so_far
read_digits so_far (String.◌∷◌ c text) = elim (is_digit c) [
  | true ↦ read_digits (so_far * 10 + (code c - b'0')) text
  | false ↦ none
]

-- At least one digit.
read_number : String → Option ℕ
unfolding read_digits
read_number String.[] = none
read_number (String.◌∷◌ c text) = read_digits 0 (String.◌∷◌ c text)

-- A number that an `int` does not hold is read as the greatest or the least; a text that is no
-- number as 0.
up_to_max : Option ℕ → ℤ
up_to_max none = pos 0
up_to_max (some n) = if ltb n (2 ^ 63) then pos n else pos (2 ^ 63 - 1)

down_to_min : Option ℕ → ℤ
down_to_min none = pos 0
down_to_min (some zero) = pos 0
down_to_min (some (suc n)) = if ltb n (2 ^ 63) then negsuc n else negsuc (2 ^ 63 - 1)

-- The value of `strconv.Atoi`, its error dropped.
unfoldable pub atoi : String → ℤ
unfolding read_number up_to_max down_to_min
atoi String.[] = pos 0
atoi (String.◌∷◌ c text) =
    if code c == b'-'
    then down_to_min (read_number text)
    else if code c == b'+'
    then up_to_max (read_number text)
    else up_to_max (read_number (String.◌∷◌ c text))

reads_back : atoi "-1205" ≡ negsuc 1204
unfolding atoi
reads_back = refl

digit_code : (k : ℕ) → k < 10 → code (digit k) ≡ 48 + k
unfolding digit
digit_code zero h = refl
digit_code (suc zero) h = refl
digit_code (suc (suc zero)) h = refl
digit_code (suc (suc (suc zero))) h = refl
digit_code (suc (suc (suc (suc zero)))) h = refl
digit_code (suc (suc (suc (suc (suc zero))))) h = refl
digit_code (suc (suc (suc (suc (suc (suc zero)))))) h = refl
digit_code (suc (suc (suc (suc (suc (suc (suc zero))))))) h = refl
digit_code (suc (suc (suc (suc (suc (suc (suc (suc zero)))))))) h = refl
digit_code (suc (suc (suc (suc (suc (suc (suc (suc (suc zero))))))))) h = refl
digit_code (suc (suc (suc (suc (suc (suc (suc (suc (suc (suc n)))))))))) h = absurd (omega arith)

digit-Is : (k : ℕ) → k < 10 → is_digit (digit k) ≡ true
unfolding is_digit
digit-Is k h = ground (arith, digit_code k h)

read_digits-cons :
    (so_far : ℕ) (c : Char) (text : String)
    → is_digit c ≡ true
    → read_digits so_far (String.◌∷◌ c text) ≡ read_digits (so_far * 10 + (code c - b'0')) text
unfolding read_digits
read_digits-cons so_far c text h = rw (h, read_digits) refl

read_digits-digit :
    (so_far k : ℕ) (text : String)
    → k < 10
    → read_digits so_far (String.◌∷◌ (digit k) text) ≡ read_digits (so_far * 10 + k) text
read_digits-digit so_far k text h =
    let value : code (digit k) - b'0' ≡ k = omega (arith, digit_code k h) in
    read_digits-cons so_far (digit k) text (digit-Is k h)
    ∙ ap (λ v. read_digits (so_far * 10 + v) text) value

digits_before-short :
    (fuel n : ℕ) (text : String)
    → (n / 10 == 0) ≡ true
    → digits_before (suc fuel) n text ≡ String.◌∷◌ (digit (n % 10)) text
unfolding digits_before
digits_before-short fuel n text h = rw (h, digits_before) refl

digits_before-longer :
    (fuel n : ℕ) (text : String)
    → (n / 10 == 0) ≡ false
    → digits_before (suc fuel) n text
      ≡ digits_before fuel (n / 10) (String.◌∷◌ (digit (n % 10)) text)
unfolding digits_before
digits_before-longer fuel n text h = rw (h, digits_before) refl

-- The digits of a number, read, are the number.
read-digits_before :
    (fuel n : ℕ) (text : String)
    → n < fuel
    → read_digits 0 (digits_before fuel n text) ≡ read_digits n text
read-digits_before zero n text h = absurd (omega arith)
read-digits_before (suc fuel) n text h = elim (Bool-cases (n / 10 == 0)) [
  | inl short ↦
      let same : 0 * 10 + n % 10 ≡ n = ground arith in
      ap (read_digits 0) (digits_before-short fuel n text short)
      ∙ read_digits-digit 0 (n % 10) text (omega arith)
      ∙ ap (λ k. read_digits k text) same
  | inr longer ↦
      let same : n / 10 * 10 + n % 10 ≡ n = omega arith in
      ap (read_digits 0) (digits_before-longer fuel n text longer)
      ∙ read-digits_before fuel (n / 10) (String.◌∷◌ (digit (n % 10)) text) (ground arith)
      ∙ read_digits-digit (n / 10) (n % 10) text (omega arith)
      ∙ ap (λ k. read_digits k text) same
]

-- The digits begin with one.
digits_before-first :
    (fuel n : ℕ) (text : String)
    → n < fuel
    → (k : ℕ) × (rest : String) × (k < 10) × (digits_before fuel n text ≡ String.◌∷◌ (digit k) rest)
digits_before-first zero n text h = absurd (omega arith)
digits_before-first (suc fuel) n text h = elim (Bool-cases (n / 10 == 0)) [
  | inl short ↦ (n % 10, text, omega arith, digits_before-short fuel n text short)
  | inr longer ↦
      let (k, rest, low, e) =
        digits_before-first fuel (n / 10) (String.◌∷◌ (digit (n % 10)) text) (ground arith) in
      (k, rest, low, digits_before-longer fuel n text longer ∙ e)
]

read_number-digits :
    (n : ℕ) (c : Char) (rest : String)
    → digits_before (suc n) n "" ≡ String.◌∷◌ c rest
    → read_number (String.◌∷◌ c rest) ≡ some n
unfolding read_number read_digits
read_number-digits n c rest first =
    ap (read_digits 0) (sym first) ∙ read-digits_before (suc n) n "" (omega arith)

atoi-digit :
    (c : Char) (rest : String)
    → is_digit c ≡ true
    → atoi (String.◌∷◌ c rest) ≡ up_to_max (read_number (String.◌∷◌ c rest))
unfolding atoi is_digit
atoi-digit c rest h = ground arith

atoi-minus : (text : String) → atoi ("-" ++ text) ≡ down_to_min (read_number text)
unfolding atoi
atoi-minus text = ap atoi (cons-append "-" "" text ∙ ap (String.◌∷◌ "-") (nil-append text))

-- An integer that an `int` holds is read from its decimal digits.
pub atoi-show_int :
    (z : ℤ) → negsuc (2 ^ 63 - 1) ≤ℤ z → z ≤ℤ pos (2 ^ 63 - 1) → atoi (show_int z) ≡ z
unfolding show_int up_to_max down_to_min
atoi-show_int (pos n) low high =
    let (k, rest, small, first) = digits_before-first (suc n) n "" (omega arith) in
    let fits : ltb n (2 ^ 63) ≡ true = ground arith in
    ap atoi first
    ∙ atoi-digit (digit k) rest (digit-Is k small)
    ∙ ap up_to_max (read_number-digits n (digit k) rest first)
    ∙ rw fits refl
atoi-show_int (negsuc n) low high =
    let (k, rest, small, first) = digits_before-first (suc (suc n)) (suc n) "" (omega arith) in
    let fits : ltb n (2 ^ 63) ≡ true = ground arith in
    atoi-minus (digits_before (suc (suc n)) (suc n) "")
    ∙ ap (λ text. down_to_min (read_number text)) first
    ∙ ap down_to_min (read_number-digits (suc n) (digit k) rest first)
    ∙ rw fits refl
