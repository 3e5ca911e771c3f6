-- ===== src/Base/Clear.antt =====
-- Texts without white space, which `TrimSpace` leaves as they are.
use Prim.Native.Nat.{ℕ, zero, suc, ◌/◌, ◌%◌, ◌<◌}
use Prim.Native.Char.{Char}
use Prim.Native.String.{String, ◌++◌}
use mathlib.Core.Path.{◌≡◌, refl, ap, ◌∙◌}
use mathlib.Core.Logic.{inl, inr}
use mathlib.Core.Bool.{Bool, true, false, not, ◌&&◌}
use native.Mathlib.Omega.{arith}
use text.Mathlib.TextLemmas.{nil-append, cons-append}
use clawvival.Base.Tests.{◌==◌, Bool-cases}
use clawvival.Base.Int.{pos}
use clawvival.Base.Text.{white, cut_front, put_front, cut_back, trim_space}
use clawvival.Base.Decimal.{digit, digits_before, show_int}

abbrev pub IsClear : String → Type 0
IsClear String.[] = Unit
IsClear (String.◌∷◌ c text) = (white c ≡ false) × IsClear text

cut_front-clear : (text : String) → IsClear text → cut_front text ≡ text
unfolding cut_front
cut_front-clear String.[] h = refl
cut_front-clear (String.◌∷◌ c text) h = rw (h.0, cut_front) refl

put_front-clear :
    (c : Char) (text : String) → white c ≡ false → put_front c text ≡ String.◌∷◌ c text
unfolding put_front
put_front-clear c String.[] h = rw h refl
put_front-clear c (String.◌∷◌ d text) h = refl

cut_back-clear : (text : String) → IsClear text → cut_back text ≡ text
unfolding cut_back
cut_back-clear String.[] h = refl
cut_back-clear (String.◌∷◌ c text) h =
    ap (put_front c) (cut_back-clear text h.1) ∙ put_front-clear c text h.0

pub trim_space-clear : (text : String) → IsClear text → trim_space text ≡ text
unfolding trim_space
trim_space-clear text h = ap cut_back (cut_front-clear text h) ∙ cut_back-clear text h

pub IsClear-append : (s t : String) → IsClear s → IsClear t → IsClear (s ++ t)
IsClear-append String.[] t h k = rw (nil-append t) k
IsClear-append (String.◌∷◌ c s) t h k = rw (cons-append c s t) (h.0, IsClear-append s t h.1 k)

-- Every number below a bound passes a test.
unfoldable pub passes : (Char → Bool) → (ℕ → Char) → ℕ → Bool
passes test at zero = true
passes test at (suc n) = test (at n) && passes test at n

pub passes-below :
    (test : Char → Bool) (at : ℕ → Char) (n m : ℕ)
    → passes test at n ≡ true
    → m < n
    → test (at m) ≡ true
unfolding passes
passes-below test at zero m h k = absurd (omega arith)
passes-below test at (suc n) m h k = ground (arith, passes-below test at n m)

digits_clear : passes (λ c. not (white c)) digit 10 ≡ true
unfolding passes white digit
digits_clear = refl

digit-IsClear : (n : ℕ) → white (digit (n % 10)) ≡ false
digit-IsClear n = ground (arith, passes-below (λ c. not (white c)) digit 10 (n % 10) digits_clear)

digits_before-IsClear :
    (fuel n : ℕ) (text : String) → IsClear text → IsClear (digits_before fuel n text)
unfolding digits_before
digits_before-IsClear zero n text h = h
digits_before-IsClear (suc fuel) n text h = elim (Bool-cases (n / 10 == 0)) [
  | inl last ↦ rw (last, digits_before, IsClear) (digit-IsClear n, h)
  | inr more ↦
      rw (more, digits_before, IsClear) (digits_before-IsClear fuel (n / 10) _ (digit-IsClear n, h))
]

pub show_int-IsClear : (n : ℕ) → IsClear (show_int (pos n))
unfolding show_int
show_int-IsClear n = digits_before-IsClear (suc n) n "" tt
