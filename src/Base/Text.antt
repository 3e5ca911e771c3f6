-- ===== src/Base/Text.antt =====
-- Go's `strings` package, as far as the program uses it: TrimSpace, ToLower, ToUpper and EqualFold.
-- Case is mapped at the letters that are ASCII or become ASCII; any other character stays, which
-- no comparison with an ASCII text can tell.
use Prim.Native.Nat.{ℕ, ◌-◌}
use Prim.Native.Char.{Char, code}
use Prim.Native.String.{String, char_at}
use mathlib.Core.Path.{◌≡◌, refl}
use mathlib.Core.Bool.{Bool, true, false, ◌&&◌, ◌||◌}
use text.Mathlib.Text.{◌==◌ as str_eq}
use clawvival.Base.Tests.{leb, ◌==◌, if◌then◌else◌}

-- `unicode.IsSpace`: the controls from tab to return, and the spaces of Unicode.
abbrev from_to : ℕ → ℕ → ℕ → Bool
from_to low high n = leb low n && leb n high

unfoldable pub white : Char → Bool
white ch =
    let n = code ch in
    from_to 9 13 n
    || from_to 0x2000 0x200a n
    || from_to 0x2028 0x2029 n
    || n == 32
    || n == 0x85
    || n == 0xa0
    || n == 0x1680
    || n == 0x202f
    || n == 0x205f
    || n == 0x3000

-- Without the white characters before the first that is not, and after the last.
unfoldable pub cut_front : String → String
cut_front String.[] = ""
cut_front (String.◌∷◌ ch text) = elim (white ch) [
  | true ↦ cut_front text
  | false ↦ String.◌∷◌ ch text
]

unfoldable pub put_front : Char → String → String
unfolding white
put_front ch String.[] = if white ch then "" else String.◌∷◌ ch ""
put_front ch (String.◌∷◌ next text) = String.◌∷◌ ch (String.◌∷◌ next text)

unfoldable pub cut_back : String → String
cut_back String.[] = ""
cut_back (String.◌∷◌ ch text) = put_front ch (cut_back text)

unfoldable pub trim_space : String → String
unfolding white put_front cut_front cut_back
trim_space text = cut_back (cut_front text)

abbrev lower_char : Char → Char
lower_char c =
    if leb b'A' (code c) && leb (code c) b'Z'
    then char_at "abcdefghijklmnopqrstuvwxyz" (code c - b'A')
    else if code c == 0x212a
    then "k"
    else if code c == 0x130
    then "i"
    else c

abbrev upper_char : Char → Char
upper_char c =
    if leb b'a' (code c) && leb (code c) b'z'
    then char_at "ABCDEFGHIJKLMNOPQRSTUVWXYZ" (code c - b'a')
    else if code c == 0x17f
    then "S"
    else if code c == 0x131
    then "I"
    else c

unfoldable pub to_lower : String → String
to_lower String.[] = ""
to_lower (String.◌∷◌ c s) = String.◌∷◌ (lower_char c) (to_lower s)

unfoldable pub to_upper : String → String
to_upper String.[] = ""
to_upper (String.◌∷◌ c s) = String.◌∷◌ (upper_char c) (to_upper s)

-- `strings.EqualFold(a, b)`, for an ASCII text `b`: folding takes `ſ` to `s`, as `ToUpper` does,
-- and the Kelvin sign to `k`, as `ToLower` does.
unfoldable pub equal_fold : String → String → Bool
unfolding to_lower to_upper
equal_fold a b = str_eq (to_lower (to_upper (to_lower a))) (to_lower (to_upper (to_lower b)))

-- The normal form by which the program reads item and object types.
unfoldable pub normal : String → String
unfolding to_lower trim_space
normal s = to_lower (trim_space s)

normal_runs : normal "  Bed_Rough\n" ≡ "bed_rough"
unfolding normal
normal_runs = refl

upper_runs : to_upper (trim_space " good ") ≡ "GOOD"
unfolding to_upper trim_space
upper_runs = refl
