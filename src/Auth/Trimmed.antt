-- ===== src/Auth/Trimmed.antt =====
-- internal/app/auth: the ids and keys that are drawn have no white space.

use Prim.Native.String
use clawvival.Base.{
  ℕ, ◌%◌, ◌≡◌, ◌≢◌, refl, arith, String, Bool, true, false, not, [], ◌∷◌, ltb, if◌then◌else◌,
}
use clawvival.Base.Text.{white}
use clawvival.Base.Clear.{IsClear, IsClear-append, passes, passes-below, show_int-IsClear}
use clawvival.Survival.Types.{Time}
use clawvival.Auth.Tokens.{Bytes, sextet, raw_url_encode, two, four, format_date, civil}

sextets_clear : passes (λ c. not (white c)) sextet 64 ≡ true
unfolding passes white sextet
sextets_clear = refl

sextet-mod : (n : ℕ) → sextet (n % 64) ≡ sextet n
unfolding sextet
sextet-mod n = rw (twice n) refl
  where
    twice : (k : ℕ) → k % 64 % 64 ≡ k % 64
    twice k = omega arith

sextet-IsClear : (n : ℕ) → white (sextet n) ≡ false
sextet-IsClear n =
    rw (← sextet-mod n)
      (ground (arith, passes-below (λ c. not (white c)) sextet 64 (n % 64) sextets_clear))

pub raw_url_encode-IsClear : (bytes : Bytes) → IsClear (raw_url_encode bytes)
unfolding raw_url_encode
raw_url_encode-IsClear [] = tt
raw_url_encode-IsClear (a ∷ []) = (sextet-IsClear _, (sextet-IsClear _, tt))
raw_url_encode-IsClear (a ∷ b ∷ []) = (sextet-IsClear _, (sextet-IsClear _, (sextet-IsClear _, tt)))
raw_url_encode-IsClear (a ∷ b ∷ c ∷ rest) = (
  sextet-IsClear _,
  (sextet-IsClear _, (sextet-IsClear _, (sextet-IsClear _, raw_url_encode-IsClear rest))),
)

pub raw_url_encode-ne : (a : ℕ) (rest : Bytes) → raw_url_encode (a ∷ rest) ≢ ""
unfolding raw_url_encode
raw_url_encode-ne a [] = λ h. cc
raw_url_encode-ne a (b ∷ []) = λ h. cc
raw_url_encode-ne a (b ∷ c ∷ rest) = λ h. cc

zeros-IsClear : IsClear "0" × IsClear "00" × IsClear "000"
unfolding white
zeros-IsClear = ((refl, tt), (refl, (refl, tt)), (refl, (refl, (refl, tt))))

padded :
    (short : Bool) (zeros text other : String)
    → IsClear zeros
    → IsClear text
    → IsClear other
    → IsClear (if short then String.◌++◌ zeros text else other)
padded true zeros text other h k l = IsClear-append zeros text h k
padded false zeros text other h k l = l

two-IsClear : (n : ℕ) → IsClear (two n)
unfolding two
two-IsClear n = padded (ltb n 10) "0" _ _ zeros-IsClear.0 (show_int-IsClear n) (show_int-IsClear n)

four-IsClear : (n : ℕ) → IsClear (four n)
unfolding four
four-IsClear n =
    let shown = show_int-IsClear n in
    padded (ltb n 10) "000" _ _ zeros-IsClear.2 shown (
      padded (ltb n 100) "00" _ _ zeros-IsClear.1 shown
        (padded (ltb n 1000) "0" _ _ zeros-IsClear.0 shown shown))

pub format_date-IsClear : (t : Time) → IsClear (format_date t)
unfolding format_date
format_date-IsClear t = IsClear-append (four (civil t).year) _ (four-IsClear (civil t).year) (
    IsClear-append (two (civil t).month) _ (two-IsClear (civil t).month)
      (two-IsClear (civil t).day))
