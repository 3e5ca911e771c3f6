-- ===== src/Auth/Tokens.antt =====
-- What internal/app/auth uses of Go: the bytes of a text, `base64.RawURLEncoding`, and the formats of
-- a date and of a time in UTC.
use Prim.Native.Char.{Char, code}
use Prim.Native.String.{char_at, ◌++◌ as append}
use clawvival.Base.{
  ℕ, ◌+◌, ◌-◌, ◌*◌, ◌/◌, ◌%◌, ltb, pos, String, List, [], ◌∷◌, ◌++◌, ◌≡◌, refl, if◌then◌else◌,
}
use clawvival.Base.Decimal.{show_int}
use clawvival.Survival.Types.{Time}
use clawvival.Survival.Tuning.{second}

abbrev pub Bytes : Type 0
Bytes = List ℕ

-- A character in UTF-8.
utf8_char : ℕ → Bytes
utf8_char c =
    if ltb c 0x80
    then c ∷ []
    else if ltb c 0x800
    then (0xc0 + c / 64) ∷ (0x80 + c % 64) ∷ []
    else if ltb c 0x10000
    then (0xe0 + c / 4096) ∷ (0x80 + c / 64 % 64) ∷ (0x80 + c % 64) ∷ []
    else (0xf0 + c / 262144) ∷ (0x80 + c / 4096 % 64) ∷ (0x80 + c / 64 % 64) ∷ (0x80 + c % 64) ∷ []

unfoldable pub utf8 : String → Bytes
unfolding utf8_char
utf8 String.[] = []
utf8 (String.◌∷◌ c text) = utf8_char (code c) ++ utf8 text

unfoldable pub sextet : ℕ → Char
sextet n = char_at "ABCDEFGHIJKLMNOPQRSTUVWXYZabcdefghijklmnopqrstuvwxyz0123456789-_" (n % 64)

-- Three bytes make four characters; one or two at the end make two or three.
unfoldable pub raw_url_encode : Bytes → String
raw_url_encode [] = ""
raw_url_encode (a ∷ []) = String.◌∷◌ (sextet (a / 4)) (String.◌∷◌ (sextet (a * 16)) "")
raw_url_encode (a ∷ b ∷ []) =
    String.◌∷◌ (sextet (a / 4))
      (String.◌∷◌ (sextet (a * 16 + b / 16)) (String.◌∷◌ (sextet (b * 4)) ""))
raw_url_encode (a ∷ b ∷ c ∷ rest) = String.◌∷◌ (sextet (a / 4)) (
    String.◌∷◌ (sextet (a * 16 + b / 16))
      (String.◌∷◌ (sextet (b * 4 + c / 64)) (String.◌∷◌ (sextet c) (raw_url_encode rest))))

encodes : raw_url_encode (104 ∷ 101 ∷ 108 ∷ 108 ∷ 255 ∷ []) ≡ "aGVsbP8"
unfolding raw_url_encode sextet
encodes = refl

-- The civil date of a day, counted from 1 March of the year 0.
pub record Date : Type 0 where
  pub year : ℕ
  pub month : ℕ
  pub day : ℕ

date_of : ℕ → Date
date_of z =
    let era = z / 146097 in
    let doe = z % 146097 in
    let yoe = (doe - doe / 1460 + doe / 36524 - doe / 146096) / 365 in
    let doy = doe - (365 * yoe + yoe / 4 - yoe / 100) in
    let mp = (5 * doy + 2) / 153 in
    record {
      year = yoe + era * 400 + (if ltb mp 10 then 0 else 1);
      month = if ltb mp 10 then mp + 3 else mp - 9;
      day = doy - (153 * mp + 2) / 5 + 1;
    }

-- The zero time is 1 January of the year 1, 306 days after.
unfoldable pub civil : Time → Date
unfolding date_of
civil t = date_of (t / second / 86400 + 306)

unfoldable pub two : ℕ → String
two n = if ltb n 10 then append "0" (show_int (pos n)) else show_int (pos n)

unfoldable pub four : ℕ → String
four n =
    if ltb n 10
    then append "000" (show_int (pos n))
    else if ltb n 100
    then append "00" (show_int (pos n))
    else if ltb n 1000
    then append "0" (show_int (pos n))
    else show_int (pos n)

-- `now.Format("20060102")`
unfoldable pub format_date : Time → String
unfolding two four
format_date t = let d = civil t in append (four d.year) (append (two d.month) (two d.day))

-- `now.Format(time.RFC3339)` in UTC.
unfoldable pub format_rfc3339 : Time → String
unfolding two four
format_rfc3339 t =
    let d = civil t in
    let s = t / second % 86400 in
    append (four d.year) (
      append "-" (
        append (two d.month) (
          append "-" (
            append (two d.day) (
              append "T" (
                append (two (s / 3600)) (
                  append ":"
                    (append (two (s / 60 % 60)) (append ":" (append (two (s % 60)) "Z"))))))))))

formats : format_rfc3339 (63907706829 * second) ≡ "2026-02-26T12:47:09Z"
unfolding format_rfc3339 civil show_int
formats = refl
