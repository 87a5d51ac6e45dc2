-- ===== src/Timestamp/Format.antt =====
-- The text of a time.
use network_library_baseon_c.Base.{ℕ, ◌+◌, ◌≤◌, ◌<◌, ◌≡◌, ◌/◌, refl, List, [], ◌∷◌, arith}
use network_library_baseon_c.Text.Digits.{digit, padded_four, padded_two, cut_to_lem}
use network_library_baseon_c.Timestamp.{Timestamp, Tm, format, to_string}

-- What localtime(3) says of its members, up to the year 9999; tm_sec has leap seconds.
pub record IsTm (t : Tm) : Type 0 where
  pub year : t.tm_year + 1900 < 10000
  pub month : t.tm_mon < 12
  pub day : t.tm_mday ≤ 31
  pub hour : t.tm_hour < 24
  pub minute : t.tm_min < 60
  pub second : t.tm_sec ≤ 60

-- The text of a day and a time, by its bytes: "year/month/day  hour:minute:second".
abbrev pub written : ℕ → ℕ → ℕ → ℕ → ℕ → ℕ → List ℕ
written year month day hour minute second =
    digit (year / 1000)
    ∷ digit (year / 100)
    ∷ digit (year / 10)
    ∷ digit year
    ∷ 47
    ∷ digit (month / 10)
    ∷ digit month
    ∷ 47
    ∷ digit (day / 10)
    ∷ digit day
    ∷ 32
    ∷ 32
    ∷ digit (hour / 10)
    ∷ digit hour
    ∷ 58
    ∷ digit (minute / 10)
    ∷ digit minute
    ∷ 58
    ∷ digit (second / 10)
    ∷ digit second
    ∷ []

format_lem :
    (t : Tm)
    → IsTm t
    → format t ≡ written (t.tm_year + 1900) (t.tm_mon + 1) t.tm_mday t.tm_hour t.tm_min t.tm_sec
unfolding format
format_lem t v =
    rw
      (
        padded_four (t.tm_year + 1900) (omega arith) v.year,
        padded_two (t.tm_mon + 1) (omega (arith, v.month)),
        padded_two t.tm_mday (omega (arith, v.day)),
        padded_two t.tm_hour (omega (arith, v.hour)),
        padded_two t.tm_min (omega (arith, v.minute)),
        padded_two t.tm_sec (omega (arith, v.second)),
      )
      refl

-- The text of a time up to the year 9999, for a time that localtime takes apart within the bounds of its
-- members: the year with four digits and, with two each, the month counted from 1, the day, the hour,
-- the minute and the second of that time. It is these 20 bytes, so that snprintf cuts nothing off.
pub to_string_whole :
    (local : ℕ → Tm) (t : Timestamp) (m : Tm)
    → local t.micro_seconds_since_epoch ≡ m
    → IsTm m
    → to_string local t
      ≡ written (m.tm_year + 1900) (m.tm_mon + 1) m.tm_mday m.tm_hour m.tm_min m.tm_sec
unfolding to_string
to_string_whole local t m e v =
    rw (e, format_lem m v)
      (cut_to_lem 128
        (written (m.tm_year + 1900) (m.tm_mon + 1) m.tm_mday m.tm_hour m.tm_min m.tm_sec)
        (omega arith))
