-- ===== src/Audit/Stamp/Calendar.antt =====
-- The fields of a stamp, and the way back.
use kr0ki.Common.{ℕ, ◌+◌, ◌-◌, ◌*◌, ◌/◌, ◌%◌, ◌≤◌, ◌<◌, ◌≡◌, arith, leb, ltb, if◌then◌else◌}
use kr0ki.Audit.Stamp.{Stamp, year_of_era, day_of_year, month_from_march, day_of_month, rfc3339}

-- The days of an era before a year of it.
abbrev days_before : ℕ → ℕ
days_before yoe = 365 * yoe + yoe / 4 - yoe / 100

year-le : (doe : ℕ) → doe < 146097 → days_before (year_of_era doe) ≤ doe
unfolding year_of_era
year-le doe h = omega arith

year-gt : (doe : ℕ) → doe < 146097 → doe ≤ days_before (year_of_era doe) + 365
unfolding year_of_era
year-gt doe h = omega arith

month-bounds :
    (doy : ℕ)
    → doy ≤ 365
    → (month_from_march doy ≤ 11)
      × ((153 * month_from_march doy + 2) / 5 ≤ doy)
      × (doy ≤ (153 * month_from_march doy + 2) / 5 + 30)
unfolding month_from_march
month-bounds doy h = (omega arith, omega arith, omega arith)

year_of_era-lt : (doe : ℕ) → doe < 146097 → year_of_era doe < 400
unfolding year_of_era
year_of_era-lt doe h = omega arith

-- The number of a month from March on, and the year that starts in March.
abbrev from_march : ℕ → ℕ
from_march m = if leb m 2 then m + 9 else m - 3

abbrev march_year : ℕ → ℕ → ℕ
march_year y m = if leb m 2 then y - 1 else y

-- The days from the first of March of the year 0 to a date.
abbrev days_to : ℕ → ℕ → ℕ → ℕ
days_to y m d =
    let year = march_year y m in
    year / 400 * 146097 + days_before (year % 400) + (153 * from_march m + 2) / 5 + d - 1

-- The seconds since the epoch at a stamp, by the calendar: 719468 days lie before the epoch.
unfoldable pub instant : Stamp → ℕ
instant s = (days_to s.y s.m s.d - 719468) * 86400 + s.hours * 3600 + s.minutes * 60 + s.seconds

abbrev month_of : ℕ → ℕ
month_of mp = if ltb mp 10 then mp + 3 else mp - 9

abbrev year_of : ℕ → ℕ → ℕ
year_of y m = if leb m 2 then y + 1 else y

month_of-back :
    (mp y : ℕ)
    → mp ≤ 11
    → (from_march (month_of mp) ≡ mp)
      × (march_year (year_of y (month_of mp)) (month_of mp) ≡ y)
      × (1 ≤ month_of mp)
      × (month_of mp ≤ 12)
month_of-back mp y h = (ground arith, ground arith, ground arith, ground arith)

-- What the fields of a day of an era are.
days_to-date :
    (era doe : ℕ)
    → doe < 146097
    → let yoe = year_of_era doe in
      let doy = day_of_year doe yoe in
      let mp = month_from_march doy in
      let m = month_of mp in
      (days_to (year_of (yoe + era * 400) m) m (day_of_month doy mp) ≡ era * 146097 + doe)
      × (1 ≤ m)
      × (m ≤ 12)
      × (1 ≤ day_of_month doy mp)
      × (day_of_month doy mp ≤ 31)
unfolding day_of_year day_of_month
days_to-date era doe h =
    let yoe = year_of_era doe in
    let doy = day_of_year doe yoe in
    let mp = month_from_march doy in
    let low = year-le doe h in
    let high = year-gt doe h in
    let fits = year_of_era-lt doe h in
    let split : days_before yoe + doy ≡ doe = omega (arith, low) in
    let in_year : doy ≤ 365 = omega (arith, high) in
    let (months, start, rest) = month-bounds doy in_year in
    let (back, year, first, last) = month_of-back mp (yoe + era * 400) months in
    let eras : (yoe + era * 400) / 400 ≡ era = omega (arith, fits) in
    let years : (yoe + era * 400) % 400 ≡ yoe = omega (arith, fits) in
    (
      rw (back, year, eras, years) (omega (arith, split, start)),
      first,
      last,
      omega arith,
      omega (arith, rest),
    )

-- A stamp that is a date of the calendar and a time of the day.
pub record IsInstant (s : Stamp) : Type 0 where
  pub month : (1 ≤ s.m) × (s.m ≤ 12)
  pub day : (1 ≤ s.d) × (s.d ≤ 31)
  pub time : (s.hours < 24) × (s.minutes < 60) × (s.seconds < 60)

-- The stamp of every number of seconds has a month from 1 to 12, a day from 1 to 31 and a time of
-- the day, and it loses nothing: the calendar's count of the seconds from the epoch to the stamp,
-- with a leap day in every fourth year but three times in 400 years, is that number.
pub instant-rfc3339 : (secs : ℕ) → IsInstant (rfc3339 secs) × (instant (rfc3339 secs) ≡ secs)
unfolding rfc3339 instant
instant-rfc3339 secs =
    let z = secs / 86400 + 719468 in
    let rem = secs % 86400 in
    let (days, m₁, m₂, d₁, d₂) = days_to-date (z / 146097) (z % 146097) (omega arith) in
    (
      record { month = (m₁, m₂); day = (d₁, d₂); time = (omega arith, omega arith, omega arith) },
      rw days (omega arith),
    )
