-- ===== src/Audit/Stamp.antt =====
-- audit_log.rs, `rfc3339`: the date and the time of a number of seconds since the Unix epoch. The
-- number of days is no less than 0, and `div_euclid` and `rem_euclid` are `/` and `%`.
pub mod Calendar
use kr0ki.Common.{ℕ, ◌+◌, ◌-◌, ◌*◌, ◌/◌, ◌%◌, leb, ltb, if◌then◌else◌}

-- What `format!` prints.
pub record Stamp : Type 0 where
  pub y : ℕ
  pub m : ℕ
  pub d : ℕ
  pub hours : ℕ
  pub minutes : ℕ
  pub seconds : ℕ

-- The year within an era of 400 years, from the day of the era.
unfoldable pub year_of_era : ℕ → ℕ
year_of_era doe = (doe - doe / 1460 + doe / 36524 - doe / 146096) / 365

unfoldable pub day_of_year : ℕ → ℕ → ℕ
day_of_year doe yoe = doe - (365 * yoe + yoe / 4 - yoe / 100)

-- The month from March on, of a day of the year from March on.
unfoldable pub month_from_march : ℕ → ℕ
month_from_march doy = (5 * doy + 2) / 153

unfoldable pub day_of_month : ℕ → ℕ → ℕ
day_of_month doy mp = doy - (153 * mp + 2) / 5 + 1

unfoldable pub rfc3339 : ℕ → Stamp
unfolding year_of_era day_of_year month_from_march day_of_month
rfc3339 secs =
    let days = secs / 86400 in
    let rem = secs % 86400 in
    let z = days + 719468 in
    let era = z / 146097 in
    let doe = z % 146097 in
    let yoe = year_of_era doe in
    let doy = day_of_year doe yoe in
    let mp = month_from_march doy in
    let m = if ltb mp 10 then mp + 3 else mp - 9 in
    let y = yoe + era * 400 in
    record {
      y = if leb m 2 then y + 1 else y;
      m = m;
      d = day_of_month doy mp;
      hours = rem / 3600;
      minutes = rem % 3600 / 60;
      seconds = rem % 60;
    }
