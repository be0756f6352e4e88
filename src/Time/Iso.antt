-- ===== src/Time/Iso.antt =====
-- `isoformat` of a UTC `datetime` and `fromisoformat`, as backend/app/sla.py calls them: between an
-- instant and the calendar fields that the text names. An offset is in seconds.
use the_vc_brain.Prelude.{
  ℕ, ◌+◌, ◌-◌, ◌*◌, ◌/◌, ◌%◌, Bool, Option, none, some, ◌==◌, ◌&&◌, ◌||◌, not, if◌then◌else◌, ltb,
  leb, ℤ, pos, negsuc,
}
use the_vc_brain.Time.{DateTime, naive, aware, second}

-- The fields of a text that has the form of an ISO date and time.
pub record IsoText : Type 0 where
  pub year : ℕ
  pub month : ℕ
  pub day : ℕ
  pub hour : ℕ
  pub minute : ℕ
  pub seconds : ℕ
  pub microsecond : ℕ
  pub offset : Option ℤ

abbrev day_length : ℕ
day_length = 86400 * second

-- days of 400, 4 and 100 years and of one, from the first of March on
abbrev era_days : ℕ
era_days = 146097

-- The date of a day that is counted from the first of January of year 1.
abbrev pub civil_from_days : ℕ → ℕ × ℕ × ℕ
civil_from_days days =
    let shifted = days + 306 in
    let day_of_era = shifted % era_days in
    let year_of_era =
      (day_of_era - day_of_era / 1460 + day_of_era / 36524 - day_of_era / 146096) / 365 in
    let day_of_year = day_of_era - (365 * year_of_era + year_of_era / 4 - year_of_era / 100) in
    let month_index = (5 * day_of_year + 2) / 153 in
    let day = day_of_year - (153 * month_index + 2) / 5 + 1 in
    let month = if ltb month_index 10 then month_index + 3 else month_index - 9 in
    let year = year_of_era + (shifted / era_days) * 400 in
    (if leb month 2 then year + 1 else year, month, day)

abbrev pub days_from_civil : ℕ → ℕ → ℕ → ℕ
days_from_civil year month day =
    let shifted = if leb month 2 then year - 1 else year in
    let year_of_era = shifted % 400 in
    let month_index = if leb month 2 then month + 9 else month - 3 in
    let day_of_year = (153 * month_index + 2) / 5 + day - 1 in
    (shifted / 400) * era_days
    + year_of_era * 365
    + year_of_era / 4
    - year_of_era / 100
    + day_of_year
    - 306

abbrev is_leap : ℕ → Bool
is_leap year = (year % 4 == 0 && not (year % 100 == 0)) || year % 400 == 0

abbrev days_in_month : ℕ → ℕ → ℕ
days_in_month year month =
    if month == 2
    then if is_leap year then 29 else 28
    else if month == 4 || month == 6 || month == 9 || month == 11
    then 30
    else 31

-- `_iso` of an instant
unfoldable pub isoformat : ℕ → IsoText
isoformat instant =
    let date = civil_from_days (instant / day_length) in
    let of_day = instant % day_length in
    record {
      year = date.0;
      month = date.1;
      day = date.2;
      hour = of_day / (3600 * second);
      minute = (of_day / (60 * second)) % 60;
      seconds = (of_day / second) % 60;
      microsecond = of_day % second;
      offset = some (pos 0);
    }

-- The constructor of `datetime` refuses a field out of its range.
abbrev pub in_range : IsoText → Bool
in_range t =
    leb 1 t.year
    && leb t.year 9999
    && leb 1 t.month
    && leb t.month 12
    && leb 1 t.day
    && leb t.day (days_in_month t.year t.month)
    && ltb t.hour 24
    && ltb t.minute 60
    && ltb t.seconds 60
    && ltb t.microsecond second

abbrev wall_of : IsoText → ℕ
wall_of t =
    days_from_civil t.year t.month t.day * day_length
    + t.hour * 3600 * second
    + t.minute * 60 * second
    + t.seconds * second
    + t.microsecond

abbrev at_offset : ℕ → Option ℤ → DateTime
at_offset wall none = naive wall
at_offset wall (some (pos east)) = aware (wall - east * second)
at_offset wall (some (negsuc west)) = aware (wall + (west + 1) * second)

-- `none` where it raises ValueError
unfoldable pub fromisoformat : IsoText → Option DateTime
fromisoformat t = if in_range t then some (at_offset (wall_of t) t.offset) else none
