-- ===== src/Clock.antt =====
-- Instants as the program compares them: `datetime` values on the Asia/Kolkata clock
-- (src/unhalted/shell/windows.py, `IST` and `as_ist`; src/unhalted/clock.py). India's offset is
-- fixed, so an aware instant is the number of microseconds since a midnight, IST, that lies before
-- every date in use, and `as_ist` is the identity.
use unhalted.Prelude.{ℕ, ◌+◌, ◌*◌, ◌/◌, ◌%◌}

abbrev pub Instant : Type 0
Instant = ℕ

-- `datetime.date`, as the number of the day
abbrev pub Day : Type 0
Day = ℕ

-- `datetime.time`, as microseconds after midnight
abbrev pub TimeOfDay : Type 0
TimeOfDay = ℕ

-- `timedelta`, in microseconds
abbrev pub Duration : Type 0
Duration = ℕ

abbrev pub minute : Duration
minute = 60000000

abbrev pub hour : Duration
hour = 3600000000

abbrev pub day : Duration
day = 86400000000

-- `when.date()`
abbrev pub date_of : Instant → Day
date_of t = t / day

-- `when.time()`
abbrev pub time_of : Instant → TimeOfDay
time_of t = t % day

-- `datetime.combine(d, t, tzinfo=IST)`
abbrev pub combine : Day → TimeOfDay → Instant
combine d t = d * day + t
