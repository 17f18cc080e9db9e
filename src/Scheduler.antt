-- ===== src/Scheduler.antt =====
-- node/src/controller/scheduler.rs: when a schedule runs. A date is a number of days and a time a number of
-- nanoseconds, both counted from one day, the local time likewise. The calendar and the time zone are
-- chrono's, and a parameter.
pub mod Parse
pub mod Window
pub mod Search
pub mod Nearest
pub mod Cover
pub mod Runs
pub mod Ticks
pub mod Due
pub mod Wakes
mod Examples
use capture_room.Prelude.{
  ℕ, zero, suc, ◌+◌, ◌-◌, ◌*◌, ◌/◌, ◌%◌, ◌^◌, min, max, Bool, true, false, not, ◌&&◌, ◌||◌, Option,
  none, some, List, [], ◌∷◌, ◌++◌, map, String, ◌==◌, ltb, leb, if◌then◌else◌, retain, ℤ, pos,
  negsuc,
}

-- `from_local` is the earliest time that a local time may mean, if any; `month` is from 0, and a weekday
-- counts from Monday.
pub record Chrono : Type 0 where
  pub weekday : ℕ → ℕ
  pub year : ℕ → ℕ
  pub month : ℕ → ℕ
  pub from_ymd : ℕ → ℕ → ℕ → Option ℕ
  pub next_month : ℕ → Option ℕ
  pub local : ℕ → ℕ
  pub from_local : ℕ → Option ℕ
  pub parse_time : String → Option ℕ
  pub parse_date : String → Option ℕ

abbrev pub minute : ℕ
minute = 60000000000

abbrev pub day : ℕ
day = 86400000000000

pub data ScheduleKind : Type 0 where
  once weekly monthly : ScheduleKind

-- `start` is in minutes.
pub record Rule : Type 0 where
  pub kind : ScheduleKind
  pub date : Option ℕ
  pub weekdays : ℕ
  pub month_day : Option ℕ
  pub month_week : Option ℤ
  pub start : ℕ
  pub duration_s : Option ℕ

pub data RuleError : Type 0 where
  bad_time bad_date no_date no_weekday both_ways no_day bad_day bad_week not_one_weekday no_length :
      RuleError

pub data Parsed : Type 0 where
  rejected : RuleError → Parsed
  parsed : Rule → Parsed

abbrev pub bit : ℕ → ℕ → Bool
bit n i = n / 2 ^ i % 2 == 1

abbrev pub count_ones : ℕ → ℕ
count_ones n = n % 2 + n / 2 % 2 + n / 4 % 2 + n / 8 % 2 + n / 16 % 2 + n / 32 % 2 + n / 64 % 2

abbrev pub zeros_from : ℕ → ℕ → ℕ → ℕ
zeros_from zero i n = i
zeros_from (suc k) i n = let rest = zeros_from k (i + 1) n in if bit n i then i else rest

-- Of seven bits.
abbrev pub trailing_zeros : ℕ → ℕ
trailing_zeros n = zeros_from 7 0 n

abbrev pub is_week : ℤ → Bool
is_week (pos w) = leb 1 w && leb w 4
is_week (negsuc w) = w == 0

abbrev pub month_error : Option ℕ → Option ℤ → ℕ → Option RuleError
month_error (some d) (some w) weekdays = some both_ways
month_error none none weekdays = some no_day
month_error (some d) none weekdays = if leb 1 d && leb d 31 then none else some bad_day
month_error none (some w) weekdays =
    if not (is_week w)
    then some bad_week
    else if not (count_ones weekdays == 1)
    then some not_one_weekday
    else none

abbrev pub is_zero : Option ℕ → Bool
is_zero none = false
is_zero (some s) = s == 0

abbrev pub with_length : ScheduleKind → Option ℕ → ℕ → Option ℕ → Option ℤ → ℕ → Option ℕ → Parsed
with_length kind date weekdays month_day month_week start duration_s =
    if is_zero duration_s
    then rejected no_length
    else parsed (record {
      kind = kind;
      date = date;
      weekdays = weekdays;
      month_day = month_day;
      month_week = month_week;
      start = start;
      duration_s = duration_s;
    })

abbrev pub is_date : Option ℕ → ℕ → Bool
is_date none d = false
is_date (some a) d = a == d

abbrev pub is_from : Option ℕ → ℕ → Bool
is_from none d = true
is_from (some a) d = leb a d

abbrev pub once_at : Option ℕ → ℕ → ℕ → Option ℕ → Parsed
once_at none weekdays start duration_s = rejected bad_date
once_at (some d) weekdays start duration_s =
    with_length once (some d) weekdays none none start duration_s

abbrev pub monthly_at : Option ℕ → ℕ → Option ℕ → Option ℤ → ℕ → Option ℕ → Parsed
monthly_at none weekdays month_day month_week start duration_s = rejected bad_date
monthly_at (some d) weekdays month_day month_week start duration_s =
    with_length monthly (some d) weekdays month_day month_week start duration_s

abbrev pub or_later : Option ℕ → Option ℕ → Option ℕ
or_later none later = later
or_later (some t) later = some t

abbrev pub days_from : ℕ → ℕ → List ℕ
days_from zero d = []
days_from (suc k) d = d ∷ days_from k (d + 1)

abbrev pub days_back : ℕ → ℕ → List ℕ
days_back zero d = []
days_back (suc k) d = d ∷ days_back k (d - 1)

abbrev pub keep : Option ℕ → List ℕ → List ℕ
keep none ys = ys
keep (some y) ys = y ∷ ys

abbrev pub keep_some : (ℕ → Option ℕ) → List ℕ → List ℕ
keep_some f [] = []
keep_some f (x ∷ xs) = keep (f x) (keep_some f xs)

abbrev pub to_list : Option ℕ → List ℕ
to_list none = []
to_list (some d) = d ∷ []

abbrev pub range : Bool → ℕ → ℕ → ℕ → List ℕ
range true behind ahead d = days_from (behind + ahead + 1) (d - behind)
range false behind ahead d = days_back (behind + ahead + 1) (d + ahead)

-- Looking ahead, a monthly schedule starts from the first date that it may run.
abbrev pub month_base : Bool → Option ℕ → ℕ → ℕ
month_base true (some first) today = max today first
month_base true none today = today
month_base false date today = today

abbrev pub lesser : ℕ → Option ℕ → Option ℕ
lesser x none = some x
lesser x (some y) = some (min x y)

abbrev pub smallest : List ℕ → Option ℕ
smallest [] = none
smallest (x ∷ xs) = lesser x (smallest xs)

abbrev pub greater : ℕ → Option ℕ → Option ℕ
greater x none = some x
greater x (some y) = some (max x y)

abbrev pub largest : List ℕ → Option ℕ
largest [] = none
largest (x ∷ xs) = greater x (largest xs)

module _ (ch : Chrono) where
  abbrev pub once_on : Option String → ℕ → ℕ → Option ℕ → Parsed
  once_on none weekdays start duration_s = rejected no_date
  once_on (some text) weekdays start duration_s =
      once_at (ch.parse_date text) weekdays start duration_s

  abbrev pub monthly_from :
      Option RuleError → Option String → ℕ → Option ℕ → Option ℤ → ℕ → Option ℕ → Parsed
  monthly_from (some e) text weekdays month_day month_week start duration_s = rejected e
  monthly_from none none weekdays month_day month_week start duration_s =
      with_length monthly none weekdays month_day month_week start duration_s
  monthly_from none (some text) weekdays month_day month_week start duration_s =
      monthly_at (ch.parse_date text) weekdays month_day month_week start duration_s

  abbrev pub parse_kind :
      ScheduleKind → Option String → ℕ → Option ℕ → Option ℤ → ℕ → Option ℕ → Parsed
  parse_kind once date weekdays month_day month_week start duration_s =
      once_on date weekdays start duration_s
  parse_kind weekly date weekdays month_day month_week start duration_s =
      if weekdays == 0
      then rejected no_weekday
      else with_length weekly none weekdays none none start duration_s
  parse_kind monthly date weekdays month_day month_week start duration_s =
      monthly_from (month_error month_day month_week weekdays) date weekdays month_day month_week
        start duration_s

  abbrev pub parse_at :
      Option ℕ → ScheduleKind → Option String → ℕ → Option ℕ → Option ℤ → Option ℕ → Parsed
  parse_at none kind date weekdays month_day month_week duration_s = rejected bad_time
  parse_at (some start) kind date weekdays month_day month_week duration_s =
      parse_kind kind date weekdays month_day month_week start duration_s

  unfoldable pub parse :
      ScheduleKind → Option String → ℕ → Option ℕ → Option ℤ → String → Option ℕ → Parsed
  parse kind date weekdays month_day month_week start_time duration_s =
      parse_at (ch.parse_time start_time) kind date (weekdays % 128) month_day month_week duration_s

  -- The nth of the weekday in the month, or its last.
  abbrev pub week_in : ℤ → ℕ → ℕ → ℕ → ℕ → Option ℕ
  week_in (pos zero) weekday first year month = last_in (ch.next_month first)
    where
      last_in : Option ℕ → Option ℕ
      last_in none = none
      last_in (some next) = let last = next - 1 in some (last - (ch.weekday last + 7 - weekday) % 7)
  week_in (pos (suc w)) weekday first year month =
      ch.from_ymd year month (1 + (weekday + 7 - ch.weekday first) % 7 + 7 * w)
  week_in (negsuc w) weekday first year month = last_in (ch.next_month first)
    where
      last_in : Option ℕ → Option ℕ
      last_in none = none
      last_in (some next) = let last = next - 1 in some (last - (ch.weekday last + 7 - weekday) % 7)

  abbrev pub week_from : Option ℕ → ℤ → ℕ → ℕ → ℕ → Option ℕ
  week_from none w weekday year month = none
  week_from (some first) w weekday year month = week_in w weekday first year month

  abbrev pub in_month_by : Option ℕ → Option ℤ → ℕ → ℕ → ℕ → Option ℕ
  in_month_by (some d) w weekday year month = ch.from_ymd year month d
  in_month_by none none weekday year month = none
  in_month_by none (some w) weekday year month =
      week_from (ch.from_ymd year month 1) w weekday year month

  -- A monthly schedule's date in a month, if that month has one.
  unfoldable pub in_month : Rule → ℕ → ℕ → Option ℕ
  in_month r year month =
      in_month_by r.month_day r.month_week (trailing_zeros r.weekdays) year month

  abbrev pub matches_kind : ScheduleKind → Rule → ℕ → Bool
  matches_kind once r d = is_date r.date d
  matches_kind weekly r d = bit r.weekdays (ch.weekday d)
  matches_kind monthly r d = is_date (in_month r (ch.year d) (ch.month d)) d && is_from r.date d

  unfoldable pub matches : Rule → ℕ → Bool
  matches r d = matches_kind r.kind r d

  -- The first minute of so many that means a time, from a local time on.
  abbrev pub first_minute : ℕ → ℕ → Option ℕ
  first_minute zero naive = none
  first_minute (suc k) naive = or_later (ch.from_local naive) (first_minute k (naive + minute))

  -- A time that the clocks skip moves to the first minute after, within three hours.
  unfoldable pub start_on : Rule → ℕ → Option ℕ
  start_on r d = first_minute 181 (d * day + r.start * minute)

  abbrev pub dates_of : ScheduleKind → Rule → ℕ → Bool → List ℕ
  dates_of once r today ahead = to_list r.date
  dates_of weekly r today true = retain (matches r) (range true 1 8 today)
  dates_of weekly r today false = retain (matches r) (range false 8 1 today)
  dates_of monthly r today true =
      let from = month_base true r.date today in
      retain (matches r) (
        keep_some (λ m. in_month r (m / 12) (m % 12))
          (range true 1 13 (ch.year from * 12 + ch.month from)))
  dates_of monthly r today false = retain (matches r) (
      keep_some (λ m. in_month r (m / 12) (m % 12))
        (range false 13 1 (ch.year today * 12 + ch.month today)))

  -- The candidate starts on local dates around a time.
  unfoldable pub starts : Rule → ℕ → Bool → List ℕ
  starts r t ahead = keep_some (start_on r) (dates_of r.kind r (ch.local t / day) ahead)

  unfoldable pub latest_at_or_before : Rule → ℕ → Option ℕ
  latest_at_or_before r t = largest (retain (λ s. leb s t) (starts r t false))

  unfoldable pub next_after : Rule → ℕ → Option ℕ
  next_after r t = smallest (retain (λ s. ltb t s) (starts r t true))
