-- ===== src/Scheduler/Parse.antt =====
-- What a rule that is accepted has.
use capture_room.Prelude.{
  ℕ, ◌%◌, ◌≤◌, ◌<◌, ◌≡◌, ◌≢◌, refl, inl, inr, Bool, true, false, not, ◌&&◌, Option, none, some,
  String, ◌==◌, ==_iff, leb, if◌then◌else◌, arith, Bool-cases, ℤ,
}
use capture_room.Scheduler.{
  Chrono, Rule, ScheduleKind, once, weekly, monthly, RuleError, bad_day, bad_week, not_one_weekday,
  Parsed, rejected, parsed, count_ones, is_week, month_error, with_length, once_on, monthly_from,
  once_at, monthly_at, parse_kind, parse, parse_at,
}

abbrev pub IsSome : {A : Type 0} → Option A → Type 0
IsSome none = ⊥
IsSome (some a) = Unit

-- One day of the month, or one weekday in one of its weeks.
abbrev pub IsMonthly : Option ℕ → Option ℤ → ℕ → Type 0
IsMonthly none none weekdays = ⊥
IsMonthly (some d) (some w) weekdays = ⊥
IsMonthly (some d) none weekdays = (1 ≤ d) × (d ≤ 31)
IsMonthly none (some w) weekdays = (is_week w ≡ true) × (count_ones weekdays ≡ 1)

abbrev pub FitsKind : ScheduleKind → Rule → Type 0
FitsKind once r = IsSome r.date
FitsKind weekly r = r.weekdays ≢ 0
FitsKind monthly r = IsMonthly r.month_day r.month_week r.weekdays

abbrev pub IsLong : Option ℕ → Type 0
IsLong none = Unit
IsLong (some s) = 1 ≤ s

abbrev pub IsRule : ScheduleKind → Parsed → Type 0
IsRule kind (rejected e) = Unit
IsRule kind (parsed r) =
    (r.kind ≡ kind) × FitsKind kind r × (r.weekdays < 128) × IsLong r.duration_s

month_error-IsMonthly :
    (d : Option ℕ) (w : Option ℤ) (weekdays : ℕ)
    → month_error d w weekdays ≡ none
    → IsMonthly d w weekdays
month_error-IsMonthly (some d) (some w) weekdays e = absurd (cc)
month_error-IsMonthly none none weekdays e = absurd (cc)
month_error-IsMonthly (some d) none weekdays e = by_test (leb 1 d && leb d 31) refl e
  where
    by_test :
        (b : Bool)
        → (leb 1 d && leb d 31) ≡ b
        → (if b then none else some bad_day) ≡ none
        → (1 ≤ d) × (d ≤ 31)
    by_test true k e = ground arith
    by_test false k e = absurd (cc)
month_error-IsMonthly none (some w) weekdays e =
    by_tests (is_week w) (count_ones weekdays == 1) refl refl e
  where
    by_tests :
        (b c : Bool)
        → is_week w ≡ b
        → (count_ones weekdays == 1) ≡ c
        → (if not b then some bad_week else if not c then some not_one_weekday else none) ≡ none
        → (is_week w ≡ true) × (count_ones weekdays ≡ 1)
    by_tests true true k l e = (k, (==_iff (count_ones weekdays) 1).0 l)
    by_tests true false k l e = absurd (cc)
    by_tests false c k l e = absurd (cc)

with_length-IsRule :
    (kind : ScheduleKind) (date : Option ℕ) (weekdays : ℕ) (d : Option ℕ) (w : Option ℤ) (start : ℕ)
    (duration_s : Option ℕ)
    → weekdays < 128
    → FitsKind kind (record {
      kind = kind;
      date = date;
      weekdays = weekdays;
      month_day = d;
      month_week = w;
      start = start;
      duration_s = duration_s;
    })
    → IsRule kind (with_length kind date weekdays d w start duration_s)
with_length-IsRule kind date weekdays d w start none l f = (refl, f, l, tt)
with_length-IsRule kind date weekdays d w start (some s) l f = elim (Bool-cases (s == 0)) [
  | inl e ↦ rw e tt
  | inr e ↦ rw e (refl, f, l, ground (arith, e))
]

-- A rule that parse accepts is of the kind asked for and can run: a one-off has its date, a weekly one a weekday, a
-- monthly one either a day from 1 to 31 or a week from 1 to 4 or the last with exactly one weekday; its
-- weekdays are seven bits, and if it ends it lasts at least a second.
pub parse-IsRule :
    (ch : Chrono) (kind : ScheduleKind) (date : Option String) (weekdays : ℕ) (d : Option ℕ)
    (w : Option ℤ) (start_time : String) (duration_s : Option ℕ)
    → IsRule kind (parse ch kind date weekdays d w start_time duration_s)
unfolding parse
parse-IsRule ch kind date weekdays d w start_time duration_s = at_time (ch.parse_time start_time)
  where
    days : ℕ
    days = weekdays % 128

    at_date : (start : ℕ) (o : Option ℕ) → IsRule once (once_at o days start duration_s)
    at_date start none = tt
    at_date start (some a) =
        with_length-IsRule once (some a) days none none start duration_s (omega arith) tt

    on_date : (start : ℕ) (o : Option String) → IsRule once (once_on ch o days start duration_s)
    on_date start none = tt
    on_date start (some text) = at_date start (ch.parse_date text)

    from_date :
        (start : ℕ) (o : Option ℕ)
        → month_error d w days ≡ none
        → IsRule monthly (monthly_at o days d w start duration_s)
    from_date start none e = tt
    from_date start (some a) e =
        with_length-IsRule monthly (some a) days d w start duration_s (omega arith)
          (month_error-IsMonthly d w days e)

    in_month :
        (start : ℕ) (e : Option RuleError)
        → month_error d w days ≡ e
        → (o : Option String) → IsRule monthly (monthly_from ch e o days d w start duration_s)
    in_month start (some e) k o = tt
    in_month start none k none =
        with_length-IsRule monthly none days d w start duration_s (omega arith)
          (month_error-IsMonthly d w days k)
    in_month start none k (some text) = from_date start (ch.parse_date text) k

    by_kind :
        (start : ℕ) (k : ScheduleKind) → IsRule k (parse_kind ch k date days d w start duration_s)
    by_kind start once = on_date start date
    by_kind start monthly = in_month start (month_error d w days) refl date
    by_kind start weekly = elim (Bool-cases (days == 0)) [
      | inl e ↦ rw e tt
      | inr e ↦ rw e (
          with_length-IsRule weekly none days none none start duration_s (omega arith)
            (λ z. nonzero days e z))
    ]
      where
        nonzero : (n : ℕ) → (n == 0) ≡ false → n ≡ 0 → ⊥
        nonzero n e z = ground arith

    at_time : (o : Option ℕ) → IsRule kind (parse_at ch o kind date days d w duration_s)
    at_time none = tt
    at_time (some start) = by_kind start kind
