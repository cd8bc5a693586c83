-- ===== src/Schedule/Next.antt =====
-- When the next rollover is due.
use log4cplus.Common.{
  ℕ, ◌+◌, ◌-◌, ◌*◌, ◌/◌, ◌%◌, ◌≤◌, ◌<◌, ◌≡◌, ◌≢◌, ◌⊎◌, inl, inr, refl, sym, ap, ◌∙◌, Option, none,
  some, ltb, if◌then◌else◌, arith,
}
use mathlib.Core.Path.{subst}
use log4cplus.TimeHelper.{Tm, from_time_t, to_time_t, truncate_fractions}
use log4cplus.Schedule.{
  DailyRollingFileSchedule, monthly, weekly, daily, twice_daily, hourly, minutely, seconds,
  round_time, round_time_and_add, next_tm, fallback, calculate, calculate_next_rollover_time,
  from_struct_tm,
}

-- The seconds of a day that have gone by.
abbrev pub second_of_day : Tm → ℕ
second_of_day tm = tm.tm_hour * 3600 + tm.tm_min * 60 + tm.tm_sec

-- The start of an hour of a later day, or of the same day, in the time zone's own terms.
abbrev pub at_hour : ℕ → ℕ → Tm → Tm
at_hour days hour tm = record tm {
  tm_mday = tm.tm_mday + days;
  tm_hour = hour;
  tm_min = 0;
  tm_sec = 0;
}

-- The seconds that a broken down time spells, where `days` counts the days before a month, with months
-- counted from January 1900 on. Fields may be out of range.
abbrev pub spelled : (ℕ → ℕ) → Tm → ℕ
spelled days tm = (days (tm.tm_year * 12 + tm.tm_mon) + tm.tm_mday - 1) * 86400 + second_of_day tm

-- What localtime and mktime do by a calendar in a time zone without daylight saving time, in which the
-- epoch is `offset` seconds after the calendar's start, a day with the number `first` of the week:
-- months have 28 to 31 days, localtime gives the fields in their ranges, and mktime fails or gives
-- the point in time that the fields spell, whether or not they are in their ranges.
pub record IsSteady (days : ℕ → ℕ) (offset first : ℕ) (local_time : ℕ → Tm) (mktime : Tm → Option ℕ)
    : Type 0 where
  pub month : (m : ℕ) → (days m + 28 ≤ days (m + 1)) × (days (m + 1) ≤ days m + 31)
  pub hour_below : (s : ℕ) → (local_time s).tm_hour < 24
  pub min_below : (s : ℕ) → (local_time s).tm_min < 60
  pub sec_below : (s : ℕ) → (local_time s).tm_sec < 60
  pub mday_above : (s : ℕ) → 1 ≤ (local_time s).tm_mday
  pub mday_below :
      (s : ℕ)
      → days ((local_time s).tm_year * 12 + (local_time s).tm_mon) + (local_time s).tm_mday
        ≤ days ((local_time s).tm_year * 12 + (local_time s).tm_mon + 1)
  pub local : (s : ℕ) → spelled days (local_time s) ≡ s + offset
  pub weekday : (s : ℕ) → (local_time s).tm_wday ≡ ((s + offset) / 86400 + first) % 7
  pub made : (tm : Tm) → (mktime tm ≡ none) ⊎ (mktime tm ≡ some (spelled days tm - offset))

-- The longest wait, in seconds: a week has eight days where it starts on a Sunday.
abbrev pub period : DailyRollingFileSchedule → ℕ
period monthly = 2678400
period weekly = 691200
period daily = 86400
period twice_daily = 43200
period hourly = 3600
period minutely = 60

IsDue : DailyRollingFileSchedule → ℕ → ℕ → Type 0
IsDue schedule time next = (time < next) × (next ≤ time + seconds (period schedule))

fallback-IsDue :
    (schedule : DailyRollingFileSchedule) (time : ℕ)
    → schedule ≢ minutely
    → (time < truncate_fractions (fallback schedule time))
      × (truncate_fractions (fallback schedule time) ≤ time + seconds (period schedule))
unfolding fallback round_time
fallback-IsDue monthly time h = omega arith
fallback-IsDue weekly time h = omega arith
fallback-IsDue daily time h = omega arith
fallback-IsDue twice_daily time h = omega arith
fallback-IsDue hourly time h = omega arith
fallback-IsDue minutely time h = absurd (h refl)

from_struct_tm-some :
    (mktime : Tm → Option ℕ) (tm : Tm) (r otherwise : ℕ)
    → mktime tm ≡ some r
    → from_struct_tm mktime tm otherwise ≡ from_time_t r
from_struct_tm-some mktime tm r otherwise e = rw (e, from_struct_tm) refl

from_struct_tm-none :
    (mktime : Tm → Option ℕ) (tm : Tm) (otherwise : ℕ)
    → mktime tm ≡ none
    → from_struct_tm mktime tm otherwise ≡ otherwise
from_struct_tm-none mktime tm otherwise e = rw (e, from_struct_tm) refl

-- What `from_struct_tm` gives where mktime fails.
failed-IsDue :
    (schedule : DailyRollingFileSchedule) (mktime : Tm → Option ℕ) (tm : Tm) (time : ℕ)
    → schedule ≢ minutely
    → mktime tm ≡ none
    → (time < truncate_fractions (from_struct_tm mktime tm (fallback schedule time)))
      × (truncate_fractions (from_struct_tm mktime tm (fallback schedule time))
          ≤ time + seconds (period schedule))
failed-IsDue schedule mktime tm time other e =
    let same = from_struct_tm-none mktime tm (fallback schedule time) e in
    let due = fallback-IsDue schedule time other in
    (
      subst (λ x. time < truncate_fractions x) (sym same) due.0,
      subst (λ x. truncate_fractions x ≤ time + seconds (period schedule)) (sym same) due.1,
    )

-- What `from_struct_tm` gives where mktime gives a time in the seconds after `time`.
found-IsDue :
    (schedule : DailyRollingFileSchedule) (mktime : Tm → Option ℕ) (tm : Tm) (time r otherwise : ℕ)
    → mktime tm ≡ some r
    → time / 1000000 < r
    → r ≤ time / 1000000 + period schedule
    → (time < truncate_fractions (from_struct_tm mktime tm otherwise))
      × (truncate_fractions (from_struct_tm mktime tm otherwise) ≤ time + seconds (period schedule))
found-IsDue schedule mktime tm time r otherwise e above within =
    let same = from_struct_tm-some mktime tm r otherwise e in
    (
      subst (λ x. time < truncate_fractions x) (sym same) (omega (arith, above)),
      subst (λ x. truncate_fractions x ≤ time + seconds (period schedule)) (sym same)
          (omega (arith, within)),
    )

same_day :
    (hour : ℕ) (tm : Tm) → at_hour 0 hour tm ≡ record tm { tm_hour = hour; tm_min = 0; tm_sec = 0 }
same_day hour tm = ground arith

module _ {days : ℕ → ℕ} {offset first : ℕ} {local_time : ℕ → Tm} {mktime : Tm → Option ℕ}
    (steady : IsSteady days offset first local_time mktime) where
  second_of_day_below : (s : ℕ) → second_of_day (local_time s) < 86400
  second_of_day_below s = omega (arith, steady.hour_below s, steady.min_below s, steady.sec_below s)

  wday_below : (s : ℕ) → (local_time s).tm_wday < 7
  wday_below s = omega (arith, steady.weekday s)

  later :
      (s ahead hour : ℕ)
      → (mktime (at_hour ahead hour (local_time s)) ≡ none)
        ⊎ (mktime (at_hour ahead hour (local_time s))
            ≡ some (s + ahead * 86400 + hour * 3600 - second_of_day (local_time s)))
  later s ahead hour = elim (steady.made (at_hour ahead hour (local_time s))) [
    | inl e ↦ inl e
    | inr e ↦ inr (e ∙ ap some (omega (arith, steady.local s, steady.mday_above s)))
  ]

  next_month :
      (s : ℕ)
      → (mktime (next_tm monthly (local_time s)) ≡ none)
        ⊎ ((r : ℕ) × (mktime (next_tm monthly (local_time s)) ≡ some r)
            × (s < r)
            × (r ≤ s + 2678400))
  unfolding next_tm
  next_month s =
      let tm = local_time s in
      let m = tm.tm_year * 12 + tm.tm_mon in
      let here = steady.local s in
      let day = second_of_day_below s in
      let above = steady.mday_above s in
      let below = steady.mday_below s in
      let (short, long) = steady.month m in
      let same : tm.tm_year * 12 + (tm.tm_mon + 1) ≡ m + 1 = omega arith in
      let next : spelled days (next_tm monthly tm) ≡ days (m + 1) * 86400 =
        ap (λ x. (days x + 1 - 1) * 86400 + 0) same ∙ omega arith in
      elim (steady.made (next_tm monthly tm)) [
        | inl e ↦ inl e
        | inr e ↦ inr (
          days (m + 1) * 86400 - offset,
          e ∙ ap some (omega (arith, next)),
          omega (arith, here, day, above, below),
          omega (arith, here, day, above, below, long),
        )
      ]

  start_of_day : (s : ℕ) → (s + offset) / 86400 * 86400 + second_of_day (local_time s) ≡ s + offset
  start_of_day s = let day = second_of_day_below s in omega (arith, steady.local s, day)

  weekday :
      (s ahead : ℕ)
      → 0 < ahead
      → ((local_time (s + ahead * 86400 - second_of_day (local_time s))).tm_wday
          ≡ ((local_time s).tm_wday + ahead) % 7)
        × (second_of_day (local_time (s + ahead * 86400 - second_of_day (local_time s))) ≡ 0)
  weekday s ahead h =
      let r = s + ahead * 86400 - second_of_day (local_time s) in
      let day = second_of_day_below s in
      let start = start_of_day s in
      let whole : r + offset ≡ ((s + offset) / 86400 + ahead) * 86400 = omega (arith, start, day) in
      (
        omega (arith, steady.weekday r, steady.weekday s, whole),
        omega (arith, start_of_day r, whole),
      )

  -- A schedule that asks for an hour of this or a later day.
  later-IsDue :
      (schedule : DailyRollingFileSchedule) (time days hour : ℕ) (tm : Tm)
      → schedule ≢ minutely
      → at_hour days hour (local_time (time / 1000000)) ≡ tm
      → time / 1000000
        < time / 1000000 + days * 86400 + hour * 3600 - second_of_day (local_time (time / 1000000))
      → days * 86400 + hour * 3600 ≤ period schedule + second_of_day (local_time (time / 1000000))
      → (time < truncate_fractions (from_struct_tm mktime tm (fallback schedule time)))
        × (truncate_fractions (from_struct_tm mktime tm (fallback schedule time))
            ≤ time + seconds (period schedule))
  later-IsDue schedule time days hour tm other same above within =
      let s = time / 1000000 in
      elim (later s days hour) [
        | inl e ↦ failed-IsDue schedule mktime tm time other (rw (← same) e)
        | inr e ↦
            found-IsDue schedule mktime tm time _ _ (rw (← same) e) above (omega (arith, within))
      ]

  -- By a calendar whose months have 28 to 31 days, in a time zone without daylight saving time, the
  -- next rollover is due after the given time, and not later than the schedule's period after it: 31
  -- days for a monthly schedule, and eight days for a weekly one. This holds whether or not mktime
  -- fails.
  pub calculate_next_rollover_time-due :
      (schedule : DailyRollingFileSchedule) (time : ℕ)
      → (time < calculate_next_rollover_time local_time mktime schedule time)
        × (calculate_next_rollover_time local_time mktime schedule time
            ≤ time + seconds (period schedule))
  unfolding calculate_next_rollover_time calculate next_tm
  calculate_next_rollover_time-due monthly time = elim (next_month (time / 1000000)) [
    | inl e ↦ failed-IsDue monthly mktime _ time (λ x. cc) e
    | inr (r, e, above, within) ↦ found-IsDue monthly mktime _ time r _ e above within
  ]
  calculate_next_rollover_time-due weekly time =
      let s = time / 1000000 in
      let day = second_of_day_below s in
      let week = wday_below s in
      later-IsDue weekly time (7 - (local_time s).tm_wday + 1) 0 _ (λ x. cc) refl
        (omega (arith, day)) (omega (arith, day))
  calculate_next_rollover_time-due daily time =
      let s = time / 1000000 in
      let day = second_of_day_below s in
      later-IsDue daily time 1 0 _ (λ x. cc) refl (omega (arith, day)) (omega (arith, day))
  calculate_next_rollover_time-due twice_daily time =
      let s = time / 1000000 in
      let day = second_of_day_below s in
      let hour : ℕ = if ltb (local_time s).tm_hour 12 then 12 else 24 in
      let minute = steady.min_below s in
      let second = steady.sec_below s in
      let above : (local_time s).tm_hour < hour = ground (arith, steady.hour_below s) in
      let within : hour ≤ (local_time s).tm_hour + 12 = ground (arith, steady.hour_below s) in
      later-IsDue twice_daily time 0 hour _ (λ x. cc) (same_day hour (local_time s))
        (omega (arith, day, minute, second, above)) (omega (arith, day, within))
  calculate_next_rollover_time-due hourly time =
      let s = time / 1000000 in
      let minute = steady.min_below s in
      let second = steady.sec_below s in
      later-IsDue hourly time 0 ((local_time s).tm_hour + 1) _ (λ x. cc)
        (same_day ((local_time s).tm_hour + 1) (local_time s)) (omega (arith, minute, second))
        (omega (arith, minute, second))
  calculate_next_rollover_time-due minutely time =
      unfold round_time_and_add in unfold round_time in omega arith

  -- Where mktime does not fail, in a time zone without daylight saving time, the rollover of a weekly
  -- schedule is due on a Monday at midnight, after the given time. On a Sunday this is more than a
  -- week later, and otherwise it is not, so that it is the first such time.
  pub weekly_lem :
      (time : ℕ)
      → mktime (next_tm weekly (local_time (time / 1000000))) ≢ none
      → ((local_time
            (to_time_t (calculate_next_rollover_time local_time mktime weekly time))).tm_wday
          ≡ 1)
        × (second_of_day
              (local_time (to_time_t (calculate_next_rollover_time local_time mktime weekly time)))
            ≡ 0)
        × (time < calculate_next_rollover_time local_time mktime weekly time)
        × (((local_time (time / 1000000)).tm_wday ≢ 0)
            → calculate_next_rollover_time local_time mktime weekly time ≤ time + seconds 604800)
        × (((local_time (time / 1000000)).tm_wday ≡ 0)
            → time + seconds 604800 < calculate_next_rollover_time local_time mktime weekly time)
  unfolding calculate_next_rollover_time calculate next_tm
  weekly_lem time h =
      let s = time / 1000000 in
      let ahead = 7 - (local_time s).tm_wday + 1 in
      let next = s + ahead * 86400 + 0 * 3600 - second_of_day (local_time s) in
      let day = second_of_day_below s in
      let week = wday_below s in
      let (monday, midnight) = weekday s ahead (omega arith) in
      let same : next ≡ s + ahead * 86400 - second_of_day (local_time s) = omega arith in
      elim (later s ahead 0) [
        | inl e ↦ absurd (h e)
        | inr e ↦
            let due : calculate_next_rollover_time local_time mktime weekly time
                ≡ truncate_fractions (from_time_t next) =
              ap truncate_fractions (
                from_struct_tm-some mktime (at_hour ahead 0 (local_time s)) next
                  (fallback weekly time) e) in
            let whole : to_time_t (truncate_fractions (from_time_t next))
                ≡ s + ahead * 86400 - second_of_day (local_time s) =
              omega (arith, same) in
            (
              ap (λ x. (local_time (to_time_t x)).tm_wday) due
                  ∙ (ap (λ x. (local_time x).tm_wday) whole ∙ (monday ∙ omega (arith, week))),
              ap (λ x. second_of_day (local_time (to_time_t x))) due
                  ∙ (ap (λ x. second_of_day (local_time x)) whole ∙ midnight),
              rw due (omega (arith, day, week)),
              λ other. rw due (omega (arith, day, week, other)),
              λ sunday. rw due (omega (arith, day, week, sunday)),
            )
      ]
