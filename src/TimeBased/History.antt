-- ===== src/TimeBased/History.antt =====
-- Which old files a time based appender removes.
use native.Mathlib.Nat.{
  add-mul-div_right, le-div_iff_mul-le, div-lt_iff_lt-mul, div-add-mod', mod-lt, add-mul,
  mul-le-mul_right,
}
use log4cplus.Common.{
  ℕ, zero, suc, ◌+◌, ◌-◌, ◌*◌, ◌/◌, ◌%◌, ◌≤◌, ◌<◌, ◌≡◌, ◌≢◌, refl, sym, ap, ◌∙◌, true, ◌&&◌, Option,
  none, some, Text, leb, ltb, ◌==◌, if◌then◌else◌, Bool-cases, inl, inr, arith,
}
use log4cplus.FileAppender.{Disk, remove_path}
use log4cplus.FileAppender.Shift.{IsDistinct}
use log4cplus.TimeBased.{TimeBased, get_rollover_period_duration, periods, clean_loop, clean}

-- The name of a file depends only on the period of the time, and differs for every period. Periods
-- start with an offset of `phase` from the epoch, as by a time zone or a day of the week.
abbrev pub IsNamed : (ℕ → Option Text) → (ℕ → Text) → ℕ → ℕ → Type 0
IsNamed name label phase period = (time : ℕ) → name time ≡ some (label ((time + phase) / period))

earlier_period :
    (time k period phase : ℕ)
    → 0 < period
    → k ≤ time / period
    → ((time - k * period + phase) / period ≡ (time + phase) / period - k)
      × (k ≤ (time + phase) / period)
earlier_period time k period phase p h =
    let fits : k * period ≤ time = (le-div_iff_mul-le p).0 h in
    let whole = add-mul-div_right (time - k * period + phase) k p in
    let back : time - k * period + phase + k * period ≡ time + phase = omega (arith, fits) in
    (
      omega (arith, sym (ap (λ x. x / period) back) ∙ whole),
      (le-div_iff_mul-le p).1 (omega (arith, fits)),
    )

module _ (name : ℕ → Option Text) (label : ℕ → Text) (phase period : ℕ) (positive : 0 < period)
    (named : IsNamed name label phase period) (distinct : IsDistinct label) where
  clean_loop_lem :
      (time max_history rounds i : ℕ) (disk : Disk) (q : ℕ)
      → max_history + i + rounds ≤ time / period
      → ((clean_loop name time period max_history rounds i disk).0 (label q) ≡ (
          if leb ((time + phase) / period) (q + max_history + i + rounds)
            && ltb (q + max_history + i) ((time + phase) / period)
          then none
          else disk (label q)))
        × ((clean_loop name time period max_history rounds i disk).1 ≡ true)
  unfolding clean_loop
  clean_loop_lem time max_history zero i disk q h = (ground arith, refl)
  clean_loop_lem time max_history (suc rounds) i disk q h =
      let k = max_history + 1 + i in
      let gone = label ((time + phase) / period - k) in
      let (earlier, below) = earlier_period time k period phase positive (omega (arith, h)) in
      let at = named (time - k * period) ∙ ap (λ x. some (label x)) earlier in
      let rest =
        clean_loop_lem time max_history rounds (i + 1) (remove_path gone disk) q
          (omega (arith, h)) in
      let here : remove_path gone disk (label q)
          ≡ (if q == ((time + phase) / period - k) then none else disk (label q)) =
        unfold remove_path in ground (arith, distinct q ((time + phase) / period - k)) in
      rw (at, clean_loop) (rest.0 ∙ ground (arith, here, below), rest.1)

one_between : {a b : ℕ} → a < b → 1 ≤ b - a
one_between h = omega (arith, h)

-- How many periods begin between two heart beats, and how many `clean` goes through.
between :
    (last now period : ℕ)
    → 0 < period
    → last / period ≤ now / period
    → (last % period ≤ now % period + 1000000
        → now / period - last / period ≤ (now + 1000000 - last) / period)
      × (last / period < now / period
          → now % period + 1000000 < last % period
          → (now + 1000000 - last) / period < now / period - last / period)
between last now period p h =
    let k = now / period - last / period in
    let split : now / period ≡ last / period + k = omega (arith, h) in
    let product : now / period * period ≡ last / period * period + k * period =
      ap (λ x. x * period) split ∙ add-mul (last / period) k period in
    let n = div-add-mod' now period in
    let l = div-add-mod' last period in
    (
      λ lag. (le-div_iff_mul-le p).1 (omega (arith, product, n, l, lag)),
      λ new lag.
          let some_period = mul-le-mul_right period (one_between new) in
          (div-lt_iff_lt-mul p).1 (omega (arith, product, n, l, lag, mod-lt last p, some_period)),
    )

-- One heart beat after another: the appender has had a heart beat, and both are after the periods
-- that are kept and cleaned.
module _ (name : ℕ → Option Text) (label : ℕ → Text) (phase : ℕ) (s : TimeBased) (disk : Disk)
    (now : ℕ) (positive : 0 < get_rollover_period_duration s.schedule)
    (named : IsNamed name label phase (get_rollover_period_duration s.schedule))
    (distinct : IsDistinct label) (started : s.last_heart_beat ≢ 0)
    (later : (s.last_heart_beat + phase) / get_rollover_period_duration s.schedule
      ≤ (now + phase) / get_rollover_period_duration s.schedule)
    (within : s.max_history + periods s now ≤ now / get_rollover_period_duration s.schedule) where
  periods_lem :
      periods s now
      ≡ (now + phase + 1000000 - (s.last_heart_beat + phase))
        / get_rollover_period_duration s.schedule
  unfolding periods
  periods_lem =
      let shifted : now + phase + 1000000 - (s.last_heart_beat + phase)
          ≡ now + 1000000 - s.last_heart_beat =
        omega arith in
      rw shifted (ground (arith, started))

  clean_lem :
      (q : ℕ)
      → ((clean name now (s, disk)).0.1 (label q) ≡ (
          if leb
              ((now + phase) / get_rollover_period_duration s.schedule)
              (q + s.max_history + periods s now)
            && ltb (q + s.max_history) ((now + phase) / get_rollover_period_duration s.schedule)
          then none
          else disk (label q)))
        × ((clean name now (s, disk)).0.0 ≡ record s { last_heart_beat = now })
  unfolding clean
  clean_lem q =
      let period = get_rollover_period_duration s.schedule in
      let (files, done) =
        clean_loop_lem name label phase period positive named distinct now s.max_history
          (periods s now) 0 disk q (omega (arith, within)) in
      (files ∙ ground arith, rw done refl)

  -- Let periods have a fixed length, with any offset from the epoch, and let the name of a file differ
  -- for every period and depend on nothing else: so for hours and minutes, and for days and weeks
  -- without daylight saving time, but not for months. Take a cleaning that is not the first one, does
  -- not go back before the epoch and is not in an earlier period than the last heart beat. If no file
  -- was older than the history at the last heart beat, and the time since the start of the period
  -- has not become shorter by more than a second, then no file is older than the history after it.
  pub clean-history :
      (s.last_heart_beat + phase) % get_rollover_period_duration s.schedule
        ≤ (now + phase) % get_rollover_period_duration s.schedule + 1000000
      → ((q : ℕ)
          → q + s.max_history
            < (s.last_heart_beat + phase) / get_rollover_period_duration s.schedule
          → disk (label q) ≡ none)
      → (q : ℕ) → q + s.max_history < (now + phase) / get_rollover_period_duration s.schedule
      → (clean name now (s, disk)).0.1 (label q) ≡ none
  clean-history lag old q h =
      let period = get_rollover_period_duration s.schedule in
      let enough =
        (between (s.last_heart_beat + phase) (now + phase) period positive later).0 lag in
      elim (Bool-cases (ltb (q + s.max_history) ((s.last_heart_beat + phase) / period))) [
        | inl gone ↦ ground (arith, (clean_lem q).0, old q, gone)
        | inr kept ↦ ground (arith, (clean_lem q).0, enough, periods_lem, kept, h)
      ]

  -- Where that time has become shorter by more than a second, the file that is as old as the history
  -- at the last heart beat is left where it is, although it is older than the history now.
  pub clean-leak :
      (q : ℕ)
      → (now + phase) % get_rollover_period_duration s.schedule + 1000000
        < (s.last_heart_beat + phase) % get_rollover_period_duration s.schedule
      → (s.last_heart_beat + phase) / get_rollover_period_duration s.schedule
        < (now + phase) / get_rollover_period_duration s.schedule
      → q + s.max_history ≡ (s.last_heart_beat + phase) / get_rollover_period_duration s.schedule
      → (clean name now (s, disk)).0.1 (label q) ≡ disk (label q)
  clean-leak q lag new oldest =
      let period = get_rollover_period_duration s.schedule in
      let few =
        (between (s.last_heart_beat + phase) (now + phase) period positive later).1 new lag in
      ground (arith, (clean_lem q).0, few, periods_lem, oldest)
