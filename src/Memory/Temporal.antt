-- ===== src/Memory/Temporal.antt =====
-- services/temporal.py: until when a memory is relevant. What the regular expressions find in a text
-- and what the calendar says are parameters.
use memory_hub.Base.{
  ℕ, ◌+◌, ◌*◌, Text, Bool, Option, none, some, ◌&&◌, if◌then◌else◌, ltb, leb, ◌==◌, text_eq, codes,
  Outcome, returned, raised,
}

-- The groups of the first match: year, month and day; month, day and perhaps a year; a count and its
-- unit without the plural's s; the unit.
pub record Signals : Type 0 where
  pub deadline_iso : Text → Option (ℕ × ℕ × ℕ)
  pub deadline_natural : Text → Option (Text × ℕ × Option ℕ)
  pub iso_date : Text → Option (ℕ × ℕ × ℕ)
  pub relative_deadline : Text → Option (ℕ × Text)
  pub next_unit : Text → Option Text
  pub implicit_marker : Text → Bool

-- `datetime(year, month, day, 23, 59, 59)`, which raises on a date that there is not, the year of a
-- time, the number of a month's name, and `datetime.max`.
pub record Calendar : Type 0 where
  pub end_of_day : ℕ → ℕ → ℕ → Option ℕ
  pub year_of : ℕ → ℕ
  pub month_number : Text → Option ℕ
  pub latest : ℕ

pub data TemporalError : Type 0 where
  overflow_error : TemporalError

abbrev pub day : ℕ
day = 86_400_000_000

module _ (calendar : Calendar) where
  -- `now + timedelta(days=count)`: both the difference and the sum have a limit.
  unfoldable pub add_days : ℕ → ℕ → Outcome TemporalError ℕ
  add_days now count =
      if leb count 999_999_999 && leb (now + count * day) calendar.latest
      then returned (now + count * day)
      else raised overflow_error

  unfoldable pub apply_relative : ℕ → ℕ → Text → Outcome TemporalError ℕ
  apply_relative now count unit =
      if unit == codes "day"
      then add_days now count
      else if unit == codes "week"
      then add_days now (count * 7)
      else if unit == codes "month"
      then add_days now (count * 30)
      else returned now

  unfoldable pub parse_natural_date : Text → ℕ → Option ℕ → ℕ → Option ℕ
  parse_natural_date month day year now = elim (calendar.month_number month) [
    | none ↦ none
    | some m ↦ calendar.end_of_day (elim year [ none ↦ calendar.year_of now | some y ↦ y ]) m day
  ]

  abbrev pub until : Outcome TemporalError ℕ → Outcome TemporalError (Option ℕ)
  until (returned t) = returned (some t)
  until (raised e) = raised e

  module _ (signals : Signals) (content : Text) (now : ℕ) where
    -- Steps 4 to 7.
    unfoldable pub classify_relative : Outcome TemporalError (Option ℕ)
    unfolding add_days apply_relative
    classify_relative = elim (signals.relative_deadline content) [
      | some (count, unit) ↦ until (apply_relative now count unit)
      | none ↦ elim (signals.next_unit content) [
        | some unit ↦ until (add_days now (if unit == codes "week" then 7 else 30))
        | none ↦ if signals.implicit_marker content then until (add_days now 90) else returned none
      ]
    ]

    unfoldable pub natural_deadline : Option ℕ
    natural_deadline = elim (signals.deadline_natural content) [
      | none ↦ none
      | some (month, day, year) ↦ parse_natural_date month day year now
    ]

    unfoldable pub classify_temporal : Outcome TemporalError (Option ℕ)
    unfolding natural_deadline classify_relative
    classify_temporal = elim (signals.deadline_iso content) [
      | some (y, m, d) ↦ returned (calendar.end_of_day y m d)
      | none ↦ elim natural_deadline [
        | some t ↦ returned (some t)
        | none ↦ elim (signals.iso_date content) [
          | some (y, m, d) ↦ returned (calendar.end_of_day y m d)
          | none ↦ classify_relative
        ]
      ]
    ]

-- The status at the time `now`.
unfoldable pub compute_temporal_status : ℕ → Option ℕ → Option Text
compute_temporal_status now none = none
compute_temporal_status now (some t) =
    if ltb t now
    then some (codes "expired")
    else if ltb t (now + 7 * day)
    then some (codes "expiring_soon")
    else some (codes "current")
