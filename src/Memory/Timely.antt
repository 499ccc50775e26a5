-- ===== src/Memory/Timely.antt =====
-- services/temporal.py: when the classifier raises, and how late a time it gives.
use memory_hub.Base.{
  ℕ, ◌+◌, ◌*◌, ◌≤◌, Text, true, Option, none, some, ◌≡◌, is_some, leb, ◌==◌, text_eq, codes, refl,
  inl, inr, arith, Bool-cases, Option-cases, Outcome, returned, raised, ◌&&◌,
}
use memory_hub.Memory.Temporal.{
  Signals, Calendar, TemporalError, day, add_days, apply_relative, parse_natural_date,
  natural_deadline, classify_relative, classify_temporal, until,
}

module _ (calendar : Calendar) (signals : Signals) (content : Text) (now : ℕ) where
  abbrev IsBefore : Option ℕ → Type 0
  IsBefore none = Unit
  IsBefore (some t) = t ≤ calendar.latest

  -- A time is not after `datetime.max`, and only a relative deadline raises.
  abbrev pub IsTimely : Outcome TemporalError (Option ℕ) → Type 0
  IsTimely (returned t) = IsBefore t
  IsTimely (raised e) = is_some (signals.relative_deadline content) ≡ true

  until-IsTimely :
      (count : ℕ)
      → is_some (signals.relative_deadline content) ≡ true
      → IsTimely (until calendar (add_days calendar now count))
  unfolding add_days
  until-IsTimely count found =
      elim (Bool-cases (leb count 999_999_999 && leb (now + count * day) calendar.latest)) [
        | inl e ↦ rw e (ground (arith, e))
        | inr e ↦ rw e found
      ]

  soon-IsTimely :
      (count : ℕ)
      → count ≤ 90
      → now + 90 * day ≤ calendar.latest
      → IsTimely (until calendar (add_days calendar now count))
  unfolding add_days
  soon-IsTimely count small ordinary =
      let fits : leb count 999_999_999 && leb (now + count * day) calendar.latest ≡ true =
        ground (arith, small, ordinary) in
      rw fits (ground (arith, small, ordinary))

  module _ (days_end : (y m d : ℕ) → IsBefore (calendar.end_of_day y m d))
      (ordinary : now + 90 * day ≤ calendar.latest) where
    relative-IsTimely :
        (count : ℕ) (unit : Text)
        → is_some (signals.relative_deadline content) ≡ true
        → IsTimely (until calendar (apply_relative calendar now count unit))
    unfolding apply_relative
    relative-IsTimely count unit found = elim (Bool-cases (unit == codes "day")) [
      | inl e ↦ rw (apply_relative, e) (until-IsTimely count found)
      | inr e ↦ elim (Bool-cases (unit == codes "week")) [
        | inl f ↦ rw (apply_relative, e, f) (until-IsTimely (count * 7) found)
        | inr f ↦ elim (Bool-cases (unit == codes "month")) [
          | inl g ↦ rw (apply_relative, e, f, g) (until-IsTimely (count * 30) found)
          | inr g ↦ rw (apply_relative, e, f, g) (omega (arith, ordinary))
        ]
      ]
    ]

    classify_relative-IsTimely : IsTimely (classify_relative calendar signals content now)
    unfolding classify_relative apply_relative
    classify_relative-IsTimely = elim (Option-cases (signals.relative_deadline content)) [
      | inr ((count, unit), e) ↦
          let found : is_some (signals.relative_deadline content) ≡ true = rw e refl in
          rw (classify_relative, e) (relative-IsTimely count unit found)
      | inl e ↦ elim (Option-cases (signals.next_unit content)) [
        | inr (unit, f) ↦ elim (Bool-cases (unit == codes "week")) [
          | inl g ↦ rw (classify_relative, e, f, g) (soon-IsTimely 7 (omega arith) ordinary)
          | inr g ↦ rw (classify_relative, e, f, g) (soon-IsTimely 30 (omega arith) ordinary)
        ]
        | inl f ↦ elim (Bool-cases (signals.implicit_marker content)) [
          | inl g ↦ rw (classify_relative, e, f, g) (soon-IsTimely 90 (omega arith) ordinary)
          | inr g ↦ rw (classify_relative, e, f, g) tt
        ]
      ]
    ]

    natural-IsTimely : IsBefore (natural_deadline calendar signals content now)
    unfolding natural_deadline parse_natural_date
    natural-IsTimely = elim (Option-cases (signals.deadline_natural content)) [
      | inl e ↦ rw (natural_deadline, e) tt
      | inr ((month, d, year), e) ↦ elim (Option-cases (calendar.month_number month)) [
        | inl f ↦ rw (natural_deadline, e, parse_natural_date, f) tt
        | inr (m, f) ↦ rw (natural_deadline, e, parse_natural_date, f) (days_end _ m d)
      ]
    ]

    -- Where the calendar's days end by `datetime.max` and 90 days are left until then, no text is
    -- classified with a later time, and the classifier raises only on a text with a relative deadline.
    pub classify_temporal-IsTimely : IsTimely (classify_temporal calendar signals content now)
    unfolding classify_temporal
    classify_temporal-IsTimely = elim (Option-cases (signals.deadline_iso content)) [
      | inr ((y, m, d), e) ↦ rw (classify_temporal, e) (days_end y m d)
      | inl e ↦ elim (Option-cases (natural_deadline calendar signals content now)) [
        | inr (t, f) ↦ rw (classify_temporal, e, f) (let at = natural-IsTimely in rw f at at)
        | inl f ↦ elim (Option-cases (signals.iso_date content)) [
          | inr ((y, m, d), g) ↦ rw (classify_temporal, e, f, g) (days_end y m d)
          | inl g ↦ rw (classify_temporal, e, f, g) classify_relative-IsTimely
        ]
      ]
    ]
