-- ===== src/MapView/DayPicker.antt =====
-- The choice of the day: frontend/components/map-day-picker.tsx, with `handleDayChange` of map-view.tsx.
-- The functions of the date library are a parameter.
use gps_connector.Prelude.{
  ◌≡◌, ◌↔◌, ◌≢◌, ℕ, suc, ◌≤◌, ℤ, pos, negsuc, Text, codes, Bool, true, false, ◌&&◌, not,
  if◌then◌else◌, if_intro, arith,
}

-- `isSameDay`, `startOfDay`, `addDays` and `format(day, "MMM d, yyyy")`
pub record Dates : Type 1 where
  pub Date : Type 0
  pub is_same_day : Date → Date → Bool
  pub start_of_day : Date → Date
  pub add_days : Date → ℤ → Date
  pub format_day : Date → Text

module _ (dates : Dates) where
  open dates use {Date, is_same_day, start_of_day, add_days}

  -- The picker's state, the selected day of the page, and the present day and the one before it when the
  -- picker was rendered last.
  pub record Picker : Type 0 where
    pub value : Date
    pub today : Date
    pub yesterday : Date
    pub is_open : Bool
    pub mounted : Bool

  -- `defaultDay`, before the effect that marks the picker as mounted.
  abbrev pub default_day : Date → Date → Picker
  default_day today yesterday = record {
    value = today;
    today = today;
    yesterday = yesterday;
    is_open = false;
    mounted = false;
  }

  unfoldable pub day_label : Picker → Date → Text
  day_label p day =
      if is_same_day day p.today
      then codes "Today"
      else if is_same_day day p.yesterday
      then codes "Yesterday"
      else dates.format_day day

  -- The text of the button, which is the same on the server and at first in the browser.
  unfoldable pub trigger_text : Picker → Text
  trigger_text p = if p.mounted then day_label p p.value else codes "Today"

  unfoldable pub is_past_day : Picker → Bool
  is_past_day p = p.mounted && not (is_same_day p.value p.today)

  -- `onChange`, which is `handleDayChange` of the page.
  unfoldable pub on_change : Date → Picker → Picker
  on_change day p = if is_same_day day p.value then p else record p { value = day }

  unfoldable pub select : Date → Picker → Picker
  select day p = record (on_change (start_of_day day) p) { is_open = false }

  unfoldable pub step : ℤ → Picker → Picker
  step days p = on_change (start_of_day (add_days p.value days)) p

  unfoldable pub set_open : Bool → Picker → Picker
  set_open is_open p = record p { is_open = is_open }

  unfoldable pub set_mounted : Picker → Picker
  set_mounted p = record p { mounted = true }

  abbrev pub rendered_on : Date → Date → Picker → Picker
  rendered_on today yesterday p = record p { today = today; yesterday = yesterday }

  -- What the date library is taken to do, given the number of the day that a date lies in.
  pub record IsCalendar (day_of : Date → ℕ) : Type 0 where
    pub same : (a b : Date) → (is_same_day a b ≡ true) ↔ (day_of a ≡ day_of b)
    pub start : (a : Date) → day_of (start_of_day a) ≡ day_of a
    pub next : (a : Date) → day_of (add_days a (pos 1)) ≡ suc (day_of a)
    pub previous : (a : Date) → day_of (add_days a (negsuc 0)) ≤ day_of a

  module _ (day_of : Date → ℕ) where
    -- What the picker offers: a step back, a step on unless it is disabled, the two buttons, a day of the
    -- calendar that is not disabled, and what changes nothing but the picker.
    pub data Offers (p : Picker) : Picker → Type 0 where
      back : Offers p (step (negsuc 0) p)
      forward : is_past_day p ≡ true → Offers p (step (pos 1) p)
      picks_today : Offers p (select p.today p)
      picks_yesterday : Offers p (select p.yesterday p)
      picks : (day : Date) → day_of day ≤ day_of p.today → Offers p (select day p)
      opens : (is_open : Bool) → Offers p (set_open is_open p)
      mounts : Offers p (set_mounted p)
      renders :
          (today yesterday : Date)
          → day_of p.today ≤ day_of today
          → day_of yesterday ≤ day_of today
          → Offers p (rendered_on today yesterday p)

    pub data Reach : Picker → Type 0 where
      mount :
          (today yesterday : Date)
          → day_of yesterday ≤ day_of today
          → Reach (default_day today yesterday)
      offered : (p q : Picker) → Reach p → Offers p q → Reach q

    abbrev pub IsNotAhead : Picker → Type 0
    IsNotAhead p = (day_of p.value ≤ day_of p.today) × (day_of p.yesterday ≤ day_of p.today)

    changed-IsNotAhead :
        (day : Date) (p : Picker)
        → day_of day ≤ day_of p.today
        → IsNotAhead p
        → IsNotAhead (on_change day p)
    unfolding on_change
    changed-IsNotAhead day p h (v, y) =
        if_intro IsNotAhead (is_same_day day p.value) p (record p { value = day }) (λ _. (v, y))
          (λ _. (h, y))

    module _ (calendar : IsCalendar day_of) where
      Offers-IsNotAhead : (p q : Picker) → Offers p q → IsNotAhead p → IsNotAhead q
      unfolding select step set_open set_mounted is_past_day
      Offers-IsNotAhead p _ back (v, y) =
          let day = add_days p.value (negsuc 0) in
          let before = calendar.previous p.value in
          let start = calendar.start day in
          changed-IsNotAhead (start_of_day day) p (omega arith) (v, y)
      Offers-IsNotAhead p _ (forward past) (v, y) =
          let day = add_days p.value (pos 1) in
          let after = calendar.next p.value in
          let start = calendar.start day in
          let same = (calendar.same p.value p.today).1 in
          let other : day_of p.value ≢ day_of p.today = λ e. let s = same e in ground arith in
          changed-IsNotAhead (start_of_day day) p (omega arith) (v, y)
      Offers-IsNotAhead p _ picks_today (v, y) =
          let start = calendar.start p.today in
          changed-IsNotAhead (start_of_day p.today) p (omega arith) (v, y)
      Offers-IsNotAhead p _ picks_yesterday (v, y) =
          let start = calendar.start p.yesterday in
          changed-IsNotAhead (start_of_day p.yesterday) p (omega arith) (v, y)
      Offers-IsNotAhead p _ (picks day l) (v, y) =
          let start = calendar.start day in
          changed-IsNotAhead (start_of_day day) p (omega arith) (v, y)
      Offers-IsNotAhead p _ (opens is_open) h = h
      Offers-IsNotAhead p _ mounts h = h
      Offers-IsNotAhead p _ (renders today yesterday l k) (v, y) = (omega arith, k)

      -- The day of the map is never in the future, whatever the picker offers is done in whatever order and at
      -- whatever times, and however old the day is that the picker takes for the present one. It is assumed
      -- of the date library that days are numbered in order, that two dates are the same day just if
      -- they have one number, that the start of a day lies in it, and that a day more has the next
      -- number and a day less no greater one.
      pub Reach-IsNotAhead : (p : Picker) → Reach p → day_of p.value ≤ day_of p.today
      Reach-IsNotAhead p r = (both p r).0
        where
          both : (p : Picker) → Reach p → IsNotAhead p
          both _ (mount today yesterday y) = (omega arith, y)
          both _ (offered p q r o) = Offers-IsNotAhead p q o (both p r)
