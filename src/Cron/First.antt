-- ===== src/Cron/First.antt =====
-- `next_after` answers with the first minute that the expression names: the search over whole days
-- agrees with the walk minute after minute.
use queuefy.Prelude.{
  ℕ, zero, suc, ◌+◌, ◌-◌, ◌*◌, ◌/◌, ◌%◌, ◌≤◌, ◌<◌, ◌≡◌, refl, sym, ◌∙◌, inl, inr, true, false, none,
  some, arith, ltb, Bool-cases, Option-cases, All, subst, ltb→lt,
}
use mathlib.Core.Option.{some-injective}
use queuefy.Errors.{Error, ok, err, Result-cases}
use queuefy.Calendar.{Datetime}
use queuefy.Cron.Parse.{Schedule}
use queuefy.Cron.Next.{on_day, at_time, time_on, time_from, found_on, search_days, next_midnight}
use queuefy.Cron.Times.{
  of_day, Ascending, below-elem, time_from-none, time_from-some, time_from_least,
}
use queuefy.Cron.Walk.{
  later, matches, IsTime, minute_of_day, later_same_day, later-midnight, later-add,
}

-- What `parse` gives: sorted times of the clock.
pub record IsClock (s : Schedule) : Type 0 where
  pub minutes_sorted : Ascending s.minutes
  pub hours_sorted : Ascending s.hours
  pub minutes_below : All (λ y. y < 60) s.minutes
  pub hours_below : All (λ y. y < 24) s.hours

-- `r` is the first minute of the walk from `c` that the schedule names.
pub record IsFirst (s : Schedule) (c r : Datetime) : Type 0 where
  pub minutes : ℕ
  pub reached : later minutes c ≡ some r
  pub matched : matches s r ≡ true
  pub earlier : (k : ℕ) (x : Datetime) → k < minutes → later k c ≡ some x → matches s x ≡ false

abbrev left_today : Datetime → ℕ
left_today c = 24 * 60 - minute_of_day c

module _ (s : Schedule) (w : IsClock s) (c : Datetime) (t : IsTime c) where
  -- On a day where nothing is found no time from the moment on matches.
  day-none :
      (x y : ℕ)
      → found_on s c ≡ none
      → minute_of_day c ≤ of_day x y
      → matches s (at_time c (x, y)) ≡ false
  unfolding found_on time_on matches
  day-none x y e l =
      ground (arith, time_from-none c.hour c.minute s.minutes t.1 w.minutes_below s.hours x y)

  abbrev Found : Datetime → ℕ × ℕ → Type 0
  Found r p =
      (r ≡ at_time c p)
      × (matches s r ≡ true)
      × (p.0 < 24)
      × (p.1 < 60)
      × (minute_of_day c ≤ of_day p.0 p.1)
      × ((x y : ℕ)
          → minute_of_day c ≤ of_day x y
          → of_day x y < of_day p.0 p.1
          → matches s (at_time c (x, y)) ≡ false)

  time-some :
      (p : ℕ × ℕ)
      → on_day s c.date ≡ true
      → time_from c.hour c.minute s.minutes s.hours ≡ some p
      → Found (at_time c p) p
  unfolding matches
  time-some p d e =
      let (i, j, l) = time_from-some c.hour c.minute s.minutes t.1 w.minutes_below s.hours p e in
      (
        refl,
        rw (d, i, j) refl,
        below-elem 24 p.0 s.hours w.hours_below i,
        below-elem 60 p.1 s.minutes w.minutes_below j,
        l,
        λ x y from before. ground (
          arith,
          time_from_least c.hour c.minute s.minutes t.1 w.minutes_below s.hours p x y
              w.minutes_sorted w.hours_sorted,
        ),
      )

  day-some : (r : Datetime) → found_on s c ≡ some r → (p : ℕ × ℕ) × Found r p
  unfolding found_on time_on
  day-some r e = elim (Bool-cases (on_day s c.date)) [
    | inr other ↦ absurd (ground arith)
    | inl day ↦ elim (Option-cases (time_from c.hour c.minute s.minutes s.hours)) [
      | inl late ↦ absurd (ground arith)
      | inr (p, here) ↦
          let this : at_time c p ≡ r = ground arith in
          (p, subst (λ x. Found x p) this (time-some p day here))
    ]
  ]

  -- The walk stays on the day for as many minutes as the day has left.
  within_day :
      (k : ℕ) (x : Datetime)
      → minute_of_day c + k < 24 * 60
      → later k c ≡ some x
      → x ≡ at_time c ((minute_of_day c + k) / 60, (minute_of_day c + k) % 60)
  within_day k x l e =
      some-injective x (at_time c ((minute_of_day c + k) / 60, (minute_of_day c + k) % 60)) (
        sym e
        ∙ later_same_day k c ((minute_of_day c + k) / 60) ((minute_of_day c + k) % 60) t
            (omega arith) (omega arith) (omega arith))

  nothing_today :
      (k : ℕ) (x : Datetime)
      → found_on s c ≡ none
      → minute_of_day c + k < 24 * 60
      → later k c ≡ some x
      → matches s x ≡ false
  nothing_today k x none_found l e =
      rw (within_day k x l e) (
        day-none ((minute_of_day c + k) / 60) ((minute_of_day c + k) % 60) none_found (omega arith))

  found-IsFirst : (r : Datetime) → found_on s c ≡ some r → IsFirst s c r
  found-IsFirst r e =
      let (p, f) = day-some r e in
      let (this, named, hx, hy, from, before) = f in
      record {
        minutes = of_day p.0 p.1 - minute_of_day c;
        reached =
            rw this
              (later_same_day (of_day p.0 p.1 - minute_of_day c) c p.0 p.1 t hx hy (omega arith));
        matched = named;
        earlier = λ k x l h. rw (within_day k x (omega arith) h) (
            before ((minute_of_day c + k) / 60) ((minute_of_day c + k) % 60) (omega arith)
              (omega arith));
      }

module _ (c c' : Datetime) (t : IsTime c) (e : next_midnight c ≡ ok c') where
  midnight-IsTime : IsTime c'
  unfolding next_midnight
  midnight-IsTime = ground arith

  midnight_zero : minute_of_day c' ≡ 0
  unfolding next_midnight
  midnight_zero = ground arith

  reaches_midnight : later (left_today c) c ≡ some c'
  unfolding next_midnight
  reaches_midnight = ground (arith, later-midnight (left_today c) c t)

  -- The walk past midnight is the walk from midnight.
  past_midnight : (j n : ℕ) → n ≡ left_today c + j → later n c ≡ later j c'
  past_midnight j n h = later-add (left_today c) j n c h ∙ rw reaches_midnight refl

  later_day-IsFirst :
      (s : Schedule) (w : IsClock s) (r : Datetime)
      → found_on s c ≡ none
      → IsFirst s c' r
      → IsFirst s c r
  later_day-IsFirst s w r none_found f = record {
    minutes = left_today c + f.minutes;
    reached = past_midnight f.minutes (left_today c + f.minutes) refl ∙ f.reached;
    matched = f.matched;
    earlier = λ k x l h. elim (Bool-cases (ltb k (left_today c))) [
      | inl today ↦
          nothing_today s w c t k x none_found
            (let l' : k < left_today c = ltb→lt k (left_today c) today in omega arith) h
      | inr tomorrow ↦
          let past : left_today c ≤ k = ground arith in
          f.earlier (k - left_today c) x (omega arith)
            (sym (past_midnight (k - left_today c) k (omega arith)) ∙ h)
    ];
  }

-- A search that answers gives the first minute of the walk that the schedule names.
pub search_days-IsFirst :
    (s : Schedule) (w : IsClock s) (days : ℕ) (c r : Datetime)
    → IsTime c
    → search_days s days c ≡ ok r
    → IsFirst s c r
unfolding search_days
search_days-IsFirst s w zero c r t e = absurd (cc)
search_days-IsFirst s w (suc days) c r t e = elim (Option-cases (found_on s c)) [
  | inr (x, here) ↦ let this : x ≡ r = ground arith in found-IsFirst s w c t r (rw this at here)
  | inl none_found ↦ elim (Result-cases (next_midnight c)) [
    | inr (x, over) ↦ absurd (ground arith)
    | inl (c', on) ↦
        later_day-IsFirst c c' t on s w r none_found
          (search_days-IsFirst s w days c' r (midnight-IsTime c c' t on) (ground arith))
  ]
]

search_days-next :
    (s : Schedule) (days : ℕ) (c c' : Datetime)
    → found_on s c ≡ none
    → next_midnight c ≡ ok c'
    → search_days s (suc days) c ≡ search_days s days c'
unfolding search_days
search_days-next s days c c' none_found on = ground arith

-- Past the last day of the calendar the walk ends too.
later_past_end :
    (c : Datetime) (x : Error)
    → IsTime c
    → next_midnight c ≡ err x
    → (j n : ℕ) → n ≡ left_today c + j
    → later n c ≡ none
unfolding next_midnight
later_past_end c x t e j n h =
    let ends : later (left_today c) c ≡ none = ground (arith, later-midnight (left_today c) c t) in
    later-add (left_today c) j n c h ∙ rw ends refl

-- Nothing is left out: a minute of the walk that the schedule names, within as many days as the
-- search looks at, is enough for the search to answer.
pub search_days-finds :
    (s : Schedule) (w : IsClock s) (days n : ℕ) (c x : Datetime)
    → IsTime c
    → later n c ≡ some x
    → matches s x ≡ true
    → minute_of_day c + n < days * (24 * 60)
    → (r : Datetime) × (search_days s days c ≡ ok r)
unfolding search_days
search_days-finds s w zero n c x t e h l = absurd (omega arith)
search_days-finds s w (suc days) n c x t e h l = elim (Option-cases (found_on s c)) [
  | inr (r, here) ↦ (r, ground arith)
  | inl none_found ↦ elim (Bool-cases (ltb n (left_today c))) [
    | inl today ↦
        let l' : n < left_today c = ltb→lt n (left_today c) today in
        let never : matches s x ≡ false = nothing_today s w c t n x none_found (omega arith) e in
        absurd (cc)
    | inr tomorrow ↦ elim (Result-cases (next_midnight c)) [
      | inr (y, over) ↦
          let past : left_today c ≤ n = ground arith in
          let gone : later n c ≡ none =
            later_past_end c y t over (n - left_today c) n (omega arith) in
          absurd (cc)
      | inl (c', on) ↦
          let past : left_today c ≤ n = ground arith in
          let (r, again) =
            search_days-finds s w days (n - left_today c) c' x (midnight-IsTime c c' t on)
              (sym (past_midnight c c' t on (n - left_today c) n (omega arith)) ∙ e) h
              (omega (arith, midnight_zero c c' t on)) in
          (r, search_days-next s days c c' none_found on ∙ again)
    ]
  ]
]
