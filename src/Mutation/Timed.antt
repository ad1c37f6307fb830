-- ===== src/Mutation/Timed.antt =====
-- What a time that the broker names says.
use mathlib.Core.Path.{subst}
use kis_trader_back.Common.{
  ℕ, ◌+◌, ◌-◌, ◌≡◌, ◌≤◌, ◌⊎◌, refl, inl, inr, true, false, String, Option, none, some, arith,
  Bool-cases, trim, if◌then◌else◌, ltb, ◌==◌, length,
}
use kis_trader_back.Dates.{codes}
use kis_trader_back.Dates.Kst.{
  day_ms, wall_clock, kst_calendar_day, parse_kst_timestamp, time_of_digits,
}
use kis_trader_back.Mutation.Timestamp.{
  BrokerTime, distance, format_date, candidate_on, nearer, on_nearest_day, on_own_day,
  max_broker_time_skew_ms, resolve_timestamp, within_skew, resolve_broker_timestamp, explicit_of,
  take_text, drop_text, year_of_digits,
}

-- The time of the day is the one that was sent, and no day near the call brings it nearer to the call.
abbrev pub IsNearest : String → ℕ → BrokerTime → Type 0
IsNearest timestamp called b =
    (time : ℕ) × (time_of_digits (codes timestamp) ≡ some time)
    × (b.order_time ≡ timestamp)
    × (b.order_date ≡ format_date b.wall)
    × (distance b.wall (wall_clock called)
        ≤ distance (kst_calendar_day called - day_ms + time) (wall_clock called))
    × (distance b.wall (wall_clock called)
        ≤ distance (kst_calendar_day called + time) (wall_clock called))
    × (distance b.wall (wall_clock called)
        ≤ distance (kst_calendar_day called + day_ms + time) (wall_clock called))

some-injective : {a b : BrokerTime} → ◌≡◌ {A = Option BrokerTime} (some a) (some b) → a ≡ b
some-injective h = cc

below : (a b : ℕ) → ltb a b ≡ true → a ≤ b
below a b h = ground arith

not_below : (a b : ℕ) → ltb a b ≡ false → b ≤ a
not_below a b h = ground arith

≤-trans : {a b c : ℕ} → a ≤ b → b ≤ c → a ≤ c
≤-trans h k = omega (arith, h, k)

nearer-≤ :
    (call : ℕ) (a b : BrokerTime)
    → (distance (nearer call a b).wall call ≤ distance a.wall call)
      × (distance (nearer call a b).wall call ≤ distance b.wall call)
nearer-≤ call a b = elim (Bool-cases (ltb (distance b.wall call) (distance a.wall call))) [
  | inl less ↦ rw less (below (distance b.wall call) (distance a.wall call) less, omega arith)
  | inr more ↦ rw more (omega arith, not_below (distance b.wall call) (distance a.wall call) more)
]

-- A candidate is dated by its own time.
abbrev IsDated : String → BrokerTime → Type 0
IsDated timestamp b = (b.order_time ≡ timestamp) × (b.order_date ≡ format_date b.wall)

nearer-IsDated :
    (call : ℕ) (timestamp : String) (a b : BrokerTime)
    → IsDated timestamp a
    → IsDated timestamp b
    → IsDated timestamp (nearer call a b)
nearer-IsDated call timestamp a b da db =
    elim (Bool-cases (ltb (distance b.wall call) (distance a.wall call))) [
      | inl less ↦ rw less db
      | inr more ↦ rw more da
    ]

candidate_on-IsDated :
    (timestamp : String) (day time : ℕ) → IsDated timestamp (candidate_on timestamp day time)
unfolding candidate_on
candidate_on-IsDated timestamp day time = (refl, refl)

candidate_on-wall :
    (timestamp : String) (day time : ℕ) → (candidate_on timestamp day time).wall ≡ day + time
unfolding candidate_on
candidate_on-wall timestamp day time = refl

on_nearest_day-IsNearest :
    (timestamp : String) (called : ℕ) (o : Option ℕ) (b : BrokerTime)
    → time_of_digits (codes timestamp) ≡ o
    → on_nearest_day timestamp called o ≡ some b
    → IsNearest timestamp called b
unfolding on_nearest_day candidate_on
on_nearest_day-IsNearest timestamp called none b e h = cc
on_nearest_day-IsNearest timestamp called (some time) b e h =
    let day = kst_calendar_day called in
    let call = wall_clock called in
    let before = candidate_on timestamp (day - day_ms) time in
    let same = candidate_on timestamp day time in
    let after = candidate_on timestamp (day + day_ms) time in
    let first = nearer call before same in
    let hit : nearer call first after ≡ b = cc in
    let (near_before, near_same) = nearer-≤ call before same in
    let (near_first, near_after) = nearer-≤ call first after in
    let dated =
      nearer-IsDated call timestamp first after
        (nearer-IsDated call timestamp before same
          (candidate_on-IsDated timestamp (day - day_ms) time)
          (candidate_on-IsDated timestamp day time))
        (candidate_on-IsDated timestamp (day + day_ms) time) in
    subst (IsNearest timestamp called) hit (
      time,
      e,
      dated.0,
      dated.1,
      ≤-trans near_first near_before,
      ≤-trans near_first near_same,
      near_after,
    )

-- The date and the time are the parts of the text, and are read as the same point of time by the
-- recovery.
abbrev pub IsExplicit : String → BrokerTime → Type 0
IsExplicit timestamp b =
    (b.order_date ≡ take_text 8 timestamp)
    × (b.order_time ≡ drop_text 8 timestamp)
    × (parse_kst_timestamp b.order_date b.order_time ≡ some b.wall)

explicit_of-IsExplicit :
    (timestamp : String) (o : Option ℕ) (b : BrokerTime)
    → parse_kst_timestamp (take_text 8 timestamp) (drop_text 8 timestamp) ≡ o
    → explicit_of timestamp o ≡ some b
    → IsExplicit timestamp b
unfolding explicit_of
explicit_of-IsExplicit timestamp none b read h = cc
explicit_of-IsExplicit timestamp (some t) b read h =
    elim (Bool-cases (ltb (year_of_digits (codes timestamp)) 2000)) [
      | inl early ↦ cc (rw (early, if◌then◌else◌) at h)
      | inr late ↦
          let hit : ◌≡◌ {A = BrokerTime}
              (record {
                order_date = take_text 8 timestamp;
                order_time = drop_text 8 timestamp;
                wall = t;
              })
              b =
            some-injective (rw (late, if◌then◌else◌) at h) in
          subst (IsExplicit timestamp) hit (refl, refl, read)
    ]

on_own_day-IsExplicit :
    (timestamp : String) (b : BrokerTime) → on_own_day timestamp ≡ some b → IsExplicit timestamp b
unfolding on_own_day
on_own_day-IsExplicit timestamp b h =
    explicit_of-IsExplicit timestamp
      (parse_kst_timestamp (take_text 8 timestamp) (drop_text 8 timestamp)) b refl h

-- What the broker's time says, and that it is near the call.
pub record Timed (raw : Option String) (called : Option ℕ) (b : BrokerTime) : Type 0 where
  pub text : String
  pub was_text : raw ≡ some text
  pub call : ℕ
  pub was_called : called ≡ some call
  pub reads : IsNearest (trim text) call b ⊎ IsExplicit (trim text) b
  pub near_call : distance b.wall (wall_clock call) ≤ max_broker_time_skew_ms

resolve_timestamp_lem :
    (timestamp : String) (called : ℕ) (b : BrokerTime)
    → resolve_timestamp timestamp called ≡ some b
    → IsNearest timestamp called b ⊎ IsExplicit timestamp b
unfolding resolve_timestamp
resolve_timestamp_lem timestamp called b h = elim (Bool-cases (length (codes timestamp) == 6)) [
  | inl six ↦ inl (
      on_nearest_day-IsNearest timestamp called (time_of_digits (codes timestamp)) b refl
        (rw (six, if◌then◌else◌) at h))
  | inr more ↦ elim (Bool-cases (length (codes timestamp) == 14)) [
    | inl long ↦ inr (on_own_day-IsExplicit timestamp b (rw (more, long, if◌then◌else◌) at h))
    | inr other ↦ cc (rw (more, other, if◌then◌else◌) at h)
  ]
]

within_skew_lem :
    (called : ℕ) (o : Option BrokerTime) (b : BrokerTime)
    → within_skew called o ≡ some b
    → (o ≡ some b) × (distance b.wall (wall_clock called) ≤ max_broker_time_skew_ms)
within_skew_lem called none b h = cc
within_skew_lem called (some c) b h =
    elim (Bool-cases (ltb max_broker_time_skew_ms (distance c.wall (wall_clock called)))) [
      | inl far ↦ cc (rw (far, if◌then◌else◌) at h)
      | inr near ↦
          let same : ◌≡◌ {A = Option BrokerTime} (some c) (some b) =
            rw (near, if◌then◌else◌) at h in
          (
            same,
            subst (λ x. distance x.wall (wall_clock called) ≤ max_broker_time_skew_ms)
                (some-injective same)
                (not_below max_broker_time_skew_ms (distance c.wall (wall_clock called)) near),
          )
    ]

pub resolve_broker_timestamp-Timed :
    (raw : Option String) (called : Option ℕ) (b : BrokerTime)
    → resolve_broker_timestamp raw called ≡ some b
    → Timed raw called b
unfolding resolve_broker_timestamp
resolve_broker_timestamp-Timed (some text) (some call) b h =
    let (resolved, near) = within_skew_lem call (resolve_timestamp (trim text) call) b h in
    record {
      text = text;
      was_text = refl;
      call = call;
      was_called = refl;
      reads = resolve_timestamp_lem (trim text) call b resolved;
      near_call = near;
    }
resolve_broker_timestamp-Timed none called b h = cc
resolve_broker_timestamp-Timed (some text) none b h = cc
