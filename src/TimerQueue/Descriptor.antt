-- ===== src/TimerQueue/Descriptor.antt =====
-- `HowManyTimeLeftNow`: what the timer descriptor is set to.
use base_linux.Base.{
  ℕ, ◌+◌, ◌-◌, ◌*◌, ◌/◌, ◌%◌, ◌^◌, ◌≤◌, ◌<◌, ◌≡◌, ap, ◌∙◌, arith, sub_size, ltb, leb, ◌||◌,
  if◌then◌else◌,
}
use base_linux.TimerQueue.{how_many_time_left_now}

-- the time to wait, in microseconds, at least 100 of them
abbrev pub waiting_time : ℕ → ℕ → ℕ
waiting_time now when = if ltb when (now + 100) then 100 else when - now

-- the microseconds that the difference gives
micro_seconds : ℕ → ℕ → ℕ
micro_seconds now when =
    let difference = sub_size when now in
    if ltb difference 100 || leb (2 ^ 63) difference then 100 else difference

micro_seconds_lem :
    (now when : ℕ) → now < 2 ^ 63 → when < 2 ^ 63 → micro_seconds now when ≡ waiting_time now when
unfolding micro_seconds
micro_seconds_lem now when a b = ground arith

split_time :
    (m : ℕ)
    → (m % 1000000 * 1000 < 1000000000) × (m / 1000000 * 1000000000 + m % 1000000 * 1000 ≡ m * 1000)
split_time m = (omega arith, omega arith)

-- The `timespec` for two times below 2^63 microseconds is a normal one, less than 10^9 nanoseconds
-- beside the seconds, is never zero (which would disarm the descriptor), and says the
-- time from `now` to `when`, or 100 microseconds where `when` is past or closer than that.
pub how_many_time_left_now_lem :
    (now when : ℕ)
    → now < 2 ^ 63
    → when < 2 ^ 63
    → ((how_many_time_left_now now when).tv_nsec < 1000000000)
      × ((how_many_time_left_now now when).tv_sec * 1000000000
            + (how_many_time_left_now now when).tv_nsec
          ≡ waiting_time now when * 1000)
      × (100000 ≤ waiting_time now when * 1000)
unfolding how_many_time_left_now micro_seconds
how_many_time_left_now_lem now when a b =
    let m = micro_seconds_lem now when a b in
    let s = split_time (micro_seconds now when) in (s.0, s.1 ∙ ap (λ x. x * 1000) m, ground arith)
