-- ===== src/TcpConnector/Leaking.antt =====
-- The descriptor of an attempt that `Stop` of src/tcp_connector.cc gives up.
use base_linux.Base.{
  ℕ, ◌-◌, ◌≡◌, refl, ap, inl, inr, true, false, none, some, List, [], ◌∷◌, ltb, arith, Bool-cases,
  Option-cases,
}
use base_linux.TcpConnector.{
  TcpConnector, disconnected, connecting, k_init_retry_delay, start, restart, without, stop,
  stop_away, stop_late, expire, Event, starts, restarts, stops, stops_away, stops_late, writes,
  errs, clears, expires, step, run,
}
use base_linux.TcpConnector.Valid.{IsValid}
use base_linux.TcpConnector.Forgetting.{
  is_of, Forgotten, AllApart, Forgets, forgets, fails, start_in_loop-Forgets, stop_in_loop-Forgets,
  reset_channel-Forgets, handle_error-Forgets, handle_write-Forgets,
}
use base_linux.TcpConnector.Running.{AllAllowed, run-IsValid}
use base_linux.TcpConnector.Stopping.{stop-reset_channel}

step-Forgets :
    (fd : ℕ) (c : TcpConnector) (e : Event) (es : List Event)
    → Forgotten fd c
    → AllApart fd (e ∷ es)
    → Forgets fd (step c e) × AllApart fd es
unfolding step start restart stop stop_late stop_away expire AllApart
step-Forgets fd c (starts attempt) es f apart = (
  start_in_loop-Forgets fd (record c { running = true })
      (record { opened = f.opened; channel = f.channel }) attempt apart.0,
  apart.1,
)
step-Forgets fd c (restarts attempt) es f apart = (
  start_in_loop-Forgets fd
      (record c { running = true; state = disconnected; retry_delay = k_init_retry_delay })
      (record { opened = f.opened; channel = f.channel }) attempt apart.0,
  apart.1,
)
step-Forgets fd c stops es f apart = (
  stop_in_loop-Forgets fd (record c { running = false })
      (record { opened = f.opened; channel = f.channel }),
  apart,
)
step-Forgets fd c stops_away es f apart = (
  forgets fd (some (stop_away c)) (stop_away c) refl
      (record { opened = f.opened; channel = f.channel }),
  apart,
)
step-Forgets fd c stops_late es f apart = (
  elim (Bool-cases (ltb 0 c.stops)) [
    | inr none_due ↦ fails fd (stop_late c) (ground (arith, none_due))
    | inl due ↦ λ c' h.
        stop_in_loop-Forgets fd (record c { stops = c.stops - 1 })
          (record { opened = f.opened; channel = f.channel }) c' (ground (arith, due, h))
  ],
  apart,
)
step-Forgets fd c (writes err_code self) es f apart =
    (handle_write-Forgets fd c f err_code self, apart)
step-Forgets fd c errs es f apart = (handle_error-Forgets fd c f, apart)
step-Forgets fd c clears es f apart = (reset_channel-Forgets fd c f, apart)
step-Forgets fd c (expires id attempt) es f apart = (
  start_in_loop-Forgets fd (record c { timers = without id c.timers })
      (record { opened = f.opened; channel = f.channel }) attempt apart.0,
  apart.1,
)

run-Forgets :
    (fd : ℕ) (es : List Event) (c : TcpConnector)
    → Forgotten fd c
    → AllApart fd es
    → Forgets fd (run c es)
unfolding run
run-Forgets fd [] c f apart = forgets fd (some c) c refl f
run-Forgets fd (e ∷ es) c f apart =
    let m = step-Forgets fd c e es f apart in
    elim (Option-cases (step c e)) [
      | inl stuck ↦ fails fd (run c (e ∷ es)) (ground (arith, stuck))
      | inr next ↦
          λ c' h. run-Forgets fd es next.0 (m.0 next.0 next.1) m.1 c' (ground (arith, next.1, h))
    ]

-- A stop of a valid connector during an attempt loses the descriptor of the attempt: when the
-- loop has dropped the channel, the connector is at rest, with no channel, nothing watched, no
-- timer, and nothing more given to the callback; and after any further calls and events, each of
-- which may come when it does, the descriptor is still open and not given to the callback, as
-- long as the kernel does not give it to another attempt, which it does not with an open
-- descriptor.
pub run-opened :
    (es : List Event) (c : TcpConnector) (fd : ℕ)
    → IsValid c
    → c.state ≡ connecting
    → c.channel ≡ some fd
    → AllAllowed c (stops ∷ clears ∷ es)
    → AllApart fd es
    → (c1 : TcpConnector) × (c2 : TcpConnector) × (run c (stops ∷ clears ∷ []) ≡ some c1)
      × (c1.state ≡ disconnected)
      × (c1.channel ≡ none)
      × (c1.watching ≡ false)
      × (c1.timers ≡ [])
      × (c1.handed ≡ c.handed)
      × (run c1 es ≡ some c2)
      × (c2.opened fd ≡ true)
unfolding run step
run-opened es c fd v busy at all apart =
    let (rest, last, stopped, cleared, state, channel, watching, timers, handed, opened) =
      stop-reset_channel c fd v busy at in
    let (c2, ran, valid) = run-IsValid (stops ∷ clears ∷ es) c v all in
    let ran' : run last es ≡ some c2 = ground (arith, stopped, cleared, ran) in
    let kept =
      run-Forgets fd es last (record { opened = opened; channel = ap (λ o. is_of o fd) channel })
        apart c2 ran' in
    (
      last,
      c2,
      ground (arith, stopped, cleared),
      state,
      channel,
      watching,
      timers,
      handed,
      ran',
      kept.opened,
    )
