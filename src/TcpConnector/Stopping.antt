-- ===== src/TcpConnector/Stopping.antt =====
-- What a stop does to a connector, and what it leaves behind.
use base_linux.Base.{
  ℕ, suc, ◌-◌, ◌<◌, ◌≡◌, inl, inr, refl, ap, true, false, none, some, [], arith, Bool-cases,
}
use base_linux.TcpConnector.{
  disconnected, connecting, is_disconnected, TcpConnector, remove_and_reset_channel, reset_channel,
  without, stop_in_loop, stop, stop_away, stop_late,
}
use base_linux.TcpConnector.Valid.{without_one, IsValid, Stepped, connecting_fd, state_cases}

stop_in_loop-Stepped : (c : TcpConnector) → IsValid c → c.running ≡ false → Stepped (stop_in_loop c)
unfolding stop_in_loop remove_and_reset_channel
stop_in_loop-Stepped c v off = elim (state_cases c.state) [
  | inl busy ↦
      let fd = connecting_fd c v busy in
      (
        record c {
          timers = without c.timer_id c.timers;
          state = disconnected;
          watching = false;
          resets = suc c.resets;
        },
        ground (arith, busy, fd.1),
        record {
          opened = refl;
          watching = refl;
          resets = ground (arith, v.resets, busy, fd.1);
          least = v.least;
          most = v.most;
          one = inl (without_one c.timer_id c.timers v.one);
          none_else = λ h. cc;
          alive = λ h. cc;
          stays = λ h. cc;
        },
      )
  | inr other ↦ (
    record c { timers = without c.timer_id c.timers },
    ground (arith, other.0),
    record {
      opened = v.opened;
      watching = v.watching;
      resets = v.resets;
      least = v.least;
      most = v.most;
      one = inl (without_one c.timer_id c.timers v.one);
      none_else = λ _. without_one c.timer_id c.timers v.one;
      alive = λ h. cc;
      stays = λ h. cc;
    },
  )
]

pub stop-Stepped : (c : TcpConnector) → IsValid c → Stepped (stop c)
unfolding stop
stop-Stepped c v =
    stop_in_loop-Stepped (record c { running = false })
      (record {
        opened = v.opened;
        watching = v.watching;
        resets = v.resets;
        least = v.least;
        most = v.most;
        one = v.one;
        none_else = v.none_else;
        alive = λ h. cc;
        stays = λ h. cc;
      })
      refl

pub stop_away-Stepped : (c : TcpConnector) → IsValid c → Stepped (some (stop_away c))
unfolding stop_away
stop_away-Stepped c v = (
  record c { running = false; stops = suc c.stops },
  refl,
  record {
    opened = v.opened;
    watching = v.watching;
    resets = v.resets;
    least = v.least;
    most = v.most;
    one = v.one;
    none_else = v.none_else;
    alive = λ h. cc;
    stays = λ h. cc;
  },
)

pub stop_late-Stepped : (c : TcpConnector) → IsValid c → 0 < c.stops → Stepped (stop_late c)
unfolding stop_late
stop_late-Stepped c v due = elim (Bool-cases c.running) [
  | inl on ↦ ground (arith, v.stays on, due)
  | inr off ↦
      let m =
        stop_in_loop-Stepped (record c { stops = c.stops - 1 })
          (record {
            opened = v.opened;
            watching = v.watching;
            resets = v.resets;
            least = v.least;
            most = v.most;
            one = v.one;
            none_else = v.none_else;
            alive = λ h. cc;
            stays = λ h. cc;
          })
          off in
      (m.0, ground (arith, due, m.1), m.2)
]

-- A stop during an attempt, and the reset of the channel: the descriptor stays open.
pub stop-reset_channel :
    (c : TcpConnector) (fd : ℕ)
    → IsValid c
    → c.state ≡ connecting
    → c.channel ≡ some fd
    → (c1 : TcpConnector) × (c2 : TcpConnector) × (stop c ≡ some c1)
      × (reset_channel c1 ≡ some c2)
      × (c2.state ≡ disconnected)
      × (c2.channel ≡ none)
      × (c2.watching ≡ false)
      × (c2.timers ≡ [])
      × (c2.handed ≡ c.handed)
      × (c2.opened fd ≡ true)
unfolding stop stop_in_loop reset_channel remove_and_reset_channel without
stop-reset_channel c fd v busy h =
    let own = connecting_fd c v busy in
    (
      record c {
        running = false;
        timers = without c.timer_id c.timers;
        state = disconnected;
        watching = false;
        resets = suc c.resets;
      },
      record c {
        running = false;
        timers = without c.timer_id c.timers;
        state = disconnected;
        watching = false;
        channel = none;
      },
      ground (arith, busy, h),
      ground arith,
      refl,
      refl,
      refl,
      ap (without c.timer_id) (v.none_else (ap is_disconnected busy)),
      refl,
      ground (arith, v.opened, busy, h),
    )
