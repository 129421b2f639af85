-- ===== src/TcpConnector/Steps.antt =====
-- What each call and event does to a connector.
use base_linux.Base.{
  ℕ, suc, ◌-◌, ◌<◌, ◌≡◌, inl, inr, refl, ap, ◌∙◌, Bool, true, false, ◌||◌, none, some, [], ◌∷◌,
  ◌++◌, arith, update, ltb, if◌then◌else◌, Bool-cases,
}
use base_linux.TcpConnector.{
  State, disconnected, connecting, connected, is_connecting, is_disconnected, TcpConnector,
  k_init_retry_delay, retry, Attempt, start, restart, remove_and_reset_channel, reset_channel,
  without, handle_write, handle_error, expire,
}
use base_linux.Connector.Steps.{IsUsable}
use base_linux.TcpConnector.Valid.{
  without_one, IsValid, IsIdle, Stepped, retry-IsValid, start_in_loop-Stepped, connecting_fd,
  state_cases,
}

-- The channel of an attempt is given up, and another attempt comes later.
given_up-IsValid :
    (c : TcpConnector) (fd : ℕ)
    → IsValid c
    → c.state ≡ connecting
    → c.channel ≡ some fd
    → IsValid (
        retry
          (record c { watching = false; resets = suc c.resets; opened = update c.opened fd false }))
given_up-IsValid c fd v busy h =
    retry-IsValid
      (record c { watching = false; resets = suc c.resets; opened = update c.opened fd false })
      (record {
        off = refl;
        due = ground (arith, v.resets, busy, h);
        least = v.least;
        most = v.most;
        idle = v.none_else (ap is_disconnected busy);
        stays = v.stays;
      })

pub handle_error-Stepped : (c : TcpConnector) → IsValid c → Stepped (handle_error c)
unfolding handle_error remove_and_reset_channel
handle_error-Stepped c v = elim (state_cases c.state) [
  | inl busy ↦
      let fd = connecting_fd c v busy in
      (
        retry (record c {
          watching = false;
          resets = suc c.resets;
          opened = update c.opened fd.0 false;
        }),
        ground (arith, busy, fd.1, fd.2),
        given_up-IsValid c fd.0 v busy fd.1,
      )
  | inr other ↦ (c, ground (arith, other.0), v)
]

pub handle_write-Stepped :
    (c : TcpConnector) (err_code : ℕ) (self : Bool)
    → IsValid c
    → c.watching ≡ true
    → Stepped (handle_write c err_code self)
unfolding handle_write remove_and_reset_channel
handle_write-Stepped c err_code self v on = elim (state_cases c.state) [
  | inr other ↦ ground (arith, other.0, on, v.watching)
  | inl busy ↦
      let fd = connecting_fd c v busy in
      elim (Bool-cases (ltb 0 err_code || self)) [
        | inl bad ↦ (
          retry (record c {
            watching = false;
            resets = suc c.resets;
            opened = update c.opened fd.0 false;
          }),
          ground (arith, busy, fd.1, fd.2, bad),
          given_up-IsValid c fd.0 v busy fd.1,
        )
        | inr good ↦ (
          record c {
            state = connected;
            watching = false;
            resets = suc c.resets;
            opened = update c.opened fd.0 false;
            handed = if c.running then c.handed ++ fd.0 ∷ [] else c.handed;
          },
          ground (arith, busy, fd.1, fd.2, good),
          record {
            opened = refl;
            watching = refl;
            resets = ground (arith, v.resets, busy, fd.1);
            least = v.least;
            most = v.most;
            one = inl (v.none_else (ap is_disconnected busy));
            none_else = λ _. v.none_else (ap is_disconnected busy);
            alive = λ _ h. cc;
            stays = v.stays;
          },
        )
      ]
]

pub reset_channel-Stepped :
    (c : TcpConnector) → IsValid c → 0 < c.resets → Stepped (reset_channel c)
unfolding reset_channel
reset_channel-Stepped c v due = elim (state_cases c.state) [
  | inl busy ↦ ground (arith, busy, due, v.resets)
  | inr other ↦ (
    record c { channel = none; resets = c.resets - 1 },
    ground (arith, due),
    record {
      opened = other.2 none c.opened;
      watching = v.watching;
      resets = ground (arith, other.1 none, other.1 c.channel, v.resets, due);
      least = v.least;
      most = v.most;
      one = v.one;
      none_else = v.none_else;
      alive = v.alive;
      stays = v.stays;
    },
  )
]

disconnected_lem : (s : State) → is_disconnected s ≡ true → s ≡ disconnected
disconnected_lem disconnected h = refl
disconnected_lem connecting h = cc
disconnected_lem connected h = cc

pub start-Stepped :
    (c : TcpConnector) (attempt : Attempt)
    → IsValid c
    → is_disconnected c.state ≡ true
    → IsIdle c
    → IsUsable attempt
    → Stepped (start c attempt)
unfolding start
start-Stepped c attempt v at idle usable =
    let at' = disconnected_lem c.state at in
    start_in_loop-Stepped (record c { running = true }) attempt at' idle.0
      (record {
        off = ground (arith, v.watching, at');
        due = ground (arith, v.resets, at');
        least = v.least;
        most = v.most;
        idle = idle.1;
        stays = λ _. idle.2;
      })
      usable

pub restart-Stepped :
    (c : TcpConnector) (attempt : Attempt)
    → IsValid c
    → is_connecting c.state ≡ false
    → IsIdle c
    → IsUsable attempt
    → Stepped (restart c attempt)
unfolding restart
restart-Stepped c attempt v rest idle usable = elim (state_cases c.state) [
  | inl busy ↦ ground (arith, busy, rest)
  | inr other ↦
      start_in_loop-Stepped
        (record c { running = true; state = disconnected; retry_delay = k_init_retry_delay })
        attempt refl idle.0
        (record {
          off = v.watching ∙ other.0;
          due = v.resets ∙ other.1 c.channel;
          least = ground arith;
          most = ground arith;
          idle = idle.1;
          stays = λ _. idle.2;
        })
        usable
]

pub expire-Stepped :
    (c : TcpConnector) (id : ℕ) (attempt : Attempt)
    → IsValid c
    → c.timers ≡ id ∷ []
    → c.channel ≡ none
    → IsUsable attempt
    → Stepped (expire c id attempt)
unfolding expire
expire-Stepped c id attempt v h free usable = elim (Bool-cases (is_disconnected c.state)) [
  | inr other ↦ ground (arith, v.none_else other, h)
  | inl at ↦
      let at' = disconnected_lem c.state at in
      start_in_loop-Stepped (record c { timers = without id c.timers }) attempt at' free
        (record {
          off = ground (arith, v.watching, at');
          due = ground (arith, v.resets, at');
          least = v.least;
          most = v.most;
          idle = without_one id c.timers (inr h);
          stays = v.stays;
        })
        usable
]
