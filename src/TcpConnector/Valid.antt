-- ===== src/TcpConnector/Valid.antt =====
-- When a connector is valid, and an attempt of one.
use base_linux.Base.{
  ℕ, ◌<◌, ◌≤◌, ◌≡◌, ◌⊎◌, inl, inr, refl, ap, Bool, true, false, Option, none, some, [], ◌∷◌, ◌++◌,
  arith, update, Bool-cases, Option-cases, ◌∙◌, List,
}
use base_linux.Connector.{is_under_way}
use base_linux.Connector.Steps.{IsUsable}
use base_linux.TcpConnector.{
  without, State, disconnected, connecting, connected, is_connecting, is_disconnected, TcpConnector,
  k_init_retry_delay, k_max_retry_delay, retry, begin_connecting, Attempt, no_socket, opens,
  connect, start_in_loop, Event, starts, restarts, stops, stops_away, stops_late, writes, errs,
  clears, expires,
}

-- While the connector connects, its channel has a descriptor that is open.
abbrev pub owns : State → Option ℕ → (ℕ → Bool) → Bool
owns connecting none is_open = false
owns connecting (some fd) is_open = is_open fd
owns disconnected channel is_open = true
owns connected channel is_open = true

-- the calls of `ResetChannel` that are due
abbrev pub due_resets : State → Option ℕ → ℕ
due_resets connecting channel = 0
due_resets disconnected none = 0
due_resets disconnected (some fd) = 1
due_resets connected none = 0
due_resets connected (some fd) = 1

pub record IsValid (c : TcpConnector) : Type 0 where
  pub opened : owns c.state c.channel c.opened ≡ true
  pub watching : c.watching ≡ is_connecting c.state
  pub resets : c.resets ≡ due_resets c.state c.channel
  pub least : k_init_retry_delay ≤ c.retry_delay
  pub most : c.retry_delay ≤ k_max_retry_delay
  -- There is one timer at most, the one in `timer_id_`, and none but while disconnected.
  pub one : (c.timers ≡ []) ⊎ (c.timers ≡ c.timer_id ∷ [])
  pub none_else : is_disconnected c.state ≡ false → c.timers ≡ []
  -- A connector that runs has a timer while it is disconnected, and is not to be stopped.
  pub alive : c.running ≡ true → is_disconnected c.state ≡ true → c.timers ≡ c.timer_id ∷ []
  pub stays : c.running ≡ true → c.stops ≡ 0

-- Nothing is left of the last attempt, its wait or its stop.
abbrev pub IsIdle : TcpConnector → Type 0
IsIdle c = (c.channel ≡ none) × (c.timers ≡ []) × (c.stops ≡ 0)

-- When each of them may come: a start only when nothing is under way, a timer once the last channel
-- is gone, an event of the channel while the poller has it.
abbrev pub Allowed : TcpConnector → Event → Type 0
Allowed c (starts attempt) = (is_disconnected c.state ≡ true) × IsIdle c × IsUsable attempt
Allowed c (restarts attempt) = (is_connecting c.state ≡ false) × IsIdle c × IsUsable attempt
Allowed c stops = Unit {0}
Allowed c stops_away = Unit {0}
Allowed c stops_late = 0 < c.stops
Allowed c (writes err_code self) = c.watching ≡ true
Allowed c errs = c.watching ≡ true
Allowed c clears = 0 < c.resets
Allowed c (expires id attempt) = (c.timers ≡ id ∷ []) × (c.channel ≡ none) × IsUsable attempt

abbrev pub Stepped : Option TcpConnector → Type 0
Stepped o = (c' : TcpConnector) × (o ≡ some c') × IsValid c'

-- A connector that has nothing under way, for which the poller does not watch and no timer runs.
pub record Ready (c : TcpConnector) : Type 0 where
  pub off : c.watching ≡ false
  pub due : c.resets ≡ due_resets disconnected c.channel
  pub least : k_init_retry_delay ≤ c.retry_delay
  pub most : c.retry_delay ≤ k_max_retry_delay
  pub idle : c.timers ≡ []
  pub stays : c.running ≡ true → c.stops ≡ 0

-- Such a connector tries again later, or stays as it is.
pub retry-IsValid : (c : TcpConnector) → Ready c → IsValid (retry c)
unfolding retry
retry-IsValid c r = elim (Bool-cases c.running) [
  | inl on ↦ rw on (record {
    opened = refl;
    watching = r.off;
    resets = r.due;
    least = ground (arith, r.least);
    most = ground (arith, r.most);
    one = inr (ap (λ ids. ids ++ c.next_timer ∷ []) r.idle);
    none_else = λ h. cc;
    alive = λ _ _. ap (λ ids. ids ++ c.next_timer ∷ []) r.idle;
    stays = λ _. r.stays on;
  })
  | inr off' ↦ rw off' (record {
    opened = refl;
    watching = r.off;
    resets = r.due;
    least = r.least;
    most = r.most;
    one = inl r.idle;
    none_else = λ _. r.idle;
    alive = λ h. cc;
    stays = λ h. cc;
  })
]

-- An attempt of a connector that runs, with no timer and nothing under way.
connect-Stepped :
    (c : TcpConnector) (attempt : Attempt)
    → c.state ≡ disconnected
    → c.channel ≡ none
    → Ready c
    → IsUsable attempt
    → Stepped (connect c attempt)
unfolding connect begin_connecting
connect-Stepped c no_socket at free r usable = (retry c, refl, retry-IsValid c r)
connect-Stepped c (opens fd err_no) at free r usable = elim (Bool-cases (is_under_way err_no)) [
  | inl on ↦ (
    record c {
      opened = update c.opened fd true;
      state = connecting;
      channel = some fd;
      watching = true;
    },
    ground (arith, on, at, free, usable),
    record {
      opened = ground arith;
      watching = refl;
      resets = ground (arith, r.due, free);
      least = r.least;
      most = r.most;
      one = inl r.idle;
      none_else = λ _. r.idle;
      alive = λ _ h. cc;
      stays = r.stays;
    },
  )
  | inr failed ↦
      let c' : TcpConnector = record c { opened = update (update c.opened fd true) fd false } in
      (
        retry c',
        ground (arith, failed),
        retry-IsValid c' (record {
          off = r.off;
          due = r.due;
          least = r.least;
          most = r.most;
          idle = r.idle;
          stays = r.stays;
        }),
      )
]

pub start_in_loop-Stepped :
    (c : TcpConnector) (attempt : Attempt)
    → c.state ≡ disconnected
    → c.channel ≡ none
    → Ready c
    → IsUsable attempt
    → Stepped (start_in_loop c attempt)
unfolding start_in_loop
start_in_loop-Stepped c attempt at free r usable = elim (Bool-cases c.running) [
  | inl on ↦
      let m = connect-Stepped c attempt at free r usable in (m.0, ground (arith, at, on, m.1), m.2)
  | inr off' ↦ (
    c,
    ground (arith, at, off'),
    record {
      opened = ground (arith, at);
      watching = ground (arith, at, r.off);
      resets = ground (arith, r.due, at);
      least = r.least;
      most = r.most;
      one = inl r.idle;
      none_else = λ _. r.idle;
      alive = λ h. cc;
      stays = r.stays;
    },
  )
]

-- While the connector connects, its channel has a descriptor, which is open.
pub connecting_fd :
    (c : TcpConnector)
    → IsValid c
    → c.state ≡ connecting
    → (fd : ℕ) × (c.channel ≡ some fd) × (c.opened fd ≡ true)
connecting_fd c v busy = elim (Option-cases c.channel) [
  | inl h ↦ ground (arith, v.opened, busy, h)
  | inr h ↦ (h.0, h.1, ground (arith, v.opened, busy, h.1))
]

pub state_cases :
    (s : State)
    → (s ≡ connecting)
      ⊎ ((is_connecting s ≡ false)
          × ((o : Option ℕ) → due_resets s o ≡ due_resets disconnected o)
          × ((o : Option ℕ) (is_open : ℕ → Bool) → owns s o is_open ≡ true))
state_cases disconnected = inr (refl, λ o. refl, λ o is_open. refl)
state_cases connecting = inl refl
state_cases connected = inr (refl, λ o. elim o [ none ↦ refl | some fd ↦ refl ], λ o is_open. refl)

-- `TimerCancel` leaves no timer.
pub without_one : (id : ℕ) (ids : List ℕ) → (ids ≡ []) ⊎ (ids ≡ id ∷ []) → without id ids ≡ []
unfolding without
without_one id ids (inl h) = ap (without id) h
without_one id ids (inr h) = ap (without id) h ∙ ground arith
