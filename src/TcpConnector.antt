-- ===== src/TcpConnector.antt =====
-- src/tcp_connector.h and src/tcp_connector.cc: attempts to connect a socket, each after a longer
-- wait. The calls run on the loop's thread, where `RunInLoop` calls at once. `none` is a failed
-- assert, a null channel, or a descriptor that is closed twice.
pub mod Valid
pub mod Steps
pub mod Waiting
pub mod Stopping
pub mod Running
pub mod Forgetting
pub mod Leaking
pub mod Restarting
mod Tests
use base_linux.Base.{
  ℕ, suc, ◌-◌, ◌*◌, ◌/◌, min, Bool, true, false, not, ◌&&◌, ◌||◌, Option, none, some, List, [], ◌∷◌,
  ◌++◌, update, ltb, ◌==◌, if◌then◌else◌, ◌>>=◌, ◌>>◌, assert,
}
pub use base_linux.Connector.{Attempt, no_socket, opens}
use base_linux.Connector.{is_under_way}

pub data State : Type 0 where
  disconnected : State
  connecting : State
  connected : State

abbrev pub is_disconnected : State → Bool
is_disconnected disconnected = true
is_disconnected connecting = false
is_disconnected connected = false

abbrev pub is_connecting : State → Bool
is_connecting disconnected = false
is_connecting connecting = true
is_connecting connected = false

-- in milliseconds
abbrev pub k_init_retry_delay : ℕ
k_init_retry_delay = 1000

abbrev pub k_max_retry_delay : ℕ
k_max_retry_delay = 30000

pub record TcpConnector : Type 0 where
  pub running : Bool
  pub state : State
  -- the descriptor of the object in `channel_`
  pub channel : Option ℕ
  -- whether the poller has that channel
  pub watching : Bool
  pub retry_delay : ℕ
  pub timer_id : ℕ
  -- the connector's timers that the loop has, and the number of the next one
  pub timers : List ℕ
  pub next_timer : ℕ
  -- the waits in seconds that were asked for, in order
  pub waits : List ℕ
  -- the calls of `ResetChannel` that the loop has yet to make
  pub resets : ℕ
  -- the calls of `StopInLoop` that the loop has yet to make
  pub stops : ℕ
  -- the open descriptors that are not yet given to the callback
  pub opened : ℕ → Bool
  -- the descriptors given to the callback, in order
  pub handed : List ℕ

-- `::close`
abbrev pub close_fd : TcpConnector → ℕ → Option TcpConnector
close_fd c fd = do assert (c.opened fd); some (record c { opened = update c.opened fd false })

-- `Retry`, with `TimerAfter`
pub retry : TcpConnector → TcpConnector
retry c =
    if c.running
    then record c {
      state = disconnected;
      timer_id = c.next_timer;
      timers = c.timers ++ c.next_timer ∷ [];
      next_timer = suc c.next_timer;
      waits = c.waits ++ (c.retry_delay / 1000) ∷ [];
      retry_delay = min (c.retry_delay * 2) k_max_retry_delay;
    }
    else record c { state = disconnected }

-- The function `Connecting`.
pub begin_connecting : TcpConnector → ℕ → Option TcpConnector
begin_connecting c fd = do
  assert (is_disconnected c.state)
  assert (elim c.channel [ none ↦ true | some fd' ↦ false ])
  -- of the constructor of `Channel`
  assert (ltb 0 fd)
  some (record c { state = connecting; channel = some fd; watching = true })

-- `Connect`; without a socket, `::connect` fails with EBADF and `::close` has no effect.
pub connect : TcpConnector → Attempt → Option TcpConnector
connect c no_socket = some (retry c)
connect c (opens sockfd err_no) =
    let c' : TcpConnector = record c { opened = update c.opened sockfd true } in
    if is_under_way err_no
    then begin_connecting c' sockfd
    else (do c'' ← close_fd c' sockfd; some (retry c''))

pub start_in_loop : TcpConnector → Attempt → Option TcpConnector
start_in_loop c attempt = do
  assert (is_disconnected c.state)
  if c.running then connect c attempt else some c

pub start : TcpConnector → Attempt → Option TcpConnector
start c attempt = start_in_loop (record c { running = true }) attempt

pub restart : TcpConnector → Attempt → Option TcpConnector
restart c attempt =
    start_in_loop
      (record c { running = true; state = disconnected; retry_delay = k_init_retry_delay }) attempt

-- `RemoveAndResetChannel`, with the descriptor of the channel
pub remove_and_reset_channel : TcpConnector → Option (ℕ × TcpConnector)
remove_and_reset_channel c = do
  fd ← c.channel
  some (fd, record c { watching = false; resets = suc c.resets })

-- `ResetChannel`, once the loop gets to it
pub reset_channel : TcpConnector → Option TcpConnector
reset_channel c = do
  assert (ltb 0 c.resets)
  some (record c { channel = none; resets = c.resets - 1 })

-- the timers but one
unfoldable pub without : ℕ → List ℕ → List ℕ
without id [] = []
without id (other ∷ others) =
    let rest = without id others in if other == id then rest else other ∷ rest

-- `EventLoop::TimerCancel`
abbrev pub timer_cancel : TcpConnector → TcpConnector
timer_cancel c = record c { timers = without c.timer_id c.timers }

-- `StopInLoop`
pub stop_in_loop : TcpConnector → Option TcpConnector
stop_in_loop c =
    let c' : TcpConnector = timer_cancel c in
    if is_connecting c'.state
    then (do (fd, c'') ← remove_and_reset_channel (record c' { state = disconnected }); some c'')
    else some c'

-- `Stop` on the loop's thread
pub stop : TcpConnector → Option TcpConnector
stop c = stop_in_loop (record c { running = false })

-- `Stop` on another thread, where `StopInLoop` is queued
pub stop_away : TcpConnector → TcpConnector
stop_away c = record c { running = false; stops = suc c.stops }

-- The loop gets to a `StopInLoop` that is queued.
pub stop_late : TcpConnector → Option TcpConnector
stop_late c = do assert (ltb 0 c.stops); stop_in_loop (record c { stops = c.stops - 1 })

-- `HandleWrite`, with the error of the socket and whether its two addresses are equal
pub handle_write : TcpConnector → ℕ → Bool → Option TcpConnector
handle_write c err_code self = do
  assert (is_connecting c.state)
  (sockfd, c1) ← remove_and_reset_channel c
  if ltb 0 err_code || self
      then (do c2 ← close_fd c1 sockfd; some (retry c2))
      else (let c2 : TcpConnector = record c1 { state = connected } in
          if c2.running
          then some (record c2 {
            opened = update c2.opened sockfd false;
            handed = c2.handed ++ sockfd ∷ [];
          })
          else close_fd c2 sockfd)

-- `HandleError`, with which a closed channel is handled too
pub handle_error : TcpConnector → Option TcpConnector
handle_error c =
    if is_connecting c.state
    then (do (fd, c1) ← remove_and_reset_channel c; c2 ← close_fd c1 fd; some (retry c2))
    else some c

-- What the users of the connector and its loop do.
pub data Event : Type 0 where
  starts : Attempt → Event
  restarts : Attempt → Event
  stops : Event
  stops_away : Event
  stops_late : Event
  writes : ℕ → Bool → Event
  errs : Event
  clears : Event
  -- the timer fires
  expires : ℕ → Attempt → Event

-- A timer that fires is the loop's no more, and calls `StartInLoop`.
pub expire : TcpConnector → ℕ → Attempt → Option TcpConnector
expire c id attempt = start_in_loop (record c { timers = without id c.timers }) attempt

pub step : TcpConnector → Event → Option TcpConnector
step c (starts attempt) = start c attempt
step c (restarts attempt) = restart c attempt
step c stops = stop c
step c stops_away = some (stop_away c)
step c stops_late = stop_late c
step c (writes err_code self) = handle_write c err_code self
step c errs = handle_error c
step c clears = reset_channel c
step c (expires id attempt) = expire c id attempt

pub run : TcpConnector → List Event → Option TcpConnector
run c [] = some c
run c (e ∷ es) = do c' ← step c e; run c' es
