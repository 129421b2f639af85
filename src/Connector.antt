-- ===== src/Connector.antt =====
-- src/connector.h and src/connector.cc: one attempt after another to connect a socket. The calls
-- run on the loop's thread, where `RunInLoop` calls at once; what `QueueInLoop` has queued is a
-- counter. `none` is a failed assert, or a descriptor that is closed twice.
pub mod Steps
pub mod Restarting
mod Tests
use base_linux.Base.{
  ℕ, suc, ◌-◌, ◌*◌, min, Bool, true, false, not, ◌&&◌, ◌||◌, Option, none, some, List, [], ◌∷◌,
  update, ltb, ◌==◌, if◌then◌else◌, ◌>>=◌, ◌>>◌, assert,
}

pub data States : Type 0 where
  disconnected : States
  connecting : States
  connected : States

abbrev pub is_disconnected : States → Bool
is_disconnected disconnected = true
is_disconnected connecting = false
is_disconnected connected = false

abbrev pub is_connecting : States → Bool
is_connecting disconnected = false
is_connecting connecting = true
is_connecting connected = false

-- in milliseconds
abbrev pub k_max_retry_delay : ℕ
k_max_retry_delay = 30000

abbrev pub k_init_retry_delay : ℕ
k_init_retry_delay = 1000

pub record Connector : Type 0 where
  pub running : Bool
  pub states : States
  -- the descriptor of the object in `channel_`
  pub channel : Option ℕ
  -- whether the poller has that channel
  pub watching : Bool
  pub retry_delay : ℕ
  -- the calls of `ResetChannel` that the loop has yet to make
  pub resets : ℕ
  -- the open descriptors that are the connector's to close
  pub opened : ℕ → Bool
  -- the descriptors that were closed, the last one first
  pub closed : List ℕ
  -- the descriptors given to the callback, the last one first
  pub handed : List ℕ

-- What `socket` and `::connect` answer: no descriptor at all, or one and the error of the attempt.
pub data Attempt : Type 0 where
  no_socket : Attempt
  opens : ℕ → ℕ → Attempt

-- `::close`
abbrev pub close_fd : Connector → ℕ → Option Connector
close_fd c fd = do
  assert (c.opened fd)
  some (record c { opened = update c.opened fd false; closed = fd ∷ c.closed })

-- `0`, `EINTR`, `EINPROGRESS` and `EISCONN`
abbrev pub is_under_way : ℕ → Bool
is_under_way err_no = err_no == 0 || err_no == 4 || err_no == 115 || err_no == 106

-- `Retry` behind its `::close`
pub wait_longer : Connector → Connector
wait_longer c = record c {
  states = disconnected;
  retry_delay = if c.running then min (c.retry_delay * 2) k_max_retry_delay else c.retry_delay;
}

pub retry : Connector → ℕ → Option Connector
retry c fd = do c' ← close_fd c fd; some (wait_longer c')

-- The function `Connecting`.
pub begin_connecting : Connector → ℕ → Option Connector
begin_connecting c sockfd = do
  assert (is_disconnected c.states)
  assert (elim c.channel [ none ↦ true | some fd ↦ false ])
  -- of the constructor of `Channel`
  assert (ltb 0 sockfd)
  some (record c { states = connecting; channel = some sockfd; watching = true })

-- `Connect`; without a socket, `::connect` fails with EBADF, and the `::close` of `Retry(-1)` has
-- no effect.
pub connect : Connector → Attempt → Option Connector
connect c no_socket = some (wait_longer c)
connect c (opens sockfd err_no) =
    let c' : Connector = record c { opened = update c.opened sockfd true } in
    if is_under_way err_no then begin_connecting c' sockfd else retry c' sockfd

pub start_in_loop : Connector → Attempt → Option Connector
start_in_loop c attempt = do
  assert (is_disconnected c.states)
  if c.running then connect c attempt else some c

pub start : Connector → Attempt → Option Connector
start c attempt = start_in_loop (record c { running = true }) attempt

pub restart : Connector → Attempt → Option Connector
restart c attempt =
    start_in_loop
      (record c { states = disconnected; retry_delay = k_init_retry_delay; running = true }) attempt

-- `RemoveAndResetChannel`; without a channel it follows a null pointer.
pub remove_and_reset_channel : Connector → Option (ℕ × Connector)
remove_and_reset_channel c = do
  sockfd ← c.channel
  some (sockfd, record c { watching = false; resets = suc c.resets })

-- `ResetChannel`, once the loop gets to it
pub reset_channel : Connector → Option Connector
reset_channel c = do
  assert (ltb 0 c.resets)
  some (record c { channel = none; resets = c.resets - 1 })

-- `Stop`, with `StopInLoop`; no timer is ever set.
pub stop : Connector → Option Connector
stop c =
    let c' : Connector = record c { running = false } in
    if is_connecting c.states
    then (do
      (sockfd, c'') ← remove_and_reset_channel (record c' { states = disconnected })
      close_fd c'' sockfd)
    else some c'

-- `HandleWrite`, with the error of the socket and whether its two addresses are equal
pub handle_write : Connector → ℕ → Bool → Option Connector
handle_write c err_code self = do
  assert (is_connecting c.states)
  (sockfd, c1) ← remove_and_reset_channel c
  if ltb 0 err_code then retry c1 sockfd else (do
    c2 ← if self then retry c1 sockfd else some c1
    let c3 : Connector = record c2 { states = connected }
    c4 ←
        if c3.running
        then some
            (record c3 { opened = update c3.opened sockfd false; handed = sockfd ∷ c3.handed })
        else close_fd c3 sockfd
    some (record c4 { retry_delay = k_init_retry_delay }))

pub handle_error : Connector → Option Connector
handle_error c =
    if is_connecting c.states
    then (do (sockfd, c') ← remove_and_reset_channel c; retry c' sockfd)
    else some c

-- What the users of the connector and its loop do.
pub data Event : Type 0 where
  starts : Attempt → Event
  restarts : Attempt → Event
  stops : Event
  writes : ℕ → Bool → Event
  errs : Event
  clears : Event

pub step : Connector → Event → Option Connector
step c (starts attempt) = start c attempt
step c (restarts attempt) = restart c attempt
step c stops = stop c
step c (writes err_code self) = handle_write c err_code self
step c errs = handle_error c
step c clears = reset_channel c

pub run_steps : Connector → List Event → Option Connector
run_steps c [] = some c
run_steps c (e ∷ es) = do c' ← step c e; run_steps c' es
