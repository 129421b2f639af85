-- ===== src/TcpConnection.antt =====
-- src/tcp_connection.h and src/tcp_connection.cc: a connection on its loop's thread, from its
-- first event to its end. What the kernel takes is an argument of each step; `none` is a failed
-- assert. What is queued for the loop, and which of the user's callbacks were called, is kept in
-- order.
pub mod Stream
pub mod Valid
pub mod Output
pub mod Draining
pub mod Input
pub mod Running
pub mod Order
pub mod Losses
mod Tests
use base_linux.Base.{
  ℕ, suc, zero, ◌-◌, Bool, true, false, not, ◌&&◌, ◌||◌, Option, none, some, List, [], ◌∷◌, ◌++◌,
  length, take, drop, slice, add_size, leb, ltb, ◌==◌, if◌then◌else◌, ◌>>=◌, ◌>>◌, assert,
}
use base_linux.Base.Int.{ℤ, pos, negsuc}
use base_linux.Channel
use base_linux.Channel.{handle_event}
use base_linux.Buffer.{Buffer, CopyBackward, Readv, readable_bytes, append, retrieve, read_fd}

pub data State : Type 0 where
  disconnected : State
  connecting : State
  connected : State
  disconnecting : State

abbrev pub is_connected : State → Bool
is_connected disconnected = false
is_connected connecting = false
is_connected connected = true
is_connected disconnecting = false

abbrev pub is_connecting : State → Bool
is_connecting disconnected = false
is_connecting connecting = true
is_connecting connected = false
is_connecting disconnecting = false

-- `(DISCONNECTING==state_) || (DISCONNECTED==state_)`
abbrev pub is_over : State → Bool
is_over disconnected = true
is_over connecting = false
is_over connected = false
is_over disconnecting = true

-- What a connection queues in its loop.
pub data Task : Type 0 where
  writes_complete : Task
  is_over_mark : ℕ → Task
  sends_in_loop : List ℕ → Task
  shuts_in_loop : Task
  closes_in_loop : Task

-- Which callback of the user or the server was called.
pub data Notice : Type 0 where
  connects : Notice
  disconnects : Notice
  removes : Notice

pub record TcpConnection : Type 0 where
  pub state : State
  pub buffer_input : Buffer
  pub buffer_output : Buffer
  -- the events of `channel_`
  pub reading : Bool
  pub writing : Bool
  -- whether the poller has `channel_`
  pub listed : Bool
  pub overstock_size : ℕ
  -- which of the callbacks are set
  pub connection_cb : Bool
  pub disconnection_cb : Bool
  pub write_complete_cb : Bool
  pub high_water_mark_cb : Bool
  pub remove_cb : Bool
  -- whether the socket's writing end was shut down
  pub shut : Bool
  -- the bytes that the kernel has taken
  pub sent : List ℕ
  pub queued : List Task
  pub notices : List Notice

abbrev pub queue_if : Bool → Task → TcpConnection → TcpConnection
queue_if set task c = if set then record c { queued = c.queued ++ task ∷ [] } else c

abbrev pub notice_if : Bool → Notice → TcpConnection → TcpConnection
notice_if set notice c = if set then record c { notices = c.notices ++ notice ∷ [] } else c

-- `_SendMostPossible`. The outcome of `send` is the bytes taken, or `none` for an error of any
-- kind.
pub send_most_possible : TcpConnection → List ℕ → Option ℕ → Option (ℤ × TcpConnection)
send_most_possible c dat outcome = if c.writing then some (pos (length dat), c) else (do
  assert (readable_bytes c.buffer_output == 0)
  elim outcome [
    | none ↦ some (negsuc 0, c)
    | some wlen ↦ some (pos (length dat - wlen), record c { sent = c.sent ++ take wlen dat })
  ])

-- `_SendDatQueueInBuffer`
pub send_dat_queue_in_buffer : CopyBackward → TcpConnection → List ℕ → Option TcpConnection
send_dat_queue_in_buffer std c dat = do
  let wait_send_size = add_size (readable_bytes c.buffer_output) (length dat)
  let c' : TcpConnection =
      queue_if (leb c.overstock_size wait_send_size && c.high_water_mark_cb)
        (is_over_mark wait_send_size) c
  output ← append std c'.buffer_output dat
  some (record c' { buffer_output = output; writing = true })

-- `_Send` and `SendInLoop`
pub send : CopyBackward → TcpConnection → List ℕ → Option ℕ → Option TcpConnection
send std c dat outcome =
    if is_connected c.state
    then (do
      (remain, c') ← send_most_possible c dat outcome
      elim remain [
        | negsuc _ ↦ some c'
        | pos n ↦
            if n == 0
            then some (queue_if c'.write_complete_cb writes_complete c')
            else send_dat_queue_in_buffer std c' (drop (length dat - n) dat)
      ])
    else some c

-- `Send`, on the loop's thread or on another
pub send_call : CopyBackward → Bool → TcpConnection → List ℕ → Option ℕ → Option TcpConnection
send_call std in_loop_thread c dat outcome =
    if is_connected c.state
    then (if in_loop_thread
        then send std c dat outcome
        else some (queue_if true (sends_in_loop dat) c))
    else some c

-- `ShutdownWirte`
pub shutdown_write : TcpConnection → TcpConnection
shutdown_write c = queue_if (is_connected c.state) shuts_in_loop c

-- `ForceClose`
pub force_close : TcpConnection → TcpConnection
force_close c = queue_if (is_connected c.state) closes_in_loop c

-- `HandleWrite`
pub handle_write : TcpConnection → Option ℕ → Option TcpConnection
handle_write c outcome = do
  assert (is_connected c.state)
  let readable_len = readable_bytes c.buffer_output
  let dat = slice c.buffer_output.buffer c.buffer_output.read_index readable_len
  elim outcome [
    | none ↦ some c
    | some wlen ↦
        if ltb 0 wlen
        then (do
          output ← retrieve c.buffer_output wlen
          let c' : TcpConnection = record c {
            buffer_output = output;
            sent = c.sent ++ take wlen dat;
          }
          some (
              if readable_len == wlen
              then queue_if c.write_complete_cb writes_complete (record c' { writing = false })
              else c'))
        else some c
  ]

-- `HandleClose`; `remove_cb_` is called whether or not it is set.
pub handle_close : TcpConnection → Option TcpConnection
handle_close c = do
  let c' : TcpConnection =
      notice_if c.disconnection_cb disconnects
        (record c { state = disconnecting; reading = false; writing = false })
  assert c.remove_cb
  some (notice_if true removes c')

-- `HandleRead`; `on_read` is the user's callback, or `some` where none is set.
pub handle_read :
    CopyBackward
    → (TcpConnection → Option TcpConnection)
    → TcpConnection
    → Readv
    → Option TcpConnection
handle_read std on_read c readv = do
  assert (is_connected c.state)
  (rlen, _, input) ← read_fd std c.buffer_input readv
  let c' : TcpConnection = record c { buffer_input = input }
  elim rlen [ negsuc _ ↦ some c' | pos n ↦ if ltb 0 n then on_read c' else handle_close c' ]

-- `ShutdownWriteInLoop`
pub shutdown_write_in_loop : TcpConnection → TcpConnection
shutdown_write_in_loop c = if c.writing then c else record c { shut = true }

-- `ForceCloseInLoop`
pub force_close_in_loop : TcpConnection → Option TcpConnection
force_close_in_loop c = if is_over c.state then some c else handle_close c

-- `ConnectionEstablished`
pub connection_established : TcpConnection → TcpConnection
connection_established c =
    notice_if c.connection_cb connects
      (record c { state = connected; reading = true; listed = true })

-- `ConnectionDestroy`
pub connection_destroy : TcpConnection → TcpConnection
connection_destroy c = record c { state = disconnected; listed = false }

-- A user's read callback that takes bytes from the input and sends replies.
pub send_all : CopyBackward → TcpConnection → List (List ℕ × Option ℕ) → Option TcpConnection
send_all std c [] = some c
send_all std c ((dat, outcome) ∷ replies) = do c' ← send std c dat outcome; send_all std c' replies

pub answer : CopyBackward → ℕ → List (List ℕ × Option ℕ) → TcpConnection → Option TcpConnection
answer std taken replies c = do
  input ← retrieve c.buffer_input taken
  send_all std (record c { buffer_input = input }) replies

-- What happens to a connection on its loop's thread.
pub data Event : Type 0 where
  establishes : Event
  sends : List ℕ → Option ℕ → Event
  writes : Option ℕ → Event
  -- with the bytes that the user's callback takes, and its replies
  reads : Readv → ℕ → List (List ℕ × Option ℕ) → Event
  shuts_down : Event
  closes : Event
  forces_close : Event
  errs : Event
  destroys : Event

-- `HandleError` only logs.
pub step : CopyBackward → TcpConnection → Event → Option TcpConnection
step std c establishes = some (connection_established c)
step std c (sends dat outcome) = send std c dat outcome
step std c (writes outcome) = handle_write c outcome
step std c (reads readv taken replies) = handle_read std (answer std taken replies) c readv
step std c shuts_down = some (shutdown_write_in_loop c)
step std c forces_close = force_close_in_loop c
step std c closes = handle_close c
step std c errs = some c
step std c destroys = some (connection_destroy c)

pub run : CopyBackward → TcpConnection → List Event → Option TcpConnection
run std c [] = some c
run std c (e ∷ es) = do c' ← step std c e; run std c' es

-- The event that a call of the channel is, by what `Initialize` binds.
pub call_event : Readv → ℕ → List (List ℕ × Option ℕ) → Option ℕ → Channel.Call → Event
call_event readv taken replies outcome Channel.closes = closes
call_event readv taken replies outcome Channel.errs = errs
call_event readv taken replies outcome Channel.reads = reads readv taken replies
call_event readv taken replies outcome Channel.writes = writes outcome

pub call_events : Readv → ℕ → List (List ℕ × Option ℕ) → Option ℕ → List Channel.Call → List Event
unfolding call_event
call_events readv taken replies outcome [] = []
call_events readv taken replies outcome (call ∷ calls) =
    call_event readv taken replies outcome call ∷ call_events readv taken replies outcome calls

-- The channel handles its events, with the callbacks of a connection.
pub handle_channel :
    CopyBackward
    → TcpConnection
    → Channel.Channel
    → Readv
    → ℕ
    → List (List ℕ × Option ℕ)
    → Option ℕ
    → Option TcpConnection
handle_channel std c channel readv taken replies outcome =
    run std c (call_events readv taken replies outcome (handle_event channel true))
