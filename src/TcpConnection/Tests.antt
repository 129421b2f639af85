-- ===== src/TcpConnection/Tests.antt =====
-- The theorems on connections, applied to one with bytes that wait.
use base_linux.Base.{
  ◌-◌, ◌≡◌, refl, true, false, none, some, List, [], ◌∷◌, ◌++◌, arith, slice, blit,
}
use base_linux.Buffer.{Buffer, CopyBackward, delivered}
use base_linux.Buffer.Space.{contents, HandlesOverlap}
use base_linux.Channel.{Channel, none_event, k_added}
use base_linux.TcpConnection.{
  connected, TcpConnection, Event, writes, shuts_down, run, handle_channel,
}
use base_linux.TcpConnection.Stream.{line, line_run}
use base_linux.TcpConnection.Valid.{IsValid}
use base_linux.TcpConnection.Running.{AllAllowed, run_lem}
use base_linux.TcpConnection.Order.{accepted, run-accepted}
use base_linux.TcpConnection.Losses.{handle_channel-closed}

-- A copy that serves every pair of ranges.
abbrev moving : CopyBackward
moving = record {
  copy =
      λ mem first last d_last. blit mem (d_last - (last - first)) (slice mem first (last - first));
  copy_lem = λ mem first last d_last _ _ _ _ _. refl;
}

moving-HandlesOverlap : HandlesOverlap moving
moving-HandlesOverlap mem first last d_last _ _ _ _ = refl

abbrev empty : Buffer
empty = record { read_index = 0; write_index = 0; buffer = 0 ∷ 0 ∷ 0 ∷ 0 ∷ [] }

-- "ab" waits
abbrev two : Buffer
two = record { read_index = 1; write_index = 3; buffer = 90 ∷ 97 ∷ 98 ∷ 0 ∷ [] }

abbrev waiting : TcpConnection
waiting = record {
  state = connected;
  buffer_input = empty;
  buffer_output = two;
  reading = true;
  writing = true;
  listed = true;
  overstock_size = 10;
  connection_cb = true;
  disconnection_cb = true;
  write_complete_cb = true;
  high_water_mark_cb = false;
  remove_cb = true;
  shut = false;
  sent = 90 ∷ [];
  queued = [];
  notices = [];
}

waiting-IsValid : IsValid waiting
waiting-IsValid = record {
  input = omega arith;
  output = omega arith;
  writing = refl;
  reading = refl;
  unused = λ h. cc;
  removable = refl;
}

abbrev events : List Event
events = writes (some 1) ∷ shuts_down ∷ []

events-AllAllowed : AllAllowed moving waiting events
unfolding AllAllowed
events-AllAllowed = ((refl, ground arith), λ c' h. (tt, λ _ _. tt))

run_lem_example :
    (c' : TcpConnection) × (run moving waiting events ≡ some c')
    × IsValid c'
    × (line c' ≡ line_run (line waiting) events)
run_lem_example =
    run_lem moving events waiting moving-HandlesOverlap waiting-IsValid events-AllAllowed

run-accepted_example :
    (c' : TcpConnection) × (run moving waiting events ≡ some c')
    × (c'.sent ++ contents c'.buffer_output ≡ (90 ∷ 97 ∷ 98 ∷ []) ++ accepted (line waiting) events)
run-accepted_example =
    run-accepted moving events waiting moving-HandlesOverlap waiting-IsValid events-AllAllowed

abbrev both_ways : Channel
both_ways = record {
  fd = 5;
  events = record none_event { epollin = true; epollpri = true; epollout = true };
  revents = record none_event { epollin = true; epollout = true };
  status = k_added;
  handling = false;
  tied = true;
  read_cb = true;
  write_cb = true;
  close_cb = true;
  error_cb = true;
}

handle_channel-closed_example :
    handle_channel moving waiting both_ways (delivered []) 0 [] (some 1) ≡ none
handle_channel-closed_example =
    handle_channel-closed moving waiting both_ways 0 [] (some 1) moving-HandlesOverlap
      waiting-IsValid refl refl refl refl refl refl refl refl
