-- ===== src/TimerQueue.antt =====
-- src/timer.h, timer.cc, timer_id.h, timer_queue.h and timer_queue.cc: timers on a heap, the two
-- sets that track them, and the rounds of expired timers. A time stamp is its microseconds, a
-- pointer is a number, and `heap p` is `none` where no live `Timer` is at `p`: to follow such a
-- pointer is a fault, and so is a failed `assert`. The calls run on the loop's thread; `Now()` is
-- an argument.
pub mod Sets
pub mod Inserting
pub mod Cancelling
pub mod Adding
pub mod Pointers
pub mod Erasing
pub mod Expiry
pub mod Rounds
pub mod Resetting
pub mod HandleRead
pub mod Stopping
pub mod Destroying
pub mod Descriptor
mod Tests
use base_linux.Base.{
  update, ℕ, suc, ◌+◌, ◌-◌, ◌*◌, ◌/◌, ◌%◌, ◌^◌, Bool, true, false, not, ◌&&◌, ◌||◌, Option, none,
  some, List, [], ◌∷◌, length, sub_size, ltb, leb, ◌==◌, if◌then◌else◌, ◌>>=◌, ◌>>◌, assert,
}
use base_linux.Base.Int.{ℤ, pos, negsuc}
use base_linux.OrderedSet.{Pair, contains, insert, erase, before, from_bound}

-- `Timestamp::AddTime` and `Timestamp::Invalid`, of the library that comes in compiled form.
pub record TimestampLib : Type 0 where
  pub add_time : ℕ → ℕ → ℕ
  pub invalid : ℕ

-- The callback is named by a number.
pub record Timer : Type 0 where
  pub callback : ℕ
  pub expiration : ℕ
  pub interval : ℤ
  pub repeat : Bool
  pub sequence : ℕ

abbrev pub is_positive : ℤ → Bool
is_positive (pos n) = ltb 0 n
is_positive (negsuc n) = false

abbrev pub seconds : ℤ → ℕ
seconds (pos n) = n
seconds (negsuc n) = 0

pub record Timespec : Type 0 where
  pub tv_sec : ℕ
  pub tv_nsec : ℕ

pub record TimerQueue : Type 0 where
  pub heap : ℕ → Option Timer
  pub num_created : ℕ
  -- (expiration, pointer)
  pub timers : List Pair
  -- (pointer, sequence), as `TimerId` too
  pub active_timers : List Pair
  pub calling_expired_timers : Bool
  pub canceling_timers : List Pair
  -- what `timerfd_settime` was last given
  pub armed : Option Timespec

-- The difference is an `int64_t`: at least 2^63 means negative.
pub how_many_time_left_now : ℕ → ℕ → Timespec
how_many_time_left_now now when =
    let difference = sub_size when now in
    let micro_seconds = if ltb difference 100 || leb (2 ^ 63) difference then 100 else difference in
    record { tv_sec = micro_seconds / 1000000; tv_nsec = micro_seconds % 1000000 * 1000 }

abbrev pub reset_timerfd : ℕ → ℕ → TimerQueue → TimerQueue
reset_timerfd now expired q = record q { armed = some (how_many_time_left_now now expired) }

-- The assertion that opens and closes most methods.
abbrev pub same_sizes : TimerQueue → Bool
same_sizes q = length q.active_timers == length q.timers

-- `first_timer==timers_.end() || when<first_timer->first`
abbrev pub is_earliest : ℕ → List Pair → Bool
is_earliest when [] = true
is_earliest when (e ∷ es) = ltb when e.0

-- `Insert`. A key that is there already is only logged.
pub insert_timer : TimerQueue → ℕ → Option (Bool × TimerQueue)
insert_timer q p = do
  timer ← q.heap p
  assert (same_sizes q)
  let q' = record q {
    timers = insert (timer.expiration, p) q.timers;
    active_timers = insert (p, timer.sequence) q.active_timers;
  }
  assert (same_sizes q')
  some (is_earliest timer.expiration q.timers, q')

-- `new Timer(cb, when, intervalS)` at the address `p` that the allocator gives
pub create : TimerQueue → ℕ → ℕ → ℕ → ℤ → TimerQueue
create q p callback when interval = record q {
  heap = update q.heap p (
      some (record {
        callback = callback;
        expiration = when;
        interval = interval;
        repeat = is_positive interval;
        sequence = q.num_created;
      }));
  num_created = suc q.num_created;
}

pub add_timer_in_loop : TimerQueue → ℕ → ℕ → Option TimerQueue
add_timer_in_loop q p now = do
  timer ← q.heap p
  (earliest, q') ← insert_timer q p
  some (if earliest then reset_timerfd now timer.expiration q' else q')

-- `AddTimer` on the loop's thread, where `RunInLoop` calls at once; the `TimerId` comes back.
pub add_timer : TimerQueue → ℕ → ℕ → ℕ → ℤ → ℕ → Option (Pair × TimerQueue)
add_timer q p callback when interval now = do
  q' ← add_timer_in_loop (create q p callback when interval) p now
  some ((p, q.num_created), q')

-- `CancelInLoop`, and `Cancel` on the loop's thread
pub cancel_in_loop : TimerQueue → Pair → Option TimerQueue
cancel_in_loop q id = do
  assert (same_sizes q)
  q' ←
      if contains id q.active_timers
      then (do
        timer ← q.heap id.0
        assert (contains (timer.expiration, id.0) q.timers)
        some (record q {
          timers = erase (timer.expiration, id.0) q.timers;
          heap = update q.heap id.0 none;
          active_timers = erase id q.active_timers;
        }))
      else if q.calling_expired_timers
      then some (record q { canceling_timers = insert id q.canceling_timers })
      else some q
  assert (same_sizes q')
  some q'

-- The loop at the end of `getExpired`. A key that is missing is only logged.
pub erase_active : (ℕ → Option Timer) → List Pair → List Pair → Option (List Pair)
erase_active heap [] active = some active
erase_active heap ((when, p) ∷ expired) active = do
  timer ← heap p
  erase_active heap expired (erase (p, timer.sequence) active)

-- `UINTPTR_MAX`
abbrev pub max_pointer : ℕ
max_pointer = 2 ^ 64 - 1

-- `end==timers_.end() || now<end->first`
abbrev pub ends_after : ℕ → List Pair → Bool
ends_after now [] = true
ends_after now (e ∷ es) = ltb now e.0

pub get_expired : TimerQueue → ℕ → Option (List Pair × TimerQueue)
get_expired q now = do
  assert (same_sizes q)
  let sentry : Pair = (now, max_pointer)
  let rest = from_bound sentry q.timers
  assert (ends_after now rest)
  let expired = before sentry q.timers
  active ← erase_active q.heap expired q.active_timers
  let q' = record q { timers = rest; active_timers = active }
  assert (same_sizes q')
  some (expired, q')

-- What a callback asks of the queue while it runs.
pub data Command : Type 0 where
  -- address, callback, time, interval, and `Now()` when the timer descriptor is set
  adds : ℕ → ℕ → ℕ → ℤ → ℕ → Command
  cancels : Pair → Command

pub run_command : TimerQueue → Command → Option TimerQueue
run_command q (adds p callback when interval now) = do
  (_, q') ← add_timer q p callback when interval now
  some q'
run_command q (cancels id) = cancel_in_loop q id

pub run_commands : TimerQueue → List Command → Option TimerQueue
run_commands q [] = some q
run_commands q (c ∷ cs) = do q' ← run_command q c; run_commands q' cs

-- `Timer::Restart`
pub restart : TimestampLib → Timer → ℕ → Timer
restart lib timer now = record timer {
  expiration = if timer.repeat then lib.add_time now (seconds timer.interval) else lib.invalid;
}

module _ (lib : TimestampLib) where
  -- The loop of `Reset`.
  pub reset_entries : TimerQueue → List Pair → ℕ → Option TimerQueue
  reset_entries q [] now = some q
  reset_entries q ((when, p) ∷ expired) now = do
    timer ← q.heap p
    q' ←
        if timer.repeat && not (contains (p, timer.sequence) q.canceling_timers)
        then (do
          (_, q'') ←
              insert_timer (record q { heap = update q.heap p (some (restart lib timer now)) }) p
          some q'')
        else some (record q { heap = update q.heap p none })
    reset_entries q' expired now

-- The end of `Reset`: the descriptor is set for the first timer; `later` is `Now()` then.
pub rearm : TimerQueue → ℕ → Option TimerQueue
rearm q later = elim q.timers [
  | [] ↦ some q
  | e ∷ _ ↦ (do timer ← q.heap e.1; some (reset_timerfd later timer.expiration q))
]

-- `commands` says what each callback does, given the queue as it finds it.
module _ (commands : ℕ → TimerQueue → List Command) where
  pub run_callbacks : TimerQueue → List Pair → Option TimerQueue
  run_callbacks q [] = some q
  run_callbacks q ((when, p) ∷ expired) = do
    timer ← q.heap p
    q' ← run_commands q (commands timer.callback q)
    run_callbacks q' expired

  -- `HandleRead`
  pub handle_read : TimestampLib → TimerQueue → ℕ → ℕ → Option TimerQueue
  handle_read lib q now later = do
    (expired, q1) ← get_expired q now
    q2 ← run_callbacks (record q1 { calling_expired_timers = true; canceling_timers = [] }) expired
    q3 ← reset_entries lib (record q2 { calling_expired_timers = false }) expired now
    rearm q3 later

-- The loop of `~TimerQueue`; to delete a timer twice is a fault.
pub delete_all : (ℕ → Option Timer) → List Pair → Option (ℕ → Option Timer)
delete_all heap [] = some heap
delete_all heap ((when, p) ∷ entries) = do _ ← heap p; delete_all (update heap p none) entries

-- `~TimerQueue`, but for its channel
pub destroy : TimerQueue → Option (ℕ → Option Timer)
destroy q = delete_all q.heap q.timers
