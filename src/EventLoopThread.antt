-- ===== src/EventLoopThread.antt =====
-- src/event_loop_thread.h and src/event_loop_thread.cc, with `EventLoop::Loop` and `Quit` of
-- src/event_loop.cc: a thread that runs a loop, and the thread that starts and stops it, one step
-- at a time in any order.
pub mod Quitting
pub mod Lost
mod Tests
use base_linux.Base.{ℕ, suc, ◌≡◌, Bool, true, false, if◌then◌else◌}

-- Where the loop's thread is.
pub data Place : Type 0 where
  absent : Place
  -- in `OnEventLoop` before the lock
  created : Place
  -- before `quit_ = false` of `Loop`
  published : Place
  -- at `while(!quit_)`
  tests : Place
  -- in `Poll`, which returns at the latest after its time-out
  polls : Place
  -- in the rest of a turn
  handles : Place
  -- in the tasks that are left
  finishes : Place
  ended : Place

-- Where the owner is.
pub data Owner : Type 0 where
  outside : Owner
  -- in `StartLoop`, before `event_loop_` is seen
  starting : Owner
  -- in `StopLoop`, between `quit_ = true` and `Wakeup`
  waking : Owner
  -- in `Join`
  joining : Owner
  -- `Wakeup` has used an `EventLoop` that is no more
  faulted : Owner

-- The `EventLoop` stands on the stack of `OnEventLoop`: it is no more once the thread has ended.
abbrev pub is_ended : Place → Bool
is_ended absent = false
is_ended created = false
is_ended published = false
is_ended tests = false
is_ended polls = false
is_ended handles = false
is_ended finishes = false
is_ended ended = true

pub record EventLoopThread : Type 0 where
  pub running : Bool
  -- whether `event_loop_` is set
  pub event_loop : Bool
  pub quit : Bool
  pub wakeups : ℕ
  pub place : Place
  pub owner : Owner

abbrev pub fresh : EventLoopThread
fresh = record {
  running = false;
  event_loop = false;
  quit = false;
  wakeups = 0;
  place = absent;
  owner = outside;
}

-- One step of one of the two threads.
pub data Step : EventLoopThread → EventLoopThread → Type 0 where
  start_called :
      (t : EventLoopThread)
      → t.owner ≡ outside
      → t.running ≡ false
      → Step t (record t { place = created; owner = starting })
  loop_published :
      (t : EventLoopThread)
      → t.place ≡ created
      → Step t (record t { event_loop = true; place = published })
  start_returns :
      (t : EventLoopThread)
      → t.owner ≡ starting
      → t.event_loop ≡ true
      → Step t (record t { running = true; owner = outside })
  loop_entered :
      (t : EventLoopThread)
      → t.place ≡ published
      → Step t (record t { quit = false; place = tests })
  loop_tested :
      (t : EventLoopThread)
      → t.place ≡ tests
      → Step t (record t { place = if t.quit then finishes else polls })
  poll_returns : (t : EventLoopThread) → t.place ≡ polls → Step t (record t { place = handles })
  turn_ends :
      (t : EventLoopThread) → t.place ≡ handles → Step t (record t { wakeups = 0; place = tests })
  loop_left : (t : EventLoopThread) → t.place ≡ finishes → Step t (record t { place = ended })
  stop_called :
      (t : EventLoopThread)
      → t.owner ≡ outside
      → t.running ≡ true
      → Step t (record t { quit = true; owner = waking })
  quit_wakes :
      (t : EventLoopThread)
      → t.owner ≡ waking
      → is_ended t.place ≡ false
      → Step t (record t { wakeups = suc t.wakeups; owner = joining })
  quit_faults :
      (t : EventLoopThread)
      → t.owner ≡ waking
      → is_ended t.place ≡ true
      → Step t (record t { owner = faulted })
  join_returns :
      (t : EventLoopThread)
      → t.owner ≡ joining
      → t.place ≡ ended
      → Step t (record t { running = false; event_loop = false; place = absent; owner = outside })

-- Any number of steps.
pub data Steps : EventLoopThread → EventLoopThread → ℕ → Type 0 where
  nothing : (t : EventLoopThread) → Steps t t 0
  later : (t u v : EventLoopThread) (n : ℕ) → Steps t u n → Step u v → Steps t v (suc n)
