-- ===== src/EventLoop.antt =====
-- src/event_loop.h and src/event_loop.cc: the tasks that other threads and the loop itself queue.
-- A task is a number. Each access to `task_list_` is one step, under its mutex; so is each one of
-- the eventfd's counter and of `need_wakup_`, but those of `DoPendingTasks` before the swap are
-- one step with it.
pub mod Pending
pub mod Signals
pub mod Signalling
pub mod Threads
pub mod Belonging
pub mod Timers
mod Tests
use base_linux.Base.{ℕ, suc, ◌-◌, ◌<◌, ◌≡◌, Bool, true, false, List, [], ◌∷◌, ◌++◌, if◌then◌else◌}

-- Where the loop's thread is: in `Poll`, in the loop over the active channels, or in
-- `DoPendingTasks`.
pub data Phase : Type 0 where
  polling : Phase
  handling : Phase
  running : Phase

abbrev pub is_polling : Phase → Bool
is_polling polling = true
is_polling handling = false
is_polling running = false

abbrev pub is_handling : Phase → Bool
is_handling polling = false
is_handling handling = true
is_handling running = false

abbrev pub is_running : Phase → Bool
is_running polling = false
is_running handling = false
is_running running = true

pub record EventLoop : Type 0 where
  pub task_list : List ℕ
  pub need_wakup : Bool
  -- the counter of the eventfd, which makes `Poll` return
  pub wakeups : ℕ
  pub phase : Phase
  -- what `DoPendingTasks` has swapped out and not called yet
  pub tasks : List ℕ
  -- the other threads between their `push_back` and their `Wakeup`
  pub posting : ℕ
  -- all tasks that were ever queued, and those that were called, in order
  pub posted : List ℕ
  pub called : List ℕ

pub fresh : EventLoop
fresh = record {
  task_list = [];
  need_wakup = false;
  wakeups = 0;
  phase = polling;
  tasks = [];
  posting = 0;
  posted = [];
  called = [];
}

abbrev pub push_back : EventLoop → ℕ → EventLoop
push_back l task = record l { task_list = l.task_list ++ task ∷ []; posted = l.posted ++ task ∷ [] }

abbrev pub wakeup : EventLoop → EventLoop
wakeup l = record l { wakeups = suc l.wakeups }

-- `QueueInLoop` on the loop's thread
abbrev pub queue_in_loop : EventLoop → ℕ → EventLoop
queue_in_loop l task = if l.need_wakup then wakeup (push_back l task) else push_back l task

-- `HandleWakeup`: to read an eventfd sets it to zero.
abbrev pub handle_wakeup : EventLoop → EventLoop
handle_wakeup l = record l { wakeups = 0 }

-- `DoPendingTasks` up to the end of the swap
abbrev pub swap_tasks : EventLoop → EventLoop
swap_tasks l = record l { need_wakup = true; tasks = l.task_list; task_list = []; phase = running }

-- One step of the loop's thread or of another thread.
pub data Step : EventLoop → EventLoop → Type 0 where
  other_queues :
      (l : EventLoop) (task : ℕ) → Step l (record (push_back l task) { posting = suc l.posting })
  other_wakes :
      (l : EventLoop) → 0 < l.posting → Step l (record (wakeup l) { posting = l.posting - 1 })
  poll_returns : (l : EventLoop) → l.phase ≡ polling → Step l (record l { phase = handling })
  wakeup_handled : (l : EventLoop) → l.phase ≡ handling → Step l (handle_wakeup l)
  loop_queues :
      (l : EventLoop) (task : ℕ) → is_polling l.phase ≡ false → Step l (queue_in_loop l task)
  pending_starts : (l : EventLoop) → l.phase ≡ handling → Step l (swap_tasks l)
  task_called :
      (l : EventLoop) (task : ℕ) (rest : List ℕ)
      → l.phase ≡ running
      → l.tasks ≡ task ∷ rest
      → Step l (record l { tasks = rest; called = l.called ++ task ∷ [] })
  pending_ends :
      (l : EventLoop)
      → l.phase ≡ running
      → l.tasks ≡ []
      → Step l (record l { need_wakup = false; phase = polling })

-- Any number of steps.
pub data Steps : EventLoop → EventLoop → Type 0 where
  nothing : (l : EventLoop) → Steps l l
  later : (l m n : EventLoop) → Steps l m → Step m n → Steps l n
