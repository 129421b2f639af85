-- ===== src/EventLoop/Tests.antt =====
-- The theorem on tasks, applied to one task of another thread.
use base_linux.Base.{
  none, some, update, arith, ◌*◌, true, List, [], ◌∷◌, replicate, refl, ◌+◌, ◌<◌, ◌≡◌, false, ◌++◌,
  suc,
}
use base_linux.EventLoop.{polling, EventLoop, fresh, push_back, other_queues, Steps, nothing, later}
use base_linux.EventLoop.Pending.{is_empty, tasks_lem}
use base_linux.EventLoop.Signals.{SignalCallbacks, Answer, piece, interrupted}
use base_linux.Base.Int.{pos}
use base_linux.OrderedSet.{contains}
use base_linux.TimerQueue.{TimerQueue, TimestampLib}
use base_linux.TimerQueue.Sets
use base_linux.EventLoop.Threads.{Threads, create, loop_starts, creates, starts, step}
use base_linux.EventLoop.Belonging
use base_linux.EventLoop.Belonging.{IsValid, Fresh, Runs, Runs-IsValid}
use base_linux.EventLoop.Timers.{IsDue, timer_at, timer_after, timer_interval, timers_lem}

abbrev queued : EventLoop
queued = record (push_back fresh 7) { posting = suc fresh.posting }

queued-Steps : Steps fresh queued
queued-Steps = later fresh fresh queued (nothing fresh) (other_queues fresh 7)

tasks_lem_example :
    (queued.called ++ (queued.tasks ++ queued.task_list) ≡ queued.posted)
    × (queued.phase ≡ polling
        → is_empty queued.task_list ≡ false
        → 0 < queued.wakeups + queued.posting)
tasks_lem_example = tasks_lem queued queued-Steps

abbrev int_only : SignalCallbacks
int_only = record {
  sig_int_cb = true;
  sig_quit_cb = false;
  sig_usr1_cb = false;
  sig_usr2_cb = false;
}

-- A SIGINT in two pieces, with an interruption between them
abbrev two_pieces : List Answer
two_pieces = piece (2 ∷ 0 ∷ []) ∷ interrupted ∷ piece (replicate 126 0) ∷ []

-- The loop 7 is made on the thread 1, and loops.
abbrev no_loops : Threads
no_loops = record { current = λ _. none; loops = λ _. none }

abbrev one_loop : Threads
one_loop = record {
  current = update (λ _. none) 1 (some 7);
  loops = update (λ _. none) 7 (some (record { tid = 1; looping = false }));
}

abbrev one_loops : Threads
one_loops = record one_loop {
  loops = update one_loop.loops 7 (some (record { tid = 1; looping = true }));
}

one_loops-Runs : Runs no_loops one_loops
unfolding Fresh step create loop_starts
one_loops-Runs =
    Belonging.later no_loops one_loop one_loops (starts 1 7)
      (Belonging.later no_loops no_loops one_loop (creates 1 7) (Belonging.nothing no_loops) refl
        refl)
      tt refl

no_loops-IsValid : IsValid no_loops
no_loops-IsValid = record { points = λ tid loop h. absurd (cc); pointed = λ loop l h. absurd (cc) }

Runs-IsValid_example : IsValid one_loops
Runs-IsValid_example = Runs-IsValid no_loops one_loops one_loops-Runs no_loops-IsValid

abbrev no_timers : TimerQueue
no_timers = record {
  heap = λ _. none;
  num_created = 0;
  timers = [];
  active_timers = [];
  calling_expired_timers = false;
  canceling_timers = [];
  armed = none;
}

no_timers-IsValid : Sets.IsValid no_timers
unfolding contains
no_timers-IsValid = record {
  timers_sorted = tt;
  active_sorted = tt;
  sizes = refl;
  queued = λ w p h. absurd (cc);
  active_all = λ p s h. absurd (cc);
}

abbrev microseconds : TimestampLib
microseconds = record { add_time = λ t s. t + s * 1000000; invalid = 0 }

timers_example :
    IsDue no_timers 100 50 60 (timer_at no_timers 100 1 50 20)
    × IsDue no_timers 100 2000020 60 (timer_after microseconds no_timers 100 1 2 20)
    × IsDue no_timers 100 20 60 (timer_interval no_timers 100 1 (pos 5) 20)
timers_example =
    timers_lem microseconds no_timers 100 1 50 2 20 60 (pos 5) no_timers-IsValid refl (omega arith)
