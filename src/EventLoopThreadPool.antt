-- ===== src/EventLoopThreadPool.antt =====
-- src/event_loop_thread_pool.h and src/event_loop_thread_pool.cc: the loops of several threads,
-- given out in turn. A loop is its address; `none` is a failed assert, an index out of bounds, a
-- division by zero or an overflow of the `int` that counts.
pub mod RoundRobin
mod Tests
use base_linux.Base.{
  ℕ, zero, suc, ◌+◌, ◌%◌, ◌^◌, Bool, true, false, not, Option, none, some, List, [], ◌∷◌, ◌++◌,
  get_elem?, ltb, if◌then◌else◌, ◌>>=◌, ◌>>◌, assert,
}

pub record EventLoopThreadPool : Type 0 where
  pub loop_main : ℕ
  pub is_running : Bool
  pub thread_nums : ℕ
  pub next : ℕ
  pub loops : List ℕ

-- `EventLoopThreadPool(loop_main)`
abbrev pub new_pool : ℕ → EventLoopThreadPool
new_pool loop_main = record {
  loop_main = loop_main;
  is_running = false;
  thread_nums = 0;
  next = 0;
  loops = [];
}

-- The loop of `Start`; the thread number `i` answers with the loop `start_loop i`.
unfoldable pub start_threads : (ℕ → ℕ) → ℕ → List ℕ → List ℕ
start_threads start_loop zero loops = loops
start_threads start_loop (suc i) loops = start_threads start_loop i loops ++ start_loop i ∷ []

unfoldable pub start : EventLoopThreadPool → (ℕ → ℕ) → Option EventLoopThreadPool
start p start_loop = do
  assert (ltb 0 p.loop_main)
  assert (not p.is_running)
  some (record p { loops = start_threads start_loop p.thread_nums p.loops; is_running = true })

-- `Stop`, where each thread's `StopLoop` returns
unfoldable pub stop : EventLoopThreadPool → Option EventLoopThreadPool
stop p = do assert (ltb 0 p.loop_main); some (record p { is_running = false; loop_main = 0 })

-- `~EventLoopThreadPool`
unfoldable pub destroy : EventLoopThreadPool → Option EventLoopThreadPool
unfolding stop
destroy p = if p.is_running then stop p else some p

abbrev pub is_empty : List ℕ → Bool
is_empty [] = true
is_empty (loop ∷ loops) = false

unfoldable pub get_next_event_loop : EventLoopThreadPool → Option (ℕ × EventLoopThreadPool)
get_next_event_loop p = do
  assert p.is_running
  if is_empty p.loops then some (p.loop_main, p) else (do
    assert (ltb 0 p.thread_nums)
    assert (ltb (p.next + 1) (2 ^ 31))
    loop ← get_elem? p.loops (p.next % p.thread_nums)
    some (loop, record p { next = p.next + 1 }))

-- The answers to a number of calls.
unfoldable pub get_loops : EventLoopThreadPool → ℕ → Option (List ℕ)
get_loops p zero = some []
get_loops p (suc k) = do
  (loop, p') ← get_next_event_loop p
  loops ← get_loops p' k
  some (loop ∷ loops)
