-- ===== src/EventLoopThreadPool/Tests.antt =====
-- A pool of three threads and the loops that it gives out
use base_linux.Base.{ℕ, ◌+◌, ◌≡◌, refl, false, some, [], ◌∷◌, ◌>>=◌}
use base_linux.EventLoopThreadPool.{
  EventLoopThreadPool, start, start_threads, get_loops, get_next_event_loop,
}

abbrev pool : EventLoopThreadPool
pool = record { loop_main = 1; is_running = false; thread_nums = 3; next = 0; loops = [] }

abbrev hundreds : ℕ → ℕ
hundreds i = i + 100

turns_run : (start pool hundreds >>= λ p. get_loops p 4) ≡ some (100 ∷ 101 ∷ 102 ∷ 100 ∷ [])
unfolding start get_loops get_next_event_loop start_threads
turns_run = refl
