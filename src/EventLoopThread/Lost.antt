-- ===== src/EventLoopThread/Lost.antt =====
-- How a stop is lost.
use base_linux.Base.{ℕ, ◌≡◌, refl, Bool, true, false, arith}
use base_linux.EventLoopThread.{
  Place, absent, created, published, tests, polls, handles, finishes, ended, outside, waking,
  EventLoopThread, Step, start_called, loop_published, start_returns, loop_entered, loop_tested,
  poll_returns, turn_ends, loop_left, stop_called, quit_wakes, quit_faults, join_returns, Steps,
  nothing, later,
}
use base_linux.EventLoopThread.Quitting.{is_stopping, ended_lem}

abbrev pub is_looping : Place → Bool
is_looping absent = false
is_looping created = false
is_looping published = false
is_looping tests = true
is_looping polls = true
is_looping handles = true
is_looping finishes = false
is_looping ended = false

-- The loop goes on, and the owner waits for its end.
record Hangs (t : EventLoopThread) : Type 0 where
  quit : t.quit ≡ false
  looping : is_looping t.place ≡ true
  stopping : is_stopping t.owner ≡ true

Step-Hangs : (t u : EventLoopThread) → Hangs t → Step t u → Hangs u
Step-Hangs _ _ q (start_called t at off) = ground (arith, q.stopping, at)
Step-Hangs _ _ q (loop_published t at) = ground (arith, q.looping, at)
Step-Hangs _ _ q (start_returns t at on) = ground (arith, q.stopping, at)
Step-Hangs _ _ q (loop_entered t at) = ground (arith, q.looping, at)
Step-Hangs _ _ q (loop_tested t at) = record {
  quit = q.quit;
  looping = ground (arith, q.quit);
  stopping = q.stopping;
}
Step-Hangs _ _ q (poll_returns t at) = record {
  quit = q.quit;
  looping = refl;
  stopping = q.stopping;
}
Step-Hangs _ _ q (turn_ends t at) = record { quit = q.quit; looping = refl; stopping = q.stopping }
Step-Hangs _ _ q (loop_left t at) = ground (arith, q.looping, at)
Step-Hangs _ _ q (stop_called t at on) = ground (arith, q.stopping, at)
Step-Hangs _ _ q (quit_faults t at gone) =
    let over = ended_lem t.place gone in ground (arith, q.looping, over)
Step-Hangs _ _ q (quit_wakes t at there) = record {
  quit = q.quit;
  looping = q.looping;
  stopping = refl;
}
Step-Hangs _ _ q (join_returns t at gone) = ground (arith, q.looping, gone)

Steps-Hangs : (t u : EventLoopThread) (n : ℕ) → Steps t u n → Hangs t → Hangs u
Steps-Hangs _ _ _ (nothing t) q = q
Steps-Hangs _ _ _ (later t u v n before s) q = Step-Hangs u v (Steps-Hangs t u n before q) s

-- StartLoop has returned, but the loop's thread has not yet come to quit_ = false in Loop. When
-- StopLoop sets quit_ then, and the thread goes on, the order is lost: whatever steps follow,
-- however many, StopLoop has not returned.
pub stop_called-loop_entered :
    (t : EventLoopThread)
    → t.owner ≡ outside
    → t.running ≡ true
    → t.place ≡ published
    → (u : EventLoopThread) × (v : EventLoopThread) × Step t u
      × Step u v
      × ((w : EventLoopThread) (n : ℕ) → Steps v w n → is_stopping w.owner ≡ true)
stop_called-loop_entered t at on early =
    let u : EventLoopThread = record t { quit = true; owner = waking } in
    let v : EventLoopThread = record u { quit = false; place = tests } in
    (
      u,
      v,
      stop_called t at on,
      loop_entered u early,
      λ w n steps.
          (Steps-Hangs v w n steps
            (record { quit = refl; looping = refl; stopping = refl })).stopping,
    )
