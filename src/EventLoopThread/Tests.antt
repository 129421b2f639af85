-- ===== src/EventLoopThread/Tests.antt =====
-- The theorems on the end of a loop's thread, applied to a thread that polls and one that is
-- about to loop.
use base_linux.Base.{ℕ, ◌≡◌, refl, true}
use base_linux.EventLoopThread.{published, polls, EventLoopThread, fresh, Step, Steps}
use base_linux.EventLoopThread.Quitting.{is_stopping, Over, Faulted, Inevitable, stop_called-Over}
use base_linux.EventLoopThread.Lost.{stop_called-loop_entered}

abbrev polling : EventLoopThread
polling = record fresh { running = true; event_loop = true; place = polls }

stop_called-Over_example :
    (u : EventLoopThread) × Step polling u
    × Inevitable Over u
    × ((v : EventLoopThread) × (n : ℕ) × Steps u v n × Faulted v)
stop_called-Over_example = stop_called-Over polling refl refl refl

abbrev early : EventLoopThread
early = record polling { place = published }

stop_called-loop_entered_example :
    (u : EventLoopThread) × (v : EventLoopThread) × Step early u
    × Step u v
    × ((w : EventLoopThread) (n : ℕ) → Steps v w n → is_stopping w.owner ≡ true)
stop_called-loop_entered_example = stop_called-loop_entered early refl refl refl
