-- ===== src/EventLoop/Timers.antt =====
-- The timers of a loop, `TimerAt` and its like in src/event_loop.cc, on the loop's thread, and
-- when they are due.
use base_linux.Base.{ℕ, ◌≡◌, ◌<◌, refl, sym, ap, ◌∙◌, true, Option, none, some, List, arith, leb}
use base_linux.Base.Int.{ℤ, pos}
use base_linux.OrderedSet.{Pair, contains}
use base_linux.TimerQueue.{
  TimestampLib, Timer, TimerQueue, add_timer, cancel_in_loop, get_expired, max_pointer,
}
use base_linux.TimerQueue.Sets.{IsValid, one_timer}
use base_linux.TimerQueue.Adding.{add_timer_lem}
use base_linux.TimerQueue.Expiry.{get_expired_lem}

-- `TimerAt`; `now` is the time at which the descriptor is set.
unfoldable pub timer_at : TimerQueue → ℕ → ℕ → ℕ → ℕ → Option (Pair × TimerQueue)
timer_at q p callback when now = add_timer q p callback when (pos 0) now

-- `TimerAfter`, for a delay that is not negative
unfoldable pub timer_after : TimestampLib → TimerQueue → ℕ → ℕ → ℕ → ℕ → Option (Pair × TimerQueue)
timer_after lib q p callback delay now = add_timer q p callback (lib.add_time now delay) (pos 0) now

-- `TimerInterval`
unfoldable pub timer_interval : TimerQueue → ℕ → ℕ → ℤ → ℕ → Option (Pair × TimerQueue)
timer_interval q p callback interval now = add_timer q p callback now interval now

-- `TimerCancel`
unfoldable pub timer_cancel : TimerQueue → Pair → Option TimerQueue
timer_cancel q id = cancel_in_loop q id

-- What a call that makes a timer at the address `p` for the time `when` gives: its id, and a
-- queue from which `getExpired` takes the timer at a later time exactly if `when` has come.
pub IsDue : TimerQueue → ℕ → ℕ → ℕ → Option (Pair × TimerQueue) → Type 0
IsDue q p when later out =
    (q' : TimerQueue) × (es : List Pair) × (q'' : TimerQueue) × (out
      ≡ some ((p, q.num_created), q'))
    × (contains (p, q.num_created) q'.active_timers ≡ true)
    × (get_expired q' later ≡ some (es, q''))
    × (contains (when, p) es ≡ leb when later)

add_timer-IsDue :
    (q : TimerQueue) (p callback when : ℕ) (interval : ℤ) (now later : ℕ)
    → IsValid q
    → q.heap p ≡ none
    → p < max_pointer
    → IsDue q p when later (add_timer q p callback when interval now)
unfolding IsDue
add_timer-IsDue q p callback when interval now later v free small =
    let (q', run, adds) = add_timer_lem q p callback when interval now v free small in
    let (es, q'', expired, takes) = get_expired_lem q' later adds.valid in
    let known : contains (p, q.num_created) q'.active_timers ≡ true =
      adds.others (p, q.num_created) ∙ ground arith in
    let active = adds.valid.active_all p q.num_created known in
    let at : active.timer.expiration ≡ when =
      ap (λ (t : Timer). t.expiration) (one_timer q'.heap p p active.live adds.live refl) in
    let listed : contains (when, p) q'.timers ≡ true =
      ap (λ w. contains (w, p) q'.timers) (sym at) ∙ active.listed in
    (q', es, q'', run, known, expired, takes.chosen when p ∙ rw listed refl)

-- On a valid queue with a free address TimerAt, TimerAfter with a delay that is not negative, and
-- TimerInterval trip no assert, and the timer is active under the returned id. getExpired of the
-- queue at any later time hands it out exactly if its time has come: the given one, the present
-- time with the delay added, and for TimerInterval the present time, so that a repeating timer is
-- first due at once.
pub timers_lem :
    (lib : TimestampLib) (q : TimerQueue) (p callback when delay now later : ℕ) (interval : ℤ)
    → IsValid q
    → q.heap p ≡ none
    → p < max_pointer
    → IsDue q p when later (timer_at q p callback when now)
      × IsDue q p (lib.add_time now delay) later (timer_after lib q p callback delay now)
      × IsDue q p now later (timer_interval q p callback interval now)
unfolding timer_at timer_after timer_interval
timers_lem lib q p callback when delay now later interval v free small = (
  add_timer-IsDue q p callback when (pos 0) now later v free small,
  add_timer-IsDue q p callback (lib.add_time now delay) (pos 0) now later v free small,
  add_timer-IsDue q p callback now interval now later v free small,
)
