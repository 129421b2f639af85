-- ===== src/TimerQueue/Sets.antt =====
-- The invariant of the timer queue: the two sets hold the same timers, all of them live.
use base_linux.Base.{ℕ, ◌<◌, ◌≡◌, true, false, Option, some, List, length}
use base_linux.OrderedSet.{Pair, contains}
use base_linux.OrderedSet.Order.{IsSorted}
use base_linux.TimerQueue.{Timer, TimerQueue, max_pointer}

-- The pointer of an entry of `timers_` is live, and its timer is in `active_timers_`.
pub record Queued (heap : ℕ → Option Timer) (active : List Pair) (when p : ℕ) : Type 0 where
  pub timer : Timer
  pub live : heap p ≡ some timer
  pub due : timer.expiration ≡ when
  pub known : contains (p, timer.sequence) active ≡ true
  pub addressable : p < max_pointer

-- The pointer of an entry of `active_timers_` is live, and its timer is in `timers_`.
pub record Active (heap : ℕ → Option Timer) (timers : List Pair) (p sequence : ℕ) : Type 0 where
  pub timer : Timer
  pub live : heap p ≡ some timer
  pub own : timer.sequence ≡ sequence
  pub listed : contains (timer.expiration, p) timers ≡ true

pub record Consistent (heap : ℕ → Option Timer) (timers active : List Pair) : Type 0 where
  pub timers_sorted : IsSorted timers
  pub active_sorted : IsSorted active
  pub sizes : length active ≡ length timers
  pub queued : (when p : ℕ) → contains (when, p) timers ≡ true → Queued heap active when p
  pub active_all : (p s : ℕ) → contains (p, s) active ≡ true → Active heap timers p s

abbrev pub IsValid : TimerQueue → Type 0
IsValid q = Consistent q.heap q.timers q.active_timers

-- The pointer is in neither set.
abbrev pub Unlisted : List Pair → ℕ → Type 0
Unlisted active p = (s : ℕ) → contains (p, s) active ≡ false

-- One address holds one timer.
pub one_timer :
    (heap : ℕ → Option Timer) (r s : ℕ) {a b : Timer}
    → heap r ≡ some a
    → heap s ≡ some b
    → r ≡ s
    → a ≡ b
one_timer heap r s x y e = cc
