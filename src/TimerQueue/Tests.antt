-- ===== src/TimerQueue/Tests.antt =====
-- The theorems on timers, applied to two timers.
use base_linux.Base.{
  update, ℕ, ◌+◌, ◌*◌, ◌<◌, ◌≤◌, ◌≡◌, refl, inl, inr, true, false, ◌||◌, ◌⊎◌, none, some, List, [],
  ◌∷◌, arith, ◌==◌, if◌then◌else◌, Bool-cases,
}
use base_linux.Base.Int.{pos, negsuc}
use base_linux.OrderedSet.{Pair, pair_eq, contains}
use base_linux.TimerQueue.{
  Timer, TimerQueue, TimestampLib, Command, cancels, add_timer, cancel_in_loop, get_expired,
  run_callbacks, reset_entries, handle_read, how_many_time_left_now,
}
use base_linux.TimerQueue.Sets.{IsValid}
use base_linux.TimerQueue.Pointers.{pointer_in}
use base_linux.TimerQueue.Cancelling.{Cancels, cancel_in_loop_lem}
use base_linux.TimerQueue.Adding.{Adds, add_timer_lem}
use base_linux.TimerQueue.Expiry.{Expires, get_expired_lem}
use base_linux.TimerQueue.Rounds.{Round, WellBehaved}
use base_linux.TimerQueue.Descriptor.{waiting_time, how_many_time_left_now_lem}
use base_linux.TimerQueue.HandleRead.{Handles, handle_read_lem}
use base_linux.TimerQueue.Stopping.{cancel-reset}

abbrev microseconds : TimestampLib
microseconds = record { add_time = λ t s. t + s * 1000000; invalid = 0 }

-- repeats every ten seconds
abbrev repeating : Timer
repeating = record { callback = 1; expiration = 50; interval = pos 10; repeat = true; sequence = 0 }

abbrev single : Timer
single = record { callback = 2; expiration = 80; interval = pos 0; repeat = false; sequence = 1 }

abbrev two_timers : TimerQueue
two_timers = record {
  heap = update (update (λ _. none) 200 (some single)) 100 (some repeating);
  num_created = 2;
  timers = (50, 100) ∷ (80, 200) ∷ [];
  active_timers = (100, 0) ∷ (200, 1) ∷ [];
  calling_expired_timers = false;
  canceling_timers = [];
  armed = none;
}

pair_cases :
    (x a b : Pair)
    → pair_eq x a || (pair_eq x b || false) ≡ true
    → ((x.0 ≡ a.0) × (x.1 ≡ a.1)) ⊎ ((x.0 ≡ b.0) × (x.1 ≡ b.1))
pair_cases x a b h = elim (Bool-cases (pair_eq x a)) [
  | inl e ↦ inl (ground (arith, e), ground (arith, e))
  | inr e ↦ inr (ground (arith, h, e), ground (arith, h, e))
]

two_timers-IsValid : IsValid two_timers
unfolding contains
two_timers-IsValid = record {
  timers_sorted = ((refl, tt), (tt, tt));
  active_sorted = ((refl, tt), (tt, tt));
  sizes = refl;
  queued = λ w p h. elim (pair_cases (w, p) (50, 100) (80, 200) h) [
    | inl e ↦
        rw (e.0, e.1)
          (record {
            timer = repeating;
            live = refl;
            due = refl;
            known = refl;
            addressable = ground arith;
          })
    | inr e ↦
        rw (e.0, e.1)
          (record {
            timer = single;
            live = refl;
            due = refl;
            known = refl;
            addressable = ground arith;
          })
  ];
  active_all = λ p s h. elim (pair_cases (p, s) (100, 0) (200, 1) h) [
    | inl e ↦ rw (e.0, e.1) (record { timer = repeating; live = refl; own = refl; listed = refl })
    | inr e ↦ rw (e.0, e.1) (record { timer = single; live = refl; own = refl; listed = refl })
  ];
}

-- The first timer's callback cancels its own timer, the other callback does nothing.
abbrev callbacks : ℕ → TimerQueue → List Command
callbacks callback q = if callback == 1 then cancels (100, 0) ∷ [] else []

callbacks-WellBehaved : WellBehaved callbacks
callbacks-WellBehaved callback q = elim (Bool-cases (callback == 1)) [
  | inl e ↦ rw e (tt, λ _ _. tt)
  | inr e ↦ rw e tt
]

-- the queue of the round at 60, in which the first timer has expired
abbrev calling : TimerQueue
calling = record two_timers {
  timers = (80, 200) ∷ [];
  active_timers = (200, 1) ∷ [];
  calling_expired_timers = true;
}

one_case : (x a : Pair) → pair_eq x a || false ≡ true → (x.0 ≡ a.0) × (x.1 ≡ a.1)
one_case x a h = (ground (arith, h), ground (arith, h))

calling-Round : Round calling ((50, 100) ∷ [])
unfolding contains pointer_in
calling-Round = record {
  valid = record {
    timers_sorted = (tt, tt);
    active_sorted = (tt, tt);
    sizes = refl;
    queued = λ w p h.
        let e = one_case (w, p) (80, 200) h in
        rw (e.0, e.1)
          (record {
            timer = single;
            live = refl;
            due = refl;
            known = refl;
            addressable = ground arith;
          });
    active_all = λ p s h.
        let e = one_case (p, s) (200, 1) h in
        rw (e.0, e.1) (record { timer = single; live = refl; own = refl; listed = refl });
  };
  held = λ w p h.
      let e = one_case (w, p) (50, 100) h in
      rw (e.0, e.1)
        (record {
          timer = repeating;
          live = refl;
          due = refl;
          out = λ s. ground arith;
          addressable = ground arith;
        });
  distinct = (refl, tt);
}

add_timer_lem_example :
    (q' : TimerQueue) × (add_timer two_timers 300 7 20 (negsuc 0) 0 ≡ some ((300, 2), q'))
    × Adds two_timers 300 7 20 (negsuc 0) 0 q'
add_timer_lem_example =
    add_timer_lem two_timers 300 7 20 (negsuc 0) 0 two_timers-IsValid refl (ground arith)

cancel_in_loop_lem_example :
    (q' : TimerQueue) × (cancel_in_loop two_timers (200, 1) ≡ some q')
    × Cancels two_timers (200, 1) q'
cancel_in_loop_lem_example = cancel_in_loop_lem two_timers (200, 1) two_timers-IsValid

get_expired_lem_example :
    (es : List Pair) × (q' : TimerQueue) × (get_expired two_timers 60 ≡ some (es, q'))
    × Expires two_timers 60 es q'
get_expired_lem_example = get_expired_lem two_timers 60 two_timers-IsValid

handle_read_lem_example :
    (expired : List Pair) × (started : TimerQueue) × (called : TimerQueue) × (after : TimerQueue)
    × (handle_read callbacks microseconds two_timers 60 61 ≡ some after)
    × Handles callbacks microseconds two_timers 60 61 expired started called after
handle_read_lem_example =
    handle_read_lem callbacks microseconds two_timers 60 61 callbacks-WellBehaved two_timers-IsValid

cancel-reset_example :
    (q1 : TimerQueue) × (q2 : TimerQueue) × (q3 : TimerQueue) × (cancel_in_loop calling (100, 0)
      ≡ some q1)
    × (run_callbacks callbacks q1 [] ≡ some q2)
    × (reset_entries microseconds (record q2 { calling_expired_timers = false }) ((50, 100) ∷ []) 60
        ≡ some q3)
    × (q3.heap 100 ≡ none)
    × (contains (100, 0) q3.active_timers ≡ false)
unfolding contains
cancel-reset_example =
    cancel-reset callbacks microseconds calling ((50, 100) ∷ []) [] 50 100 repeating 60
      callbacks-WellBehaved calling-Round refl refl refl (λ v r h. cc)

how_many_time_left_now_lem_example :
    ((how_many_time_left_now 5 3000000).tv_nsec < 1000000000)
    × ((how_many_time_left_now 5 3000000).tv_sec * 1000000000
          + (how_many_time_left_now 5 3000000).tv_nsec
        ≡ waiting_time 5 3000000 * 1000)
    × (100000 ≤ waiting_time 5 3000000 * 1000)
how_many_time_left_now_lem_example =
    how_many_time_left_now_lem 5 3000000 (ground arith) (ground arith)
