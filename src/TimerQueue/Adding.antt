-- ===== src/TimerQueue/Adding.antt =====
-- `AddTimer` on the loop's thread.
use base_linux.Base.{
  List, [], ◌∷◌, ◌≤◌, ℕ, suc, ◌<◌, ◌≡◌, refl, ap, inl, inr, true, false, ◌||◌, none, some, arith,
  ◌==◌, if◌then◌else◌, Bool-cases,
}
use base_linux.Base.Int.{ℤ}
use base_linux.OrderedSet.{Pair, pair_eq, contains}
use base_linux.OrderedSet.Laws.{contains-insert, contains-Above}
use base_linux.OrderedSet.Order.{IsSorted}
use base_linux.TimerQueue.{
  max_pointer, Timer, TimerQueue, is_earliest, is_positive, how_many_time_left_now, create,
  add_timer_in_loop, add_timer, reset_timerfd,
}
use base_linux.TimerQueue.Sets.{IsValid, Unlisted}
use base_linux.TimerQueue.Inserting.{inserted, inserted-IsValid, insert_timer_lem}

module _ (q : TimerQueue) (p callback when : ℕ) (interval : ℤ) (v : IsValid q)
    (free : q.heap p ≡ none) where
  apart : {r : ℕ} {t : Timer} → q.heap r ≡ some t → (r == p) ≡ false
  apart {r} live = elim (Bool-cases (r == p)) [
    | inl e ↦ let same : r ≡ p = ground (arith, e) in cc (live, free, ap q.heap same)
    | inr e ↦ e
  ]

  -- A new timer does not disturb the sets.
  create-IsValid : IsValid (create q p callback when interval)
  unfolding create
  create-IsValid = record {
    timers_sorted = v.timers_sorted;
    active_sorted = v.active_sorted;
    sizes = v.sizes;
    queued = λ w r h.
        let old = v.queued w r h in
        record {
          timer = old.timer;
          live = ground (arith, apart old.live, old.live);
          due = old.due;
          known = old.known;
          addressable = old.addressable;
        };
    active_all = λ r s h.
        let old = v.active_all r s h in
        record {
          timer = old.timer;
          live = ground (arith, apart old.live, old.live);
          own = old.own;
          listed = old.listed;
        };
  }

  create-Unlisted : Unlisted q.active_timers p
  create-Unlisted s = elim (Bool-cases (contains (p, s) q.active_timers)) [
    | inl e ↦ let old = v.active_all p s e in cc (old.live, free)
    | inr e ↦ e
  ]

-- What `AddTimer` has done when it returns the id `(p, sequence)`.
pub record Adds (q : TimerQueue) (p callback when : ℕ) (interval : ℤ) (now : ℕ) (q' : TimerQueue)
    : Type 0 where
  pub valid : IsValid q'
  pub others :
      (y : Pair)
      → contains y q'.active_timers ≡ (pair_eq y (p, q.num_created) || contains y q.active_timers)
  pub live :
      q'.heap p
      ≡ some (record {
        callback = callback;
        expiration = when;
        interval = interval;
        repeat = is_positive interval;
        sequence = q.num_created;
      })
  pub kept : (r : ℕ) → (r == p) ≡ false → q'.heap r ≡ q.heap r
  pub marks : q'.canceling_timers ≡ q.canceling_timers
  pub calling : q'.calling_expired_timers ≡ q.calling_expired_timers
  pub counted : q'.num_created ≡ suc q.num_created
  -- every timer that was there expires later
  pub rearmed :
      ((w r : ℕ) → contains (w, r) q.timers ≡ true → when < w)
      → q'.armed ≡ some (how_many_time_left_now now when)
  -- one does not
  pub unarmed : (w r : ℕ) → contains (w, r) q.timers ≡ true → w ≤ when → q'.armed ≡ q.armed

is_earliest-true :
    (when : ℕ) (ts : List Pair)
    → ((w r : ℕ) → contains (w, r) ts ≡ true → when < w)
    → is_earliest when ts ≡ true
unfolding contains
is_earliest-true when [] h = refl
is_earliest-true when (e ∷ es) h = let k = h e.0 e.1 (ground arith) in ground (arith, k)

is_earliest-false :
    (when w r : ℕ) (ts : List Pair)
    → IsSorted ts
    → contains (w, r) ts ≡ true
    → w ≤ when
    → is_earliest when ts ≡ false
unfolding contains
is_earliest-false when w r [] s there h = cc
is_earliest-false when w r (e ∷ es) s there h =
    ground (arith, there, h, contains-Above e (w, r) es s.0)

new_timer : ℕ → ℕ → ℤ → ℕ → Timer
new_timer callback when interval sequence = record {
  callback = callback;
  expiration = when;
  interval = interval;
  repeat = is_positive interval;
  sequence = sequence;
}

-- the queue that `AddTimer` leaves
added : TimerQueue → ℕ → ℕ → ℕ → ℤ → ℕ → TimerQueue
added q p callback when interval now =
    let q' =
      inserted (create q p callback when interval) p
        (new_timer callback when interval q.num_created) in
    if is_earliest when q.timers then reset_timerfd now when q' else q'

added-Adds :
    (q : TimerQueue) (p callback when : ℕ) (interval : ℤ) (now : ℕ)
    → IsSorted q.timers
    → IsValid (
        inserted
          (create q p callback when interval)
          p
          (new_timer callback when interval q.num_created))
    → Adds q p callback when interval now (added q p callback when interval now)
unfolding added create inserted new_timer
added-Adds q p callback when interval now s v = elim (Bool-cases (is_earliest when q.timers)) [
  | inl e ↦ rw e (record {
    valid = v;
    others = λ y. contains-insert y (p, q.num_created) q.active_timers;
    live = ground arith;
    kept = λ r h. ground (arith, h);
    marks = refl;
    calling = refl;
    counted = refl;
    rearmed = λ _. refl;
    unarmed = λ w r there h. let late = is_earliest-false when w r q.timers s there h in cc;
  })
  | inr e ↦ rw e (record {
    valid = v;
    others = λ y. contains-insert y (p, q.num_created) q.active_timers;
    live = ground arith;
    kept = λ r h. ground (arith, h);
    marks = refl;
    calling = refl;
    counted = refl;
    rearmed = λ h. let early = is_earliest-true when q.timers h in cc;
    unarmed = λ w r there h. refl;
  })
]

module _ (q : TimerQueue) (p callback when : ℕ) (interval : ℤ) (v : IsValid q)
    (free : q.heap p ≡ none) (small : p < max_pointer) where
  created_live :
      (create q p callback when interval).heap p
      ≡ some (new_timer callback when interval q.num_created)
  unfolding create new_timer
  created_live = ground arith

  add_timer_runs :
      (now : ℕ)
      → add_timer q p callback when interval now
        ≡ some ((p, q.num_created), added q p callback when interval now)
  unfolding add_timer add_timer_in_loop added new_timer create
  add_timer_runs now =
      let live = created_live in
      let i =
        insert_timer_lem (create q p callback when interval) p
          (new_timer callback when interval q.num_created)
          (create-IsValid q p callback when interval v free) live small
          (create-Unlisted q p callback when interval v free) in
      ground (arith, i)

-- AddTimer at a free address keeps the invariant and trips no assert. The new timer is live and
-- active under the returned id, whose sequence number is the count of the timers made before;
-- every other timer is as before. The descriptor is set for the new timer if every timer that was
-- in the set expires later, and stays as it is if one of them does not.
pub add_timer_lem :
    (q : TimerQueue) (p callback when : ℕ) (interval : ℤ) (now : ℕ)
    → IsValid q
    → q.heap p ≡ none
    → p < max_pointer
    → (q' : TimerQueue) × (add_timer q p callback when interval now ≡ some ((p, q.num_created), q'))
      × Adds q p callback when interval now q'
unfolding create
add_timer_lem q p callback when interval now v free small = (
  added q p callback when interval now,
  add_timer_runs q p callback when interval v free small now,
  added-Adds q p callback when interval now v.timers_sorted (
      inserted-IsValid (create q p callback when interval) p
        (new_timer callback when interval q.num_created)
        (create-IsValid q p callback when interval v free)
        (created_live q p callback when interval v free small) small
        (create-Unlisted q p callback when interval v free)),
)
