-- ===== src/TimerQueue/Inserting.antt =====
-- `Insert`: a live timer that is in neither set goes into both.
use base_linux.Base.{ℕ, ◌<◌, ◌≡◌, inl, inr, true, false, some, arith, length, Bool-cases}
use base_linux.OrderedSet.{pair_eq, contains, insert}
use base_linux.OrderedSet.Order.{insert-IsSorted}
use base_linux.OrderedSet.Laws.{contains-insert, length-insert}
use base_linux.TimerQueue.{max_pointer, Timer, TimerQueue, is_earliest, insert_timer}
use base_linux.TimerQueue.Sets.{Queued, Active, IsValid, Unlisted}

-- the queue with the timer in both sets
unfoldable pub inserted : TimerQueue → ℕ → Timer → TimerQueue
inserted q p t = record q {
  timers = insert (t.expiration, p) q.timers;
  active_timers = insert (p, t.sequence) q.active_timers;
}

module _ (q : TimerQueue) (p : ℕ) (t : Timer) (v : IsValid q) (live : q.heap p ≡ some t)
    (small : p < max_pointer) (out : Unlisted q.active_timers p) where
  not_listed : contains (t.expiration, p) q.timers ≡ false
  not_listed = elim (Bool-cases (contains (t.expiration, p) q.timers)) [
    | inl e ↦ let w = v.queued t.expiration p e in ground (arith, w.known, out w.timer.sequence)
    | inr e ↦ e
  ]

  inserted-queued :
      (when r : ℕ)
      → contains (when, r) (inserted q p t).timers ≡ true
      → Queued q.heap (inserted q p t).active_timers when r
  unfolding inserted
  inserted-queued when r h = elim (Bool-cases (pair_eq (when, r) (t.expiration, p))) [
    | inl e ↦ record {
      timer = t;
      live = ground (arith, e, live);
      due = ground (arith, e);
      addressable = ground (arith, e);
      known = ground (arith, e, contains-insert (r, t.sequence) (p, t.sequence) q.active_timers);
    }
    | inr e ↦
        let w =
          v.queued when r
            (ground (arith, e, h, contains-insert (when, r) (t.expiration, p) q.timers)) in
        record {
          timer = w.timer;
          live = w.live;
          due = w.due;
          addressable = w.addressable;
          known = ground (
            arith,
            w.known,
            contains-insert (r, w.timer.sequence) (p, t.sequence) q.active_timers,
          );
        }
  ]

  inserted-active :
      (r s : ℕ)
      → contains (r, s) (inserted q p t).active_timers ≡ true
      → Active q.heap (inserted q p t).timers r s
  unfolding inserted
  inserted-active r s h = elim (Bool-cases (pair_eq (r, s) (p, t.sequence))) [
    | inl e ↦ record {
      timer = t;
      live = ground (arith, e, live);
      own = ground (arith, e);
      listed = ground (arith, e, contains-insert (t.expiration, r) (t.expiration, p) q.timers);
    }
    | inr e ↦
        let w =
          v.active_all r s
            (ground (arith, e, h, contains-insert (r, s) (p, t.sequence) q.active_timers)) in
        record {
          timer = w.timer;
          live = w.live;
          own = w.own;
          listed =
              ground (
                arith,
                w.listed,
                contains-insert (w.timer.expiration, r) (t.expiration, p) q.timers,
              );
        }
  ]

  inserted-sizes : length (inserted q p t).active_timers ≡ length (inserted q p t).timers
  unfolding inserted
  inserted-sizes = omega (
    arith,
    v.sizes,
    length-insert (t.expiration, p) q.timers v.timers_sorted not_listed,
    length-insert (p, t.sequence) q.active_timers v.active_sorted (out t.sequence),
  )

  pub inserted-IsValid : IsValid (inserted q p t)
  unfolding inserted
  inserted-IsValid = record {
    timers_sorted = insert-IsSorted (t.expiration, p) q.timers v.timers_sorted;
    active_sorted = insert-IsSorted (p, t.sequence) q.active_timers v.active_sorted;
    sizes = inserted-sizes;
    queued = inserted-queued;
    active_all = inserted-active;
  }

  -- `Insert` of a live timer that is in neither set trips no `assert`.
  pub insert_timer_lem : insert_timer q p ≡ some (is_earliest t.expiration q.timers, inserted q p t)
  unfolding insert_timer inserted
  insert_timer_lem = ground (arith, live, v.sizes, inserted-sizes)
