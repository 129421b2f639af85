-- ===== src/TimerQueue/Cancelling.antt =====
-- `Cancel` and `CancelInLoop`.
use base_linux.Base.{
  update, ℕ, ◌≡◌, refl, inl, inr, true, false, none, some, arith, length, ◌==◌, Bool-cases,
}
use base_linux.OrderedSet.{Pair, pair_eq, contains, insert, erase}
use base_linux.OrderedSet.Order.{erase-IsSorted}
use base_linux.OrderedSet.Laws.{contains-insert, contains-erase, length-erase}
use base_linux.TimerQueue.{Timer, TimerQueue, cancel_in_loop}
use base_linux.TimerQueue.Sets.{Queued, Active, IsValid, one_timer}

-- the queue without the timer, which is freed
cancelled : TimerQueue → Pair → Timer → TimerQueue
cancelled q id t = record q {
  timers = erase (t.expiration, id.0) q.timers;
  heap = update q.heap id.0 none;
  active_timers = erase id q.active_timers;
}

module _ (q : TimerQueue) (id : Pair) (v : IsValid q)
    (held : contains id q.active_timers ≡ true) where
  -- the timer of the id
  holder : Active q.heap q.timers id.0 id.1
  holder = v.active_all id.0 id.1 held

  cancelled-queued :
      (when r : ℕ)
      → contains (when, r) (cancelled q id holder.timer).timers ≡ true
      → Queued (cancelled q id holder.timer).heap (cancelled q id holder.timer).active_timers when r
  unfolding cancelled
  cancelled-queued when r h =
      let t = holder.timer in
      let c = contains-erase (when, r) (t.expiration, id.0) q.timers in
      let w = v.queued when r (ground (arith, h, c)) in
      let live = holder.live in
      let own = holder.own in
      let other : (r == id.0) ≡ false = elim (Bool-cases (r == id.0)) [
        | inl e ↦
            let same = one_timer q.heap r id.0 (w.live) live (ground (arith, e)) in
            ground (arith, e, h, c, same, w.due)
        | inr e ↦ e
      ] in
      record {
        timer = w.timer;
        live = ground (arith, other, w.live);
        due = w.due;
        addressable = w.addressable;
        known =
            ground (arith, other, w.known, contains-erase (r, w.timer.sequence) id q.active_timers);
      }

  cancelled-active :
      (r s : ℕ)
      → contains (r, s) (cancelled q id holder.timer).active_timers ≡ true
      → Active (cancelled q id holder.timer).heap (cancelled q id holder.timer).timers r s
  unfolding cancelled
  cancelled-active r s h =
      let t = holder.timer in
      let c = contains-erase (r, s) id q.active_timers in
      let w = v.active_all r s (ground (arith, h, c)) in
      let live = holder.live in
      let own = holder.own in
      let other : (r == id.0) ≡ false = elim (Bool-cases (r == id.0)) [
        | inl e ↦
            let same = one_timer q.heap r id.0 (w.live) live (ground (arith, e)) in
            ground (arith, e, h, c, same, w.own, own)
        | inr e ↦ e
      ] in
      record {
        timer = w.timer;
        live = ground (arith, other, w.live);
        own = w.own;
        listed = ground (
          arith,
          other,
          w.listed,
          contains-erase (w.timer.expiration, r) (t.expiration, id.0) q.timers,
        );
      }

  cancelled-sizes :
      length (cancelled q id holder.timer).active_timers
      ≡ length (cancelled q id holder.timer).timers
  unfolding cancelled
  cancelled-sizes = omega (
    arith,
    v.sizes,
    length-erase (holder.timer.expiration, id.0) q.timers v.timers_sorted holder.listed,
    length-erase id q.active_timers v.active_sorted held,
  )

  cancelled-IsValid : IsValid (cancelled q id holder.timer)
  unfolding cancelled
  cancelled-IsValid = record {
    timers_sorted = erase-IsSorted (holder.timer.expiration, id.0) q.timers v.timers_sorted;
    active_sorted = erase-IsSorted id q.active_timers v.active_sorted;
    sizes = cancelled-sizes;
    queued = cancelled-queued;
    active_all = cancelled-active;
  }

  cancel-held : cancel_in_loop q id ≡ some (cancelled q id holder.timer)
  unfolding cancel_in_loop cancelled
  cancel-held = ground (arith, held, holder.live, holder.listed, v.sizes, cancelled-sizes)

-- What `Cancel` has done when it returns.
pub record Cancels (q : TimerQueue) (id : Pair) (q' : TimerQueue) : Type 0 where
  pub valid : IsValid q'
  pub gone : contains id q'.active_timers ≡ false
  pub others :
      (y : Pair) → pair_eq y id ≡ false → contains y q'.active_timers ≡ contains y q.active_timers
  pub freed : contains id q.active_timers ≡ true → q'.heap id.0 ≡ none
  pub kept : (p : ℕ) → (p == id.0) ≡ false → q'.heap p ≡ q.heap p
  pub untouched : contains id q.active_timers ≡ false → q'.heap ≡ q.heap
  pub noted :
      contains id q.active_timers ≡ false
      → q.calling_expired_timers ≡ true
      → contains id q'.canceling_timers ≡ true
  pub marks :
      (y : Pair) → contains y q.canceling_timers ≡ true → contains y q'.canceling_timers ≡ true
  pub calling : q'.calling_expired_timers ≡ q.calling_expired_timers

held-Cancels :
    (q : TimerQueue) (id : Pair) (v : IsValid q) (held : contains id q.active_timers ≡ true)
    → Cancels q id (cancelled q id (holder q id v held).timer)
unfolding cancelled
held-Cancels q id v held = record {
  valid = cancelled-IsValid q id v held;
  gone = ground (arith, contains-erase id id q.active_timers);
  others = λ y e. ground (arith, e, contains-erase y id q.active_timers);
  freed = λ _. ground arith;
  kept = λ p e. ground (arith, e);
  untouched = λ e. cc;
  noted = λ e. cc;
  marks = λ y h. h;
  calling = refl;
}

-- `Cancel` keeps the invariant and trips no `assert`, whatever the id is. Afterwards the id is in
-- neither set and every other timer is as before; if the timer was active it is freed, and if not,
-- the heap is untouched and, while expired timers are being called, the id is marked as cancelled.
pub cancel_in_loop_lem :
    (q : TimerQueue) (id : Pair)
    → IsValid q
    → (q' : TimerQueue) × (cancel_in_loop q id ≡ some q') × Cancels q id q'
unfolding cancel_in_loop
cancel_in_loop_lem q id v = elim (Bool-cases (contains id q.active_timers)) [
  | inl held ↦
      (cancelled q id (holder q id v held).timer, cancel-held q id v held, held-Cancels q id v held)
  | inr e ↦ elim (Bool-cases q.calling_expired_timers) [
    | inl c ↦ (
      record q { canceling_timers = insert id q.canceling_timers },
      ground (arith, e, c, v.sizes),
      record {
        valid = v;
        gone = e;
        others = λ y _. refl;
        freed = λ h. cc;
        kept = λ p _. refl;
        untouched = λ _. refl;
        noted = λ _ _. ground (arith, contains-insert id id q.canceling_timers);
        marks = λ y h. ground (arith, h, contains-insert y id q.canceling_timers);
        calling = refl;
      },
    )
    | inr c ↦ (
      q,
      ground (arith, e, c, v.sizes),
      record {
        valid = v;
        gone = e;
        others = λ y _. refl;
        freed = λ h. cc;
        kept = λ p _. refl;
        untouched = λ _. refl;
        noted = λ _ h. cc;
        marks = λ y h. h;
        calling = refl;
      },
    )
  ]
]
