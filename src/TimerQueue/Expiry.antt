-- ===== src/TimerQueue/Expiry.antt =====
-- `getExpired`: exactly the timers that are due leave the two sets, which stay in step.
use base_linux.Base.{
  ℕ, ◌+◌, ◌<◌, ◌≡◌, refl, ap, inl, inr, true, false, ◌&&◌, Option, some, List, [], ◌∷◌, arith,
  length, ltb, leb, Bool-cases, length-append,
}
use base_linux.OrderedSet.{Pair, contains, before, from_bound}
use base_linux.OrderedSet.Order.{IsSorted, before-IsSorted, from_bound-IsSorted}
use base_linux.OrderedSet.Laws.{contains-before, contains-from_bound, before-from}
use base_linux.TimerQueue.{Timer, TimerQueue, max_pointer, ends_after, get_expired}
use base_linux.TimerQueue.Sets.{Queued, Active, Consistent, IsValid, Unlisted, one_timer}
use base_linux.TimerQueue.Pointers.{
  pointer_in, Distinct, contains-pointer_in, pointer_in-contains, AllQueued, sorted-Distinct,
}
use base_linux.TimerQueue.Erasing.{Erases, Owned, erase_active_lem}

-- What a timer is between its expiry and its reset: live, and in neither set.
pub record Held (heap : ℕ → Option Timer) (active : List Pair) (when p : ℕ) : Type 0 where
  pub timer : Timer
  pub live : heap p ≡ some timer
  pub due : timer.expiration ≡ when
  pub out : Unlisted active p
  pub addressable : p < max_pointer

-- What `getExpired` at the time `now` hands out and leaves.
pub record Expires (q : TimerQueue) (now : ℕ) (expired : List Pair) (q' : TimerQueue) : Type 0 where
  pub valid : IsValid q'
  pub chosen : (w p : ℕ) → contains (w, p) expired ≡ (contains (w, p) q.timers && leb w now)
  pub rest : (w p : ℕ) → contains (w, p) q'.timers ≡ (contains (w, p) q.timers && ltb now w)
  pub held : (w p : ℕ) → contains (w, p) expired ≡ true → Held q.heap q'.active_timers w p
  pub distinct : Distinct expired
  pub sorted : IsSorted expired
  pub same : q' ≡ record q { timers = q'.timers; active_timers = q'.active_timers }

ends_after_lem :
    (now : ℕ) (rest : List Pair)
    → ((w p : ℕ) → contains (w, p) rest ≡ true → now < w)
    → ends_after now rest ≡ true
unfolding contains
ends_after_lem now [] h = refl
ends_after_lem now (e ∷ es) h = ground (arith, h e.0 e.1 (ground arith))

module _ (q : TimerQueue) (now : ℕ) (v : IsValid q) where
  sentry : Pair
  sentry = (now, max_pointer)

  expired : List Pair
  expired = before sentry q.timers

  waiting : List Pair
  waiting = from_bound sentry q.timers

  chosen_lem : (w p : ℕ) → contains (w, p) expired ≡ (contains (w, p) q.timers && leb w now)
  unfolding expired sentry
  chosen_lem w p = elim (Bool-cases (contains (w, p) q.timers)) [
    | inl e ↦
        let o = v.queued w p e in
        ground (
          arith,
          e,
          o.addressable,
          contains-before (w, p) (now, max_pointer) q.timers v.timers_sorted,
        )
    | inr e ↦ ground (arith, e, contains-before (w, p) (now, max_pointer) q.timers v.timers_sorted)
  ]

  waiting_lem : (w p : ℕ) → contains (w, p) waiting ≡ (contains (w, p) q.timers && ltb now w)
  unfolding waiting sentry
  waiting_lem w p = elim (Bool-cases (contains (w, p) q.timers)) [
    | inl e ↦
        let o = v.queued w p e in
        ground (
          arith,
          e,
          o.addressable,
          contains-from_bound (w, p) (now, max_pointer) q.timers v.timers_sorted,
        )
    | inr e ↦
        ground (arith, e, contains-from_bound (w, p) (now, max_pointer) q.timers v.timers_sorted)
  ]

  expired_queued : AllQueued q.heap q.active_timers expired
  expired_queued w p c = v.queued w p (ground (arith, c, chosen_lem w p))

  owned : Owned q.heap q.active_timers
  owned p s c = let o = v.active_all p s c in (o.timer, o.live, o.own)

  lengths : length expired + length waiting ≡ length q.timers
  unfolding expired waiting
  lengths = omega (arith, length-append expired waiting, ap length (before-from sentry q.timers))

  expired-IsSorted : IsSorted expired
  unfolding expired
  expired-IsSorted = before-IsSorted sentry q.timers v.timers_sorted

  waiting-IsSorted : IsSorted waiting
  unfolding waiting
  waiting-IsSorted = from_bound-IsSorted sentry q.timers v.timers_sorted

  expired-Distinct : Distinct expired
  expired-Distinct = sorted-Distinct q.heap q.active_timers expired expired_queued expired-IsSorted

  waiting-ends_after : ends_after now waiting ≡ true
  waiting-ends_after = ends_after_lem now waiting (λ w p c. ground (arith, c, waiting_lem w p))

  -- A timer that is left behind shares its address with none that has expired.
  waiting_out : (w p : ℕ) → contains (w, p) waiting ≡ true → pointer_in p expired ≡ false
  waiting_out w p c = elim (Bool-cases (pointer_in p expired)) [
    | inl i ↦
        let m = pointer_in-contains p expired i in
        let a = v.queued w p (ground (arith, c, waiting_lem w p)) in
        let b = expired_queued m.0 p m.1 in
        let one = one_timer q.heap p p a.live b.live refl in
        ground (arith, c, one, a.due, b.due, m.1, waiting_lem w p, chosen_lem m.0 p)
    | inr i ↦ i
  ]

  module _ (active' : List Pair) (e : Erases expired q.active_timers active') where
    waiting_Queued : (w p : ℕ) → contains (w, p) waiting ≡ true → Queued q.heap active' w p
    waiting_Queued w p c =
        let o = v.queued w p (ground (arith, c, waiting_lem w p)) in
        record {
          timer = o.timer;
          live = o.live;
          due = o.due;
          known = ground (arith, o.known, e.left (p, o.timer.sequence), waiting_out w p c);
          addressable = o.addressable;
        }

    active_Active : (p s : ℕ) → contains (p, s) active' ≡ true → Active q.heap waiting p s
    active_Active p s c =
        let l = e.left (p, s) in
        let o = v.active_all p s (ground (arith, c, l)) in
        record {
          timer = o.timer;
          live = o.live;
          own = o.own;
          listed = ground (
            arith,
            c,
            l,
            o.listed,
            waiting_lem o.timer.expiration p,
            chosen_lem o.timer.expiration p,
            contains-pointer_in o.timer.expiration p expired,
          );
        }

    expired_Held : (w p : ℕ) → contains (w, p) expired ≡ true → Held q.heap active' w p
    expired_Held w p c =
        let o = v.queued w p (ground (arith, c, chosen_lem w p)) in
        record {
          timer = o.timer;
          live = o.live;
          due = o.due;
          out = λ s. ground (arith, e.left (p, s), contains-pointer_in w p expired c);
          addressable = o.addressable;
        }

    waiting-IsValid : Consistent q.heap waiting active'
    waiting-IsValid = record {
      timers_sorted = waiting-IsSorted;
      active_sorted = e.sorted;
      sizes = omega (arith, e.size, lengths, v.sizes);
      queued = waiting_Queued;
      active_all = active_Active;
    }

    expired-Expires : Expires q now expired (record q { timers = waiting; active_timers = active' })
    expired-Expires = record {
      valid = waiting-IsValid;
      chosen = chosen_lem;
      rest = waiting_lem;
      held = expired_Held;
      distinct = expired-Distinct;
      sorted = expired-IsSorted;
      same = refl;
    }

-- getExpired on a valid queue trips no assert. It hands out exactly the timers that expire at now
-- or earlier and leaves exactly the later ones, in two sets that are in step; the timers handed
-- out are in the order of expiration, live, at distinct addresses and in neither set, and nothing
-- else has changed.
pub get_expired_lem :
    (q : TimerQueue) (now : ℕ)
    → IsValid q
    → (es : List Pair) × (q' : TimerQueue) × (get_expired q now ≡ some (es, q'))
      × Expires q now es q'
unfolding get_expired expired waiting sentry
get_expired_lem q now v =
    let m =
      erase_active_lem q.heap (expired q now v) q.active_timers v.active_sorted (owned q now v)
        (expired_queued q now v) (expired-Distinct q now v) in
    let valid = waiting-IsValid q now v m.0 m.2 in
    (
      expired q now v,
      record q { timers = waiting q now v; active_timers = m.0 },
      ground (arith, v.sizes, waiting-ends_after q now v, m.1, valid.sizes),
      expired-Expires q now v m.0 m.2,
    )
