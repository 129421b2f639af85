-- ===== src/TimerQueue/HandleRead.antt =====
-- `HandleRead`: a whole round of expired timers, with what their callbacks add and cancel.
use base_linux.Base.{
  update, ℕ, ◌≡◌, refl, ap, subst, ◌∙◌, inl, inr, true, false, Option, some, List, [], ◌∷◌, arith,
  Bool-cases,
}
use base_linux.OrderedSet.{Pair, contains}
use base_linux.TimerQueue.{
  TimerQueue, TimestampLib, Command, restart, reset_entries, rearm, Timespec, handle_read,
  how_many_time_left_now,
}
use base_linux.TimerQueue.Sets.{IsValid}
use base_linux.TimerQueue.Expiry.{Expires, get_expired_lem}
use base_linux.TimerQueue.Inserting.{insert_timer_lem}
use base_linux.TimerQueue.Rounds.{Round, Keeps, Calls, WellBehaved, run_callbacks-Round}
use base_linux.TimerQueue.Resetting.{
  Resets, goes_back, back, head_held, returned, returned-Round, returned-Resets, dropped,
  dropped-Round, dropped-Resets, update-IsValid,
}

module _ (lib : TimestampLib) where
  reset_head_back :
      (q : TimerQueue) (e : Pair) (es : List Pair) (now : ℕ) (r : Round q (e ∷ es))
      → goes_back q.canceling_timers e.1 (head_held lib q e es now r).timer ≡ true
      → reset_entries lib q (e ∷ es) now ≡ reset_entries lib (returned lib q e es now r) es now
  unfolding reset_entries returned
  reset_head_back q e es now r g =
      let h = head_held lib q e es now r in
      let t = restart lib h.timer now in
      let i =
        insert_timer_lem (record q { heap = update q.heap e.1 (some t) }) e.1 t
          (update-IsValid q e.1 (some t) r.valid h.out) (ground arith) h.addressable h.out in
      ground (arith, h.live, g, i)

  reset_head_gone :
      (q : TimerQueue) (e : Pair) (es : List Pair) (now : ℕ) (r : Round q (e ∷ es))
      → goes_back q.canceling_timers e.1 (head_held lib q e es now r).timer ≡ false
      → reset_entries lib q (e ∷ es) now ≡ reset_entries lib (dropped lib q e es now r) es now
  unfolding reset_entries dropped
  reset_head_gone q e es now r g = let h = head_held lib q e es now r in ground (arith, h.live, g)

  -- The loop of `Reset` runs through: no `assert` fails and no freed timer is used.
  pub reset_entries_lem :
      (es : List Pair) (q : TimerQueue) (now : ℕ)
      → Round q es
      → (q' : TimerQueue) × (reset_entries lib q es now ≡ some q') × Resets lib q es now q'
  unfolding reset_entries back contains
  reset_entries_lem [] q now r = (
    q,
    refl,
    record {
      valid = r.valid;
      active = λ y. ground arith;
      restarted = λ w p t c. cc;
      freed = λ w p t c. cc;
      kept = λ p _. refl;
    },
  )
  reset_entries_lem (e ∷ es) q now r =
      elim (Bool-cases (goes_back q.canceling_timers e.1 (head_held lib q e es now r).timer)) [
        | inl g ↦
            let m =
              reset_entries_lem es (returned lib q e es now r) now
                (returned-Round lib q e es now r) in
            (m.0, reset_head_back q e es now r g ∙ m.1, returned-Resets lib q e es now r m.0 g m.2)
        | inr g ↦
            let m =
              reset_entries_lem es (dropped lib q e es now r) now
                (dropped-Round lib q e es now r) in
            (m.0, reset_head_gone q e es now r g ∙ m.1, dropped-Resets lib q e es now r m.0 g m.2)
      ]

-- What the descriptor is set for, when the first timer that is left decides.
abbrev pub next_armed : ℕ → List Pair → Option Timespec → Option Timespec
next_armed later [] old = old
next_armed later (e ∷ es) old = some (how_many_time_left_now later e.0)

rearm_on :
    (ts : List Pair) (q : TimerQueue) (later : ℕ)
    → q.timers ≡ ts
    → IsValid q
    → rearm q later ≡ some (record q { armed = next_armed later ts q.armed })
unfolding rearm contains
rearm_on [] q later same v = ground (arith, same)
rearm_on (e ∷ es) q later same v =
    let w = v.queued e.0 e.1 (rw same (ground arith)) in ground (arith, same, w.live, w.due)

-- `Reset` ends by setting the descriptor for the first timer that is left.
pub rearm_lem :
    (q : TimerQueue) (later : ℕ)
    → IsValid q
    → rearm q later ≡ some (record q { armed = next_armed later q.timers q.armed })
rearm_lem q later v = rearm_on q.timers q later refl v

-- What a whole round has done: `expired` are the timers that were due, `started` is the queue
-- without them, `called` the queue once their callbacks have run, and `after` the queue that is
-- left.
pub record Handles (commands : ℕ → TimerQueue → List Command) (lib : TimestampLib) (q : TimerQueue)
    (now later : ℕ) (expired : List Pair) (started called after : TimerQueue) : Type 0 where
  pub expires : Expires q now expired started
  pub round : Round called expired
  -- the callback of each timer that was due has run, once, in the order of expiration
  pub calls :
      Calls commands q.heap expired
        (record started { calling_expired_timers = true; canceling_timers = [] })
        called
  pub keeps :
      Keeps expired (record started { calling_expired_timers = true; canceling_timers = [] }) called
  -- up to the descriptor
  pub reset : TimerQueue
  pub resets : Resets lib (record called { calling_expired_timers = false }) expired now reset
  pub rearmed : after ≡ record reset { armed = next_armed later reset.timers reset.armed }
  pub valid : IsValid after

-- The round starts: the callbacks find a queue without the expired timers.
started-Round :
    (q : TimerQueue) (now : ℕ) (es : List Pair) (q1 : TimerQueue)
    → Expires q now es q1
    → Round (record q1 { calling_expired_timers = true; canceling_timers = [] }) es
started-Round q now es q1 e = record {
  valid = e.valid;
  held = λ w p c.
      let h = e.held w p c in
      record {
        timer = h.timer;
        live = ap (λ (r : TimerQueue). r.heap p) e.same ∙ h.live;
        due = h.due;
        out = h.out;
        addressable = h.addressable;
      };
  distinct = e.distinct;
}

module _ (commands : ℕ → TimerQueue → List Command) (lib : TimestampLib) where
  -- HandleRead on a valid queue runs through, with callbacks that add timers at free addresses
  -- and cancel what they like: no assert fails and no freed timer is used. The callbacks of
  -- exactly the timers that are due, as the timers were before the round, run one after
  -- another, each once, in the order of expiration, each on the queue that the one before it
  -- left; then the timers are reset, each that repeats and was not cancelled meanwhile going
  -- back into the sets with its new expiration and each other one being freed, the queue is
  -- valid again, and the descriptor is set for its first timer.
  pub handle_read_lem :
      (q : TimerQueue) (now later : ℕ)
      → WellBehaved commands
      → IsValid q
      → (expired : List Pair) × (started : TimerQueue) × (called : TimerQueue)
        × (after : TimerQueue) × (handle_read commands lib q now later ≡ some after)
        × Handles commands lib q now later expired started called after
  unfolding handle_read
  handle_read_lem q now later good v =
      let x = get_expired_lem q now v in
      let r = started-Round q now x.0 x.1 x.3 in
      let n1 : TimerQueue = record x.1 { calling_expired_timers = true; canceling_timers = [] } in
      let c = run_callbacks-Round commands n1 x.0 good r in
      let n = record c.0 { calling_expired_timers = false } in
      let z =
        reset_entries_lem lib x.0 n now
          (record { valid = c.2.valid; held = c.2.held; distinct = c.2.distinct }) in
      let a = rearm_lem z.0 later z.2.valid in
      (
        x.0,
        x.1,
        c.0,
        record z.0 { armed = next_armed later z.0.timers z.0.armed },
        ground (arith, x.2, c.1, z.1, a),
        record {
          expires = x.3;
          round = c.2;
          calls =
              subst (λ heap. Calls commands heap x.0 n1 c.0)
                (ap (λ (r : TimerQueue). r.heap) x.3.same) c.4;
          keeps = c.3;
          reset = z.0;
          resets = z.2;
          rearmed = refl;
          valid = z.2.valid;
        },
      )
