-- ===== src/TimerQueue/Stopping.antt =====
-- A callback that cancels a timer of its own round: the timer does not come back.
use base_linux.Base.{
  ℕ, ◌≡◌, refl, sym, ◌∙◌, inl, inr, true, false, Option, none, some, List, [], ◌∷◌, arith,
  Bool-cases,
}
use base_linux.OrderedSet.{Pair, pair_eq, contains}
use base_linux.TimerQueue.{
  Timer, TimerQueue, TimestampLib, Command, cancel_in_loop, run_callbacks, reset_entries,
}
use base_linux.TimerQueue.Cancelling.{cancel_in_loop_lem}
use base_linux.TimerQueue.Rounds.{Round, WellBehaved, run_rest, Cancels-Round}
use base_linux.TimerQueue.Resetting.{back, back_pair}
use base_linux.TimerQueue.HandleRead.{reset_entries_lem}

-- A pair that is marked as cancelled does not go back,
marked-pair :
    (canceling : List Pair) (p : ℕ) (o : Option Timer) (y : Pair)
    → contains y canceling ≡ true
    → back_pair canceling p o y ≡ false
unfolding back_pair
marked-pair canceling p none y h = refl
marked-pair canceling p (some t) y h = elim (Bool-cases (pair_eq y (p, t.sequence))) [
  | inl same ↦
      let first : y.0 ≡ p = ground (arith, same) in
      let second : y.1 ≡ t.sequence = ground (arith, same) in
      let marked : contains (p, t.sequence) canceling ≡ true = rw (sym first, sym second) h in
      ground (arith, marked)
  | inr other ↦ ground (arith, other)
]

-- whichever timers have expired.
marked-stays :
    (heap : ℕ → Option Timer) (canceling es : List Pair) (y : Pair)
    → contains y canceling ≡ true
    → back heap canceling es y ≡ false
unfolding back
marked-stays heap canceling [] y h = refl
marked-stays heap canceling (e ∷ es) y h =
    ground (arith, marked-pair canceling e.1 (heap e.1) y h, marked-stays heap canceling es y h)

module _ (commands : ℕ → TimerQueue → List Command) (lib : TimestampLib) where
  -- A callback of a round cancels a timer that has expired in this round, its own or another: the
  -- other callbacks of the round and `Reset` run through, the timer is freed even if it
  -- repeats, and its id is not active afterwards.
  pub cancel-reset :
      (q : TimerQueue) (es todo : List Pair) (w p : ℕ) (t : Timer) (now : ℕ)
      → WellBehaved commands
      → Round q es
      → q.calling_expired_timers ≡ true
      → contains (w, p) es ≡ true
      → q.heap p ≡ some t
      → ((v r : ℕ) → contains (v, r) todo ≡ true → contains (v, r) es ≡ true)
      → (q1 : TimerQueue) × (q2 : TimerQueue) × (q3 : TimerQueue) × (cancel_in_loop q
            (p, t.sequence)
          ≡ some q1)
        × (run_callbacks commands q1 todo ≡ some q2)
        × (reset_entries lib (record q2 { calling_expired_timers = false }) es now ≡ some q3)
        × (q3.heap p ≡ none)
        × (contains (p, t.sequence) q3.active_timers ≡ false)
  cancel-reset q es todo w p t now good r calling c live sub =
      let id : Pair = (p, t.sequence) in
      let m = cancel_in_loop_lem q id r.valid in
      let k = Cancels-Round q es id m.0 r m.2 in
      let n = run_rest commands m.0.heap todo m.0 es good k.0 sub (λ w p c. refl) in
      let z =
        reset_entries_lem lib es (record n.0 { calling_expired_timers = false }) now
          (record { valid = n.2.valid; held = n.2.held; distinct = n.2.distinct }) in
      let noted = n.3.marks id (m.2.noted ((r.held w p c).out t.sequence) calling) in
      let alive = n.3.alive w p c ∙ k.1.alive w p c ∙ live in
      (
        m.0,
        n.0,
        z.0,
        m.1,
        n.1,
        z.1,
        z.2.freed w p t c alive (ground (arith, noted)),
        ground (
          arith,
          z.2.active id,
          (n.2.held w p c).out t.sequence,
          marked-stays n.0.heap n.0.canceling_timers es id noted,
        ),
      )
