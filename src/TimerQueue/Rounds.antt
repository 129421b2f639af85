-- ===== src/TimerQueue/Rounds.antt =====
-- Between `getExpired` and the end of `Reset`: the expired timers are live and in neither set,
-- whatever the callbacks add and cancel.
use base_linux.Base.{
  ℕ, ◌<◌, ◌≡◌, refl, sym, ap, ◌∙◌, inl, inr, true, false, Option, none, some, List, [], ◌∷◌, arith,
  ◌==◌, Bool-cases,
}
use base_linux.Base.Int.{ℤ}
use base_linux.OrderedSet.{Pair, pair_eq, contains}
use base_linux.TimerQueue.{
  Timer, TimerQueue, max_pointer, Command, adds, cancels, run_command, run_commands, run_callbacks,
}
use base_linux.TimerQueue.Sets.{IsValid, Unlisted}
use base_linux.TimerQueue.Pointers.{Distinct}
use base_linux.TimerQueue.Expiry.{Held}
use base_linux.TimerQueue.Cancelling.{Cancels, cancel_in_loop_lem}
use base_linux.TimerQueue.Adding.{Adds, add_timer_lem}

pub record Round (q : TimerQueue) (es : List Pair) : Type 0 where
  pub valid : IsValid q
  pub held : (w p : ℕ) → contains (w, p) es ≡ true → Held q.heap q.active_timers w p
  pub distinct : Distinct es

-- The allocator hands out addresses that are free, and not the very last one.
abbrev pub Allowed : TimerQueue → Command → Type 0
Allowed q (adds p callback when interval now) = (q.heap p ≡ none) × (p < max_pointer)
Allowed q (cancels id) = Unit {0}

-- What stays as it is through a command, or only grows.
pub record Keeps (es : List Pair) (q q' : TimerQueue) : Type 0 where
  pub calling : q'.calling_expired_timers ≡ q.calling_expired_timers
  pub marks :
      (y : Pair) → contains y q.canceling_timers ≡ true → contains y q'.canceling_timers ≡ true
  pub alive : (w p : ℕ) → contains (w, p) es ≡ true → q'.heap p ≡ q.heap p

Keeps-refl : (es : List Pair) (q : TimerQueue) → Keeps es q q
Keeps-refl es q = record { calling = refl; marks = λ y h. h; alive = λ w p c. refl }

Keeps-trans : (es : List Pair) {q r s : TimerQueue} → Keeps es q r → Keeps es r s → Keeps es q s
Keeps-trans es a b = record {
  calling = b.calling ∙ a.calling;
  marks = λ y h. b.marks y (a.marks y h);
  alive = λ w p c. b.alive w p c ∙ a.alive w p c;
}

-- An address that is handed out is not that of an expired timer.
adds-apart :
    (q : TimerQueue) (es : List Pair)
    → Round q es
    → (p0 w p : ℕ) → q.heap p0 ≡ none
    → contains (w, p) es ≡ true
    → (p == p0) ≡ false
adds-apart q es r p0 w p free e = elim (Bool-cases (p == p0)) [
  | inl same ↦
      let h = r.held w p e in
      let same' : p ≡ p0 = ground (arith, same) in cc (h.live, free, ap q.heap same')
  | inr other ↦ other
]

module _ {q q' : TimerQueue} (es : List Pair) (r : Round q es) where
  -- A timer that has expired is not freed by a cancellation,
  Cancels-alive :
      (id : Pair) → Cancels q id q' → (w p : ℕ) → contains (w, p) es ≡ true → q'.heap p ≡ q.heap p
  Cancels-alive id c w p e =
      let h = r.held w p e in
      elim (Bool-cases (contains id q.active_timers)) [
        | inl active ↦
            let other : (p == id.0) ≡ false = elim (Bool-cases (p == id.0)) [
              | inl same ↦
                  let same' : p ≡ id.0 = ground (arith, same) in cc (active, h.out id.1, same')
              | inr other ↦ other
            ] in
            c.kept p other
        | inr idle ↦ ap (λ (f : ℕ → Option Timer). f p) (c.untouched idle)
      ]

  -- nor listed by it.
  Cancels-Held :
      (id : Pair)
      → Cancels q id q'
      → (w p : ℕ) → contains (w, p) es ≡ true
      → Held q'.heap q'.active_timers w p
  Cancels-Held id c w p e =
      let h = r.held w p e in
      let absent : Unlisted q'.active_timers p = λ s. elim (Bool-cases (pair_eq (p, s) id)) [
        | inl same ↦
            let first : p ≡ id.0 = ground (arith, same) in
            let second : s ≡ id.1 = ground (arith, same) in rw (first, second) c.gone
        | inr other ↦ c.others (p, s) other ∙ h.out s
      ] in
      record {
        timer = h.timer;
        live = Cancels-alive id c w p e ∙ h.live;
        due = h.due;
        out = absent;
        addressable = h.addressable;
      }

  adds-Held :
      (p0 callback when : ℕ) (interval : ℤ) (now : ℕ)
      → q.heap p0 ≡ none
      → Adds q p0 callback when interval now q'
      → (w p : ℕ) → contains (w, p) es ≡ true
      → Held q'.heap q'.active_timers w p
  adds-Held p0 callback when interval now free a w p e =
      let h = r.held w p e in
      let other = adds-apart q es r p0 w p free e in
      record {
        timer = h.timer;
        live = a.kept p other ∙ h.live;
        due = h.due;
        out = λ s. ground (arith, other, a.others (p, s), h.out s);
        addressable = h.addressable;
      }

-- A cancellation keeps the round in order.
pub Cancels-Round :
    (q : TimerQueue) (es : List Pair) (id : Pair) (q' : TimerQueue)
    → Round q es
    → Cancels q id q'
    → Round q' es × Keeps es q q'
Cancels-Round q es id q' r c = (
  record { valid = c.valid; held = Cancels-Held es r id c; distinct = r.distinct },
  record { calling = c.calling; marks = c.marks; alive = Cancels-alive es r id c },
)

-- Each command of a callback keeps the round in order.
run_command-Round :
    (q : TimerQueue) (es : List Pair) (c : Command)
    → Round q es
    → Allowed q c
    → (q' : TimerQueue) × (run_command q c ≡ some q') × Round q' es × Keeps es q q'
unfolding run_command
run_command-Round q es (adds p callback when interval now) r free =
    let m = add_timer_lem q p callback when interval now r.valid free.0 free.1 in
    let a = m.2 in
    (
      m.0,
      rw (m.1) refl,
      record {
        valid = a.valid;
        held = adds-Held es r p callback when interval now free.0 a;
        distinct = r.distinct;
      },
      record {
        calling = a.calling;
        marks = λ y h. ap (contains y) a.marks ∙ h;
        alive = λ w s c. a.kept s (adds-apart q es r p w s free.0 c);
      },
    )
run_command-Round q es (cancels id) r free =
    let m = cancel_in_loop_lem q id r.valid in
    let k = Cancels-Round q es id m.0 r m.2 in (m.0, m.1, k.0, k.1)

-- Every command of the list is allowed where it runs.
abbrev pub AllAllowed : TimerQueue → List Command → Type 0
AllAllowed q [] = Unit {0}
AllAllowed q (c ∷ cs) =
    Allowed q c × ((q' : TimerQueue) → run_command q c ≡ some q' → AllAllowed q' cs)

pub run_commands-Round :
    (cs : List Command) (q : TimerQueue) (es : List Pair)
    → Round q es
    → AllAllowed q cs
    → (q' : TimerQueue) × (run_commands q cs ≡ some q') × Round q' es × Keeps es q q'
unfolding run_commands
run_commands-Round [] q es r all = (q, refl, r, Keeps-refl es q)
run_commands-Round (c ∷ cs) q es r all =
    let m = run_command-Round q es c r all.0 in
    let n = run_commands-Round cs m.0 es m.2 (all.1 m.0 m.1) in
    (n.0, rw (m.1) n.1, n.2, Keeps-trans es m.3 n.3)

module _ (commands : ℕ → TimerQueue → List Command) where
  -- Of every callback, wherever it runs.
  abbrev pub WellBehaved : Type 0
  WellBehaved = (callback : ℕ) (q : TimerQueue) → AllAllowed q (commands callback q)

  -- The callbacks of the entries run one after another, each once, from one queue to another:
  -- the callback is that of the timer as it was on the heap `heap`.
  pub data Calls (heap : ℕ → Option Timer) : List Pair → TimerQueue → TimerQueue → Type 0 where
    finished : (q : TimerQueue) → Calls heap [] q q
    called :
        (e : Pair) (es : List Pair) (timer : Timer) (q r s : TimerQueue)
        → heap e.1 ≡ some timer
        → run_commands q (commands timer.callback q) ≡ some r
        → Calls heap es r s
        → Calls heap (e ∷ es) q s

  pub run_rest :
      (heap : ℕ → Option Timer) (todo : List Pair) (q : TimerQueue) (es : List Pair)
      → WellBehaved
      → Round q es
      → ((w p : ℕ) → contains (w, p) todo ≡ true → contains (w, p) es ≡ true)
      → ((w p : ℕ) → contains (w, p) es ≡ true → q.heap p ≡ heap p)
      → (q' : TimerQueue) × (run_callbacks commands q todo ≡ some q')
        × Round q' es
        × Keeps es q q'
        × Calls heap todo q q'
  unfolding run_callbacks contains
  run_rest heap [] q es good r sub same = (q, refl, r, Keeps-refl es q, finished q)
  run_rest heap (e ∷ todo) q es good r sub same =
      let in_round = sub e.0 e.1 (ground arith) in
      let h = r.held e.0 e.1 in_round in
      let m = run_commands-Round (commands h.timer.callback q) q es r (good h.timer.callback q) in
      let n =
        run_rest heap todo m.0 es good m.2 (λ w p c. sub w p (ground (arith, c)))
          (λ w p c. m.3.alive w p c ∙ same w p c) in
      (
        n.0,
        ground (arith, h.live, m.1, n.1),
        n.2,
        Keeps-trans es m.3 n.3,
        called e todo h.timer q m.0 n.0 (sym (same e.0 e.1 in_round) ∙ h.live) m.1 n.4,
      )

  -- The callbacks of a round all run, each once and in order: no `Timer` is used after it was freed.
  pub run_callbacks-Round :
      (q : TimerQueue) (es : List Pair)
      → WellBehaved
      → Round q es
      → (q' : TimerQueue) × (run_callbacks commands q es ≡ some q')
        × Round q' es
        × Keeps es q q'
        × Calls q.heap es q q'
  run_callbacks-Round q es good r = run_rest q.heap es q es good r (λ w p c. c) (λ w p c. refl)
